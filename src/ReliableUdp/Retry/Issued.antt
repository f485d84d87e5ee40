-- ===== src/ReliableUdp/Retry/Issued.antt =====
-- crates/reliable-udp/src/retry.rs: which cookies `validate_cookie` accepts.
use dart_udp.Base.{
  ℕ, zero, suc, ◌+◌, ◌-◌, ◌*◌, ◌/◌, ◌%◌, ◌≤◌, ◌==◌, ==_iff, ◌≡◌, ◌↔◌, refl, sym, ap, ◌∙◌, subst,
  arith, ltb, ltb→le, true, Bool-cases, inl, inr, some, List, [], ◌∷◌, ◌++◌, All, length,
  length-append, length-take, take, drop, take-append-drop, take-length-append, drop-length-append,
  ok, ok-injective,
}
use dart_udp.Base.Words.{
  IsByte, be_bytes, be_value, be_value-append, from_be_bytes, from_be_bytes-be_bytes,
  length-be_bytes, saturating_add, saturating_sub, u64_max,
}
use dart_udp.ReliableUdp.Retry.{
  Crypto, CookieContext, as_secs, sign, issue_cookie, validate_at, validate_cookie, other_version,
  unix_seconds, cookie_len, tag_len,
}

-- The last byte of a list that is not empty.
snoc-cases :
    (n : ℕ) (bs : List ℕ)
    → length bs ≡ suc n
    → All IsByte bs
    → (front : List ℕ) × (last : ℕ) × (bs ≡ front ++ (last ∷ []))
      × (length front ≡ n)
      × IsByte last
      × All IsByte front
snoc-cases n [] h a = absurd (omega arith)
snoc-cases zero (b ∷ []) h (p, a) = ([], b, refl, refl, p, tt)
snoc-cases zero (b ∷ (d ∷ bs)) h a = absurd (omega arith)
snoc-cases (suc n) (b ∷ []) h a = absurd (omega arith)
snoc-cases (suc n) (b ∷ (d ∷ bs)) h (p, a) =
    let (front, last, e, l, q, r) = snoc-cases n (d ∷ bs) (omega arith) a in
    (b ∷ front, last, ap (◌∷◌ b) e, omega (arith, l), q, (p, r))

-- A word that is read and written again.
be_bytes-from_be_bytes :
    (n : ℕ) (bs : List ℕ) → length bs ≡ n → All IsByte bs → be_bytes n (from_be_bytes bs) ≡ bs
unfolding be_bytes be_value
be_bytes-from_be_bytes zero [] h a = refl
be_bytes-from_be_bytes zero (b ∷ bs) h a = absurd (omega arith)
be_bytes-from_be_bytes (suc n) bs h a =
    let (front, last, e, l, small, rest) = snoc-cases n bs h a in
    let value : from_be_bytes bs ≡ from_be_bytes front * 256 + last =
      ap from_be_bytes e ∙ be_value-append 0 front (last ∷ []) in
    let high : from_be_bytes bs / 256 ≡ from_be_bytes front = omega (arith, value, small) in
    let low : from_be_bytes bs % 256 ≡ last = omega (arith, value, small) in
    ap (λ q. be_bytes n q ++ ((from_be_bytes bs % 256) ∷ [])) high
    ∙ ap (λ d. be_bytes n (from_be_bytes front) ++ (d ∷ [])) low
    ∙ ap (λ t. t ++ (last ∷ [])) (be_bytes-from_be_bytes n front l rest)
    ∙ sym e

All-take : (n : ℕ) (bs : List ℕ) → All IsByte bs → All IsByte (take n bs)
All-take zero bs a = tt
All-take (suc n) [] a = tt
All-take (suc n) (b ∷ bs) (p, a) = (p, All-take n bs a)

module _ (c : Crypto) (secret : List ℕ) (context : CookieContext) where
  -- The code of the context at a time.
  abbrev tag_at : ℕ → List ℕ
  tag_at timestamp =
      take tag_len (sign c secret context.peer context.connection_id context.client_nonce timestamp)

  -- The seconds lie in the window around now.
  abbrev pub InWindow : ℕ → ℕ → Type 0
  InWindow issued now =
      (issued ≤ saturating_add now (as_secs context.clock_skew))
      × (now - issued ≤ saturating_add (as_secs context.cookie_ttl) (as_secs context.clock_skew))

  validate_at_iff :
      (cookie : List ℕ) (timestamp now : ℕ)
      → (validate_at c secret cookie timestamp now context ≡ true)
        ↔ (InWindow timestamp now × (tag_at timestamp ≡ drop 9 cookie))
  unfolding validate_at
  validate_at_iff cookie timestamp now =
      elim (Bool-cases (ltb (saturating_add now (as_secs context.clock_skew)) timestamp)) [
        | inl late ↦ rw late ((λ e. cc), λ (w, e). absurd (ground (arith, late, w)))
        | inr early ↦
            elim (Bool-cases (
              ltb (saturating_add (as_secs context.cookie_ttl) (as_secs context.clock_skew))
                (saturating_sub now timestamp))) [
                  | inl old ↦ rw (early, old) ((λ e. cc), λ (w, e). absurd (ground (arith, old, w)))
                  | inr young ↦
                      rw (early, young)
                        (
                          (λ e. ((ltb→le _ _ early, ltb→le _ _ young), (c.ct_eq_iff _ _).0 e)),
                          λ (w, e). (c.ct_eq_iff _ _).1 e,
                        )
                ]
      ]

  issued_form :
      (issued : ℕ) (cookie : List ℕ)
      → issue_cookie c secret context.peer context.connection_id context.client_nonce (some issued)
        ≡ ok cookie
      → cookie ≡ 1 ∷ (be_bytes 8 (as_secs issued) ++ tag_at (as_secs issued))
  unfolding issue_cookie unix_seconds
  issued_form issued cookie h = sym (ok-injective h)

  length-tag_at : (timestamp : ℕ) → length (tag_at timestamp) ≡ 16
  unfolding sign
  length-tag_at timestamp = omega (
    arith,
    length-take 16
        (sign c secret context.peer context.connection_id context.client_nonce timestamp),
    c.length-hmac secret _,
  )

  accepted-issued :
      (cookie : List ℕ) (now : ℕ)
      → All IsByte cookie
      → validate_cookie c secret cookie (some now) context ≡ true
      → (issued : ℕ) × (issue_cookie c secret context.peer context.connection_id
            context.client_nonce
            (some issued)
          ≡ ok cookie)
        × InWindow (as_secs issued) (as_secs now)
  unfolding validate_cookie other_version unix_seconds issue_cookie
  accepted-issued [] now a h = cc
  accepted-issued (version ∷ body) now (p, a) h =
      elim (Bool-cases (length (version ∷ body) == cookie_len)) [
        | inr other ↦ cc (rw other at h)
        | inl full ↦ elim (Bool-cases (version == 1)) [
          | inr other ↦ cc (rw (full, other) at h)
          | inl same ↦
              let size : length (version ∷ body) ≡ 25 = (==_iff _ 25).0 full in
              let timestamp : ℕ = from_be_bytes (take 8 body) in
              let at : as_secs (timestamp * 1_000_000_000) ≡ timestamp = omega arith in
              let (window, tag) =
                (validate_at_iff (version ∷ body) timestamp (as_secs now)).0
                  (rw (full, same) at h) in
              let first : version ≡ 1 = (==_iff version 1).0 same in
              let written : be_bytes 8 timestamp ≡ take 8 body =
                be_bytes-from_be_bytes 8 (take 8 body) (omega (arith, size, length-take 8 body))
                  (All-take 8 body a) in
              (
                timestamp * 1_000_000_000,
                ap ok (
                    ap (λ t. 1 ∷ (be_bytes 8 t ++ tag_at t)) at
                    ∙ ap (λ t. 1 ∷ (t ++ tag_at timestamp)) written
                    ∙ ap (λ t. 1 ∷ (take 8 body ++ t)) tag
                    ∙ ap (λ t. 1 ∷ t) (take-append-drop 8 body)
                    ∙ ap (λ t. t ∷ body) (sym first)),
                subst (λ t. InWindow t (as_secs now)) (sym at) window,
              )
        ]
      ]

  issued-accepted :
      (cookie : List ℕ) (now issued : ℕ)
      → as_secs issued ≤ u64_max
      → issue_cookie c secret context.peer context.connection_id context.client_nonce (some issued)
        ≡ ok cookie
      → InWindow (as_secs issued) (as_secs now)
      → validate_cookie c secret cookie (some now) context ≡ true
  unfolding validate_cookie other_version unix_seconds
  issued-accepted cookie now issued small h window =
      let timestamp : ℕ = as_secs issued in
      let body : List ℕ = be_bytes 8 timestamp ++ tag_at timestamp in
      let eight = length-be_bytes 8 timestamp in
      let full : (length (1 ∷ body) == cookie_len) ≡ true = (==_iff (length (1 ∷ body)) 25).1 (
        omega (
          arith,
          length-append (be_bytes 8 timestamp) (tag_at timestamp),
          eight,
          length-tag_at timestamp,
        )) in
      let front : take 8 body ≡ be_bytes 8 timestamp =
        ap (λ n. take n body) (sym eight)
        ∙ take-length-append (be_bytes 8 timestamp) (tag_at timestamp) in
      let back : drop 8 body ≡ tag_at timestamp =
        ap (λ n. drop n body) (sym eight)
        ∙ drop-length-append (be_bytes 8 timestamp) (tag_at timestamp) in
      let known : from_be_bytes (take 8 body) ≡ timestamp =
        ap from_be_bytes front ∙ from_be_bytes-be_bytes 8 timestamp (omega arith) in
      let valid : validate_at c secret (1 ∷ body) timestamp (as_secs now) context ≡ true =
        (validate_at_iff (1 ∷ body) timestamp (as_secs now)).1 (window, sym back) in
      rw (issued_form issued cookie h)
        (rw full (ap (λ t. validate_at c secret (1 ∷ body) t (as_secs now) context) known ∙ valid))

-- Of cookies of bytes, at a time that is not before the epoch, `validate_cookie` accepts exactly those
-- that `issue_cookie` gives for the same secret, peer, connection and nonce at some time whose seconds
-- lie in the window: at most the allowed skew after now, and at most the lifetime and the skew before
-- it, both sums capped at u64::MAX.
pub validate_cookie_iff :
    (c : Crypto) (secret : List ℕ) (context : CookieContext) (cookie : List ℕ) (now : ℕ)
    → All IsByte cookie
    → (validate_cookie c secret cookie (some now) context ≡ true) ↔ (
        (issued : ℕ) × (issue_cookie c secret context.peer context.connection_id
            context.client_nonce
            (some issued)
          ≡ ok cookie)
        × InWindow c secret context (as_secs issued) (as_secs now))
validate_cookie_iff c secret context cookie now bytes = (
  accepted-issued c secret context cookie now bytes,
  λ (issued, e, w). issued-accepted c secret context cookie now issued (omega arith) e w,
)
