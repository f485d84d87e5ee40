-- ===== src/ReliableUdp/Retry/Binding.antt =====
-- crates/reliable-udp/src/retry.rs: what a cookie is bound to.
use dart_udp.Base.{ℕ, ◌^◌, ◌<◌, ◌≡◌, refl, sym, ap, ◌∙◌, arith, List, [], ◌∷◌, ◌++◌, length, drop}
use mathlib.Core.List.{append_assoc}
use dart_udp.Base.Words.{IsU64, be_bytes, from_be_bytes, from_be_bytes-be_bytes, length-be_bytes}
use dart_udp.TransferProtocol.Types.{SocketAddr, v4, v6}
use dart_udp.TransferProtocol.Message.Typed.{IsAddress}
use dart_udp.ReliableUdp.Retry.{encode_addr, update_mac, cookie_domain}

append-injective :
    (xs ys : List ℕ) {us vs : List ℕ}
    → length xs ≡ length ys
    → xs ++ us ≡ ys ++ vs
    → (xs ≡ ys) × (us ≡ vs)
append-injective [] [] l e = (refl, e)
append-injective [] (y ∷ ys) l e = absurd (omega arith)
append-injective (x ∷ xs) [] l e = absurd (omega arith)
append-injective (x ∷ xs) (y ∷ ys) l e =
    let (same, rest) = append-injective xs ys (omega arith) (ap (drop 1) e) in
    let first : x ≡ y = cc e in (ap (λ t. t ∷ xs) first ∙ ap (◌∷◌ y) same, rest)

be_bytes-append-injective :
    (n v w : ℕ) {us vs : List ℕ}
    → v < 256 ^ n
    → w < 256 ^ n
    → be_bytes n v ++ us ≡ be_bytes n w ++ vs
    → (v ≡ w) × (us ≡ vs)
be_bytes-append-injective n v w p q e =
    let (same, rest) =
      append-injective (be_bytes n v) (be_bytes n w)
        (length-be_bytes n v ∙ sym (length-be_bytes n w)) e in
    (
      sym (from_be_bytes-be_bytes n v p) ∙ ap from_be_bytes same ∙ from_be_bytes-be_bytes n w q,
      rest,
    )

-- The address and what follows it.
encode_addr-append-injective :
    (p q : SocketAddr) (us vs : List ℕ)
    → IsAddress p
    → IsAddress q
    → encode_addr p ++ us ≡ encode_addr q ++ vs
    → (p ≡ q) × (us ≡ vs)
unfolding encode_addr IsAddress
encode_addr-append-injective (v4 ip port) (v4 ip' port') us vs a b e =
    let (ips, e₁) = append-injective ip ip' (a.0 ∙ sym b.0) (
      sym (append_assoc ip (be_bytes 2 port) us)
      ∙ ap (drop 1) e
      ∙ append_assoc ip' (be_bytes 2 port') vs) in
    let (ports, rest) = be_bytes-append-injective 2 port port' a.1 b.1 e₁ in
    (ap (λ t. v4 t port) ips ∙ ap (v4 ip') ports, rest)
encode_addr-append-injective (v4 ip port) (v6 ip' port' flow scope) us vs a b e = cc
encode_addr-append-injective (v6 ip port flow scope) (v4 ip' port') us vs a b e = cc
encode_addr-append-injective (v6 ip port flow scope) (v6 ip' port' flow' scope') us vs a b e =
    let (ips, e₁) =
      append-injective ip ip' (a.0 ∙ sym b.0)
        (sym (nested ip port flow scope us) ∙ ap (drop 1) e ∙ nested ip' port' flow' scope' vs) in
    let (ports, e₂) = be_bytes-append-injective 2 port port' a.1 b.1 e₁ in
    let (flows, e₃) = be_bytes-append-injective 4 flow flow' a.2 b.2 e₂ in
    let (scopes, rest) = be_bytes-append-injective 4 scope scope' a.3 b.3 e₃ in
    (
      ap (λ t. v6 t port flow scope) ips
          ∙ ap (λ t. v6 ip' t flow scope) ports
          ∙ ap (λ t. v6 ip' port' t scope) flows
          ∙ ap (v6 ip' port' flow') scopes,
      rest,
    )
  where
    nested :
        (ip : List ℕ) (port flow scope : ℕ) (ws : List ℕ)
        → (ip ++ (be_bytes 2 port ++ (be_bytes 4 flow ++ be_bytes 4 scope))) ++ ws
          ≡ ip ++ (be_bytes 2 port ++ (be_bytes 4 flow ++ (be_bytes 4 scope ++ ws)))
    nested ip port flow scope ws =
        append_assoc ip (be_bytes 2 port ++ (be_bytes 4 flow ++ be_bytes 4 scope)) ws
        ∙ ap (λ t. ip ++ t)
            (append_assoc (be_bytes 2 port) (be_bytes 4 flow ++ be_bytes 4 scope) ws
              ∙ ap (λ t. be_bytes 2 port ++ t)
                  (append_assoc (be_bytes 4 flow) (be_bytes 4 scope) ws))

-- For well typed values, the bytes that the code of a cookie is made of determine the peer's address,
-- the connection id, the client's nonce and the timestamp: no two of these share their bytes.
pub update_mac-injective :
    (peer peer' : SocketAddr) (connection_id connection_id' : ℕ) (nonce nonce' : List ℕ)
    (timestamp timestamp' : ℕ)
    → IsAddress peer
    → IsAddress peer'
    → IsU64 connection_id
    → IsU64 connection_id'
    → length nonce ≡ 16
    → length nonce' ≡ 16
    → IsU64 timestamp
    → IsU64 timestamp'
    → update_mac peer connection_id nonce timestamp
      ≡ update_mac peer' connection_id' nonce' timestamp'
    → (peer ≡ peer')
      × (connection_id ≡ connection_id')
      × (nonce ≡ nonce')
      × (timestamp ≡ timestamp')
unfolding update_mac
update_mac-injective p q i j n m t u pa qa ia ja na ma ta ua e =
    let (_, e₁) = append-injective cookie_domain cookie_domain refl e in
    let (peers, e₂) = encode_addr-append-injective p q _ _ pa qa e₁ in
    let (ids, e₃) = be_bytes-append-injective 8 i j ia ja e₂ in
    let (nonces, e₄) = append-injective n m (na ∙ sym ma) e₃ in
    let (times, _) = be_bytes-append-injective 8 t u ta ua (ap (λ bs. bs ++ []) e₄) in
    (peers, ids, nonces, times)
