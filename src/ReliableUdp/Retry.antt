-- ===== src/ReliableUdp/Retry.antt =====
-- crates/reliable-udp/src/retry.rs: the cookie by which a client shows that it receives at its address.
-- The message authentication code and the comparison of slices are those of the hmac, sha2 and subtle
-- packages. A `SystemTime` is its `Duration` since the epoch, in nanoseconds, or none before it.
pub mod Issued
pub mod Binding
use dart_udp.Base.{
  ℕ, ◌+◌, ◌-◌, ◌/◌, ◌==◌, ◌≡◌, ◌↔◌, ltb, not, ◌||◌, Bool, true, false, if◌then◌else◌, Option, none,
  some, List, [], ◌∷◌, ◌++◌, length, take, drop, Result, ok, err, ◌>>=◌,
}
use dart_udp.TransferProtocol.Types.{SocketAddr, v4, v6}
use dart_udp.Base.Words.{be_bytes, from_be_bytes, saturating_add, saturating_sub}

abbrev pub cookie_version : ℕ
cookie_version = 1

abbrev pub timestamp_len : ℕ
timestamp_len = 8

abbrev pub tag_len : ℕ
tag_len = 16

abbrev pub cookie_len : ℕ
cookie_len = 1 + timestamp_len + tag_len

pub data RetryError : Type 0 where
  invalid_config : RetryError
  randomness_unavailable : RetryError

-- `HmacSha256` of a key and a message, and `ct_eq` of two slices.
pub record Crypto : Type 0 where
  pub hmac : List ℕ → List ℕ → List ℕ
  pub ct_eq : List ℕ → List ℕ → Bool
  pub length-hmac : (key message : List ℕ) → length (hmac key message) ≡ 32
  pub ct_eq_iff : (a b : List ℕ) → (ct_eq a b ≡ true) ↔ (a ≡ b)

pub record CookieContext : Type 0 where
  pub peer : SocketAddr
  pub connection_id : ℕ
  pub client_nonce : List ℕ
  pub cookie_ttl : ℕ
  pub clock_skew : ℕ

-- `Duration::as_secs`
abbrev pub as_secs : ℕ → ℕ
as_secs nanos = nanos / 1_000_000_000

unfoldable pub unix_seconds : Option ℕ → Result RetryError ℕ
unix_seconds none = err invalid_config
unix_seconds (some since_epoch) = ok (as_secs since_epoch)

unfoldable pub encode_addr : SocketAddr → List ℕ
encode_addr (v4 octets port) = 4 ∷ (octets ++ be_bytes 2 port)
encode_addr (v6 octets port flowinfo scope_id) =
    6 ∷ (octets ++ (be_bytes 2 port ++ (be_bytes 4 flowinfo ++ be_bytes 4 scope_id)))

-- "reliable-udp retry cookie v1"
abbrev pub cookie_domain : List ℕ
cookie_domain =
    114 ∷ 101 ∷ 108 ∷ 105 ∷ 97 ∷ 98 ∷ 108 ∷ 101 ∷ 45 ∷ 117 ∷ 100 ∷ 112 ∷ 32 ∷ 114 ∷ 101 ∷ 116 ∷ 114
    ∷ 121 ∷ 32 ∷ 99 ∷ 111 ∷ 111 ∷ 107 ∷ 105 ∷ 101 ∷ 32 ∷ 118 ∷ 49 ∷ []

-- What `update_mac` feeds to the code, in order.
unfoldable pub update_mac : SocketAddr → ℕ → List ℕ → ℕ → List ℕ
update_mac peer connection_id client_nonce timestamp =
    cookie_domain
    ++ (encode_addr peer ++ (be_bytes 8 connection_id ++ (client_nonce ++ be_bytes 8 timestamp)))

module _ (c : Crypto) where
  unfoldable pub sign : List ℕ → SocketAddr → ℕ → List ℕ → ℕ → List ℕ
  sign secret peer connection_id client_nonce timestamp =
      c.hmac secret (update_mac peer connection_id client_nonce timestamp)

  unfoldable pub issue_cookie :
      List ℕ → SocketAddr → ℕ → List ℕ → Option ℕ → Result RetryError (List ℕ)
  issue_cookie secret peer connection_id client_nonce now = do
    timestamp ← unix_seconds now
    let tag = sign secret peer connection_id client_nonce timestamp
    ok (cookie_version ∷ (be_bytes timestamp_len timestamp ++ take tag_len tag))

  -- `cookie[0] != COOKIE_VERSION`, of a cookie that is not empty.
  unfoldable pub other_version : List ℕ → Bool
  other_version [] = true
  other_version (version ∷ rest) = not (version == cookie_version)

  -- The window of time, and the tag.
  unfoldable pub validate_at : List ℕ → List ℕ → ℕ → ℕ → CookieContext → Bool
  validate_at secret cookie timestamp now_seconds context =
      let allowed_future = as_secs context.clock_skew in
      if ltb (saturating_add now_seconds allowed_future) timestamp
        || ltb (saturating_add (as_secs context.cookie_ttl) allowed_future)
            (saturating_sub now_seconds timestamp)
      then false
      else c.ct_eq
          (take tag_len
            (sign secret context.peer context.connection_id context.client_nonce timestamp))
          (drop (1 + timestamp_len) cookie)

  unfoldable pub validate_cookie : List ℕ → List ℕ → Option ℕ → CookieContext → Bool
  validate_cookie secret cookie now context =
      if not (length cookie == cookie_len) || other_version cookie
      then false
      else elim (unix_seconds now) [
        | err e ↦ false
        | ok now_seconds ↦
            validate_at secret cookie (from_be_bytes (take timestamp_len (drop 1 cookie)))
              now_seconds context
      ]
