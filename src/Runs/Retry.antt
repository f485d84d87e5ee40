-- ===== src/Runs/Retry.antt =====
-- crates/reliable-udp/src/retry.rs: a cookie of the second 100, which comes back at 108, with a code
-- that is the length of the message.
use dart_udp.Base.{
  ℕ, ◌≡◌, ◌↔◌, refl, arith, ◌==◌, ◌&&◌, Bool, true, false, some, List, [], ◌∷◌, ◌++◌, length,
  replicate, ok,
}
use dart_udp.Base.Words.{be_bytes}
use dart_udp.TransferProtocol.Types.{SocketAddr, v4}
use dart_udp.TransferProtocol.Message.Typed.{IsAddress}
use dart_udp.ReliableUdp.Retry.{
  Crypto, CookieContext, as_secs, issue_cookie, validate_cookie, update_mac, encode_addr, sign,
  unix_seconds,
}
use dart_udp.ReliableUdp.Retry.Issued.{InWindow, validate_cookie_iff}
use dart_udp.ReliableUdp.Retry.Binding.{update_mac-injective}

bytes_eq : List ℕ → List ℕ → Bool
bytes_eq [] [] = true
bytes_eq [] (y ∷ ys) = false
bytes_eq (x ∷ xs) [] = false
bytes_eq (x ∷ xs) (y ∷ ys) = (x == y) && bytes_eq xs ys

bytes_eq_iff : (a b : List ℕ) → (bytes_eq a b ≡ true) ↔ (a ≡ b)
unfolding bytes_eq
bytes_eq_iff [] [] = ground arith
bytes_eq_iff [] (y ∷ ys) = ground arith
bytes_eq_iff (x ∷ xs) [] = ground arith
bytes_eq_iff (x ∷ xs) (y ∷ ys) = ground (arith, bytes_eq_iff xs ys)

abbrev by_length : List ℕ → List ℕ → List ℕ
by_length key message = length message ∷ replicate 31 0

length-by_length : (key message : List ℕ) → length (by_length key message) ≡ 32
length-by_length key message = refl

abbrev crypto : Crypto
crypto = record {
  hmac = by_length;
  ct_eq = bytes_eq;
  length-hmac = length-by_length;
  ct_eq_iff = bytes_eq_iff;
}

abbrev localhost : SocketAddr
localhost = v4 (127 ∷ 0 ∷ 0 ∷ 1 ∷ []) 9000

abbrev nonce : List ℕ
nonce = replicate 16 9

abbrev context : CookieContext
context = record {
  peer = localhost;
  connection_id = 3;
  client_nonce = nonce;
  cookie_ttl = 10_000_000_000;
  clock_skew = 0;
}

abbrev cookie : List ℕ
cookie = 1 ∷ (replicate 7 0 ++ (100 ∷ 67 ∷ replicate 15 0))

issue_at_100 : issue_cookie crypto [] localhost 3 nonce (some 100_500_000_000) ≡ ok cookie
unfolding issue_cookie sign update_mac encode_addr be_bytes unix_seconds
issue_at_100 = refl

validate_cookie_iff_example :
    (validate_cookie crypto [] cookie (some 108_000_000_000) context ≡ true) ↔ (
      (issued : ℕ) × (issue_cookie crypto [] localhost 3 nonce (some issued) ≡ ok cookie)
      × InWindow crypto [] context (as_secs issued) 108)
validate_cookie_iff_example =
    validate_cookie_iff crypto [] context cookie 108_000_000_000 (omega arith)

still_valid : validate_cookie crypto [] cookie (some 108_000_000_000) context ≡ true
still_valid =
    (validate_cookie_iff crypto [] context cookie 108_000_000_000 (omega arith)).1
      (100_500_000_000, issue_at_100, (omega arith))

update_mac-injective_example :
    (localhost ≡ localhost) × (◌≡◌ {A = ℕ} 3 3) × (nonce ≡ nonce) × (◌≡◌ {A = ℕ} 100 100)
unfolding IsAddress
update_mac-injective_example =
    update_mac-injective localhost localhost 3 3 nonce nonce 100 100 (refl, omega arith)
      (refl, omega arith) (omega arith) (omega arith) refl refl (omega arith) (omega arith) refl
