-- ===== src/ReliableCore/Config.antt =====
-- crates/reliable-core/src/config.rs: the configuration of a connection. A `Duration` is its
-- nanoseconds.
use dart_udp.Base.{
  ℕ, ◌≤◌, ◌<◌, ◌≡◌, arith, Bool, false, ltb, leb, ◌==◌, ◌||◌, List, [], length, Option, none, some,
  Result, ok, fail_if, ◌>>◌, >>=-eq-ok,
}
use dart_udp.Base.Words.{u16_max, u64_max}
use dart_udp.UdpProtocol.Frame.{fixed_header_len, max_cookie_len}
use dart_udp.ReliableCore.Error.{
  ConnectionConfigError, datagram_size_too_small, datagram_size_too_large, zero_max_streams,
  zero_window, zero_buffer, invalid_congestion_window, invalid_timeout, invalid_keepalive,
}
use dart_udp.ReliableCore.Congestion
use dart_udp.ReliableCore.Congestion.{new-InRange}
use dart_udp.ReliableCore.Rtt

pub record ConnectionConfig : Type 0 where
  pub max_datagram_size : ℕ
  pub max_streams : ℕ
  pub initial_connection_window : ℕ
  pub initial_stream_window : ℕ
  pub max_send_buffer : ℕ
  pub max_receive_buffer : ℕ
  pub initial_congestion_window : ℕ
  pub min_congestion_window : ℕ
  pub max_congestion_window : ℕ
  pub initial_rto : ℕ
  pub min_rto : ℕ
  pub max_rto : ℕ
  pub clock_granularity : ℕ
  pub ack_delay : ℕ
  pub idle_timeout : ℕ
  pub keepalive_interval : Option ℕ
  pub handshake_timeout : ℕ
  pub close_timeout : ℕ
  pub max_retransmissions : ℕ
  pub fast_loss_threshold : ℕ
  pub handshake_cookie : List ℕ

-- `ConnectionConfig::default`
abbrev pub default_config : ConnectionConfig
default_config = record {
  max_datagram_size = 1200;
  max_streams = 64;
  initial_connection_window = 4194304;
  initial_stream_window = 1048576;
  max_send_buffer = 4194304;
  max_receive_buffer = 4194304;
  initial_congestion_window = 12000;
  min_congestion_window = 1200;
  max_congestion_window = 16777216;
  initial_rto = 1000000000;
  min_rto = 200000000;
  max_rto = 60000000000;
  clock_granularity = 10000000;
  ack_delay = 25000000;
  idle_timeout = 30000000000;
  keepalive_interval = some 10000000000;
  handshake_timeout = 5000000000;
  close_timeout = 1000000000;
  max_retransmissions = 8;
  fast_loss_threshold = 3;
  handshake_cookie = [];
}

-- `keepalive_interval.is_some_and(...)`
bad_keepalive : Option ℕ → ℕ → Bool
bad_keepalive none idle_timeout = false
bad_keepalive (some interval) idle_timeout = (interval == 0) || leb idle_timeout interval

-- The tests of two of the guards.
abbrev bad_windows : ConnectionConfig → Bool
bad_windows c =
    (c.min_congestion_window == 0)
    || ltb c.initial_congestion_window c.min_congestion_window
    || ltb c.max_congestion_window c.initial_congestion_window

abbrev bad_rto : ConnectionConfig → Bool
bad_rto c =
    (c.initial_rto == 0)
    || (c.min_rto == 0)
    || ltb c.max_rto c.min_rto
    || ltb c.initial_rto c.min_rto
    || ltb c.max_rto c.initial_rto
    || (c.clock_granularity == 0)

unfoldable pub validate : ConnectionConfig → Result ConnectionConfigError (Unit {0})
unfolding bad_keepalive
validate c = do
  fail_if (ltb c.max_datagram_size fixed_header_len) datagram_size_too_small
  fail_if (ltb u16_max c.max_datagram_size) datagram_size_too_large
  fail_if (c.max_streams == 0) zero_max_streams
  fail_if ((c.initial_connection_window == 0) || (c.initial_stream_window == 0)) zero_window
  fail_if ((c.max_send_buffer == 0) || (c.max_receive_buffer == 0)) zero_buffer
  fail_if (bad_windows c) invalid_congestion_window
  fail_if (bad_rto c) invalid_timeout
  fail_if
      (ltb c.max_rto c.ack_delay
        || (c.idle_timeout == 0)
        || (c.handshake_timeout == 0)
        || (c.close_timeout == 0)
        || (c.fast_loss_threshold == 0)
        || ltb max_cookie_len (length c.handshake_cookie))
      invalid_timeout
  fail_if (bad_keepalive c.keepalive_interval c.idle_timeout) invalid_keepalive
  ok tt

-- A configuration that `validate` accepts, with a largest congestion window of a u64 and a
-- largest timeout of a Duration, starts the congestion window and its threshold, and the
-- retransmission timeout, between their configured bounds, the lower of which are not zero.
pub validate-InRange :
    (c : ConnectionConfig) (mss : ℕ)
    → validate c ≡ ok tt
    → c.max_congestion_window ≤ u64_max
    → c.max_rto ≤ Rtt.duration_max
    → Congestion.InRange (
        Congestion.new c.initial_congestion_window c.min_congestion_window c.max_congestion_window
          mss)
      × Rtt.InRange (Rtt.new c.initial_rto c.min_rto c.max_rto c.clock_granularity)
      × (0 < c.min_congestion_window)
      × (0 < c.min_rto)
unfolding validate Congestion.new Rtt.new
validate-InRange c mss h window longest =
    let (a₁, h₁, k₁) =
      >>=-eq-ok (fail_if (ltb c.max_datagram_size fixed_header_len) datagram_size_too_small) _ h in
    let (a₂, h₂, k₂) =
      >>=-eq-ok (fail_if (ltb u16_max c.max_datagram_size) datagram_size_too_large) _ k₁ in
    let (a₃, h₃, k₃) = >>=-eq-ok (fail_if (c.max_streams == 0) zero_max_streams) _ k₂ in
    let (a₄, h₄, k₄) =
      >>=-eq-ok
        (fail_if ((c.initial_connection_window == 0) || (c.initial_stream_window == 0)) zero_window)
        _ k₃ in
    let (a₅, h₅, k₅) =
      >>=-eq-ok (fail_if ((c.max_send_buffer == 0) || (c.max_receive_buffer == 0)) zero_buffer) _
        k₄ in
    let (a₆, h₆, k₆) = >>=-eq-ok (fail_if (bad_windows c) invalid_congestion_window) _ k₅ in
    let (a₇, h₇, k₇) = >>=-eq-ok (fail_if (bad_rto c) invalid_timeout) _ k₆ in
    let (p, q, r) = windows h₆ in
    let (u, v, w) = timeouts h₇ in
    (
      new-InRange c.initial_congestion_window c.min_congestion_window c.max_congestion_window mss
          (omega arith) window,
      record { low = v; high = w; initial_low = v; initial_high = w; max_fits = longest },
      p,
      u,
    )
  where
    windows :
        {x : Unit {0}}
        → fail_if (bad_windows c) invalid_congestion_window ≡ ok x
        → (0 < c.min_congestion_window)
          × (c.min_congestion_window ≤ c.initial_congestion_window)
          × (c.initial_congestion_window ≤ c.max_congestion_window)
    windows h = ground arith

    timeouts :
        {x : Unit {0}}
        → fail_if (bad_rto c) invalid_timeout ≡ ok x
        → (0 < c.min_rto) × (c.min_rto ≤ c.initial_rto) × (c.initial_rto ≤ c.max_rto)
    timeouts h = ground arith
