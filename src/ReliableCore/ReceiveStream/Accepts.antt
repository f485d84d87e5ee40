-- ===== src/ReliableCore/ReceiveStream/Accepts.antt =====
-- crates/reliable-core/src/receive.rs: which pieces `insert` accepts.
use dart_udp.Base.{ℕ, ◌≤◌, ◌≡◌, Bool, true, false, Option, some, none}
use dart_udp.ReliableCore.ReceiveStream.{ReceiveStream}

-- The end of a piece against the end of the stream, where that is known: a FIN repeats it, other
-- pieces do not pass it.
abbrev pub AgreesFinal : Option ℕ → ℕ → Bool → Type 0
AgreesFinal none end fin = Unit {0}
AgreesFinal (some final_offset) end true = final_offset ≡ end
AgreesFinal (some final_offset) end false = end ≤ final_offset
