-- ===== src/TransferProtocol/Wire/Address.antt =====
-- crates/transfer-protocol/src/codec.rs: a socket address is read back, also where it may be missing.
use dart_udp.Base.{
  ℕ, ◌+◌, ◌-◌, ◌≡◌, refl, ap, arith, ◌∙◌, Option, none, some, List, [], ◌∷◌, ◌++◌, ok,
}
use mathlib.Core.List.{append_assoc}
use dart_udp.Base.Cursor
use dart_udp.Base.Cursor.{Reads}
use dart_udp.TransferProtocol.Types.{SocketAddr, v4, v6}
use dart_udp.TransferProtocol.Message.Typed.{IsAddress, IsOptional}
use dart_udp.TransferProtocol.Wire.{Parser, Writer, ◌>>=◌, ◌>>◌, pure, ◌>=>◌, extend, done}
use dart_udp.TransferProtocol.Wire.Write.{
  u8, u16, u32, bytes_fixed, socket_addr, socket_addr_option,
}
use dart_udp.TransferProtocol.Wire.Read.{
  read_u8, read_socket_addr, read_socket_addr_option, read_family, read_family_option, step_back,
  read_ipv4, read_ipv6, read_some_socket_addr,
}
use dart_udp.TransferProtocol.Wire.Laws.{
  Undoes, bind-Undoes, done-Undoes, array-Undoes, u8-Reads, u8-Undoes, u16-Undoes, u32-Undoes,
}

-- A parser that looks at one byte, goes back and reads it again as part of a field.
reread-Reads :
    (p : Parser SocketAddr) (g : ℕ → Parser (Option SocketAddr)) (t : ℕ) (more : List ℕ)
    (a : SocketAddr)
    → g t ≡ (step_back >> (p >>= λ x. pure (some x)))
    → Reads p (t ∷ more) a
    → Reads (read_u8 >>= g) (t ∷ more) (some a)
unfolding ◌>>=◌ pure step_back
reread-Reads p g t more a known r input front back offset fits e o =
    let byte : read_u8 input offset ≡ ok (t, offset + 1) =
      u8-Reads t input front (more ++ back) offset fits e o in
    let there : offset + 1 - 1 ≡ offset = omega arith in
    rw (byte, ◌>>=◌, Cursor.◌>>=◌, known, there, r input front back offset fits e o) refl

module _ (t : ℕ) (w : Writer) (q : Parser SocketAddr) (a : SocketAddr) where
  family-Undoes : read_family t ≡ q → Undoes w q a → Undoes (u8 t >=> w) read_socket_addr a
  unfolding read_socket_addr
  family-Undoes known rest = bind-Undoes _ _ _ _ t a (u8-Undoes t) (rw known rest)

  family_option-Undoes :
      read_family t ≡ q
      → read_family_option t ≡ read_some_socket_addr
      → Undoes w q a
      → Undoes (u8 t >=> w) read_socket_addr_option (some a)
  unfolding read_socket_addr read_socket_addr_option read_some_socket_addr u8 extend ◌>=>◌ ◌>>=◌
      read_u8
  family_option-Undoes known again rest = record {
    back = λ output output' h.
        let (mid, h₁, h₂) = Cursor.>=>-eq-ok (u8 t) w output h in
        let (more, e, r) = rest.back mid output' h₂ in
        let first : mid ≡ output ++ (t ∷ []) = cc in
        (
          t ∷ more,
          e ∙ ap (λ m. m ++ more) first ∙ append_assoc output (t ∷ []) more,
          reread-Reads read_socket_addr read_family_option t more a again
              (Cursor.Reads-bind read_u8 read_family (t ∷ []) more t a (u8-Reads t) (rw known r)),
        );
  }

ipv4-Undoes :
    (ip : List ℕ) (port : ℕ)
    → IsAddress (v4 ip port)
    → Undoes (bytes_fixed ip >=> u16 port >=> done) read_ipv4 (v4 ip port)
unfolding IsAddress read_ipv4
ipv4-Undoes ip port (ip', port') =
    bind-Undoes _ _ _ _ ip _ (array-Undoes "IPv4 address" 4 ip ip')
      (bind-Undoes _ _ _ _ port _ (u16-Undoes port port') (done-Undoes _))

ipv6-Undoes :
    (ip : List ℕ) (port flowinfo scope_id : ℕ)
    → IsAddress (v6 ip port flowinfo scope_id)
    → Undoes
        (bytes_fixed ip >=> u16 port >=> u32 flowinfo >=> u32 scope_id >=> done)
        read_ipv6
        (v6 ip port flowinfo scope_id)
unfolding IsAddress read_ipv6
ipv6-Undoes ip port flowinfo scope_id (ip', port', flowinfo', scope_id') =
    bind-Undoes _ _ _ _ ip _ (array-Undoes "IPv6 address" 16 ip ip') (
      bind-Undoes _ _ _ _ port _ (u16-Undoes port port') (
        bind-Undoes _ _ _ _ flowinfo _ (u32-Undoes flowinfo flowinfo')
          (bind-Undoes _ _ _ _ scope_id _ (u32-Undoes scope_id scope_id') (done-Undoes _))))

pub socket_addr-Undoes : (a : SocketAddr) → IsAddress a → Undoes (socket_addr a) read_socket_addr a
unfolding socket_addr read_family
socket_addr-Undoes (v4 ip port) typed =
    family-Undoes 4 _ read_ipv4 _ refl (ipv4-Undoes ip port typed)
socket_addr-Undoes (v6 ip port flowinfo scope_id) typed =
    family-Undoes 6 _ read_ipv6 _ refl (ipv6-Undoes ip port flowinfo scope_id typed)

pub socket_addr_option-Undoes :
    (a : Option SocketAddr)
    → IsOptional IsAddress a
    → Undoes (socket_addr_option a) read_socket_addr_option a
unfolding socket_addr_option socket_addr read_family read_family_option read_socket_addr_option
    IsOptional
socket_addr_option-Undoes none typed = bind-Undoes _ _ _ _ 0 none (u8-Undoes 0) (done-Undoes none)
socket_addr_option-Undoes (some (v4 ip port)) typed =
    family_option-Undoes 4 _ read_ipv4 _ refl refl (ipv4-Undoes ip port typed)
socket_addr_option-Undoes (some (v6 ip port flowinfo scope_id)) typed =
    family_option-Undoes 6 _ read_ipv6 _ refl refl (ipv6-Undoes ip port flowinfo scope_id typed)
