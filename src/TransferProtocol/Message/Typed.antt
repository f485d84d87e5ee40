-- ===== src/TransferProtocol/Message/Typed.antt =====
-- crates/transfer-protocol: what the types of the fields say of their values.
use dart_udp.Base.{ℕ, ◌≡◌, true, Option, none, some, length, All, ok}
use dart_udp.Base.Utf8.{is_utf8}
use dart_udp.Base.Words.{IsByte, IsU16, IsU32, IsU64}
use dart_udp.TransferProtocol.Types.{
  Digest, SocketAddr, v4, v6, id_len, check_token_len, digest_len, parse_code,
}
use dart_udp.TransferProtocol.Message.{
  Bytes, Candidate, FileMetadata, PairingControl, TransferControl, PathCheck, Message, pairing,
  transfer, path,
}

-- `[u8; n]`
abbrev pub IsArray : ℕ → Bytes → Type 0
IsArray n bytes = length bytes ≡ n

abbrev pub IsId : Bytes → Type 0
IsId bytes = IsArray id_len bytes

abbrev pub IsKey : Bytes → Type 0
IsKey bytes = IsArray 32 bytes

-- `String`
abbrev pub IsString : Bytes → Type 0
IsString bytes = is_utf8 bytes ≡ true

-- `PairingCode`: only `parse` makes one from a string, and it is its own upper case.
pub record IsCode (code : Bytes) : Type 0 where
  pub utf8 : IsString code
  pub parsed : parse_code code ≡ ok code

abbrev pub IsDigest : Digest → Type 0
IsDigest d = IsArray digest_len d.bytes

unfoldable pub IsAddress : SocketAddr → Type 0
IsAddress (v4 ip port) = IsArray 4 ip × IsU16 port
IsAddress (v6 ip port flowinfo scope_id) =
    IsArray 16 ip × IsU16 port × IsU32 flowinfo × IsU32 scope_id

-- What holds of a value that is there.
unfoldable pub IsOptional : {A : Type 0} → (A → Type 0) → Option A → Type 0
IsOptional P none = Unit {0}
IsOptional P (some a) = P a

pub record IsCandidate (c : Candidate) : Type 0 where
  pub id : IsId c.id
  pub address : IsOptional IsAddress c.address
  pub priority : IsU16 c.priority
  pub interface_index : IsOptional IsU32 c.interface_index

pub record IsMetadata (m : FileMetadata) : Type 0 where
  pub modified_time : IsOptional IsU64 m.modified_time_unix_seconds
  pub mode : IsOptional IsU32 m.mode

unfoldable pub IsPairing : PairingControl → Type 0
IsPairing (PairingControl.create_pairing client capability ttl key) =
    IsId client × IsU32 ttl × IsKey key
IsPairing (PairingControl.pairing_created pairing_id code expires_at ticket) =
    IsId pairing_id × IsCode code × IsU64 expires_at
IsPairing (PairingControl.join_pairing code client key) = IsCode code × IsId client × IsKey key
IsPairing (PairingControl.pairing_joined pairing_id offerer accepter ticket) =
    IsId pairing_id × IsString offerer × IsString accepter
IsPairing (PairingControl.offer_ready transfer_id digest file_count total_size name) =
    IsId transfer_id × IsDigest digest × IsU64 file_count × IsU64 total_size × IsString name
IsPairing (PairingControl.accept_offer transfer_id decision policy) =
    IsId transfer_id × IsString policy
IsPairing (PairingControl.candidate_list transfer_id candidates digest) =
    IsId transfer_id × All IsCandidate candidates × IsDigest digest
IsPairing (PairingControl.path_check_authorization transfer_id token expires_at) =
    IsId transfer_id × IsArray check_token_len token × IsU64 expires_at
IsPairing (PairingControl.path_selected transfer_id path_id kind rtt mtu) =
    IsId transfer_id × IsId path_id × IsU64 rtt × IsU16 mtu
IsPairing (PairingControl.relay_open transfer_id relay_id ticket) = IsId transfer_id × IsId relay_id
IsPairing (PairingControl.relay_closed transfer_id reason) = IsId transfer_id
IsPairing (PairingControl.cancel transfer_id reason_code) = IsId transfer_id × IsU16 reason_code
IsPairing (PairingControl.resume_ticket pairing_id transfer_id role digest expires_at ticket) =
    IsId pairing_id × IsId transfer_id × IsDigest digest × IsU64 expires_at
IsPairing (PairingControl.resume_transfer pairing_id transfer_id role client ticket) =
    IsId pairing_id × IsId transfer_id × IsId client
IsPairing (PairingControl.resume_accepted pairing_id transfer_id role digest expires_at) =
    IsId pairing_id × IsId transfer_id × IsDigest digest × IsU64 expires_at
IsPairing (PairingControl.peer_reconnected transfer_id role) = IsId transfer_id

unfoldable pub IsTransfer : TransferControl → Type 0
IsTransfer (TransferControl.session_hello transfer_id version suite digest namespace) =
    IsId transfer_id × IsByte version × IsDigest digest × IsArray 16 namespace
IsTransfer (TransferControl.manifest_begin file_count total_size digest) =
    IsU64 file_count × IsU64 total_size × IsDigest digest
IsTransfer (TransferControl.manifest_item file_id relative_path size hash metadata) =
    IsId file_id × IsString relative_path × IsU64 size × IsDigest hash × IsMetadata metadata
IsTransfer (TransferControl.manifest_end digest) = IsDigest digest
IsTransfer (TransferControl.receive_decision accepted overwrite label) = IsString label
IsTransfer (TransferControl.resume_query file_id hash size) =
    IsId file_id × IsDigest hash × IsU64 size
IsTransfer (TransferControl.resume_state file_id offset id hash) =
    IsId file_id × IsU64 offset × IsU64 id × IsDigest hash
IsTransfer (TransferControl.file_begin file_id stream base remaining hash) =
    IsId file_id × IsU64 stream × IsU64 base × IsU64 remaining × IsDigest hash
IsTransfer (TransferControl.checkpoint file_id offset id) = IsId file_id × IsU64 offset × IsU64 id
IsTransfer (TransferControl.file_complete file_id size hash) =
    IsId file_id × IsU64 size × IsDigest hash
IsTransfer (TransferControl.file_rejected file_id reason) = IsId file_id
IsTransfer (TransferControl.transfer_complete transfer_id files size) =
    IsId transfer_id × IsU64 files × IsU64 size
IsTransfer (TransferControl.transfer_error scope code retryable message) =
    IsU32 code × IsString message

unfoldable pub IsPath : PathCheck → Type 0
IsPath (PathCheck.request transfer_id transaction_id token candidate_id sent) =
    IsId transfer_id
    × IsId transaction_id
    × IsArray check_token_len token
    × IsId candidate_id
    × IsU64 sent
IsPath (PathCheck.response transfer_id transaction_id token candidate_id observed received) =
    IsId transfer_id
    × IsId transaction_id
    × IsArray check_token_len token
    × IsId candidate_id
    × IsAddress observed
    × IsU64 received

-- The value is one of the Rust type `Message`.
unfoldable pub IsMessage : Message → Type 0
unfolding IsPairing IsTransfer IsPath
IsMessage (pairing m) = IsPairing m
IsMessage (transfer m) = IsTransfer m
IsMessage (path m) = IsPath m
