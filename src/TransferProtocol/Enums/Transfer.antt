-- ===== src/TransferProtocol/Enums/Transfer.antt =====
-- crates/transfer-protocol/src/message.rs: the enumerations of the transfer messages.
use dart_udp.Base.{ℕ, ◌≡◌, refl, ◌==◌, if◌then◌else◌, Result, ok, err}
use dart_udp.TransferProtocol.Error.{ProtocolError, invalid_value}
use dart_udp.TransferProtocol.Enums.{ByteEnum}

pub data CryptoSuite : Type 0 where
  insecure_testing : CryptoSuite
  x25519_chacha20_poly1305 : CryptoSuite

pub crypto_suite_code : CryptoSuite → ℕ
crypto_suite_code CryptoSuite.insecure_testing = 0
crypto_suite_code CryptoSuite.x25519_chacha20_poly1305 = 1

pub crypto_suite_of : ℕ → Result ProtocolError CryptoSuite
crypto_suite_of value =
    if value == 0
    then ok CryptoSuite.insecure_testing
    else if value == 1
    then ok CryptoSuite.x25519_chacha20_poly1305
    else err (invalid_value "crypto suite")

pub crypto_suite_law : (t : CryptoSuite) → crypto_suite_of (crypto_suite_code t) ≡ ok t
unfolding crypto_suite_of crypto_suite_code
crypto_suite_law CryptoSuite.insecure_testing = refl
crypto_suite_law CryptoSuite.x25519_chacha20_poly1305 = refl

instance unfoldable pub crypto_suite_enum : ByteEnum CryptoSuite
unfolding crypto_suite_code crypto_suite_of
crypto_suite_enum = record {
  code = crypto_suite_code;
  of = crypto_suite_of;
  of-code = crypto_suite_law;
}

pub data OverwritePolicy : Type 0 where
  ask : OverwritePolicy
  no_replace : OverwritePolicy
  replace_after_confirm : OverwritePolicy
  rename_with_suffix : OverwritePolicy

pub overwrite_policy_code : OverwritePolicy → ℕ
overwrite_policy_code OverwritePolicy.ask = 1
overwrite_policy_code OverwritePolicy.no_replace = 2
overwrite_policy_code OverwritePolicy.replace_after_confirm = 3
overwrite_policy_code OverwritePolicy.rename_with_suffix = 4

pub overwrite_policy_of : ℕ → Result ProtocolError OverwritePolicy
overwrite_policy_of value =
    if value == 1
    then ok OverwritePolicy.ask
    else if value == 2
    then ok OverwritePolicy.no_replace
    else if value == 3
    then ok OverwritePolicy.replace_after_confirm
    else if value == 4
    then ok OverwritePolicy.rename_with_suffix
    else err (invalid_value "overwrite policy")

pub overwrite_policy_law :
    (t : OverwritePolicy) → overwrite_policy_of (overwrite_policy_code t) ≡ ok t
unfolding overwrite_policy_of overwrite_policy_code
overwrite_policy_law OverwritePolicy.ask = refl
overwrite_policy_law OverwritePolicy.no_replace = refl
overwrite_policy_law OverwritePolicy.replace_after_confirm = refl
overwrite_policy_law OverwritePolicy.rename_with_suffix = refl

instance unfoldable pub overwrite_policy_enum : ByteEnum OverwritePolicy
unfolding overwrite_policy_code overwrite_policy_of
overwrite_policy_enum = record {
  code = overwrite_policy_code;
  of = overwrite_policy_of;
  of-code = overwrite_policy_law;
}

pub data FileRejectReason : Type 0 where
  policy : FileRejectReason
  already_exists : FileRejectReason
  invalid_path : FileRejectReason
  storage_error : FileRejectReason
  integrity_error : FileRejectReason

pub file_reject_reason_code : FileRejectReason → ℕ
file_reject_reason_code FileRejectReason.policy = 1
file_reject_reason_code FileRejectReason.already_exists = 2
file_reject_reason_code FileRejectReason.invalid_path = 3
file_reject_reason_code FileRejectReason.storage_error = 4
file_reject_reason_code FileRejectReason.integrity_error = 5

pub file_reject_reason_of : ℕ → Result ProtocolError FileRejectReason
file_reject_reason_of value =
    if value == 1
    then ok FileRejectReason.policy
    else if value == 2
    then ok FileRejectReason.already_exists
    else if value == 3
    then ok FileRejectReason.invalid_path
    else if value == 4
    then ok FileRejectReason.storage_error
    else if value == 5
    then ok FileRejectReason.integrity_error
    else err (invalid_value "file reject reason")

pub file_reject_reason_law :
    (t : FileRejectReason) → file_reject_reason_of (file_reject_reason_code t) ≡ ok t
unfolding file_reject_reason_of file_reject_reason_code
file_reject_reason_law FileRejectReason.policy = refl
file_reject_reason_law FileRejectReason.already_exists = refl
file_reject_reason_law FileRejectReason.invalid_path = refl
file_reject_reason_law FileRejectReason.storage_error = refl
file_reject_reason_law FileRejectReason.integrity_error = refl

instance unfoldable pub file_reject_reason_enum : ByteEnum FileRejectReason
unfolding file_reject_reason_code file_reject_reason_of
file_reject_reason_enum = record {
  code = file_reject_reason_code;
  of = file_reject_reason_of;
  of-code = file_reject_reason_law;
}

pub data TransferErrorScope : Type 0 where
  session : TransferErrorScope
  file : TransferErrorScope
  path : TransferErrorScope

pub transfer_error_scope_code : TransferErrorScope → ℕ
transfer_error_scope_code TransferErrorScope.session = 1
transfer_error_scope_code TransferErrorScope.file = 2
transfer_error_scope_code TransferErrorScope.path = 3

pub transfer_error_scope_of : ℕ → Result ProtocolError TransferErrorScope
transfer_error_scope_of value =
    if value == 1
    then ok TransferErrorScope.session
    else if value == 2
    then ok TransferErrorScope.file
    else if value == 3
    then ok TransferErrorScope.path
    else err (invalid_value "transfer error scope")

pub transfer_error_scope_law :
    (t : TransferErrorScope) → transfer_error_scope_of (transfer_error_scope_code t) ≡ ok t
unfolding transfer_error_scope_of transfer_error_scope_code
transfer_error_scope_law TransferErrorScope.session = refl
transfer_error_scope_law TransferErrorScope.file = refl
transfer_error_scope_law TransferErrorScope.path = refl

instance unfoldable pub transfer_error_scope_enum : ByteEnum TransferErrorScope
unfolding transfer_error_scope_code transfer_error_scope_of
transfer_error_scope_enum = record {
  code = transfer_error_scope_code;
  of = transfer_error_scope_of;
  of-code = transfer_error_scope_law;
}
