-- ===== src/Marshal.antt =====
-- `MarshalCommand` of src/harness/proto_conversion.cc: the structured fuzzer writes the bytes of a
-- command from its message.
pub mod Tss2
pub mod Steps
pub mod Fields
pub mod Structures
pub mod Writes
pub mod Frame
pub mod Sessions
pub mod Whole
pub mod FieldBytes
pub mod Clear
pub mod Credential
pub mod Policies
pub mod RsaFields
pub mod RsaCommands
pub mod Rsa
pub mod Random
pub mod Adds
pub mod CreateLayout
pub mod Create
use tpm_fuzzer.Prelude.{
  ℕ, ◌+◌, ◌-◌, ◌*◌, ◌%◌, ◌^◌, Option, none, some, List, [], ◌∷◌, ◌++◌, length, take, drop, map,
  replicate, ltb, ◌==◌, ◌||◌, Bool, true, false, if◌then◌else◌,
}
use tpm_fuzzer.Bytes.{Bytes}
use tpm_fuzzer.Proto.{
  TpmHeader, Buffer, TpmSession, SensitiveCreateMessage, PublicParmsMessage, PublicIdMessage,
  PublicMessage, PcrSelectionMessage, PcrSelectionsMessage, RsaDecryptMessage, SymDefMessage,
  NvPublicMessage, Message,
}
use tpm_fuzzer.Marshal.Tss2.{MuSymmetric, MuParms, MuPublic, MuPcrSelection, MuNvPublic, Mu}
use tpm_fuzzer.Marshal.Steps.{
  Step, max_buffer, resume, rewritten, ◌and_then◌, call, raw, overwrite, done,
}
use tpm_fuzzer.Marshal.Fields.{Field, fields_of}
use tpm_fuzzer.Marshal.Structures.{
  marshal_command_header, marshal_tpm2b_digest, marshal_tpm_session, marshal_sessions,
  marshal_repeated_field, marshal_tpmt_rsa_decrypt, marshal_tpmt_sym_def,
  marshal_tpm2b_sensitive_create, marshal_tpm2b_public, marshal_tpml_pcr_selection,
  marshal_tpm_nv_public,
}

abbrev pub or_old : Bytes → Option Bytes → Bytes
or_old buf none = buf
or_old buf (some patched) = patched

module _ (mu : Mu) where
  -- `MarshalTPM2BData` and its like: what does not fit the buffer of the structure is left out.
  abbrev marshal_buffer : (Bytes → ℕ → Option Bytes) → ℕ → Buffer → Step
  marshal_buffer function capacity b = call (function (take capacity b.buffer))

  -- `MarshalCommandField`, with `MarshalMessageField` for the fields that are messages. The field
  -- `bytes_requested` is refused beyond two bytes.
  unfoldable pub marshal_command_field : Field → Step
  marshal_command_field (Field.header h) = marshal_command_header mu h
  marshal_command_field (Field.number n) = call (mu.uint32 n)
  marshal_command_field (Field.bytes_requested n) =
      if ltb 65535 n then (λ buf. none) else call (mu.uint16 n)
  marshal_command_field (Field.enumeration n) = call (mu.uint32 n)
  marshal_command_field (Field.algorithm n) = call (mu.uint16 (n % 2 ^ 16))
  marshal_command_field (Field.session_kind n) = raw (n % 2 ^ 8 ∷ [])
  marshal_command_field (Field.sessions s) = marshal_repeated_field mu s
  marshal_command_field (Field.data_2b b) = marshal_buffer mu.tpm2b_data mu.data_capacity b
  marshal_command_field (Field.digest_2b b) = marshal_tpm2b_digest mu b
  marshal_command_field (Field.private_2b b) = marshal_buffer mu.tpm2b_private mu.private_capacity b
  marshal_command_field (Field.public_key_rsa_2b b) =
      marshal_buffer mu.tpm2b_public_key_rsa mu.public_key_rsa_capacity b
  marshal_command_field (Field.event_2b b) = marshal_buffer mu.tpm2b_event mu.event_capacity b
  marshal_command_field (Field.sym_def s) = marshal_tpmt_sym_def mu s
  marshal_command_field (Field.sensitive_create s) = marshal_tpm2b_sensitive_create mu s
  marshal_command_field (Field.public_area p) = marshal_tpm2b_public mu p
  marshal_command_field (Field.pcr_selection p) = marshal_tpml_pcr_selection mu p
  marshal_command_field (Field.rsa_scheme s) = marshal_tpmt_rsa_decrypt mu s
  marshal_command_field (Field.nv_public p) = marshal_tpm_nv_public mu p

  -- `MarshalTPMCommand`
  unfoldable pub marshal_tpm_command : List Field → Step
  marshal_tpm_command [] = done
  marshal_tpm_command (field ∷ more) = marshal_command_field field and_then marshal_tpm_command more

  -- `PatchCommandSize`; a failure of the call is not looked at.
  unfoldable pub patch_command_size : Bytes → Bytes
  patch_command_size buf =
      or_old buf (rewritten 2 buf (mu.uint32 (length buf % 2 ^ 32) (max_buffer - 2)))

  -- `MarshalCommand`: the bytes of `out`, or none for `false`.
  unfoldable pub marshal_command : Message → Option Bytes
  unfolding patch_command_size
  marshal_command message =
      resume (λ buf. some (patch_command_size buf)) (marshal_tpm_command (fields_of message) [])
