-- ===== src/Commands/AuthSession.antt =====
-- TPMStartAuthSession.
pub mod Symmetric
pub mod SessionLayout
pub mod SessionMessage
use tpm_fuzzer.Prelude.{
  ℕ, ◌+◌, List, [], ◌∷◌, ◌++◌, Option, none, some, length, ◌==◌, if◌then◌else◌, Result, ok, ◌>>=◌,
}
use tpm_fuzzer.Bytes.{Bytes, to_bytes, slice, index}
use tpm_fuzzer.Types.Enums.{TpmAlg, alg_value, TpmRh, IntOr, rh_to_int}
use tpm_fuzzer.Types.Algorithms.{SymDefObject, sym_def_object_bytes}
use tpm_fuzzer.Proto.{SymDefMessage, Message}
use tpm_fuzzer.Proto.Constants.{
  st_no_sessions, cc_start_auth_session, enum_value, alg_name, se_name,
}
use tpm_fuzzer.Command.{TpmCommand, proto_header, proto_tpm2b_data}
use tpm_fuzzer.Command.Parse.{uint_at}
use tpm_fuzzer.Commands.Instance.{Command}

-- `b"\xf6\\\xd5\x7f\x19\xff\xd9\xc8\xc9Ad\xac\x84\xd1\xf9\xcd"`
abbrev default_nonce : Bytes
default_nonce =
    0xf6 ∷ 0x5c ∷ 0xd5 ∷ 0x7f ∷ 0x19 ∷ 0xff ∷ 0xd9 ∷ 0xc8 ∷ 0xc9 ∷ 0x41 ∷ 0x64 ∷ 0xac ∷ 0x84 ∷ 0xd1
    ∷ 0xf9 ∷ 0xcd ∷ []

unfoldable pub nonce_or_default : Option Bytes → Bytes
nonce_or_default none = default_nonce
nonce_or_default (some nonce) = nonce

-- The salt is given with its size in front; the default is the empty one, `(0).to_bytes(2)`.
unfoldable pub salt_or_default : Option Bytes → Bytes
salt_or_default none = 0 ∷ 0 ∷ []
salt_or_default (some salt) = salt

unfoldable pub start_auth_session :
    IntOr TpmRh
    → IntOr TpmRh
    → Option Bytes
    → Option Bytes
    → ℕ
    → SymDefObject
    → TpmAlg
    → Result Command
unfolding nonce_or_default salt_or_default
start_auth_session tpm_key bind nonce salt session_type symmetric auth_hash = do
  key ← to_bytes (rh_to_int tpm_key) 4
  bound ← to_bytes (rh_to_int bind) 4
  nonce_size ← to_bytes (length (nonce_or_default nonce)) 2
  se ← to_bytes session_type 1
  sym ← sym_def_object_bytes symmetric
  hash ← to_bytes (alg_value auth_hash) 2
  ok (
      Command.start_auth_session (record {
        tag = st_no_sessions;
        cc = cc_start_auth_session;
        params =
            key
            ++ (bound
                ++ (nonce_size
                    ++ (nonce_or_default nonce
                        ++ (salt_or_default salt ++ (se ++ (sym ++ hash))))));
      }))

-- The symmetric definition whose algorithm `alg` stands at `offset`, and the offset behind it.
unfoldable pub parse_symmetric : Bytes → ℕ → ℕ → ℕ × ℕ × ℕ
parse_symmetric params alg offset =
    if alg == alg_value TpmAlg.null
    then (0, alg_value TpmAlg.null, offset + 2)
    else (uint_at params (offset + 2) 2, uint_at params (offset + 4) 2, offset + 6)

unfoldable pub start_auth_session_to_proto : TpmCommand → Result Message
start_auth_session_to_proto base = do
  let params = base.params
  let tpm_key = uint_at params 0 4
  let bind = uint_at params 4 4
  let nonce_size = uint_at params 8 2
  let nonce_end = 10 + nonce_size
  let nonce = slice params 10 nonce_end
  let salt_size = uint_at params nonce_end 2
  let salt_start = nonce_end + 2
  let salt_end = salt_start + salt_size
  let encrypted_salt = slice params salt_start salt_end
  session_type ← index params salt_end
  let symmetric_alg = uint_at params (salt_end + 1) 2
  let (key_bits, mode, auth_hash_offset) = parse_symmetric params symmetric_alg (salt_end + 1)
  let auth_hash = uint_at params auth_hash_offset 2
  type_name ← se_name session_type
  sym_name ← alg_name symmetric_alg
  mode_name ← alg_name mode
  hash_name ← alg_name auth_hash
  tpm_key_value ← enum_value tpm_key
  bind_value ← enum_value bind
  ok (
      Message.startauthsession (proto_header base) tpm_key_value bind_value (proto_tpm2b_data nonce)
        (proto_tpm2b_data encrypted_salt) type_name
        (record { algorithm = sym_name; key_bits = key_bits; mode = mode_name }) hash_name)
