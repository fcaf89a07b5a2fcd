-- ===== src/Commands/Loading.antt =====
-- The commands that load objects and use them: TPMLoad, TPMLoadExternal, TPMUnseal and
-- TPMMakeCredential.
use tpm_fuzzer.Prelude.{
  ℕ, ◌-◌, ◌/◌, [], ◌∷◌, ◌++◌, none, some, Bool, true, false, drop, replicate, Result, ok, ◌>>=◌,
}
use tpm_fuzzer.Bytes.{Bytes, to_bytes, sized}
use tpm_fuzzer.Types.Enums.{TpmAlg, TpmRh, rh_value, TpmRs, TpmaObject, IntOr, member, rs_to_int}
use tpm_fuzzer.Types.Attributes.{flags}
use tpm_fuzzer.Types.Algorithms.{default_sym_def_object}
use tpm_fuzzer.Types.Public.{public_2b_bytes}
use tpm_fuzzer.Types.Buffers.{sensitive_2b_bytes}
use tpm_fuzzer.Types.Sessions.{single_auth_area}
use tpm_fuzzer.Proto.{Message}
use tpm_fuzzer.Proto.Constants.{
  st_no_sessions, st_sessions, cc_load, cc_load_external, cc_unseal, cc_make_credential,
}
use tpm_fuzzer.Command.{TpmCommand, proto_header, proto_tpm2b_data}
use tpm_fuzzer.Command.Parse.{proto_public}
use tpm_fuzzer.Commands.Instance.{Command}
use tpm_fuzzer.Commands.Hierarchy.{password_session}

-- The message is built in `__init__`, from the bytes of the two blobs.
unfoldable pub tpm_load : ℕ → Bytes → Bytes → IntOr TpmRs → Result Command
tpm_load parent_handle in_private in_public session_handle = do
  parent ← to_bytes parent_handle 4
  auth_area ← single_auth_area (rs_to_int session_handle)
  let base : TpmCommand = record {
    tag = st_sessions;
    cc = cc_load;
    params = parent ++ (auth_area ++ (in_private ++ in_public));
  }
  public ← proto_public in_public
  ok (
      Command.prepared base (
        Message.load (proto_header base) parent_handle
          (password_session (rs_to_int session_handle) ∷ []) (proto_tpm2b_data (drop 2 in_private))
          public))

-- `b"\x80" + b"\x01" * (n - 1)`: a negative count gives no byte, as `n - 1` at 0 does here.
unfoldable pub dummy_key : ℕ → Bytes
dummy_key n = 0x80 ∷ replicate (n - 1) 0x01

unfoldable pub external_private : Bool → ℕ → Result Bytes
unfolding dummy_key
external_private true key_bytes = sensitive_2b_bytes (record {
  sensitive_type = member TpmAlg.rsa;
  auth_value = [];
  seed_value = [];
  private_key = dummy_key (key_bytes / 2);
})
external_private false key_bytes = to_bytes 0 2

unfoldable pub load_external : TpmAlg → ℕ → TpmRh → Bool → Result Command
unfolding external_private dummy_key
load_external hash_alg key_bits hierarchy include_private = do
  let key_bytes = key_bits / 8
  in_private ← external_private include_private key_bytes
  in_public ← public_2b_bytes (record {
    type = member TpmAlg.rsa;
    name_alg = member hash_alg;
    object_attributes = flags (TpmaObject.fixed_tpm ∷ TpmaObject.user_with_auth ∷ []);
    auth_policy = [];
    rsa_parameters = some (record {
      symmetric = record default_sym_def_object { algorithm = member TpmAlg.null };
      scheme = member TpmAlg.null;
      scheme_hash = none;
      key_bits = key_bits;
      exponent = 0;
    });
    unique = dummy_key key_bytes;
    keyedhash_scheme = none;
  })
  hierarchy_bytes ← to_bytes (rh_value hierarchy) 4
  ok (
      Command.plain (record {
        tag = st_no_sessions;
        cc = cc_load_external;
        params = in_private ++ (in_public ++ hierarchy_bytes);
      }))

unfoldable pub unseal : ℕ → IntOr TpmRs → Result Command
unseal item_handle session_handle = do
  item ← to_bytes item_handle 4
  auth_area ← single_auth_area (rs_to_int session_handle)
  ok (Command.plain (record { tag = st_sessions; cc = cc_unseal; params = item ++ auth_area }))

unfoldable pub make_credential : ℕ → Bytes → Bytes → Result Command
make_credential handle credential object_name = do
  h ← to_bytes handle 4
  c ← sized credential
  n ← sized object_name
  ok (
      Command.make_credential
        (record { tag = st_no_sessions; cc = cc_make_credential; params = h ++ (c ++ n) }) handle
        credential object_name)

unfoldable pub make_credential_to_proto : TpmCommand → ℕ → Bytes → Bytes → Message
make_credential_to_proto base handle credential object_name =
    Message.makecredential (proto_header base) handle (proto_tpm2b_data credential)
      (proto_tpm2b_data object_name)
