-- ===== src/Commands/Hierarchy.antt =====
-- TPMClear and TPMSetPrimaryPolicy.
use tpm_fuzzer.Prelude.{ℕ, [], ◌∷◌, ◌++◌, Result, ok, ◌>>=◌}
use tpm_fuzzer.Bytes.{Bytes, to_bytes, sized}
use tpm_fuzzer.Types.Enums.{TpmAlg, TpmRh, TpmRs, IntOr, alg_to_int, rh_to_int, rs_to_int}
use tpm_fuzzer.Types.Sessions.{single_auth_area}
use tpm_fuzzer.Proto.{TpmSession, Message}
use tpm_fuzzer.Proto.Constants.{st_sessions, enum_value, cc_clear, cc_set_primary_policy}
use tpm_fuzzer.Command.{TpmCommand, proto_header, proto_tpm2b_data}
use tpm_fuzzer.Commands.Instance.{Command}

-- The session message that the classes write down: nothing but the handle.
unfoldable pub password_session : ℕ → TpmSession
password_session handle = record {
  session_handle = handle;
  nonce_size = 0;
  nonce = [];
  session_attributes = 0;
  hmac_size = 0;
  hmac = [];
}

unfoldable pub tpm_clear : IntOr TpmRh → IntOr TpmRs → Result Command
tpm_clear auth_handle session_handle = do
  handle ← to_bytes (rh_to_int auth_handle) 4
  auth_area ← single_auth_area (rs_to_int session_handle)
  ok (
      Command.clear (record { tag = st_sessions; cc = cc_clear; params = handle ++ auth_area })
        (rh_to_int auth_handle) (rs_to_int session_handle))

unfoldable pub clear_to_proto : TpmCommand → ℕ → ℕ → Message
clear_to_proto base auth_handle session_handle =
    Message.clear (proto_header base) auth_handle (password_session session_handle ∷ [])

-- The hash algorithm fits two bytes, and so the field of an enumeration.
unfoldable pub set_primary_policy :
    IntOr TpmRh → Bytes → IntOr TpmAlg → IntOr TpmRs → Result Command
set_primary_policy auth_handle auth_policy hash_alg session_handle = do
  auth_area ← single_auth_area (rs_to_int session_handle)
  policy ← sized auth_policy
  handle ← to_bytes (rh_to_int auth_handle) 4
  hash ← to_bytes (alg_to_int hash_alg) 2
  let base : TpmCommand = record {
    tag = st_sessions;
    cc = cc_set_primary_policy;
    params = handle ++ (auth_area ++ (policy ++ hash));
  }
  handle_value ← enum_value (rh_to_int auth_handle)
  ok (
      Command.prepared base (
        Message.setprimarypolicy (proto_header base) handle_value
          (password_session (rs_to_int session_handle) ∷ []) (proto_tpm2b_data auth_policy)
          (alg_to_int hash_alg)))
