-- ===== src/Commands/Pcr.antt =====
-- The commands on PCRs.
use tpm_fuzzer.Prelude.{ℕ, List, [], ◌∷◌, ◌++◌, length, map, Result, ok, ◌>>=◌}
use tpm_fuzzer.Bytes.{Bytes, to_bytes, sized}
use tpm_fuzzer.Types.Enums.{TpmAlg, TpmRh, TpmRs, IntOr, alg_to_int, rh_to_int, rs_to_int}
use tpm_fuzzer.Types.Sessions.{single_auth_area}
use tpm_fuzzer.Types.Pcr.{PcrSelection, pcr_selections_bytes, TpmtHa, digest_values_bytes}
use tpm_fuzzer.Proto.{PcrSelectionMessage, Message}
use tpm_fuzzer.Proto.Constants.{
  enum_value, st_no_sessions, st_sessions, cc_pcr_read, cc_pcr_allocate, cc_pcr_extend,
  cc_pcr_reset, cc_pcr_event, cc_pcr_set_auth_policy,
}
use tpm_fuzzer.Command.{TpmCommand, proto_header, proto_tpm2b_data}
use tpm_fuzzer.Command.Parse.{proto_pcr_selection}
use tpm_fuzzer.Commands.Instance.{Command}
use tpm_fuzzer.Commands.Hierarchy.{password_session}

-- The selection list as TPMPCRRead writes it down.
unfoldable pub read_selection : PcrSelection → PcrSelectionMessage
read_selection sel = record {
  hash = alg_to_int sel.hash;
  sizeof_select = length sel.pcr_select;
  pcr_select = sel.pcr_select;
}

unfoldable pub pcr_read : List PcrSelection → Result Command
unfolding read_selection
pcr_read selections = do
  params ← pcr_selections_bytes selections
  let base : TpmCommand = record { tag = st_no_sessions; cc = cc_pcr_read; params = params }
  ok (
      Command.prepared base (
        Message.pcrread (proto_header base)
          (record { count = length selections; pcr_selections = map read_selection selections })))

unfoldable pub pcr_allocate : List PcrSelection → IntOr TpmRh → IntOr TpmRs → Result Command
pcr_allocate pcr_allocation auth_handle session_handle = do
  handle ← to_bytes (rh_to_int auth_handle) 4
  auth_area ← single_auth_area (rs_to_int session_handle)
  allocation ← pcr_selections_bytes pcr_allocation
  ok (
      Command.pcr_allocate
        (record {
          tag = st_sessions;
          cc = cc_pcr_allocate;
          params = handle ++ (auth_area ++ allocation);
        })
        pcr_allocation (rh_to_int auth_handle) (rs_to_int session_handle))

unfoldable pub pcr_allocate_to_proto : TpmCommand → List PcrSelection → ℕ → ℕ → Result Message
pcr_allocate_to_proto base pcr_allocation auth_handle session_handle = do
  payload ← pcr_selections_bytes pcr_allocation
  allocation ← proto_pcr_selection payload
  handle_value ← enum_value auth_handle
  ok (
      Message.pcrallocate (proto_header base) handle_value (password_session session_handle ∷ [])
        allocation)

unfoldable pub pcr_extend : IntOr TpmRh → List TpmtHa → IntOr TpmRs → Result Command
pcr_extend pcr_handle digests session_handle = do
  handle ← to_bytes (rh_to_int pcr_handle) 4
  auth_area ← single_auth_area (rs_to_int session_handle)
  values ← digest_values_bytes digests
  ok (
      Command.plain (record {
        tag = st_sessions;
        cc = cc_pcr_extend;
        params = handle ++ (auth_area ++ values);
      }))

unfoldable pub pcr_reset : ℕ → IntOr TpmRs → Result Command
pcr_reset pcr_handle session_handle = do
  handle ← to_bytes pcr_handle 4
  auth_area ← single_auth_area (rs_to_int session_handle)
  ok (Command.plain (record { tag = st_sessions; cc = cc_pcr_reset; params = handle ++ auth_area }))

unfoldable pub pcr_event : ℕ → Bytes → ℕ → Result Command
pcr_event pcr_handle event_data session_handle = do
  event ← sized event_data
  handle ← to_bytes pcr_handle 4
  auth_area ← single_auth_area session_handle
  let base : TpmCommand = record {
    tag = st_sessions;
    cc = cc_pcr_event;
    params = handle ++ (auth_area ++ event);
  }
  ok (
      Command.prepared base (
        Message.pcrevent (proto_header base) pcr_handle (password_session session_handle ∷ [])
          (proto_tpm2b_data event_data)))

unfoldable pub pcr_set_auth_policy : ℕ → Bytes → IntOr TpmAlg → ℕ → ℕ → Result Command
pcr_set_auth_policy auth_handle auth_policy hash_alg pcr_num session_handle = do
  digest ← sized auth_policy
  handle ← to_bytes auth_handle 4
  auth_area ← single_auth_area session_handle
  hash ← to_bytes (alg_to_int hash_alg) 2
  num ← to_bytes pcr_num 4
  let base : TpmCommand = record {
    tag = st_sessions;
    cc = cc_pcr_set_auth_policy;
    params = handle ++ (auth_area ++ (digest ++ (hash ++ num)));
  }
  ok (
      Command.prepared base (
        Message.pcrsetauthpolicy (proto_header base) auth_handle
          (password_session session_handle ∷ []) (proto_tpm2b_data auth_policy)
          (alg_to_int hash_alg) pcr_num))
