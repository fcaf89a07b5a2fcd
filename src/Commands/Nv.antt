-- ===== src/Commands/Nv.antt =====
-- The commands on NV indices.
pub mod DefineSpace
use tpm_fuzzer.Prelude.{ℕ, ◌+◌, List, [], ◌∷◌, ◌++◌, Option, none, some, drop, Result, ok, ◌>>=◌}
use tpm_fuzzer.Bytes.{Bytes, to_bytes, slice, sized}
use tpm_fuzzer.Types.Enums.{
  TpmAlg, TpmRh, rh_value, TpmRs, TpmHt, ht_value, TpmaNv, IntOr, member, resolve, rh_to_int,
  rs_to_int,
}
use tpm_fuzzer.Types.Attributes.{Attributes}
use tpm_fuzzer.Types.Buffers.{data_2b_bytes}
use tpm_fuzzer.Types.Sessions.{single_auth_area}
use tpm_fuzzer.Types.Nv.{NvPublic, nv_public_2b_bytes}
use tpm_fuzzer.Proto.{NvPublicMessage, Message}
use tpm_fuzzer.Proto.Constants.{
  st_sessions, cc_nv_define_space, cc_nv_undefine_space, cc_nv_write_lock, cc_nv_read_lock,
  cc_nv_write, cc_nv_read, cc_nv_extend, cc_nv_set_bits, alg_name,
}
use tpm_fuzzer.Command.{TpmCommand, proto_header, proto_tpm2b_data}
use tpm_fuzzer.Command.Parse.{uint_at, parse_tpm2b}
use tpm_fuzzer.Commands.Instance.{Command}
use tpm_fuzzer.Commands.Creation.{parse_auth_area}

-- `super().__init__(TPM_ST_SESSIONS, cc, params)` in a class with no `to_proto`
abbrev with_sessions : ℕ → Bytes → Command
with_sessions cc params = Command.plain (record { tag = st_sessions; cc = cc; params = params })

-- The public area that TPMNVDefineSpace builds. `attributes` is annotated as a list of flags, but
-- main.py also passes a number.
unfoldable pub nv_template : ℕ → Attributes TpmaNv → ℕ → NvPublic
nv_template nv_index attributes data_size = record {
  nv_index = nv_index;
  name_alg = member TpmAlg.sha256;
  attributes = attributes;
  auth_policy = [];
  data_size = data_size;
}

unfoldable pub nv_define_space : ℕ → Attributes TpmaNv → ℕ → TpmRh → ℕ → Result Command
nv_define_space nv_index attributes session_handle hierarchy data_size = do
  handle ← to_bytes (rh_value hierarchy) 4
  auth_area ← single_auth_area session_handle
  auth_value ← data_2b_bytes []
  nv_public ← nv_public_2b_bytes (nv_template nv_index attributes data_size)
  ok (
      Command.nv_define_space (record {
        tag = st_sessions;
        cc = cc_nv_define_space;
        params = handle ++ (auth_area ++ (auth_value ++ nv_public));
      }))

-- The message of the public area of an NV index, from its bytes.
unfoldable pub proto_nv_public : Bytes → Result NvPublicMessage
proto_nv_public nv_inner = do
  let nv_index = uint_at nv_inner 0 4
  let name_alg = uint_at nv_inner 4 2
  let nv_attributes = uint_at nv_inner 6 4
  let policy_size = uint_at nv_inner 10 2
  let auth_policy = slice nv_inner 12 (12 + policy_size)
  let data_size = uint_at nv_inner (12 + policy_size) 2
  name ← alg_name name_alg
  ok (record {
    nv_index = nv_index;
    name_alg = name;
    attributes = nv_attributes;
    auth_policy = auth_policy;
    data_size = data_size;
  })

unfoldable pub nv_define_space_to_proto : TpmCommand → Result Message
nv_define_space_to_proto base = do
  let params = base.params
  let auth_handle = uint_at params 0 4
  (sessions, offset) ← parse_auth_area base.tag params
  let (auth_value, offset_public) = parse_tpm2b params offset
  let (nv_outer, _) = parse_tpm2b params offset_public
  nv_public ← proto_nv_public (drop 2 nv_outer)
  ok (
      Message.nvdefinespace (proto_header base) auth_handle sessions
        (proto_tpm2b_data (drop 2 auth_value)) nv_public)

-- `handle(4) | nvIndex(4) | authArea | rest`, the parameters of the other commands.
nv_params : ℕ → ℕ → ℕ → Result Bytes → Result Bytes
nv_params auth_handle nv_index session_handle rest = do
  handle ← to_bytes auth_handle 4
  index ← to_bytes nv_index 4
  auth_area ← single_auth_area session_handle
  more ← rest
  ok (handle ++ (index ++ (auth_area ++ more)))

unfoldable pub nv_undefine_space : ℕ → TpmRh → ℕ → Result Command
unfolding nv_params
nv_undefine_space nv_index hierarchy session_handle = do
  params ← nv_params (rh_value hierarchy) nv_index session_handle (ok [])
  ok (with_sessions cc_nv_undefine_space params)

unfoldable pub nv_write_lock : ℕ → IntOr TpmRh → ℕ → Result Command
unfolding nv_params
nv_write_lock nv_index auth_handle session_handle = do
  params ← nv_params (rh_to_int auth_handle) nv_index session_handle (ok [])
  ok (with_sessions cc_nv_write_lock params)

unfoldable pub nv_read_lock : ℕ → IntOr TpmRh → ℕ → Result Command
unfolding nv_params
nv_read_lock nv_index auth_handle session_handle = do
  params ← nv_params (rh_to_int auth_handle) nv_index session_handle (ok [])
  ok (with_sessions cc_nv_read_lock params)

-- With no authorization handle the index authorizes itself.
unfoldable pub auth_or_index : Option (IntOr TpmRh) → ℕ → ℕ
auth_or_index none nv_index = nv_index
auth_or_index (some auth_handle) nv_index = rh_to_int auth_handle

unfoldable pub nv_write :
    IntOr TpmHt → Bytes → ℕ → Option (IntOr TpmRh) → IntOr TpmRs → Result Command
unfolding nv_params auth_or_index
nv_write nv_index content offset auth_handle session_handle = do
  let index = resolve ht_value nv_index
  data_2b ← sized content
  params ←
      nv_params (auth_or_index auth_handle index) index (rs_to_int session_handle)
        (do at ← to_bytes offset 2; ok (data_2b ++ at))
  ok (with_sessions cc_nv_write params)

unfoldable pub nv_read : ℕ → ℕ → ℕ → IntOr TpmRh → ℕ → Result Command
unfolding nv_params
nv_read nv_index size offset auth_handle session_handle = do
  params ←
      nv_params (rh_to_int auth_handle) nv_index session_handle
        (do count ← to_bytes size 2; at ← to_bytes offset 2; ok (count ++ at))
  ok (with_sessions cc_nv_read params)

unfoldable pub nv_extend : ℕ → Bytes → Option (IntOr TpmRh) → IntOr TpmRs → Result Command
unfolding nv_params auth_or_index
nv_extend nv_index content auth_handle session_handle = do
  data_2b ← sized content
  params ←
      nv_params (auth_or_index auth_handle nv_index) nv_index (rs_to_int session_handle)
        (ok data_2b)
  ok (with_sessions cc_nv_extend params)

unfoldable pub nv_set_bits : ℕ → ℕ → IntOr TpmRh → ℕ → Result Command
unfolding nv_params
nv_set_bits nv_index bits auth_handle session_handle = do
  params ← nv_params (rh_to_int auth_handle) nv_index session_handle (to_bytes bits 8)
  ok (with_sessions cc_nv_set_bits params)
