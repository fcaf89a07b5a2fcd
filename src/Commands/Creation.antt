-- ===== src/Commands/Creation.antt =====
-- The commands that create objects: TPMCreate and TPMCreatePrimary.
pub mod Layout
pub mod CreateMessage
pub mod PrimaryMessage
use tpm_fuzzer.Prelude.{
  ℕ, ◌+◌, ◌-◌, ◌/◌, List, [], ◌∷◌, ◌++◌, Option, none, some, Bool, true, false, length, drop,
  replicate, ◌==◌, if◌then◌else◌, Result, ok, ◌>>=◌,
}
use tpm_fuzzer.Bytes.{Bytes, to_bytes, slice, sized}
use tpm_fuzzer.Types.Enums.{
  TpmAlg, TpmRh, rh_value, TpmRs, TpmaObject, IntOr, member, rh_to_int, rs_to_int,
}
use tpm_fuzzer.Types.Attributes.{Attributes, flags, attributes_or_default}
use tpm_fuzzer.Types.Algorithms.{
  RsaParms, default_rsa_parms, default_sym_def_object, KeyedhashParms,
}
use tpm_fuzzer.Types.Public.{TpmtPublic, default_public, public_2b_bytes}
use tpm_fuzzer.Types.Buffers.{
  data_2b_bytes, SensitiveCreate, default_sensitive_create, sensitive_create_2b_bytes, Sensitive,
  sensitive_2b_bytes,
}
use tpm_fuzzer.Types.Sessions.{single_auth_area}
use tpm_fuzzer.Types.Pcr.{pcr_selections_bytes}
use tpm_fuzzer.Proto.{TpmSession, Message}
use tpm_fuzzer.Proto.Constants.{
  enum_value, st_no_sessions, st_sessions, cc_create, cc_create_primary, cc_load, cc_load_external,
  cc_unseal, cc_make_credential,
}
use tpm_fuzzer.Command.{TpmCommand, proto_header, proto_tpm2b_data}
use tpm_fuzzer.Command.Parse.{
  uint_at, parse_tpm2b, proto_sensitive_create, proto_public, proto_pcr_selection, proto_sessions,
}
use tpm_fuzzer.Commands.Instance.{Command}
use tpm_fuzzer.Commands.Hierarchy.{password_session}

-- `rsa_parameters or TPMS_RSA_PARMS(key_bits=keyBits)`
unfoldable pub rsa_parms_or_default : Option RsaParms → ℕ → RsaParms
rsa_parms_or_default none key_bits = default_rsa_parms key_bits
rsa_parms_or_default (some p) key_bits = p

-- The public template of TPMCreate.
unfoldable pub create_template :
    TpmAlg
    → TpmAlg
    → ℕ
    → Option (Attributes TpmaObject)
    → Option RsaParms
    → Option KeyedhashParms
    → TpmtPublic
create_template hash_alg key_type key_bits object_attributes rsa_parameters keyedhash_scheme =
    record {
      type = member key_type;
      name_alg = member hash_alg;
      object_attributes = attributes_or_default object_attributes;
      auth_policy = [];
      rsa_parameters = some (rsa_parms_or_default rsa_parameters key_bits);
      unique = [];
      keyedhash_scheme = keyedhash_scheme;
    }

-- The parameters that TPMCreate and TPMCreatePrimary serialize.
unfoldable pub creation_params : ℕ → ℕ → SensitiveCreate → TpmtPublic → Result Bytes
creation_params handle session_handle sensitive template = do
  parent ← to_bytes handle 4
  auth_area ← single_auth_area session_handle
  in_sensitive ← sensitive_create_2b_bytes sensitive
  in_public ← public_2b_bytes template
  outside_info ← data_2b_bytes []
  creation_pcr ← pcr_selections_bytes []
  ok (parent ++ (auth_area ++ (in_sensitive ++ (in_public ++ (outside_info ++ creation_pcr)))))

unfoldable pub tpm_create :
    ℕ
    → IntOr TpmRs
    → TpmAlg
    → TpmAlg
    → ℕ
    → Option (Attributes TpmaObject)
    → Option RsaParms
    → Option KeyedhashParms
    → Bytes
    → Result Command
tpm_create parent_handle session_handle hash_alg key_type key_bits object_attributes rsa_parameters
      keyedhash_scheme sensitive_data =
    do
      params ←
          creation_params parent_handle (rs_to_int session_handle)
            (record { user_auth = []; sensitive_data = sensitive_data })
            (create_template hash_alg key_type key_bits object_attributes rsa_parameters
              keyedhash_scheme)
      ok (Command.create (record { tag = st_sessions; cc = cc_create; params = params }))

-- The authorization area is skipped, and the message has no sessions.
unfoldable pub create_to_proto : TpmCommand → Result Message
create_to_proto base = do
  let params = base.params
  let parent_handle = uint_at params 0 4
  let auth_size = uint_at params 4 4
  let auth_end = 4 + 4 + auth_size
  let (in_sensitive, offset_public) = parse_tpm2b params auth_end
  let (in_public, offset_outside) = parse_tpm2b params offset_public
  let (outside_info, offset_pcr) = parse_tpm2b params offset_outside
  let creation_pcr = drop offset_pcr params
  public ← proto_public in_public
  pcr ← proto_pcr_selection creation_pcr
  ok (
      Message.create (proto_header base) parent_handle [] (proto_sensitive_create in_sensitive)
        public (proto_tpm2b_data (drop 2 outside_info)) pcr)

-- The public template of TPMCreatePrimary: the caller's, or a storage key.
unfoldable pub primary_template : Option TpmtPublic → TpmAlg → ℕ → TpmtPublic
primary_template none hash_alg key_bits =
    record (default_public (member TpmAlg.rsa) (member hash_alg)) {
      rsa_parameters = some (default_rsa_parms key_bits);
    }
primary_template (some template) hash_alg key_bits = template

unfoldable pub tpm_create_primary :
    IntOr TpmRs → TpmAlg → ℕ → IntOr TpmRh → Option TpmtPublic → Result Command
tpm_create_primary session_handle hash_alg key_bits primary_handle public_template = do
  params ←
      creation_params (rh_to_int primary_handle) (rs_to_int session_handle) default_sensitive_create
        (primary_template public_template hash_alg key_bits)
  ok (
      Command.create_primary
        (record { tag = st_sessions; cc = cc_create_primary; params = params }))

-- The optional authorization area at offset 4: its sessions, and the offset behind it.
unfoldable pub parse_auth_area : ℕ → Bytes → Result (List TpmSession × ℕ)
parse_auth_area tag params =
    let area = do
      let auth_size = uint_at params 4 4
      let auth_end = 4 + 4 + auth_size
      sessions ← proto_sessions (slice params 4 auth_end)
      ok (sessions, auth_end)
    in if tag == st_no_sessions then ok ([], 4) else area

unfoldable pub create_primary_to_proto : TpmCommand → Result Message
unfolding parse_auth_area
create_primary_to_proto base = do
  let params = base.params
  let hierarchy = uint_at params 0 4
  (sessions, offset) ← parse_auth_area base.tag params
  let (in_sensitive, offset_public) = parse_tpm2b params offset
  let (in_public, offset_outside) = parse_tpm2b params offset_public
  let (outside_info, offset_pcr) = parse_tpm2b params offset_outside
  let creation_pcr = drop offset_pcr params
  public ← proto_public in_public
  pcr ← proto_pcr_selection creation_pcr
  hierarchy_value ← enum_value hierarchy
  ok (
      Message.createprimary (proto_header base) hierarchy_value sessions
        (proto_sensitive_create in_sensitive) public (proto_tpm2b_data (drop 2 outside_info)) pcr)
