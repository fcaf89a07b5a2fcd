-- ===== src/Types/Public.antt =====
-- TPMT_PUBLIC and TPM2B_PUBLIC of tools/seed-generation/tpm2_types.py.
pub mod Layout
use tpm_fuzzer.Prelude.{
  [], ◌++◌, Option, none, some, ◌==◌, if◌then◌else◌, Result, ok, raise, value_error,
  not_implemented_error, ◌>>=◌,
}
use tpm_fuzzer.Bytes.{Bytes, to_bytes, sized}
use tpm_fuzzer.Types.Enums.{TpmAlg, alg_value, IntOr, alg_to_int}
use tpm_fuzzer.Types.Attributes.{Attributes, flags, attrs_to_int, default_object_flags}
use tpm_fuzzer.Types.Algorithms.{
  RsaParms, default_rsa_parms, rsa_parms_bytes, KeyedhashParms, default_keyedhash_parms,
  keyedhash_parms_bytes,
}
use tpm_fuzzer.Types.Enums.{TpmaObject}

pub record TpmtPublic : Type 0 where
  pub type : IntOr TpmAlg
  pub name_alg : IntOr TpmAlg
  pub object_attributes : Attributes TpmaObject
  pub auth_policy : Bytes
  pub rsa_parameters : Option RsaParms
  pub unique : Bytes
  pub keyedhash_scheme : Option KeyedhashParms

-- `TPMT_PUBLIC(type=type, name_alg=name_alg)`, with every other field left at its default.
abbrev pub default_public : IntOr TpmAlg → IntOr TpmAlg → TpmtPublic
default_public type name_alg = record {
  type = type;
  name_alg = name_alg;
  object_attributes = flags default_object_flags;
  auth_policy = [];
  rsa_parameters = some (default_rsa_parms 2048);
  unique = [];
  keyedhash_scheme = none;
}

unfoldable pub rsa_area : Option RsaParms → Bytes → Result Bytes
rsa_area none unique = raise value_error
rsa_area (some p) unique = do
  parameters ← rsa_parms_bytes p
  key ← sized unique
  ok (parameters ++ key)

-- `self.keyedhash_scheme or TPMS_KEYEDHASH_PARMS()`
unfoldable pub scheme_or_default : Option KeyedhashParms → KeyedhashParms
scheme_or_default none = default_keyedhash_parms
scheme_or_default (some p) = p

unfoldable pub keyedhash_area : Option KeyedhashParms → Bytes → Result Bytes
unfolding scheme_or_default
keyedhash_area scheme unique = do
  parameters ← keyedhash_parms_bytes (scheme_or_default scheme)
  digest ← sized unique
  ok (parameters ++ digest)

-- The parameters and the unique field of the area.
unfoldable pub public_union : TpmtPublic → Result Bytes
unfolding rsa_area keyedhash_area
public_union p =
    if alg_to_int p.type == alg_value TpmAlg.rsa
    then rsa_area p.rsa_parameters p.unique
    else if alg_to_int p.type == alg_value TpmAlg.keyedhash
    then keyedhash_area p.keyedhash_scheme p.unique
    else raise not_implemented_error

unfoldable pub public_bytes : TpmtPublic → Result Bytes
unfolding public_union
public_bytes p = do
  t_type ← to_bytes (alg_to_int p.type) 2
  name_alg ← to_bytes (alg_to_int p.name_alg) 2
  attrs ← to_bytes (attrs_to_int p.object_attributes) 4
  auth ← sized p.auth_policy
  rest ← public_union p
  ok (t_type ++ (name_alg ++ (attrs ++ (auth ++ rest))))

-- TPM2B_PUBLIC
unfoldable pub public_2b_bytes : TpmtPublic → Result Bytes
public_2b_bytes public_area = do public ← public_bytes public_area; sized public
