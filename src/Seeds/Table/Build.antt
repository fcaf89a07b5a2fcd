-- ===== src/Seeds/Table/Build.antt =====
-- Lists of commands that are built one after the other, as the displays of main.py build them.
use tpm_fuzzer.Prelude.{List, [], ◌∷◌, none, map, Result, ok, ◌>>=◌}
use tpm_fuzzer.Types.Enums.{TpmAlg, TpmRh, TpmRs, IntOr, member}
use tpm_fuzzer.Types.Algorithms.{default_sym_def_object}
use tpm_fuzzer.Types.Public.{TpmtPublic}
use tpm_fuzzer.Types.Attributes.{Attributes}
use tpm_fuzzer.Types.Enums.{TpmaObject}
use tpm_fuzzer.Prelude.{Option, some}
use tpm_fuzzer.Commands.Instance.{Command}
use tpm_fuzzer.Commands.Creation.{tpm_create_primary}
use tpm_fuzzer.Commands.AuthSession.{start_auth_session}
use tpm_fuzzer.Proto.Constants.{se_hmac}
use tpm_fuzzer.Seeds.Generation.{SeedVariants}

-- A list display: its elements are evaluated in order, and the first exception ends it.
abbrev pub all_of {ℓ} : {A : Type ℓ} → List (Result A) → Result (List A)
all_of [] = ok []
all_of (first ∷ rest) = do a ← first; more ← all_of rest; ok (a ∷ more)

abbrev pub variants_of : List (List (Result Command)) → Result SeedVariants
variants_of sequences = all_of (map all_of sequences)

abbrev pub pw : IntOr TpmRs
pw = member TpmRs.pw

-- `TPMCreatePrimary(TPM_RS.PW, TPM_ALG.SHA256, 2048)`
unfoldable pub primary : Result Command
primary = tpm_create_primary pw TpmAlg.sha256 2048 (member TpmRh.owner) none

-- The public area of an unrestricted 2048 bit RSA key: symmetric NULL, the scheme and its hash.
unfoldable pub key_template : List TpmaObject → TpmAlg → Option (IntOr TpmAlg) → TpmtPublic
key_template attributes scheme scheme_hash = record {
  type = member TpmAlg.rsa;
  name_alg = member TpmAlg.sha256;
  object_attributes = Attributes.flags attributes;
  auth_policy = [];
  rsa_parameters = some (record {
    symmetric = record default_sym_def_object { algorithm = member TpmAlg.null };
    scheme = member scheme;
    scheme_hash = scheme_hash;
    key_bits = 2048;
    exponent = 0;
  });
  unique = [];
  keyedhash_scheme = none;
}

unfoldable pub primary_from : TpmtPublic → Result Command
primary_from template =
    tpm_create_primary pw TpmAlg.sha256 2048 (member TpmRh.owner) (some template)

-- `TPMStartAuthSession(TPM_RH.NULL, TPM_RH.NULL, session_type=TPM_SE.TPM_SE_HMAC)`
unfoldable pub hmac_session : Result Command
hmac_session =
    start_auth_session (member TpmRh.null) (member TpmRh.null) none none se_hmac
      (record { algorithm = member TpmAlg.null; key_bits = 0; mode = IntOr.int 0 }) TpmAlg.sha256
