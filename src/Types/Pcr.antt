-- ===== src/Types/Pcr.antt =====
-- PCR selections and digest lists of tools/seed-generation/tpm2_types.py.
use tpm_fuzzer.Prelude.{List, ◌++◌, length, Result, ok, ◌>>=◌}
use tpm_fuzzer.Bytes.{Bytes, to_bytes, join}
use tpm_fuzzer.Types.Enums.{TpmAlg, IntOr, alg_to_int}

-- TPMS_PCR_SELECTION
pub record PcrSelection : Type 0 where
  pub hash : IntOr TpmAlg
  pub pcr_select : Bytes

unfoldable pub pcr_selection_bytes : PcrSelection → Result Bytes
pcr_selection_bytes s = do
  alg ← to_bytes (alg_to_int s.hash) 2
  sizeof_select ← to_bytes (length s.pcr_select) 1
  ok (alg ++ (sizeof_select ++ s.pcr_select))

-- TPML_PCR_SELECTION
unfoldable pub pcr_selections_bytes : List PcrSelection → Result Bytes
pcr_selections_bytes selections = do
  count ← to_bytes (length selections) 4
  body ← join pcr_selection_bytes selections
  ok (count ++ body)

-- TPMT_HA
pub record TpmtHa : Type 0 where
  pub hash_alg : IntOr TpmAlg
  pub digest : Bytes

unfoldable pub tpmt_ha_bytes : TpmtHa → Result Bytes
tpmt_ha_bytes d = do alg ← to_bytes (alg_to_int d.hash_alg) 2; ok (alg ++ d.digest)

-- TPML_DIGEST_VALUES
unfoldable pub digest_values_bytes : List TpmtHa → Result Bytes
digest_values_bytes digests = do
  count ← to_bytes (length digests) 4
  body ← join tpmt_ha_bytes digests
  ok (count ++ body)
