-- ===== src/Types/Buffers.antt =====
-- Sized buffers and sensitive areas of tools/seed-generation/tpm2_types.py.
use tpm_fuzzer.Prelude.{ℕ, [], ◌++◌, Result, ok, ◌>>=◌}
use tpm_fuzzer.Bytes.{Bytes, to_bytes, sized}
use tpm_fuzzer.Types.Enums.{TpmAlg, TpmRh, IntOr, alg_to_int, rh_to_int}

-- `TPM2B_PRIVATE(buffer).to_bytes()` and `TPM2B_DATA(buffer).to_bytes()`
unfoldable pub private_2b_bytes : Bytes → Result Bytes
private_2b_bytes buffer = sized buffer

unfoldable pub data_2b_bytes : Bytes → Result Bytes
data_2b_bytes buffer = sized buffer

pub record SensitiveCreate : Type 0 where
  pub user_auth : Bytes
  pub sensitive_data : Bytes

abbrev pub default_sensitive_create : SensitiveCreate
default_sensitive_create = record { user_auth = []; sensitive_data = [] }

unfoldable pub sensitive_create_bytes : SensitiveCreate → Result Bytes
sensitive_create_bytes s = do ua ← sized s.user_auth; d ← sized s.sensitive_data; ok (ua ++ d)

-- TPM2B_SENSITIVE_CREATE
unfoldable pub sensitive_create_2b_bytes : SensitiveCreate → Result Bytes
sensitive_create_2b_bytes s = do inner ← sensitive_create_bytes s; sized inner

-- TPM2B_SENSITIVE
pub record Sensitive : Type 0 where
  pub sensitive_type : IntOr TpmAlg
  pub auth_value : Bytes
  pub seed_value : Bytes
  pub private_key : Bytes

unfoldable pub sensitive_2b_bytes : Sensitive → Result Bytes
sensitive_2b_bytes s = do
  stype ← to_bytes (alg_to_int s.sensitive_type) 2
  auth ← sized s.auth_value
  seed ← sized s.seed_value
  pk ← sized s.private_key
  sized (stype ++ (auth ++ (seed ++ pk)))

-- TPMT_TK_HASHCHECK
pub record TkHashcheck : Type 0 where
  pub hierarchy : IntOr TpmRh
  pub digest : Bytes

-- `TPM_ST.TPM_ST_HASHCHECK`
abbrev tag_hashcheck : ℕ
tag_hashcheck = 0x8024

unfoldable pub tk_hashcheck_bytes : TkHashcheck → Result Bytes
tk_hashcheck_bytes t = do
  tag ← to_bytes tag_hashcheck 2
  h ← to_bytes (rh_to_int t.hierarchy) 4
  digest ← sized t.digest
  ok (tag ++ (h ++ digest))
