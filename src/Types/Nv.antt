-- ===== src/Types/Nv.antt =====
-- The public area of an NV index of tools/seed-generation/tpm2_types.py.
use tpm_fuzzer.Prelude.{ℕ, ◌++◌, Result, ok, ◌>>=◌}
use tpm_fuzzer.Bytes.{Bytes, to_bytes, sized}
use tpm_fuzzer.Types.Enums.{TpmAlg, TpmaNv, IntOr, alg_to_int}
use tpm_fuzzer.Types.Attributes.{Attributes, nv_attrs_to_int}

-- TPMS_NV_PUBLIC
pub record NvPublic : Type 0 where
  pub nv_index : ℕ
  pub name_alg : IntOr TpmAlg
  pub attributes : Attributes TpmaNv
  pub auth_policy : Bytes
  pub data_size : ℕ

unfoldable pub nv_public_bytes : NvPublic → Result Bytes
nv_public_bytes p = do
  index ← to_bytes p.nv_index 4
  name ← to_bytes (alg_to_int p.name_alg) 2
  attrs ← to_bytes (nv_attrs_to_int p.attributes) 4
  policy ← sized p.auth_policy
  size ← to_bytes p.data_size 2
  ok (index ++ (name ++ (attrs ++ (policy ++ size))))

-- TPM2B_NV_PUBLIC
unfoldable pub nv_public_2b_bytes : NvPublic → Result Bytes
nv_public_2b_bytes p = do inner ← nv_public_bytes p; sized inner
