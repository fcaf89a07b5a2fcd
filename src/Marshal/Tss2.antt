-- ===== src/Marshal/Tss2.antt =====
-- What src/harness/proto_conversion.cc uses of tss2: the functions `Tss2_MU_*_Marshal` and the sizes
-- of the buffers in its structures.
use tpm_fuzzer.Prelude.{ℕ, ◌^◌, ◌<◌, ◌≤◌, ◌≡◌, Option, none, some, List, length, ltb, if◌then◌else◌}
use tpm_fuzzer.Bytes.{Bytes, big_endian}
use tpm_fuzzer.Bytes.Prefixed.{prefixed}

-- `keyBits` and `mode` of TPMT_SYM_DEF and of TPMT_SYM_DEF_OBJECT stand where the algorithm is not
-- null.
pub record MuSymmetric : Type 0 where
  pub algorithm : ℕ
  pub key_bits : ℕ
  pub mode : ℕ

pub data MuParms : Type 0 where
  rsa : (symmetric : MuSymmetric) (scheme key_bits exponent : ℕ) → MuParms
  keyedhash : (scheme : ℕ) → MuParms
  null : MuParms

-- TPMT_PUBLIC; the type is the constructor of `parameters`.
pub record MuPublic : Type 0 where
  pub name_alg : ℕ
  pub object_attributes : ℕ
  pub auth_policy : Bytes
  pub parameters : MuParms
  pub unique : Bytes

-- TPMS_PCR_SELECTION
pub record MuPcrSelection : Type 0 where
  pub hash : ℕ
  pub sizeof_select : ℕ
  pub pcr_select : Bytes

-- TPMS_NV_PUBLIC
pub record MuNvPublic : Type 0 where
  pub nv_index : ℕ
  pub name_alg : ℕ
  pub attributes : ℕ
  pub auth_policy : Bytes
  pub data_size : ℕ

-- A function takes a value and the number of bytes from the offset to the end of the buffer, and
-- gives the bytes that it writes, or none where it fails.
abbrev pub MuFunction : Type 0 → Type 0
MuFunction A = A → ℕ → Option Bytes

pub record Mu : Type 0 where
  pub uint16 : MuFunction ℕ
  pub uint32 : MuFunction ℕ
  pub tpm2b_data : MuFunction Bytes
  pub tpm2b_private : MuFunction Bytes
  pub tpm2b_public_key_rsa : MuFunction Bytes
  pub tpm2b_event : MuFunction Bytes
  pub tpmt_sym_def : MuFunction MuSymmetric
  -- userAuth and data
  pub tpm2b_sensitive_create : MuFunction (Bytes × Bytes)
  pub tpm2b_public : MuFunction MuPublic
  pub tpml_pcr_selection : MuFunction (List MuPcrSelection)
  -- size and nvPublic
  pub tpm2b_nv_public : MuFunction (ℕ × MuNvPublic)
  -- what `Tss2_MU_TPMS_NV_PUBLIC_Marshal` adds to an offset of 0 where it is given no buffer
  pub nv_public_size : MuNvPublic → ℕ
  -- `sizeof` of the buffers
  pub data_capacity : ℕ
  pub private_capacity : ℕ
  pub public_key_rsa_capacity : ℕ
  pub event_capacity : ℕ
  pub auth_capacity : ℕ
  pub sensitive_data_capacity : ℕ
  pub digest_capacity : ℕ
  pub select_capacity : ℕ
  -- `TPM2_NUM_PCR_BANKS`
  pub num_pcr_banks : ℕ

-- The bytes, if there is room for them.
abbrev pub if_room : Bytes → ℕ → Option Bytes
if_room w room = if ltb room (length w) then none else some w

-- The documented format of integers and of a TPM2B buffer: big-endian numbers, and a two-byte size
-- in front of the buffer.
pub record IsWireFormat (mu : Mu) : Type 0 where
  pub writes_uint16 : (n room : ℕ) → n < 65536 → mu.uint16 n room ≡ if_room (big_endian 2 n) room
  pub writes_uint32 : (n room : ℕ) → n < 2 ^ 32 → mu.uint32 n room ≡ if_room (big_endian 4 n) room
  pub writes_data :
      (x : Bytes) (room : ℕ)
      → length x ≤ mu.data_capacity
      → length x < 65536
      → mu.tpm2b_data x room ≡ if_room (prefixed x) room
  pub writes_public_key_rsa :
      (x : Bytes) (room : ℕ)
      → length x ≤ mu.public_key_rsa_capacity
      → length x < 65536
      → mu.tpm2b_public_key_rsa x room ≡ if_room (prefixed x) room
