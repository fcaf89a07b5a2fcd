-- ===== src/Proto/Constants.antt =====
-- The protobuf enumerations of include/proto/constants.
use tpm_fuzzer.Prelude.{
  ℕ, ◌^◌, Bool, ◌||◌, ◌==◌, ltb, if◌then◌else◌, Result, ok, raise, value_error,
}

-- TPMST
abbrev pub st_no_sessions : ℕ
st_no_sessions = 0x8001

abbrev pub st_sessions : ℕ
st_sessions = 0x8002

-- TPMSE
abbrev pub se_hmac : ℕ
se_hmac = 0x00

abbrev pub se_policy : ℕ
se_policy = 0x01

abbrev pub se_trial : ℕ
se_trial = 0x03

-- The numbers that TPMALG names.
unfoldable pub is_alg : ℕ → Bool
is_alg n =
    n == 0
    || n == 0x0001
    || n == 0x0004
    || n == 0x0005
    || n == 0x0006
    || n == 0x0008
    || n == 0x0010
    || n == 0x0014
    || n == 0x0015
    || n == 0x0017
    || n == 0x0043
    || n == 0x000B
    || n == 0x000C

-- `TPMALG.Name(n)`: a number without a name is refused. The field that takes the name stores `n`.
unfoldable pub alg_name : ℕ → Result ℕ
unfolding is_alg
alg_name n = if is_alg n then ok n else raise value_error

-- A number that is put into a field of an enumeration such as TPMRH or TPMALG: protobuf takes each
-- that a signed word of 32 bits holds, named or not.
unfoldable pub enum_value : ℕ → Result ℕ
enum_value n = if ltb n (2 ^ 31) then ok n else raise value_error

-- `TPMSE.Name(n)`
unfoldable pub se_name : ℕ → Result ℕ
se_name n = if n == se_hmac || n == se_policy || n == se_trial then ok n else raise value_error

-- TPMCC
abbrev pub cc_nv_undefine_space : ℕ
cc_nv_undefine_space = 0x00000122

abbrev pub cc_clear : ℕ
cc_clear = 0x00000126

abbrev pub cc_nv_define_space : ℕ
cc_nv_define_space = 0x0000012A

abbrev pub cc_pcr_allocate : ℕ
cc_pcr_allocate = 0x0000012B

abbrev pub cc_pcr_set_auth_policy : ℕ
cc_pcr_set_auth_policy = 0x0000012C

abbrev pub cc_set_primary_policy : ℕ
cc_set_primary_policy = 0x0000012E

abbrev pub cc_create_primary : ℕ
cc_create_primary = 0x00000131

abbrev pub cc_nv_set_bits : ℕ
cc_nv_set_bits = 0x00000135

abbrev pub cc_nv_extend : ℕ
cc_nv_extend = 0x00000136

abbrev pub cc_nv_write : ℕ
cc_nv_write = 0x00000137

abbrev pub cc_nv_write_lock : ℕ
cc_nv_write_lock = 0x00000138

abbrev pub cc_pcr_event : ℕ
cc_pcr_event = 0x0000013C

abbrev pub cc_pcr_reset : ℕ
cc_pcr_reset = 0x0000013D

abbrev pub cc_incremental_self_test : ℕ
cc_incremental_self_test = 0x00000142

abbrev pub cc_self_test : ℕ
cc_self_test = 0x00000143

abbrev pub cc_stir_random : ℕ
cc_stir_random = 0x00000146

abbrev pub cc_nv_read : ℕ
cc_nv_read = 0x0000014E

abbrev pub cc_nv_read_lock : ℕ
cc_nv_read_lock = 0x0000014F

abbrev pub cc_create : ℕ
cc_create = 0x00000153

abbrev pub cc_load : ℕ
cc_load = 0x00000157

abbrev pub cc_rsa_decrypt : ℕ
cc_rsa_decrypt = 0x00000159

abbrev pub cc_sign : ℕ
cc_sign = 0x0000015D

abbrev pub cc_unseal : ℕ
cc_unseal = 0x0000015E

abbrev pub cc_load_external : ℕ
cc_load_external = 0x00000167

abbrev pub cc_make_credential : ℕ
cc_make_credential = 0x00000168

abbrev pub cc_rsa_encrypt : ℕ
cc_rsa_encrypt = 0x00000174

abbrev pub cc_start_auth_session : ℕ
cc_start_auth_session = 0x00000176

abbrev pub cc_ecc_parameters : ℕ
cc_ecc_parameters = 0x00000178

abbrev pub cc_get_capability : ℕ
cc_get_capability = 0x0000017A

abbrev pub cc_get_random : ℕ
cc_get_random = 0x0000017B

abbrev pub cc_get_test_result : ℕ
cc_get_test_result = 0x0000017C

abbrev pub cc_hash : ℕ
cc_hash = 0x0000017D

abbrev pub cc_pcr_read : ℕ
cc_pcr_read = 0x0000017E

abbrev pub cc_read_clock : ℕ
cc_read_clock = 0x00000181

abbrev pub cc_pcr_extend : ℕ
cc_pcr_extend = 0x00000182

abbrev pub cc_test_parms : ℕ
cc_test_parms = 0x0000018A

abbrev pub cc_vendor_tcg_test : ℕ
cc_vendor_tcg_test = 0x20000000
