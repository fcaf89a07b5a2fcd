-- ===== src/Types/Enums.antt =====
-- The enumerations of tools/seed-generation/tpm2_types.py, and the `Union` of a number and a member.
use tpm_fuzzer.Prelude.{ℕ, ◌^◌}

pub data TpmiYesNo : Type 0 where
  yes_flag no_flag : TpmiYesNo

abbrev pub yes_no_value : TpmiYesNo → ℕ
yes_no_value TpmiYesNo.yes_flag = 0x00
yes_no_value TpmiYesNo.no_flag = 0x01

pub data TpmRh : Type 0 where
  owner null lockout endorsement platform : TpmRh

abbrev pub rh_value : TpmRh → ℕ
rh_value TpmRh.owner = 0x40000001
rh_value TpmRh.null = 0x40000007
rh_value TpmRh.lockout = 0x4000000A
rh_value TpmRh.endorsement = 0x4000000B
rh_value TpmRh.platform = 0x4000000C

pub data TpmRs : Type 0 where
  pw : TpmRs

abbrev pub rs_value : TpmRs → ℕ
rs_value TpmRs.pw = 0x40000009

pub data TpmHt : Type 0 where
  nv_index transient : TpmHt

abbrev pub ht_value : TpmHt → ℕ
ht_value TpmHt.nv_index = 0x01
ht_value TpmHt.transient = 0x80

pub data TpmAlg : Type 0 where
  rsa hmac sha1 sha256 sha384 aes cfb null rsassa rsaes oaep keyedhash : TpmAlg

abbrev pub alg_value : TpmAlg → ℕ
alg_value TpmAlg.rsa = 0x0001
alg_value TpmAlg.hmac = 0x0005
alg_value TpmAlg.sha1 = 0x0004
alg_value TpmAlg.sha256 = 0x000B
alg_value TpmAlg.sha384 = 0x000C
alg_value TpmAlg.aes = 0x0006
alg_value TpmAlg.cfb = 0x0043
alg_value TpmAlg.null = 0x0010
alg_value TpmAlg.rsassa = 0x0014
alg_value TpmAlg.rsaes = 0x0015
alg_value TpmAlg.oaep = 0x0017
alg_value TpmAlg.keyedhash = 0x0008

pub data TpmaObject : Type 0 where
  fixed_tpm fixed_parent sensitive_data_origin user_with_auth noda decrypt : TpmaObject
  restricted sign_encrypt x509_sign : TpmaObject

-- `1 << k` is `2 ^ k`.
abbrev pub object_value : TpmaObject → ℕ
object_value TpmaObject.fixed_tpm = 2 ^ 1
object_value TpmaObject.fixed_parent = 2 ^ 4
object_value TpmaObject.sensitive_data_origin = 2 ^ 5
object_value TpmaObject.user_with_auth = 2 ^ 6
object_value TpmaObject.noda = 2 ^ 10
object_value TpmaObject.decrypt = 2 ^ 17
object_value TpmaObject.restricted = 2 ^ 16
object_value TpmaObject.sign_encrypt = 2 ^ 18
object_value TpmaObject.x509_sign = 2 ^ 19

pub data TpmCap : Type 0 where
  algs handles commands pp_commands audit_commands pcrs tpm_properties pcr_properties : TpmCap
  ecc_curves auth_policies act pub_keys spdm_session_info vendor_property : TpmCap

abbrev pub cap_value : TpmCap → ℕ
cap_value TpmCap.algs = 0x00000000
cap_value TpmCap.handles = 0x00000001
cap_value TpmCap.commands = 0x00000002
cap_value TpmCap.pp_commands = 0x00000003
cap_value TpmCap.audit_commands = 0x00000004
cap_value TpmCap.pcrs = 0x00000005
cap_value TpmCap.tpm_properties = 0x00000006
cap_value TpmCap.pcr_properties = 0x00000007
cap_value TpmCap.ecc_curves = 0x00000008
cap_value TpmCap.auth_policies = 0x00000009
cap_value TpmCap.act = 0x0000000A
cap_value TpmCap.pub_keys = 0x0000000B
cap_value TpmCap.spdm_session_info = 0x0000000C
cap_value TpmCap.vendor_property = 0x00000100

pub data TpmaNv : Type 0 where
  pp_write owner_write auth_write nt_counter nt_bits nt_extend policy_delete write_define : TpmaNv
  pp_read owner_read auth_read no_da read_locked platform_create read_stclear : TpmaNv

abbrev pub nv_value : TpmaNv → ℕ
nv_value TpmaNv.pp_write = 2 ^ 0
nv_value TpmaNv.owner_write = 2 ^ 1
nv_value TpmaNv.auth_write = 2 ^ 2
nv_value TpmaNv.nt_counter = 2 ^ 4
nv_value TpmaNv.nt_bits = 2 ^ 5
nv_value TpmaNv.nt_extend = 2 ^ 6
nv_value TpmaNv.policy_delete = 2 ^ 10
nv_value TpmaNv.write_define = 2 ^ 13
nv_value TpmaNv.pp_read = 2 ^ 16
nv_value TpmaNv.owner_read = 2 ^ 17
nv_value TpmaNv.auth_read = 2 ^ 18
nv_value TpmaNv.no_da = 2 ^ 25
nv_value TpmaNv.read_locked = 2 ^ 28
nv_value TpmaNv.platform_create = 2 ^ 30
nv_value TpmaNv.read_stclear = 2 ^ 31

pub data TpmEccCurve : Type 0 where
  nist_p192 : TpmEccCurve

abbrev pub curve_value : TpmEccCurve → ℕ
curve_value TpmEccCurve.nist_p192 = 0x0001

-- `Union[int, E]`
pub data IntOr (E : Type 0) : Type 0 where
  int : ℕ → IntOr E
  member : E → IntOr E

-- `x.value if isinstance(x, E) else x`
abbrev pub resolve : {E : Type 0} → (E → ℕ) → IntOr E → ℕ
resolve value (int n) = n
resolve value (member e) = value e

abbrev pub alg_to_int : IntOr TpmAlg → ℕ
alg_to_int a = resolve alg_value a

abbrev pub rh_to_int : IntOr TpmRh → ℕ
rh_to_int a = resolve rh_value a

abbrev pub rs_to_int : IntOr TpmRs → ℕ
rs_to_int a = resolve rs_value a
