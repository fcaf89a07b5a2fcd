-- ===== src/Commands/Simple.antt =====
-- The commands with no handle: self tests, random numbers, capabilities, clock, hash, parameters.
use tpm_fuzzer.Prelude.{ℕ, ◌-◌, List, [], ◌++◌, Option, none, some, length, drop, Result, ok, ◌>>=◌}
use tpm_fuzzer.Bytes.{Bytes, to_bytes, from_bytes, sized, join}
use tpm_fuzzer.Types.Enums.{
  TpmAlg, alg_value, TpmRh, rh_value, TpmCap, cap_value, TpmiYesNo, yes_no_value, TpmEccCurve,
  curve_value, IntOr, member, resolve,
}
use tpm_fuzzer.Types.Algorithms.{PublicParms, default_rsa_parms, public_parms_bytes}
use tpm_fuzzer.Types.Sessions.{AuthCommand, auth_area_bytes}
use tpm_fuzzer.Proto.{Message}
use tpm_fuzzer.Proto.Constants.{
  st_no_sessions, cc_incremental_self_test, cc_stir_random, cc_vendor_tcg_test, cc_get_random,
  cc_get_capability, cc_self_test, cc_read_clock, cc_hash, cc_get_test_result, cc_ecc_parameters,
  cc_test_parms,
}
use tpm_fuzzer.Command.{TpmCommand, proto_header}
use tpm_fuzzer.Commands.Instance.{Command}

-- `super().__init__(TPM_ST_NO_SESSIONS, cc, params)` in a class with no `to_proto`
abbrev no_sessions : ℕ → Bytes → Command
no_sessions cc params = Command.plain (record { tag = st_no_sessions; cc = cc; params = params })

unfoldable pub incremental_self_test : List TpmAlg → Result Command
incremental_self_test algorithms = do
  count ← to_bytes (length algorithms) 4
  alg_ids ← join (λ a. to_bytes (alg_value a) 2) algorithms
  ok (no_sessions cc_incremental_self_test (count ++ alg_ids))

unfoldable pub stir_random : Bytes → Result Command
stir_random content = do params ← sized content; ok (no_sessions cc_stir_random params)

unfoldable pub vendor_tcg_test : Bytes → Result Command
vendor_tcg_test content = do params ← sized content; ok (no_sessions cc_vendor_tcg_test params)

unfoldable pub get_random : ℕ → ℕ → Option (List AuthCommand) → Result Command
get_random req_bytes st none = do
  params ← to_bytes req_bytes 2
  ok (Command.get_random (record { tag = st; cc = cc_get_random; params = params }))
get_random req_bytes st (some auth) = do
  area ← auth_area_bytes auth
  req ← to_bytes req_bytes 2
  ok (Command.get_random (record { tag = st; cc = cc_get_random; params = area ++ req }))

-- `self.params[-2:]` is the last two bytes, or all where there are fewer.
unfoldable pub get_random_to_proto : TpmCommand → Message
get_random_to_proto base =
    Message.getrandom (proto_header base) (from_bytes (drop (length base.params - 2) base.params))

unfoldable pub get_capability : TpmCap → ℕ → ℕ → Result Command
get_capability capability property property_count = do
  cap ← to_bytes (cap_value capability) 4
  prop ← to_bytes property 4
  count ← to_bytes property_count 4
  ok (no_sessions cc_get_capability (cap ++ (prop ++ count)))

unfoldable pub self_test : TpmiYesNo → Result Command
self_test full_test = do
  params ← to_bytes (yes_no_value full_test) 1
  ok (no_sessions cc_self_test params)

unfoldable pub read_clock : Result Command
read_clock = ok (no_sessions cc_read_clock [])

unfoldable pub tpm_hash : Bytes → TpmAlg → TpmRh → Result Command
tpm_hash content hash_alg hierarchy = do
  buffer ← sized content
  alg ← to_bytes (alg_value hash_alg) 2
  handle ← to_bytes (rh_value hierarchy) 4
  ok (no_sessions cc_hash (buffer ++ (alg ++ handle)))

unfoldable pub get_test_result : Result Command
get_test_result = ok (no_sessions cc_get_test_result [])

unfoldable pub ecc_parameters : IntOr TpmEccCurve → Result Command
ecc_parameters curve = do
  params ← to_bytes (resolve curve_value curve) 2
  ok (no_sessions cc_ecc_parameters params)

-- `params or TPMT_PUBLIC_PARMS(TPM_ALG.RSA)`
unfoldable pub parms_or_default : Option PublicParms → PublicParms
parms_or_default none = record {
  alg_type = member TpmAlg.rsa;
  rsa_parameters = some (default_rsa_parms 2048);
}
parms_or_default (some p) = p

unfoldable pub test_parms : Option PublicParms → Result Command
unfolding parms_or_default
test_parms params = do
  area ← public_parms_bytes (parms_or_default params)
  ok (no_sessions cc_test_parms area)
