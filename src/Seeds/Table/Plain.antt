-- ===== src/Seeds/Table/Plain.antt =====
-- The seeds of the commands that take no object: `tpm_incremental_self_test_seeds`,
-- `tpm_get_rand_seeds`, `tpm_get_capability_seeds`, `tpm_hash_seeds`, and entries of `TEST_CASES`.
use tpm_fuzzer.Prelude.{ℕ, List, [], ◌∷◌, ◌++◌, none, map, replicate, codes, Result}
use tpm_fuzzer.Types.Enums.{TpmAlg, TpmCap, TpmRh, TpmiYesNo, IntOr, member}
use tpm_fuzzer.Proto.Constants.{st_no_sessions, st_sessions}
use tpm_fuzzer.Commands.Instance.{Command}
use tpm_fuzzer.Commands.Simple.{
  incremental_self_test, get_random, get_capability, self_test, tpm_hash,
}
use tpm_fuzzer.Commands.Hierarchy.{tpm_clear, set_primary_policy}
use tpm_fuzzer.Commands.Creation.{tpm_create_primary}
use tpm_fuzzer.Seeds.Generation.{SeedVariants}
use tpm_fuzzer.Seeds.Table.Build.{variants_of, pw, primary, hmac_session}

unfoldable pub tpm_incremental_self_test_seeds : Result SeedVariants
tpm_incremental_self_test_seeds = variants_of (
    map (λ algs. incremental_self_test algs ∷ [])
      ([] ∷ (TpmAlg.sha256 ∷ []) ∷ (TpmAlg.sha1 ∷ TpmAlg.sha256 ∷ []) ∷ []))

-- The cases of one tag
abbrev random_cases : ℕ → List (List (Result Command))
random_cases st =
    map (λ bytes_requested. get_random bytes_requested st none ∷ []) (16 ∷ 32 ∷ 64 ∷ 0 ∷ 48 ∷ [])

unfoldable pub tpm_get_rand_seeds : Result SeedVariants
tpm_get_rand_seeds = variants_of (random_cases st_no_sessions ++ random_cases st_sessions)

unfoldable pub tpm_get_capability_seeds : Result SeedVariants
tpm_get_capability_seeds = variants_of (
    (get_capability TpmCap.handles 0x80000000 10 ∷ [])
    ∷ (get_capability TpmCap.handles 0x81000000 10 ∷ [])
    ∷ (get_capability TpmCap.handles 0x01000000 10 ∷ [])
    ∷ (get_capability TpmCap.handles 0x02000000 10 ∷ [])
    ∷ (get_capability TpmCap.handles 0x03000000 10 ∷ [])
    ∷ (get_capability TpmCap.handles 0x00000000 10 ∷ [])
    ∷ (get_capability TpmCap.handles 0x40000000 10 ∷ [])
    ∷ (get_capability TpmCap.algs 0x0001 10 ∷ [])
    ∷ (get_capability TpmCap.commands 0x0000017A 10 ∷ [])
    ∷ (get_capability TpmCap.pcrs 0x00000000 16 ∷ [])
    ∷ (get_capability TpmCap.tpm_properties 0x00000100 64 ∷ [])
    ∷ (get_capability TpmCap.ecc_curves 0x0000 10 ∷ [])
    ∷ (get_capability TpmCap.auth_policies 0x40000001 10 ∷ [])
    ∷ (get_capability TpmCap.pub_keys 0x00000000 1 ∷ [])
    ∷ (get_capability TpmCap.act 0x00000000 1 ∷ [])
    ∷ [])

unfoldable pub tpm_hash_seeds : Result SeedVariants
tpm_hash_seeds = variants_of (
    (tpm_hash (codes "test hash data") TpmAlg.sha1 TpmRh.owner ∷ [])
    ∷ (tpm_hash (codes "another test") TpmAlg.sha256 TpmRh.platform ∷ [])
    ∷ (tpm_hash (codes "random bytes") TpmAlg.sha384 TpmRh.null ∷ [])
    ∷ [])

unfoldable pub self_test_seeds : Result SeedVariants
self_test_seeds =
    variants_of ((self_test TpmiYesNo.yes_flag ∷ []) ∷ (self_test TpmiYesNo.no_flag ∷ []) ∷ [])

unfoldable pub create_primary_seeds : Result SeedVariants
create_primary_seeds = variants_of (
    (primary ∷ get_random 16 st_no_sessions none ∷ [])
    ∷ (get_random 32 st_no_sessions none ∷ primary ∷ [])
    ∷ (primary ∷ primary ∷ [])
    ∷ [])

-- `TPM_FIRST_HMAC_SESSION_HANDLE`
abbrev pub first_hmac_session_handle : ℕ
first_hmac_session_handle = 0x02000000

unfoldable pub start_auth_session_seeds : Result SeedVariants
start_auth_session_seeds = variants_of (
    (hmac_session ∷ [])
    ∷ (hmac_session
        ∷ tpm_create_primary (IntOr.int first_hmac_session_handle) TpmAlg.sha256 2048
            (member TpmRh.owner) none
        ∷ [])
    ∷ [])

unfoldable pub clear_seeds : Result SeedVariants
clear_seeds =
    variants_of (
      (tpm_clear (member TpmRh.lockout) pw ∷ []) ∷ (tpm_clear (member TpmRh.platform) pw ∷ []) ∷ [])

unfoldable pub set_primary_policy_seeds : Result SeedVariants
set_primary_policy_seeds = variants_of (
    (set_primary_policy (member TpmRh.owner) [] (member TpmAlg.null) pw ∷ [])
    ∷ (set_primary_policy (member TpmRh.owner) (replicate 32 0x00) (member TpmAlg.sha256) pw ∷ [])
    ∷ (set_primary_policy (member TpmRh.endorsement) (replicate 32 0x11) (member TpmAlg.sha256) pw
        ∷ [])
    ∷ (set_primary_policy (member TpmRh.platform) (replicate 32 0x22) (member TpmAlg.sha256) pw
        ∷ [])
    ∷ (set_primary_policy (member TpmRh.lockout) (replicate 20 0x33) (member TpmAlg.sha1) pw ∷ [])
    ∷ (set_primary_policy (member TpmRh.owner) [] (member TpmAlg.sha256) pw ∷ [])
    ∷ [])
