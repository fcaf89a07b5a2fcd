-- ===== src/Seeds/Table.antt =====
-- `TEST_CASES` of main.py: the seed definitions by command name.
pub mod Blobs
pub mod Build
pub mod Objects
pub mod Plain
pub mod Asymmetric
pub mod Registers
pub mod Indices
pub mod Returns
pub mod Entries
pub mod Distinct
pub mod Complete
use tpm_fuzzer.Prelude.{ℕ, List, [], ◌∷◌, none, codes, Bool, Result, ok, raise, ◌>>=◌}
use tpm_fuzzer.Types.Enums.{TpmEccCurve, member}
use tpm_fuzzer.Commands.Instance.{Command}
use tpm_fuzzer.Commands.Simple.{
  stir_random, get_test_result, read_clock, vendor_tcg_test, ecc_parameters, test_parms,
}
use tpm_fuzzer.Seeds.Directory.{Text}
use tpm_fuzzer.Seeds.Generation.{SeedVariants, SeedDefinition, SeedFiles, Outcome, generate_seeds}
use tpm_fuzzer.Seeds.Variants.{Viewer}
use tpm_fuzzer.Bytes.{Bytes}
use tpm_fuzzer.Proto.{Message}
use tpm_fuzzer.Seeds.Table.Build.{all_of}
use tpm_fuzzer.Seeds.Table.Objects.{tpm_load_seeds, tpm_unseal_seeds, tpm_create_seeds}
use tpm_fuzzer.Seeds.Table.Plain.{
  tpm_incremental_self_test_seeds, tpm_get_rand_seeds, tpm_get_capability_seeds, tpm_hash_seeds,
  self_test_seeds, create_primary_seeds, start_auth_session_seeds, clear_seeds,
  set_primary_policy_seeds,
}
use tpm_fuzzer.Seeds.Table.Asymmetric.{
  tpm_make_credential_seeds, tpm_rsa_encrypt_seeds, tpm_rsa_decrypt_seeds, sign_seeds,
  load_external_seeds,
}
use tpm_fuzzer.Seeds.Table.Registers.{
  tpm_pcr_read_seeds, tpm_pcr_allocate_seeds, tpm_pcr_extend_seeds, tpm_pcr_reset_seeds,
  tpm_pcr_setauthpolicy_seeds, pcr_event_seeds,
}
use tpm_fuzzer.Seeds.Table.Indices.{
  tpm_nv_extend_seeds, tpm_nv_definespace_seeds, tpm_nv_setbits_seeds, nv_write_lock_seeds,
  nv_write_seeds, nv_read_lock_seeds, nv_read_seeds, nv_undefine_space_seeds,
}

-- An entry that is a command, one that is a list of variants, and one that is a function: the
-- first two are built with the table, the third when the seeds are generated.
unfoldable pub single_entry : Text → Result Command → Result (Text × SeedDefinition)
single_entry name built = do c ← built; ok (name, SeedDefinition.command c)

unfoldable pub list_entry : Text → Result SeedVariants → Result (Text × SeedDefinition)
list_entry name built = do sequences ← built; ok (name, SeedDefinition.variants sequences)

unfoldable pub function_entry : Text → Result SeedVariants → Result (Text × SeedDefinition)
function_entry name made = ok (name, SeedDefinition.callable made)

abbrev pub test_entries : List (Result (Text × SeedDefinition))
test_entries =
    function_entry (codes "TPMGetRandom") tpm_get_rand_seeds
    ∷ single_entry (codes "TPMStirRandom") (stir_random [])
    ∷ function_entry (codes "TPMHash") tpm_hash_seeds
    ∷ single_entry (codes "TPMGetTestResult") get_test_result
    ∷ list_entry (codes "TPMSelfTest") self_test_seeds
    ∷ single_entry (codes "TPMReadClock") read_clock
    ∷ single_entry (codes "TPMVendorTCGTest") (vendor_tcg_test [])
    ∷ function_entry (codes "TPMUnseal") tpm_unseal_seeds
    ∷ function_entry (codes "TPMLoad") tpm_load_seeds
    ∷ list_entry (codes "TPMCreate") tpm_create_seeds
    ∷ list_entry (codes "TPMCreatePrimary") create_primary_seeds
    ∷ list_entry (codes "TPMStartAuthSessionHMAC") start_auth_session_seeds
    ∷ function_entry (codes "TPMRSADecrypt") tpm_rsa_decrypt_seeds
    ∷ function_entry (codes "TPMRSAEncrypt") tpm_rsa_encrypt_seeds
    ∷ function_entry (codes "TPMMakeCredential") tpm_make_credential_seeds
    ∷ function_entry (codes "TPMIncrementalSelfTest") tpm_incremental_self_test_seeds
    ∷ function_entry (codes "TPMGetCapability") tpm_get_capability_seeds
    ∷ single_entry (codes "TPMECCParameters") (ecc_parameters (member TpmEccCurve.nist_p192))
    ∷ list_entry (codes "TPMLoadExternal") load_external_seeds
    ∷ list_entry (codes "TPMSign") sign_seeds
    ∷ function_entry (codes "TPMPCRAllocate") tpm_pcr_allocate_seeds
    ∷ function_entry (codes "TPMPCRRead") tpm_pcr_read_seeds
    ∷ function_entry (codes "TPMPCRExtend") tpm_pcr_extend_seeds
    ∷ function_entry (codes "TPMPCRReset") tpm_pcr_reset_seeds
    ∷ function_entry (codes "TPMPCRSetAuthPolicy") tpm_pcr_setauthpolicy_seeds
    ∷ single_entry (codes "TPMTestParms") (test_parms none)
    ∷ function_entry (codes "TPMNVDefineSpace") tpm_nv_definespace_seeds
    ∷ function_entry (codes "TPMNVSetBits") tpm_nv_setbits_seeds
    ∷ list_entry (codes "TPMClear") clear_seeds
    ∷ list_entry (codes "TPMSetPrimaryPolicy") set_primary_policy_seeds
    ∷ list_entry (codes "TPMNVWriteLock") nv_write_lock_seeds
    ∷ list_entry (codes "TPMNVWrite") nv_write_seeds
    ∷ list_entry (codes "TPMNVReadLock") nv_read_lock_seeds
    ∷ list_entry (codes "TPMNVRead") nv_read_seeds
    ∷ function_entry (codes "TPMNVExtend") tpm_nv_extend_seeds
    ∷ list_entry (codes "TPMNVUndefineSpace") nv_undefine_space_seeds
    ∷ list_entry (codes "TPMPCREvent") pcr_event_seeds
    ∷ []

-- `TEST_CASES`: the display evaluates its entries in order.
unfoldable pub test_cases : Result (List (Text × SeedDefinition))
test_cases = all_of test_entries

-- The run of the script: `_generate_seeds`, unless the display of `TEST_CASES` raised.
abbrev pub run_table :
    Viewer
    → (List Message → Bytes)
    → Text
    → Bool
    → SeedFiles
    → Result (List (Text × SeedDefinition))
    → Outcome
run_table viewer render timestamp force files (ok seeds) =
    generate_seeds viewer render timestamp force seeds files
run_table viewer render timestamp force files (raise e) = (raise e, files)

unfoldable pub generate_test_cases :
    Viewer → (List Message → Bytes) → Text → Bool → SeedFiles → Outcome
generate_test_cases viewer render timestamp force files =
    run_table viewer render timestamp force files test_cases
