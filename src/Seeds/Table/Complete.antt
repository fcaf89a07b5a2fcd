-- ===== src/Seeds/Table/Complete.antt =====
-- `_generate_seeds` over `TEST_CASES`: it returns.
use tpm_fuzzer.Prelude.{◌≡◌, ◌∙◌, refl, ap, true, false, List, [], ◌∷◌, none, ok, codes}
use tpm_fuzzer.Bytes.{Bytes}
use tpm_fuzzer.Proto.{Message}
use tpm_fuzzer.Commands.Instance.{Command}
use tpm_fuzzer.Commands.Simple.{
  stir_random, get_test_result, read_clock, vendor_tcg_test, ecc_parameters, test_parms,
}
use tpm_fuzzer.Types.Enums.{TpmEccCurve, member}
use tpm_fuzzer.Seeds.Directory.{Text, text_eq}
use tpm_fuzzer.Seeds.Variants.{Viewer}
use tpm_fuzzer.Seeds.Generation.{SeedDefinition, SeedFiles, normalize_variants}
use tpm_fuzzer.Seeds.Generation.Refinement.{PlainNames}
use tpm_fuzzer.Seeds.Generation.Returns.{definitions_result, generate_seeds-result}
use tpm_fuzzer.Seeds.Generation.Fresh.{definition_of, DistinctNames, no_files, generate_seeds_fresh}
use tpm_fuzzer.Seeds.Generation.Spots.{variant_at, seeds_of}
use tpm_fuzzer.Seeds.Generation.Shelf.{seed_of}
use tpm_fuzzer.Prelude.{ℕ, sym, some, ok-injective}
use tpm_fuzzer.Seeds.Table.{test_entries, test_cases, run_table, generate_test_cases}
use tpm_fuzzer.Seeds.Table.Returns.Plain.{
  clear_seeds_return, create_primary_seeds_return, self_test_seeds_return,
  set_primary_policy_seeds_return, start_auth_session_seeds_return, tpm_get_capability_seeds_return,
  tpm_get_rand_seeds_return, tpm_hash_seeds_return, tpm_incremental_self_test_seeds_return,
}
use tpm_fuzzer.Seeds.Table.Returns.Single.{
  ecc_parameters_return, get_test_result_return, read_clock_return, stir_random_return,
  test_parms_return, vendor_tcg_test_return,
}
use tpm_fuzzer.Seeds.Table.Returns.Objects.{
  tpm_create_seeds_return, tpm_load_seeds_return, tpm_unseal_seeds_return,
}
use tpm_fuzzer.Seeds.Table.Returns.Asymmetric.{
  load_external_seeds_return, sign_seeds_return, tpm_make_credential_seeds_return,
  tpm_rsa_decrypt_seeds_return, tpm_rsa_encrypt_seeds_return,
}
use tpm_fuzzer.Seeds.Table.Returns.Registers.{
  pcr_event_seeds_return, tpm_pcr_allocate_seeds_return, tpm_pcr_extend_seeds_return,
  tpm_pcr_read_seeds_return, tpm_pcr_reset_seeds_return, tpm_pcr_setauthpolicy_seeds_return,
}
use tpm_fuzzer.Seeds.Table.Returns.Indices.{
  nv_read_lock_seeds_return, nv_read_seeds_return, nv_undefine_space_seeds_return,
  nv_write_lock_seeds_return, nv_write_seeds_return, tpm_nv_definespace_seeds_return,
  tpm_nv_extend_seeds_return, tpm_nv_setbits_seeds_return,
}
use tpm_fuzzer.Seeds.Table.Plain.{
  clear_seeds, create_primary_seeds, self_test_seeds, set_primary_policy_seeds,
  start_auth_session_seeds, tpm_get_capability_seeds, tpm_get_rand_seeds, tpm_hash_seeds,
  tpm_incremental_self_test_seeds,
}
use tpm_fuzzer.Seeds.Table.Objects.{tpm_create_seeds, tpm_load_seeds, tpm_unseal_seeds}
use tpm_fuzzer.Seeds.Table.Asymmetric.{
  load_external_seeds, sign_seeds, tpm_make_credential_seeds, tpm_rsa_decrypt_seeds,
  tpm_rsa_encrypt_seeds,
}
use tpm_fuzzer.Seeds.Table.Registers.{
  pcr_event_seeds, tpm_pcr_allocate_seeds, tpm_pcr_extend_seeds, tpm_pcr_read_seeds,
  tpm_pcr_reset_seeds, tpm_pcr_setauthpolicy_seeds,
}
use tpm_fuzzer.Seeds.Table.Indices.{
  nv_read_lock_seeds, nv_read_seeds, nv_undefine_space_seeds, nv_write_lock_seeds, nv_write_seeds,
  tpm_nv_definespace_seeds, tpm_nv_extend_seeds, tpm_nv_setbits_seeds,
}
use tpm_fuzzer.Seeds.Table.Entries.{
  plain_text, AllGood, single_entry-Good, list_entry-Good, function_entry-Good, all_of-Good,
}
use tpm_fuzzer.Seeds.Table.Distinct.{absent_name, distinct_names, distinct_names-DistinctNames}

abbrev names : List Text
names =
    codes "TPMGetRandom"
    ∷ codes "TPMStirRandom"
    ∷ codes "TPMHash"
    ∷ codes "TPMGetTestResult"
    ∷ codes "TPMSelfTest"
    ∷ codes "TPMReadClock"
    ∷ codes "TPMVendorTCGTest"
    ∷ codes "TPMUnseal"
    ∷ codes "TPMLoad"
    ∷ codes "TPMCreate"
    ∷ codes "TPMCreatePrimary"
    ∷ codes "TPMStartAuthSessionHMAC"
    ∷ codes "TPMRSADecrypt"
    ∷ codes "TPMRSAEncrypt"
    ∷ codes "TPMMakeCredential"
    ∷ codes "TPMIncrementalSelfTest"
    ∷ codes "TPMGetCapability"
    ∷ codes "TPMECCParameters"
    ∷ codes "TPMLoadExternal"
    ∷ codes "TPMSign"
    ∷ codes "TPMPCRAllocate"
    ∷ codes "TPMPCRRead"
    ∷ codes "TPMPCRExtend"
    ∷ codes "TPMPCRReset"
    ∷ codes "TPMPCRSetAuthPolicy"
    ∷ codes "TPMTestParms"
    ∷ codes "TPMNVDefineSpace"
    ∷ codes "TPMNVSetBits"
    ∷ codes "TPMClear"
    ∷ codes "TPMSetPrimaryPolicy"
    ∷ codes "TPMNVWriteLock"
    ∷ codes "TPMNVWrite"
    ∷ codes "TPMNVReadLock"
    ∷ codes "TPMNVRead"
    ∷ codes "TPMNVExtend"
    ∷ codes "TPMNVUndefineSpace"
    ∷ codes "TPMPCREvent"
    ∷ []

infixr 4 ◌also◌
abbrev ◌also◌ : {P Q : Type 0} → P → Q → P × Q
p also q = (p, q)

test_entries_good : AllGood test_entries names
unfolding AllGood plain_text
test_entries_good =
    function_entry-Good (codes "TPMGetRandom") tpm_get_rand_seeds refl tpm_get_rand_seeds_return
    also single_entry-Good (codes "TPMStirRandom") (stir_random []) refl stir_random_return
    also function_entry-Good (codes "TPMHash") tpm_hash_seeds refl tpm_hash_seeds_return
    also single_entry-Good (codes "TPMGetTestResult") get_test_result refl get_test_result_return
    also list_entry-Good (codes "TPMSelfTest") self_test_seeds refl self_test_seeds_return
    also single_entry-Good (codes "TPMReadClock") read_clock refl read_clock_return
    also single_entry-Good (codes "TPMVendorTCGTest") (vendor_tcg_test []) refl
        vendor_tcg_test_return
    also function_entry-Good (codes "TPMUnseal") tpm_unseal_seeds refl tpm_unseal_seeds_return
    also function_entry-Good (codes "TPMLoad") tpm_load_seeds refl tpm_load_seeds_return
    also list_entry-Good (codes "TPMCreate") tpm_create_seeds refl tpm_create_seeds_return
    also list_entry-Good (codes "TPMCreatePrimary") create_primary_seeds refl
        create_primary_seeds_return
    also list_entry-Good (codes "TPMStartAuthSessionHMAC") start_auth_session_seeds refl
        start_auth_session_seeds_return
    also function_entry-Good (codes "TPMRSADecrypt") tpm_rsa_decrypt_seeds refl
        tpm_rsa_decrypt_seeds_return
    also function_entry-Good (codes "TPMRSAEncrypt") tpm_rsa_encrypt_seeds refl
        tpm_rsa_encrypt_seeds_return
    also function_entry-Good (codes "TPMMakeCredential") tpm_make_credential_seeds refl
        tpm_make_credential_seeds_return
    also function_entry-Good (codes "TPMIncrementalSelfTest") tpm_incremental_self_test_seeds refl
        tpm_incremental_self_test_seeds_return
    also function_entry-Good (codes "TPMGetCapability") tpm_get_capability_seeds refl
        tpm_get_capability_seeds_return
    also single_entry-Good (codes "TPMECCParameters")
        (ecc_parameters (member TpmEccCurve.nist_p192)) refl ecc_parameters_return
    also list_entry-Good (codes "TPMLoadExternal") load_external_seeds refl
        load_external_seeds_return
    also list_entry-Good (codes "TPMSign") sign_seeds refl sign_seeds_return
    also function_entry-Good (codes "TPMPCRAllocate") tpm_pcr_allocate_seeds refl
        tpm_pcr_allocate_seeds_return
    also function_entry-Good (codes "TPMPCRRead") tpm_pcr_read_seeds refl tpm_pcr_read_seeds_return
    also function_entry-Good (codes "TPMPCRExtend") tpm_pcr_extend_seeds refl
        tpm_pcr_extend_seeds_return
    also function_entry-Good (codes "TPMPCRReset") tpm_pcr_reset_seeds refl
        tpm_pcr_reset_seeds_return
    also function_entry-Good (codes "TPMPCRSetAuthPolicy") tpm_pcr_setauthpolicy_seeds refl
        tpm_pcr_setauthpolicy_seeds_return
    also single_entry-Good (codes "TPMTestParms") (test_parms none) refl test_parms_return
    also function_entry-Good (codes "TPMNVDefineSpace") tpm_nv_definespace_seeds refl
        tpm_nv_definespace_seeds_return
    also function_entry-Good (codes "TPMNVSetBits") tpm_nv_setbits_seeds refl
        tpm_nv_setbits_seeds_return
    also list_entry-Good (codes "TPMClear") clear_seeds refl clear_seeds_return
    also list_entry-Good (codes "TPMSetPrimaryPolicy") set_primary_policy_seeds refl
        set_primary_policy_seeds_return
    also list_entry-Good (codes "TPMNVWriteLock") nv_write_lock_seeds refl
        nv_write_lock_seeds_return
    also list_entry-Good (codes "TPMNVWrite") nv_write_seeds refl nv_write_seeds_return
    also list_entry-Good (codes "TPMNVReadLock") nv_read_lock_seeds refl nv_read_lock_seeds_return
    also list_entry-Good (codes "TPMNVRead") nv_read_seeds refl nv_read_seeds_return
    also function_entry-Good (codes "TPMNVExtend") tpm_nv_extend_seeds refl
        tpm_nv_extend_seeds_return
    also list_entry-Good (codes "TPMNVUndefineSpace") nv_undefine_space_seeds refl
        nv_undefine_space_seeds_return
    also list_entry-Good (codes "TPMPCREvent") pcr_event_seeds refl pcr_event_seeds_return
    also refl

all_different : distinct_names names ≡ true
unfolding distinct_names absent_name text_eq
all_different = refl

-- The display of `TEST_CASES` is evaluated without an exception. Its names are different and have
-- no dash, and each sequence of each of its definitions is made and serializes, to bytes and to
-- messages or to none.
pub test_cases_built :
    (seeds : List (Text × SeedDefinition)) × (test_cases ≡ ok seeds)
    × PlainNames seeds
    × DistinctNames seeds
    × (definitions_result seeds ≡ ok tt)
unfolding test_cases
test_cases_built =
    let (seeds, built, keys, plains, returns) = all_of-Good test_entries names test_entries_good in
    (
      seeds,
      built,
      plains,
      distinct_names-DistinctNames seeds (ap distinct_names keys ∙ all_different),
      returns,
    )

-- The script without `-recreate` returns: for every content of the two seed directories, every
-- test script, every text format and at every time.
pub generate_test_cases_returns :
    (viewer : Viewer) (render : List Message → Bytes) (timestamp : Text) (files : SeedFiles)
    → (generate_test_cases viewer render timestamp false files).0 ≡ ok tt
unfolding generate_test_cases
generate_test_cases_returns viewer render timestamp files =
    let (seeds, built, plains, distinct, returns) = test_cases_built in
    ap (λ t. (run_table viewer render timestamp false files t).0) built
    ∙ (generate_seeds-result viewer render timestamp seeds files ∙ returns)

-- The script without `-recreate`, run on two empty directories, leaves for each variant of each
-- entry of `TEST_CASES` the file of that variant with its own content: in the byte directory the
-- joined bytes of its commands, and in the other one the text of its messages if it has one.
pub generate_test_cases_fresh :
    (viewer : Viewer) (render : List Message → Bytes) (timestamp : Text)
    (seeds : List (Text × SeedDefinition)) (name : Text) (i : ℕ) (definition : SeedDefinition)
    (sequence : List Command)
    → test_cases ≡ ok seeds
    → definition_of name seeds ≡ some definition
    → variant_at (normalize_variants definition) i ≡ some sequence
    → let files = (generate_test_cases viewer render timestamp false no_files).1 in
      (seed_of files.bytes name i, seed_of files.protos name i) ≡ seeds_of render sequence
unfolding generate_test_cases
generate_test_cases_fresh viewer render timestamp seeds name i definition sequence built defined
      at_i =
    let (table, table_built, plains, distinct, returns) = test_cases_built in
    let e : table ≡ seeds = ok-injective (sym table_built ∙ built) in
    rw built (
      generate_seeds_fresh viewer render timestamp seeds name i definition sequence (rw e at plains)
        (rw e at distinct)
        (generate_seeds-result viewer render timestamp seeds no_files ∙ rw e at returns) defined
        at_i)
