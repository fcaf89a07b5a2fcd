-- ===== src/Examples/Table.antt =====
-- The script on two empty directories, and on others.
use tpm_fuzzer.Prelude.{
  ◌≡◌, refl, sym, ap, List, [], ◌∷◌, false, length, drop, get_elem?, codes, some, Result, ok,
  >>=-eq-ok,
}
use tpm_fuzzer.Bytes.{Bytes, to_bytes, big_endian}
use tpm_fuzzer.Proto.{Message}
use tpm_fuzzer.Commands.Instance.{Command}
use tpm_fuzzer.Commands.Simple.{get_random}
use tpm_fuzzer.Seeds.Directory.{Text}
use tpm_fuzzer.Seeds.Directory.Lookup.{text_eq_refl}
use tpm_fuzzer.Seeds.Variants.{Viewer}
use tpm_fuzzer.Seeds.Generation.{SeedVariants, SeedDefinition, SeedFiles, normalize_variants}
use tpm_fuzzer.Seeds.Generation.Shelf.{seed_of}
use tpm_fuzzer.Seeds.Generation.Spots.{seeds_of}
use tpm_fuzzer.Seeds.Generation.Fresh.{definition_of, no_files}
use tpm_fuzzer.Seeds.Table.{function_entry, test_entries, test_cases, generate_test_cases}
use tpm_fuzzer.Seeds.Table.Build.{all_of}
use tpm_fuzzer.Seeds.Table.Plain.{tpm_get_rand_seeds}
use tpm_fuzzer.Seeds.Table.Complete.{
  test_cases_built, generate_test_cases_returns, generate_test_cases_fresh,
}

abbrev viewer : Viewer
viewer = record { request_section = λ c. ok c; decode = λ c. ok c }

abbrev render : List Message → Bytes
render messages = length messages ∷ []

abbrev other_files : SeedFiles
other_files = record {
  bytes = (codes "TPMGetRandom-variant0-202601010000", 1 ∷ 2 ∷ []) ∷ [];
  protos = [];
}

generate_test_cases_returns_example :
    (generate_test_cases viewer render (codes "202602020000") false other_files).0 ≡ ok tt
generate_test_cases_returns_example =
    generate_test_cases_returns viewer render (codes "202602020000") other_files

first_definition :
    (name : Text) (made : Result SeedVariants) (rest : List (Result (Text × SeedDefinition)))
    (seeds : List (Text × SeedDefinition))
    → all_of (function_entry name made ∷ rest) ≡ ok seeds
    → definition_of name seeds ≡ some (SeedDefinition.callable made)
unfolding function_entry definition_of
first_definition name made rest [] h = let (more, made_more, e) = >>=-eq-ok (all_of rest) _ h in cc
first_definition name made rest ((cmd, definition) ∷ seeds) h =
    let (more, made_more, e) = >>=-eq-ok (all_of rest) _ h in
    let n : name ≡ cmd = cc in
    let d : SeedDefinition.callable made ≡ definition = cc in
    rw (sym n, text_eq_refl name) (ap (λ t. some t) (sym d))

-- `TPMGetRandom(32)`
abbrev asks_32 : List Command
asks_32 = Command.get_random (record { tag = 0x8001; cc = 0x17B; params = 0 ∷ 32 ∷ [] }) ∷ []

generate_test_cases_fresh_example :
    let files = (generate_test_cases viewer render (codes "1") false no_files).1 in
    (seed_of files.bytes (codes "TPMGetRandom") 1, seed_of files.protos (codes "TPMGetRandom") 1)
    ≡ seeds_of render asks_32
unfolding test_cases normalize_variants tpm_get_rand_seeds get_random to_bytes big_endian get_elem?
    drop
generate_test_cases_fresh_example =
    generate_test_cases_fresh viewer render (codes "1") test_cases_built.0 (codes "TPMGetRandom") 1
      (SeedDefinition.callable tpm_get_rand_seeds) asks_32 test_cases_built.1
      (first_definition (codes "TPMGetRandom") tpm_get_rand_seeds (drop 1 test_entries)
        test_cases_built.0 test_cases_built.1)
      refl
