-- ===== src/Examples/Repeating.antt =====
-- Two seed definitions, generated once and twice.
use tpm_fuzzer.Prelude.{ℕ, ◌≡◌, refl, arith, List, [], ◌∷◌, false, true, none, length, ok}
use tpm_fuzzer.Bytes.{Bytes, to_bytes, big_endian, join}
use tpm_fuzzer.Proto.{Message}
use tpm_fuzzer.Command.{command_size, command_bytes}
use tpm_fuzzer.Commands.{to_proto}
use tpm_fuzzer.Commands.Hierarchy.{clear_to_proto}
use tpm_fuzzer.Commands.Instance.{Command, base_of}
use tpm_fuzzer.Seeds.{bytes_of, serialize_sequence, proto_commands, serialize_proto_sequence}
use tpm_fuzzer.Seeds.Directory.{Text, starts_with, first_with_prefix, write_file, text_eq}
use tpm_fuzzer.Seeds.Variants.{Viewer, variant_prefix, variant_path, update_seed, create_variant}
use tpm_fuzzer.Seeds.Generation.{
  SeedDefinition, normalize_variants, variant_name, SeedFiles, put_proto, put_both, run_variant,
  run_variants, run_normalized, run_commands, generate_seeds,
}
use tpm_fuzzer.Seeds.Generation.Whole.{generate_seeds_twice}
use tpm_fuzzer.Seeds.Generation.Returns.{variants_result, definitions_result, generate_seeds-result}
use tpm_fuzzer.Seeds.Generation.Spots.{seeds_of}
use tpm_fuzzer.Seeds.Generation.Fresh.{definition_of, DistinctNames, generate_seeds_fresh}
use tpm_fuzzer.Prelude.{raise, overflow_error, get_elem?}
use tpm_fuzzer.Seeds.Generation.Naming.{variant_path-prefix}
use tpm_fuzzer.Seeds.Generation.Shelf.{seed_of}
use tpm_fuzzer.Seeds.Generation.Refinement.{
  Shelves, Represents, shelve_seeds, generate_seeds-Represents,
}

abbrev viewer : Viewer
viewer = record { request_section = λ c. ok c; decode = λ c. ok c }

-- The number of the messages, for their text.
abbrev render : List Message → Bytes
render messages = length messages ∷ []

abbrev clock : Command
clock = Command.plain (record { tag = 0x8001; cc = 0x181; params = [] })

abbrev cleared : Command
cleared =
    Command.clear (record { tag = 0x8002; cc = 0x126; params = 64 ∷ 0 ∷ 0 ∷ 12 ∷ [] }) 0x4000000C
      0x40000009

abbrev two_variants : SeedDefinition
two_variants = SeedDefinition.variants ((clock ∷ []) ∷ (cleared ∷ cleared ∷ []) ∷ [])

abbrev definitions : List (Text × SeedDefinition)
definitions = (b'c' ∷ [], two_variants) ∷ (b'd' ∷ [], SeedDefinition.command clock) ∷ []

abbrev no_files : SeedFiles
no_files = record { bytes = []; protos = [] }

first_run : (generate_seeds viewer render (b'1' ∷ []) false definitions no_files).0 ≡ ok tt
unfolding generate_seeds run_commands run_normalized normalize_variants run_variants run_variant
    put_both put_proto create_variant first_with_prefix starts_with write_file text_eq update_seed
    variant_name serialize_sequence bytes_of base_of command_bytes command_size to_bytes big_endian
    join proto_commands serialize_proto_sequence to_proto clear_to_proto
first_run = refl

generate_seeds_twice_example :
    generate_seeds viewer render
      (b'2' ∷ [])
      false
      definitions
      (generate_seeds viewer render (b'1' ∷ []) false definitions no_files).1
    ≡ (ok tt, (generate_seeds viewer render (b'1' ∷ []) false definitions no_files).1)
generate_seeds_twice_example =
    generate_seeds_twice viewer viewer render (b'1' ∷ []) (b'2' ∷ []) definitions no_files first_run

abbrev no_shelves : Shelves
no_shelves = record { bytes = λ cmd i. none; protos = λ cmd i. none }

generate_seeds-Represents_example :
    Represents
      (generate_seeds viewer render (b'1' ∷ []) false definitions no_files).1
      (shelve_seeds render definitions no_shelves)
unfolding seed_of first_with_prefix
generate_seeds-Represents_example =
    generate_seeds-Represents viewer render (b'1' ∷ []) definitions no_files no_shelves
      (((λ e. omega arith), tt), (((λ e. omega arith), tt), tt))
      (record { byte_seeds = λ cmd plain i. refl; proto_seeds = λ cmd plain i. refl }) first_run

same_prefix :
    starts_with
      (variant_path (variant_name (b'c' ∷ []) 12) (b'2' ∷ []))
      (variant_prefix (variant_name (b'c' ∷ []) 12))
    ≡ true
unfolding starts_with variant_name
same_prefix = refl

variant_path-prefix_example : (◌≡◌ {A = Text} (b'c' ∷ []) (b'c' ∷ [])) × (◌≡◌ {A = ℕ} 12 12)
variant_path-prefix_example =
    variant_path-prefix (b'c' ∷ []) (b'c' ∷ []) 12 12 (b'2' ∷ []) ((λ e. omega arith), tt)
      ((λ e. omega arith), tt) same_prefix

-- The second variant of the first definition, from empty directories.
generate_seeds_fresh_example :
    let files = (generate_seeds viewer render (b'1' ∷ []) false definitions no_files).1 in
    (seed_of files.bytes (b'c' ∷ []) 1, seed_of files.protos (b'c' ∷ []) 1)
    ≡ seeds_of render (cleared ∷ cleared ∷ [])
unfolding definition_of DistinctNames text_eq normalize_variants get_elem?
generate_seeds_fresh_example =
    generate_seeds_fresh viewer render (b'1' ∷ []) definitions (b'c' ∷ []) 1 two_variants
      (cleared ∷ cleared ∷ []) (((λ e. omega arith), tt), (((λ e. omega arith), tt), tt))
      (refl, (refl, tt)) first_run refl refl

-- A command whose tag has three bytes does not serialize.
abbrev too_wide : Command
too_wide = Command.plain (record { tag = 0x10000; cc = 0x181; params = [] })

generate_seeds-result_example :
    (generate_seeds viewer render
      (b'1' ∷ [])
      false
      ((b'd' ∷ [], SeedDefinition.command clock)
        ∷ (b'c' ∷ [], SeedDefinition.command too_wide)
        ∷ [])
      no_files).0
    ≡ raise overflow_error
unfolding definitions_result normalize_variants variants_result serialize_sequence bytes_of base_of
    command_bytes command_size to_bytes big_endian join proto_commands to_proto
generate_seeds-result_example =
    generate_seeds-result viewer render (b'1' ∷ [])
      ((b'd' ∷ [], SeedDefinition.command clock)
        ∷ (b'c' ∷ [], SeedDefinition.command too_wide)
        ∷ [])
      no_files
