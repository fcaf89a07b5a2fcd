-- ===== src/Seeds/Generation/Fresh.antt =====
-- What `_generate_seeds` without `force` leaves in two directories that were empty.
use tpm_fuzzer.Prelude.{
  ℕ, ◌≡◌, ◌∙◌, refl, false, Bool-cases, inl, inr, List, [], ◌∷◌, Option, none, some, if◌then◌else◌,
  ok, All,
}
use tpm_fuzzer.Bytes.{Bytes}
use tpm_fuzzer.Proto.{Message}
use tpm_fuzzer.Commands.Instance.{Command}
use tpm_fuzzer.Seeds.Directory.{Text, text_eq, first_with_prefix}
use tpm_fuzzer.Seeds.Directory.Lookup.{text_eq-eq}
use tpm_fuzzer.Seeds.Variants.{Viewer}
use tpm_fuzzer.Seeds.Generation.{SeedDefinition, normalize_variants, SeedFiles, generate_seeds}
use tpm_fuzzer.Seeds.Generation.Naming.{IsPlain}
use tpm_fuzzer.Seeds.Generation.Shelf.{seed_of}
use tpm_fuzzer.Seeds.Generation.Refinement.{
  Shelves, shelve_seeds, PlainNames, generate_seeds-Represents,
}
use tpm_fuzzer.Seeds.Generation.Spots.{variant_at, spot, seeds_of, FreeFrom, found_other, found_own}

-- `TEST_CASES[name]`
unfoldable pub definition_of : Text → List (Text × SeedDefinition) → Option SeedDefinition
definition_of name [] = none
definition_of name ((cmd, definition) ∷ more) =
    if text_eq name cmd then some definition else definition_of name more

-- The keys of a dictionary are different.
unfoldable pub DistinctNames : List (Text × SeedDefinition) → Type 0
DistinctNames [] = Unit {0}
DistinctNames ((cmd, definition) ∷ more) = (definition_of cmd more ≡ none) × DistinctNames more

module _ (render : List Message → Bytes) where
  -- A name that is no key gets no seed.
  seeds_other :
      (name : Text) (i : ℕ) (seeds : List (Text × SeedDefinition)) (shelves : Shelves)
      → definition_of name seeds ≡ none
      → spot (shelve_seeds render seeds shelves) name i ≡ spot shelves name i
  unfolding shelve_seeds definition_of
  seeds_other name i [] shelves h = refl
  seeds_other name i ((cmd, definition) ∷ more) shelves h = elim (Bool-cases (text_eq name cmd)) [
    | inl same ↦ cc (rw same at h)
    | inr other ↦
        seeds_other name i more _ (rw other at h)
        ∙ found_other render cmd name i (normalize_variants definition) shelves other
  ]

  seeds_own :
      (name : Text) (i : ℕ) (seeds : List (Text × SeedDefinition)) (shelves : Shelves)
      (definition : SeedDefinition) (sequence : List Command)
      → DistinctNames seeds
      → FreeFrom shelves name 0
      → definition_of name seeds ≡ some definition
      → variant_at (normalize_variants definition) i ≡ some sequence
      → spot (shelve_seeds render seeds shelves) name i ≡ seeds_of render sequence
  unfolding shelve_seeds definition_of DistinctNames
  seeds_own name i [] shelves definition sequence distinct free h at_i = cc
  seeds_own name i ((cmd, first) ∷ more) shelves definition sequence (absent, distinct) free h
        at_i =
      elim (Bool-cases (text_eq name cmd)) [
        | inl same ↦
            let e : first ≡ definition = cc (rw same at h) in
            let n : name ≡ cmd = text_eq-eq name cmd same in
            seeds_other name i more _ (rw n absent)
            ∙ rw n (
                found_own render cmd i (normalize_variants first) shelves sequence (rw n at free)
                  (rw e at_i))
        | inr other ↦
            seeds_own name i more _ definition sequence distinct
              (λ j le.
                found_other render cmd name j (normalize_variants first) shelves other ∙ free j le)
              (rw other at h) at_i
      ]

key-IsPlain :
    (name : Text) (seeds : List (Text × SeedDefinition)) (definition : SeedDefinition)
    → PlainNames seeds
    → definition_of name seeds ≡ some definition
    → All IsPlain name
unfolding definition_of
key-IsPlain name [] definition plain h = cc
key-IsPlain name ((cmd, first) ∷ more) definition (plain, plains) h =
    elim (Bool-cases (text_eq name cmd)) [
      | inl same ↦ rw (text_eq-eq name cmd same) plain
      | inr other ↦ key-IsPlain name more definition plains (rw other at h)
    ]

abbrev pub no_files : SeedFiles
no_files = record { bytes = []; protos = [] }

-- A run without `force` that returned on two empty directories leaves, for each variant of each
-- definition, the file of that variant with its own content: in the byte directory the joined
-- bytes of its commands, and in the other one the text of its messages if it has one. The names of
-- the definitions are different and have no dash.
pub generate_seeds_fresh :
    (viewer : Viewer) (render : List Message → Bytes) (timestamp : Text)
    (seeds : List (Text × SeedDefinition)) (name : Text) (i : ℕ) (definition : SeedDefinition)
    (sequence : List Command)
    → PlainNames seeds
    → DistinctNames seeds
    → (generate_seeds viewer render timestamp false seeds no_files).0 ≡ ok tt
    → definition_of name seeds ≡ some definition
    → variant_at (normalize_variants definition) i ≡ some sequence
    → let files = (generate_seeds viewer render timestamp false seeds no_files).1 in
      (seed_of files.bytes name i, seed_of files.protos name i) ≡ seeds_of render sequence
unfolding seed_of first_with_prefix
generate_seeds_fresh viewer render timestamp seeds name i definition sequence plain distinct h
      defined at_i =
    let plain' = key-IsPlain name seeds definition plain defined in
    let r =
      generate_seeds-Represents viewer render timestamp seeds no_files
        (record { bytes = λ cmd j. none; protos = λ cmd j. none }) plain
        (record { byte_seeds = λ cmd p j. refl; proto_seeds = λ cmd p j. refl }) h in
    rw (r.byte_seeds name plain' i, r.proto_seeds name plain' i)
      (seeds_own render name i seeds _ definition sequence distinct (λ j le. refl) defined at_i)
