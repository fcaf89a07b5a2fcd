-- ===== src/Seeds/Table/Distinct.antt =====
-- Different names, decided.
use tpm_fuzzer.Prelude.{
  ◌≡◌, refl, arith, Bool, true, false, Bool-cases, inl, inr, List, [], ◌∷◌, none, if◌then◌else◌,
  map, ◌&&◌,
}
use tpm_fuzzer.Seeds.Directory.{Text, text_eq}
use tpm_fuzzer.Seeds.Generation.{SeedDefinition}
use tpm_fuzzer.Seeds.Generation.Fresh.{definition_of, DistinctNames}

-- No name stands twice.
unfoldable pub absent_name : Text → List Text → Bool
absent_name name [] = true
absent_name name (other ∷ names) = if text_eq name other then false else absent_name name names

unfoldable pub distinct_names : List Text → Bool
distinct_names [] = true
distinct_names (name ∷ names) = absent_name name names && distinct_names names

absent_name-none :
    (name : Text) (seeds : List (Text × SeedDefinition))
    → absent_name name (map (λ entry. entry.0) seeds) ≡ true
    → definition_of name seeds ≡ none
unfolding absent_name definition_of
absent_name-none name [] h = refl
absent_name-none name ((cmd, definition) ∷ more) h = elim (Bool-cases (text_eq name cmd)) [
  | inl same ↦ cc (rw same at h)
  | inr other ↦ rw other (absent_name-none name more (rw other at h))
]

pub distinct_names-DistinctNames :
    (seeds : List (Text × SeedDefinition))
    → distinct_names (map (λ entry. entry.0) seeds) ≡ true
    → DistinctNames seeds
unfolding distinct_names DistinctNames
distinct_names-DistinctNames [] h = tt
distinct_names-DistinctNames ((cmd, definition) ∷ more) h =
    (absent_name-none cmd more (ground arith), distinct_names-DistinctNames more (ground arith))
