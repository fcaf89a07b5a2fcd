-- ===== src/Seeds/Table/Entries.antt =====
-- When the display of `TEST_CASES` is evaluated and all its sequences serialize, from its entries.
use tpm_fuzzer.Prelude.{
  ◌≡◌, ◌∙◌, refl, ap, arith, Bool, true, false, Bool-cases, inl, inr, List, [], ◌∷◌, ◌==◌,
  if◌then◌else◌, Result, ok, raise, ◌>>=◌, All, map,
}
use tpm_fuzzer.Commands.Instance.{Command}
use tpm_fuzzer.Seeds.Directory.{Text}
use tpm_fuzzer.Seeds.Generation.{SeedVariants, SeedDefinition, normalize_variants}
use tpm_fuzzer.Seeds.Generation.Naming.{IsPlain}
use tpm_fuzzer.Seeds.Generation.Refinement.{PlainNames}
use tpm_fuzzer.Seeds.Generation.Returns.{variants_result, definitions_result}
use tpm_fuzzer.Seeds.Table.{single_entry, list_entry, function_entry}
use tpm_fuzzer.Seeds.Table.Build.{all_of}
use tpm_fuzzer.Seeds.Table.Returns.{seeds_result}

-- Each character is no dash.
unfoldable pub plain_text : Text → Bool
plain_text [] = true
plain_text (c ∷ cs) = if c == b'-' then false else plain_text cs

plain_text-IsPlain : (name : Text) → plain_text name ≡ true → All IsPlain name
unfolding plain_text
plain_text-IsPlain [] h = tt
plain_text-IsPlain (c ∷ cs) h = elim (Bool-cases (c == b'-')) [
  | inl dash ↦ cc (rw dash at h)
  | inr other ↦ ((λ e. ground (arith, e, other)), plain_text-IsPlain cs (rw other at h))
]

-- An entry that is built, under a name with no dash, and whose sequences serialize.
pub Good : Result (Text × SeedDefinition) → Text → Type 0
Good entry name =
    (definition : SeedDefinition) × (entry ≡ ok (name, definition))
    × (plain_text name ≡ true)
    × (normalize_variants definition >>= variants_result ≡ ok tt)

unfoldable pub AllGood : List (Result (Text × SeedDefinition)) → List Text → Type 0
AllGood [] names = names ≡ []
AllGood (entry ∷ entries) [] = ⊥
AllGood (entry ∷ entries) (name ∷ names) = Good entry name × AllGood entries names

bind_tt :
    {A : Type 0} (m : Result A) (f : A → Result (Unit {0})) (rest : Result (Unit {0}))
    → m >>= f ≡ ok tt
    → m >>= (λ a. f a >>= λ u. rest) ≡ rest
bind_tt (ok a) f rest h = ap (λ r. r >>= λ u. rest) h
bind_tt (raise e) f rest h = cc

pub single_entry-Good :
    (name : Text) (built : Result Command)
    → plain_text name ≡ true
    → seeds_result (built >>= λ c. ok ((c ∷ []) ∷ [])) ≡ ok tt
    → Good (single_entry name built) name
unfolding single_entry Good seeds_result normalize_variants
single_entry-Good name (raise e) plain h = cc
single_entry-Good name (ok c) plain h = (SeedDefinition.command c, refl, plain, h)

pub list_entry-Good :
    (name : Text) (built : Result SeedVariants)
    → plain_text name ≡ true
    → seeds_result built ≡ ok tt
    → Good (list_entry name built) name
unfolding list_entry Good seeds_result normalize_variants
list_entry-Good name (raise e) plain h = cc
list_entry-Good name (ok sequences) plain h = (SeedDefinition.variants sequences, refl, plain, h)

pub function_entry-Good :
    (name : Text) (made : Result SeedVariants)
    → plain_text name ≡ true
    → seeds_result made ≡ ok tt
    → Good (function_entry name made) name
unfolding function_entry Good seeds_result normalize_variants
function_entry-Good name made plain h = (SeedDefinition.callable made, refl, plain, h)

pub all_of-Good :
    (entries : List (Result (Text × SeedDefinition))) (names : List Text)
    → AllGood entries names
    → (seeds : List (Text × SeedDefinition)) × (all_of entries ≡ ok seeds)
      × (map (λ entry. entry.0) seeds ≡ names)
      × PlainNames seeds
      × (definitions_result seeds ≡ ok tt)
unfolding AllGood Good definitions_result
all_of-Good [] names h = ([], refl, cc, tt, refl)
all_of-Good (entry ∷ entries) [] h = absurd h
all_of-Good (entry ∷ entries) (name ∷ names) ((definition, built, plain, returns), good) =
    let (seeds, all_built, keys, plains, rest) = all_of-Good entries names good in
    (
      (name, definition) ∷ seeds,
      rw (built, all_built) refl,
      ap (λ ns. name ∷ ns) keys,
      (plain_text-IsPlain name plain, plains),
      bind_tt (normalize_variants definition) variants_result (definitions_result seeds) returns
          ∙ rest,
    )
