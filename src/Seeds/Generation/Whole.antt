-- ===== src/Seeds/Generation/Whole.antt =====
-- `_run_commands` and `_generate_seeds` without `force`, run twice.
use tpm_fuzzer.Prelude.{ℕ, suc, ◌≡◌, refl, sym, ap, ◌∙◌, List, [], ◌∷◌, false, Result, ok, raise}
use tpm_fuzzer.Bytes.{Bytes}
use tpm_fuzzer.Proto.{Message}
use tpm_fuzzer.Seeds.Directory.{Text}
use tpm_fuzzer.Seeds.Variants.{Viewer}
use tpm_fuzzer.Seeds.Generation.{
  SeedVariants, SeedDefinition, normalize_variants, variant_name, SeedFiles, run_normalized,
  run_commands, generate_seeds,
}
use tpm_fuzzer.Seeds.Generation.Present.{Keeps, Keeps-trans, Seeded-Keeps, AllSeeded}
use tpm_fuzzer.Seeds.Generation.Repeated.{followed_by-ok, rounds_again, rounds_store}

AllSeeded-Keeps :
    (render : List Message → Bytes) (cmd : Text) (i : ℕ) (sequences : SeedVariants)
    (files later : SeedFiles)
    → Keeps files later
    → AllSeeded render cmd i sequences files
    → AllSeeded render cmd i sequences later
unfolding AllSeeded
AllSeeded-Keeps render cmd i [] files later k h = tt
AllSeeded-Keeps render cmd i (sequence ∷ more) files later k (h, hs) = (
  Seeded-Keeps render (variant_name cmd i) sequence files later k h,
  AllSeeded-Keeps render cmd (suc i) more files later k hs,
)

-- The seeds of the variants that a definition gives are there; one that raises gives none.
FoundSeeded : (List Message → Bytes) → Text → Result SeedVariants → SeedFiles → Type 0
FoundSeeded render cmd (raise e) files = ⊥
FoundSeeded render cmd (ok sequences) files = AllSeeded render cmd 0 sequences files

FoundSeeded-Keeps :
    (render : List Message → Bytes) (cmd : Text) (found : Result SeedVariants)
    (files later : SeedFiles)
    → Keeps files later
    → FoundSeeded render cmd found files
    → FoundSeeded render cmd found later
unfolding FoundSeeded
FoundSeeded-Keeps render cmd (raise e) files later k h = h
FoundSeeded-Keeps render cmd (ok sequences) files later k h =
    AllSeeded-Keeps render cmd 0 sequences files later k h

EverySeeded : (List Message → Bytes) → List (Text × SeedDefinition) → SeedFiles → Type 0
EverySeeded render [] files = Unit {0}
EverySeeded render ((cmd, definition) ∷ more) files =
    FoundSeeded render cmd (normalize_variants definition) files × EverySeeded render more files

module _ (viewer : Viewer) (render : List Message → Bytes) (timestamp : Text) where
  found_again :
      (cmd : Text) (found : Result SeedVariants) (files : SeedFiles)
      → FoundSeeded render cmd found files
      → run_normalized viewer render timestamp false cmd found files ≡ (ok tt, files)
  unfolding run_normalized FoundSeeded
  found_again cmd (raise e) files h = absurd h
  found_again cmd (ok sequences) files h =
      rounds_again viewer render timestamp cmd 0 sequences files h

  found_stores :
      (cmd : Text) (found : Result SeedVariants) (files : SeedFiles)
      → (run_normalized viewer render timestamp false cmd found files).0 ≡ ok tt
      → FoundSeeded render cmd found
          (run_normalized viewer render timestamp false cmd found files).1
        × Keeps files (run_normalized viewer render timestamp false cmd found files).1
  unfolding run_normalized FoundSeeded
  found_stores cmd (raise e) files h = cc
  found_stores cmd (ok sequences) files h =
      rounds_store viewer render timestamp cmd 0 sequences files h

  every_again :
      (seeds : List (Text × SeedDefinition)) (files : SeedFiles)
      → EverySeeded render seeds files
      → generate_seeds viewer render timestamp false seeds files ≡ (ok tt, files)
  unfolding generate_seeds EverySeeded run_commands
  every_again [] files h = refl
  every_again ((cmd, definition) ∷ more) files (h, hs) =
      rw (found_again cmd (normalize_variants definition) files h) (every_again more files hs)

  every_stores :
      (seeds : List (Text × SeedDefinition)) (files : SeedFiles)
      → (generate_seeds viewer render timestamp false seeds files).0 ≡ ok tt
      → EverySeeded render seeds (generate_seeds viewer render timestamp false seeds files).1
        × Keeps files (generate_seeds viewer render timestamp false seeds files).1
  unfolding generate_seeds EverySeeded run_commands
  every_stores [] files h = (tt, record { in_bytes = λ prefix h. h; in_protos = λ prefix h. h })
  every_stores ((cmd, definition) ∷ more) files h =
      let (r, next) =
        followed_by-ok
          (run_normalized viewer render timestamp false cmd (normalize_variants definition) files)
          (generate_seeds viewer render timestamp false more) h in
      let (seed, kept) = found_stores cmd (normalize_variants definition) files r in
      let (seeds, all_kept) = every_stores more _ (sym (ap (λ o. o.0) next) ∙ h) in
      rw next (
        (FoundSeeded-Keeps render cmd (normalize_variants definition) _ _ all_kept seed, seeds),
        Keeps-trans _ _ _ kept all_kept,
      )

-- Where `_generate_seeds` returned without `force`, a second run over the same definitions, with
-- whatever test script and at whatever time, returns too and leaves both directories as the first
-- left them.
pub generate_seeds_twice :
    (viewer next_viewer : Viewer) (render : List Message → Bytes) (timestamp later : Text)
    (seeds : List (Text × SeedDefinition)) (files : SeedFiles)
    → (generate_seeds viewer render timestamp false seeds files).0 ≡ ok tt
    → generate_seeds next_viewer render later false seeds
        (generate_seeds viewer render timestamp false seeds files).1
      ≡ (ok tt, (generate_seeds viewer render timestamp false seeds files).1)
generate_seeds_twice viewer next_viewer render timestamp later seeds files h =
    let (stored, kept) = every_stores viewer render timestamp seeds files h in
    every_again next_viewer render later seeds _ stored
