-- ===== src/Seeds/Generation/Refinement.antt =====
-- `_generate_seeds` without `force`, as an operation on shelves.
use tpm_fuzzer.Prelude.{
  ℕ, suc, ◌≡◌, ◌∙◌, refl, sym, ap, Bool, true, false, List, [], ◌∷◌, Option, none, some, Result, ok,
  raise, All,
}
use tpm_fuzzer.Bytes.{Bytes}
use tpm_fuzzer.Proto.{Message}
use tpm_fuzzer.Commands.Instance.{Command}
use tpm_fuzzer.Seeds.Directory.{Text}
use tpm_fuzzer.Seeds.Variants.{Viewer, create_variant}
use tpm_fuzzer.Seeds.{serialize_sequence, serialize_proto_sequence}
use tpm_fuzzer.Seeds.Generation.{
  SeedVariants, SeedDefinition, normalize_variants, variant_name, SeedFiles, store_bytes, put_proto,
  put_both, run_variant, run_variants, run_normalized, run_commands, generate_seeds,
}
use tpm_fuzzer.Seeds.Generation.Naming.{IsPlain}
use tpm_fuzzer.Seeds.Generation.Repeated.{followed_by-ok}
use tpm_fuzzer.Seeds.Generation.Shelf.{Shelf, seed_of, put_absent, seed_of-create_variant}

-- The shelves that the two directories stand for.
pub record Shelves : Type 0 where
  pub bytes : Shelf
  pub protos : Shelf

-- A serialization that raised puts nothing.
unfoldable pub shelve : Text → ℕ → Result Bytes → Shelf → Shelf
shelve cmd i (raise e) shelf = shelf
shelve cmd i (ok content) shelf = put_absent cmd i content shelf

unfoldable pub shelve_proto : Text → ℕ → Result (Option Bytes) → Shelf → Shelf
shelve_proto cmd i (raise e) shelf = shelf
shelve_proto cmd i (ok none) shelf = shelf
shelve_proto cmd i (ok (some content)) shelf = put_absent cmd i content shelf

-- Two shelves that agree under the command names with no dash.
abbrev pub Agrees : Shelf → Shelf → Type 0
Agrees a b = (cmd : Text) → All IsPlain cmd → (i : ℕ) → a cmd i ≡ b cmd i

-- The directories stand for the shelves.
pub record Represents (files : SeedFiles) (shelves : Shelves) : Type 0 where
  pub byte_seeds : Agrees (seed_of files.bytes) shelves.bytes
  pub proto_seeds : Agrees (seed_of files.protos) shelves.protos

put_absent-Agrees :
    (cmd : Text) (i : ℕ) (content : Bytes) (a b : Shelf)
    → Agrees a b
    → Agrees (put_absent cmd i content a) (put_absent cmd i content b)
unfolding put_absent
put_absent-Agrees cmd i content a b h other plain j = rw (h other plain j) refl

-- What `_generate_seeds` promises: the seeds of every definition, one after the other.
module _ (render : List Message → Bytes) where
  unfoldable pub shelve_sequence : Text → ℕ → List Command → Shelves → Shelves
  unfolding shelve shelve_proto
  shelve_sequence cmd i sequence shelves = record {
    bytes = shelve cmd i (serialize_sequence sequence) shelves.bytes;
    protos = shelve_proto cmd i (serialize_proto_sequence render sequence) shelves.protos;
  }

  unfoldable pub shelve_variants : Text → ℕ → SeedVariants → Shelves → Shelves
  shelve_variants cmd i [] shelves = shelves
  shelve_variants cmd i (sequence ∷ more) shelves =
      shelve_variants cmd (suc i) more (shelve_sequence cmd i sequence shelves)

  unfoldable pub shelve_found : Text → Result SeedVariants → Shelves → Shelves
  shelve_found cmd (raise e) shelves = shelves
  shelve_found cmd (ok sequences) shelves = shelve_variants cmd 0 sequences shelves

  unfoldable pub shelve_seeds : List (Text × SeedDefinition) → Shelves → Shelves
  unfolding shelve_found
  shelve_seeds [] shelves = shelves
  shelve_seeds ((cmd, definition) ∷ more) shelves =
      shelve_seeds more (shelve_found cmd (normalize_variants definition) shelves)

-- Each name of the table has no dash.
abbrev pub PlainNames : List (Text × SeedDefinition) → Type 0
PlainNames seeds = All (λ entry. All IsPlain entry.0) seeds

module _ (viewer : Viewer) (render : List Message → Bytes) (timestamp : Text) where
  made_Agrees :
      (cmd : Text) (i : ℕ) (content : Bytes) (proto : Bool) (files : List (Text × Bytes))
      (shelf : Shelf)
      → All IsPlain cmd
      → Agrees (seed_of files) shelf
      → Agrees
          (seed_of
            (create_variant viewer (variant_name cmd i) timestamp content false proto files).1)
          (put_absent cmd i content shelf)
  made_Agrees cmd i content proto files shelf plain h other plain' j =
      seed_of-create_variant viewer cmd other i j timestamp content proto files plain plain'
      ∙ put_absent-Agrees cmd i content (seed_of files) shelf h other plain' j

  proto_put :
      (cmd : Text) (i : ℕ) (proto : Option Bytes) (files : SeedFiles) (shelves : Shelves)
      → All IsPlain cmd
      → Represents files shelves
      → Represents
          (put_proto viewer render timestamp false (variant_name cmd i) (ok proto) files).1
          (record { bytes = shelves.bytes; protos = shelve_proto cmd i (ok proto) shelves.protos })
  unfolding put_proto shelve_proto
  proto_put cmd i none files shelves plain h = record {
    byte_seeds = h.byte_seeds;
    proto_seeds = h.proto_seeds;
  }
  proto_put cmd i (some content) files shelves plain h = record {
    byte_seeds = h.byte_seeds;
    proto_seeds = made_Agrees cmd i content true files.protos shelves.protos plain h.proto_seeds;
  }

  both_put :
      (cmd : Text) (i : ℕ) (bytes : Result Bytes) (proto : Result (Option Bytes))
      (files : SeedFiles) (shelves : Shelves)
      → All IsPlain cmd
      → Represents files shelves
      → (put_both viewer render timestamp false (variant_name cmd i) bytes proto files).0 ≡ ok tt
      → Represents
          (put_both viewer render timestamp false (variant_name cmd i) bytes proto files).1
          (record {
            bytes = shelve cmd i bytes shelves.bytes;
            protos = shelve_proto cmd i proto shelves.protos;
          })
  unfolding put_both put_proto shelve
  both_put cmd i (raise e) proto files shelves plain r h = cc
  both_put cmd i (ok content) (raise e) files shelves plain r h =
      let (back, next) =
        followed_by-ok
          (store_bytes viewer render timestamp false (variant_name cmd i) content files)
          (put_proto viewer render timestamp false (variant_name cmd i) (raise e)) h in
      let refused : raise e ≡ ok tt = sym (ap (λ o. o.0) next) ∙ h in cc
  both_put cmd i (ok content) (ok proto) files shelves plain r h =
      let name = variant_name cmd i in
      let (back, next) =
        followed_by-ok (store_bytes viewer render timestamp false name content files)
          (put_proto viewer render timestamp false name (ok proto)) h in
      rw next (
        proto_put cmd i proto (store_bytes viewer render timestamp false name content files).1
          (record { bytes = put_absent cmd i content shelves.bytes; protos = shelves.protos }) plain
          (record {
            byte_seeds =
                made_Agrees cmd i content false files.bytes shelves.bytes plain r.byte_seeds;
            proto_seeds = r.proto_seeds;
          }))

  variants_put :
      (cmd : Text) (i : ℕ) (sequences : SeedVariants) (files : SeedFiles) (shelves : Shelves)
      → All IsPlain cmd
      → Represents files shelves
      → (run_variants viewer render timestamp false cmd i sequences files).0 ≡ ok tt
      → Represents
          (run_variants viewer render timestamp false cmd i sequences files).1
          (shelve_variants render cmd i sequences shelves)
  unfolding run_variants run_variant shelve_variants shelve_sequence
  variants_put cmd i [] files shelves plain r h = r
  variants_put cmd i (sequence ∷ more) files shelves plain r h =
      let (back, next) =
        followed_by-ok
          (run_variant viewer render timestamp false (variant_name cmd i) sequence files)
          (run_variants viewer render timestamp false cmd (suc i) more) h in
      rw next (
        variants_put cmd (suc i) more _ (shelve_sequence render cmd i sequence shelves) plain
          (both_put cmd i (serialize_sequence sequence) (serialize_proto_sequence render sequence)
            files shelves plain r back)
          (sym (ap (λ o. o.0) next) ∙ h))

  found_put :
      (cmd : Text) (found : Result SeedVariants) (files : SeedFiles) (shelves : Shelves)
      → All IsPlain cmd
      → Represents files shelves
      → (run_normalized viewer render timestamp false cmd found files).0 ≡ ok tt
      → Represents
          (run_normalized viewer render timestamp false cmd found files).1
          (shelve_found render cmd found shelves)
  unfolding run_normalized shelve_found
  found_put cmd (raise e) files shelves plain r h = cc
  found_put cmd (ok sequences) files shelves plain r h =
      variants_put cmd 0 sequences files shelves plain r h

  -- Where the directories stand for some shelves and no command name has a dash, `_generate_seeds`
  -- without `force` that returned leaves directories that stand for those shelves with the seed of
  -- every variant put where none was: its joined bytes, and its message text if it has one.
  pub generate_seeds-Represents :
      (seeds : List (Text × SeedDefinition)) (files : SeedFiles) (shelves : Shelves)
      → PlainNames seeds
      → Represents files shelves
      → (generate_seeds viewer render timestamp false seeds files).0 ≡ ok tt
      → Represents
          (generate_seeds viewer render timestamp false seeds files).1
          (shelve_seeds render seeds shelves)
  unfolding generate_seeds run_commands shelve_seeds
  generate_seeds-Represents [] files shelves plain r h = r
  generate_seeds-Represents ((cmd, definition) ∷ more) files shelves (plain, plains) r h =
      let (back, next) =
        followed_by-ok (run_commands viewer render timestamp false cmd definition files)
          (generate_seeds viewer render timestamp false more) h in
      rw next (
        generate_seeds-Represents more _
          (shelve_found render cmd (normalize_variants definition) shelves) plains
          (found_put cmd (normalize_variants definition) files shelves plain r back)
          (sym (ap (λ o. o.0) next) ∙ h))
