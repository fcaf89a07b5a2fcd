-- ===== src/Seeds/Generation/Returns.antt =====
-- When `_generate_seeds` without `force` returns: its definitions alone decide it.
use tpm_fuzzer.Prelude.{
  ℕ, suc, ◌≡◌, ◌∙◌, refl, ap, arith, List, [], ◌∷◌, Option, none, some, Option-cases, inl, inr,
  false, true, Bool, Result, ok, raise, ◌>>=◌,
}
use tpm_fuzzer.Bytes.{Bytes}
use tpm_fuzzer.Proto.{Message}
use tpm_fuzzer.Commands.Instance.{Command}
use tpm_fuzzer.Seeds.Directory.{Text, Directory, first_with_prefix}
use tpm_fuzzer.Seeds.Variants.{Viewer, variant_prefix, create_variant}
use tpm_fuzzer.Seeds.Variants.Outcomes.{first_seed, create_variant-keeps}
use tpm_fuzzer.Seeds.{serialize_sequence, proto_commands, serialize_proto_sequence}
use tpm_fuzzer.Seeds.Generation.{
  SeedVariants, SeedDefinition, Outcome, normalize_variants, variant_name, SeedFiles, followed_by,
  store_bytes, put_proto, put_both, run_variant, run_variants, run_normalized, run_commands,
  generate_seeds,
}

-- The first exception of the serializations of a sequence, of the variants of a command, and of
-- all definitions, in the order of the loops; no directory has a part in it.
unfoldable pub sequence_result : List Command → Result (Unit {0})
sequence_result sequence = do
  content ← serialize_sequence sequence
  proto ← proto_commands sequence
  ok tt

unfoldable pub variants_result : SeedVariants → Result (Unit {0})
unfolding sequence_result
variants_result [] = ok tt
variants_result (sequence ∷ more) = do u ← sequence_result sequence; variants_result more

unfoldable pub definitions_result : List (Text × SeedDefinition) → Result (Unit {0})
unfolding normalize_variants
definitions_result [] = ok tt
definitions_result ((cmd, definition) ∷ more) = do
  sequences ← normalize_variants definition
  u ← variants_result sequences
  definitions_result more

bind_assoc :
    {A B C : Type 0} (m : Result A) (f : A → Result B) (g : B → Result C)
    → m >>= f >>= g ≡ m >>= (λ a. f a >>= g)
bind_assoc (ok a) f g = refl
bind_assoc (raise e) f g = refl

followed_by-result :
    (first : Outcome) (next : SeedFiles → Outcome) (r rest : Result (Unit {0}))
    → first.0 ≡ r
    → ((files : SeedFiles) → (next files).0 ≡ rest)
    → (followed_by first next).0 ≡ r >>= (λ u. rest)
followed_by-result (ok u, files) next r rest h k = k files ∙ ap (λ s. s >>= (λ u. rest)) h
followed_by-result (raise e, files) next r rest h k = ap (λ s. s >>= (λ u. rest)) h

create_variant-returns :
    (viewer : Viewer) (name timestamp : Text) (content : Bytes) (proto : Bool) (files : Directory)
    → (create_variant viewer name timestamp content false proto files).0 ≡ ok tt
create_variant-returns viewer name timestamp content proto files =
    elim (Option-cases (first_with_prefix (variant_prefix name) files)) [
      | inl fresh ↦ rw (first_seed viewer name timestamp content false proto files fresh) refl
      | inr (found, e) ↦
          rw (create_variant-keeps viewer name timestamp content proto files (λ n. cc)) refl
    ]

-- The messages have a text if they can be made.
proto_result :
    (render : List Message → Bytes) (sequence : List Command)
    → ◌≡◌ {A = Result (Unit {0})}
        (serialize_proto_sequence render sequence >>= (λ p. ok tt))
        (proto_commands sequence >>= (λ p. ok tt))
unfolding serialize_proto_sequence
proto_result render sequence = ground arith

module _ (viewer : Viewer) (render : List Message → Bytes) (timestamp : Text) where
  put_proto-result :
      (name : Text) (proto : Result (Option Bytes)) (files : SeedFiles)
      → (put_proto viewer render timestamp false name proto files).0 ≡ proto >>= (λ p. ok tt)
  unfolding put_proto
  put_proto-result name (raise e) files = refl
  put_proto-result name (ok none) files = refl
  put_proto-result name (ok (some content)) files =
      create_variant-returns viewer name timestamp content true files.protos

  put_both-result :
      (name : Text) (bytes : Result Bytes) (proto : Result (Option Bytes)) (files : SeedFiles)
      → (put_both viewer render timestamp false name bytes proto files).0
        ≡ bytes >>= (λ content. proto >>= (λ p. ok tt))
  unfolding put_both
  put_both-result name (raise e) proto files = refl
  put_both-result name (ok content) proto files =
      followed_by-result (store_bytes viewer render timestamp false name content files)
        (put_proto viewer render timestamp false name proto) (ok tt) (proto >>= (λ p. ok tt))
        (create_variant-returns viewer name timestamp content false files.bytes)
        (put_proto-result name proto)

  run_variant-result :
      (name : Text) (sequence : List Command) (files : SeedFiles)
      → (run_variant viewer render timestamp false name sequence files).0 ≡ sequence_result sequence
  unfolding run_variant sequence_result
  run_variant-result name sequence files =
      put_both-result name (serialize_sequence sequence) (serialize_proto_sequence render sequence)
        files
      ∙ ap (λ p. serialize_sequence sequence >>= (λ content. p)) (proto_result render sequence)

  run_variants-result :
      (cmd : Text) (i : ℕ) (sequences : SeedVariants) (files : SeedFiles)
      → (run_variants viewer render timestamp false cmd i sequences files).0
        ≡ variants_result sequences
  unfolding run_variants variants_result
  run_variants-result cmd i [] files = refl
  run_variants-result cmd i (sequence ∷ more) files =
      followed_by-result
        (run_variant viewer render timestamp false (variant_name cmd i) sequence files)
        (run_variants viewer render timestamp false cmd (suc i) more) (sequence_result sequence)
        (variants_result more) (run_variant-result (variant_name cmd i) sequence files)
        (run_variants-result cmd (suc i) more)

  run_normalized-result :
      (cmd : Text) (found : Result SeedVariants) (files : SeedFiles)
      → (run_normalized viewer render timestamp false cmd found files).0 ≡ found >>= variants_result
  unfolding run_normalized
  run_normalized-result cmd (raise e) files = refl
  run_normalized-result cmd (ok sequences) files = run_variants-result cmd 0 sequences files

  -- Without `force`, `_generate_seeds` returns or raises what the definitions alone say: the first
  -- exception of a definition or of the serialization of one of its variants, in the order of the
  -- loops. No file that is there, no file name and no test script has a part in it.
  pub generate_seeds-result :
      (seeds : List (Text × SeedDefinition)) (files : SeedFiles)
      → (generate_seeds viewer render timestamp false seeds files).0 ≡ definitions_result seeds
  unfolding generate_seeds run_commands definitions_result
  generate_seeds-result [] files = refl
  generate_seeds-result ((cmd, definition) ∷ more) files =
      followed_by-result (run_commands viewer render timestamp false cmd definition files)
        (generate_seeds viewer render timestamp false more)
        (normalize_variants definition >>= variants_result) (definitions_result more)
        (run_normalized-result cmd (normalize_variants definition) files)
        (generate_seeds-result more)
      ∙ bind_assoc (normalize_variants definition) variants_result (λ u. definitions_result more)
