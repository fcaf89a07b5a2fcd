-- ===== src/Seeds/Generation/Repeated.antt =====
-- The rounds of `_run_commands` without `force`: what they store, and a second time.
use tpm_fuzzer.Prelude.{
  ℕ, suc, ◌≡◌, ◌≢◌, refl, sym, ap, ◌∙◌, List, [], ◌∷◌, true, false, Option, none, some, Result, ok,
  raise,
}
use tpm_fuzzer.Bytes.{Bytes}
use tpm_fuzzer.Proto.{Message}
use tpm_fuzzer.Commands.Instance.{Command}
use tpm_fuzzer.Seeds.Directory.{Text}
use tpm_fuzzer.Seeds.Variants.{Viewer, variant_prefix}
use tpm_fuzzer.Seeds.Variants.Outcomes.{create_variant-keeps}
use tpm_fuzzer.Seeds.{serialize_sequence, serialize_proto_sequence}
use tpm_fuzzer.Seeds.Generation.{
  SeedVariants, variant_name, SeedFiles, Outcome, followed_by, store_bytes, put_proto, put_both,
  run_variant, run_variants,
}
use tpm_fuzzer.Seeds.Generation.Present.{
  Found, stored, Seeded, Keeps, Keeps-trans, Seeded-Keeps, AllSeeded,
}

pub followed_by-ok :
    (first : Outcome) (next : SeedFiles → Outcome)
    → (followed_by first next).0 ≡ ok tt
    → (first.0 ≡ ok tt) × (followed_by first next ≡ next first.1)
followed_by-ok (ok u, files) next h = (refl, refl)
followed_by-ok (raise e, files) next h = cc

-- Where the seeds of a sequence are there, its round changes nothing.
module _ (viewer : Viewer) (render : List Message → Bytes) (timestamp : Text) where
  proto_again :
      (name : Text) (proto : Option Bytes) (files : SeedFiles)
      → (proto ≢ none → Found (variant_prefix name) files.protos)
      → put_proto viewer render timestamp false name (ok proto) files ≡ (ok tt, files)
  unfolding put_proto
  proto_again name none files there = refl
  proto_again name (some content) files there =
      rw (create_variant-keeps viewer name timestamp content true files.protos (there (λ e. cc)))
        refl

  round_again :
      (name : Text) (sequence : List Command) (files : SeedFiles)
      → Seeded render name sequence files
      → run_variant viewer render timestamp false name sequence files ≡ (ok tt, files)
  unfolding run_variant put_both
  round_again name sequence files h =
      rw
        (
          h.serializes,
          create_variant-keeps viewer name timestamp h.content false files.bytes h.byte_seed,
          h.renders,
        )
        (proto_again name h.proto files h.proto_seed)

  pub rounds_again :
      (cmd : Text) (i : ℕ) (sequences : SeedVariants) (files : SeedFiles)
      → AllSeeded render cmd i sequences files
      → run_variants viewer render timestamp false cmd i sequences files ≡ (ok tt, files)
  unfolding run_variants AllSeeded
  rounds_again cmd i [] files h = refl
  rounds_again cmd i (sequence ∷ more) files (h, hs) =
      rw (round_again (variant_name cmd i) sequence files h)
        (rounds_again cmd (suc i) more files hs)

  proto_stored :
      (name : Text) (proto : Option Bytes) (files : SeedFiles)
      → (put_proto viewer render timestamp false name (ok proto) files).0 ≡ ok tt
        × Keeps files (put_proto viewer render timestamp false name (ok proto) files).1
        × (proto ≢ none
            → Found
                (variant_prefix name)
                (put_proto viewer render timestamp false name (ok proto) files).1.protos)
  unfolding put_proto
  proto_stored name none files =
      (refl, record { in_bytes = λ prefix h. h; in_protos = λ prefix h. h }, λ h. absurd (h refl))
  proto_stored name (some content) files =
      let (returns, there, keeps) = stored viewer name timestamp content true files.protos in
      (returns, record { in_bytes = λ prefix h. h; in_protos = keeps }, λ h. there)

  both_stored :
      (name : Text) (sequence : List Command) (bytes : Result Bytes)
      (protos : Result (Option Bytes)) (files : SeedFiles)
      → serialize_sequence sequence ≡ bytes
      → serialize_proto_sequence render sequence ≡ protos
      → (put_both viewer render timestamp false name bytes protos files).0 ≡ ok tt
      → Seeded render name sequence
          (put_both viewer render timestamp false name bytes protos files).1
        × Keeps files (put_both viewer render timestamp false name bytes protos files).1
  unfolding put_both put_proto
  both_stored name sequence (raise e) protos files b p h = cc
  both_stored name sequence (ok content) (raise e) files b p h =
      let (r, next) =
        followed_by-ok (store_bytes viewer render timestamp false name content files)
          (put_proto viewer render timestamp false name (raise e)) h in
      let refused : raise e ≡ ok tt = sym (ap (λ o. o.0) next) ∙ h in cc
  both_stored name sequence (ok content) (ok proto) files b p h =
      let (returns, there, keeps) = stored viewer name timestamp content false files.bytes in
      let (r, next) =
        followed_by-ok (store_bytes viewer render timestamp false name content files)
          (put_proto viewer render timestamp false name (ok proto)) h in
      let (ret, kept, proto_there) =
        proto_stored name proto (store_bytes viewer render timestamp false name content files).1 in
      rw next (
        record {
          content = content;
          serializes = b;
          byte_seed = kept.in_bytes (variant_prefix name) there;
          proto = proto;
          renders = p;
          proto_seed = proto_there;
        },
        record {
          in_bytes = λ prefix found. kept.in_bytes prefix (keeps prefix found);
          in_protos = kept.in_protos;
        },
      )

  -- A round that returned has stored its seeds and lost none.
  round_stores :
      (name : Text) (sequence : List Command) (files : SeedFiles)
      → (run_variant viewer render timestamp false name sequence files).0 ≡ ok tt
      → Seeded render name sequence
          (run_variant viewer render timestamp false name sequence files).1
        × Keeps files (run_variant viewer render timestamp false name sequence files).1
  unfolding run_variant
  round_stores name sequence files h =
      both_stored name sequence (serialize_sequence sequence)
        (serialize_proto_sequence render sequence) files refl refl h

  pub rounds_store :
      (cmd : Text) (i : ℕ) (sequences : SeedVariants) (files : SeedFiles)
      → (run_variants viewer render timestamp false cmd i sequences files).0 ≡ ok tt
      → AllSeeded render cmd i sequences
          (run_variants viewer render timestamp false cmd i sequences files).1
        × Keeps files (run_variants viewer render timestamp false cmd i sequences files).1
  unfolding run_variants AllSeeded
  rounds_store cmd i [] files h =
      (tt, record { in_bytes = λ prefix h. h; in_protos = λ prefix h. h })
  rounds_store cmd i (sequence ∷ more) files h =
      let (r, next) = followed_by-ok _ _ h in
      let (seed, kept) = round_stores (variant_name cmd i) sequence files r in
      let (seeds, all_kept) = rounds_store cmd (suc i) more _ (sym (ap (λ o. o.0) next) ∙ h) in
      rw next (
        (Seeded-Keeps render (variant_name cmd i) sequence _ _ all_kept seed, seeds),
        Keeps-trans _ _ _ kept all_kept,
      )
