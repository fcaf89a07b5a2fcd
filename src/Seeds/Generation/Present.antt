-- ===== src/Seeds/Generation/Present.antt =====
-- Which seeds of `_run_commands` are in their directories.
use tpm_fuzzer.Prelude.{
  ℕ, suc, ◌≡◌, ◌≢◌, inl, inr, refl, List, [], ◌∷◌, Bool, false, Option, none, Option-cases, ok,
}
use tpm_fuzzer.Bytes.{Bytes}
use tpm_fuzzer.Proto.{Message}
use tpm_fuzzer.Commands.Instance.{Command}
use tpm_fuzzer.Seeds.Directory.{Text, Directory, first_with_prefix}
use tpm_fuzzer.Seeds.Directory.Lookup.{
  starts_with-append, first_with_prefix-write_file, first_with_prefix-write_file_keeps,
}
use tpm_fuzzer.Seeds.Variants.{Viewer, variant_prefix, variant_path, create_variant}
use tpm_fuzzer.Seeds.Variants.Outcomes.{first_seed, create_variant-keeps}
use tpm_fuzzer.Seeds.{serialize_sequence, serialize_proto_sequence}
use tpm_fuzzer.Seeds.Generation.{SeedVariants, variant_name, SeedFiles}

-- A file of the prefix is there.
abbrev pub Found : Text → Directory → Type 0
Found prefix files = first_with_prefix prefix files ≢ none

-- What `_create_variant` without `force` gives: it returns, its seed is there, and so is every
-- seed that was there before.
pub stored :
    (viewer : Viewer) (name timestamp : Text) (content : Bytes) (proto : Bool) (files : Directory)
    → ((create_variant viewer name timestamp content false proto files).0 ≡ ok tt)
      × Found
          (variant_prefix name)
          (create_variant viewer name timestamp content false proto files).1
      × ((prefix : Text)
          → Found prefix files
          → Found prefix (create_variant viewer name timestamp content false proto files).1)
stored viewer name timestamp content proto files =
    elim (Option-cases (first_with_prefix (variant_prefix name) files)) [
      | inl fresh ↦ rw (first_seed viewer name timestamp content false proto files fresh) (
        refl,
        first_with_prefix-write_file (variant_prefix name) (variant_path name timestamp) content
            files (starts_with-append (variant_prefix name) timestamp),
        λ prefix.
            first_with_prefix-write_file_keeps prefix (variant_path name timestamp) content files,
      )
      | inr (found, e) ↦
          rw (create_variant-keeps viewer name timestamp content proto files (λ n. cc))
            (refl, (λ n. cc), λ prefix h. h)
    ]

-- The seeds of a sequence are there: the byte seed, and the other one if it has one.
pub record Seeded (render : List Message → Bytes) (name : Text) (sequence : List Command)
    (files : SeedFiles) : Type 0 where
  pub content : Bytes
  pub serializes : serialize_sequence sequence ≡ ok content
  pub byte_seed : Found (variant_prefix name) files.bytes
  pub proto : Option Bytes
  pub renders : serialize_proto_sequence render sequence ≡ ok proto
  pub proto_seed : proto ≢ none → Found (variant_prefix name) files.protos

-- Every seed of `files` is one of `later`.
pub record Keeps (files later : SeedFiles) : Type 0 where
  pub in_bytes : (prefix : Text) → Found prefix files.bytes → Found prefix later.bytes
  pub in_protos : (prefix : Text) → Found prefix files.protos → Found prefix later.protos

pub Keeps-trans : (a b c : SeedFiles) → Keeps a b → Keeps b c → Keeps a c
Keeps-trans a b c h k = record {
  in_bytes = λ prefix found. k.in_bytes prefix (h.in_bytes prefix found);
  in_protos = λ prefix found. k.in_protos prefix (h.in_protos prefix found);
}

pub Seeded-Keeps :
    (render : List Message → Bytes) (name : Text) (sequence : List Command)
    (files later : SeedFiles)
    → Keeps files later
    → Seeded render name sequence files
    → Seeded render name sequence later
Seeded-Keeps render name sequence files later k h = record {
  content = h.content;
  serializes = h.serializes;
  byte_seed = k.in_bytes (variant_prefix name) h.byte_seed;
  proto = h.proto;
  renders = h.renders;
  proto_seed = λ there. k.in_protos (variant_prefix name) (h.proto_seed there);
}

unfoldable pub AllSeeded : (List Message → Bytes) → Text → ℕ → SeedVariants → SeedFiles → Type 0
AllSeeded render cmd i [] files = Unit {0}
AllSeeded render cmd i (sequence ∷ more) files =
    Seeded render (variant_name cmd i) sequence files × AllSeeded render cmd (suc i) more files
