-- ===== src/Seeds/Variants/Outcomes.antt =====
-- What `_create_variant` leaves in the directory.
use tpm_fuzzer.Prelude.{
  ◌≡◌, ◌≢◌, ◌⊎◌, inl, inr, refl, ◌∙◌, arith, Bool, true, false, ◌&&◌, none, some, Option-cases,
  Bool-cases, Exception, Result-cases, ok, raise,
}
use mathlib.Core.Bool.{not}
use tpm_fuzzer.Bytes.{Bytes}
use tpm_fuzzer.Seeds.Directory.{
  Text, Directory, text_eq, starts_with, read_file, write_file, remove_file, first_with_prefix,
}
use tpm_fuzzer.Seeds.Directory.Lookup.{
  text_eq-eq, starts_with-append, read_file-write_file, read_file-remove_file,
  first_with_prefix-write_file, first_with_prefix-some,
}
use tpm_fuzzer.Seeds.Variants.{
  Viewer, variant_prefix, variant_path, shown, replace_seed, update_seed, create_variant,
}

-- Without a seed of the name, the content is written under the new file name.
pub first_seed :
    (viewer : Viewer) (name timestamp : Text) (content : Bytes) (force proto : Bool)
    (files : Directory)
    → first_with_prefix (variant_prefix name) files ≡ none
    → create_variant viewer name timestamp content force proto files
      ≡ (ok tt, write_file (variant_path name timestamp) content files)
unfolding create_variant
first_seed viewer name timestamp content force proto files h = ground arith

-- With one, it is compared and perhaps replaced.
old_seed :
    (viewer : Viewer) (name timestamp : Text) (content : Bytes) (force proto : Bool)
    (files : Directory) (out : Text) (old : Bytes)
    → first_with_prefix (variant_prefix name) files ≡ some (out, old)
    → create_variant viewer name timestamp content force proto files
      ≡ update_seed viewer (variant_path name timestamp) content force proto out old files
unfolding create_variant
old_seed viewer name timestamp content force proto files out old h = ground arith

-- Without `force` a seed of the name keeps the whole directory as it is.
pub create_variant-keeps :
    (viewer : Viewer) (name timestamp : Text) (content : Bytes) (proto : Bool) (files : Directory)
    → first_with_prefix (variant_prefix name) files ≢ none
    → create_variant viewer name timestamp content false proto files ≡ (ok tt, files)
unfolding create_variant update_seed
create_variant-keeps viewer name timestamp content proto files h = ground arith

-- Without `force` a second run, of whatever content and at whatever time, returns and changes
-- nothing that the first run left.
pub create_variant_twice :
    (viewer : Viewer) (name timestamp later : Text) (content other : Bytes) (proto : Bool)
    (files : Directory)
    → create_variant viewer name later other false proto
        (create_variant viewer name timestamp content false proto files).1
      ≡ (ok tt, (create_variant viewer name timestamp content false proto files).1)
create_variant_twice viewer name timestamp later content other proto files =
    elim (Option-cases (first_with_prefix (variant_prefix name) files)) [
      | inl fresh ↦ rw (first_seed viewer name timestamp content false proto files fresh) (
          create_variant-keeps viewer name later other proto _ (
            first_with_prefix-write_file (variant_prefix name) (variant_path name timestamp) content
              files (starts_with-append (variant_prefix name) timestamp)))
      | inr (found, e) ↦
          rw (create_variant-keeps viewer name timestamp content proto files (λ n. cc))
            (create_variant-keeps viewer name later other proto files (λ n. cc))
    ]

-- Replacing returns without the old file, or raises with every file there.
pub replace_seed-cases :
    (viewer : Viewer) (proto : Bool) (out current : Text) (old content : Bytes) (files : Directory)
    → (replace_seed viewer proto out current old content files ≡ (ok tt, remove_file out files))
      ⊎ ((e : Exception) × (replace_seed viewer proto out current old content files
            ≡ (raise e, files)))
unfolding replace_seed
replace_seed-cases viewer proto out current old content files =
    elim (Result-cases (shown viewer proto out current old content files)) [
      | inl (texts, e) ↦ inl (ground (arith, e))
      | inr (x, e) ↦ inr (x, ground (arith, e))
    ]

update_seed_others :
    (viewer : Viewer) (current : Text) (content : Bytes) (force proto : Bool) (out : Text)
    (old : Bytes) (files : Directory) (other : Text)
    → read_file other (write_file current content files) ≡ read_file other files
    → text_eq out other ≡ false
    → read_file other (update_seed viewer current content force proto out old files).1
      ≡ read_file other files
unfolding update_seed
update_seed_others viewer current content force proto out old files other written apart =
    elim (Bool-cases (not (text_eq old content) && force)) [
      | inl e ↦
          elim (replace_seed-cases viewer proto out current old content
            (write_file current content files)) [
              | inl r ↦ ground (
                arith,
                r,
                e,
                written,
                read_file-remove_file out other (write_file current content files),
              )
              | inr (x, r) ↦ ground (arith, r, e, written)
            ]
      | inr e ↦ ground (arith, e)
    ]

pub forced :
    (viewer : Viewer) (name timestamp : Text) (content : Bytes) (proto : Bool) (files : Directory)
    (out : Text) (old : Bytes)
    → first_with_prefix (variant_prefix name) files ≡ some (out, old)
    → text_eq old content ≡ false
    → create_variant viewer name timestamp content true proto files
      ≡ replace_seed viewer proto out
          (variant_path name timestamp)
          old
          content
          (write_file (variant_path name timestamp) content files)
unfolding update_seed
forced viewer name timestamp content proto files out old found changed =
    old_seed viewer name timestamp content true proto files out old found ∙ rw changed refl

-- A file whose name does not start with the name of the seed and a dash reads the same afterwards,
-- whether the call returns or raises.
pub create_variant_others :
    (viewer : Viewer) (name timestamp : Text) (content : Bytes) (force proto : Bool)
    (files : Directory) (other : Text)
    → starts_with other (variant_prefix name) ≡ false
    → read_file other (create_variant viewer name timestamp content force proto files).1
      ≡ read_file other files
create_variant_others viewer name timestamp content force proto files other h =
    let prefixed = starts_with-append (variant_prefix name) timestamp in
    let new_name : text_eq (variant_path name timestamp) other ≡ false =
      ground (arith, text_eq-eq (variant_path name timestamp) other, prefixed) in
    let written : (read_file other (write_file (variant_path name timestamp) content files)
        ≡ read_file other files) =
      ground
        (arith, new_name, read_file-write_file (variant_path name timestamp) other content files) in
    elim (Option-cases (first_with_prefix (variant_prefix name) files)) [
      | inl fresh ↦ rw (first_seed viewer name timestamp content force proto files fresh) written
      | inr ((out, old), e) ↦
          let (starts, found) = first_with_prefix-some (variant_prefix name) out old files e in
          let old_name : text_eq out other ≡ false = ground (arith, text_eq-eq out other) in
          rw (old_seed viewer name timestamp content force proto files out old e) (
            update_seed_others viewer (variant_path name timestamp) content force proto out old
              files other written old_name)
    ]
