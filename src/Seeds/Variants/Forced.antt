-- ===== src/Seeds/Variants/Forced.antt =====
-- `_create_variant` with `force`, where the seed that is there has another content.
use tpm_fuzzer.Prelude.{
  ◌≡◌, inl, inr, refl, arith, Bool, true, false, none, some, if◌then◌else◌, Exception, ok, raise,
}
use tpm_fuzzer.Bytes.{Bytes}
use tpm_fuzzer.Seeds.Directory.{Text, Directory, text_eq, read_file, write_file, first_with_prefix}
use tpm_fuzzer.Seeds.Directory.Lookup.{
  text_eq-eq, text_eq_refl, read_file-write_file, read_file-remove_file, first_with_prefix-some,
}
use tpm_fuzzer.Seeds.Variants.{Viewer, variant_prefix, variant_path, replace_seed, create_variant}
use tpm_fuzzer.Seeds.Variants.Outcomes.{replace_seed-cases, forced}

-- The two file names after a replacement, in both of its outcomes.
module _ (viewer : Viewer) (proto : Bool) (out current : Text) (old content : Bytes)
    (files : Directory) where
  replaced :
      (replace_seed viewer proto out current old content (write_file current content files)).0
        ≡ ok tt
      → (other : Text)
      → read_file other
          (replace_seed viewer proto out current old content (write_file current content files)).1
        ≡ (if text_eq out other
            then none
            else (if text_eq current other then some content else read_file other files))
  replaced r other =
      elim (replace_seed-cases viewer proto out current old content
        (write_file current content files)) [
          | inl e ↦
              rw
                (
                  e,
                  read_file-remove_file out other (write_file current content files),
                  read_file-write_file current other content files,
                )
                refl
          | inr (x, e) ↦ cc
        ]

  kept :
      (e : Exception)
      → (replace_seed viewer proto out current old content (write_file current content files)).0
        ≡ raise e
      → (other : Text)
      → read_file other
          (replace_seed viewer proto out current old content (write_file current content files)).1
        ≡ (if text_eq current other then some content else read_file other files)
  kept e r other =
      elim (replace_seed-cases viewer proto out current old content
        (write_file current content files)) [
          | inl i ↦ cc
          | inr (x, i) ↦ rw (i, read_file-write_file current other content files) refl
        ]

-- A seed `out` of the name is found, and its content is not the new one.
module _ (viewer : Viewer) (name timestamp : Text) (content : Bytes) (proto : Bool)
    (files : Directory) (out : Text) (old : Bytes)
    (found : first_with_prefix (variant_prefix name) files ≡ some (out, old))
    (changed : text_eq old content ≡ false) where
  -- With `force`, where the seed found has another content, the new file another name and the call
  -- raises, the new content can be read under the new name and the old one under the old name.
  pub create_variant_raises :
      (e : Exception)
      → (create_variant viewer name timestamp content true proto files).0 ≡ raise e
      → text_eq (variant_path name timestamp) out ≡ false
      → (read_file
            (variant_path name timestamp)
            (create_variant viewer name timestamp content true proto files).1
          ≡ some content)
        × (read_file out (create_variant viewer name timestamp content true proto files).1
            ≡ some old)
  create_variant_raises e =
      rw (forced viewer name timestamp content proto files out old found changed) (λ r apart.
        let current = variant_path name timestamp in
        let (starts, there) = first_with_prefix-some (variant_prefix name) out old files found in
        (
          rw (kept viewer proto out current old content files e r current, text_eq_refl current)
              refl,
          rw (kept viewer proto out current old content files e r out, apart) there,
        ))

  -- With `force`, where the seed found has another content, the new file another name and the call
  -- returns, the new content can be read under the new name, and no file has the old name.
  pub create_variant_replaces :
      (create_variant viewer name timestamp content true proto files).0 ≡ ok tt
      → text_eq (variant_path name timestamp) out ≡ false
      → (read_file
            (variant_path name timestamp)
            (create_variant viewer name timestamp content true proto files).1
          ≡ some content)
        × (read_file out (create_variant viewer name timestamp content true proto files).1 ≡ none)
  create_variant_replaces =
      rw (forced viewer name timestamp content proto files out old found changed) (λ r apart.
        let current = variant_path name timestamp in
        (
          ground (
            arith,
            replaced viewer proto out current old content files r current,
            text_eq_refl current,
            text_eq-eq out current,
            apart,
          ),
          ground
              (arith, replaced viewer proto out current old content files r out, text_eq_refl out),
        ))

  -- With `force`, where the seed found has another content, the new file has the very name of the
  -- old one and the call returns, no file of that name is left.
  pub create_variant_loses :
      (create_variant viewer name timestamp content true proto files).0 ≡ ok tt
      → out ≡ variant_path name timestamp
      → read_file
          (variant_path name timestamp)
          (create_variant viewer name timestamp content true proto files).1
        ≡ none
  create_variant_loses =
      rw (forced viewer name timestamp content proto files out old found changed) (λ r same.
        let current = variant_path name timestamp in
        ground (
          arith,
          replaced viewer proto out current old content files r current,
          text_eq_refl current,
          same,
        ))
