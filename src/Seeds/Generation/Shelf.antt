-- ===== src/Seeds/Generation/Shelf.antt =====
-- What a seed directory stands for: one seed at most for each variant of a command.
use tpm_fuzzer.Prelude.{
  ℕ, ◌≡◌, refl, arith, Bool, true, false, Bool-cases, inl, inr, Option, none, some, Option-cases,
  ◌&&◌, ◌==◌, if◌then◌else◌, All,
}
use tpm_fuzzer.Bytes.{Bytes}
use tpm_fuzzer.Seeds.Directory.{Text, Directory, text_eq, starts_with, first_with_prefix}
use tpm_fuzzer.Seeds.Directory.Lookup.{
  text_eq-eq, text_eq_refl, starts_with-append, first_with_prefix-write_file_other,
  first_with_prefix-write_file_new,
}
use tpm_fuzzer.Seeds.Variants.{Viewer, variant_prefix, variant_path, create_variant}
use tpm_fuzzer.Seeds.Variants.Outcomes.{first_seed, create_variant-keeps}
use tpm_fuzzer.Seeds.Generation.{variant_name}
use tpm_fuzzer.Seeds.Generation.Naming.{IsPlain, variant_path-prefix}

-- The seed of each variant: a command name and the number of the variant.
abbrev pub Shelf : Type 0
Shelf = Text → ℕ → Option Bytes

abbrev content_of : Option (Text × Bytes) → Option Bytes
content_of none = none
content_of (some (name, content)) = some content

-- The shelf that a directory stands for.
unfoldable pub seed_of : Directory → Shelf
seed_of files cmd i = content_of (first_with_prefix (variant_prefix (variant_name cmd i)) files)

abbrev or_else : Option Bytes → Bytes → Option Bytes
or_else none content = some content
or_else (some old) content = some old

-- A seed that is there stays, and one that is not is put there.
unfoldable pub put_absent : Text → ℕ → Bytes → Shelf → Shelf
put_absent cmd i content shelf other j =
    if text_eq other cmd && (j == i) then or_else (shelf other j) content else shelf other j

same_variant :
    (cmd other : Text) (i j : ℕ) → (text_eq other cmd && (j == i)) ≡ true → (other ≡ cmd) × (j ≡ i)
same_variant cmd other i j h = (ground (arith, text_eq-eq other cmd), ground arith)

-- Under another variant a new file is not found.
apart :
    (cmd other : Text) (i j : ℕ) (timestamp : Text)
    → All IsPlain cmd
    → All IsPlain other
    → (text_eq other cmd && (j == i)) ≡ false
    → starts_with
        (variant_path (variant_name cmd i) timestamp)
        (variant_prefix (variant_name other j))
      ≡ false
apart cmd other i j timestamp plain plain' different =
    elim (Bool-cases (
      starts_with (variant_path (variant_name cmd i) timestamp)
        (variant_prefix (variant_name other j)))) [
          | inr e ↦ e
          | inl e ↦
              let (c, k) = variant_path-prefix other cmd j i timestamp plain' plain e in
              absurd (ground (arith, text_eq_refl cmd, c, k, different))
        ]

module _ (viewer : Viewer) (cmd other : Text) (i j : ℕ) (timestamp : Text) (content : Bytes)
    (proto : Bool) (files : Directory) where
  put_same :
      (other ≡ cmd)
      → (j ≡ i)
      → content_of (
          first_with_prefix
            (variant_prefix (variant_name other j))
            (create_variant viewer (variant_name cmd i) timestamp content false proto files).1)
        ≡ or_else
            (content_of (first_with_prefix (variant_prefix (variant_name other j)) files))
            content
  put_same c k =
      let name = variant_name cmd i in
      rw (c, k)
        (elim (Option-cases (first_with_prefix (variant_prefix name) files)) [
          | inl fresh ↦
              rw
                (
                  first_seed viewer name timestamp content false proto files fresh,
                  first_with_prefix-write_file_new (variant_prefix name)
                      (variant_path name timestamp) content files
                      (starts_with-append (variant_prefix name) timestamp) fresh,
                  fresh,
                )
                refl
          | inr (found, e) ↦
              rw (create_variant-keeps viewer name timestamp content proto files (λ n. cc), e) refl
        ])

  put_other :
      starts_with
          (variant_path (variant_name cmd i) timestamp)
          (variant_prefix (variant_name other j))
        ≡ false
      → first_with_prefix
          (variant_prefix (variant_name other j))
          (create_variant viewer (variant_name cmd i) timestamp content false proto files).1
        ≡ first_with_prefix (variant_prefix (variant_name other j)) files
  put_other no_start =
      let name = variant_name cmd i in
      elim (Option-cases (first_with_prefix (variant_prefix name) files)) [
        | inl fresh ↦ rw (first_seed viewer name timestamp content false proto files fresh) (
            first_with_prefix-write_file_other (variant_prefix (variant_name other j))
              (variant_path name timestamp) content files no_start)
        | inr (found, e) ↦
            rw (create_variant-keeps viewer name timestamp content proto files (λ n. cc)) refl
      ]

  -- `_create_variant` without `force` puts its seed on the shelf, under command names with no dash.
  pub seed_of-create_variant :
      All IsPlain cmd
      → All IsPlain other
      → seed_of
          (create_variant viewer (variant_name cmd i) timestamp content false proto files).1
          other
          j
        ≡ put_absent cmd i content (seed_of files) other j
  unfolding seed_of put_absent
  seed_of-create_variant plain plain' = elim (Bool-cases (text_eq other cmd && (j == i))) [
    | inl same ↦ let (c, k) = same_variant cmd other i j same in rw same (put_same c k)
    | inr different ↦
        rw (different, put_other (apart cmd other i j timestamp plain plain' different)) refl
  ]
