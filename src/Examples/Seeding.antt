-- ===== src/Examples/Seeding.antt =====
-- Seeds written into concrete directories.
use tpm_fuzzer.Prelude.{◌≡◌, refl, [], ◌∷◌, true, false, none, some, ok, raise, value_error}
use tpm_fuzzer.Seeds.Directory.{
  Directory, text_eq, starts_with, read_file, write_file, first_with_prefix,
}
use tpm_fuzzer.Seeds.Variants.{
  Viewer, variant_prefix, variant_path, shown, update_seed, replace_seed, create_variant,
}
use tpm_fuzzer.Seeds.Variants.Outcomes.{create_variant_twice, create_variant_others}
use tpm_fuzzer.Seeds.Variants.Forced.{
  create_variant_raises, create_variant_replaces, create_variant_loses,
}

-- Every content can be shown.
abbrev shows : Viewer
shows = record { request_section = λ c. ok c; decode = λ c. ok c }

-- The test script prints no REQUEST section.
abbrev shows_nothing : Viewer
shows_nothing = record { request_section = λ c. raise value_error; decode = λ c. ok c }

-- The seed `a` at the minute `1`, and another seed.
abbrev seeded : Directory
seeded = ((b'b' ∷ b'-' ∷ b'1' ∷ []), 4 ∷ []) ∷ ((b'a' ∷ b'-' ∷ b'1' ∷ []), 5 ∷ []) ∷ []

seed_found :
    first_with_prefix (variant_prefix (b'a' ∷ [])) seeded ≡ some (b'a' ∷ b'-' ∷ b'1' ∷ [], 5 ∷ [])
unfolding first_with_prefix starts_with
seed_found = refl

other_content : text_eq (5 ∷ []) (6 ∷ []) ≡ false
unfolding text_eq
other_content = refl

other_minute : text_eq (variant_path (b'a' ∷ []) (b'2' ∷ [])) (b'a' ∷ b'-' ∷ b'1' ∷ []) ≡ false
unfolding text_eq
other_minute = refl

create_variant_twice_example :
    create_variant shows
      (b'c' ∷ [])
      (b'2' ∷ [])
      (7 ∷ [])
      false
      false
      (create_variant shows (b'c' ∷ []) (b'1' ∷ []) (6 ∷ []) false false seeded).1
    ≡ (ok tt, (create_variant shows (b'c' ∷ []) (b'1' ∷ []) (6 ∷ []) false false seeded).1)
create_variant_twice_example =
    create_variant_twice shows (b'c' ∷ []) (b'1' ∷ []) (b'2' ∷ []) (6 ∷ []) (7 ∷ []) false seeded

not_other : starts_with (b'b' ∷ b'-' ∷ b'1' ∷ []) (variant_prefix (b'a' ∷ [])) ≡ false
unfolding starts_with
not_other = refl

create_variant_others_example :
    read_file
      (b'b' ∷ b'-' ∷ b'1' ∷ [])
      (create_variant shows (b'a' ∷ []) (b'2' ∷ []) (6 ∷ []) true false seeded).1
    ≡ read_file (b'b' ∷ b'-' ∷ b'1' ∷ []) seeded
create_variant_others_example =
    create_variant_others shows (b'a' ∷ []) (b'2' ∷ []) (6 ∷ []) true false seeded
      (b'b' ∷ b'-' ∷ b'1' ∷ []) not_other

raise_runs :
    (create_variant shows_nothing (b'a' ∷ []) (b'2' ∷ []) (6 ∷ []) true false seeded).0
    ≡ raise value_error
unfolding create_variant update_seed replace_seed shown first_with_prefix starts_with text_eq
    write_file read_file
raise_runs = refl

create_variant_raises_example :
    (read_file
        (variant_path (b'a' ∷ []) (b'2' ∷ []))
        (create_variant shows_nothing (b'a' ∷ []) (b'2' ∷ []) (6 ∷ []) true false seeded).1
      ≡ some (6 ∷ []))
    × (read_file
          (b'a' ∷ b'-' ∷ b'1' ∷ [])
          (create_variant shows_nothing (b'a' ∷ []) (b'2' ∷ []) (6 ∷ []) true false seeded).1
        ≡ some (5 ∷ []))
create_variant_raises_example =
    create_variant_raises shows_nothing (b'a' ∷ []) (b'2' ∷ []) (6 ∷ []) false seeded
      (b'a' ∷ b'-' ∷ b'1' ∷ []) (5 ∷ []) seed_found other_content value_error raise_runs
      other_minute

replace_runs : (create_variant shows (b'a' ∷ []) (b'2' ∷ []) (6 ∷ []) true false seeded).0 ≡ ok tt
unfolding create_variant update_seed replace_seed shown first_with_prefix starts_with text_eq
    write_file read_file
replace_runs = refl

create_variant_replaces_example :
    (read_file
        (variant_path (b'a' ∷ []) (b'2' ∷ []))
        (create_variant shows (b'a' ∷ []) (b'2' ∷ []) (6 ∷ []) true false seeded).1
      ≡ some (6 ∷ []))
    × (read_file
          (b'a' ∷ b'-' ∷ b'1' ∷ [])
          (create_variant shows (b'a' ∷ []) (b'2' ∷ []) (6 ∷ []) true false seeded).1
        ≡ none)
create_variant_replaces_example =
    create_variant_replaces shows (b'a' ∷ []) (b'2' ∷ []) (6 ∷ []) false seeded
      (b'a' ∷ b'-' ∷ b'1' ∷ []) (5 ∷ []) seed_found other_content replace_runs other_minute

lose_runs : (create_variant shows (b'a' ∷ []) (b'1' ∷ []) (6 ∷ []) true false seeded).0 ≡ ok tt
unfolding create_variant update_seed replace_seed shown first_with_prefix starts_with text_eq
    write_file read_file
lose_runs = refl

create_variant_loses_example :
    read_file
      (variant_path (b'a' ∷ []) (b'1' ∷ []))
      (create_variant shows (b'a' ∷ []) (b'1' ∷ []) (6 ∷ []) true false seeded).1
    ≡ none
create_variant_loses_example =
    create_variant_loses shows (b'a' ∷ []) (b'1' ∷ []) (6 ∷ []) false seeded
      (b'a' ∷ b'-' ∷ b'1' ∷ []) (5 ∷ []) seed_found other_content lose_runs refl
