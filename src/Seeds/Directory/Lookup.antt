-- ===== src/Seeds/Directory/Lookup.antt =====
-- Reading after writing and removing, and searching for a prefix.
use tpm_fuzzer.Prelude.{
  false, ◌≡◌, ◌≢◌, refl, arith, [], ◌∷◌, ◌++◌, true, none, some, if◌then◌else◌,
}
use tpm_fuzzer.Bytes.{Bytes}
use tpm_fuzzer.Seeds.Directory.{
  Text, Directory, text_eq, starts_with, read_file, write_file, remove_file, first_with_prefix,
}

pub text_eq-eq : (a b : Text) → text_eq a b ≡ true → a ≡ b
unfolding text_eq
text_eq-eq [] [] h = refl
text_eq-eq [] (d ∷ ds) h = cc
text_eq-eq (c ∷ cs) [] h = cc
text_eq-eq (c ∷ cs) (d ∷ ds) h = ground (arith, text_eq-eq cs ds)

pub text_eq_refl : (a : Text) → text_eq a a ≡ true
unfolding text_eq
text_eq_refl [] = refl
text_eq_refl (c ∷ cs) = ground (arith, text_eq_refl cs)

pub starts_with-append : (a b : Text) → starts_with (a ++ b) a ≡ true
unfolding starts_with
starts_with-append [] b = refl
starts_with-append (c ∷ cs) b = ground (arith, starts_with-append cs b)

pub read_file-write_file :
    (path other : Text) (content : Bytes) (files : Directory)
    → read_file other (write_file path content files)
      ≡ (if text_eq path other then some content else read_file other files)
unfolding read_file write_file
read_file-write_file path other content [] = refl
read_file-write_file path other content ((name, old) ∷ files) = ground (
  arith,
  read_file-write_file path other content files,
  text_eq-eq name path,
  text_eq-eq path other,
  text_eq-eq name other,
  text_eq_refl path,
  text_eq_refl name,
  text_eq_refl other,
)

pub read_file-remove_file :
    (path other : Text) (files : Directory)
    → read_file other (remove_file path files)
      ≡ (if text_eq path other then none else read_file other files)
unfolding read_file remove_file
read_file-remove_file path other [] = ground arith
read_file-remove_file path other ((name, content) ∷ files) = ground (
  arith,
  read_file-remove_file path other files,
  text_eq-eq name path,
  text_eq-eq path other,
  text_eq-eq name other,
  text_eq_refl path,
  text_eq_refl name,
  text_eq_refl other,
)

-- After a write of a name that starts with the prefix, such a file is there.
pub first_with_prefix-write_file :
    (prefix path : Text) (content : Bytes) (files : Directory)
    → starts_with path prefix ≡ true
    → first_with_prefix prefix (write_file path content files) ≢ none
unfolding first_with_prefix write_file
first_with_prefix-write_file prefix path content [] h e = ground arith
first_with_prefix-write_file prefix path content ((name, old) ∷ files) h e =
    ground (arith, first_with_prefix-write_file prefix path content files h)

-- The file that is found starts with the prefix, and reading its name gives what was found.
pub first_with_prefix-some :
    (prefix name : Text) (content : Bytes) (files : Directory)
    → first_with_prefix prefix files ≡ some (name, content)
    → (starts_with name prefix ≡ true) × (read_file name files ≡ some content)
unfolding first_with_prefix read_file
first_with_prefix-some prefix name content [] h = cc
first_with_prefix-some prefix name content ((other, old) ∷ files) h = ground (
  arith,
  first_with_prefix-some prefix name content files,
  text_eq-eq other name,
  text_eq_refl name,
)

-- A write removes no name.
pub first_with_prefix-write_file_keeps :
    (prefix path : Text) (content : Bytes) (files : Directory)
    → first_with_prefix prefix files ≢ none
    → first_with_prefix prefix (write_file path content files) ≢ none
unfolding first_with_prefix write_file
first_with_prefix-write_file_keeps prefix path content [] h e = h refl
first_with_prefix-write_file_keeps prefix path content ((name, old) ∷ files) h e =
    ground
      (arith, first_with_prefix-write_file_keeps prefix path content files, text_eq-eq name path)

-- A write under a name without the prefix is not found by it, and one with it is where none was.
pub first_with_prefix-write_file_other :
    (prefix path : Text) (content : Bytes) (files : Directory)
    → starts_with path prefix ≡ false
    → first_with_prefix prefix (write_file path content files) ≡ first_with_prefix prefix files
unfolding first_with_prefix write_file
first_with_prefix-write_file_other prefix path content [] h = ground arith
first_with_prefix-write_file_other prefix path content ((name, old) ∷ files) h =
    ground
      (arith, first_with_prefix-write_file_other prefix path content files, text_eq-eq name path)

pub first_with_prefix-write_file_new :
    (prefix path : Text) (content : Bytes) (files : Directory)
    → starts_with path prefix ≡ true
    → first_with_prefix prefix files ≡ none
    → first_with_prefix prefix (write_file path content files) ≡ some (path, content)
unfolding first_with_prefix write_file
first_with_prefix-write_file_new prefix path content [] h e = ground arith
first_with_prefix-write_file_new prefix path content ((name, old) ∷ files) h e =
    ground (arith, first_with_prefix-write_file_new prefix path content files, text_eq-eq name path)
