-- ===== src/Seeds/Variants.antt =====
-- `_create_variant` of tools/seed-generation/main.py.
pub mod Outcomes
pub mod Forced
use tpm_fuzzer.Prelude.{
  ℕ, List, [], ◌∷◌, ◌++◌, Bool, true, false, ◌&&◌, Option, none, some, if◌then◌else◌, Result, ok,
  raise, called_process_error, ◌>>=◌,
}
use mathlib.Core.Bool.{not}
use tpm_fuzzer.Bytes.{Bytes}
use tpm_fuzzer.Seeds.Directory.{
  Text, Directory, text_eq, read_file, write_file, remove_file, first_with_prefix,
}

-- What the generator calls to show a difference: the REQUEST section that the test script prints
-- for a seed file of this content, and `decode("utf-8")`. Both may raise.
pub record Viewer : Type 0 where
  pub request_section : Bytes → Result Text
  pub decode : Bytes → Result Text

-- `f"{name}-"` and `f"{name}-{timestamp}"`
abbrev pub variant_prefix : Text → Text
variant_prefix name = name ++ (b'-' ∷ [])

abbrev pub variant_path : Text → Text → Text
variant_path name timestamp = variant_prefix name ++ timestamp

-- The content of the file at `path`, which the script reads.
file_request : Viewer → Text → Directory → Result Text
file_request viewer path files = elim (read_file path files) [
  | none ↦ raise called_process_error
  | some content ↦ viewer.request_section content
]

-- The two texts that are compared; only that they can be had matters, the difference is printed.
unfoldable pub shown :
    Viewer → Bool → Text → Text → Bytes → Bytes → Directory → Result (Text × Text)
unfolding file_request
shown viewer false out current old content files = do
  actual ← file_request viewer out files
  expected ← file_request viewer current files
  ok (actual, expected)
shown viewer true out current old content files = do
  actual ← viewer.decode old
  expected ← viewer.decode content
  ok (actual, expected)

-- The directory once the new file is written: the old file goes if the difference could be shown.
unfoldable pub replace_seed :
    Viewer → Bool → Text → Text → Bytes → Bytes → Directory → Result (Unit {0}) × Directory
unfolding shown
replace_seed viewer proto out current old content files =
    elim (shown viewer proto out current old content files) [
      | ok texts ↦ (ok tt, remove_file out files)
      | raise e ↦ (raise e, files)
    ]

-- What happens where `out`, with content `old`, is the seed that is there.
unfoldable pub update_seed :
    Viewer → Text → Bytes → Bool → Bool → Text → Bytes → Directory → Result (Unit {0}) × Directory
unfolding replace_seed
update_seed viewer current content force proto out old files =
    if not (text_eq old content) && force
    then replace_seed viewer proto out current old content (write_file current content files)
    else (ok tt, files)

unfoldable pub create_variant :
    Viewer → Text → Text → Bytes → Bool → Bool → Directory → Result (Unit {0}) × Directory
unfolding update_seed
create_variant viewer name timestamp content force proto files =
    elim (first_with_prefix (variant_prefix name) files) [
      | none ↦ (ok tt, write_file (variant_path name timestamp) content files)
      | some (out, old) ↦
          update_seed viewer (variant_path name timestamp) content force proto out old files
    ]
