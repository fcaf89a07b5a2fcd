-- ===== src/Seeds/Directory.antt =====
-- A seed directory as the generator sees it: `os.listdir`, `open`, `os.remove` and file names.
pub mod Lookup
use tpm_fuzzer.Prelude.{
  ℕ, ◌≡◌, ◌↔◌, refl, arith, List, [], ◌∷◌, Bool, true, false, ◌&&◌, Option, none, some, ◌==◌,
  if◌then◌else◌,
}
use tpm_fuzzer.Bytes.{Bytes}

-- A file name or a text, as a list of character codes.
abbrev pub Text : Type 0
Text = List ℕ

-- The files in the order in which the directory is listed.
abbrev pub Directory : Type 0
Directory = List (Text × Bytes)

-- `==` of two strings, or of two byte strings
unfoldable pub text_eq : Text → Text → Bool
text_eq [] [] = true
text_eq [] (d ∷ ds) = false
text_eq (c ∷ cs) [] = false
text_eq (c ∷ cs) (d ∷ ds) = c == d && text_eq cs ds

-- `p.startswith(prefix)`
unfoldable pub starts_with : Text → Text → Bool
starts_with p [] = true
starts_with [] (d ∷ ds) = false
starts_with (c ∷ cs) (d ∷ ds) = c == d && starts_with cs ds

-- The content of a file.
unfoldable pub read_file : Text → Directory → Option Bytes
read_file path [] = none
read_file path ((name, content) ∷ files) =
    if text_eq name path then some content else read_file path files

-- `open(path, "wb")` and `write`: a file that is there is overwritten, another one is added.
unfoldable pub write_file : Text → Bytes → Directory → Directory
write_file path content [] = (path, content) ∷ []
write_file path content ((name, old) ∷ files) =
    if text_eq name path
    then (path, content) ∷ files
    else (name, old) ∷ write_file path content files

-- `os.remove(path)`
unfoldable pub remove_file : Text → Directory → Directory
remove_file path [] = []
remove_file path ((name, content) ∷ files) =
    let rest = remove_file path files in if text_eq name path then rest else (name, content) ∷ rest

-- The first file that is listed whose name starts with `prefix`.
unfoldable pub first_with_prefix : Text → Directory → Option (Text × Bytes)
first_with_prefix prefix [] = none
first_with_prefix prefix ((name, content) ∷ files) =
    if starts_with name prefix then some (name, content) else first_with_prefix prefix files
