-- ===== src/Seeds/Generation.antt =====
-- `_normalize_variants`, `_run_commands` and `_generate_seeds` of tools/seed-generation/main.py.
pub mod Present
pub mod Repeated
pub mod Whole
pub mod Naming
pub mod Shelf
pub mod Refinement
pub mod Returns
pub mod Spots
pub mod Fresh
use tpm_fuzzer.Prelude.{
  ℕ, zero, suc, ◌+◌, ◌/◌, ◌%◌, List, [], ◌∷◌, ◌++◌, Bool, true, false, Option, none, some, ltb,
  if◌then◌else◌, Result, ok, raise,
}
use tpm_fuzzer.Bytes.{Bytes}
use tpm_fuzzer.Proto.{Message}
use tpm_fuzzer.Commands.Instance.{Command}
use tpm_fuzzer.Seeds.Directory.{Text, Directory}
use tpm_fuzzer.Seeds.Variants.{Viewer, create_variant}
use tpm_fuzzer.Seeds.{serialize_sequence, serialize_proto_sequence}

-- `SeedVariants`
abbrev pub SeedVariants : Type 0
SeedVariants = List (List Command)

-- `SeedDefinition`: a command, a list of variants, or a function of no argument that makes one and
-- may raise.
pub data SeedDefinition : Type 0 where
  command : Command → SeedDefinition
  variants : SeedVariants → SeedDefinition
  callable : Result SeedVariants → SeedDefinition

unfoldable pub normalize_variants : SeedDefinition → Result SeedVariants
normalize_variants (command c) = ok ((c ∷ []) ∷ [])
normalize_variants (variants v) = ok v
normalize_variants (callable made) = made

-- The decimal digits of a number; as many rounds as the number and one more are enough.
digits : ℕ → ℕ → Text → Text
digits zero n behind = behind
digits (suc fuel) n behind =
    let more = digits fuel (n / 10) ((b'0' + n % 10) ∷ behind) in
    if ltb n 10 then (b'0' + n) ∷ behind else more

-- `f"{cmd}-variant{i}"`
unfoldable pub variant_name : Text → ℕ → Text
unfolding digits
variant_name cmd i =
    cmd ++ ((b'-' ∷ b'v' ∷ b'a' ∷ b'r' ∷ b'i' ∷ b'a' ∷ b'n' ∷ b't' ∷ []) ++ digits (suc i) i [])

-- The two seed directories.
pub record SeedFiles : Type 0 where
  pub bytes : Directory
  pub protos : Directory

abbrev pub Outcome : Type 0
Outcome = Result (Unit {0}) × SeedFiles

-- The next statement, unless this one raised.
abbrev pub followed_by : Outcome → (SeedFiles → Outcome) → Outcome
followed_by (ok u, files) next = next files
followed_by (raise e, files) next = (raise e, files)

module _ (viewer : Viewer) (render : List Message → Bytes) (timestamp : Text) (force : Bool) where
  -- `_create_variant` in the byte directory, and in the other one
  abbrev pub store_bytes : Text → Bytes → SeedFiles → Outcome
  store_bytes name content files =
      let made = create_variant viewer name timestamp content force false files.bytes in
      (made.0, record { bytes = made.1; protos = files.protos })

  abbrev pub store_proto : Text → Option Bytes → SeedFiles → Outcome
  store_proto name none files = (ok tt, files)
  store_proto name (some content) files =
      let made = create_variant viewer name timestamp content force true files.protos in
      (made.0, record { bytes = files.bytes; protos = made.1 })

  -- The rest of a round, once the sequence is serialized for the proto directory and for both.
  unfoldable pub put_proto : Text → Result (Option Bytes) → SeedFiles → Outcome
  put_proto name (raise e) files = (raise e, files)
  put_proto name (ok proto) files = store_proto name proto files

  unfoldable pub put_both : Text → Result Bytes → Result (Option Bytes) → SeedFiles → Outcome
  put_both name (raise e) proto files = (raise e, files)
  put_both name (ok content) proto files =
      followed_by (store_bytes name content files) (put_proto name proto)

  -- One round of the loop of `_run_commands`. The proto serialization runs after the byte seed is
  -- stored; it reads and changes no file.
  unfoldable pub run_variant : Text → List Command → SeedFiles → Outcome
  run_variant name sequence files =
      put_both name (serialize_sequence sequence) (serialize_proto_sequence render sequence) files

  unfoldable pub run_variants : Text → ℕ → SeedVariants → SeedFiles → Outcome
  run_variants cmd i [] files = (ok tt, files)
  run_variants cmd i (sequence ∷ more) files =
      followed_by (run_variant (variant_name cmd i) sequence files) (run_variants cmd (suc i) more)

  unfoldable pub run_normalized : Text → Result SeedVariants → SeedFiles → Outcome
  run_normalized cmd (raise e) files = (raise e, files)
  run_normalized cmd (ok sequences) files = run_variants cmd 0 sequences files

  -- `_run_commands`
  unfoldable pub run_commands : Text → SeedDefinition → SeedFiles → Outcome
  run_commands cmd definition files = run_normalized cmd (normalize_variants definition) files

  -- The loop of `_generate_seeds` over the items of the dictionary of seeds.
  unfoldable pub generate_seeds : List (Text × SeedDefinition) → SeedFiles → Outcome
  generate_seeds [] files = (ok tt, files)
  generate_seeds ((cmd, definition) ∷ more) files =
      followed_by (run_commands cmd definition files) (generate_seeds more)
