-- ===== src/Seeds/Generation/Spots.antt =====
-- The seeds of one variant on the shelves: what a sequence puts there, and what leaves it alone.
use tpm_fuzzer.Prelude.{
  ℕ, zero, suc, ◌+◌, ◌<◌, ◌≤◌, ◌≡◌, ◌∙◌, refl, ap, arith, false, List, [], ◌∷◌, Option, none, some,
  get_elem?, ◌&&◌, ◌==◌, Result, ok, raise,
}
use tpm_fuzzer.Bytes.{Bytes}
use tpm_fuzzer.Proto.{Message}
use tpm_fuzzer.Commands.Instance.{Command}
use tpm_fuzzer.Seeds.Directory.{Text, text_eq}
use tpm_fuzzer.Seeds.Directory.Lookup.{text_eq_refl}
use tpm_fuzzer.Seeds.{serialize_sequence, serialize_proto_sequence}
use tpm_fuzzer.Seeds.Generation.{SeedVariants}
use tpm_fuzzer.Seeds.Generation.Shelf.{Shelf, put_absent}
use tpm_fuzzer.Seeds.Generation.Refinement.{
  Shelves, shelve, shelve_proto, shelve_sequence, shelve_variants, shelve_found,
}

abbrev pub variant_at : Result SeedVariants → ℕ → Option (List Command)
variant_at (raise e) i = none
variant_at (ok sequences) i = get_elem? sequences i

-- The two seeds of one variant, each if there is one.
abbrev pub Spot : Type 0
Spot = Option Bytes × Option Bytes

abbrev pub spot : Shelves → Text → ℕ → Spot
spot shelves cmd i = (shelves.bytes cmd i, shelves.protos cmd i)

abbrev byte_seed : Result Bytes → Option Bytes
byte_seed (ok content) = some content
byte_seed (raise e) = none

abbrev proto_seed : Result (Option Bytes) → Option Bytes
proto_seed (ok proto) = proto
proto_seed (raise e) = none

-- What a sequence is serialized to.
unfoldable pub seeds_of : (List Message → Bytes) → List Command → Spot
seeds_of render sequence =
    (byte_seed (serialize_sequence sequence), proto_seed (serialize_proto_sequence render sequence))

-- No seed of the command from variant `i` on.
abbrev pub FreeFrom : Shelves → Text → ℕ → Type 0
FreeFrom shelves cmd i = (j : ℕ) → i ≤ j → spot shelves cmd j ≡ (none, none)

put_absent_other :
    (cmd other : Text) (i j : ℕ) (content : Bytes) (shelf : Shelf)
    → (text_eq other cmd && (j == i)) ≡ false
    → put_absent cmd i content shelf other j ≡ shelf other j
unfolding put_absent
put_absent_other cmd other i j content shelf h = rw h refl

shelve_other :
    (cmd other : Text) (i j : ℕ) (bytes : Result Bytes) (shelf : Shelf)
    → (text_eq other cmd && (j == i)) ≡ false
    → shelve cmd i bytes shelf other j ≡ shelf other j
unfolding shelve
shelve_other cmd other i j (raise e) shelf h = refl
shelve_other cmd other i j (ok content) shelf h = put_absent_other cmd other i j content shelf h

shelve_proto_other :
    (cmd other : Text) (i j : ℕ) (proto : Result (Option Bytes)) (shelf : Shelf)
    → (text_eq other cmd && (j == i)) ≡ false
    → shelve_proto cmd i proto shelf other j ≡ shelf other j
unfolding shelve_proto
shelve_proto_other cmd other i j (raise e) shelf h = refl
shelve_proto_other cmd other i j (ok none) shelf h = refl
shelve_proto_other cmd other i j (ok (some content)) shelf h =
    put_absent_other cmd other i j content shelf h

put_absent_same :
    (cmd : Text) (i : ℕ) (content : Bytes) (shelf : Shelf)
    → shelf cmd i ≡ none
    → put_absent cmd i content shelf cmd i ≡ some content
unfolding put_absent
put_absent_same cmd i content shelf h = ground (arith, text_eq_refl cmd, h)

shelve_same :
    (cmd : Text) (i : ℕ) (bytes : Result Bytes) (shelf : Shelf)
    → shelf cmd i ≡ none
    → shelve cmd i bytes shelf cmd i ≡ byte_seed bytes
unfolding shelve
shelve_same cmd i (raise e) shelf h = h
shelve_same cmd i (ok content) shelf h = put_absent_same cmd i content shelf h

shelve_proto_same :
    (cmd : Text) (i : ℕ) (proto : Result (Option Bytes)) (shelf : Shelf)
    → shelf cmd i ≡ none
    → shelve_proto cmd i proto shelf cmd i ≡ proto_seed proto
unfolding shelve_proto
shelve_proto_same cmd i (raise e) shelf h = h
shelve_proto_same cmd i (ok none) shelf h = h
shelve_proto_same cmd i (ok (some content)) shelf h = put_absent_same cmd i content shelf h

module _ (render : List Message → Bytes) where
  sequence_other :
      (cmd other : Text) (i j : ℕ) (sequence : List Command) (shelves : Shelves)
      → (text_eq other cmd && (j == i)) ≡ false
      → spot (shelve_sequence render cmd i sequence shelves) other j ≡ spot shelves other j
  unfolding shelve_sequence
  sequence_other cmd other i j sequence shelves h =
      rw
        (
          shelve_other cmd other i j (serialize_sequence sequence) shelves.bytes h,
          shelve_proto_other cmd other i j (serialize_proto_sequence render sequence) shelves.protos
              h,
        )
        refl

  sequence_same :
      (cmd : Text) (i : ℕ) (sequence : List Command) (shelves : Shelves)
      → spot shelves cmd i ≡ (none, none)
      → spot (shelve_sequence render cmd i sequence shelves) cmd i ≡ seeds_of render sequence
  unfolding shelve_sequence seeds_of
  sequence_same cmd i sequence shelves h =
      rw
        (
          shelve_same cmd i (serialize_sequence sequence) shelves.bytes (ap (λ s. s.0) h),
          shelve_proto_same cmd i (serialize_proto_sequence render sequence) shelves.protos
              (ap (λ s. s.1) h),
        )
        refl

  variants_other :
      (cmd other : Text) (i j : ℕ) (sequences : SeedVariants) (shelves : Shelves)
      → text_eq other cmd ≡ false
      → spot (shelve_variants render cmd i sequences shelves) other j ≡ spot shelves other j
  unfolding shelve_variants
  variants_other cmd other i j [] shelves h = refl
  variants_other cmd other i j (sequence ∷ more) shelves h =
      variants_other cmd other (suc i) j more (shelve_sequence render cmd i sequence shelves) h
      ∙ sequence_other cmd other i j sequence shelves (rw h refl)

  -- The earlier variants of the command stay as they are.
  variants_earlier :
      (cmd : Text) (i j : ℕ) (sequences : SeedVariants) (shelves : Shelves)
      → j < i
      → spot (shelve_variants render cmd i sequences shelves) cmd j ≡ spot shelves cmd j
  unfolding shelve_variants
  variants_earlier cmd i j [] shelves h = refl
  variants_earlier cmd i j (sequence ∷ more) shelves h =
      variants_earlier cmd (suc i) j more (shelve_sequence render cmd i sequence shelves)
        (omega arith)
      ∙ sequence_other cmd cmd i j sequence shelves (ground arith)

  variants_own :
      (cmd : Text) (i k : ℕ) (sequences : SeedVariants) (shelves : Shelves)
      (sequence : List Command)
      → FreeFrom shelves cmd i
      → get_elem? sequences k ≡ some sequence
      → spot (shelve_variants render cmd i sequences shelves) cmd (i + k) ≡ seeds_of render sequence
  unfolding shelve_variants get_elem?
  variants_own cmd i zero [] shelves sequence free h = cc
  variants_own cmd i (suc k) [] shelves sequence free h = cc
  variants_own cmd i zero (first ∷ more) shelves sequence free h =
      let e : first ≡ sequence = cc in
      let at_start : i + 0 ≡ i = omega arith in
      rw at_start (
        variants_earlier cmd (suc i) i more (shelve_sequence render cmd i first shelves)
          (omega arith)
        ∙ (sequence_same cmd i first shelves (free i (omega arith)) ∙ ap (seeds_of render) e))
  variants_own cmd i (suc k) (first ∷ more) shelves sequence free h =
      let moved : i + suc k ≡ suc i + k = omega arith in
      rw moved (
        variants_own cmd (suc i) k more (shelve_sequence render cmd i first shelves) sequence
          (λ j le. sequence_other cmd cmd i j first shelves (ground arith) ∙ free j (omega arith))
          h)

  pub found_other :
      (cmd other : Text) (j : ℕ) (found : Result SeedVariants) (shelves : Shelves)
      → text_eq other cmd ≡ false
      → spot (shelve_found render cmd found shelves) other j ≡ spot shelves other j
  unfolding shelve_found
  found_other cmd other j (raise e) shelves h = refl
  found_other cmd other j (ok sequences) shelves h =
      variants_other cmd other 0 j sequences shelves h

  pub found_own :
      (cmd : Text) (i : ℕ) (found : Result SeedVariants) (shelves : Shelves)
      (sequence : List Command)
      → FreeFrom shelves cmd 0
      → variant_at found i ≡ some sequence
      → spot (shelve_found render cmd found shelves) cmd i ≡ seeds_of render sequence
  unfolding shelve_found
  found_own cmd i (raise e) shelves sequence free h = cc
  found_own cmd i (ok sequences) shelves sequence free h =
      let start : 0 + i ≡ i = omega arith in
      rw start at (variants_own cmd 0 i sequences shelves sequence free h)
