-- ===== src/Bytes.antt =====
-- Python's `bytes` as tools/seed-generation uses it: a list of numbers below 256, integers written
-- and read in big-endian order, slices and single elements.
pub mod Integers
pub mod Slices
pub mod Prefixed
use tpm_fuzzer.Prelude.{
  ℕ, zero, suc, ◌+◌, ◌-◌, ◌*◌, ◌/◌, ◌%◌, ◌^◌, ◌<◌, Option, none, some, List, [], ◌∷◌, ◌++◌, length,
  get_elem?, take, drop, All, ltb, if◌then◌else◌, Result, ok, raise, overflow_error, index_error,
  ◌>>=◌,
}

abbrev pub IsByte : ℕ → Type 0
IsByte b = b < 256

abbrev pub Bytes : Type 0
Bytes = List ℕ

-- The `w` low bytes of `n`, highest first.
unfoldable pub big_endian : ℕ → ℕ → Bytes
big_endian zero n = []
big_endian (suc w) n = big_endian w (n / 256) ++ (n % 256 ∷ [])

-- `n.to_bytes(w, "big")`
unfoldable pub to_bytes : ℕ → ℕ → Result Bytes
to_bytes n w = if ltb n (256 ^ w) then ok (big_endian w n) else raise overflow_error

read_digits : ℕ → Bytes → ℕ
read_digits acc [] = acc
read_digits acc (b ∷ bs) = read_digits (acc * 256 + b) bs

-- `int.from_bytes(bs, "big")`
unfoldable pub from_bytes : Bytes → ℕ
unfolding read_digits
from_bytes bs = read_digits 0 bs

-- `buffer[a:b]`
unfoldable pub slice : Bytes → ℕ → ℕ → Bytes
slice buffer a b = take (b - a) (drop a buffer)

-- `buffer[i]`
unfoldable pub index : Bytes → ℕ → Result ℕ
index buffer i = elim (get_elem? buffer i) [ none ↦ raise index_error | some b ↦ ok b ]

-- `len(x).to_bytes(2, BYTE_ORDER) + x`, the layout that the TPM calls TPM2B.
unfoldable pub sized : Bytes → Result Bytes
sized x = do size ← to_bytes (length x) 2; ok (size ++ x)

-- `b"".join(f(x) for x in xs)`
unfoldable pub join {ℓ} : {A : Type ℓ} → (A → Result Bytes) → List A → Result Bytes
join f [] = ok []
join f (x ∷ xs) = do first ← f x; rest ← join f xs; ok (first ++ rest)
