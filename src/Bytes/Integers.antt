-- ===== src/Bytes/Integers.antt =====
-- Integers in big-endian bytes: the round trip, and what `to_bytes` returns.
use native.Mathlib.Nat.{pow-suc}
use tpm_fuzzer.Prelude.{
  ℕ, zero, suc, ◌+◌, ◌*◌, ◌/◌, ◌%◌, ◌^◌, ◌≤◌, ◌<◌, ◌≡◌, refl, arith, [], ◌∷◌, ◌++◌, length,
  length-append, All, All-append, ok, raise, overflow_error, ltb, Bool-cases, ◌⊎◌, inl, inr,
}
use tpm_fuzzer.Bytes.{IsByte, Bytes, big_endian, to_bytes, read_digits, from_bytes}

pub length-big_endian : (w n : ℕ) → length (big_endian w n) ≡ w
unfolding big_endian
length-big_endian zero n = refl
length-big_endian (suc w) n =
    omega
      (arith, length-append (big_endian w (n / 256)) (n % 256 ∷ []), length-big_endian w (n / 256))

pub big_endian-IsByte : (w n : ℕ) → All IsByte (big_endian w n)
unfolding big_endian
big_endian-IsByte zero n = tt
big_endian-IsByte (suc w) n =
    All-append IsByte (big_endian w (n / 256)) _ (big_endian-IsByte w (n / 256)) (omega arith)

read_digits-append :
    (acc : ℕ) (xs ys : Bytes) → read_digits acc (xs ++ ys) ≡ read_digits (read_digits acc xs) ys
unfolding read_digits
read_digits-append acc [] ys = refl
read_digits-append acc (x ∷ xs) ys = read_digits-append (acc * 256 + x) xs ys

div_lt : (w n : ℕ) → n < 256 ^ suc w → n / 256 < 256 ^ w
div_lt w n h = omega (arith, pow-suc 256 w)

pub from_bytes-big_endian : (w n : ℕ) → n < 256 ^ w → from_bytes (big_endian w n) ≡ n
unfolding from_bytes big_endian
from_bytes-big_endian zero n h = omega arith
from_bytes-big_endian (suc w) n h = omega (
  arith,
  read_digits-append 0 (big_endian w (n / 256)) (n % 256 ∷ []),
  from_bytes-big_endian w (n / 256) (div_lt w n h),
)

pub to_bytes-fits : (n w : ℕ) → n < 256 ^ w → to_bytes n w ≡ ok (big_endian w n)
unfolding to_bytes
to_bytes-fits n w h = ground arith

pub to_bytes-overflow : (n w : ℕ) → 256 ^ w ≤ n → to_bytes n w ≡ raise overflow_error
unfolding to_bytes
to_bytes-overflow n w h = ground arith

-- `to_bytes` writes the number in big-endian order when it fits, and raises otherwise.
pub to_bytes-cases :
    (n w : ℕ)
    → ((n < 256 ^ w) × (to_bytes n w ≡ ok (big_endian w n)))
      ⊎ ((256 ^ w ≤ n) × (to_bytes n w ≡ raise overflow_error))
unfolding to_bytes
to_bytes-cases n w = elim (Bool-cases (ltb n (256 ^ w))) [
  | inl fits ↦ inl (ground arith, ground arith)
  | inr wide ↦ inr (ground arith, ground arith)
]
