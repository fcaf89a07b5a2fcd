-- ===== src/Bytes/Prefixed.antt =====
-- Buffers behind their two-byte size.
use tpm_fuzzer.Prelude.{
  ℕ, ◌+◌, ◌<◌, ◌≡◌, arith, [], ◌∷◌, ◌++◌, length, drop, length-append, drop-append, All, All-append,
  ok, raise, overflow_error, ◌⊎◌, inl, inr, ◌≤◌,
}
use tpm_fuzzer.Bytes.{IsByte, Bytes, big_endian, sized}
use tpm_fuzzer.Bytes.Integers.{
  length-big_endian, big_endian-IsByte, to_bytes-cases, to_bytes-fits, to_bytes-overflow,
}

-- The layout of a TPM2B structure.
abbrev pub prefixed : Bytes → Bytes
prefixed x = big_endian 2 (length x) ++ x

pub sized-cases :
    (x : Bytes)
    → ((length x < 65536) × (sized x ≡ ok (prefixed x)))
      ⊎ ((65536 ≤ length x) × (sized x ≡ raise overflow_error))
unfolding sized
sized-cases x = elim (to_bytes-cases (length x) 2) [
  | inl (fits, e) ↦ inl (fits, rw e)
  | inr (wide, e) ↦ inr (wide, rw e)
]

pub sized-fits : (x : Bytes) → length x < 65536 → sized x ≡ ok (prefixed x)
unfolding sized
sized-fits x h = rw (to_bytes-fits (length x) 2 h)

pub sized-overflow : (x : Bytes) → 65536 ≤ length x → sized x ≡ raise overflow_error
unfolding sized
sized-overflow x h = rw (to_bytes-overflow (length x) 2 h)

pub length-prefixed : (x : Bytes) → length (prefixed x) ≡ 2 + length x
length-prefixed x =
    omega (arith, length-append (big_endian 2 (length x)) x, length-big_endian 2 (length x))

pub drop-prefixed : (x : Bytes) → drop 2 (prefixed x) ≡ x
drop-prefixed x = rw (length-big_endian 2 (length x)) at (drop-append (big_endian 2 (length x)) x)

pub prefixed-IsByte : (x : Bytes) → All IsByte x → All IsByte (prefixed x)
prefixed-IsByte x h =
    All-append IsByte (big_endian 2 (length x)) x (big_endian-IsByte 2 (length x)) h

pub big_endian-one : (n : ℕ) → n < 256 → big_endian 1 n ≡ n ∷ []
unfolding big_endian
big_endian-one n h = ground arith
