-- ===== src/Seeds/Generation/Naming.antt =====
-- The file names of different variants do not collide.
use tpm_fuzzer.Prelude.{
  ℕ, zero, suc, ◌+◌, ◌*◌, ◌/◌, ◌%◌, ◌<◌, ◌-◌, ◌≡◌, ◌≢◌, ◌∙◌, sym, ap, refl, arith, true, Bool-cases,
  inl, inr, [], ◌∷◌, ◌++◌, All, append_assoc, ltb, ◌==◌,
}
use tpm_fuzzer.Seeds.Directory.{Text, starts_with}
use tpm_fuzzer.Seeds.Variants.{variant_prefix, variant_path}
use tpm_fuzzer.Seeds.Generation.{digits, variant_name}

-- A character that is no dash.
abbrev pub IsPlain : ℕ → Type 0
IsPlain c = c ≢ b'-'

-- The number that a text of digits spells, behind the number `acc`.
read_decimal : ℕ → Text → ℕ
read_decimal acc [] = acc
read_decimal acc (c ∷ cs) = read_decimal (acc * 10 + (c - b'0')) cs

read_decimal-digits :
    (fuel n : ℕ) (behind : Text)
    → n < fuel
    → read_decimal 0 (digits fuel n behind) ≡ read_decimal n behind
unfolding digits read_decimal
read_decimal-digits zero n behind h = absurd (omega arith)
read_decimal-digits (suc fuel) n behind h = elim (Bool-cases (ltb n 10)) [
  | inl small ↦ rw small (ap (λ k. read_decimal k behind) (omega arith))
  | inr large ↦
      let ge : 10 < suc n = ground (arith, large) in
      rw large (
        read_decimal-digits fuel (n / 10) ((b'0' + n % 10) ∷ behind) (omega arith)
        ∙ ap (λ k. read_decimal k behind) (omega arith))
]

digits-IsPlain :
    (fuel n : ℕ) (behind : Text)
    → n < fuel
    → All IsPlain behind
    → All IsPlain (digits fuel n behind)
unfolding digits
digits-IsPlain zero n behind h plain = plain
digits-IsPlain (suc fuel) n behind h plain = elim (Bool-cases (ltb n 10)) [
  | inl small ↦ rw small ((λ e. omega arith), plain)
  | inr large ↦
      let ge : 10 < suc n = ground (arith, large) in
      rw large (
        digits-IsPlain fuel (n / 10) ((b'0' + n % 10) ∷ behind) (omega arith)
          ((λ e. omega arith), plain))
]

-- Up to their first dash two texts agree, if one with its dash starts the other.
starts_with-dash :
    (a b p q : Text)
    → All IsPlain a
    → All IsPlain b
    → starts_with (b ++ (b'-' ∷ q)) (a ++ (b'-' ∷ p)) ≡ true
    → (a ≡ b) × (starts_with q p ≡ true)
unfolding starts_with
starts_with-dash [] [] p q ha hb h = (refl, h)
starts_with-dash [] (c ∷ b) p q ha (d1, hb) h = absurd (ground arith)
starts_with-dash (c ∷ a) [] p q (d0, ha) hb h = absurd (ground arith)
starts_with-dash (c ∷ a) (d ∷ b) p q (d0, ha) (d1, hb) h = elim (Bool-cases (d == c)) [
  | inl same ↦
      let (e, rest) = starts_with-dash a b p q ha hb (rw same at h) in
      let first : d ≡ c = ground (arith, same) in (cc, rest)
  | inr other ↦ cc (rw other at h)
]

-- `variant` and the digits behind it
abbrev tail_of : ℕ → Text
tail_of i = (b'v' ∷ b'a' ∷ b'r' ∷ b'i' ∷ b'a' ∷ b'n' ∷ b't' ∷ []) ++ digits (suc i) i []

tail_of-IsPlain : (i : ℕ) → All IsPlain (tail_of i)
tail_of-IsPlain i = (
  (λ e. omega arith),
  (
    (λ e. omega arith),
    (
      (λ e. omega arith),
      (
        (λ e. omega arith),
        (
          (λ e. omega arith),
          ((λ e. omega arith), ((λ e. omega arith), digits-IsPlain (suc i) i [] (omega arith) tt)),
        ),
      ),
    ),
  ),
)

tail_of-injective : (i j : ℕ) → tail_of i ≡ tail_of j → i ≡ j
unfolding read_decimal
tail_of-injective i j h =
    let e : digits (suc i) i [] ≡ digits (suc j) j [] = cc in
    sym (read_decimal-digits (suc i) i [] (omega arith))
    ∙ (ap (read_decimal 0) e ∙ read_decimal-digits (suc j) j [] (omega arith))

path_parts :
    (cmd : Text) (i : ℕ) (timestamp : Text)
    → variant_path (variant_name cmd i) timestamp
      ≡ cmd ++ (b'-' ∷ (tail_of i ++ (b'-' ∷ timestamp)))
unfolding variant_name
path_parts cmd i timestamp = simp append_assoc

prefix_parts :
    (cmd : Text) (i : ℕ)
    → variant_prefix (variant_name cmd i) ≡ cmd ++ (b'-' ∷ (tail_of i ++ (b'-' ∷ [])))
unfolding variant_name
prefix_parts cmd i = simp append_assoc

-- The file name of a variant starts with the prefix of another one only if they are the same, for
-- command names without a dash.
pub variant_path-prefix :
    (cmd other : Text) (i j : ℕ) (timestamp : Text)
    → All IsPlain cmd
    → All IsPlain other
    → starts_with
        (variant_path (variant_name other j) timestamp)
        (variant_prefix (variant_name cmd i))
      ≡ true
    → (cmd ≡ other) × (i ≡ j)
variant_path-prefix cmd other i j timestamp plain plain' h =
    let whole = rw (path_parts other j timestamp, prefix_parts cmd i) at h in
    let (e, rest) = starts_with-dash cmd other _ _ plain plain' whole in
    let (e', rest') =
      starts_with-dash (tail_of i) (tail_of j) [] timestamp (tail_of-IsPlain i) (tail_of-IsPlain j)
        rest in
    (e, tail_of-injective i j e')
