-- ===== src/Proto/EnumValue.antt =====
-- Numbers in the fields of the protobuf enumerations of include/proto/constants: which are taken.
use tpm_fuzzer.Prelude.{
  ℕ, ◌^◌, ◌<◌, ◌≡◌, arith, ltb, ◌&&◌, if◌then◌else◌, some, ok, raise, value_error, ◌>>=◌,
}
use tpm_fuzzer.Proto.Constants.{enum_value}

pub enum_value-ok : (n m : ℕ) → enum_value n ≡ ok m → m ≡ n
unfolding enum_value
enum_value-ok n m h = ground arith

pub enum_value-short : (n : ℕ) → n < 65536 → enum_value n ≡ ok n
unfolding enum_value
enum_value-short n h = ground arith

-- One number: the message that is made of it.
pub enum_value-then {ℓ} :
    {A : Type ℓ} (n : ℕ) (f : ℕ → A)
    → (enum_value n >>= λ x. ok (f x)) >>= (λ m. ok (some m))
      ≡ (if ltb n (2 ^ 31) then ok (some (f n)) else raise value_error)
unfolding enum_value
enum_value-then n f = ground arith

-- Two numbers: both have to be in range.
pub enum_value-both {ℓ} :
    {A : Type ℓ} (m n : ℕ) (f : ℕ → ℕ → A)
    → (enum_value m >>= λ x. enum_value n >>= λ y. ok (f x y)) >>= (λ m. ok (some m))
      ≡ (if ltb m (2 ^ 31) && ltb n (2 ^ 31) then ok (some (f m n)) else raise value_error)
unfolding enum_value
enum_value-both m n f = ground arith

-- One number: a part of a message, and the message that is made of it.
pub enum_value-made {ℓ κ} :
    {A : Type ℓ} {B : Type κ} (n : ℕ) (f : ℕ → A) (g : A → B)
    → ((enum_value n >>= λ x. ok (f x)) >>= λ x. ok (g x)) >>= (λ m. ok (some m))
      ≡ (if ltb n (2 ^ 31) then ok (some (g (f n))) else raise value_error)
unfolding enum_value
enum_value-made n f g = ground arith
