-- ===== src/Prelude/Exceptions.antt =====
-- A Python computation that may raise.
use mathlib.Core.Path.{◌≡◌, refl}
use mathlib.Core.Logic.{◌⊎◌, inl, inr}

-- `diverges` is no Python exception: a loop of the model ran out of its fuel.
pub data Exception : Type 0 where
  overflow_error value_error not_implemented_error index_error called_process_error : Exception
  diverges : Exception

pub data Result {ℓ} (A : Type ℓ) : Type ℓ where
  ok : A → Result A
  raise : Exception → Result A

infixl 5 ◌>>=◌
abbrev pub ◌>>=◌ {ℓ κ} :
    {A : Type ℓ} {B : Type κ} (first : Result A) (rest : A → Result B) → Result B
raise e >>= rest = raise e
ok x >>= rest = rest x

-- A computation that returned did so because its first step returned, and so did the rest.
pub >>=-eq-ok {ℓ κ} :
    {A : Type ℓ} {B : Type κ} (first : Result A) (rest : A → Result B) {out : B}
    → first >>= rest ≡ ok out
    → (x : A) × (first ≡ ok x) × (rest x ≡ ok out)
>>=-eq-ok (raise e) rest returned = cc
>>=-eq-ok (ok x) rest returned = (x, refl, returned)

pub Result-cases {ℓ} :
    {A : Type ℓ} (r : Result A) → ((a : A) × (r ≡ ok a)) ⊎ ((e : Exception) × (r ≡ raise e))
Result-cases (ok a) = inl (a, refl)
Result-cases (raise e) = inr (e, refl)

pub ok-injective {ℓ} : {A : Type ℓ} {a b : A} → ok a ≡ ok b → a ≡ b
ok-injective h = cc

-- The same for four steps in a row.
pub bind4-eq-ok {ℓ κ} :
    {A : Type ℓ} {B : Type κ} (m1 m2 m3 m4 : Result A) (f : A → A → A → A → Result B) {r : B}
    → (m1 >>= λ a. m2 >>= λ b. m3 >>= λ c. m4 >>= λ d. f a b c d) ≡ ok r
    → (a b c d : A) × (m1 ≡ ok a) × (m2 ≡ ok b) × (m3 ≡ ok c) × (m4 ≡ ok d) × (f a b c d ≡ ok r)
bind4-eq-ok (ok a) (ok b) (ok c) (ok d) f h = (a, b, c, d, refl, refl, refl, refl, h)
bind4-eq-ok (raise e) m2 m3 m4 f h = cc
bind4-eq-ok (ok a) (raise e) m3 m4 f h = cc
bind4-eq-ok (ok a) (ok b) (raise e) m4 f h = cc
bind4-eq-ok (ok a) (ok b) (ok c) (raise e) f h = cc

-- And for six.
pub bind6-eq-ok {ℓ κ} :
    {A : Type ℓ} {B : Type κ} (m1 m2 m3 m4 m5 m6 : Result A) (f : A → A → A → A → A → A → Result B)
    {r : B}
    → (m1 >>= λ a. m2 >>= λ b. m3 >>= λ c. m4 >>= λ d. m5 >>= λ e. m6 >>= λ g. f a b c d e g) ≡ ok r
    → (a b c d e g : A) × (m1 ≡ ok a)
      × (m2 ≡ ok b)
      × (m3 ≡ ok c)
      × (m4 ≡ ok d)
      × (m5 ≡ ok e)
      × (m6 ≡ ok g)
      × (f a b c d e g ≡ ok r)
bind6-eq-ok (ok a) (ok b) (ok c) (ok d) m5 m6 f h =
    let (e, p, h') = >>=-eq-ok m5 _ h in
    let (g, q, out) = >>=-eq-ok m6 _ h' in (a, b, c, d, e, g, refl, refl, refl, refl, p, q, out)
bind6-eq-ok (raise e) m2 m3 m4 m5 m6 f h = cc
bind6-eq-ok (ok a) (raise e) m3 m4 m5 m6 f h = cc
bind6-eq-ok (ok a) (ok b) (raise e) m4 m5 m6 f h = cc
bind6-eq-ok (ok a) (ok b) (ok c) (raise e) m5 m6 f h = cc
