-- ===== src/Command/Parse/SessionsEnd.antt =====
-- The loop of `_proto_sessions` ends on every buffer.
use tpm_fuzzer.Prelude.{
  ℕ, zero, suc, ◌+◌, ◌≤◌, ◌<◌, ◌≡◌, ◌⊎◌, inl, inr, refl, arith, Bool-cases, List, [], ◌∷◌, length,
  ltb, Option-cases, get_elem?, le→ltb_false, ok, raise, index_error,
}
use tpm_fuzzer.Bytes.{Bytes, index}
use tpm_fuzzer.Proto.{TpmSession}
use tpm_fuzzer.Command.Parse.{uint_at, session_at, sessions_loop, proto_sessions}

index-cases : (b : Bytes) (i : ℕ) → ((x : ℕ) × (index b i ≡ ok x)) ⊎ (index b i ≡ raise index_error)
unfolding index
index-cases b i = elim (Option-cases (get_elem? b i)) [
  | inl e ↦ inr (ground (arith, e))
  | inr (x, e) ↦ inl (x, ground (arith, e))
]

-- A round raises IndexError, or moves the offset by nine bytes at least.
session_at-cases :
    (buffer : Bytes) (off : ℕ)
    → ((s : TpmSession) × (next : ℕ) × (off < next) × (session_at buffer off ≡ ok (s, next)))
      ⊎ (session_at buffer off ≡ raise index_error)
unfolding session_at
session_at-cases buffer off = elim (index-cases buffer (off + 4 + 2 + uint_at buffer (off + 4) 2)) [
  | inl (x, e) ↦ rw e (inl (_, _, omega arith, refl))
  | inr e ↦ rw e (inr refl)
]

sessions_loop-cases :
    (fuel : ℕ) (buffer : Bytes) (off : ℕ)
    → length buffer ≤ off + fuel
    → ((sessions : List TpmSession) × (sessions_loop fuel buffer off ≡ ok sessions))
      ⊎ (sessions_loop fuel buffer off ≡ raise index_error)
unfolding sessions_loop
sessions_loop-cases zero buffer off h =
    rw (le→ltb_false off (length buffer) (omega arith)) (inl ([], refl))
sessions_loop-cases (suc fuel) buffer off h = elim (Bool-cases (ltb off (length buffer))) [
  | inl inside ↦ rw inside (elim (session_at-cases buffer off) [
    | inl (s, next, on, e) ↦ rw e (elim (sessions_loop-cases fuel buffer next (omega arith)) [
      | inl (more, e') ↦ rw e' (inl (s ∷ more, refl))
      | inr e' ↦ rw e' (inr refl)
    ])
    | inr e ↦ rw e (inr refl)
  ])
  | inr outside ↦ rw outside (inl ([], refl))
]

-- Whatever the buffer, `_proto_sessions` ends: it returns sessions or raises IndexError.
pub proto_sessions-cases :
    (buffer : Bytes)
    → ((sessions : List TpmSession) × (proto_sessions buffer ≡ ok sessions))
      ⊎ (proto_sessions buffer ≡ raise index_error)
unfolding proto_sessions
proto_sessions-cases buffer = sessions_loop-cases (length buffer) buffer 4 (omega arith)
