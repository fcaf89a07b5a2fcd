-- ===== src/Marshal/Sessions.antt =====
-- The authorization area of one session that has nothing but its handle: what tools/seed-generation
-- and the marshalling write.
use tpm_fuzzer.Prelude.{
  ℕ, ◌^◌, ◌<◌, ◌≡◌, sym, arith, [], ◌∷◌, ◌++◌, ok, ok-injective, Bool-cases, inl, inr, ltb, take,
}
use tpm_fuzzer.Bytes.{Bytes, big_endian, to_bytes, sized, join}
use tpm_fuzzer.Types.Sessions.{auth_command_bytes, auth_area_bytes, single_auth_area}
use tpm_fuzzer.Commands.Hierarchy.{password_session}
use tpm_fuzzer.Marshal.Tss2.{Mu, IsWireFormat}
use tpm_fuzzer.Marshal.Steps.{◌and_then◌, call, raw, done}
use tpm_fuzzer.Marshal.Structures.{marshal_tpm_session, marshal_sessions, marshal_repeated_field}
use tpm_fuzzer.Marshal.Writes.{Writes, done-Writes, raw-Writes, and_then-Writes}
use tpm_fuzzer.Marshal.Frame.{uint16-Writes, uint32-Writes, sessions-patched}

-- Handle, empty nonce, no attributes, empty HMAC.
abbrev pub session_bytes : ℕ → Bytes
session_bytes handle = big_endian 4 handle ++ (0 ∷ 0 ∷ 0 ∷ 0 ∷ 0 ∷ [])

abbrev pub area_of : ℕ → Bytes
area_of handle = 0 ∷ 0 ∷ 0 ∷ 9 ∷ session_bytes handle

pub single_auth_area-area_of :
    (handle : ℕ) (area : Bytes)
    → single_auth_area handle ≡ ok area
    → (handle < 2 ^ 32) × (area ≡ area_of handle)
unfolding single_auth_area auth_area_bytes auth_command_bytes join sized to_bytes big_endian
single_auth_area-area_of handle area h = elim (Bool-cases (ltb handle (2 ^ 32))) [
  | inl small ↦ (ground (arith, small), sym (ok-injective (rw small at h)))
  | inr large ↦ cc (rw large at h)
]

module _ (mu : Mu) (wire : IsWireFormat mu) where
  session-Writes :
      (handle : ℕ)
      → handle < 2 ^ 32
      → Writes (marshal_tpm_session mu (password_session handle)) (session_bytes handle)
  unfolding marshal_tpm_session password_session big_endian take
  session-Writes handle fits =
      let size = call (mu.uint16 0) in
      let zero_size = uint16-Writes mu wire 0 (omega arith) in
      let mac = and_then-Writes size (raw []) _ _ zero_size (raw-Writes []) in
      let attributes =
        and_then-Writes (raw (0 ∷ [])) (size and_then raw []) _ _ (raw-Writes (0 ∷ [])) mac in
      let nonce =
        and_then-Writes (raw []) (raw (0 ∷ []) and_then size and_then raw []) _ _ (raw-Writes [])
          attributes in
      and_then-Writes (call (mu.uint32 handle))
        (size and_then raw [] and_then raw (0 ∷ []) and_then size and_then raw []) _ _
        (uint32-Writes mu wire handle fits)
        (and_then-Writes size (raw [] and_then raw (0 ∷ []) and_then size and_then raw []) _ _
          zero_size nonce)

  pub area-Writes :
      (handle : ℕ)
      → handle < 2 ^ 32
      → Writes (marshal_repeated_field mu (password_session handle ∷ [])) (area_of handle)
  unfolding marshal_sessions big_endian
  area-Writes handle fits =
      sessions-patched mu wire (password_session handle ∷ []) (session_bytes handle) (
        and_then-Writes (marshal_tpm_session mu (password_session handle)) done
          (session_bytes handle) [] (session-Writes handle fits) done-Writes)
