-- ===== src/Marshal/RsaFields.antt =====
-- The scheme and the RSA key buffer of TPMRSAEncrypt and TPMRSADecrypt, as both sides write them.
use tpm_fuzzer.Prelude.{
  ◌>>=◌, ltb, raise, value_error, ℕ, ◌%◌, ◌^◌, ◌<◌, ◌≤◌, ◌≡◌, ◌∙◌, sym, ap, arith, some, [], ◌++◌,
  length, take_all, if◌then◌else◌, none, append-nil, ok, ok-injective, >>=-eq-ok,
}
use tpm_fuzzer.Bytes.{Bytes, to_bytes, big_endian}
use tpm_fuzzer.Bytes.Prefixed.{prefixed}
use tpm_fuzzer.Types.Enums.{TpmAlg, IntOr, alg_to_int}
use tpm_fuzzer.Proto.{RsaDecryptMessage}
use tpm_fuzzer.Proto.EnumValue.{enum_value-short, enum_value-made}
use tpm_fuzzer.Command.{proto_tpm2b_data}
use tpm_fuzzer.Commands.Keys.{scheme_message, hash_or_zero}
use tpm_fuzzer.Types.Algorithms.{RsaDecryptScheme, append_hash, rsa_decrypt_scheme_bytes}
use tpm_fuzzer.Types.Enums.{alg_value}
use tpm_fuzzer.Prelude.{
  ◌>>=◌, ltb, raise, value_error, subst, Option-cases, Bool-cases, inl, inr, ◌==◌, if◌then◌else◌,
  ◌≢◌, none, take_all, Bool, true, false,
}
use tpm_fuzzer.Marshal.Structures.{marshal_tpmt_rsa_decrypt}
use tpm_fuzzer.Marshal.{marshal_command_field}
use tpm_fuzzer.Marshal.Tss2.{Mu, IsWireFormat}
use tpm_fuzzer.Marshal.Steps.{Step, ◌and_then◌, call, done}
use tpm_fuzzer.Marshal.Fields.{Field}
use tpm_fuzzer.Marshal.Writes.{Writes, done-Writes, call-Writes, and_then-Writes}
use tpm_fuzzer.Marshal.Frame.{uint16-Writes}
use tpm_fuzzer.Marshal.FieldBytes.{to_bytes-ok}

-- A scheme with OAEP has a hash algorithm.
abbrev pub OaepHasHash : RsaDecryptScheme → Type 0
OaepHasHash s = alg_to_int s.scheme ≡ alg_value TpmAlg.oaep → s.hash_alg ≢ none

-- The scheme in a message, with the number 0 for no hash algorithm.
abbrev pub scheme_fields : RsaDecryptScheme → RsaDecryptMessage
scheme_fields s = record { scheme = alg_to_int s.scheme; hash_alg = hash_or_zero s.hash_alg }

-- The message of a scheme that serializes, and a message of the command that is made of it.
pub scheme_message-then {ℓ} :
    {A : Type ℓ} (s : RsaDecryptScheme) (w : Bytes) (f : RsaDecryptMessage → A)
    → rsa_decrypt_scheme_bytes s ≡ ok w
    → (scheme_message s >>= λ x. ok (f x)) >>= (λ m. ok (some m)) ≡ (
        if ltb (hash_or_zero s.hash_alg) (2 ^ 31)
        then ok (some (f (scheme_fields s)))
        else raise value_error)
unfolding scheme_message rsa_decrypt_scheme_bytes
scheme_message-then s w f h =
    let (x, hx, e) = >>=-eq-ok (to_bytes (alg_to_int s.scheme) 2) _ h in
    let (fits, ex) = to_bytes-ok (alg_to_int s.scheme) 2 x hx in
    rw (enum_value-short (alg_to_int s.scheme) fits) (
      enum_value-made (hash_or_zero s.hash_alg)
        (λ n. record { scheme = alg_to_int s.scheme; hash_alg = n }) f)

module _ (mu : Mu) (wire : IsWireFormat mu) where
  -- The two steps of `MarshalTPMTRSADecrypt`.
  abbrev scheme_step : ℕ → Step → Step
  scheme_step alg hash_step =
      call (mu.uint16 alg) and_then (if alg == 0x0017 then hash_step else done)

  scheme_step-Writes :
      (alg : ℕ) (hash_step : Step) (oaep : Bool) (v w : Bytes)
      → alg < 65536
      → (alg == 0x0017) ≡ oaep
      → Writes (if oaep then hash_step else done) v
      → w ≡ big_endian 2 alg ++ v
      → Writes (scheme_step (alg % 2 ^ 16) hash_step) w
  scheme_step-Writes alg hash_step oaep v w fits test hash_writes e =
      let small : alg ≡ alg % 2 ^ 16 = omega arith in
      let last : Writes (if alg == 0x0017 then hash_step else done) v =
        subst (λ t. Writes (if t then hash_step else done) v) (sym test) hash_writes in
      let both : Writes (scheme_step alg hash_step) (big_endian 2 alg ++ v) =
        and_then-Writes (call (mu.uint16 alg)) (if alg == 0x0017 then hash_step else done)
          (big_endian 2 alg) v (uint16-Writes mu wire alg fits) last in
      subst (λ a. Writes (scheme_step a hash_step) w) small
        (subst (λ u. Writes (scheme_step alg hash_step) u) (sym e) both)

  other_scheme :
      (s : RsaDecryptScheme) (w : Bytes)
      → (alg_to_int s.scheme == alg_value TpmAlg.oaep) ≡ false
      → rsa_decrypt_scheme_bytes s ≡ ok w
      → Writes (marshal_tpmt_rsa_decrypt mu (scheme_fields s)) w
  unfolding rsa_decrypt_scheme_bytes marshal_tpmt_rsa_decrypt hash_or_zero
  other_scheme s w other h =
      let (x, hx, e) = >>=-eq-ok (to_bytes (alg_to_int s.scheme) 2) _ h in
      let (fits, ex) = to_bytes-ok (alg_to_int s.scheme) 2 x hx in
      scheme_step-Writes (alg_to_int s.scheme) (call (mu.uint16 (hash_or_zero s.hash_alg % 2 ^ 16)))
        false [] w fits other done-Writes
        (sym (ok-injective (rw other at e)) ∙ (ex ∙ sym (append-nil _)))

  oaep_scheme :
      (scheme hash : IntOr TpmAlg) (w : Bytes)
      → (alg_to_int scheme == alg_value TpmAlg.oaep) ≡ true
      → rsa_decrypt_scheme_bytes (record { scheme = scheme; hash_alg = some hash }) ≡ ok w
      → Writes
          (marshal_tpmt_rsa_decrypt mu
            (scheme_fields (record { scheme = scheme; hash_alg = some hash })))
          w
  unfolding rsa_decrypt_scheme_bytes marshal_tpmt_rsa_decrypt hash_or_zero append_hash
  oaep_scheme scheme hash w oaep h =
      let (x, hx, e) = >>=-eq-ok (to_bytes (alg_to_int scheme) 2) _ h in
      let (fits, ex) = to_bytes-ok (alg_to_int scheme) 2 x hx in
      let (y, hy, e2) = >>=-eq-ok (to_bytes (alg_to_int hash) 2) _ (rw oaep at e) in
      let (hash_fits, ey) = to_bytes-ok (alg_to_int hash) 2 y hy in
      let small2 : alg_to_int hash % 2 ^ 16 ≡ alg_to_int hash = omega arith in
      scheme_step-Writes (alg_to_int scheme) (call (mu.uint16 (alg_to_int hash % 2 ^ 16))) true
        (big_endian 2 (alg_to_int hash)) w fits oaep
        (rw small2 (uint16-Writes mu wire (alg_to_int hash) hash_fits))
        (sym (ok-injective e2)
          ∙ (ap (λ t. t ++ y) ex ∙ ap (λ t. big_endian 2 (alg_to_int scheme) ++ t) ey))

  pub scheme-Writes :
      (s : RsaDecryptScheme) (w : Bytes)
      → OaepHasHash s
      → rsa_decrypt_scheme_bytes s ≡ ok w
      → Writes (marshal_command_field mu (Field.rsa_scheme (scheme_fields s))) w
  unfolding marshal_command_field
  scheme-Writes s w has_hash h = elim (Bool-cases (alg_to_int s.scheme == alg_value TpmAlg.oaep)) [
    | inr other ↦ other_scheme s w other h
    | inl oaep ↦ elim (Option-cases s.hash_alg) [
      | inl absent ↦ absurd (has_hash (ground (arith, oaep)) absent)
      | inr (hash, present) ↦
          let whole : s ≡ record { scheme = s.scheme; hash_alg = some hash } =
            ap (λ o. record { scheme = s.scheme; hash_alg = o }) present in
          subst (λ r. Writes (marshal_tpmt_rsa_decrypt mu (scheme_fields r)) w) (sym whole)
            (oaep_scheme s.scheme hash w oaep
              (subst (λ r. rsa_decrypt_scheme_bytes r ≡ ok w) whole h))
    ]
  ]

  pub rsa_key-Writes :
      (x : Bytes)
      → length x < 65536
      → length x ≤ mu.public_key_rsa_capacity
      → Writes
          (marshal_command_field mu (Field.public_key_rsa_2b (proto_tpm2b_data x)))
          (prefixed x)
  unfolding marshal_command_field proto_tpm2b_data
  rsa_key-Writes x fits room = rw (take_all mu.public_key_rsa_capacity x room) (
      call-Writes (mu.tpm2b_public_key_rsa x) (prefixed x)
        (λ left. wire.writes_public_key_rsa x left room fits))
