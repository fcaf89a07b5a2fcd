-- ===== src/Commands/AuthSession/Symmetric.antt =====
-- The symmetric definition that `TPMStartAuthSession.to_proto` reads back.
use tpm_fuzzer.Prelude.{
  ℕ, ◌+◌, ◌<◌, ◌≡◌, ◌≢◌, ap, ◌∙◌, arith, ◌++◌, drop, append_assoc, ◌==◌, if◌then◌else◌, ok,
}
use native.Mathlib.Decide.{ℕ_discrete}
use tpm_fuzzer.Bytes.{Bytes, big_endian}
use tpm_fuzzer.Bytes.Integers.{to_bytes-cases}
use tpm_fuzzer.Types.Enums.{TpmAlg, alg_value, alg_to_int}
use tpm_fuzzer.Types.Algorithms.{SymDefObject, sym_def_object_bytes}
use tpm_fuzzer.Types.Public.Layout.{sym_tail, sym_def_object-cases}
use tpm_fuzzer.Command.Parse.{uint_at}
use tpm_fuzzer.Command.Parse.Reading.{uint_at-starts, drop_uint}
use tpm_fuzzer.Commands.AuthSession.{parse_symmetric}

-- The key bits and the mode of a symmetric definition, as the message holds them.
unfoldable pub sym_key_bits : SymDefObject → ℕ
sym_key_bits s = if alg_to_int s.algorithm == alg_value TpmAlg.null then 0 else s.key_bits

unfoldable pub sym_mode : SymDefObject → ℕ
sym_mode s =
    if alg_to_int s.algorithm == alg_value TpmAlg.null
    then alg_value TpmAlg.null
    else alg_to_int s.mode

unfoldable pub sym_end : SymDefObject → ℕ → ℕ
sym_end s off = if alg_to_int s.algorithm == alg_value TpmAlg.null then off + 2 else off + 6

module _ (s : SymDefObject) (b : Bytes) (written : sym_def_object_bytes s ≡ ok b) where
  pub sym-ok :
      (alg_to_int s.algorithm < 65536) × (b ≡ big_endian 2 (alg_to_int s.algorithm) ++ sym_tail s)
  sym-ok = ground (arith, sym_def_object-cases s)

  sym_tail-fits :
      alg_to_int s.algorithm ≢ alg_value TpmAlg.null
      → (s.key_bits < 65536) × (alg_to_int s.mode < 65536)
  unfolding sym_def_object_bytes
  sym_tail-fits h = ground (
    arith,
    to_bytes-cases (alg_to_int s.algorithm) 2,
    to_bytes-cases s.key_bits 2,
    to_bytes-cases (alg_to_int s.mode) 2,
  )

  module _ (params : Bytes) (off : ℕ) (rest : Bytes)
      (starts : drop off params
        ≡ big_endian 2 (alg_to_int s.algorithm) ++ (sym_tail s ++ rest)) where
    behind_alg : drop (off + 2) params ≡ sym_tail s ++ rest
    behind_alg = drop_uint params off 2 _ _ starts

    parse_symmetric-null :
        alg_to_int s.algorithm ≡ alg_value TpmAlg.null
        → (parse_symmetric params (alg_to_int s.algorithm) off
            ≡ (sym_key_bits s, sym_mode s, sym_end s off))
          × (drop (sym_end s off) params ≡ rest)
    unfolding parse_symmetric sym_key_bits sym_mode sym_end sym_tail
    parse_symmetric-null e = ground (arith, behind_alg)

    module _ (h : alg_to_int s.algorithm ≢ alg_value TpmAlg.null) where
      sym_tail-other : sym_tail s ≡ big_endian 2 s.key_bits ++ big_endian 2 (alg_to_int s.mode)
      unfolding sym_tail
      sym_tail-other = ground arith

      at_key_bits :
          drop (off + 2) params
          ≡ big_endian 2 s.key_bits ++ (big_endian 2 (alg_to_int s.mode) ++ rest)
      at_key_bits =
          behind_alg
          ∙ ap (λ t. t ++ rest) sym_tail-other
          ∙ append_assoc (big_endian 2 s.key_bits) (big_endian 2 (alg_to_int s.mode)) rest

      reads_key_bits : uint_at params (off + 2) 2 ≡ s.key_bits
      reads_key_bits = uint_at-starts params (off + 2) 2 _ _ (sym_tail-fits h).0 at_key_bits

      at_mode : drop (off + 4) params ≡ big_endian 2 (alg_to_int s.mode) ++ rest
      at_mode =
          let e : off + 2 + 2 ≡ off + 4 = omega arith in
          rw e at (drop_uint params (off + 2) 2 s.key_bits _ at_key_bits)

      reads_mode : uint_at params (off + 4) 2 ≡ alg_to_int s.mode
      reads_mode = uint_at-starts params (off + 4) 2 _ _ (sym_tail-fits h).1 at_mode

      behind_mode : drop (off + 6) params ≡ rest
      behind_mode =
          let e : off + 4 + 2 ≡ off + 6 = omega arith in
          rw e at (drop_uint params (off + 4) 2 (alg_to_int s.mode) _ at_mode)

    parse_symmetric-other :
        alg_to_int s.algorithm ≢ alg_value TpmAlg.null
        → (parse_symmetric params (alg_to_int s.algorithm) off
            ≡ (sym_key_bits s, sym_mode s, sym_end s off))
          × (drop (sym_end s off) params ≡ rest)
    unfolding parse_symmetric sym_key_bits sym_mode sym_end
    parse_symmetric-other h = ground (arith, reads_key_bits h, reads_mode h, behind_mode h)

    pub parse_symmetric-starts :
        (parse_symmetric params (alg_to_int s.algorithm) off
          ≡ (sym_key_bits s, sym_mode s, sym_end s off))
        × (drop (sym_end s off) params ≡ rest)
    parse_symmetric-starts = elim (ℕ_discrete (alg_to_int s.algorithm) (alg_value TpmAlg.null)) [
      | yes e ↦ parse_symmetric-null e
      | no h ↦ parse_symmetric-other h
    ]
