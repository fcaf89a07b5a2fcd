-- ===== src/Command/Parse/PublicArea.antt =====
-- `_proto_public` on the bytes of a TPM2B_PUBLIC.
use tpm_fuzzer.Prelude.{
  ℕ, ◌+◌, ◌<◌, ◌≡◌, refl, sym, ◌∙◌, arith, [], ◌++◌, length, drop, append-nil, append_assoc, ◌==◌,
  if◌then◌else◌,
}
use tpm_fuzzer.Bytes.{Bytes, big_endian}
use tpm_fuzzer.Bytes.Prefixed.{prefixed, drop-prefixed}
use tpm_fuzzer.Types.Enums.{TpmAlg, alg_value, alg_to_int}
use tpm_fuzzer.Types.Algorithms.{RsaParms}
use tpm_fuzzer.Types.Public.Layout.{sym_tail, length-sym_tail, rsa_hash, rsa_layout, RsaFits}
use tpm_fuzzer.Proto.{PublicParmsMessage, PublicIdMessage}
use tpm_fuzzer.Command.{proto_tpm2b_data}
use tpm_fuzzer.Command.Parse.{uint_at, proto_public_rsa, proto_public_keyedhash}
use tpm_fuzzer.Command.Parse.Reading.{uint_at-starts, drop_uint, drop_at, parse_tpm2b-starts}

module _ (public : Bytes) (off : ℕ) (q : RsaParms) (u : Bytes) (fits : RsaFits q) where
  -- behind the scheme and its hash algorithm
  rsa_tail : Bytes
  rsa_tail = big_endian 2 q.key_bits ++ (big_endian 4 q.exponent ++ prefixed u)

  pub at_scheme : ℕ
  at_scheme = off + (if alg_to_int q.symmetric.algorithm == alg_value TpmAlg.null then 2 else 6)

  rsa_flat :
      rsa_layout q ++ prefixed u
      ≡ big_endian 2 (alg_to_int q.symmetric.algorithm)
        ++ (sym_tail q.symmetric
            ++ (big_endian 2 (alg_to_int q.scheme) ++ (rsa_hash q ++ rsa_tail)))
  unfolding rsa_layout rsa_tail
  rsa_flat = simp append_assoc

  module _ (starts : drop off public ≡ rsa_layout q ++ prefixed u) where
    at_symmetric : uint_at public off 2 ≡ alg_to_int q.symmetric.algorithm
    at_symmetric = uint_at-starts public off 2 _ _ fits.symmetric_fits (starts ∙ rsa_flat)

    scheme_starts :
        drop at_scheme public ≡ big_endian 2 (alg_to_int q.scheme) ++ (rsa_hash q ++ rsa_tail)
    unfolding at_scheme
    scheme_starts =
        let behind : drop (off + 2) public ≡ sym_tail q.symmetric ++ _ =
          drop_uint public off 2 _ _ (starts ∙ rsa_flat) in
        let e : off + 2 + length (sym_tail q.symmetric) ≡ at_scheme =
          omega (arith, length-sym_tail q.symmetric) in
        rw e at (drop_at public (off + 2) _ (sym_tail q.symmetric) _ refl behind)

    behind_scheme : drop (at_scheme + 2) public ≡ rsa_hash q ++ rsa_tail
    behind_scheme = drop_uint public at_scheme 2 _ _ scheme_starts

    module _ (plain : rsa_hash q ≡ []) (u_fits : length u < 65536) where
      key_bits_start : drop (at_scheme + 2) public ≡ rsa_tail
      key_bits_start = rw plain at behind_scheme

      exponent_start : drop (at_scheme + 2 + 2) public ≡ big_endian 4 q.exponent ++ prefixed u
      unfolding rsa_tail
      exponent_start = drop_uint public (at_scheme + 2) 2 q.key_bits _ key_bits_start

      unique_start : drop (at_scheme + 2 + 2 + 4) public ≡ prefixed u ++ []
      unique_start =
          drop_uint public (at_scheme + 2 + 2) 4 q.exponent _ exponent_start
          ∙ sym (append-nil (prefixed u))

      -- With no hash algorithm behind the scheme the parameters and the key are read back.
      pub proto_public_rsa-plain : proto_public_rsa public off ≡ (
        PublicParmsMessage.rsa
            (alg_to_int q.symmetric.algorithm)
            (alg_to_int q.scheme)
            0
            q.key_bits
            q.exponent,
        PublicIdMessage.rsa u,
      )
      unfolding proto_public_rsa at_scheme rsa_tail
      proto_public_rsa-plain = rw (
        at_symmetric,
        uint_at-starts public at_scheme 2 _ _ fits.scheme_fits scheme_starts,
        uint_at-starts public (at_scheme + 2) 2 _ _ fits.key_bits_fits key_bits_start,
        uint_at-starts public (at_scheme + 2 + 2) 4 _ _ fits.exponent_fits exponent_start,
        parse_tpm2b-starts public (at_scheme + 2 + 2 + 4) u [] u_fits unique_start,
        drop-prefixed u,
      )

    -- A hash algorithm behind the scheme is read as the key size.
    pub key_bits_reads_hash :
        (h : ℕ) → h < 65536 → rsa_hash q ≡ big_endian 2 h → uint_at public (at_scheme + 2) 2 ≡ h
    key_bits_reads_hash h h_fits e =
        uint_at-starts public (at_scheme + 2) 2 h _ h_fits (rw e at behind_scheme)

module _ (public : Bytes) (off scheme : ℕ) (hash u : Bytes) (scheme_fits : scheme < 65536)
    (starts : drop off public ≡ (big_endian 2 scheme ++ hash) ++ prefixed u) where
  pub hash_start : drop (off + 2) public ≡ hash ++ prefixed u
  hash_start =
      drop_uint public off 2 scheme _
        (starts ∙ append_assoc (big_endian 2 scheme) hash (prefixed u))

  pub keyedhash_scheme_read : uint_at public off 2 ≡ scheme
  keyedhash_scheme_read =
      uint_at-starts public off 2 scheme _ scheme_fits
        (starts ∙ append_assoc (big_endian 2 scheme) hash (prefixed u))

  pub proto_public_keyedhash-plain :
      hash ≡ []
      → length u < 65536
      → proto_public_keyedhash public off
        ≡ (PublicParmsMessage.keyedhash scheme, PublicIdMessage.keyedhash (proto_tpm2b_data u))
  unfolding proto_public_keyedhash proto_tpm2b_data
  proto_public_keyedhash-plain e u_fits =
      let unique_start : drop (off + 2) public ≡ prefixed u ++ [] =
        (rw e at hash_start) ∙ sym (append-nil (prefixed u)) in
      rw (
        keyedhash_scheme_read,
        parse_tpm2b-starts public (off + 2) u [] u_fits unique_start,
        drop-prefixed u,
      )
