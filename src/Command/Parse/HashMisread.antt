-- ===== src/Command/Parse/HashMisread.antt =====
-- `_proto_public` skips no hash algorithm: what it reads where the scheme carries one.
use tpm_fuzzer.Prelude.{
  ℕ, ◌+◌, ◌-◌, ◌<◌, ◌≡◌, ap, ◌∙◌, arith, ◌++◌, some, length, drop, take, take-append_more,
  drop-append, ok,
}
use tpm_fuzzer.Bytes.{Bytes, big_endian, slice}
use tpm_fuzzer.Bytes.Integers.{length-big_endian}
use tpm_fuzzer.Bytes.Prefixed.{prefixed}
use tpm_fuzzer.Types.Enums.{TpmAlg, alg_value, IntOr, alg_to_int}
use tpm_fuzzer.Types.Algorithms.{KeyedhashParms}
use tpm_fuzzer.Types.Public.{TpmtPublic, scheme_or_default, keyedhash_area, public_2b_bytes}
use tpm_fuzzer.Types.Public.Layout.{keyedhash_hash, hash_suffix, keyedhash_area-ok, public_head}
use tpm_fuzzer.Proto.{PublicParmsMessage, PublicIdMessage}
use tpm_fuzzer.Command.{proto_tpm2b_data}
use tpm_fuzzer.Command.Parse.{parse_tpm2b, proto_public_keyedhash, proto_public}
use tpm_fuzzer.Command.Parse.Reading.{uint_at-starts}
use tpm_fuzzer.Command.Parse.PublicArea.{hash_start, keyedhash_scheme_read}
use tpm_fuzzer.Command.Parse.PublicRoundTrip.{
  public_message, public_2b-ok, union_is_keyedhash, parse_union_keyedhash, read_back, at_union,
}

-- A slice that begins with `n` in two bytes and is as long as these say.
module _ (public : Bytes) (off n : ℕ) (rest : Bytes)
    (starts : drop off public ≡ big_endian 2 n ++ rest) where
  content_after_size : drop 2 (slice public off (off + 2 + n)) ≡ take n rest
  unfolding slice
  content_after_size =
      let width : off + 2 + n - off ≡ length (big_endian 2 n) + n =
        omega (arith, length-big_endian 2 n) in
      rw (width, starts, take-append_more)
        (rw (length-big_endian 2 n) at (drop-append (big_endian 2 n) (take n rest)))

hmac_hash :
    (q : KeyedhashParms) (h : IntOr TpmAlg)
    → alg_to_int q.scheme ≡ alg_value TpmAlg.hmac
    → q.hash_alg ≡ some h
    → keyedhash_hash q ≡ big_endian 2 (alg_to_int h)
unfolding keyedhash_hash hash_suffix
hmac_hash q h is_hmac e = ground arith

-- Where the public area of a keyed hash object has an HMAC scheme with a hash algorithm, the
-- identifier of that algorithm is read as the size of the unique field, and the unique field as
-- that many bytes of the true field with its size.
pub proto_public-hmac :
    (p : TpmtPublic) (q : KeyedhashParms) (h : IntOr TpmAlg) (b : Bytes)
    → alg_to_int p.type ≡ alg_value TpmAlg.keyedhash
    → p.keyedhash_scheme ≡ some q
    → alg_to_int q.scheme ≡ alg_value TpmAlg.hmac
    → q.hash_alg ≡ some h
    → alg_to_int h < 65536
    → public_2b_bytes p ≡ ok b
    → proto_public b
      ≡ ok (
          public_message p (length b - 2) (
            PublicParmsMessage.keyedhash (alg_value TpmAlg.hmac),
            PublicIdMessage.keyedhash (proto_tpm2b_data (take (alg_to_int h) (prefixed p.unique))),
          ))
unfolding proto_public_keyedhash parse_tpm2b proto_tpm2b_data scheme_or_default
proto_public-hmac p q h b is_kh given is_hmac e h_fits ok_b =
    let (rest, u, fits, small, layout) = public_2b-ok p b ok_b in
    let off = 10 + length p.auth_policy in
    let area : keyedhash_area (some q) p.unique ≡ ok rest =
      rw given at (union_is_keyedhash p rest is_kh u) in
    let (s_fits, u_fits, out) = keyedhash_area-ok (some q) p.unique rest area in
    let starts = at_union p fits rest ∙ out in
    let hash : drop (off + 2) (public_head p rest)
        ≡ big_endian 2 (alg_to_int h) ++ prefixed p.unique =
      hash_start (public_head p rest) off _ _ p.unique s_fits starts
      ∙ ap (λ t. t ++ prefixed p.unique) (hmac_hash q h is_hmac e) in
    read_back p fits rest b _ layout (
      parse_union_keyedhash _ (public_head p rest) _ is_kh
      ∙ rw (
        keyedhash_scheme_read (public_head p rest) off _ _ p.unique s_fits starts,
        is_hmac,
        uint_at-starts (public_head p rest) (off + 2) 2 _ _ h_fits hash,
        content_after_size (public_head p rest) (off + 2) _ _ hash,
      ))
