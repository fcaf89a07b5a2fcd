-- ===== src/Command/Parse/Reading.antt =====
-- Reading at an offset where the buffer is known to go on with a number, a string or a TPM2B buffer.
use tpm_fuzzer.Prelude.{
  ℕ, ◌+◌, ◌^◌, ◌<◌, ◌≡◌, refl, sym, ap, ◌∙◌, arith, ◌++◌, length, drop, append_assoc,
}
use tpm_fuzzer.Bytes.{Bytes, big_endian, from_bytes, slice}
use tpm_fuzzer.Bytes.Integers.{length-big_endian, from_bytes-big_endian}
use tpm_fuzzer.Bytes.Slices.{slice-starts, drop-starts}
use tpm_fuzzer.Bytes.Prefixed.{prefixed, length-prefixed}
use tpm_fuzzer.Command.Parse.{uint_at, parse_tpm2b}

module _ (buffer : Bytes) (off k : ℕ) (x rest : Bytes) where
  pub slice_at : k ≡ length x → drop off buffer ≡ x ++ rest → slice buffer off (off + k) ≡ x
  slice_at e h = rw e (slice-starts buffer off x rest h)

  pub drop_at : k ≡ length x → drop off buffer ≡ x ++ rest → drop (off + k) buffer ≡ rest
  drop_at e h = rw e (drop-starts buffer off x rest h)

module _ (buffer : Bytes) (off w n : ℕ) (rest : Bytes) where
  pub uint_at-starts :
      n < 256 ^ w → drop off buffer ≡ big_endian w n ++ rest → uint_at buffer off w ≡ n
  unfolding uint_at
  uint_at-starts fits h =
      ap from_bytes (slice_at buffer off w (big_endian w n) rest (sym (length-big_endian w n)) h)
      ∙ from_bytes-big_endian w n fits

  pub drop_uint : drop off buffer ≡ big_endian w n ++ rest → drop (off + w) buffer ≡ rest
  drop_uint h = drop_at buffer off w (big_endian w n) rest (sym (length-big_endian w n)) h

module _ (buffer : Bytes) (off : ℕ) (x rest : Bytes) (fits : length x < 65536) where
  pub size_at : drop off buffer ≡ prefixed x ++ rest → uint_at buffer off 2 ≡ length x
  size_at h =
      uint_at-starts buffer off 2 (length x) (x ++ rest) fits
        (h ∙ append_assoc (big_endian 2 (length x)) x rest)

  pub content_at :
      drop off buffer ≡ prefixed x ++ rest → slice buffer (off + 2) (off + 2 + length x) ≡ x
  content_at h = slice_at buffer (off + 2) (length x) x rest refl (
      drop_uint buffer off 2 (length x) (x ++ rest)
        (h ∙ append_assoc (big_endian 2 (length x)) x rest))

  slice_whole :
      2 + length x ≡ length (prefixed x)
      → drop off buffer ≡ prefixed x ++ rest
      → slice buffer off (off + 2 + length x) ≡ prefixed x
  slice_whole e h =
      let assoc : off + 2 + length x ≡ off + (2 + length x) = omega arith in
      rw assoc (slice_at buffer off (2 + length x) (prefixed x) rest e h)

  pub parse_tpm2b-starts :
      drop off buffer ≡ prefixed x ++ rest
      → parse_tpm2b buffer off ≡ (prefixed x, off + 2 + length x)
  unfolding parse_tpm2b
  parse_tpm2b-starts h =
      rw (size_at h) (ap (λ t. (t, off + 2 + length x)) (slice_whole (sym (length-prefixed x)) h))

  pub drop_tpm2b : drop off buffer ≡ prefixed x ++ rest → drop (off + 2 + length x) buffer ≡ rest
  drop_tpm2b h = drop_at buffer (off + 2) (length x) x rest refl (
      drop_uint buffer off 2 (length x) (x ++ rest)
        (h ∙ append_assoc (big_endian 2 (length x)) x rest))
