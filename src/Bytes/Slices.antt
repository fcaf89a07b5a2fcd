-- ===== src/Bytes/Slices.antt =====
-- Reading at an offset: a buffer from which `off` bytes are dropped starts with what is read there.
use tpm_fuzzer.Prelude.{
  ℕ, zero, suc, ◌+◌, ◌-◌, ◌≡◌, ◌∙◌, sym, arith, [], ◌∷◌, ◌++◌, length, drop, take-append,
  drop-append, drop-drop, ok, get_elem?,
}
use tpm_fuzzer.Bytes.{Bytes, slice, index}

module _ (buffer : Bytes) (off : ℕ) (x rest : Bytes) (starts : drop off buffer ≡ x ++ rest) where
  pub slice-starts : slice buffer off (off + length x) ≡ x
  unfolding slice
  slice-starts =
      let width : off + length x - off ≡ length x = omega arith in
      rw (width, starts) (take-append x rest)

  pub drop-starts : drop (off + length x) buffer ≡ rest
  drop-starts = sym (drop-drop (length x) off buffer) ∙ rw starts (drop-append x rest)

pub index-starts :
    (buffer : Bytes) (off b : ℕ) (rest : Bytes)
    → drop off buffer ≡ b ∷ rest
    → index buffer off ≡ ok b
unfolding index get_elem? drop
index-starts [] zero b rest h = cc
index-starts [] (suc off) b rest h = cc
index-starts (x ∷ xs) zero b rest h = cc
index-starts (x ∷ xs) (suc off) b rest h = index-starts xs off b rest h
