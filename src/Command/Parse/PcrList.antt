-- ===== src/Command/Parse/PcrList.antt =====
-- `_proto_pcr_selection` on the bytes of a TPML_PCR_SELECTION.
use tpm_fuzzer.Prelude.{
  ℕ, ◌+◌, ◌<◌, ◌≡◌, refl, sym, ◌∙◌, arith, List, [], ◌∷◌, ◌++◌, length, drop, drop-zero,
  append_assoc, map, ok, ok-injective, ◌>>=◌, >>=-eq-ok, append-nil, suc, ◌^◌,
}
use tpm_fuzzer.Bytes.{Bytes, big_endian, to_bytes, join}
use tpm_fuzzer.Bytes.Integers.{to_bytes-cases}
use tpm_fuzzer.Bytes.Slices.{index-starts}
use tpm_fuzzer.Bytes.Prefixed.{big_endian-one}
use tpm_fuzzer.Types.Enums.{alg_to_int}
use tpm_fuzzer.Types.Pcr.{PcrSelection, pcr_selection_bytes, pcr_selections_bytes}
use tpm_fuzzer.Proto.{PcrSelectionMessage, PcrSelectionsMessage}
use tpm_fuzzer.Command.Parse.{pcr_selection_loop, proto_pcr_selection}
use tpm_fuzzer.Command.Parse.Reading.{uint_at-starts, drop_uint, slice_at, drop_at}

unfoldable pub pcr_selection_message : PcrSelection → PcrSelectionMessage
pcr_selection_message s = record {
  hash = alg_to_int s.hash;
  sizeof_select = length s.pcr_select;
  pcr_select = s.pcr_select;
}

unfoldable pub pcr_selections_message : List PcrSelection → PcrSelectionsMessage
unfolding pcr_selection_message
pcr_selections_message selections = record {
  count = length selections;
  pcr_selections = map pcr_selection_message selections;
}

pcr_selection-ok :
    (s : PcrSelection) (b : Bytes)
    → pcr_selection_bytes s ≡ ok b
    → (alg_to_int s.hash < 65536)
      × (length s.pcr_select < 256)
      × (b ≡ big_endian 2 (alg_to_int s.hash) ++ (length s.pcr_select ∷ s.pcr_select))
unfolding pcr_selection_bytes
pcr_selection-ok s b h = ground (
  arith,
  to_bytes-cases (alg_to_int s.hash) 2,
  to_bytes-cases (length s.pcr_select) 1,
  big_endian-one (length s.pcr_select),
)

-- One round of the loop, where a selection stands at `off`.
module _ (payload : Bytes) (off hash : ℕ) (select rest : Bytes) (hash_fits : hash < 65536)
    (starts : drop off payload ≡ big_endian 2 hash ++ (length select ∷ (select ++ rest))) where
  at_size : drop (off + 2) payload ≡ length select ∷ (select ++ rest)
  at_size = drop_uint payload off 2 hash _ starts

  at_select : drop (off + 2 + 1) payload ≡ select ++ rest
  at_select = drop_at payload (off + 2) 1 (length select ∷ []) _ refl at_size

  at_next : drop (off + 2 + 1 + length select) payload ≡ rest
  at_next = drop_at payload (off + 2 + 1) (length select) select rest refl at_select

  pcr_loop-step :
      (count : ℕ)
      → pcr_selection_loop (suc count) payload off ≡ (
          pcr_selection_loop count payload (off + 2 + 1 + length select) >>= λ selections.
          ok (
            record { hash = hash; sizeof_select = length select; pcr_select = select }
            ∷ selections))
  unfolding pcr_selection_loop
  pcr_loop-step count = rw (
    uint_at-starts payload off 2 hash _ hash_fits starts,
    index-starts payload (off + 2) (length select) _ at_size,
    slice_at payload (off + 2 + 1) (length select) select rest refl at_select,
  )

pcr_loop-join :
    (selections : List PcrSelection) (body payload : Bytes) (off : ℕ) (rest : Bytes)
    → join pcr_selection_bytes selections ≡ ok body
    → drop off payload ≡ body ++ rest
    → pcr_selection_loop (length selections) payload off ≡ ok (map pcr_selection_message selections)
unfolding join pcr_selection_message
pcr_loop-join [] body payload off rest h starts = unfold pcr_selection_loop in refl
pcr_loop-join (s ∷ more) body payload off rest h starts =
    let (first, e, h') = >>=-eq-ok (pcr_selection_bytes s) _ h in
    let (others, e', h'') = >>=-eq-ok (join pcr_selection_bytes more) _ h' in
    let (hash_fits, size_fits, layout) = pcr_selection-ok s first e in
    let flat : drop off payload
        ≡ big_endian 2 (alg_to_int s.hash)
          ++ (length s.pcr_select ∷ (s.pcr_select ++ (others ++ rest))) =
      starts ∙ flatten first others body rest _ _ (ok-injective h'') layout in
    pcr_loop-step payload off (alg_to_int s.hash) s.pcr_select _ hash_fits flat (length more)
    ∙ rw (
        pcr_loop-join more others payload _ rest e'
          (at_next payload off (alg_to_int s.hash) s.pcr_select _ hash_fits flat))
  where
    flatten :
        (first others body rest : Bytes) (hash : Bytes) (tail : Bytes)
        → first ++ others ≡ body
        → first ≡ hash ++ tail
        → body ++ rest ≡ hash ++ (tail ++ (others ++ rest))
    flatten first others body rest hash tail e l = rw (← e, l) (simp append_assoc)

pub pcr_selections-ok :
    (selections : List PcrSelection) (b : Bytes)
    → pcr_selections_bytes selections ≡ ok b
    → (body : Bytes) × (join pcr_selection_bytes selections ≡ ok body)
      × (length selections < 2 ^ 32)
      × (b ≡ big_endian 4 (length selections) ++ body)
unfolding pcr_selections_bytes
pcr_selections-ok selections b h =
    let (count, e, h') = >>=-eq-ok (to_bytes (length selections) 4) _ h in
    let (body, e', h'') = >>=-eq-ok (join pcr_selection_bytes selections) _ h' in
    (
      body,
      e',
      ground (arith, to_bytes-cases (length selections) 4),
      ground (arith, to_bytes-cases (length selections) 4),
    )

-- Reading back the bytes of a PCR selection list gives the message of its selections.
pub proto_pcr_selection-bytes :
    (selections : List PcrSelection) (b : Bytes)
    → pcr_selections_bytes selections ≡ ok b
    → proto_pcr_selection b ≡ ok (pcr_selections_message selections)
unfolding proto_pcr_selection pcr_selections_message
proto_pcr_selection-bytes selections b h =
    let (body, e, fits, layout) = pcr_selections-ok selections b h in
    let start : drop 0 b ≡ big_endian 4 (length selections) ++ body = drop-zero b ∙ layout in
    let behind : drop 4 b ≡ body ++ [] =
      drop_uint b 0 4 (length selections) body start ∙ sym (append-nil body) in
    rw (
      uint_at-starts b 0 4 (length selections) body fits start,
      pcr_loop-join selections body b 4 [] e behind,
    )
