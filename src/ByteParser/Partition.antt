-- ===== src/ByteParser/Partition.antt =====
-- What `parseCommands` does with any input at all.
use tpm_fuzzer.Prelude.{
  ℕ, zero, suc, ◌+◌, ◌-◌, ◌≤◌, ◌<◌, ◌≡◌, ◌∙◌, sym, ap, refl, arith, true, false, Bool-cases, inl,
  inr, List, [], ◌∷◌, ◌++◌, length, take, drop, drop-drop, drop-zero, length-drop, All, ltb,
}
use tpm_fuzzer.Bytes.{Bytes, slice}
use tpm_fuzzer.ByteParser.{header_len, frame_length, parse_loop, parse_commands}

-- The frames one behind the other.
unfoldable pub joined : List Bytes → Bytes
joined [] = []
joined (f ∷ more) = f ++ joined more

take-drop : (n : ℕ) (xs : Bytes) → take n xs ++ drop n xs ≡ xs
unfolding take drop
take-drop zero xs = refl
take-drop (suc n) [] = refl
take-drop (suc n) (x ∷ xs) = ap (λ t. x ∷ t) (take-drop n xs)

length-take : (n : ℕ) (xs : Bytes) → n ≤ length xs → length (take n xs) ≡ n
unfolding take
length-take zero xs h = refl
length-take (suc n) [] h = absurd (omega arith)
length-take (suc n) (x ∷ xs) h = omega (arith, length-take n xs (omega arith))

slice-drop :
    (input : Bytes) (off len : ℕ)
    → slice input off (off + len) ++ drop (off + len) input ≡ drop off input
unfolding slice
slice-drop input off len =
    let width : off + len - off ≡ len = omega arith in
    rw (width, ← drop-drop len off input) (take-drop len (drop off input))

length-slice :
    (input : Bytes) (off len : ℕ)
    → off + len ≤ length input
    → length (slice input off (off + len)) ≡ len
unfolding slice
length-slice input off len h =
    let width : off + len - off ≡ len = omega arith in
    rw width (length-take len (drop off input) (omega (arith, length-drop off input)))

drop_over : (n : ℕ) (xs : Bytes) → length xs ≤ n → drop n xs ≡ []
unfolding drop
drop_over zero [] h = refl
drop_over zero (x ∷ xs) h = absurd (omega arith)
drop_over (suc n) [] h = refl
drop_over (suc n) (x ∷ xs) h = drop_over n xs (omega arith)

-- A round refuses, ends at the end of the input, or takes a frame and goes on behind it.
data Round (input : Bytes) (off : ℕ) : Type 0 where
  refuses : ((fuel : ℕ) → parse_loop (suc fuel) input off ≡ (false, [])) → Round input off
  ends :
      length input ≤ off
      → ((fuel : ℕ) → parse_loop (suc fuel) input off ≡ (true, []))
      → Round input off
  takes :
      header_len ≤ frame_length input off
      → off + frame_length input off ≤ length input
      → ((fuel : ℕ)
          → parse_loop (suc fuel) input off ≡ (
            (parse_loop fuel input (off + frame_length input off)).0,
            slice input off (off + frame_length input off)
                ∷ (parse_loop fuel input (off + frame_length input off)).1,
          ))
      → Round input off

one_step : (input : Bytes) (off : ℕ) → Round input off
unfolding parse_loop
one_step input off = elim (Bool-cases (ltb off (length input))) [
  | inr e ↦ Round.ends (ground (arith, e)) (λ fuel. rw e refl)
  | inl inside ↦ elim (Bool-cases (ltb (length input) (off + header_len))) [
    | inl e ↦ Round.refuses (λ fuel. rw (inside, e) refl)
    | inr a ↦ elim (Bool-cases (ltb (frame_length input off) header_len)) [
      | inl e ↦ Round.refuses (λ fuel. rw (inside, a, e) refl)
      | inr b ↦ elim (Bool-cases (ltb (length input) (off + frame_length input off))) [
        | inl e ↦ Round.refuses (λ fuel. rw (inside, a, b, e) refl)
        | inr c ↦
            Round.takes (ground (arith, b)) (ground (arith, c)) (λ fuel. rw (inside, a, b, c) refl)
      ]
    ]
  ]
]

-- A frame has a header at least.
abbrev pub HasHeader : Bytes → Type 0
HasHeader f = header_len ≤ length f

loop_joined :
    (fuel : ℕ) (input : Bytes) (off : ℕ)
    → (parse_loop fuel input off).0 ≡ true
    → (joined (parse_loop fuel input off).1 ≡ drop off input)
      × All HasHeader (parse_loop fuel input off).1
unfolding joined parse_loop drop
loop_joined zero input off h = cc
loop_joined (suc fuel) input off h = elim (one_step input off) [
  | Round.refuses e ↦ absurd (let no = e fuel in cc)
  | Round.ends over e ↦ rw (e fuel) (sym (drop_over off input over), tt)
  | Round.takes long inside e ↦
      let len = frame_length input off in
      let (rest, headers) = loop_joined fuel input (off + len) (sym (ap (λ o. o.0) (e fuel)) ∙ h) in
      rw (e fuel) (
        ap (λ t. slice input off (off + len) ++ t) rest ∙ slice-drop input off len,
        (omega (arith, length-slice input off len inside), headers),
      )
]

-- More fuel changes nothing.
loop_more :
    (fuel extra : ℕ) (input : Bytes) (off : ℕ)
    → off ≤ length input
    → length input < off + fuel
    → parse_loop (fuel + extra) input off ≡ parse_loop fuel input off
loop_more zero extra input off h enough = absurd (omega arith)
loop_more (suc fuel) extra input off h enough =
    let e0 : suc fuel + extra ≡ suc (fuel + extra) = omega arith in
    elim (one_step input off) [
      | Round.refuses e ↦ rw (e0, e fuel, e (fuel + extra)) refl
      | Round.ends over e ↦ rw (e0, e fuel, e (fuel + extra)) refl
      | Round.takes long inside e ↦
          let more =
            loop_more fuel extra input (off + frame_length input off) inside (omega arith) in
          rw (e0, e fuel, e (fuel + extra), more) refl
    ]

-- Whatever the input, once `parseCommands` accepts it, the commands it returns are the input cut
-- into pieces, and each of them has ten bytes at least.
pub parse_commands-joined :
    (input : Bytes)
    → (parse_commands input).0 ≡ true
    → (joined (parse_commands input).1 ≡ input) × All HasHeader (parse_commands input).1
unfolding parse_commands
parse_commands-joined input h =
    let (all, headers) = loop_joined (suc (length input)) input 0 h in
    (all ∙ drop-zero input, headers)

-- Whatever the input, the loop with any more fuel than `parse_commands` gives it comes to the same:
-- its fuel never runs out.
pub parse_commands_enough :
    (extra : ℕ) (input : Bytes)
    → parse_loop (suc (length input) + extra) input 0 ≡ parse_commands input
unfolding parse_commands
parse_commands_enough extra input =
    loop_more (suc (length input)) extra input 0 (omega arith) (omega arith)
