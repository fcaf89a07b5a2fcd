-- ===== src/ByteParser/Frames.antt =====
-- The harness splits a serialized sequence into exactly the commands that were serialized.
use tpm_fuzzer.Prelude.{
  ℕ, zero, suc, ◌+◌, ◌^◌, ◌≤◌, ◌<◌, ◌≡◌, ◌∙◌, sym, ap, arith, List, [], ◌∷◌, ◌++◌, true, length,
  length-append, length-drop, drop, drop-zero, append_assoc, map, ok, ok-injective, >>=-eq-ok,
}
use tpm_fuzzer.Bytes.{Bytes, big_endian, join}
use tpm_fuzzer.Bytes.Integers.{length-big_endian, to_bytes-cases}
use tpm_fuzzer.Command.{TpmCommand, command_size, command_bytes}
use tpm_fuzzer.Command.Parse.{uint_at}
use tpm_fuzzer.Command.Parse.Reading.{slice_at, drop_at, uint_at-starts, drop_uint}
use tpm_fuzzer.Commands.Instance.{Command, base_of}
use tpm_fuzzer.ByteParser.{frame_length, parse_loop, parse_commands}
use tpm_fuzzer.Seeds.{bytes_of, serialize_sequence}

-- The bytes of a command: tag, size, code and parameters.
unfoldable pub frame : TpmCommand → Bytes
frame c = big_endian 2 c.tag ++ (big_endian 4 (command_size c) ++ (big_endian 4 c.cc ++ c.params))

pub command_bytes-ok :
    (c : TpmCommand) (b : Bytes)
    → command_bytes c ≡ ok b
    → (c.tag < 65536) × (command_size c < 2 ^ 32) × (c.cc < 2 ^ 32) × (b ≡ frame c)
unfolding command_bytes frame
command_bytes-ok c b h =
    ground (arith, to_bytes-cases c.tag 2, to_bytes-cases (command_size c) 4, to_bytes-cases c.cc 4)

pub length-frame : (c : TpmCommand) → length (frame c) ≡ command_size c
unfolding frame command_size
length-frame c = omega (
  arith,
  length-append (big_endian 2 c.tag)
      (big_endian 4 (command_size c) ++ (big_endian 4 c.cc ++ c.params)),
  length-append (big_endian 4 (command_size c)) (big_endian 4 c.cc ++ c.params),
  length-append (big_endian 4 c.cc) c.params,
  length-big_endian 2 c.tag,
  length-big_endian 4 (command_size c),
  length-big_endian 4 c.cc,
)

module _ (input : Bytes) (off : ℕ) (c : TpmCommand) (rest : Bytes) (fits : command_size c < 2 ^ 32)
    (starts : drop off input ≡ frame c ++ rest) where
  flat :
      drop off input
      ≡ big_endian 2 c.tag
        ++ (big_endian 4 (command_size c) ++ (big_endian 4 c.cc ++ (c.params ++ rest)))
  unfolding frame
  flat = starts ∙ simp append_assoc

  reads_size : frame_length input off ≡ command_size c
  unfolding frame_length uint_at
  reads_size =
      uint_at-starts input (off + 2) 4 (command_size c) _ fits (drop_uint input off 2 c.tag _ flat)

  enough_left : off + command_size c ≤ length input
  unfolding command_size
  enough_left =
      omega (
        arith,
        length-drop off input,
        ap length starts,
        length-append (frame c) rest,
        length-frame c,
      )

  loop_step :
      (fuel : ℕ)
      → parse_loop (suc fuel) input off ≡ (
        (parse_loop fuel input (off + command_size c)).0,
        frame c ∷ (parse_loop fuel input (off + command_size c)).1,
      )
  unfolding parse_loop command_size
  loop_step fuel =
      rw
        (
          reads_size,
          slice_at input off (command_size c) (frame c) rest (sym (length-frame c)) starts,
        )
        (ground (arith, enough_left))

loop_done :
    (fuel : ℕ) (input : Bytes) (off : ℕ)
    → drop off input ≡ []
    → parse_loop (suc fuel) input off ≡ (true, [])
unfolding parse_loop
loop_done fuel input off h =
    let done : length input ≤ off = omega (arith, length-drop off input, ap length h) in
    ground arith

loop_frames :
    (commands : List Command) (fuel : ℕ) (input : Bytes) (off : ℕ) (body : Bytes)
    → join bytes_of commands ≡ ok body
    → drop off input ≡ body
    → length commands < fuel
    → parse_loop fuel input off ≡ (true, map (λ c. frame (base_of c)) commands)
unfolding join bytes_of
loop_frames commands zero input off body h starts enough = absurd (omega arith)
loop_frames [] (suc fuel) input off body h starts enough =
    loop_done fuel input off (starts ∙ sym (ok-injective h))
loop_frames (c ∷ more) (suc fuel) input off body h starts enough =
    let (first, e, h') = >>=-eq-ok (command_bytes (base_of c)) _ h in
    let (others, e', h'') = >>=-eq-ok (join bytes_of more) _ h' in
    let (_, fits, _, layout) = command_bytes-ok (base_of c) first e in
    let start : drop off input ≡ frame (base_of c) ++ others =
      starts ∙ sym (ok-injective h'') ∙ ap (λ t. t ++ others) layout in
    loop_step input off (base_of c) others fits start fuel
    ∙ rw (
        loop_frames more fuel input _ others e'
          (drop_at input off (command_size (base_of c)) (frame (base_of c)) others
            (sym (length-frame (base_of c))) start)
          (omega arith))

length-commands :
    (commands : List Command) (body : Bytes)
    → join bytes_of commands ≡ ok body
    → length commands ≤ length body
unfolding join bytes_of command_size
length-commands [] body h = omega arith
length-commands (c ∷ more) body h =
    let (first, e, h') = >>=-eq-ok (command_bytes (base_of c)) _ h in
    let (others, e', h'') = >>=-eq-ok (join bytes_of more) _ h' in
    let (_, _, _, layout) = command_bytes-ok (base_of c) first e in
    omega (
      arith,
      length-commands more others e',
      ap length (ok-injective h''),
      length-append first others,
      ap length layout,
      length-frame (base_of c),
    )

-- Whatever commands the generator serializes into a byte seed, `parseCommands` of the harness
-- accepts the seed and returns the bytes of each command, in order.
pub parse_commands-serialize_sequence :
    (commands : List Command) (seed : Bytes)
    → serialize_sequence commands ≡ ok seed
    → parse_commands seed ≡ (true, map (λ c. frame (base_of c)) commands)
unfolding serialize_sequence parse_commands
parse_commands-serialize_sequence commands seed h =
    loop_frames commands (suc (length seed)) seed 0 seed h (drop-zero seed)
      (omega (arith, length-commands commands seed h))
