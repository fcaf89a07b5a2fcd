-- ===== src/ByteParser.antt =====
-- `parseCommands` of src/parser/byte_parser.cc: the harness splits a byte seed into commands.
pub mod Frames
pub mod Header
pub mod Partition
use tpm_fuzzer.Prelude.{
  ℕ, zero, suc, ◌+◌, List, [], ◌∷◌, Bool, true, false, length, ltb, if◌then◌else◌,
}
use tpm_fuzzer.Bytes.{Bytes, from_bytes, slice}

-- `kHeaderTagLen + kHeaderCommandSizeLen + kHeaderCommandCodeLen`
abbrev pub header_len : ℕ
header_len = 2 + 4 + 4

-- `ntohl` of the four bytes behind the tag
unfoldable pub frame_length : Bytes → ℕ → ℕ
frame_length input offset = from_bytes (slice input (offset + 2) (offset + 2 + 4))

-- The loop from `offset` on: the result, and the commands it appends. A round moves the offset by
-- ten bytes at least.
unfoldable pub parse_loop : ℕ → Bytes → ℕ → Bool × List Bytes
parse_loop zero input offset = (false, [])
parse_loop (suc fuel) input offset =
    let len = frame_length input offset in
    let next = parse_loop fuel input (offset + len) in
    let found : Bool × List Bytes = (next.0, slice input offset (offset + len) ∷ next.1) in
    if ltb offset (length input)
    then (if ltb (length input) (offset + header_len)
        then (false, [])
        else if ltb len header_len
        then (false, [])
        else if ltb (length input) (offset + len)
        then (false, [])
        else found)
    else (true, [])

-- `parseCommands`: the length of the input and one more round are fuel enough.
unfoldable pub parse_commands : Bytes → Bool × List Bytes
parse_commands input = parse_loop (suc (length input)) input 0
