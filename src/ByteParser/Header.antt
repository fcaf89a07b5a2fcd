-- ===== src/ByteParser/Header.antt =====
-- The fields of a serialized command, and the header message of `to_proto`.
use tpm_fuzzer.Prelude.{◌≡◌, ◌∙◌, ap, length, drop, drop-zero, ok}
use tpm_fuzzer.Bytes.{Bytes}
use tpm_fuzzer.Command.{TpmCommand, command_size, command_bytes, proto_header}
use tpm_fuzzer.Command.Parse.{uint_at}
use tpm_fuzzer.Command.Parse.Reading.{uint_at-starts, drop_uint}
use tpm_fuzzer.ByteParser.Frames.{frame, command_bytes-ok, length-frame}

-- A command that serializes has its header message in its first ten bytes: the tag in two, its own
-- length in four and its code in four. The parameters are the rest.
pub command_bytes-proto_header :
    (c : TpmCommand) (b : Bytes)
    → command_bytes c ≡ ok b
    → (uint_at b 0 2 ≡ (proto_header c).tag)
      × (uint_at b 2 4 ≡ (proto_header c).command_size)
      × (length b ≡ (proto_header c).command_size)
      × (uint_at b 6 4 ≡ (proto_header c).command_code)
      × (drop 10 b ≡ c.params)
unfolding proto_header frame
command_bytes-proto_header c b h =
    let (tag_fits, size_fits, code_fits, e) = command_bytes-ok c b h in
    let at_tag : drop 0 b ≡ frame c = drop-zero b ∙ e in
    let at_size = drop_uint b 0 2 c.tag _ at_tag in
    let at_code = drop_uint b 2 4 (command_size c) _ at_size in
    (
      uint_at-starts b 0 2 c.tag _ tag_fits at_tag,
      uint_at-starts b 2 4 (command_size c) _ size_fits at_size,
      ap length e ∙ length-frame c,
      uint_at-starts b 6 4 c.cc _ code_fits at_code,
      drop_uint b 6 4 c.cc _ at_code,
    )
