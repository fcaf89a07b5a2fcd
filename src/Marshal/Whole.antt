-- ===== src/Marshal/Whole.antt =====
-- `MarshalCommand` on a message whose header is that of a command and whose other fields write its
-- parameters.
use tpm_fuzzer.Prelude.{
  ◌-◌, ◌%◌, ◌^◌, ◌<◌, ◌≤◌, ◌≡◌, ◌∙◌, refl, sym, ap, arith, some, none, List, [], ◌∷◌, ◌++◌, length,
  append_assoc, le→ltb_false, if◌then◌else◌, ok,
}
use tpm_fuzzer.Bytes.{Bytes, big_endian}
use tpm_fuzzer.Bytes.Integers.{length-big_endian}
use tpm_fuzzer.Proto.{Message}
use tpm_fuzzer.Command.{TpmCommand, command_size, command_bytes, proto_header}
use tpm_fuzzer.ByteParser.Frames.{frame, command_bytes-ok, length-frame}
use tpm_fuzzer.Marshal.{
  or_old, marshal_command_field, marshal_tpm_command, patch_command_size, marshal_command,
}
use tpm_fuzzer.Marshal.Tss2.{Mu, IsWireFormat}
use tpm_fuzzer.Marshal.Steps.{max_buffer, resume, rewritten}
use tpm_fuzzer.Marshal.Fields.{Field, fields_of}
use tpm_fuzzer.Marshal.Structures.{marshal_command_header}
use tpm_fuzzer.Marshal.Writes.{Writes, and_then-Writes, overwrite-same_length}
use tpm_fuzzer.Marshal.Frame.{header-Writes}

module _ (mu : Mu) (wire : IsWireFormat mu) where
  -- Writing the size again changes nothing.
  patched :
      (c : TpmCommand) → command_size c ≤ max_buffer → patch_command_size mu (frame c) ≡ frame c
  unfolding patch_command_size frame
  patched c room =
      let size = big_endian 4 (command_size c) in
      let s4 : length size ≡ 4 = length-big_endian 4 (command_size c) in
      let fits : command_size c < 2 ^ 32 = omega arith in
      let number : length (frame c) % 2 ^ 32 ≡ command_size c = omega (arith, length-frame c) in
      ap (λ n. or_old (frame c) (rewritten 2 (frame c) (mu.uint32 n (max_buffer - 2)))) number
      ∙ (ap (λ w. or_old (frame c) (rewritten 2 (frame c) w))
            (wire.writes_uint32 (command_size c) (max_buffer - 2) fits
              ∙ ap (λ t. if t then none else some size)
                  (le→ltb_false (max_buffer - 2) (length size) (omega (arith, s4))))
          ∙ rw (length-big_endian 2 c.tag) at (
              overwrite-same_length (big_endian 2 c.tag) size size (big_endian 4 c.cc ++ c.params)
                refl))

  header_params :
      (c : TpmCommand)
      → (big_endian 2 c.tag ++ (big_endian 4 (command_size c) ++ big_endian 4 c.cc)) ++ c.params
        ≡ frame c
  unfolding frame
  header_params c = simp append_assoc

  pub marshal_command-frame :
      (c : TpmCommand) (m : Message) (rest : List Field) (b : Bytes)
      → fields_of m ≡ Field.header (proto_header c) ∷ rest
      → Writes (marshal_tpm_command mu rest) c.params
      → command_bytes c ≡ ok b
      → length b ≤ max_buffer
      → marshal_command mu m ≡ some b
  unfolding marshal_command marshal_tpm_command marshal_command_field proto_header
  marshal_command-frame c m rest b fields params built room =
      let (tag_fits, size_fits, code_fits, e) = command_bytes-ok c b built in
      let long : length b ≡ command_size c = ap length e ∙ length-frame c in
      let header = big_endian 2 c.tag ++ (big_endian 4 (command_size c) ++ big_endian 4 c.cc) in
      let whole : header ++ c.params ≡ frame c = header_params c in
      let steps =
        and_then-Writes (marshal_command_header mu (proto_header c)) (marshal_tpm_command mu rest)
          header c.params (header-Writes mu wire (proto_header c) tag_fits size_fits code_fits)
          params in
      ap (λ fs. resume (λ buf. some (patch_command_size mu buf)) (marshal_tpm_command mu fs []))
        fields
      ∙ (ap (resume (λ buf. some (patch_command_size mu buf)))
            (steps [] (omega (arith, ap length whole, length-frame c)))
          ∙ ap some (ap (patch_command_size mu) whole ∙ (patched c (omega (arith, long)) ∙ sym e)))
