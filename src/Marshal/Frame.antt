-- ===== src/Marshal/Frame.antt =====
-- What the marshalling of a whole command writes, from what its fields write.
use tpm_fuzzer.Prelude.{
  ℕ, ◌+◌, ◌-◌, ◌%◌, ◌^◌, ◌<◌, ◌≡◌, ◌∙◌, sym, ap, arith, none, some, List, ◌++◌, length,
  length-append, append_assoc, le→ltb_false, ◌==◌, true, if◌then◌else◌,
}
use tpm_fuzzer.Bytes.{Bytes, big_endian}
use tpm_fuzzer.Bytes.Integers.{length-big_endian}
use tpm_fuzzer.Proto.{TpmHeader, TpmSession}
use tpm_fuzzer.Marshal.Tss2.{Mu, IsWireFormat}
use tpm_fuzzer.Marshal.Steps.{max_buffer, resume, rewritten, ◌and_then◌, call, overwrite}
use tpm_fuzzer.Marshal.Structures.{
  marshal_command_header, marshal_sessions, patch_auth_size, marshal_repeated_field,
}
use tpm_fuzzer.Marshal.Writes.{Writes, call-Writes, and_then-Writes, overwrite-same_length}

module _ (mu : Mu) (wire : IsWireFormat mu) where
  pub uint16-Writes : (n : ℕ) → n < 65536 → Writes (call (mu.uint16 n)) (big_endian 2 n)
  uint16-Writes n h =
      call-Writes (mu.uint16 n) (big_endian 2 n) (λ room. wire.writes_uint16 n room h)

  pub uint32-Writes : (n : ℕ) → n < 2 ^ 32 → Writes (call (mu.uint32 n)) (big_endian 4 n)
  uint32-Writes n h =
      call-Writes (mu.uint32 n) (big_endian 4 n) (λ room. wire.writes_uint32 n room h)

  -- The header: ten bytes.
  pub header-Writes :
      (h : TpmHeader)
      → h.tag < 65536
      → h.command_size < 2 ^ 32
      → h.command_code < 2 ^ 32
      → Writes
          (marshal_command_header mu h)
          (big_endian 2 h.tag ++ (big_endian 4 h.command_size ++ big_endian 4 h.command_code))
  unfolding marshal_command_header
  header-Writes h tag_fits size_fits code_fits buf room =
      let w = big_endian 2 h.tag ++ (big_endian 4 h.command_size ++ big_endian 4 h.command_code) in
      let tag : h.tag % 2 ^ 16 ≡ h.tag = omega arith in
      let three =
        and_then-Writes (call (mu.uint16 (h.tag % 2 ^ 16)))
          (call (mu.uint32 h.command_size) and_then call (mu.uint32 h.command_code)) _ _
          (rw tag (uint16-Writes h.tag tag_fits))
          (and_then-Writes (call (mu.uint32 h.command_size)) (call (mu.uint32 h.command_code)) _ _
            (uint32-Writes h.command_size size_fits) (uint32-Writes h.command_code code_fits)) in
      let ten : (length (buf ++ w) - length buf == 10) ≡ true = ground (
        arith,
        length-append buf w,
        length-append (big_endian 2 h.tag)
            (big_endian 4 h.command_size ++ big_endian 4 h.command_code),
        length-append (big_endian 4 h.command_size) (big_endian 4 h.command_code),
        length-big_endian 2 h.tag,
        length-big_endian 4 h.command_size,
        length-big_endian 4 h.command_code,
      ) in
      ap (resume (λ later. if length later - length buf == 10 then some later else none))
        (three buf room)
      ∙ ap (λ t. if t then some (buf ++ w) else none) ten

  -- One session with a handle and nothing else.
  pub sessions-patched :
      (sessions : List TpmSession) (w : Bytes)
      → Writes (marshal_sessions mu sessions) w
      → Writes (marshal_repeated_field mu sessions) (big_endian 4 (length w) ++ w)
  unfolding marshal_repeated_field patch_auth_size
  sessions-patched sessions w hw buf room =
      let zeros = big_endian 4 0 in
      let size = big_endian 4 (length w) in
      let z4 : length zeros ≡ 4 = length-big_endian 4 0 in
      let s4 : length size ≡ 4 = length-big_endian 4 (length w) in
      let fits : length w < 2 ^ 32 = omega (arith, length-append size w) in
      let whole = (buf ++ zeros) ++ w in
      let long : length whole ≡ length buf + 4 + length w =
        omega (arith, z4, length-append (buf ++ zeros) w, length-append buf zeros) in
      let number : (length whole - (length buf + 4)) % 2 ^ 32 ≡ length w =
        omega (arith, long, fits) in
      let patched : patch_auth_size mu (length buf) whole ≡ some (buf ++ (size ++ w)) =
        ap (λ n. rewritten (length buf) whole (mu.uint32 n (max_buffer - length buf))) number
        ∙ (ap (rewritten (length buf) whole) (
              wire.writes_uint32 (length w) (max_buffer - length buf) fits
              ∙ ap (λ t. if t then none else some size)
                  (le→ltb_false (max_buffer - length buf) (length size)
                    (omega (arith, s4, room, length-append size w))))
            ∙ ap some (
                ap (overwrite (length buf) size) (append_assoc buf zeros w)
                ∙ overwrite-same_length buf zeros size w (z4 ∙ sym s4))) in
      ap (resume (marshal_sessions mu sessions and_then patch_auth_size mu (length buf)))
        (uint32-Writes 0 (omega arith) buf (omega (arith, z4, s4, room, length-append size w)))
      ∙ (ap (resume (patch_auth_size mu (length buf))) (
            hw (buf ++ zeros)
              (omega (arith, z4, s4, room, length-append size w, length-append buf zeros)))
          ∙ patched)
