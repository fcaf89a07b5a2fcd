-- ===== src/Marshal/CreateLayout.antt =====
-- The layout of a marshalled TPMCreate message.
use tpm_fuzzer.Prelude.{
  ℕ, ◌+◌, ◌-◌, ◌%◌, ◌^◌, ◌<◌, ◌≤◌, ◌≡◌, ◌∙◌, refl, sym, ap, arith, none, some, [], ◌∷◌, ◌++◌,
  length, length-append, append_assoc, drop, le→ltb_false, if◌then◌else◌, ok, ok-injective, Result,
  raise, ◌>>=◌, append-nil,
}
use tpm_fuzzer.Bytes.{Bytes, big_endian}
use tpm_fuzzer.Bytes.Integers.{length-big_endian}
use tpm_fuzzer.Proto.{
  TpmHeader, Message, SensitiveCreateMessage, PublicMessage, Buffer, PcrSelectionsMessage,
}
use tpm_fuzzer.Command.{TpmCommand, proto_header, proto_tpm2b_data}
use tpm_fuzzer.Command.Parse.{
  uint_at, parse_tpm2b, proto_public, proto_pcr_selection, proto_sensitive_create,
}
use tpm_fuzzer.Commands.Creation.{create_to_proto}
use tpm_fuzzer.Marshal.{or_old, marshal_command_field, marshal_tpm_command, patch_command_size}
use tpm_fuzzer.Marshal.Tss2.{Mu, IsWireFormat}
use tpm_fuzzer.Marshal.Steps.{Step, max_buffer, resume, rewritten, ◌and_then◌, call}
use tpm_fuzzer.Marshal.Fields.{Field, fields_of}
use tpm_fuzzer.Marshal.Structures.{marshal_sessions, marshal_command_header, marshal_repeated_field}
use tpm_fuzzer.Marshal.Writes.{Writes, done-Writes, overwrite-same_length}
use tpm_fuzzer.Marshal.Frame.{header-Writes, sessions-patched, uint32-Writes}
use tpm_fuzzer.Marshal.Sessions.{area_of, session_bytes}
use tpm_fuzzer.Marshal.Adds.{tail-Adds}

after_write :
    (first next : Step) (v buf out : Bytes)
    → Writes first v
    → length buf + length v ≤ max_buffer
    → (first and_then next) buf ≡ some out
    → next (buf ++ v) ≡ some out
after_write first next v buf out hv room h = sym (ap (resume next) (hv buf room)) ∙ h

two_reads :
    {A B C : Type 0} (first : Result A) (second : Result B) (f : A → B → C) (out : C)
    → first >>= (λ a. second >>= λ b. ok (f a b)) ≡ ok out
    → (a : A) × (b : B) × (out ≡ f a b)
two_reads (ok a) (ok b) f out h = (a, b, sym (ok-injective h))
two_reads (ok a) (raise e) f out h = cc
two_reads (raise e) second f out h = cc

-- `to_proto` takes the handle from the first four bytes of the parameters, and no session.
pub create_to_proto-shape :
    (base : TpmCommand) (m : Message)
    → create_to_proto base ≡ ok m
    → (s : SensitiveCreateMessage) × (p : PublicMessage) × (d : Buffer) × (q : PcrSelectionsMessage)
      × (m ≡ Message.create (proto_header base) (uint_at base.params 0 4) [] s p d q)
unfolding create_to_proto
create_to_proto-shape base m h =
    let params = base.params in
    let at_sensitive = 4 + 4 + uint_at params 4 4 in
    let at_public = (parse_tpm2b params at_sensitive).1 in
    let at_outside = (parse_tpm2b params at_public).1 in
    let s = proto_sensitive_create (parse_tpm2b params at_sensitive).0 in
    let d = proto_tpm2b_data (drop 2 (parse_tpm2b params at_outside).0) in
    let (p, q, e) =
      two_reads (proto_public (parse_tpm2b params at_public).0)
        (proto_pcr_selection (drop (parse_tpm2b params at_outside).1 params))
        (λ p q. Message.create (proto_header base) (uint_at params 0 4) [] s p d q) m h in
    (s, p, d, q, e)

pub area_nine :
    (handle : ℕ) (tail : Bytes)
    → area_of handle ++ tail ≡ big_endian 4 9 ++ (session_bytes handle ++ tail)
unfolding big_endian
area_nine handle tail = refl

layout_parts :
    (a b c d e w : Bytes)
    → (((a ++ (b ++ c)) ++ d) ++ (e ++ [])) ++ w ≡ a ++ (b ++ (c ++ (d ++ (e ++ w))))
layout_parts a b c d e w = simp (append_assoc, append-nil)

module _ (mu : Mu) (wire : IsWireFormat mu) where
  -- The buffer of a create message without sessions: header, handle, and an empty authorization area.
  pub create_layout :
      (h : TpmHeader) (handle : ℕ) (s : SensitiveCreateMessage) (p : PublicMessage) (d : Buffer)
      (q : PcrSelectionsMessage) (buf : Bytes)
      → h.tag < 65536
      → h.command_size < 2 ^ 32
      → h.command_code < 2 ^ 32
      → handle < 2 ^ 32
      → marshal_tpm_command mu (fields_of (Message.create h handle [] s p d q)) [] ≡ some buf
      → (w : Bytes) × (buf
          ≡ big_endian 2 h.tag
            ++ (big_endian 4 h.command_size
                ++ (big_endian 4 h.command_code ++ (big_endian 4 handle ++ (big_endian 4 0 ++ w)))))
  unfolding marshal_tpm_command marshal_command_field marshal_sessions fields_of
  create_layout h handle s p d q buf tag_fits size_fits code_fits handle_fits run =
      let head =
        big_endian 2 h.tag ++ (big_endian 4 h.command_size ++ big_endian 4 h.command_code) in
      let tail = marshal_tpm_command mu (
        Field.sensitive_create s
        ∷ Field.public_area p
        ∷ Field.data_2b d
        ∷ Field.pcr_selection q
        ∷ []) in
      let h10 : length head ≡ 10 = omega (
        arith,
        length-append (big_endian 2 h.tag)
            (big_endian 4 h.command_size ++ big_endian 4 h.command_code),
        length-append (big_endian 4 h.command_size) (big_endian 4 h.command_code),
        length-big_endian 2 h.tag,
        length-big_endian 4 h.command_size,
        length-big_endian 4 h.command_code,
      ) in
      let sessions = marshal_repeated_field mu [] in
      let at_handle =
        after_write (marshal_command_header mu h)
          (call (mu.uint32 handle) and_then sessions and_then tail) head [] buf
          (header-Writes mu wire h tag_fits size_fits code_fits) (omega (arith, h10)) run in
      let at_sessions =
        after_write (call (mu.uint32 handle)) (sessions and_then tail) (big_endian 4 handle) head
          buf (uint32-Writes mu wire handle handle_fits)
          (omega (arith, h10, length-big_endian 4 handle)) at_handle in
      let at_tail =
        after_write sessions tail (big_endian 4 0 ++ []) (head ++ big_endian 4 handle) buf
          (sessions-patched mu wire [] [] done-Writes)
          (omega (
            arith,
            h10,
            length-append head (big_endian 4 handle),
            length-big_endian 4 handle,
            length-append (big_endian 4 0) [],
            length-big_endian 4 0,
          ))
          at_sessions in
      let (w, e) = tail-Adds mu s p d q _ buf at_tail in
      (
        w,
        e
            ∙ layout_parts (big_endian 2 h.tag) (big_endian 4 h.command_size)
                (big_endian 4 h.command_code) (big_endian 4 handle) (big_endian 4 0) w,
      )

  -- The size is written again, and nothing else.
  pub patch_layout :
      (tag size rest : Bytes)
      → length tag ≡ 2
      → length size ≡ 4
      → (w : Bytes) × (length w ≡ 4)
        × (patch_command_size mu (tag ++ (size ++ rest)) ≡ tag ++ (w ++ rest))
  unfolding patch_command_size
  patch_layout tag size rest t2 s4 =
      let buf = tag ++ (size ++ rest) in
      let w = big_endian 4 (length buf % 2 ^ 32) in
      let w4 : length w ≡ 4 = length-big_endian 4 (length buf % 2 ^ 32) in
      (
        w,
        w4,
        ap (λ r. or_old buf (rewritten 2 buf r))
              (wire.writes_uint32 (length buf % 2 ^ 32) (max_buffer - 2) (omega arith)
                ∙ ap (λ t. if t then none else some w)
                    (le→ltb_false (max_buffer - 2) (length w) (omega (arith, w4))))
            ∙ rw t2 at (overwrite-same_length tag size w rest (s4 ∙ sym w4)),
      )
