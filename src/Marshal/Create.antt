-- ===== src/Marshal/Create.antt =====
-- TPMCreate: the authorization area of its byte seed, and of its message when it is marshalled.
use tpm_fuzzer.Prelude.{
  ℕ, ◌^◌, ◌<◌, ◌≡◌, ◌∙◌, sym, ap, arith, Option, some, Option-cases, inl, inr, [], ◌++◌, drop-zero,
  ok, >>=-eq-ok,
}
use tpm_fuzzer.Bytes.{Bytes, big_endian}
use tpm_fuzzer.Bytes.Integers.{length-big_endian}
use tpm_fuzzer.Types.Enums.{TpmAlg, TpmRs, TpmaObject, IntOr, rs_to_int}
use tpm_fuzzer.Types.Attributes.{Attributes}
use tpm_fuzzer.Types.Algorithms.{RsaParms, KeyedhashParms}
use tpm_fuzzer.Proto.{Message, SensitiveCreateMessage, PublicMessage, Buffer, PcrSelectionsMessage}
use tpm_fuzzer.Command.{TpmCommand, command_bytes, proto_header}
use tpm_fuzzer.Command.Parse.{uint_at}
use tpm_fuzzer.Command.Parse.Reading.{uint_at-starts, drop_uint, drop_at}
use tpm_fuzzer.Commands.{to_proto}
use tpm_fuzzer.Commands.Instance.{Command, base_of}
use tpm_fuzzer.Commands.Creation.{tpm_create, create_to_proto}
use tpm_fuzzer.Commands.Creation.Layout.{creation_tail}
use tpm_fuzzer.Commands.Creation.CreateMessage.{tpm_create-ok}
use tpm_fuzzer.ByteParser.Frames.{command_bytes-ok}
use tpm_fuzzer.ByteParser.Header.{command_bytes-proto_header}
use tpm_fuzzer.Seeds.{bytes_of}
use tpm_fuzzer.Proto.Constants.{st_sessions, cc_create}
use tpm_fuzzer.Marshal.{marshal_tpm_command, patch_command_size, marshal_command}
use tpm_fuzzer.Marshal.Tss2.{Mu, IsWireFormat}
use tpm_fuzzer.Marshal.Steps.{resume}
use tpm_fuzzer.Marshal.Fields.{fields_of}
use tpm_fuzzer.Marshal.Sessions.{single_auth_area-area_of}
use tpm_fuzzer.Marshal.CreateLayout.{create_to_proto-shape, area_nine, create_layout, patch_layout}

module _ (mu : Mu) (wire : IsWireFormat mu) where
  -- What is at offset 14 of the output for a message without sessions: the size of the authorization area.
  create_area :
      (base : TpmCommand) (handle : ℕ) (s : SensitiveCreateMessage) (p : PublicMessage) (d : Buffer)
      (q : PcrSelectionsMessage) (out : Bytes)
      → (proto_header base).tag < 65536
      → (proto_header base).command_size < 2 ^ 32
      → (proto_header base).command_code < 2 ^ 32
      → handle < 2 ^ 32
      → marshal_command mu (Message.create (proto_header base) handle [] s p d q) ≡ some out
      → uint_at out 14 4 ≡ 0
  unfolding marshal_command
  create_area base handle s p d q out tag_fits size_fits code_fits handle_fits h =
      let m = Message.create (proto_header base) handle [] s p d q in
      elim (Option-cases (marshal_tpm_command mu (fields_of m) [])) [
        | inl failed ↦ cc (sym (ap (resume (λ buf. some (patch_command_size mu buf))) failed) ∙ h)
        | inr (buf, e) ↦
            let (w, layout) =
              create_layout mu wire (proto_header base) handle s p d q buf tag_fits size_fits
                code_fits handle_fits e in
            let tag = big_endian 2 (proto_header base).tag in
            let rest =
              big_endian 4 (proto_header base).command_code
              ++ (big_endian 4 handle ++ (big_endian 4 0 ++ w)) in
            let (size, size4, patched) =
              patch_layout mu wire tag (big_endian 4 (proto_header base).command_size) rest
                (length-big_endian 2 (proto_header base).tag)
                (length-big_endian 4 (proto_header base).command_size) in
            let whole : some out ≡ some (tag ++ (size ++ rest)) =
              sym h
              ∙ (ap (resume (λ buf. some (patch_command_size mu buf))) e
                  ∙ ap some (ap (patch_command_size mu) layout ∙ patched)) in
            let out_layout : out ≡ tag ++ (size ++ rest) = cc whole in
            let at_size =
              drop_uint out 0 2 (proto_header base).tag _ (drop-zero out ∙ out_layout) in
            let at_code = drop_at out 2 4 size rest (sym size4) at_size in
            let at_handle = drop_uint out 6 4 (proto_header base).command_code _ at_code in
            let at_area = drop_uint out 10 4 handle _ at_handle in
            uint_at-starts out 14 4 0 w (omega arith) at_area
      ]

  -- The message that `to_proto` reads for a TPMCreate command has lost the session. If the command
  -- serializes, has a message and `MarshalCommand` writes it, with integers of tss2 in their
  -- documented format, then the size of the authorization area is 9 in the bytes of the command and
  -- 0 in what is written.
  pub marshal_command-tpm_create :
      (parent_handle : ℕ) (session_handle : IntOr TpmRs) (hash_alg key_type : TpmAlg) (key_bits : ℕ)
      (object_attributes : Option (Attributes TpmaObject)) (rsa_parameters : Option RsaParms)
      (keyedhash_scheme : Option KeyedhashParms) (sensitive_data : Bytes) (c : Command) (b : Bytes)
      (m : Message) (out : Bytes)
      → tpm_create parent_handle session_handle hash_alg key_type key_bits object_attributes
          rsa_parameters keyedhash_scheme sensitive_data
        ≡ ok c
      → bytes_of c ≡ ok b
      → to_proto c ≡ ok (some m)
      → marshal_command mu m ≡ some out
      → (uint_at b 14 4 ≡ 9) × (uint_at out 14 4 ≡ 0)
  unfolding bytes_of base_of to_proto proto_header
  marshal_command-tpm_create parent_handle session_handle hash_alg key_type key_bits oa rp ks
        content c b m out built written read run =
      let (params, made, e) =
        tpm_create-ok parent_handle session_handle hash_alg key_type key_bits oa rp ks content c
          built in
      let base : TpmCommand = record { tag = st_sessions; cc = cc_create; params = params } in
      let bytes : command_bytes base ≡ ok b = rw e at written in
      let (tag_fits, size_fits, code_fits, _) = command_bytes-ok base b bytes in
      let (_, _, _, _, behind) = command_bytes-proto_header base b bytes in
      let (session_fits, area) =
        single_auth_area-area_of (rs_to_int session_handle) made.area made.area_written in
      let at_area = drop_uint b 10 4 parent_handle _ (behind ∙ made.params_layout) in
      let (m', found, same) =
        >>=-eq-ok (create_to_proto base) (λ n. ok (some n)) (ap to_proto (sym e) ∙ read) in
      let (s, p, d, q, shape) = create_to_proto-shape base m' found in
      let handle : uint_at params 0 4 ≡ parent_handle =
        uint_at-starts params 0 4 parent_handle _ made.handle_fits
          (drop-zero params ∙ made.params_layout) in
      let shaped : m ≡ Message.create (proto_header base) parent_handle [] s p d q =
        cc (same, shape, ap (λ n. Message.create (proto_header base) n [] s p d q) handle) in
      (
        uint_at-starts b 14 4 9 _ (omega arith) (
            at_area
            ∙ (ap (λ a. a ++ creation_tail made.sensitive made.public) area
                ∙ area_nine (rs_to_int session_handle) (creation_tail made.sensitive made.public))),
        create_area base parent_handle s p d q out tag_fits size_fits code_fits made.handle_fits
            (ap (marshal_command mu) (sym shaped) ∙ run),
      )
