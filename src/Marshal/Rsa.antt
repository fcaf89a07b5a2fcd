-- ===== src/Marshal/Rsa.antt =====
-- TPMRSAEncrypt and TPMRSADecrypt: `to_proto`, and then `MarshalCommand`.
use tpm_fuzzer.Prelude.{
  ◌∙◌, ltb, if◌then◌else◌, raise, value_error, ℕ, ◌^◌, ◌<◌, ◌≤◌, ◌≡◌, refl, ap, some, [], ◌∷◌, ◌++◌,
  length, ok,
}
use tpm_fuzzer.Bytes.{Bytes}
use tpm_fuzzer.Bytes.Prefixed.{prefixed}
use tpm_fuzzer.Types.Enums.{TpmRs, IntOr, rs_to_int}
use tpm_fuzzer.Proto.{Message, RsaDecryptMessage}
use tpm_fuzzer.Command.{proto_header, proto_tpm2b_data}
use tpm_fuzzer.Commands.{to_proto}
use tpm_fuzzer.Commands.Instance.{Command, base_of}
use tpm_fuzzer.Commands.Hierarchy.{password_session}
use tpm_fuzzer.Commands.Keys.{
  rsa_encrypt, rsa_encrypt_to_proto, rsa_decrypt, rsa_decrypt_to_proto, hash_or_zero,
}
use tpm_fuzzer.Types.Algorithms.{RsaDecryptScheme, rsa_decrypt_scheme_bytes}
use tpm_fuzzer.Seeds.{bytes_of}
use tpm_fuzzer.Marshal.{marshal_tpm_command, marshal_command}
use tpm_fuzzer.Marshal.Tss2.{Mu, IsWireFormat}
use tpm_fuzzer.Marshal.Steps.{max_buffer}
use tpm_fuzzer.Marshal.Fields.{Field, fields_of}
use tpm_fuzzer.Marshal.Writes.{Writes}
use tpm_fuzzer.Marshal.Whole.{marshal_command-frame}
use tpm_fuzzer.Marshal.FieldBytes.{
  field-Writes, last-Writes, number-Writes, password-Writes, data-Writes,
}
use tpm_fuzzer.Marshal.RsaFields.{
  OaepHasHash, scheme_fields, scheme_message-then, scheme-Writes, rsa_key-Writes,
}
use tpm_fuzzer.Marshal.RsaCommands.{rsa_encrypt-ok, rsa_decrypt-ok}

module _ (mu : Mu) (wire : IsWireFormat mu) where
  -- The fields behind the key handle, or behind the sessions.
  tail-Writes :
      (x label scheme_bytes : Bytes) (s : RsaDecryptScheme)
      → OaepHasHash s
      → rsa_decrypt_scheme_bytes s ≡ ok scheme_bytes
      → length x < 65536
      → length x ≤ mu.public_key_rsa_capacity
      → length label < 65536
      → length label ≤ mu.data_capacity
      → Writes
          (marshal_tpm_command mu (
            Field.public_key_rsa_2b (proto_tpm2b_data x)
            ∷ Field.rsa_scheme (scheme_fields s)
            ∷ Field.data_2b (proto_tpm2b_data label)
            ∷ []))
          (prefixed x ++ (scheme_bytes ++ prefixed label))
  tail-Writes x label scheme_bytes s has_hash hs x_fits x_room l_fits l_room =
      let label_field = Field.data_2b (proto_tpm2b_data label) in
      field-Writes mu wire (Field.public_key_rsa_2b (proto_tpm2b_data x))
        (Field.rsa_scheme (scheme_fields s) ∷ label_field ∷ []) _ _
        (rsa_key-Writes mu wire x x_fits x_room)
        (field-Writes mu wire (Field.rsa_scheme (scheme_fields s)) (label_field ∷ []) _ _
          (scheme-Writes mu wire s scheme_bytes has_hash hs)
          (last-Writes mu wire label_field _ (data-Writes mu wire label l_fits l_room)))

  -- For a TPMRSAEncrypt command that serializes, `to_proto` returns a message if the number of the
  -- hash algorithm is below 2^31, and raises ValueError otherwise. `MarshalCommand` writes this
  -- message as the bytes of the command, if tss2 writes integers and buffers in their documented
  -- format, the bytes fit `kMaxBuffer`, the message and the label fit their buffers, and an OAEP
  -- scheme has a hash algorithm.
  pub marshal_command-rsa_encrypt :
      (key_handle : ℕ) (message : Bytes) (in_scheme : RsaDecryptScheme) (label : Bytes)
      (c : Command) (b : Bytes)
      → OaepHasHash in_scheme
      → rsa_encrypt key_handle message in_scheme label ≡ ok c
      → bytes_of c ≡ ok b
      → length b ≤ max_buffer
      → length message ≤ mu.public_key_rsa_capacity
      → length label ≤ mu.data_capacity
      → (m : Message) × (to_proto c ≡ (
          if ltb (hash_or_zero in_scheme.hash_alg) (2 ^ 31)
          then ok (some m)
          else raise value_error))
        × (marshal_command mu m ≡ some b)
  unfolding bytes_of base_of to_proto rsa_encrypt_to_proto fields_of
  marshal_command-rsa_encrypt key_handle message in_scheme label c b has_hash made built room m_room
        l_room =
      let (base, scheme, m_fits, l_fits, k_fits, hs, layout, e) =
        rsa_encrypt-ok key_handle message in_scheme label c made in
      let made_of = λ (x : RsaDecryptMessage).
        Message.rsaencrypt (proto_header base) key_handle (proto_tpm2b_data message) x
          (proto_tpm2b_data label) in
      let m = made_of (scheme_fields in_scheme) in
      (
        m,
        ap to_proto e ∙ scheme_message-then in_scheme scheme made_of hs,
        marshal_command-frame mu wire base m _ b refl
            (rw layout (
              field-Writes mu wire (Field.number key_handle) _ _ _
                (number-Writes mu wire key_handle k_fits)
                (tail-Writes message label scheme in_scheme has_hash hs m_fits m_room l_fits
                  l_room)))
            (rw e at built) room,
      )

  -- For a TPMRSADecrypt command that serializes, `to_proto` returns a message if the number of the
  -- hash algorithm is below 2^31, and raises ValueError otherwise. `MarshalCommand` writes this
  -- message as the bytes of the command, session included, if tss2 writes integers and buffers in
  -- their documented format, the bytes fit `kMaxBuffer`, the cipher text and the label fit their
  -- buffers, and an OAEP scheme has a hash algorithm.
  pub marshal_command-rsa_decrypt :
      (key_handle : ℕ) (cipher_text : Bytes) (in_scheme : RsaDecryptScheme) (label : Bytes)
      (session_handle : IntOr TpmRs) (c : Command) (b : Bytes)
      → OaepHasHash in_scheme
      → rsa_decrypt key_handle cipher_text in_scheme label session_handle ≡ ok c
      → bytes_of c ≡ ok b
      → length b ≤ max_buffer
      → length cipher_text ≤ mu.public_key_rsa_capacity
      → length label ≤ mu.data_capacity
      → (m : Message) × (to_proto c ≡ (
          if ltb (hash_or_zero in_scheme.hash_alg) (2 ^ 31)
          then ok (some m)
          else raise value_error))
        × (marshal_command mu m ≡ some b)
  unfolding bytes_of base_of to_proto rsa_decrypt_to_proto fields_of
  marshal_command-rsa_decrypt key_handle cipher_text in_scheme label session_handle c b has_hash
        made built room c_room l_room =
      let (base, scheme, c_fits, l_fits, k_fits, s_fits, hs, layout, e) =
        rsa_decrypt-ok key_handle cipher_text in_scheme label session_handle c made in
      let s = rs_to_int session_handle in
      let made_of = λ (x : RsaDecryptMessage).
        Message.rsadecrypt (proto_header base) key_handle (password_session s ∷ [])
          (proto_tpm2b_data cipher_text) x (proto_tpm2b_data label) in
      let m = made_of (scheme_fields in_scheme) in
      (
        m,
        ap to_proto e ∙ scheme_message-then in_scheme scheme made_of hs,
        marshal_command-frame mu wire base m _ b refl
            (rw layout (
              field-Writes mu wire (Field.number key_handle) _ _ _
                (number-Writes mu wire key_handle k_fits)
                (field-Writes mu wire (Field.sessions (password_session s ∷ [])) _ _ _
                  (password-Writes mu wire s s_fits)
                  (tail-Writes cipher_text label scheme in_scheme has_hash hs c_fits c_room l_fits
                    l_room))))
            (rw e at built) room,
      )
