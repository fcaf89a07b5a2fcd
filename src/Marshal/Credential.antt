-- ===== src/Marshal/Credential.antt =====
-- TPMMakeCredential: `to_proto`, and then `MarshalCommand`.
use tpm_fuzzer.Prelude.{
  ℕ, ◌^◌, ◌<◌, ◌≤◌, ◌≡◌, refl, sym, ap, some, [], ◌∷◌, ◌++◌, length, ok, ok-injective, >>=-eq-ok,
}
use tpm_fuzzer.Bytes.{Bytes, to_bytes, big_endian, sized}
use tpm_fuzzer.Bytes.Prefixed.{prefixed}
use tpm_fuzzer.Proto.{Message}
use tpm_fuzzer.Proto.Constants.{st_no_sessions, cc_make_credential}
use tpm_fuzzer.Command.{TpmCommand, proto_tpm2b_data}
use tpm_fuzzer.Commands.{to_proto}
use tpm_fuzzer.Commands.Instance.{Command, base_of}
use tpm_fuzzer.Commands.Loading.{make_credential, make_credential_to_proto}
use tpm_fuzzer.Seeds.{bytes_of}
use tpm_fuzzer.Marshal.{marshal_command}
use tpm_fuzzer.Marshal.Tss2.{Mu, IsWireFormat}
use tpm_fuzzer.Marshal.Steps.{max_buffer}
use tpm_fuzzer.Marshal.Fields.{Field, fields_of}
use tpm_fuzzer.Marshal.Whole.{marshal_command-frame}
use tpm_fuzzer.Marshal.FieldBytes.{
  to_bytes-ok, sized-ok, field-Writes, last-Writes, number-Writes, data-Writes,
}

make_credential-ok :
    (handle : ℕ) (credential object_name : Bytes) (c : Command)
    → make_credential handle credential object_name ≡ ok c
    → (handle < 2 ^ 32)
      × (length credential < 65536)
      × (length object_name < 65536)
      × (c
          ≡ Command.make_credential
              (record {
                tag = st_no_sessions;
                cc = cc_make_credential;
                params = big_endian 4 handle ++ (prefixed credential ++ prefixed object_name);
              })
              handle
              credential
              object_name)
unfolding make_credential
make_credential-ok handle credential object_name c made =
    let (x, hx, made2) = >>=-eq-ok (to_bytes handle 4) _ made in
    let (y, hy, made3) = >>=-eq-ok (sized credential) _ made2 in
    let (z, hz, e) = >>=-eq-ok (sized object_name) _ made3 in
    let (handle_fits, ex) = to_bytes-ok handle 4 x hx in
    let (credential_fits, ey) = sized-ok credential y hy in
    let (name_fits, ez) = sized-ok object_name z hz in
    (handle_fits, credential_fits, name_fits, rw (ex, ey, ez) at (sym (ok-injective e)))

module _ (mu : Mu) (wire : IsWireFormat mu) where
  -- A TPMMakeCredential command that serializes has a message, and `MarshalCommand` writes it as the
  -- bytes of the command, if tss2 writes integers and buffers in their documented format, the bytes
  -- fit `kMaxBuffer`, and the credential and the name fit the buffer of a TPM2B_DATA.
  pub marshal_command-make_credential :
      (handle : ℕ) (credential object_name : Bytes) (c : Command) (b : Bytes)
      → make_credential handle credential object_name ≡ ok c
      → bytes_of c ≡ ok b
      → length b ≤ max_buffer
      → length credential ≤ mu.data_capacity
      → length object_name ≤ mu.data_capacity
      → (m : Message) × (to_proto c ≡ ok (some m)) × (marshal_command mu m ≡ some b)
  unfolding bytes_of base_of to_proto make_credential_to_proto fields_of
  marshal_command-make_credential handle credential object_name c b made built room c_room n_room =
      let (handle_fits, c_fits, n_fits, e) =
        make_credential-ok handle credential object_name c made in
      let base : TpmCommand = record {
        tag = st_no_sessions;
        cc = cc_make_credential;
        params = big_endian 4 handle ++ (prefixed credential ++ prefixed object_name);
      } in
      let name_field = Field.data_2b (proto_tpm2b_data object_name) in
      let credential_field = Field.data_2b (proto_tpm2b_data credential) in
      let m = make_credential_to_proto base handle credential object_name in
      (
        m,
        ap to_proto e,
        marshal_command-frame mu wire base m _ b refl
            (field-Writes mu wire (Field.number handle) (credential_field ∷ name_field ∷ []) _ _
              (number-Writes mu wire handle handle_fits)
              (field-Writes mu wire credential_field (name_field ∷ []) _ _
                (data-Writes mu wire credential c_fits c_room)
                (last-Writes mu wire name_field _ (data-Writes mu wire object_name n_fits n_room))))
            (rw e at built) room,
      )
