-- ===== src/Marshal/Clear.antt =====
-- TPMClear: `to_proto`, and then `MarshalCommand`.
use tpm_fuzzer.Prelude.{
  ◌^◌, ◌<◌, ◌≤◌, ◌≡◌, refl, sym, ap, some, [], ◌∷◌, ◌++◌, length, ok, ok-injective, >>=-eq-ok,
}
use tpm_fuzzer.Bytes.{Bytes, to_bytes, big_endian}
use tpm_fuzzer.Types.Enums.{TpmRh, TpmRs, IntOr, rh_to_int, rs_to_int}
use tpm_fuzzer.Types.Sessions.{single_auth_area}
use tpm_fuzzer.Proto.{Message}
use tpm_fuzzer.Proto.Constants.{st_sessions, cc_clear}
use tpm_fuzzer.Command.{TpmCommand}
use tpm_fuzzer.Commands.{to_proto}
use tpm_fuzzer.Commands.Instance.{Command, base_of}
use tpm_fuzzer.Commands.Hierarchy.{password_session, tpm_clear, clear_to_proto}
use tpm_fuzzer.Seeds.{bytes_of}
use tpm_fuzzer.Marshal.{marshal_command}
use tpm_fuzzer.Marshal.Tss2.{Mu, IsWireFormat}
use tpm_fuzzer.Marshal.Steps.{max_buffer}
use tpm_fuzzer.Marshal.Fields.{Field, fields_of}
use tpm_fuzzer.Marshal.Sessions.{area_of, single_auth_area-area_of}
use tpm_fuzzer.Marshal.Whole.{marshal_command-frame}
use tpm_fuzzer.Marshal.FieldBytes.{
  to_bytes-ok, field-Writes, last-Writes, number-Writes, password-Writes,
}

tpm_clear-ok :
    (auth_handle : IntOr TpmRh) (session_handle : IntOr TpmRs) (c : Command)
    → tpm_clear auth_handle session_handle ≡ ok c
    → (rh_to_int auth_handle < 2 ^ 32)
      × (rs_to_int session_handle < 2 ^ 32)
      × (c
          ≡ Command.clear
              (record {
                tag = st_sessions;
                cc = cc_clear;
                params = big_endian 4 (rh_to_int auth_handle) ++ area_of (rs_to_int session_handle);
              })
              (rh_to_int auth_handle)
              (rs_to_int session_handle))
unfolding tpm_clear
tpm_clear-ok auth_handle session_handle c made =
    let (x, hx, made2) = >>=-eq-ok (to_bytes (rh_to_int auth_handle) 4) _ made in
    let (area, ha, e) = >>=-eq-ok (single_auth_area (rs_to_int session_handle)) _ made2 in
    let (handle_fits, ex) = to_bytes-ok (rh_to_int auth_handle) 4 x hx in
    let (session_fits, ea) = single_auth_area-area_of (rs_to_int session_handle) area ha in
    (handle_fits, session_fits, rw (ex, ea) at (sym (ok-injective e)))

module _ (mu : Mu) (wire : IsWireFormat mu) where
  -- A TPMClear command that serializes has a message, and `MarshalCommand` writes it as the bytes of
  -- the command, if tss2 writes integers in their documented format and the bytes fit `kMaxBuffer`.
  pub marshal_command-tpm_clear :
      (auth_handle : IntOr TpmRh) (session_handle : IntOr TpmRs) (c : Command) (b : Bytes)
      → tpm_clear auth_handle session_handle ≡ ok c
      → bytes_of c ≡ ok b
      → length b ≤ max_buffer
      → (m : Message) × (to_proto c ≡ ok (some m)) × (marshal_command mu m ≡ some b)
  unfolding bytes_of base_of to_proto clear_to_proto fields_of
  marshal_command-tpm_clear auth_handle session_handle c b made built room =
      let (handle_fits, session_fits, e) = tpm_clear-ok auth_handle session_handle c made in
      let a = rh_to_int auth_handle in
      let s = rs_to_int session_handle in
      let base : TpmCommand = record {
        tag = st_sessions;
        cc = cc_clear;
        params = big_endian 4 a ++ area_of s;
      } in
      (
        clear_to_proto base a s,
        ap to_proto e,
        marshal_command-frame mu wire base (clear_to_proto base a s) _ b refl
            (field-Writes mu wire (Field.number a) (Field.sessions (password_session s ∷ []) ∷ [])
              (big_endian 4 a) (area_of s) (number-Writes mu wire a handle_fits)
              (last-Writes mu wire (Field.sessions (password_session s ∷ [])) (area_of s)
                (password-Writes mu wire s session_fits)))
            (rw e at built) room,
      )
