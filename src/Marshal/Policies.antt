-- ===== src/Marshal/Policies.antt =====
-- TPMSetPrimaryPolicy and TPMPCRSetAuthPolicy: `to_proto`, and then `MarshalCommand`.
use tpm_fuzzer.Prelude.{
  ℕ, ◌^◌, ◌<◌, ◌≤◌, ◌≡◌, refl, sym, ap, some, [], ◌∷◌, ◌++◌, length, ok, ok-injective, >>=-eq-ok,
}
use tpm_fuzzer.Bytes.{Bytes, to_bytes, big_endian, sized}
use tpm_fuzzer.Bytes.Prefixed.{prefixed}
use tpm_fuzzer.Types.Enums.{TpmRh, TpmRs, TpmAlg, IntOr, rh_to_int, rs_to_int, alg_to_int}
use tpm_fuzzer.Types.Sessions.{single_auth_area}
use tpm_fuzzer.Proto.{Message}
use tpm_fuzzer.Proto.Constants.{st_sessions, enum_value}
use tpm_fuzzer.Proto.EnumValue.{enum_value-ok}
use tpm_fuzzer.Command.{TpmCommand, proto_header, proto_tpm2b_data}
use tpm_fuzzer.Commands.{to_proto}
use tpm_fuzzer.Commands.Instance.{Command, base_of}
use tpm_fuzzer.Commands.Hierarchy.{password_session, set_primary_policy}
use tpm_fuzzer.Seeds.{bytes_of}
use tpm_fuzzer.Marshal.{marshal_command}
use tpm_fuzzer.Marshal.Tss2.{Mu, IsWireFormat}
use tpm_fuzzer.Marshal.Steps.{max_buffer}
use tpm_fuzzer.Marshal.Fields.{Field, fields_of}
use tpm_fuzzer.Marshal.Sessions.{area_of, single_auth_area-area_of}
use tpm_fuzzer.Marshal.Whole.{marshal_command-frame}
use tpm_fuzzer.Marshal.FieldBytes.{
  to_bytes-ok, sized-ok, field-Writes, last-Writes, number-Writes, enumeration-Writes,
  algorithm-Writes, password-Writes, digest-Writes,
}
use tpm_fuzzer.Commands.Pcr.{pcr_set_auth_policy}
use tpm_fuzzer.Proto.Constants.{cc_set_primary_policy, cc_pcr_set_auth_policy}
use tpm_fuzzer.Prelude.{bind4-eq-ok}

set_primary_policy-ok :
    (auth_handle : IntOr TpmRh) (auth_policy : Bytes) (hash_alg : IntOr TpmAlg)
    (session_handle : IntOr TpmRs) (c : Command)
    → set_primary_policy auth_handle auth_policy hash_alg session_handle ≡ ok c
    → (base : TpmCommand) × (rs_to_int session_handle < 2 ^ 32)
      × (length auth_policy < 65536)
      × (rh_to_int auth_handle < 2 ^ 32)
      × (alg_to_int hash_alg < 65536)
      × (base.params
          ≡ big_endian 4 (rh_to_int auth_handle)
            ++ (area_of (rs_to_int session_handle)
                ++ (prefixed auth_policy ++ big_endian 2 (alg_to_int hash_alg))))
      × (c
          ≡ Command.prepared base (
              Message.setprimarypolicy
                (proto_header base)
                (rh_to_int auth_handle)
                (password_session (rs_to_int session_handle) ∷ [])
                (proto_tpm2b_data auth_policy)
                (alg_to_int hash_alg)))
unfolding set_primary_policy
set_primary_policy-ok auth_handle auth_policy hash_alg session_handle c made =
    let (area, policy, handle, hash, ha, hp, hh, hc, made2) =
      bind4-eq-ok (single_auth_area (rs_to_int session_handle)) (sized auth_policy)
        (to_bytes (rh_to_int auth_handle) 4) (to_bytes (alg_to_int hash_alg) 2) _ made in
    let (value, hv, e) = >>=-eq-ok (enum_value (rh_to_int auth_handle)) _ made2 in
    let (session_fits, ea) = single_auth_area-area_of (rs_to_int session_handle) area ha in
    let (policy_fits, ep) = sized-ok auth_policy policy hp in
    let (handle_fits, eh) = to_bytes-ok (rh_to_int auth_handle) 4 handle hh in
    let (hash_fits, ec) = to_bytes-ok (alg_to_int hash_alg) 2 hash hc in
    (
      record {
        tag = st_sessions;
        cc = cc_set_primary_policy;
        params = handle ++ (area ++ (policy ++ hash));
      },
      session_fits,
      policy_fits,
      handle_fits,
      hash_fits,
      rw (ea, ep, eh, ec) refl,
      rw (← enum_value-ok (rh_to_int auth_handle) value hv) (sym (ok-injective e)),
    )

pcr_set_auth_policy-ok :
    (auth_handle : ℕ) (auth_policy : Bytes) (hash_alg : IntOr TpmAlg) (pcr_num session_handle : ℕ)
    (c : Command)
    → pcr_set_auth_policy auth_handle auth_policy hash_alg pcr_num session_handle ≡ ok c
    → (base : TpmCommand) × (length auth_policy < 65536)
      × (auth_handle < 2 ^ 32)
      × (session_handle < 2 ^ 32)
      × (alg_to_int hash_alg < 65536)
      × (pcr_num < 2 ^ 32)
      × (base.params
          ≡ big_endian 4 auth_handle
            ++ (area_of session_handle
                ++ (prefixed auth_policy
                    ++ (big_endian 2 (alg_to_int hash_alg) ++ big_endian 4 pcr_num))))
      × (c
          ≡ Command.prepared base (
              Message.pcrsetauthpolicy
                (proto_header base)
                auth_handle
                (password_session session_handle ∷ [])
                (proto_tpm2b_data auth_policy)
                (alg_to_int hash_alg)
                pcr_num))
unfolding pcr_set_auth_policy
pcr_set_auth_policy-ok auth_handle auth_policy hash_alg pcr_num session_handle c made =
    let (policy, handle, area, hash, hp, hh, ha, hc, made2) =
      bind4-eq-ok (sized auth_policy) (to_bytes auth_handle 4) (single_auth_area session_handle)
        (to_bytes (alg_to_int hash_alg) 2) _ made in
    let (num, hn, e) = >>=-eq-ok (to_bytes pcr_num 4) _ made2 in
    let (policy_fits, ep) = sized-ok auth_policy policy hp in
    let (handle_fits, eh) = to_bytes-ok auth_handle 4 handle hh in
    let (session_fits, ea) = single_auth_area-area_of session_handle area ha in
    let (hash_fits, ec) = to_bytes-ok (alg_to_int hash_alg) 2 hash hc in
    let (num_fits, en) = to_bytes-ok pcr_num 4 num hn in
    (
      record {
        tag = st_sessions;
        cc = cc_pcr_set_auth_policy;
        params = handle ++ (area ++ (policy ++ (hash ++ num)));
      },
      policy_fits,
      handle_fits,
      session_fits,
      hash_fits,
      num_fits,
      rw (ea, ep, eh, ec, en) refl,
      sym (ok-injective e),
    )

module _ (mu : Mu) (wire : IsWireFormat mu) where
  -- A TPMSetPrimaryPolicy command that serializes has a message, and `MarshalCommand` writes it as
  -- the bytes of the command, if tss2 writes integers in their documented format and the bytes fit
  -- `kMaxBuffer`.
  pub marshal_command-set_primary_policy :
      (auth_handle : IntOr TpmRh) (auth_policy : Bytes) (hash_alg : IntOr TpmAlg)
      (session_handle : IntOr TpmRs) (c : Command) (b : Bytes)
      → set_primary_policy auth_handle auth_policy hash_alg session_handle ≡ ok c
      → bytes_of c ≡ ok b
      → length b ≤ max_buffer
      → (m : Message) × (to_proto c ≡ ok (some m)) × (marshal_command mu m ≡ some b)
  unfolding bytes_of base_of to_proto fields_of
  marshal_command-set_primary_policy auth_handle auth_policy hash_alg session_handle c b made built
        room =
      let (base, s_fits, p_fits, h_fits, a_fits, layout, e) =
        set_primary_policy-ok auth_handle auth_policy hash_alg session_handle c made in
      let s = rs_to_int session_handle in
      let policy = Field.digest_2b (proto_tpm2b_data auth_policy) in
      let hash = Field.algorithm (alg_to_int hash_alg) in
      let sessions = Field.sessions (password_session s ∷ []) in
      let m =
        Message.setprimarypolicy (proto_header base) (rh_to_int auth_handle)
          (password_session s ∷ []) (proto_tpm2b_data auth_policy) (alg_to_int hash_alg) in
      (
        m,
        ap to_proto e,
        marshal_command-frame mu wire base m _ b refl
            (rw layout (
              field-Writes mu wire (Field.enumeration (rh_to_int auth_handle))
                (sessions ∷ policy ∷ hash ∷ []) _ _
                (enumeration-Writes mu wire (rh_to_int auth_handle) h_fits)
                (field-Writes mu wire sessions (policy ∷ hash ∷ []) _ _
                  (password-Writes mu wire s s_fits)
                  (field-Writes mu wire policy (hash ∷ []) _ _
                    (digest-Writes mu wire auth_policy p_fits)
                    (last-Writes mu wire hash _
                      (algorithm-Writes mu wire (alg_to_int hash_alg) a_fits))))))
            (rw e at built) room,
      )

  -- A TPMPCRSetAuthPolicy command that serializes has a message, and `MarshalCommand` writes it as
  -- the bytes of the command, if tss2 writes integers in their documented format and the bytes fit
  -- `kMaxBuffer`.
  pub marshal_command-pcr_set_auth_policy :
      (auth_handle : ℕ) (auth_policy : Bytes) (hash_alg : IntOr TpmAlg) (pcr_num session_handle : ℕ)
      (c : Command) (b : Bytes)
      → pcr_set_auth_policy auth_handle auth_policy hash_alg pcr_num session_handle ≡ ok c
      → bytes_of c ≡ ok b
      → length b ≤ max_buffer
      → (m : Message) × (to_proto c ≡ ok (some m)) × (marshal_command mu m ≡ some b)
  unfolding bytes_of base_of to_proto fields_of
  marshal_command-pcr_set_auth_policy auth_handle auth_policy hash_alg pcr_num s c b made built
        room =
      let (base, p_fits, h_fits, s_fits, a_fits, n_fits, layout, e) =
        pcr_set_auth_policy-ok auth_handle auth_policy hash_alg pcr_num s c made in
      let policy = Field.digest_2b (proto_tpm2b_data auth_policy) in
      let hash = Field.algorithm (alg_to_int hash_alg) in
      let sessions = Field.sessions (password_session s ∷ []) in
      let m =
        Message.pcrsetauthpolicy (proto_header base) auth_handle (password_session s ∷ [])
          (proto_tpm2b_data auth_policy) (alg_to_int hash_alg) pcr_num in
      (
        m,
        ap to_proto e,
        marshal_command-frame mu wire base m _ b refl
            (rw layout (
              field-Writes mu wire (Field.number auth_handle)
                (sessions ∷ policy ∷ hash ∷ Field.number pcr_num ∷ []) _ _
                (number-Writes mu wire auth_handle h_fits)
                (field-Writes mu wire sessions (policy ∷ hash ∷ Field.number pcr_num ∷ []) _ _
                  (password-Writes mu wire s s_fits)
                  (field-Writes mu wire policy (hash ∷ Field.number pcr_num ∷ []) _ _
                    (digest-Writes mu wire auth_policy p_fits)
                    (field-Writes mu wire hash (Field.number pcr_num ∷ []) _ _
                      (algorithm-Writes mu wire (alg_to_int hash_alg) a_fits)
                      (last-Writes mu wire (Field.number pcr_num) _
                        (number-Writes mu wire pcr_num n_fits)))))))
            (rw e at built) room,
      )
