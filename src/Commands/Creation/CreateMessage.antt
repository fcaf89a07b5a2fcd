-- ===== src/Commands/Creation/CreateMessage.antt =====
-- `TPMCreate.to_proto` after `TPMCreate.__init__`.
use tpm_fuzzer.Prelude.{
  ℕ, ◌+◌, ◌-◌, ◌≡◌, refl, sym, [], Option, some, length, ok, ok-injective, ◌>>=◌, >>=-eq-ok,
}
use tpm_fuzzer.Bytes.{Bytes, big_endian}
use tpm_fuzzer.Bytes.Prefixed.{prefixed, drop-prefixed}
use tpm_fuzzer.Types.Enums.{TpmAlg, TpmRs, TpmaObject, IntOr, rs_to_int}
use tpm_fuzzer.Types.Attributes.{Attributes}
use tpm_fuzzer.Types.Algorithms.{RsaParms, KeyedhashParms}
use tpm_fuzzer.Types.Public.{TpmtPublic, public_2b_bytes}
use tpm_fuzzer.Types.Buffers.{SensitiveCreate}
use tpm_fuzzer.Proto.{Message, PublicMessage}
use tpm_fuzzer.Proto.Constants.{st_sessions, cc_create}
use tpm_fuzzer.Command.{TpmCommand, proto_header, proto_tpm2b_data}
use tpm_fuzzer.Command.Parse.{proto_public}
use tpm_fuzzer.Command.Parse.SensitiveArea.{sensitive_create_message, proto_sensitive_create-bytes}
use tpm_fuzzer.Command.Parse.PublicRoundTrip.{
  HasNoHash, public_message, rsa_union, proto_public-rsa,
}
use tpm_fuzzer.Command.Parse.PcrList.{pcr_selections_message, proto_pcr_selection-bytes}
use tpm_fuzzer.Commands.{to_proto}
use tpm_fuzzer.Commands.Instance.{Command, base_of}
use tpm_fuzzer.Commands.Creation.{
  rsa_parms_or_default, create_template, tpm_create, create_to_proto,
}
use tpm_fuzzer.Commands.Creation.Layout.{
  reads_handle, reads_area_size, behind_area, reads_sensitive, reads_public, reads_outside,
  reads_pcr, Created, creation_params-Created, no_creation_pcr,
}

-- What `to_proto` reads in the parameters of a creation command.
create_to_proto-Created :
    (base : TpmCommand) (handle session : ℕ) (s : SensitiveCreate) (t : TpmtPublic)
    (c : Created handle session s t base.params)
    → create_to_proto base ≡ (
        proto_public (prefixed c.public) >>= λ public. ok (
          Message.create
            (proto_header base)
            handle
            []
            (sensitive_create_message s)
            public
            (proto_tpm2b_data [])
            (pcr_selections_message [])))
unfolding create_to_proto
create_to_proto-Created base handle session s t c =
    let at_tail =
      behind_area base.params c.area _ handle c.body c.handle_fits c.body_fits c.area_layout
        c.params_layout in
    let off = 4 + 4 + length c.body in
    rw (
      reads_area_size base.params c.area _ handle c.body c.handle_fits c.body_fits c.area_layout
          c.params_layout,
      reads_handle base.params c.area _ handle c.body c.handle_fits c.body_fits c.area_layout
          c.params_layout,
      reads_sensitive base.params off c.sensitive c.public c.sensitive_fits c.public_fits at_tail,
      reads_public base.params off c.sensitive c.public c.sensitive_fits c.public_fits at_tail,
      reads_outside base.params off c.sensitive c.public c.sensitive_fits c.public_fits at_tail,
      reads_pcr base.params off c.sensitive c.public c.sensitive_fits c.public_fits at_tail,
      proto_pcr_selection-bytes [] (big_endian 4 0) no_creation_pcr,
      proto_sensitive_create-bytes s (prefixed c.sensitive) c.sensitive_written,
      drop-prefixed [],
    )

-- The command that the parameters make.
pub tpm_create-ok :
    (parent_handle : ℕ) (session_handle : IntOr TpmRs) (hash_alg key_type : TpmAlg) (key_bits : ℕ)
    (object_attributes : Option (Attributes TpmaObject)) (rsa_parameters : Option RsaParms)
    (keyedhash_scheme : Option KeyedhashParms) (sensitive_data : Bytes) (c : Command)
    → tpm_create parent_handle session_handle hash_alg key_type key_bits object_attributes
        rsa_parameters keyedhash_scheme sensitive_data
      ≡ ok c
    → (params : Bytes) × Created parent_handle
        (rs_to_int session_handle)
        (record { user_auth = []; sensitive_data = sensitive_data })
        (create_template hash_alg key_type key_bits object_attributes rsa_parameters
          keyedhash_scheme)
        params
      × (c ≡ Command.create (record { tag = st_sessions; cc = cc_create; params = params }))
unfolding tpm_create
tpm_create-ok parent_handle session_handle hash_alg key_type key_bits oa rp ks content c h =
    let (params, e, h') = >>=-eq-ok _ _ h in
    (params, creation_params-Created _ _ _ _ params e, sym (ok-injective h'))

reads_template :
    (hash_alg : TpmAlg) (key_bits : ℕ) (oa : Option (Attributes TpmaObject)) (rp : Option RsaParms)
    (ks : Option KeyedhashParms) (area : Bytes)
    → HasNoHash (rsa_parms_or_default rp key_bits)
    → public_2b_bytes (create_template hash_alg TpmAlg.rsa key_bits oa rp ks) ≡ ok area
    → proto_public area
      ≡ ok (
          public_message
            (create_template hash_alg TpmAlg.rsa key_bits oa rp ks)
            (length area - 2)
            (rsa_union (rsa_parms_or_default rp key_bits) []))
unfolding create_template
reads_template hash_alg key_bits oa rp ks area plain h =
    proto_public-rsa (create_template hash_alg TpmAlg.rsa key_bits oa rp ks)
      (rsa_parms_or_default rp key_bits) area refl refl plain h

to_proto-create :
    (base : TpmCommand) (handle session : ℕ) (s : SensitiveCreate) (t : TpmtPublic)
    (c : Created handle session s t base.params) (m : PublicMessage)
    → proto_public (prefixed c.public) ≡ ok m
    → to_proto (Command.create base)
      ≡ ok (
          some (
            Message.create
              (proto_header base)
              handle
              []
              (sensitive_create_message s)
              m
              (proto_tpm2b_data [])
              (pcr_selections_message [])))
unfolding to_proto
to_proto-create base handle session s t c m e =
    rw (create_to_proto-Created base handle session s t c, e)

-- Whatever TPMCreate command for an RSA key can be built whose scheme carries no hash algorithm, its
-- `to_proto` returns a message with the parent handle, the sensitive data, the public area of the
-- template, empty outside information and no PCR selection. The session is lost: the message has
-- none, whatever the session handle. So are the key bits and the mode of the symmetric algorithm:
-- `symmetric_key_bits` is 0.
pub to_proto-tpm_create :
    (parent_handle : ℕ) (session_handle : IntOr TpmRs) (hash_alg : TpmAlg) (key_bits : ℕ)
    (object_attributes : Option (Attributes TpmaObject)) (rsa_parameters : Option RsaParms)
    (keyedhash_scheme : Option KeyedhashParms) (sensitive_data : Bytes) (c : Command)
    → HasNoHash (rsa_parms_or_default rsa_parameters key_bits)
    → tpm_create parent_handle session_handle hash_alg TpmAlg.rsa key_bits object_attributes
        rsa_parameters keyedhash_scheme sensitive_data
      ≡ ok c
    → (area : Bytes) × (public_2b_bytes (
          create_template hash_alg TpmAlg.rsa key_bits object_attributes rsa_parameters
            keyedhash_scheme)
        ≡ ok area)
      × (to_proto c
          ≡ ok (
              some (
                Message.create
                  (proto_header (base_of c))
                  parent_handle
                  []
                  (sensitive_create_message
                    (record { user_auth = []; sensitive_data = sensitive_data }))
                  (public_message
                    (create_template hash_alg TpmAlg.rsa key_bits object_attributes rsa_parameters
                      keyedhash_scheme)
                    (length area - 2)
                    (rsa_union (rsa_parms_or_default rsa_parameters key_bits) []))
                  (proto_tpm2b_data [])
                  (pcr_selections_message []))))
unfolding base_of
to_proto-tpm_create parent_handle session_handle hash_alg key_bits oa rp ks content c plain h =
    let (params, made, e) =
      tpm_create-ok parent_handle session_handle hash_alg TpmAlg.rsa key_bits oa rp ks content c
        h in
    let base : TpmCommand = record { tag = st_sessions; cc = cc_create; params = params } in
    let reads = to_proto-create base _ _ _ _ made _ (
      reads_template hash_alg key_bits oa rp ks (prefixed made.public) plain made.public_written) in
    (prefixed made.public, made.public_written, rw e reads)
