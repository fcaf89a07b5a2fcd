-- ===== src/Commands/Creation/PrimaryMessage.antt =====
-- `TPMCreatePrimary.to_proto` after `TPMCreatePrimary.__init__`.
use tpm_fuzzer.Prelude.{
  ◌^◌, ltb, if◌then◌else◌, raise, value_error, ℕ, ◌+◌, ◌-◌, ◌≡◌, refl, [], ◌∷◌, Option, some,
  length, ok, ok-injective, >>=-eq-ok,
}
use tpm_fuzzer.Bytes.{Bytes, big_endian, slice}
use tpm_fuzzer.Bytes.Prefixed.{prefixed, drop-prefixed}
use tpm_fuzzer.Types.Enums.{
  TpmAlg, alg_value, alg_to_int, TpmRh, TpmRs, IntOr, rh_to_int, rs_to_int,
}
use tpm_fuzzer.Types.Algorithms.{RsaParms}
use tpm_fuzzer.Types.Public.{TpmtPublic, public_2b_bytes}
use tpm_fuzzer.Types.Buffers.{SensitiveCreate, default_sensitive_create}
use tpm_fuzzer.Types.Sessions.{single_auth_area}
use tpm_fuzzer.Proto.{Message, PublicMessage}
use tpm_fuzzer.Proto.Constants.{st_sessions, cc_create_primary}
use tpm_fuzzer.Proto.EnumValue.{enum_value-then}
use tpm_fuzzer.Command.{TpmCommand, proto_header, proto_tpm2b_data}
use tpm_fuzzer.Command.Parse.{uint_at, proto_public}
use tpm_fuzzer.Command.Parse.SensitiveArea.{sensitive_create_message, proto_sensitive_create-bytes}
use tpm_fuzzer.Command.Parse.PublicRoundTrip.{
  HasNoHash, public_message, rsa_union, proto_public-rsa,
}
use tpm_fuzzer.Command.Parse.PcrList.{pcr_selections_message, proto_pcr_selection-bytes}
use tpm_fuzzer.Commands.{to_proto}
use tpm_fuzzer.Commands.Instance.{Command, base_of}
use tpm_fuzzer.Commands.Hierarchy.{password_session}
use tpm_fuzzer.Commands.Creation.{
  primary_template, tpm_create_primary, parse_auth_area, create_primary_to_proto,
}
use tpm_fuzzer.Commands.Creation.Layout.{
  reads_handle, reads_area_size, reads_area, behind_area, proto_sessions-single_auth_area,
  reads_sensitive, reads_public, reads_outside, reads_pcr, Created, creation_params-Created,
  no_creation_pcr,
}

-- In a command with sessions the area is read back as its one session.
pub parse_auth_area-sessions :
    (params area body : Bytes) (session : ℕ)
    → uint_at params 4 4 ≡ length body
    → slice params 4 (4 + 4 + length body) ≡ area
    → single_auth_area session ≡ ok area
    → parse_auth_area st_sessions params ≡ ok (password_session session ∷ [], 4 + 4 + length body)
unfolding parse_auth_area
parse_auth_area-sessions params area body session size whole written =
    rw (size, whole, proto_sessions-single_auth_area session area written)

create_primary_to_proto-Created :
    (base : TpmCommand) (handle session : ℕ) (s : SensitiveCreate) (t : TpmtPublic)
    (c : Created handle session s t base.params) (m : PublicMessage)
    → base.tag ≡ st_sessions
    → proto_public (prefixed c.public) ≡ ok m
    → to_proto (Command.create_primary base) ≡ (
        if ltb handle (2 ^ 31)
        then ok (
            some (
              Message.createprimary
                (proto_header base)
                handle
                (password_session session ∷ [])
                (sensitive_create_message s)
                m
                (proto_tpm2b_data [])
                (pcr_selections_message [])))
        else raise value_error)
unfolding to_proto create_primary_to_proto
create_primary_to_proto-Created base handle session s t c m tagged e =
    let at_tail =
      behind_area base.params c.area _ handle c.body c.handle_fits c.body_fits c.area_layout
        c.params_layout in
    let off = 4 + 4 + length c.body in
    let area =
      parse_auth_area-sessions base.params c.area c.body session
        (reads_area_size base.params c.area _ handle c.body c.handle_fits c.body_fits c.area_layout
          c.params_layout)
        (reads_area base.params c.area _ handle c.body c.handle_fits c.body_fits c.area_layout
          c.params_layout)
        c.area_written in
    rw
      (
        tagged,
        area,
        reads_handle base.params c.area _ handle c.body c.handle_fits c.body_fits c.area_layout
            c.params_layout,
        reads_sensitive base.params off c.sensitive c.public c.sensitive_fits c.public_fits at_tail,
        reads_public base.params off c.sensitive c.public c.sensitive_fits c.public_fits at_tail,
        reads_outside base.params off c.sensitive c.public c.sensitive_fits c.public_fits at_tail,
        reads_pcr base.params off c.sensitive c.public c.sensitive_fits c.public_fits at_tail,
        proto_pcr_selection-bytes [] (big_endian 4 0) no_creation_pcr,
        proto_sensitive_create-bytes s (prefixed c.sensitive) c.sensitive_written,
        drop-prefixed [],
        e,
      )
      (enum_value-then handle _)

-- Whatever TPMCreatePrimary command can be built whose template is an RSA key with no hash algorithm
-- in its scheme, its `to_proto` raises ValueError if the hierarchy is 2^31 or more. Otherwise it
-- returns a message with the hierarchy, one session with the session handle and nothing else, the
-- empty sensitive area, the template, empty outside information and no PCR selection; the key bits
-- and the mode of the symmetric algorithm are lost: `symmetric_key_bits` is 0.
pub to_proto-tpm_create_primary :
    (session_handle : IntOr TpmRs) (hash_alg : TpmAlg) (key_bits : ℕ) (primary_handle : IntOr TpmRh)
    (public_template : Option TpmtPublic) (q : RsaParms) (c : Command)
    → alg_to_int (primary_template public_template hash_alg key_bits).type ≡ alg_value TpmAlg.rsa
    → (primary_template public_template hash_alg key_bits).rsa_parameters ≡ some q
    → HasNoHash q
    → tpm_create_primary session_handle hash_alg key_bits primary_handle public_template ≡ ok c
    → (area : Bytes) × (public_2b_bytes (primary_template public_template hash_alg key_bits)
        ≡ ok area)
      × (to_proto c ≡ (
          if ltb (rh_to_int primary_handle) (2 ^ 31)
          then ok (
              some (
                Message.createprimary
                  (proto_header (base_of c))
                  (rh_to_int primary_handle)
                  (password_session (rs_to_int session_handle) ∷ [])
                  (sensitive_create_message default_sensitive_create)
                  (public_message
                    (primary_template public_template hash_alg key_bits)
                    (length area - 2)
                    (rsa_union q (primary_template public_template hash_alg key_bits).unique))
                  (proto_tpm2b_data [])
                  (pcr_selections_message [])))
          else raise value_error))
unfolding tpm_create_primary base_of
to_proto-tpm_create_primary session_handle hash_alg key_bits primary_handle template q c is_rsa
      given plain h =
    let (params, e, h') = >>=-eq-ok _ _ h in
    let made = creation_params-Created _ _ _ _ params e in
    let base : TpmCommand = record { tag = st_sessions; cc = cc_create_primary; params = params } in
    let t = primary_template template hash_alg key_bits in
    let reads =
      create_primary_to_proto-Created base _ _ _ t made _ refl
        (proto_public-rsa t q (prefixed made.public) is_rsa given plain made.public_written) in
    (prefixed made.public, made.public_written, rw (← ok-injective h') reads)
