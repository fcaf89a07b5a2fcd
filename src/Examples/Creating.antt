-- ===== src/Examples/Creating.antt =====
-- Creation commands at concrete arguments.
use tpm_fuzzer.Prelude.{◌-◌, ◌≡◌, refl, [], ◌∷◌, none, some, inl, length, ok, raise, value_error}
use tpm_fuzzer.Bytes.{Bytes, to_bytes, big_endian, sized, join}
use tpm_fuzzer.Types.Enums.{TpmAlg, TpmRh, TpmRs, IntOr, member}
use tpm_fuzzer.Types.Attributes.{attrs_to_int, attributes_or_default}
use tpm_fuzzer.Types.Algorithms.{sym_def_object_bytes, rsa_parms_bytes, default_rsa_parms}
use tpm_fuzzer.Types.Public.{public_bytes, public_2b_bytes}
use tpm_fuzzer.Types.Buffers.{
  sensitive_create_bytes, default_sensitive_create, sensitive_create_2b_bytes, data_2b_bytes,
}
use tpm_fuzzer.Types.Sessions.{auth_command_bytes, single_auth_area}
use tpm_fuzzer.Types.Pcr.{pcr_selections_bytes}
use tpm_fuzzer.Proto.{Message, PublicParmsMessage, PublicIdMessage}
use tpm_fuzzer.Command.{proto_header, proto_tpm2b_data}
use tpm_fuzzer.Command.Parse.SensitiveArea.{sensitive_create_message}
use tpm_fuzzer.Command.Parse.PublicRoundTrip.{public_message, rsa_union}
use tpm_fuzzer.Command.Parse.PcrList.{pcr_selections_message}
use tpm_fuzzer.Commands.{to_proto}
use tpm_fuzzer.Commands.Instance.{Command, base_of}
use tpm_fuzzer.Commands.Hierarchy.{password_session}
use tpm_fuzzer.Commands.Creation.{
  rsa_parms_or_default, create_template, creation_params, tpm_create, primary_template,
  tpm_create_primary,
}
use tpm_fuzzer.Commands.Creation.CreateMessage.{to_proto-tpm_create}
use tpm_fuzzer.Bytes.{big_endian, from_bytes, index, slice, to_bytes}
use tpm_fuzzer.Command.{command_bytes, command_size, proto_header, proto_tpm2b_data}
use tpm_fuzzer.Command.Parse.{
  parse_tpm2b, pcr_selection_loop, proto_pcr_selection, proto_public, proto_public_keyedhash,
  proto_public_rsa, proto_public_union, proto_sensitive_create, uint_at,
}
use tpm_fuzzer.Commands.{to_proto}
use tpm_fuzzer.Commands.Creation.{create_to_proto}
use tpm_fuzzer.Commands.Instance.{base_of}
use tpm_fuzzer.Examples.Wire.{wire, wire_format}
use tpm_fuzzer.Marshal.{
  marshal_command, marshal_command_field, marshal_tpm_command, patch_command_size,
}
use tpm_fuzzer.Marshal.Create.{marshal_command-tpm_create}
use tpm_fuzzer.Marshal.Fields.{fields_of}
use tpm_fuzzer.Marshal.Steps.{overwrite}
use tpm_fuzzer.Marshal.Structures.{
  marshal_command_header, marshal_repeated_field, marshal_sessions, marshal_tpm2b_digest,
  marshal_tpm2b_public, marshal_tpm2b_sensitive_create, marshal_tpm_nv_public, marshal_tpm_session,
  marshal_tpml_pcr_selection, marshal_tpmt_rsa_decrypt, marshal_tpmt_sym_def, mu_parms,
  mu_pcr_selection, mu_unique, patch_auth_size,
}
use tpm_fuzzer.Prelude.{drop, get_elem?, replicate, take}
use tpm_fuzzer.Seeds.{bytes_of}
use tpm_fuzzer.Commands.Creation.PrimaryMessage.{to_proto-tpm_create_primary}

-- The bytes of an RSA-2048 storage template, as both commands write it last.
abbrev template_bytes : Bytes
template_bytes =
    0 ∷ 26 ∷ 0 ∷ 1 ∷ 0 ∷ 11 ∷ 0 ∷ 3 ∷ 4 ∷ 114 ∷ 0 ∷ 0 ∷ 0 ∷ 6 ∷ 0 ∷ 128 ∷ 0 ∷ 67 ∷ 0 ∷ 16 ∷ 8 ∷ 0
    ∷ 0 ∷ 0 ∷ 0 ∷ 0 ∷ 0 ∷ 0 ∷ 0 ∷ 0 ∷ 0 ∷ 0 ∷ 0 ∷ 0 ∷ []

abbrev created : Command
created = Command.create (record {
  tag = 0x8002;
  cc = 0x153;
  params =
      128 ∷ 0 ∷ 0 ∷ 0 ∷ 0 ∷ 0 ∷ 0 ∷ 9 ∷ 64 ∷ 0 ∷ 0 ∷ 9 ∷ 0 ∷ 0 ∷ 0 ∷ 0 ∷ 0 ∷ 0 ∷ 6 ∷ 0 ∷ 0 ∷ 0 ∷ 2
      ∷ 104 ∷ 105 ∷ template_bytes;
})

created_runs :
    tpm_create 0x80000000
      (member TpmRs.pw)
      TpmAlg.sha256
      TpmAlg.rsa
      2048
      none
      none
      none
      (104 ∷ 105 ∷ [])
    ≡ ok created
unfolding tpm_create creation_params to_bytes big_endian sized join attrs_to_int
    attributes_or_default sym_def_object_bytes rsa_parms_bytes public_bytes public_2b_bytes
    sensitive_create_bytes sensitive_create_2b_bytes data_2b_bytes auth_command_bytes
    single_auth_area pcr_selections_bytes rsa_parms_or_default create_template
created_runs = refl

abbrev primary_command : Command
primary_command = Command.create_primary (record {
  tag = 0x8002;
  cc = 0x131;
  params =
      64 ∷ 0 ∷ 0 ∷ 1 ∷ 0 ∷ 0 ∷ 0 ∷ 9 ∷ 64 ∷ 0 ∷ 0 ∷ 9 ∷ 0 ∷ 0 ∷ 0 ∷ 0 ∷ 0 ∷ 0 ∷ 4 ∷ 0 ∷ 0 ∷ 0 ∷ 0
      ∷ template_bytes;
})

-- The parameters of seeds/bytearray/TPMCreatePrimary-variant0.
primary_runs :
    tpm_create_primary (member TpmRs.pw) TpmAlg.sha256 2048 (member TpmRh.owner) none
    ≡ ok primary_command
unfolding tpm_create_primary creation_params to_bytes big_endian sized join attrs_to_int
    sym_def_object_bytes rsa_parms_bytes public_bytes public_2b_bytes sensitive_create_bytes
    sensitive_create_2b_bytes data_2b_bytes auth_command_bytes single_auth_area pcr_selections_bytes
    primary_template
primary_runs = refl

to_proto-tpm_create_example :
    (area : Bytes) × (public_2b_bytes (create_template TpmAlg.sha256 TpmAlg.rsa 2048 none none none)
      ≡ ok area)
    × (to_proto created
        ≡ ok (
            some (
              Message.create
                (proto_header (base_of created))
                0x80000000
                []
                (sensitive_create_message
                  (record { user_auth = []; sensitive_data = 104 ∷ 105 ∷ [] }))
                (public_message
                  (create_template TpmAlg.sha256 TpmAlg.rsa 2048 none none none)
                  (length area - 2)
                  (rsa_union (rsa_parms_or_default none 2048) []))
                (proto_tpm2b_data [])
                (pcr_selections_message []))))
unfolding rsa_parms_or_default
to_proto-tpm_create_example =
    to_proto-tpm_create 0x80000000 (member TpmRs.pw) TpmAlg.sha256 2048 none none none
      (104 ∷ 105 ∷ []) created (inl refl) created_runs

to_proto-tpm_create_primary_example :
    (area : Bytes) × (public_2b_bytes (primary_template none TpmAlg.sha256 2048) ≡ ok area)
    × (to_proto primary_command
        ≡ ok (
            some (
              Message.createprimary
                (proto_header (base_of primary_command))
                0x40000001
                (password_session 0x40000009 ∷ [])
                (sensitive_create_message default_sensitive_create)
                (public_message
                  (primary_template none TpmAlg.sha256 2048)
                  (length area - 2)
                  (rsa_union (default_rsa_parms 2048) []))
                (proto_tpm2b_data [])
                (pcr_selections_message []))))
unfolding primary_template
to_proto-tpm_create_primary_example =
    to_proto-tpm_create_primary (member TpmRs.pw) TpmAlg.sha256 2048 (member TpmRh.owner) none
      (default_rsa_parms 2048) primary_command refl refl (inl refl) primary_runs

-- A primary key below the transient object 0x80000000: the command serializes, and its message is
-- refused.
abbrev transient_command : Command
transient_command = Command.create_primary (record {
  tag = 0x8002;
  cc = 0x131;
  params =
      128 ∷ 0 ∷ 0 ∷ 0 ∷ 0 ∷ 0 ∷ 0 ∷ 9 ∷ 64 ∷ 0 ∷ 0 ∷ 9 ∷ 0 ∷ 0 ∷ 0 ∷ 0 ∷ 0 ∷ 0 ∷ 4 ∷ 0 ∷ 0 ∷ 0 ∷ 0
      ∷ template_bytes;
})

transient_runs :
    tpm_create_primary (member TpmRs.pw) TpmAlg.sha256 2048 (IntOr.int 0x80000000) none
    ≡ ok transient_command
unfolding tpm_create_primary creation_params to_bytes big_endian sized join attrs_to_int
    sym_def_object_bytes rsa_parms_bytes public_bytes public_2b_bytes sensitive_create_bytes
    sensitive_create_2b_bytes data_2b_bytes auth_command_bytes single_auth_area pcr_selections_bytes
    primary_template
transient_runs = refl

transient_raises : to_proto transient_command ≡ raise value_error
unfolding primary_template
transient_raises =
    (to_proto-tpm_create_primary (member TpmRs.pw) TpmAlg.sha256 2048 (IntOr.int 0x80000000) none
      (default_rsa_parms 2048) transient_command refl refl (inl refl) transient_runs).2

abbrev created_bytes : Bytes
created_bytes =
    128 ∷ 2 ∷ 0 ∷ 0 ∷ 0 ∷ 69 ∷ 0 ∷ 0 ∷ 1 ∷ 83 ∷ 128 ∷ 0 ∷ 0 ∷ 0 ∷ 0 ∷ 0 ∷ 0 ∷ 9 ∷ 64 ∷ 0 ∷ 0 ∷ 9 ∷ 0
    ∷ 0 ∷ 0 ∷ 0 ∷ 0 ∷ 0 ∷ 6 ∷ 0 ∷ 0 ∷ 0 ∷ 2 ∷ 104 ∷ 105 ∷ template_bytes

created_written : bytes_of created ≡ ok created_bytes
unfolding big_endian to_bytes command_bytes command_size base_of bytes_of
created_written = refl

abbrev created_message : Message
created_message =
    Message.create (record { tag = 0x8002; command_size = 69; command_code = 0x153 }) 0x80000000 []
      (record {
        size = 6;
        user_auth = record { size = 0; buffer = [] };
        sensitive_data = record { size = 2; buffer = 104 ∷ 105 ∷ [] };
      })
      (record {
        size = 26;
        type = 1;
        name_alg = 11;
        object_attributes = 197746;
        auth_policy = record { size = 0; buffer = [] };
        parameters = PublicParmsMessage.rsa 6 16 0 2048 0;
        unique = PublicIdMessage.rsa [];
      })
      (record { size = 0; buffer = [] }) (record { count = 0; pcr_selections = [] })

created_read : to_proto created ≡ ok (some created_message)
unfolding from_bytes index slice command_size proto_header proto_tpm2b_data parse_tpm2b
    pcr_selection_loop proto_pcr_selection proto_public proto_public_keyedhash proto_public_rsa
    proto_public_union proto_sensitive_create uint_at create_to_proto drop get_elem? take to_proto
created_read = refl

abbrev created_output : Bytes
created_output =
    128 ∷ 2 ∷ 0 ∷ 0 ∷ 0 ∷ 40 ∷ 0 ∷ 0 ∷ 1 ∷ 83 ∷ 128 ∷ 0 ∷ 0 ∷ 0 ∷ 0 ∷ 0 ∷ 0 ∷ 0 ∷ 0 ∷ 6 ∷ 0 ∷ 0 ∷ 0
    ∷ 2 ∷ 104 ∷ 105 ∷ 0 ∷ 6 ∷ 0 ∷ 3 ∷ 4 ∷ 114 ∷ 0 ∷ 0 ∷ 0 ∷ 0 ∷ 0 ∷ 0 ∷ 0 ∷ 0 ∷ []

created_marshalled : marshal_command wire created_message ≡ some created_output
unfolding marshal_command marshal_command_field marshal_tpm_command patch_command_size fields_of
    overwrite marshal_command_header marshal_repeated_field marshal_sessions marshal_tpm2b_digest
    marshal_tpm2b_public marshal_tpm2b_sensitive_create marshal_tpm_nv_public marshal_tpm_session
    marshal_tpml_pcr_selection marshal_tpmt_rsa_decrypt marshal_tpmt_sym_def mu_parms
    mu_pcr_selection mu_unique patch_auth_size drop replicate take big_endian
created_marshalled = refl

marshal_command-tpm_create_example :
    (uint_at created_bytes 14 4 ≡ 9) × (uint_at created_output 14 4 ≡ 0)
marshal_command-tpm_create_example =
    marshal_command-tpm_create wire wire_format 0x80000000 (member TpmRs.pw) TpmAlg.sha256
      TpmAlg.rsa 2048 none none none (104 ∷ 105 ∷ []) created created_bytes created_message
      created_output created_runs created_written created_read created_marshalled
