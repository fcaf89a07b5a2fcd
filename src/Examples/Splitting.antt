-- ===== src/Examples/Splitting.antt =====
-- NV and session commands, and a sequence of them cut again, at concrete arguments.
use tpm_fuzzer.Prelude.{
  drop, length, ap, All, ◌+◌, suc, ◌⊎◌, raise, index_error, arith, ◌≡◌, refl, List, [], ◌∷◌, none,
  some, map, true, ok, ◌>>=◌,
}
use tpm_fuzzer.Bytes.{Bytes, to_bytes, big_endian, sized, join}
use tpm_fuzzer.Bytes.Prefixed.{prefixed}
use tpm_fuzzer.Types.Enums.{TpmAlg, alg_value, alg_to_int, TpmRh, rh_to_int, TpmaNv, member}
use tpm_fuzzer.Types.Attributes.{nv_attrs_to_int, or_flags, flags}
use tpm_fuzzer.Types.Algorithms.{sym_def_object_bytes, default_sym_def_object}
use tpm_fuzzer.Types.Buffers.{data_2b_bytes}
use tpm_fuzzer.Types.Sessions.{auth_command_bytes, auth_area_bytes, single_auth_area}
use tpm_fuzzer.Types.Nv.{nv_public_bytes, nv_public_2b_bytes}
use tpm_fuzzer.Proto.{Message}
use tpm_fuzzer.Proto.Constants.{alg_name, se_name}
use tpm_fuzzer.Command.{TpmCommand, command_size, command_bytes, proto_header, proto_tpm2b_data}
use tpm_fuzzer.Commands.{to_proto}
use tpm_fuzzer.Commands.Instance.{Command, base_of}
use tpm_fuzzer.Commands.Hierarchy.{password_session}
use tpm_fuzzer.Commands.Nv.{nv_template, nv_define_space, proto_nv_public}
use tpm_fuzzer.Commands.Nv.DefineSpace.{
  nv_public_message, proto_nv_public-bytes, to_proto-nv_define_space,
}
use tpm_fuzzer.Commands.AuthSession.{nonce_or_default, salt_or_default, start_auth_session}
use tpm_fuzzer.Commands.AuthSession.Symmetric.{sym_key_bits, sym_mode}
use tpm_fuzzer.Commands.AuthSession.SessionMessage.{to_proto-start_auth_session}
use tpm_fuzzer.ByteParser.Header.{command_bytes-proto_header}
use tpm_fuzzer.ByteParser.{parse_loop, parse_commands}
use tpm_fuzzer.ByteParser.Partition.{
  joined, HasHeader, parse_commands-joined, parse_commands_enough,
}
use tpm_fuzzer.Command.Parse.{uint_at, proto_sessions}
use tpm_fuzzer.Command.Parse.SessionsEnd.{proto_sessions-cases}
use tpm_fuzzer.Proto.{TpmSession}
use tpm_fuzzer.ByteParser.Frames.{frame, parse_commands-serialize_sequence}
use tpm_fuzzer.Seeds.{bytes_of, serialize_sequence}

abbrev index_flags : List TpmaNv
index_flags = TpmaNv.owner_write ∷ TpmaNv.owner_read ∷ []

abbrev area_bytes : Bytes
area_bytes = 1 ∷ 0 ∷ 0 ∷ 1 ∷ 0 ∷ 11 ∷ 0 ∷ 2 ∷ 0 ∷ 2 ∷ 0 ∷ 0 ∷ 0 ∷ 8 ∷ []

area_runs : nv_public_bytes (nv_template 0x01000001 (flags index_flags) 8) ≡ ok area_bytes
unfolding nv_public_bytes nv_template nv_attrs_to_int or_flags sized to_bytes big_endian
area_runs = refl

proto_nv_public-bytes_example : proto_nv_public area_bytes ≡ (
    alg_name (alg_to_int (member TpmAlg.sha256)) >>= λ name.
    ok (nv_public_message (nv_template 0x01000001 (flags index_flags) 8) name))
unfolding nv_template
proto_nv_public-bytes_example =
    proto_nv_public-bytes (nv_template 0x01000001 (flags index_flags) 8) area_bytes area_runs

abbrev index_defined : Command
index_defined = Command.nv_define_space (record {
  tag = 0x8002;
  cc = 0x12A;
  params =
      64 ∷ 0 ∷ 0 ∷ 1 ∷ 0 ∷ 0 ∷ 0 ∷ 9 ∷ 64 ∷ 0 ∷ 0 ∷ 9 ∷ 0 ∷ 0 ∷ 0 ∷ 0 ∷ 0 ∷ 0 ∷ 0 ∷ 0 ∷ 14 ∷ 1 ∷ 0
      ∷ 0 ∷ 1 ∷ 0 ∷ 11 ∷ 0 ∷ 2 ∷ 0 ∷ 2 ∷ 0 ∷ 0 ∷ 0 ∷ 8 ∷ [];
})

index_defined_runs :
    nv_define_space 0x01000001 (flags index_flags) 0x40000009 TpmRh.owner 8 ≡ ok index_defined
unfolding nv_define_space nv_public_bytes nv_public_2b_bytes nv_template nv_attrs_to_int or_flags
    sized to_bytes big_endian single_auth_area auth_area_bytes auth_command_bytes join data_2b_bytes
index_defined_runs = refl

to_proto-nv_define_space_example :
    to_proto index_defined
    ≡ ok (
        some (
          Message.nvdefinespace
            (proto_header (base_of index_defined))
            0x40000001
            (password_session 0x40000009 ∷ [])
            (proto_tpm2b_data [])
            (record {
              nv_index = 0x01000001;
              name_alg = 0x000B;
              attributes = nv_attrs_to_int (flags index_flags);
              auth_policy = [];
              data_size = 8;
            })))
to_proto-nv_define_space_example =
    to_proto-nv_define_space 0x01000001 (flags index_flags) 0x40000009 TpmRh.owner 8 index_defined
      index_defined_runs

abbrev session_started : Command
session_started = Command.start_auth_session (record {
  tag = 0x8001;
  cc = 0x176;
  params =
      64 ∷ 0 ∷ 0 ∷ 7 ∷ 64 ∷ 0 ∷ 0 ∷ 7 ∷ 0 ∷ 4 ∷ 1 ∷ 2 ∷ 3 ∷ 4 ∷ 0 ∷ 0 ∷ 0 ∷ 0 ∷ 6 ∷ 0 ∷ 128 ∷ 0 ∷ 67
      ∷ 0 ∷ 11 ∷ [];
})

session_started_runs :
    start_auth_session
      (member TpmRh.null)
      (member TpmRh.null)
      (some (1 ∷ 2 ∷ 3 ∷ 4 ∷ []))
      none
      0
      default_sym_def_object
      TpmAlg.sha256
    ≡ ok session_started
unfolding start_auth_session nonce_or_default salt_or_default sym_def_object_bytes to_bytes
    big_endian
session_started_runs = refl

no_salt : salt_or_default none ≡ prefixed []
unfolding salt_or_default big_endian
no_salt = refl

to_proto-start_auth_session_example : to_proto session_started ≡ (
    se_name 0 >>= λ type_name.
    alg_name (alg_to_int default_sym_def_object.algorithm) >>= λ sym_name.
    alg_name (sym_mode default_sym_def_object) >>= λ mode_name. ok (
      some (
        Message.startauthsession
          (proto_header (base_of session_started))
          (rh_to_int (member TpmRh.null))
          (rh_to_int (member TpmRh.null))
          (proto_tpm2b_data (nonce_or_default (some (1 ∷ 2 ∷ 3 ∷ 4 ∷ []))))
          (proto_tpm2b_data [])
          type_name
          (record {
            algorithm = sym_name;
            key_bits = sym_key_bits default_sym_def_object;
            mode = mode_name;
          })
          (alg_value TpmAlg.sha256))))
to_proto-start_auth_session_example =
    to_proto-start_auth_session (member TpmRh.null) (member TpmRh.null) (some (1 ∷ 2 ∷ 3 ∷ 4 ∷ []))
      none [] 0 default_sym_def_object TpmAlg.sha256 session_started no_salt (omega arith)
      session_started_runs

abbrev sequence_bytes : Bytes
sequence_bytes =
    128 ∷ 1 ∷ 0 ∷ 0 ∷ 0 ∷ 35 ∷ 0 ∷ 0 ∷ 1 ∷ 118 ∷ 64 ∷ 0 ∷ 0 ∷ 7 ∷ 64 ∷ 0 ∷ 0 ∷ 7 ∷ 0 ∷ 4 ∷ 1 ∷ 2 ∷ 3
    ∷ 4 ∷ 0 ∷ 0 ∷ 0 ∷ 0 ∷ 6 ∷ 0 ∷ 128 ∷ 0 ∷ 67 ∷ 0 ∷ 11 ∷ 128 ∷ 2 ∷ 0 ∷ 0 ∷ 0 ∷ 45 ∷ 0 ∷ 0 ∷ 1 ∷ 42
    ∷ 64 ∷ 0 ∷ 0 ∷ 1 ∷ 0 ∷ 0 ∷ 0 ∷ 9 ∷ 64 ∷ 0 ∷ 0 ∷ 9 ∷ 0 ∷ 0 ∷ 0 ∷ 0 ∷ 0 ∷ 0 ∷ 0 ∷ 0 ∷ 14 ∷ 1 ∷ 0
    ∷ 0 ∷ 1 ∷ 0 ∷ 11 ∷ 0 ∷ 2 ∷ 0 ∷ 2 ∷ 0 ∷ 0 ∷ 0 ∷ 8 ∷ []

sequence_runs : serialize_sequence (session_started ∷ index_defined ∷ []) ≡ ok sequence_bytes
unfolding serialize_sequence bytes_of base_of command_bytes command_size join to_bytes big_endian
sequence_runs = refl

parse_commands-serialize_sequence_example :
    parse_commands sequence_bytes
    ≡ (true, map (λ c. frame (base_of c)) (session_started ∷ index_defined ∷ []))
parse_commands-serialize_sequence_example =
    parse_commands-serialize_sequence (session_started ∷ index_defined ∷ []) sequence_bytes
      sequence_runs

accepted : (parse_commands sequence_bytes).0 ≡ true
accepted =
    ap (λ o. o.0)
      (parse_commands-serialize_sequence (session_started ∷ index_defined ∷ []) sequence_bytes
        sequence_runs)

parse_commands-joined_example :
    (joined (parse_commands sequence_bytes).1 ≡ sequence_bytes)
    × All HasHeader (parse_commands sequence_bytes).1
parse_commands-joined_example = parse_commands-joined sequence_bytes accepted

parse_commands_enough_example :
    parse_loop (suc (length sequence_bytes) + 3) sequence_bytes 0 ≡ parse_commands sequence_bytes
parse_commands_enough_example = parse_commands_enough 3 sequence_bytes

proto_sessions-cases_example :
    ((sessions : List TpmSession) × (proto_sessions (0 ∷ 0 ∷ 0 ∷ 9 ∷ 64 ∷ 0 ∷ []) ≡ ok sessions))
    ⊎ (proto_sessions (0 ∷ 0 ∷ 0 ∷ 9 ∷ 64 ∷ 0 ∷ []) ≡ raise index_error)
proto_sessions-cases_example = proto_sessions-cases (0 ∷ 0 ∷ 0 ∷ 9 ∷ 64 ∷ 0 ∷ [])

command_bytes-proto_header_example :
    let c : TpmCommand = record { tag = 0x8001; cc = 0x17B; params = 0 ∷ 16 ∷ [] } in
    let b : Bytes = 128 ∷ 1 ∷ 0 ∷ 0 ∷ 0 ∷ 12 ∷ 0 ∷ 0 ∷ 1 ∷ 123 ∷ 0 ∷ 16 ∷ [] in
    (uint_at b 0 2 ≡ (proto_header c).tag)
    × (uint_at b 2 4 ≡ (proto_header c).command_size)
    × (length b ≡ (proto_header c).command_size)
    × (uint_at b 6 4 ≡ (proto_header c).command_code)
    × (drop 10 b ≡ c.params)
unfolding command_bytes command_size to_bytes big_endian
command_bytes-proto_header_example =
    command_bytes-proto_header (record { tag = 0x8001; cc = 0x17B; params = 0 ∷ 16 ∷ [] })
      (128 ∷ 1 ∷ 0 ∷ 0 ∷ 0 ∷ 12 ∷ 0 ∷ 0 ∷ 1 ∷ 123 ∷ 0 ∷ 16 ∷ []) refl
