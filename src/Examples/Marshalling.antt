-- ===== src/Examples/Marshalling.antt =====
-- Commands whose messages are written by the structured fuzzer, at concrete arguments.
use tpm_fuzzer.Prelude.{◌≡◌, refl, arith, [], ◌∷◌, none, some, ok}
use tpm_fuzzer.Bytes.{Bytes, to_bytes, big_endian, sized, join}
use tpm_fuzzer.Types.Enums.{TpmRh, TpmRs, TpmAlg, member}
use tpm_fuzzer.Types.Sessions.{auth_command_bytes, auth_area_bytes, single_auth_area}
use tpm_fuzzer.Proto.{Message}
use tpm_fuzzer.Command.{TpmCommand, command_size, command_bytes, proto_header, proto_tpm2b_data}
use tpm_fuzzer.Commands.{to_proto}
use tpm_fuzzer.Commands.Instance.{Command, base_of}
use tpm_fuzzer.Commands.Hierarchy.{password_session, tpm_clear, set_primary_policy}
use tpm_fuzzer.Commands.Simple.{get_random}
use tpm_fuzzer.Commands.Loading.{make_credential}
use tpm_fuzzer.Commands.Pcr.{pcr_set_auth_policy}
use tpm_fuzzer.Proto.Constants.{enum_value}
use tpm_fuzzer.Seeds.{bytes_of}
use tpm_fuzzer.Marshal.{marshal_command}
use tpm_fuzzer.Marshal.Clear.{marshal_command-tpm_clear}
use tpm_fuzzer.Marshal.Credential.{marshal_command-make_credential}
use tpm_fuzzer.Marshal.Policies.{
  marshal_command-set_primary_policy, marshal_command-pcr_set_auth_policy,
}
use tpm_fuzzer.Marshal.Random.{marshal_command-get_random}
use tpm_fuzzer.Examples.Wire.{wire, wire_format}

abbrev base_get_random : TpmCommand
base_get_random = record { tag = 0x8001; cc = 0x17b; params = 0 ∷ 32 ∷ [] }

abbrev made_get_random : Command
made_get_random = Command.get_random base_get_random

abbrev bytes_get_random : Bytes
bytes_get_random = 128 ∷ 1 ∷ 0 ∷ 0 ∷ 0 ∷ 12 ∷ 0 ∷ 0 ∷ 1 ∷ 123 ∷ 0 ∷ 32 ∷ []

runs_get_random : get_random 32 0x8001 none ≡ ok made_get_random
unfolding get_random to_bytes big_endian sized
runs_get_random = refl

written_get_random : bytes_of made_get_random ≡ ok bytes_get_random
unfolding bytes_of base_of command_bytes command_size to_bytes big_endian
written_get_random = refl

marshal_command-get_random_example :
    (m : Message) × (to_proto made_get_random ≡ ok (some m))
    × (marshal_command wire m ≡ some bytes_get_random)
marshal_command-get_random_example =
    marshal_command-get_random wire wire_format 32 0x8001 made_get_random bytes_get_random
      runs_get_random written_get_random (omega arith)

abbrev base_tpm_clear : TpmCommand
base_tpm_clear = record {
  tag = 0x8002;
  cc = 0x126;
  params = 64 ∷ 0 ∷ 0 ∷ 10 ∷ 0 ∷ 0 ∷ 0 ∷ 9 ∷ 64 ∷ 0 ∷ 0 ∷ 9 ∷ 0 ∷ 0 ∷ 0 ∷ 0 ∷ 0 ∷ [];
}

abbrev made_tpm_clear : Command
made_tpm_clear = Command.clear base_tpm_clear 0x4000000A 0x40000009

abbrev bytes_tpm_clear : Bytes
bytes_tpm_clear =
    128 ∷ 2 ∷ 0 ∷ 0 ∷ 0 ∷ 27 ∷ 0 ∷ 0 ∷ 1 ∷ 38 ∷ 64 ∷ 0 ∷ 0 ∷ 10 ∷ 0 ∷ 0 ∷ 0 ∷ 9 ∷ 64 ∷ 0 ∷ 0 ∷ 9 ∷ 0
    ∷ 0 ∷ 0 ∷ 0 ∷ 0 ∷ []

runs_tpm_clear : tpm_clear (member TpmRh.lockout) (member TpmRs.pw) ≡ ok made_tpm_clear
unfolding tpm_clear single_auth_area auth_area_bytes auth_command_bytes join to_bytes big_endian
    sized
runs_tpm_clear = refl

written_tpm_clear : bytes_of made_tpm_clear ≡ ok bytes_tpm_clear
unfolding bytes_of base_of command_bytes command_size to_bytes big_endian
written_tpm_clear = refl

marshal_command-tpm_clear_example :
    (m : Message) × (to_proto made_tpm_clear ≡ ok (some m))
    × (marshal_command wire m ≡ some bytes_tpm_clear)
marshal_command-tpm_clear_example =
    marshal_command-tpm_clear wire wire_format (member TpmRh.lockout) (member TpmRs.pw)
      made_tpm_clear bytes_tpm_clear runs_tpm_clear written_tpm_clear (omega arith)

abbrev base_make_credential : TpmCommand
base_make_credential = record {
  tag = 0x8001;
  cc = 0x168;
  params = 128 ∷ 0 ∷ 0 ∷ 0 ∷ 0 ∷ 2 ∷ 7 ∷ 8 ∷ 0 ∷ 3 ∷ 0 ∷ 11 ∷ 5 ∷ [];
}

abbrev made_make_credential : Command
made_make_credential =
    Command.make_credential base_make_credential 0x80000000 (7 ∷ 8 ∷ []) (0 ∷ 11 ∷ 5 ∷ [])

abbrev bytes_make_credential : Bytes
bytes_make_credential =
    128 ∷ 1 ∷ 0 ∷ 0 ∷ 0 ∷ 23 ∷ 0 ∷ 0 ∷ 1 ∷ 104 ∷ 128 ∷ 0 ∷ 0 ∷ 0 ∷ 0 ∷ 2 ∷ 7 ∷ 8 ∷ 0 ∷ 3 ∷ 0 ∷ 11
    ∷ 5 ∷ []

runs_make_credential :
    make_credential 0x80000000 (7 ∷ 8 ∷ []) (0 ∷ 11 ∷ 5 ∷ []) ≡ ok made_make_credential
unfolding make_credential to_bytes big_endian sized
runs_make_credential = refl

written_make_credential : bytes_of made_make_credential ≡ ok bytes_make_credential
unfolding bytes_of base_of command_bytes command_size to_bytes big_endian
written_make_credential = refl

marshal_command-make_credential_example :
    (m : Message) × (to_proto made_make_credential ≡ ok (some m))
    × (marshal_command wire m ≡ some bytes_make_credential)
marshal_command-make_credential_example =
    marshal_command-make_credential wire wire_format 0x80000000 (7 ∷ 8 ∷ []) (0 ∷ 11 ∷ 5 ∷ [])
      made_make_credential bytes_make_credential runs_make_credential written_make_credential
      (omega arith) (omega arith) (omega arith)

abbrev base_set_primary_policy : TpmCommand
base_set_primary_policy = record {
  tag = 0x8002;
  cc = 0x12e;
  params =
      64 ∷ 0 ∷ 0 ∷ 1 ∷ 0 ∷ 0 ∷ 0 ∷ 9 ∷ 64 ∷ 0 ∷ 0 ∷ 9 ∷ 0 ∷ 0 ∷ 0 ∷ 0 ∷ 0 ∷ 0 ∷ 2 ∷ 17 ∷ 18 ∷ 0 ∷ 11
      ∷ [];
}

abbrev made_set_primary_policy : Command
made_set_primary_policy = Command.prepared base_set_primary_policy (
    Message.setprimarypolicy (proto_header base_set_primary_policy) 0x40000001
      (password_session 0x40000009 ∷ []) (proto_tpm2b_data (17 ∷ 18 ∷ [])) 0x000B)

abbrev bytes_set_primary_policy : Bytes
bytes_set_primary_policy =
    128 ∷ 2 ∷ 0 ∷ 0 ∷ 0 ∷ 33 ∷ 0 ∷ 0 ∷ 1 ∷ 46 ∷ 64 ∷ 0 ∷ 0 ∷ 1 ∷ 0 ∷ 0 ∷ 0 ∷ 9 ∷ 64 ∷ 0 ∷ 0 ∷ 9 ∷ 0
    ∷ 0 ∷ 0 ∷ 0 ∷ 0 ∷ 0 ∷ 2 ∷ 17 ∷ 18 ∷ 0 ∷ 11 ∷ []

runs_set_primary_policy :
    set_primary_policy (member TpmRh.owner) (17 ∷ 18 ∷ []) (member TpmAlg.sha256) (member TpmRs.pw)
    ≡ ok made_set_primary_policy
unfolding set_primary_policy enum_value single_auth_area auth_area_bytes auth_command_bytes join
    to_bytes big_endian sized
runs_set_primary_policy = refl

written_set_primary_policy : bytes_of made_set_primary_policy ≡ ok bytes_set_primary_policy
unfolding bytes_of base_of command_bytes command_size to_bytes big_endian
written_set_primary_policy = refl

marshal_command-set_primary_policy_example :
    (m : Message) × (to_proto made_set_primary_policy ≡ ok (some m))
    × (marshal_command wire m ≡ some bytes_set_primary_policy)
marshal_command-set_primary_policy_example =
    marshal_command-set_primary_policy wire wire_format (member TpmRh.owner) (17 ∷ 18 ∷ [])
      (member TpmAlg.sha256) (member TpmRs.pw) made_set_primary_policy bytes_set_primary_policy
      runs_set_primary_policy written_set_primary_policy (omega arith)

abbrev base_pcr_set_auth_policy : TpmCommand
base_pcr_set_auth_policy = record {
  tag = 0x8002;
  cc = 0x12c;
  params =
      64 ∷ 0 ∷ 0 ∷ 12 ∷ 0 ∷ 0 ∷ 0 ∷ 9 ∷ 64 ∷ 0 ∷ 0 ∷ 9 ∷ 0 ∷ 0 ∷ 0 ∷ 0 ∷ 0 ∷ 0 ∷ 2 ∷ 17 ∷ 18 ∷ 0
      ∷ 11 ∷ 0 ∷ 0 ∷ 0 ∷ 11 ∷ [];
}

abbrev made_pcr_set_auth_policy : Command
made_pcr_set_auth_policy = Command.prepared base_pcr_set_auth_policy (
    Message.pcrsetauthpolicy (proto_header base_pcr_set_auth_policy) 0x4000000C
      (password_session 0x40000009 ∷ []) (proto_tpm2b_data (17 ∷ 18 ∷ [])) 0x000B 11)

abbrev bytes_pcr_set_auth_policy : Bytes
bytes_pcr_set_auth_policy =
    128 ∷ 2 ∷ 0 ∷ 0 ∷ 0 ∷ 37 ∷ 0 ∷ 0 ∷ 1 ∷ 44 ∷ 64 ∷ 0 ∷ 0 ∷ 12 ∷ 0 ∷ 0 ∷ 0 ∷ 9 ∷ 64 ∷ 0 ∷ 0 ∷ 9 ∷ 0
    ∷ 0 ∷ 0 ∷ 0 ∷ 0 ∷ 0 ∷ 2 ∷ 17 ∷ 18 ∷ 0 ∷ 11 ∷ 0 ∷ 0 ∷ 0 ∷ 11 ∷ []

runs_pcr_set_auth_policy :
    pcr_set_auth_policy 0x4000000C (17 ∷ 18 ∷ []) (member TpmAlg.sha256) 11 0x40000009
    ≡ ok made_pcr_set_auth_policy
unfolding pcr_set_auth_policy single_auth_area auth_area_bytes auth_command_bytes join to_bytes
    big_endian sized
runs_pcr_set_auth_policy = refl

written_pcr_set_auth_policy : bytes_of made_pcr_set_auth_policy ≡ ok bytes_pcr_set_auth_policy
unfolding bytes_of base_of command_bytes command_size to_bytes big_endian
written_pcr_set_auth_policy = refl

marshal_command-pcr_set_auth_policy_example :
    (m : Message) × (to_proto made_pcr_set_auth_policy ≡ ok (some m))
    × (marshal_command wire m ≡ some bytes_pcr_set_auth_policy)
marshal_command-pcr_set_auth_policy_example =
    marshal_command-pcr_set_auth_policy wire wire_format 0x4000000C (17 ∷ 18 ∷ [])
      (member TpmAlg.sha256) 11 0x40000009 made_pcr_set_auth_policy bytes_pcr_set_auth_policy
      runs_pcr_set_auth_policy written_pcr_set_auth_policy (omega arith)
