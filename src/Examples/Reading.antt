-- ===== src/Examples/Reading.antt =====
-- Structures and commands read back from concrete bytes.
use tpm_fuzzer.Prelude.{
  arith, ◌-◌, ◌≡◌, refl, List, [], ◌∷◌, Option, none, some, inl, length, take, map, ok,
}
use tpm_fuzzer.Bytes.{Bytes, to_bytes, big_endian, sized, join}
use tpm_fuzzer.Bytes.Prefixed.{prefixed}
use tpm_fuzzer.Types.Enums.{TpmAlg, alg_value, alg_to_int, member}
use tpm_fuzzer.Types.Attributes.{attrs_to_int, or_flags, Attributes}
use tpm_fuzzer.Types.Algorithms.{
  sym_def_object_bytes, append_hash, rsa_parms_bytes, default_rsa_parms, KeyedhashParms,
  keyedhash_parms_bytes,
}
use tpm_fuzzer.Types.Public.{
  TpmtPublic, default_public, rsa_area, keyedhash_area, scheme_or_default, public_union,
  public_bytes, public_2b_bytes,
}
use tpm_fuzzer.Types.Public.Layout.{keyedhash_hash}
use tpm_fuzzer.Types.Buffers.{SensitiveCreate, sensitive_create_bytes, sensitive_create_2b_bytes}
use tpm_fuzzer.Types.Sessions.{
  AuthCommand, default_auth_command, auth_command_bytes, auth_area_bytes,
}
use tpm_fuzzer.Types.Pcr.{PcrSelection, pcr_selection_bytes, pcr_selections_bytes}
use tpm_fuzzer.Proto.{PublicParmsMessage, PublicIdMessage}
use tpm_fuzzer.Command.{proto_tpm2b_data}
use tpm_fuzzer.Command.Parse.{
  proto_sensitive_create, proto_public, proto_pcr_selection, proto_sessions,
}
use tpm_fuzzer.Command.Parse.SensitiveArea.{sensitive_create_message, proto_sensitive_create-bytes}
use tpm_fuzzer.Command.Parse.PublicRoundTrip.{
  public_message, rsa_union, keyedhash_union, proto_public-rsa, proto_public-keyedhash,
}
use tpm_fuzzer.Command.Parse.HashMisread.{proto_public-hmac}
use tpm_fuzzer.Command.Parse.PcrList.{pcr_selections_message, proto_pcr_selection-bytes}
use tpm_fuzzer.Command.Parse.SessionList.{session_message, proto_sessions-bytes}

abbrev sensitive : SensitiveCreate
sensitive = record { user_auth = 7 ∷ []; sensitive_data = 8 ∷ 9 ∷ [] }

sensitive_runs : sensitive_create_2b_bytes sensitive ≡ ok (0 ∷ 7 ∷ 0 ∷ 1 ∷ 7 ∷ 0 ∷ 2 ∷ 8 ∷ 9 ∷ [])
unfolding sensitive_create_2b_bytes sensitive_create_bytes sized to_bytes big_endian
sensitive_runs = refl

proto_sensitive_create-bytes_example :
    proto_sensitive_create (0 ∷ 7 ∷ 0 ∷ 1 ∷ 7 ∷ 0 ∷ 2 ∷ 8 ∷ 9 ∷ [])
    ≡ sensitive_create_message sensitive
proto_sensitive_create-bytes_example =
    proto_sensitive_create-bytes sensitive (0 ∷ 7 ∷ 0 ∷ 1 ∷ 7 ∷ 0 ∷ 2 ∷ 8 ∷ 9 ∷ []) sensitive_runs

abbrev rsa_key : TpmtPublic
rsa_key = default_public (member TpmAlg.rsa) (member TpmAlg.sha256)

abbrev rsa_key_bytes : Bytes
rsa_key_bytes =
    0 ∷ 26 ∷ 0 ∷ 1 ∷ 0 ∷ 11 ∷ 0 ∷ 3 ∷ 4 ∷ 114 ∷ 0 ∷ 0 ∷ 0 ∷ 6 ∷ 0 ∷ 128 ∷ 0 ∷ 67 ∷ 0 ∷ 16 ∷ 8 ∷ 0
    ∷ 0 ∷ 0 ∷ 0 ∷ 0 ∷ 0 ∷ 0 ∷ []

rsa_key_runs : public_2b_bytes rsa_key ≡ ok rsa_key_bytes
unfolding public_2b_bytes public_bytes public_union rsa_area rsa_parms_bytes append_hash
    sym_def_object_bytes sized to_bytes big_endian attrs_to_int or_flags
rsa_key_runs = refl

proto_public-rsa_example :
    proto_public rsa_key_bytes
    ≡ ok (public_message rsa_key (length rsa_key_bytes - 2) (rsa_union (default_rsa_parms 2048) []))
proto_public-rsa_example =
    proto_public-rsa rsa_key (default_rsa_parms 2048) rsa_key_bytes refl refl (inl refl)
      rsa_key_runs

-- A keyed hash object with the given scheme and the unique field 1, 2, 3.
abbrev keyed : Option KeyedhashParms → TpmtPublic
keyed scheme = record {
  type = member TpmAlg.keyedhash;
  name_alg = member TpmAlg.sha256;
  object_attributes = Attributes.word 0x40;
  auth_policy = [];
  rsa_parameters = none;
  unique = 1 ∷ 2 ∷ 3 ∷ [];
  keyedhash_scheme = scheme;
}

abbrev sealed_bytes : Bytes
sealed_bytes = 0 ∷ 17 ∷ 0 ∷ 8 ∷ 0 ∷ 11 ∷ 0 ∷ 0 ∷ 0 ∷ 64 ∷ 0 ∷ 0 ∷ 0 ∷ 16 ∷ 0 ∷ 3 ∷ 1 ∷ 2 ∷ 3 ∷ []

sealed_runs : public_2b_bytes (keyed none) ≡ ok sealed_bytes
unfolding public_2b_bytes public_bytes public_union keyedhash_area scheme_or_default
    keyedhash_parms_bytes append_hash sized to_bytes big_endian attrs_to_int
sealed_runs = refl

no_hash : keyedhash_hash (scheme_or_default none) ≡ []
unfolding keyedhash_hash scheme_or_default
no_hash = refl

proto_public-keyedhash_example :
    proto_public sealed_bytes
    ≡ ok (
        public_message
          (keyed none)
          (length sealed_bytes - 2)
          (keyedhash_union (scheme_or_default none) (1 ∷ 2 ∷ 3 ∷ [])))
proto_public-keyedhash_example =
    proto_public-keyedhash (keyed none) sealed_bytes refl no_hash sealed_runs

abbrev hmac_scheme : KeyedhashParms
hmac_scheme = record { scheme = member TpmAlg.hmac; hash_alg = some (member TpmAlg.sha256) }

abbrev hmac_bytes : Bytes
hmac_bytes =
    0 ∷ 19 ∷ 0 ∷ 8 ∷ 0 ∷ 11 ∷ 0 ∷ 0 ∷ 0 ∷ 64 ∷ 0 ∷ 0 ∷ 0 ∷ 5 ∷ 0 ∷ 11 ∷ 0 ∷ 3 ∷ 1 ∷ 2 ∷ 3 ∷ []

hmac_runs : public_2b_bytes (keyed (some hmac_scheme)) ≡ ok hmac_bytes
unfolding public_2b_bytes public_bytes public_union keyedhash_area scheme_or_default
    keyedhash_parms_bytes append_hash sized to_bytes big_endian attrs_to_int
hmac_runs = refl

proto_public-hmac_example :
    proto_public hmac_bytes
    ≡ ok (
        public_message (keyed (some hmac_scheme)) (length hmac_bytes - 2) (
          PublicParmsMessage.keyedhash (alg_value TpmAlg.hmac),
          PublicIdMessage.keyedhash (
              proto_tpm2b_data
                (take (alg_to_int (member TpmAlg.sha256)) (prefixed (1 ∷ 2 ∷ 3 ∷ [])))),
        ))
proto_public-hmac_example =
    proto_public-hmac (keyed (some hmac_scheme)) hmac_scheme (member TpmAlg.sha256) hmac_bytes refl
      refl refl refl (omega arith) hmac_runs

abbrev selections : List PcrSelection
selections =
    record { hash = member TpmAlg.sha1; pcr_select = 255 ∷ 255 ∷ 255 ∷ [] }
    ∷ record { hash = member TpmAlg.sha256; pcr_select = 1 ∷ [] }
    ∷ []

abbrev selections_bytes : Bytes
selections_bytes = 0 ∷ 0 ∷ 0 ∷ 2 ∷ 0 ∷ 4 ∷ 3 ∷ 255 ∷ 255 ∷ 255 ∷ 0 ∷ 11 ∷ 1 ∷ 1 ∷ []

selections_run : pcr_selections_bytes selections ≡ ok selections_bytes
unfolding pcr_selections_bytes pcr_selection_bytes join to_bytes big_endian
selections_run = refl

proto_pcr_selection-bytes_example :
    proto_pcr_selection selections_bytes ≡ ok (pcr_selections_message selections)
proto_pcr_selection-bytes_example =
    proto_pcr_selection-bytes selections selections_bytes selections_run

abbrev two_sessions : List AuthCommand
two_sessions =
    record {
      session_handle = 0x03000000;
      nonce = 5 ∷ 6 ∷ [];
      session_attributes = 1;
      hmac = 9 ∷ [];
    }
    ∷ default_auth_command 0x40000009
    ∷ []

abbrev two_sessions_bytes : Bytes
two_sessions_bytes =
    0 ∷ 0 ∷ 0 ∷ 21 ∷ 3 ∷ 0 ∷ 0 ∷ 0 ∷ 0 ∷ 2 ∷ 5 ∷ 6 ∷ 1 ∷ 0 ∷ 1 ∷ 9 ∷ 64 ∷ 0 ∷ 0 ∷ 9 ∷ 0 ∷ 0 ∷ 0 ∷ 0
    ∷ 0 ∷ []

two_sessions_run : auth_area_bytes two_sessions ≡ ok two_sessions_bytes
unfolding auth_area_bytes auth_command_bytes join sized to_bytes big_endian
two_sessions_run = refl

proto_sessions-bytes_example :
    proto_sessions two_sessions_bytes ≡ ok (map session_message two_sessions)
proto_sessions-bytes_example = proto_sessions-bytes two_sessions two_sessions_bytes two_sessions_run
