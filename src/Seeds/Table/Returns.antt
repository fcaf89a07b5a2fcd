-- ===== src/Seeds/Table/Returns.antt =====
-- What the serializations of a list of seeds of `TEST_CASES` return.
pub mod Single
pub mod Objects
pub mod Plain
pub mod Asymmetric
pub mod Registers
pub mod Indices
use tpm_fuzzer.Bytes.{big_endian, from_bytes, index, join, sized, slice, to_bytes}
use tpm_fuzzer.Command.{command_bytes, command_size, proto_header, proto_tpm2b_data}
use tpm_fuzzer.Command.Parse.{
  parse_tpm2b, pcr_selection_loop, proto_pcr_selection, proto_public, proto_public_keyedhash,
  proto_public_rsa, proto_public_union, proto_sensitive_create, proto_sessions, session_at,
  sessions_loop, uint_at,
}
use tpm_fuzzer.Commands.{to_proto}
use tpm_fuzzer.Commands.AuthSession.{parse_symmetric, start_auth_session_to_proto}
use tpm_fuzzer.Commands.Creation.{create_primary_to_proto, create_to_proto, parse_auth_area}
use tpm_fuzzer.Commands.Hierarchy.{clear_to_proto, password_session}
use tpm_fuzzer.Commands.Instance.{base_of}
use tpm_fuzzer.Commands.Keys.{
  hash_or_zero, rsa_decrypt_to_proto, rsa_encrypt_to_proto, scheme_message,
}
use tpm_fuzzer.Commands.Loading.{make_credential_to_proto}
use tpm_fuzzer.Commands.Nv.{nv_define_space_to_proto, proto_nv_public}
use tpm_fuzzer.Commands.Pcr.{pcr_allocate_to_proto}
use tpm_fuzzer.Commands.Simple.{get_random_to_proto}
use tpm_fuzzer.Prelude.{Result, drop, get_elem?, ok, replicate, take, ◌>>=◌}
use tpm_fuzzer.Proto.Constants.{enum_value, alg_name, is_alg, se_name}
use tpm_fuzzer.Seeds.{bytes_of, proto_commands, serialize_sequence}
use tpm_fuzzer.Seeds.Generation.{SeedVariants}
use tpm_fuzzer.Seeds.Generation.Returns.{variants_result}
use tpm_fuzzer.Types.Algorithms.{
  append_hash, keyedhash_parms_bytes, public_parms_bytes, rsa_decrypt_scheme_bytes, rsa_parms_bytes,
  sig_scheme_bytes, sym_def_object_bytes,
}
use tpm_fuzzer.Types.Attributes.{attributes_or_default, attrs_to_int, nv_attrs_to_int, or_flags}
use tpm_fuzzer.Types.Buffers.{
  data_2b_bytes, private_2b_bytes, sensitive_2b_bytes, sensitive_create_2b_bytes,
  sensitive_create_bytes, tk_hashcheck_bytes,
}
use tpm_fuzzer.Types.Nv.{nv_public_2b_bytes, nv_public_bytes}
use tpm_fuzzer.Types.Pcr.{
  digest_values_bytes, pcr_selection_bytes, pcr_selections_bytes, tpmt_ha_bytes,
}
use tpm_fuzzer.Types.Public.{
  keyedhash_area, public_2b_bytes, public_bytes, public_union, rsa_area, scheme_or_default,
}
use tpm_fuzzer.Types.Sessions.{auth_area_bytes, auth_command_bytes, single_auth_area}

unfoldable pub seeds_result : Result SeedVariants → Result (Unit {0})
unfolding variants_result big_endian from_bytes index join sized slice to_bytes command_bytes
    command_size proto_header proto_tpm2b_data parse_tpm2b pcr_selection_loop proto_pcr_selection
    proto_public proto_public_keyedhash proto_public_rsa proto_public_union proto_sensitive_create
    proto_sessions session_at sessions_loop uint_at to_proto parse_symmetric
    start_auth_session_to_proto create_primary_to_proto create_to_proto parse_auth_area
    clear_to_proto password_session base_of hash_or_zero rsa_decrypt_to_proto rsa_encrypt_to_proto
    scheme_message make_credential_to_proto nv_define_space_to_proto proto_nv_public
    pcr_allocate_to_proto get_random_to_proto drop get_elem? replicate take enum_value alg_name
    is_alg se_name bytes_of proto_commands serialize_sequence append_hash keyedhash_parms_bytes
    public_parms_bytes rsa_decrypt_scheme_bytes rsa_parms_bytes sig_scheme_bytes
    sym_def_object_bytes attributes_or_default attrs_to_int nv_attrs_to_int or_flags data_2b_bytes
    private_2b_bytes sensitive_2b_bytes sensitive_create_2b_bytes sensitive_create_bytes
    tk_hashcheck_bytes nv_public_2b_bytes nv_public_bytes digest_values_bytes pcr_selection_bytes
    pcr_selections_bytes tpmt_ha_bytes keyedhash_area public_2b_bytes public_bytes public_union
    rsa_area scheme_or_default auth_area_bytes auth_command_bytes single_auth_area
seeds_result made = made >>= variants_result
