-- ===== src/Examples/Wire.antt =====
-- The functions of tss2, for the commands of the examples.
use tpm_fuzzer.Prelude.{◌+◌, ◌++◌, length, refl, none}
use tpm_fuzzer.Bytes.{big_endian}
use tpm_fuzzer.Bytes.Prefixed.{prefixed}
use tpm_fuzzer.Marshal.Tss2.{Mu, IsWireFormat, if_room}

-- Functions with the documented format of integers and buffers; those of other structures write some
-- of their fields, or fail.
abbrev pub wire : Mu
wire = record {
  uint16 = λ n room. if_room (big_endian 2 n) room;
  uint32 = λ n room. if_room (big_endian 4 n) room;
  tpm2b_data = λ x room. if_room (prefixed x) room;
  tpm2b_private = λ x room. if_room (prefixed x) room;
  tpm2b_public_key_rsa = λ x room. if_room (prefixed x) room;
  tpm2b_event = λ x room. if_room (prefixed x) room;
  tpmt_sym_def = λ s room. none;
  tpm2b_sensitive_create = λ s room. if_room (prefixed (prefixed s.0 ++ prefixed s.1)) room;
  tpm2b_public =
      λ p room. if_room (prefixed (big_endian 4 p.object_attributes ++ prefixed p.unique)) room;
  tpml_pcr_selection = λ p room. if_room (big_endian 4 (length p)) room;
  tpm2b_nv_public = λ p room. none;
  nv_public_size = λ p. 14 + length p.auth_policy;
  data_capacity = 66;
  private_capacity = 1024;
  public_key_rsa_capacity = 512;
  event_capacity = 1024;
  auth_capacity = 64;
  sensitive_data_capacity = 256;
  digest_capacity = 64;
  select_capacity = 4;
  num_pcr_banks = 16;
}

pub wire_format : IsWireFormat wire
wire_format = record {
  writes_uint16 = λ n room fits. refl;
  writes_uint32 = λ n room fits. refl;
  writes_data = λ x room short fits. refl;
  writes_public_key_rsa = λ x room short fits. refl;
}
