-- ===== src/Examples/MarshallingRsa.antt =====
-- The RSA commands whose messages are written by the structured fuzzer, at concrete arguments.
use tpm_fuzzer.Prelude.{◌≡◌, refl, arith, [], ◌∷◌, some, ok}
use tpm_fuzzer.Bytes.{Bytes, to_bytes, big_endian, sized, join}
use tpm_fuzzer.Types.Enums.{TpmRs, TpmAlg, member}
use tpm_fuzzer.Types.Algorithms.{RsaDecryptScheme, append_hash, rsa_decrypt_scheme_bytes}
use tpm_fuzzer.Types.Sessions.{auth_command_bytes, auth_area_bytes, single_auth_area}
use tpm_fuzzer.Proto.{Message}
use tpm_fuzzer.Command.{TpmCommand, command_size, command_bytes}
use tpm_fuzzer.Commands.{to_proto}
use tpm_fuzzer.Commands.Instance.{Command, base_of}
use tpm_fuzzer.Commands.Keys.{hash_or_zero, rsa_encrypt, rsa_decrypt}
use tpm_fuzzer.Seeds.{bytes_of}
use tpm_fuzzer.Marshal.{marshal_command}
use tpm_fuzzer.Marshal.Rsa.{marshal_command-rsa_encrypt, marshal_command-rsa_decrypt}
use tpm_fuzzer.Examples.Wire.{wire, wire_format}

abbrev oaep_scheme : RsaDecryptScheme
oaep_scheme = record { scheme = member TpmAlg.oaep; hash_alg = some (member TpmAlg.sha256) }

abbrev base_rsa_encrypt : TpmCommand
base_rsa_encrypt = record {
  tag = 0x8001;
  cc = 0x174;
  params = 128 ∷ 0 ∷ 0 ∷ 0 ∷ 0 ∷ 2 ∷ 65 ∷ 66 ∷ 0 ∷ 23 ∷ 0 ∷ 11 ∷ 0 ∷ 0 ∷ [];
}

abbrev made_rsa_encrypt : Command
made_rsa_encrypt = Command.rsa_encrypt base_rsa_encrypt 0x80000000 (65 ∷ 66 ∷ []) oaep_scheme []

abbrev bytes_rsa_encrypt : Bytes
bytes_rsa_encrypt =
    128 ∷ 1 ∷ 0 ∷ 0 ∷ 0 ∷ 24 ∷ 0 ∷ 0 ∷ 1 ∷ 116 ∷ 128 ∷ 0 ∷ 0 ∷ 0 ∷ 0 ∷ 2 ∷ 65 ∷ 66 ∷ 0 ∷ 23 ∷ 0 ∷ 11
    ∷ 0 ∷ 0 ∷ []

runs_rsa_encrypt : rsa_encrypt 0x80000000 (65 ∷ 66 ∷ []) oaep_scheme [] ≡ ok made_rsa_encrypt
unfolding rsa_encrypt rsa_decrypt_scheme_bytes append_hash to_bytes big_endian sized
runs_rsa_encrypt = refl

written_rsa_encrypt : bytes_of made_rsa_encrypt ≡ ok bytes_rsa_encrypt
unfolding bytes_of base_of command_bytes command_size to_bytes big_endian
written_rsa_encrypt = refl

marshal_command-rsa_encrypt_example :
    (m : Message) × (to_proto made_rsa_encrypt ≡ ok (some m))
    × (marshal_command wire m ≡ some bytes_rsa_encrypt)
unfolding hash_or_zero
marshal_command-rsa_encrypt_example =
    marshal_command-rsa_encrypt wire wire_format 0x80000000 (65 ∷ 66 ∷ []) oaep_scheme []
      made_rsa_encrypt bytes_rsa_encrypt (λ e absent. cc) runs_rsa_encrypt written_rsa_encrypt
      (omega arith) (omega arith) (omega arith)

abbrev base_rsa_decrypt : TpmCommand
base_rsa_decrypt = record {
  tag = 0x8002;
  cc = 0x159;
  params =
      128 ∷ 0 ∷ 0 ∷ 0 ∷ 0 ∷ 0 ∷ 0 ∷ 9 ∷ 64 ∷ 0 ∷ 0 ∷ 9 ∷ 0 ∷ 0 ∷ 0 ∷ 0 ∷ 0 ∷ 0 ∷ 2 ∷ 65 ∷ 66 ∷ 0
      ∷ 23 ∷ 0 ∷ 11 ∷ 0 ∷ 1 ∷ 108 ∷ [];
}

abbrev made_rsa_decrypt : Command
made_rsa_decrypt =
    Command.rsa_decrypt base_rsa_decrypt 0x80000000 (65 ∷ 66 ∷ []) oaep_scheme (108 ∷ []) 0x40000009

abbrev bytes_rsa_decrypt : Bytes
bytes_rsa_decrypt =
    128 ∷ 2 ∷ 0 ∷ 0 ∷ 0 ∷ 38 ∷ 0 ∷ 0 ∷ 1 ∷ 89 ∷ 128 ∷ 0 ∷ 0 ∷ 0 ∷ 0 ∷ 0 ∷ 0 ∷ 9 ∷ 64 ∷ 0 ∷ 0 ∷ 9 ∷ 0
    ∷ 0 ∷ 0 ∷ 0 ∷ 0 ∷ 0 ∷ 2 ∷ 65 ∷ 66 ∷ 0 ∷ 23 ∷ 0 ∷ 11 ∷ 0 ∷ 1 ∷ 108 ∷ []

runs_rsa_decrypt :
    rsa_decrypt 0x80000000 (65 ∷ 66 ∷ []) oaep_scheme (108 ∷ []) (member TpmRs.pw)
    ≡ ok made_rsa_decrypt
unfolding rsa_decrypt rsa_decrypt_scheme_bytes append_hash single_auth_area auth_area_bytes
    auth_command_bytes join to_bytes big_endian sized
runs_rsa_decrypt = refl

written_rsa_decrypt : bytes_of made_rsa_decrypt ≡ ok bytes_rsa_decrypt
unfolding bytes_of base_of command_bytes command_size to_bytes big_endian
written_rsa_decrypt = refl

marshal_command-rsa_decrypt_example :
    (m : Message) × (to_proto made_rsa_decrypt ≡ ok (some m))
    × (marshal_command wire m ≡ some bytes_rsa_decrypt)
unfolding hash_or_zero
marshal_command-rsa_decrypt_example =
    marshal_command-rsa_decrypt wire wire_format 0x80000000 (65 ∷ 66 ∷ []) oaep_scheme (108 ∷ [])
      (member TpmRs.pw) made_rsa_decrypt bytes_rsa_decrypt (λ e absent. cc) runs_rsa_decrypt
      written_rsa_decrypt (omega arith) (omega arith) (omega arith)
