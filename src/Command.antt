-- ===== src/Command.antt =====
-- The class TPMCommand of tools/seed-generation/tpm2_commands.py: the framing of a command and the
-- static methods that read structures back out of its bytes.
pub mod Parse
use tpm_fuzzer.Prelude.{ℕ, ◌+◌, ◌++◌, length, Result, ok, ◌>>=◌}
use tpm_fuzzer.Bytes.{Bytes, to_bytes}
use tpm_fuzzer.Proto.{TpmHeader, Buffer}

pub record TpmCommand : Type 0 where
  pub tag : ℕ
  pub cc : ℕ
  pub params : Bytes

abbrev pub st_len : ℕ
st_len = 2

abbrev pub cc_len : ℕ
cc_len = 4

abbrev pub size_len : ℕ
size_len = 4

-- `_command_size`
unfoldable pub command_size : TpmCommand → ℕ
command_size c = st_len + cc_len + size_len + length c.params

-- `__bytes__`
unfoldable pub command_bytes : TpmCommand → Result Bytes
command_bytes c = do
  tag ← to_bytes c.tag st_len
  size ← to_bytes (command_size c) size_len
  cc ← to_bytes c.cc cc_len
  ok (tag ++ (size ++ (cc ++ c.params)))

-- `_proto_header`
unfoldable pub proto_header : TpmCommand → TpmHeader
proto_header c = record { tag = c.tag; command_size = command_size c; command_code = c.cc }

-- `_proto_tpm2b_data`
unfoldable pub proto_tpm2b_data : Bytes → Buffer
proto_tpm2b_data content = record { size = length content; buffer = content }
