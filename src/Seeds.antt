-- ===== src/Seeds.antt =====
-- The serialization of a sequence of commands in tools/seed-generation/main.py.
pub mod Directory
pub mod Variants
pub mod Generation
pub mod Table
use tpm_fuzzer.Prelude.{List, [], ◌∷◌, Option, none, some, Result, ok, ◌>>=◌}
use tpm_fuzzer.Bytes.{Bytes, join}
use tpm_fuzzer.Proto.{Message}
use tpm_fuzzer.Command.{command_bytes}
use tpm_fuzzer.Commands.{to_proto}
use tpm_fuzzer.Commands.Instance.{Command, base_of}

-- `bytes(command)`
unfoldable pub bytes_of : Command → Result Bytes
bytes_of c = command_bytes (base_of c)

-- `_serialize_sequence`
unfoldable pub serialize_sequence : List Command → Result Bytes
serialize_sequence commands = join bytes_of commands

-- The loop of `_serialize_proto_sequence`: `none` from the first command without a message on.
unfoldable pub proto_commands : List Command → Result (Option (List Message))
proto_commands [] = ok (some [])
proto_commands (c ∷ more) =
    let rest = proto_commands more in
    do
      payload ← to_proto c
      elim payload [
        | none ↦ ok none
        | some message ↦ (do
          tail ← rest
          elim tail [ none ↦ ok none | some messages ↦ ok (some (message ∷ messages)) ])
      ]

-- `_serialize_proto_sequence`; `render` is the text format of protobuf.
unfoldable pub serialize_proto_sequence :
    (List Message → Bytes) → List Command → Result (Option Bytes)
serialize_proto_sequence render commands = do
  found ← proto_commands commands
  elim found [ none ↦ ok none | some messages ↦ ok (some (render messages)) ]
