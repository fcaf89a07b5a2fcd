-- ===== src/Lib.antt =====
-- The seed generator of the TPM 2.0 fuzzer, and what takes its seeds: the parser of byte seeds and
-- the marshalling of messages.
--
-- tools/seed-generation builds TPM commands from Python objects and writes each sequence of them
-- twice: as the bytes that the byte fuzzer replays, and as a protobuf text that the structured
-- fuzzer replays. The structures of a command (tpm2_types.py) know their bytes; a command class
-- (tpm2_commands.py) puts them behind a header, and its `to_proto` gives the protobuf message,
-- either from the arguments it kept or by reading its own parameter bytes back. main.py joins the
-- commands of a sequence and keeps the seed directories. On the other side `parseCommands` of
-- src/parser/byte_parser.cc cuts a byte seed into commands again, and `MarshalCommand` of
-- src/harness/proto_conversion.cc writes the bytes of a command from its message.
--
-- Files:
--   Prelude               shared names; lists measured by native numbers; Python exceptions
--   Bytes                 `int.to_bytes`, `int.from_bytes`, slices and size-prefixed buffers
--   Types                 tools/seed-generation/tpm2_types.py: Enums, Attributes (flag words),
--                         Algorithms, Public (TPMT_PUBLIC), Buffers, Sessions, Pcr, Nv
--   Proto                 the messages and constants of include/proto that the generator uses
--   Command               class TPMCommand: size, bytes and header
--   Command/Parse         its static methods `_parse_tpm2b` and `_proto_*`
--   Commands              the command classes of tools/seed-generation/tpm2_commands.py: Instance
--                         has one constructor for each class with a `to_proto` of its own;
--                         Hierarchy, Simple, Creation, Loading, AuthSession, Keys, Pcr and Nv
--                         hold `__init__` and `to_proto` of the classes. `to_proto` of Commands
--                         is the method dispatch
--   ByteParser            src/parser/byte_parser.cc
--   Marshal               `MarshalCommand` of src/harness/proto_conversion.cc: Steps has the writing
--                         at the offset, Fields the fields of a message in the order of
--                         include/proto/tpm_commands, Structures the functions of one type each,
--                         Tss2 the functions of tss2. Writes, Frame, Whole and FieldBytes say what
--                         steps write; the other files compose it with `to_proto`
--   Seeds                 `_serialize_sequence` and `_serialize_proto_sequence` of main.py
--   Seeds/Directory       file names, reading, writing, removing and listing of a directory
--   Seeds/Variants        `_create_variant` of main.py
--   Seeds/Generation      `_normalize_variants`, `_run_commands`, `_generate_seeds` of main.py; its
--                         Shelf and Refinement read a directory as one seed at most for each
--                         variant of a command, Returns and Fresh are about a whole run
--   Seeds/Table           `TEST_CASES` and the functions `tpm_*_seeds` of main.py that it names:
--                         Objects, Plain, Asymmetric, Registers, Indices, with their byte strings
--                         in Blobs; `generate_test_cases` is the run of the script
--   Examples              runs at concrete arguments
--
-- A Python `int` is a natural number, which no `int` in these files leaves for a valid call;
-- `to_bytes` raises OverflowError where the number does not fit, and a method that raises is a
-- `Result` that is `raise` of the exception. Bytes are numbers, and those that `to_bytes` writes
-- are below 256. An `Optional` argument is an `Option`, and `Union[int, E]` is `IntOr E`.
--
-- Loops: the loops of `_proto_pcr_selection` and of most serializers follow a list or a count. The
-- loop of `_proto_sessions` runs on fuel, the length of the buffer: each round reads a handle and
-- two sizes, so the offset grows by at least nine. `parseCommands` runs on the length of its input
-- and one more, since each frame has at least ten bytes. Where the fuel would end, the model gives
-- `diverges` or `false`.
--
-- Parameters: the protobuf text format (`render`), and the test script with its REQUEST section and
-- `decode("utf-8")` (`Viewer`), which may raise; nothing is assumed of them. The functions
-- `Tss2_MU_*_Marshal` and the sizes of the buffers of tss2 (`Mu`); `IsWireFormat` is the documented
-- format of integers and TPM2B buffers.
--
-- A number in a field of a protobuf enumeration has to be below 2^31 (`enum_value`), or ValueError is
-- raised; the other numbers of a message are `uint32`, and stay in range where the bytes of the
-- command can be written.
--
-- Not modelled: the range checks of the `uint32` fields; printing and the unified difference; the
-- command line of main.py; the generated modules *_pb2.py; the other C++ files, which call the TPM
-- reference implementation or rewrite messages in the fuzzer, and all scripts. A message of the
-- model has the fields of its .proto file, its sub-messages all set. A directory lists its files
-- in the order of the list. `size_t` offsets do not wrap.
pub mod Prelude
pub mod Bytes
pub mod Types
pub mod Proto
pub mod Command
pub mod Commands
pub mod ByteParser
pub mod Marshal
pub mod Seeds
mod Examples
