-- ===== src/Marshal/FieldBytes.antt =====
-- The bytes that the fields of a command message write.
use tpm_fuzzer.Prelude.{
  ℕ, ◌%◌, ◌^◌, ◌<◌, ◌≤◌, ◌≡◌, ◌∙◌, ap, arith, List, [], ◌∷◌, ◌++◌, length, take_all, le→ltb_false,
  if◌then◌else◌, none, append-nil, ok,
}
use tpm_fuzzer.Bytes.{Bytes, to_bytes, big_endian, sized}
use tpm_fuzzer.Bytes.Integers.{to_bytes-cases}
use tpm_fuzzer.Bytes.Prefixed.{prefixed, sized-cases}
use tpm_fuzzer.Command.{proto_tpm2b_data}
use tpm_fuzzer.Commands.Hierarchy.{password_session}
use tpm_fuzzer.Marshal.{marshal_command_field, marshal_tpm_command}
use tpm_fuzzer.Marshal.Tss2.{Mu, IsWireFormat}
use tpm_fuzzer.Marshal.Steps.{◌and_then◌, call, raw, done}
use tpm_fuzzer.Marshal.Fields.{Field}
use tpm_fuzzer.Marshal.Structures.{marshal_tpm2b_digest}
use tpm_fuzzer.Marshal.Writes.{Writes, done-Writes, raw-Writes, call-Writes, and_then-Writes}
use tpm_fuzzer.Marshal.Frame.{uint16-Writes, uint32-Writes}
use tpm_fuzzer.Marshal.Sessions.{area_of, area-Writes}

pub to_bytes-ok : (n w : ℕ) (x : Bytes) → to_bytes n w ≡ ok x → (n < 256 ^ w) × (x ≡ big_endian w n)
to_bytes-ok n w x h = ground (arith, to_bytes-cases n w)

pub sized-ok : (x y : Bytes) → sized x ≡ ok y → (length x < 65536) × (y ≡ prefixed x)
sized-ok x y h = ground (arith, sized-cases x)

module _ (mu : Mu) (wire : IsWireFormat mu) where
  -- The fields one after the other.
  pub field-Writes :
      (field : Field) (rest : List Field) (v w : Bytes)
      → Writes (marshal_command_field mu field) v
      → Writes (marshal_tpm_command mu rest) w
      → Writes (marshal_tpm_command mu (field ∷ rest)) (v ++ w)
  unfolding marshal_tpm_command
  field-Writes field rest v w hv hw =
      and_then-Writes (marshal_command_field mu field) (marshal_tpm_command mu rest) v w hv hw

  pub last-Writes :
      (field : Field) (v : Bytes)
      → Writes (marshal_command_field mu field) v
      → Writes (marshal_tpm_command mu (field ∷ [])) v
  unfolding marshal_tpm_command
  last-Writes field v hv =
      let whole = and_then-Writes (marshal_command_field mu field) done v [] hv done-Writes in
      rw (append-nil v) at whole

  pub number-Writes :
      (n : ℕ) → n < 2 ^ 32 → Writes (marshal_command_field mu (Field.number n)) (big_endian 4 n)
  unfolding marshal_command_field
  number-Writes n h = uint32-Writes mu wire n h

  pub enumeration-Writes :
      (n : ℕ)
      → n < 2 ^ 32
      → Writes (marshal_command_field mu (Field.enumeration n)) (big_endian 4 n)
  unfolding marshal_command_field
  enumeration-Writes n h = uint32-Writes mu wire n h

  pub algorithm-Writes :
      (n : ℕ) → n < 65536 → Writes (marshal_command_field mu (Field.algorithm n)) (big_endian 2 n)
  unfolding marshal_command_field
  algorithm-Writes n h =
      let small : n % 2 ^ 16 ≡ n = omega arith in rw small (uint16-Writes mu wire n h)

  pub password-Writes :
      (handle : ℕ)
      → handle < 2 ^ 32
      → Writes
          (marshal_command_field mu (Field.sessions (password_session handle ∷ [])))
          (area_of handle)
  unfolding marshal_command_field
  password-Writes handle h = area-Writes mu wire handle h

  pub data-Writes :
      (x : Bytes)
      → length x < 65536
      → length x ≤ mu.data_capacity
      → Writes (marshal_command_field mu (Field.data_2b (proto_tpm2b_data x))) (prefixed x)
  unfolding marshal_command_field proto_tpm2b_data
  data-Writes x fits room =
      rw (take_all mu.data_capacity x room)
        (call-Writes (mu.tpm2b_data x) (prefixed x) (λ left. wire.writes_data x left room fits))

  pub digest-Writes :
      (x : Bytes)
      → length x < 65536
      → Writes (marshal_command_field mu (Field.digest_2b (proto_tpm2b_data x))) (prefixed x)
  unfolding marshal_command_field marshal_tpm2b_digest proto_tpm2b_data
  digest-Writes x fits buf room =
      let small = le→ltb_false 65535 (length x) (omega arith) in
      ap (λ t. (if t then (λ later. none) else (call (mu.uint16 (length x)) and_then raw x)) buf)
        small
      ∙ and_then-Writes (call (mu.uint16 (length x))) (raw x) (big_endian 2 (length x)) x
          (uint16-Writes mu wire (length x) fits) (raw-Writes x) buf room
