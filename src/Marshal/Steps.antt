-- ===== src/Marshal/Steps.antt =====
-- Writing at the offset of the buffer, as src/harness/proto_conversion.cc does.
use tpm_fuzzer.Prelude.{
  ℕ, ◌+◌, ◌-◌, ◌*◌, Option, none, some, ◌++◌, length, take, drop, ltb, if◌then◌else◌,
}
use tpm_fuzzer.Bytes.{Bytes}

-- `kMaxBuffer`
abbrev pub max_buffer : ℕ
max_buffer = 1024 * 1024

-- A step that writes at the offset: the buffer up to the offset, before and after, or none for
-- `false`.
abbrev pub Step : Type 0
Step = Bytes → Option Bytes

-- The next step on what a step left.
abbrev pub resume : Step → Option Bytes → Option Bytes
resume next none = none
resume next (some later) = next later

infixr 4 ◌and_then◌
abbrev pub ◌and_then◌ : Step → Step → Step
(first and_then next) buf = resume next (first buf)

-- The bytes that a function gave, behind the buffer.
abbrev pub appended : Bytes → Option Bytes → Option Bytes
appended buf none = none
appended buf (some w) = some (buf ++ w)

-- A call of one of the functions of tss2 at the offset.
abbrev pub call : (ℕ → Option Bytes) → Step
call function buf = appended buf (function (max_buffer - length buf))

-- Bytes that are copied to the offset.
abbrev pub raw : Bytes → Step
raw w buf = if ltb max_buffer (length buf + length w) then none else some (buf ++ w)

-- The bytes at `pos` are written again.
unfoldable pub overwrite : ℕ → Bytes → Bytes → Bytes
overwrite pos w buf = take pos buf ++ (w ++ drop (pos + length w) buf)

-- A call at `pos` writes again; where it fails nothing is written.
abbrev pub rewritten : ℕ → Bytes → Option Bytes → Option Bytes
rewritten pos buf none = none
rewritten pos buf (some w) = some (overwrite pos w buf)

abbrev pub done : Step
done buf = some buf
