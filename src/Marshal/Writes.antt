-- ===== src/Marshal/Writes.antt =====
-- Steps that write certain bytes where there is room for them.
use tpm_fuzzer.Prelude.{
  ℕ, ◌+◌, ◌-◌, ◌≤◌, ◌≡◌, ◌∙◌, refl, sym, ap, arith, Option, none, some, [], ◌++◌, length,
  length-append, append_assoc, append-nil, drop, take-append, drop-append, drop-drop, le→ltb_false,
  if◌then◌else◌,
}
use tpm_fuzzer.Bytes.{Bytes}
use tpm_fuzzer.Marshal.Tss2.{if_room}
use tpm_fuzzer.Marshal.Steps.{
  Step, max_buffer, resume, appended, ◌and_then◌, call, raw, overwrite, done,
}

-- The step appends these bytes if they fit.
abbrev pub Writes : Step → Bytes → Type 0
Writes step w = (buf : Bytes) → length buf + length w ≤ max_buffer → step buf ≡ some (buf ++ w)

pub done-Writes : Writes done []
done-Writes buf h = ap some (sym (append-nil buf))

pub raw-Writes : (w : Bytes) → Writes (raw w) w
raw-Writes w buf h = rw (le→ltb_false max_buffer (length buf + length w) h) refl

pub call-Writes :
    (function : ℕ → Option Bytes) (w : Bytes)
    → ((room : ℕ) → function room ≡ if_room w room)
    → Writes (call function) w
call-Writes function w law buf h =
    let fits : length w ≤ max_buffer - length buf = omega arith in
    ap (appended buf) (
      law (max_buffer - length buf)
      ∙ ap (λ t. if t then none else some w)
          (le→ltb_false (max_buffer - length buf) (length w) fits))

pub and_then-Writes :
    (first next : Step) (v w : Bytes)
    → Writes first v
    → Writes next w
    → Writes (first and_then next) (v ++ w)
and_then-Writes first next v w hv hw buf h =
    let first_fits : length buf + length v ≤ max_buffer = omega (arith, length-append v w) in
    ap (resume next) (hv buf first_fits)
    ∙ (hw (buf ++ v) (omega (arith, length-append v w, length-append buf v))
        ∙ ap some (append_assoc buf v w))

pub overwrite-same_length :
    (front old w rest : Bytes)
    → length old ≡ length w
    → overwrite (length front) w (front ++ (old ++ rest)) ≡ front ++ (w ++ rest)
unfolding overwrite
overwrite-same_length front old w rest h =
    let behind : drop (length front + length w) (front ++ (old ++ rest)) ≡ rest =
      sym (drop-drop (length w) (length front) (front ++ (old ++ rest)))
      ∙ (ap (drop (length w)) (drop-append front (old ++ rest)) ∙ rw h at (drop-append old rest)) in
    rw (take-append front (old ++ rest), behind) refl
