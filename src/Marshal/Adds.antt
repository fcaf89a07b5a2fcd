-- ===== src/Marshal/Adds.antt =====
-- The marshalling steps of src/harness/proto_conversion.cc that only add bytes, whichever
-- functions of tss2 they call.
use tpm_fuzzer.Prelude.{
  ◌≡◌, ◌∙◌, sym, ap, Option, none, some, Option-cases, inl, inr, [], ◌∷◌, ◌++◌, append_assoc,
  append-nil,
}
use tpm_fuzzer.Bytes.{Bytes}
use tpm_fuzzer.Proto.{SensitiveCreateMessage, PublicMessage, Buffer, PcrSelectionsMessage}
use tpm_fuzzer.Marshal.{marshal_command_field, marshal_tpm_command}
use tpm_fuzzer.Marshal.Tss2.{Mu}
use tpm_fuzzer.Marshal.Steps.{Step, resume, appended, ◌and_then◌, done}
use tpm_fuzzer.Marshal.Fields.{Field}
use tpm_fuzzer.Marshal.Structures.{
  marshal_tpm2b_sensitive_create, marshal_tpm2b_public, marshal_tpml_pcr_selection,
}

-- The step adds bytes or fails.
abbrev pub Adds : Step → Type 0
Adds step = (buf out : Bytes) → step buf ≡ some out → (w : Bytes) × (out ≡ buf ++ w)

appended-Adds :
    (buf : Bytes) (r : Option Bytes) (out : Bytes)
    → appended buf r ≡ some out
    → (w : Bytes) × (out ≡ buf ++ w)
appended-Adds buf none out h = cc
appended-Adds buf (some w) out h = (w, cc)

and_then-Adds : (first next : Step) → Adds first → Adds next → Adds (first and_then next)
and_then-Adds first next hf hn buf out h = elim (Option-cases (first buf)) [
  | inl failed ↦ cc (sym (ap (resume next) failed) ∙ h)
  | inr (mid, e) ↦
      let (v, ev) = hf buf mid e in
      let (w, ew) = hn mid out (sym (ap (resume next) e) ∙ h) in
      (v ++ w, ew ∙ (ap (λ t. t ++ w) ev ∙ append_assoc buf v w))
]

module _ (mu : Mu) where
  sensitive-Adds : (s : SensitiveCreateMessage) → Adds (marshal_tpm2b_sensitive_create mu s)
  unfolding marshal_tpm2b_sensitive_create
  sensitive-Adds s buf out h = appended-Adds buf _ out h

  public-Adds : (p : PublicMessage) → Adds (marshal_tpm2b_public mu p)
  unfolding marshal_tpm2b_public
  public-Adds p buf out h = appended-Adds buf _ out h

  selection-Adds : (q : PcrSelectionsMessage) → Adds (marshal_tpml_pcr_selection mu q)
  unfolding marshal_tpml_pcr_selection
  selection-Adds q buf out h = appended-Adds buf _ out h

  data-Adds : (d : Buffer) → Adds (marshal_command_field mu (Field.data_2b d))
  unfolding marshal_command_field
  data-Adds d buf out h = appended-Adds buf _ out h

  -- The fields behind the sessions add bytes.
  pub tail-Adds :
      (s : SensitiveCreateMessage) (p : PublicMessage) (d : Buffer) (q : PcrSelectionsMessage)
      → Adds (
          marshal_tpm_command mu (
            Field.sensitive_create s
            ∷ Field.public_area p
            ∷ Field.data_2b d
            ∷ Field.pcr_selection q
            ∷ []))
  unfolding marshal_tpm_command marshal_command_field
  tail-Adds s p d q =
      let outside = marshal_command_field mu (Field.data_2b d) in
      let selection = marshal_tpml_pcr_selection mu q in
      let nothing : Adds done = λ buf out h. ([], cc (append-nil buf)) in
      and_then-Adds (marshal_tpm2b_sensitive_create mu s)
        (marshal_tpm2b_public mu p and_then outside and_then selection and_then done)
        (sensitive-Adds s)
        (and_then-Adds (marshal_tpm2b_public mu p) (outside and_then selection and_then done)
          (public-Adds p)
          (and_then-Adds outside (selection and_then done) (data-Adds d)
            (and_then-Adds selection done (selection-Adds q) nothing)))
