-- ===== src/Types/Attributes.antt =====
-- Attribute words of tools/seed-generation/tpm2_types.py: a number, one flag or a list of flags.
use tpm_fuzzer.Prelude.{ℕ, List, [], ◌∷◌, bit_or, Option, none, some, zero, suc}
use tpm_fuzzer.Types.Enums.{TpmaObject, object_value, TpmaNv, nv_value}

-- `Union[int, E, list[E]]`
pub data Attributes (E : Type 0) : Type 0 where
  word : ℕ → Attributes E
  flag : E → Attributes E
  flags : List E → Attributes E

-- `for a in attrs: val |= a.value`
unfoldable pub or_flags : {E : Type 0} → (E → ℕ) → ℕ → List E → ℕ
or_flags value val [] = val
or_flags value val (a ∷ rest) = or_flags value (bit_or val (value a)) rest

unfoldable pub attrs_to_int : Attributes TpmaObject → ℕ
unfolding or_flags
attrs_to_int (word n) = n
attrs_to_int (flag a) = object_value a
attrs_to_int (flags set) = or_flags object_value 0 set

unfoldable pub nv_attrs_to_int : Attributes TpmaNv → ℕ
unfolding or_flags
nv_attrs_to_int (word n) = n
nv_attrs_to_int (flag a) = nv_value a
nv_attrs_to_int (flags set) = or_flags nv_value 0 set

abbrev pub default_object_flags : List TpmaObject
default_object_flags =
    TpmaObject.fixed_tpm ∷ TpmaObject.fixed_parent ∷ TpmaObject.sensitive_data_origin
    ∷ TpmaObject.user_with_auth ∷ TpmaObject.noda ∷ TpmaObject.restricted ∷ TpmaObject.decrypt ∷ []

-- `object_attributes or [...]`: `None`, 0 and the empty list are falsy.
unfoldable pub attributes_or_default : Option (Attributes TpmaObject) → Attributes TpmaObject
attributes_or_default none = flags default_object_flags
attributes_or_default (some (word zero)) = flags default_object_flags
attributes_or_default (some (word (suc n))) = word (suc n)
attributes_or_default (some (flag a)) = flag a
attributes_or_default (some (flags [])) = flags default_object_flags
attributes_or_default (some (flags (a ∷ more))) = flags (a ∷ more)
