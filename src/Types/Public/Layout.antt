-- ===== src/Types/Public/Layout.antt =====
-- The bytes of a public area that `to_bytes` accepts, field by field.
use tpm_fuzzer.Prelude.{
  ◌^◌, ◌<◌, ◌≡◌, arith, [], ◌++◌, Option, none, some, ◌+◌, length-append, length, ◌==◌,
  if◌then◌else◌, ok, raise, overflow_error, append-nil, sym, ap, append_assoc, ◌>>=◌, >>=-eq-ok,
  Result-cases, ◌⊎◌, inl, inr,
}
use tpm_fuzzer.Bytes.{Bytes, big_endian, sized}
use tpm_fuzzer.Bytes.Integers.{to_bytes-cases, length-big_endian}
use tpm_fuzzer.Bytes.Prefixed.{prefixed, sized-cases}
use tpm_fuzzer.Types.Enums.{TpmAlg, alg_value, IntOr, alg_to_int}
use tpm_fuzzer.Types.Attributes.{attrs_to_int}
use tpm_fuzzer.Types.Algorithms.{
  SymDefObject, sym_def_object_bytes, append_hash, RsaParms, rsa_parms_bytes, KeyedhashParms,
  keyedhash_parms_bytes,
}
use tpm_fuzzer.Types.Public.{
  TpmtPublic, rsa_area, scheme_or_default, keyedhash_area, public_union, public_bytes,
}

-- What follows the algorithm of a symmetric definition.
unfoldable pub sym_tail : SymDefObject → Bytes
sym_tail s =
    if alg_to_int s.algorithm == alg_value TpmAlg.null
    then []
    else big_endian 2 s.key_bits ++ big_endian 2 (alg_to_int s.mode)

pub sym_def_object-cases :
    (s : SymDefObject)
    → ((alg_to_int s.algorithm < 65536)
        × (sym_def_object_bytes s ≡ ok (big_endian 2 (alg_to_int s.algorithm) ++ sym_tail s)))
      ⊎ (sym_def_object_bytes s ≡ raise overflow_error)
unfolding sym_def_object_bytes sym_tail
sym_def_object-cases s = ground (
  arith,
  to_bytes-cases (alg_to_int s.algorithm) 2,
  to_bytes-cases s.key_bits 2,
  to_bytes-cases (alg_to_int s.mode) 2,
  append-nil (big_endian 2 (alg_to_int s.algorithm)),
)

pub length-sym_tail :
    (s : SymDefObject)
    → 2 + length (sym_tail s) ≡ (if alg_to_int s.algorithm == alg_value TpmAlg.null then 2 else 6)
unfolding sym_tail
length-sym_tail s = ground (
  arith,
  length-append (big_endian 2 s.key_bits) (big_endian 2 (alg_to_int s.mode)),
  length-big_endian 2 s.key_bits,
  length-big_endian 2 (alg_to_int s.mode),
)

unfoldable pub hash_suffix : Option (IntOr TpmAlg) → Bytes
hash_suffix none = []
hash_suffix (some h) = big_endian 2 (alg_to_int h)

append_hash-cases :
    (s : Bytes) (h : Option (IntOr TpmAlg))
    → (append_hash s h ≡ ok (s ++ hash_suffix h)) ⊎ (append_hash s h ≡ raise overflow_error)
unfolding append_hash hash_suffix
append_hash-cases s none = inl (ap ok (sym (append-nil s)))
append_hash-cases s (some h) = ground (arith, to_bytes-cases (alg_to_int h) 2)

-- The hash algorithm that an RSA scheme carries.
unfoldable pub rsa_hash : RsaParms → Bytes
rsa_hash p = if alg_to_int p.scheme == alg_value TpmAlg.null then [] else hash_suffix p.scheme_hash

unfoldable pub rsa_layout : RsaParms → Bytes
rsa_layout p =
    big_endian 2 (alg_to_int p.symmetric.algorithm)
    ++ (sym_tail p.symmetric
        ++ (big_endian 2 (alg_to_int p.scheme)
            ++ (rsa_hash p ++ (big_endian 2 p.key_bits ++ big_endian 4 p.exponent))))

pub record RsaFits (p : RsaParms) : Type 0 where
  pub symmetric_fits : alg_to_int p.symmetric.algorithm < 65536
  pub scheme_fits : alg_to_int p.scheme < 65536
  pub key_bits_fits : p.key_bits < 65536
  pub exponent_fits : p.exponent < 2 ^ 32

pub rsa_parms-ok :
    (p : RsaParms) (b : Bytes) → rsa_parms_bytes p ≡ ok b → RsaFits p × (b ≡ rsa_layout p)
unfolding rsa_parms_bytes rsa_layout rsa_hash
rsa_parms-ok p b h = ground (
  arith,
  sym_def_object-cases p.symmetric,
  to_bytes-cases (alg_to_int p.scheme) 2,
  append_hash-cases (big_endian 2 (alg_to_int p.scheme)) p.scheme_hash,
  to_bytes-cases p.key_bits 2,
  to_bytes-cases p.exponent 4,
  append_assoc (big_endian 2 (alg_to_int p.symmetric.algorithm)) (sym_tail p.symmetric) (
      big_endian 2 (alg_to_int p.scheme)
      ++ (rsa_hash p ++ (big_endian 2 p.key_bits ++ big_endian 4 p.exponent))),
  append_assoc (big_endian 2 (alg_to_int p.scheme)) (hash_suffix p.scheme_hash)
      (big_endian 2 p.key_bits ++ big_endian 4 p.exponent),
)

-- The hash algorithm that a keyed hash scheme carries.
unfoldable pub keyedhash_hash : KeyedhashParms → Bytes
keyedhash_hash p =
    if alg_to_int p.scheme == alg_value TpmAlg.hmac then hash_suffix p.hash_alg else []

pub keyedhash_parms-ok :
    (p : KeyedhashParms) (b : Bytes)
    → keyedhash_parms_bytes p ≡ ok b
    → (alg_to_int p.scheme < 65536) × (b ≡ big_endian 2 (alg_to_int p.scheme) ++ keyedhash_hash p)
unfolding keyedhash_parms_bytes keyedhash_hash
keyedhash_parms-ok p b h = ground (
  arith,
  to_bytes-cases (alg_to_int p.scheme) 2,
  append_hash-cases (big_endian 2 (alg_to_int p.scheme)) p.hash_alg,
  append-nil (big_endian 2 (alg_to_int p.scheme)),
)

sized_tail :
    (front x b : Bytes)
    → (sized x >>= λ y. ok (front ++ y)) ≡ ok b
    → (length x < 65536) × (b ≡ front ++ prefixed x)
sized_tail front x b h = ground (arith, sized-cases x)

pub rsa_area-ok :
    (q : RsaParms) (unique b : Bytes)
    → rsa_area (some q) unique ≡ ok b
    → RsaFits q × (length unique < 65536) × (b ≡ rsa_layout q ++ prefixed unique)
unfolding rsa_area
rsa_area-ok q unique b h =
    let (parameters, e, h') = >>=-eq-ok (rsa_parms_bytes q) _ h in
    let (fits, layout) = rsa_parms-ok q parameters e in
    let (u_fits, out) = sized_tail parameters unique b h' in (fits, u_fits, rw (out, layout))

pub keyedhash_area-ok :
    (q : Option KeyedhashParms) (unique b : Bytes)
    → keyedhash_area q unique ≡ ok b
    → (alg_to_int (scheme_or_default q).scheme < 65536)
      × (length unique < 65536)
      × (b
          ≡ (big_endian 2 (alg_to_int (scheme_or_default q).scheme)
              ++ keyedhash_hash (scheme_or_default q))
            ++ prefixed unique)
unfolding keyedhash_area
keyedhash_area-ok q unique b h =
    let (parameters, e, h') = >>=-eq-ok (keyedhash_parms_bytes (scheme_or_default q)) _ h in
    let (fits, layout) = keyedhash_parms-ok (scheme_or_default q) parameters e in
    let (u_fits, out) = sized_tail parameters unique b h' in (fits, u_fits, rw (out, layout))

-- The public area in front of the parameters.
unfoldable pub public_head : TpmtPublic → Bytes → Bytes
public_head p rest =
    big_endian 2 (alg_to_int p.type)
    ++ (big_endian 2 (alg_to_int p.name_alg)
        ++ (big_endian 4 (attrs_to_int p.object_attributes) ++ (prefixed p.auth_policy ++ rest)))

pub record PublicFits (p : TpmtPublic) : Type 0 where
  pub type_fits : alg_to_int p.type < 65536
  pub name_alg_fits : alg_to_int p.name_alg < 65536
  pub attributes_fit : attrs_to_int p.object_attributes < 2 ^ 32
  pub auth_policy_fits : length p.auth_policy < 65536

pub public-ok :
    (p : TpmtPublic) (b : Bytes)
    → public_bytes p ≡ ok b
    → (rest : Bytes) × (public_union p ≡ ok rest) × PublicFits p × (b ≡ public_head p rest)
unfolding public_bytes public_head
public-ok p b h = elim (Result-cases (public_union p)) [
  | inl (rest, e) ↦ (
    rest,
    e,
    ground (
      arith,
      to_bytes-cases (alg_to_int p.type) 2,
      to_bytes-cases (alg_to_int p.name_alg) 2,
      to_bytes-cases (attrs_to_int p.object_attributes) 4,
      sized-cases p.auth_policy,
    ),
    ground (
      arith,
      to_bytes-cases (alg_to_int p.type) 2,
      to_bytes-cases (alg_to_int p.name_alg) 2,
      to_bytes-cases (attrs_to_int p.object_attributes) 4,
      sized-cases p.auth_policy,
    ),
  )
  | inr (x, e) ↦ absurd (
      ground (
        arith,
        to_bytes-cases (alg_to_int p.type) 2,
        to_bytes-cases (alg_to_int p.name_alg) 2,
        to_bytes-cases (attrs_to_int p.object_attributes) 4,
        sized-cases p.auth_policy,
      ))
]
