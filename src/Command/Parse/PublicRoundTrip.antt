-- ===== src/Command/Parse/PublicRoundTrip.antt =====
-- `_proto_public` after `TPM2B_PUBLIC.to_bytes`: what is read back, and the field that is not.
use tpm_fuzzer.Prelude.{
  ℕ, ◌+◌, ◌-◌, ◌<◌, ◌≡◌, ◌⊎◌, ap, ◌∙◌, arith, [], ◌++◌, none, some, length, drop, drop-zero, ok,
  ◌>>=◌, >>=-eq-ok,
}
use tpm_fuzzer.Bytes.{Bytes, big_endian, sized}
use tpm_fuzzer.Bytes.Prefixed.{prefixed, drop-prefixed, sized-cases, length-prefixed}
use tpm_fuzzer.Types.Enums.{TpmAlg, alg_value, alg_to_int}
use tpm_fuzzer.Types.Attributes.{attrs_to_int}
use tpm_fuzzer.Types.Algorithms.{RsaParms, KeyedhashParms}
use tpm_fuzzer.Types.Public.{
  TpmtPublic, scheme_or_default, rsa_area, keyedhash_area, public_union, public_2b_bytes,
}
use tpm_fuzzer.Types.Public.Layout.{
  rsa_hash, hash_suffix, keyedhash_hash, rsa_area-ok, keyedhash_area-ok, public_head, PublicFits,
  public-ok,
}
use tpm_fuzzer.Proto.{PublicParmsMessage, PublicIdMessage, PublicMessage}
use tpm_fuzzer.Command.{proto_tpm2b_data}
use tpm_fuzzer.Command.Parse.{
  proto_public_rsa, proto_public_keyedhash, proto_public_union, proto_public,
}
use tpm_fuzzer.Command.Parse.Reading.{uint_at-starts, drop_uint, size_at, content_at, drop_tpm2b}
use tpm_fuzzer.Command.Parse.PublicArea.{proto_public_rsa-plain, proto_public_keyedhash-plain}

-- The message of a public area of `size` bytes, with the given parameters and unique field.
unfoldable pub public_message :
    TpmtPublic → ℕ → PublicParmsMessage × PublicIdMessage → PublicMessage
public_message p size (parameters, unique) = record {
  size = size;
  type = alg_to_int p.type;
  name_alg = alg_to_int p.name_alg;
  object_attributes = attrs_to_int p.object_attributes;
  auth_policy = proto_tpm2b_data p.auth_policy;
  parameters = parameters;
  unique = unique;
}

module _ (p : TpmtPublic) (fits : PublicFits p) (rest : Bytes) where
  abbrev pub public : Bytes
  public = public_head p rest

  at_type : drop 0 public ≡ public_head p rest
  at_type = drop-zero public

  at_name :
      drop 2 public
      ≡ big_endian 2 (alg_to_int p.name_alg)
        ++ (big_endian 4 (attrs_to_int p.object_attributes) ++ (prefixed p.auth_policy ++ rest))
  unfolding public_head
  at_name = drop_uint public 0 2 (alg_to_int p.type) _ at_type

  at_attributes :
      drop 4 public
      ≡ big_endian 4 (attrs_to_int p.object_attributes) ++ (prefixed p.auth_policy ++ rest)
  at_attributes = drop_uint public 2 2 (alg_to_int p.name_alg) _ at_name

  at_policy : drop 8 public ≡ prefixed p.auth_policy ++ rest
  at_policy = drop_uint public 4 4 (attrs_to_int p.object_attributes) _ at_attributes

  pub at_union : drop (10 + length p.auth_policy) public ≡ rest
  at_union = drop_tpm2b public 8 p.auth_policy rest fits.auth_policy_fits at_policy

  proto_public-head : proto_public (prefixed public) ≡ (
      proto_public_union (alg_to_int p.type) public (10 + length p.auth_policy) >>= λ u.
      ok (public_message p (length public) u))
  unfolding proto_public public_message proto_tpm2b_data public_head
  proto_public-head = rw (
    drop-prefixed public,
    uint_at-starts public 0 2 _ _ fits.type_fits at_type,
    uint_at-starts public 2 2 _ _ fits.name_alg_fits at_name,
    uint_at-starts public 4 4 _ _ fits.attributes_fit at_attributes,
    size_at public 8 p.auth_policy rest fits.auth_policy_fits at_policy,
    content_at public 8 p.auth_policy rest fits.auth_policy_fits at_policy,
  )

pub public_2b-ok :
    (p : TpmtPublic) (b : Bytes)
    → public_2b_bytes p ≡ ok b
    → (rest : Bytes) × (public_union p ≡ ok rest)
      × PublicFits p
      × (length (public_head p rest) < 65536)
      × (b ≡ prefixed (public_head p rest))
unfolding public_2b_bytes
public_2b-ok p b h =
    let (area, e, h') = >>=-eq-ok _ _ h in
    let (rest, u, fits, layout) = public-ok p area e in
    (rest, u, fits, rw layout at (sized_size area b h'), rw layout at (sized_layout area b h'))
  where
    sized_size : (x b : Bytes) → sized x ≡ ok b → length x < 65536
    sized_size x b h = ground (arith, sized-cases x)

    sized_layout : (x b : Bytes) → sized x ≡ ok b → b ≡ prefixed x
    sized_layout x b h = ground (arith, sized-cases x)

-- The scheme of RSA parameters carries no hash algorithm.
abbrev pub HasNoHash : RsaParms → Type 0
HasNoHash q = (alg_to_int q.scheme ≡ alg_value TpmAlg.null) ⊎ (q.scheme_hash ≡ none)

rsa_hash-HasNoHash : (q : RsaParms) → HasNoHash q → rsa_hash q ≡ []
unfolding rsa_hash hash_suffix
rsa_hash-HasNoHash q h = ground arith

-- The parameters and the unique field of an RSA area, as the message holds them: its symmetric key
-- bits are 0, whatever those of the area.
abbrev pub rsa_union : RsaParms → Bytes → PublicParmsMessage × PublicIdMessage
rsa_union q unique = (
  PublicParmsMessage.rsa (alg_to_int q.symmetric.algorithm) (alg_to_int q.scheme) 0 q.key_bits
      q.exponent,
  PublicIdMessage.rsa unique,
)

abbrev pub keyedhash_union : KeyedhashParms → Bytes → PublicParmsMessage × PublicIdMessage
keyedhash_union q unique = (
  PublicParmsMessage.keyedhash (alg_to_int q.scheme),
  PublicIdMessage.keyedhash (proto_tpm2b_data unique),
)

pub union_is_rsa :
    (p : TpmtPublic) (q : RsaParms) (rest : Bytes)
    → alg_to_int p.type ≡ alg_value TpmAlg.rsa
    → p.rsa_parameters ≡ some q
    → public_union p ≡ ok rest
    → rsa_area (some q) p.unique ≡ ok rest
unfolding public_union
union_is_rsa p q rest is_rsa given u = ground arith

pub union_is_keyedhash :
    (p : TpmtPublic) (rest : Bytes)
    → alg_to_int p.type ≡ alg_value TpmAlg.keyedhash
    → public_union p ≡ ok rest
    → keyedhash_area p.keyedhash_scheme p.unique ≡ ok rest
unfolding public_union
union_is_keyedhash p rest is_kh u = ground arith

pub parse_union_rsa :
    (type : ℕ) (public : Bytes) (off : ℕ)
    → type ≡ alg_value TpmAlg.rsa
    → proto_public_union type public off ≡ ok (proto_public_rsa public off)
unfolding proto_public_union
parse_union_rsa type public off h = ground arith

pub parse_union_keyedhash :
    (type : ℕ) (public : Bytes) (off : ℕ)
    → type ≡ alg_value TpmAlg.keyedhash
    → proto_public_union type public off ≡ ok (proto_public_keyedhash public off)
unfolding proto_public_union
parse_union_keyedhash type public off h = ground arith

-- What the parse of the whole buffer comes to, once its last part is known.
pub read_back :
    (p : TpmtPublic) (fits : PublicFits p) (rest b : Bytes)
    (u : PublicParmsMessage × PublicIdMessage)
    → b ≡ prefixed (public_head p rest)
    → proto_public_union (alg_to_int p.type) (public_head p rest) (10 + length p.auth_policy) ≡ ok u
    → proto_public b ≡ ok (public_message p (length b - 2) u)
read_back p fits rest b u layout e =
    let n : length (prefixed (public_head p rest)) - 2 ≡ length (public_head p rest) =
      omega (arith, length-prefixed (public_head p rest)) in
    rw (layout, n) (proto_public-head p fits rest ∙ rw e)

-- Reading back the TPM2B_PUBLIC of an RSA key whose scheme carries no hash algorithm gives the
-- message of its fields without the key bits and the mode of its symmetric algorithm: the field
-- `symmetric_key_bits` of the message is 0, whatever the key has.
pub proto_public-rsa :
    (p : TpmtPublic) (q : RsaParms) (b : Bytes)
    → alg_to_int p.type ≡ alg_value TpmAlg.rsa
    → p.rsa_parameters ≡ some q
    → HasNoHash q
    → public_2b_bytes p ≡ ok b
    → proto_public b ≡ ok (public_message p (length b - 2) (rsa_union q p.unique))
proto_public-rsa p q b is_rsa given plain h =
    let (rest, u, fits, small, layout) = public_2b-ok p b h in
    let (q_fits, u_fits, area) =
      rsa_area-ok q p.unique rest (union_is_rsa p q rest is_rsa given u) in
    read_back p fits rest b _ layout (
      parse_union_rsa _ (public_head p rest) _ is_rsa
      ∙ ap ok (
          proto_public_rsa-plain (public_head p rest) _ q p.unique q_fits
            (at_union p fits rest ∙ area) (rsa_hash-HasNoHash q plain) u_fits))

-- Reading back the TPM2B_PUBLIC of a keyed hash object gives the message of its fields, unless the
-- scheme is HMAC with a hash algorithm.
pub proto_public-keyedhash :
    (p : TpmtPublic) (b : Bytes)
    → alg_to_int p.type ≡ alg_value TpmAlg.keyedhash
    → keyedhash_hash (scheme_or_default p.keyedhash_scheme) ≡ []
    → public_2b_bytes p ≡ ok b
    → proto_public b
      ≡ ok (
          public_message p
            (length b - 2)
            (keyedhash_union (scheme_or_default p.keyedhash_scheme) p.unique))
proto_public-keyedhash p b is_kh plain h =
    let (rest, u, fits, small, layout) = public_2b-ok p b h in
    let (s_fits, u_fits, area) =
      keyedhash_area-ok p.keyedhash_scheme p.unique rest (union_is_keyedhash p rest is_kh u) in
    read_back p fits rest b _ layout (
      parse_union_keyedhash _ (public_head p rest) _ is_kh
      ∙ ap ok (
          proto_public_keyedhash-plain (public_head p rest) _ _ _ p.unique s_fits
            (at_union p fits rest ∙ area) plain u_fits))
