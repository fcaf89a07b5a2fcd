-- ===== src/Commands/Nv/DefineSpace.antt =====
-- `TPMNVDefineSpace.to_proto` after `TPMNVDefineSpace.__init__`.
use tpm_fuzzer.Prelude.{
  ℕ, ◌+◌, ◌^◌, ◌<◌, ◌≡◌, refl, sym, ◌∙◌, arith, [], ◌∷◌, ◌++◌, some, length, drop, drop-zero,
  append-nil, ok, ok-injective, ◌>>=◌, >>=-eq-ok, bind4-eq-ok,
}
use tpm_fuzzer.Bytes.{Bytes, big_endian, to_bytes}
use tpm_fuzzer.Bytes.Integers.{to_bytes-cases}
use tpm_fuzzer.Bytes.Prefixed.{prefixed, drop-prefixed, sized-cases}
use tpm_fuzzer.Types.Enums.{TpmRh, TpmaNv, rh_value, alg_to_int}
use tpm_fuzzer.Types.Attributes.{Attributes, nv_attrs_to_int}
use tpm_fuzzer.Types.Buffers.{data_2b_bytes}
use tpm_fuzzer.Types.Sessions.{single_auth_area}
use tpm_fuzzer.Types.Nv.{NvPublic, nv_public_bytes, nv_public_2b_bytes}
use tpm_fuzzer.Proto.{NvPublicMessage, Message}
use tpm_fuzzer.Proto.Constants.{st_sessions, cc_nv_define_space, alg_name}
use tpm_fuzzer.Command.{TpmCommand, proto_header, proto_tpm2b_data}
use tpm_fuzzer.Command.Parse.Reading.{
  uint_at-starts, drop_uint, size_at, content_at, drop_tpm2b, parse_tpm2b-starts,
}
use tpm_fuzzer.Commands.{to_proto}
use tpm_fuzzer.Commands.Instance.{Command, base_of}
use tpm_fuzzer.Commands.Hierarchy.{password_session}
use tpm_fuzzer.Commands.Creation.Layout.{
  single_auth_area-ok, reads_handle, reads_area_size, reads_area, behind_area, no_outside_info,
}
use tpm_fuzzer.Commands.Creation.PrimaryMessage.{parse_auth_area-sessions}
use tpm_fuzzer.Commands.Nv.{nv_template, nv_define_space, proto_nv_public, nv_define_space_to_proto}

unfoldable pub nv_layout : NvPublic → Bytes
nv_layout p =
    big_endian 4 p.nv_index
    ++ (big_endian 2 (alg_to_int p.name_alg)
        ++ (big_endian 4 (nv_attrs_to_int p.attributes)
            ++ (prefixed p.auth_policy ++ big_endian 2 p.data_size)))

pub record NvFits (p : NvPublic) : Type 0 where
  pub index_fits : p.nv_index < 2 ^ 32
  pub name_alg_fits : alg_to_int p.name_alg < 65536
  pub attributes_fit : nv_attrs_to_int p.attributes < 2 ^ 32
  pub policy_fits : length p.auth_policy < 65536
  pub size_fits : p.data_size < 65536

pub nv_public-ok :
    (p : NvPublic) (b : Bytes) → nv_public_bytes p ≡ ok b → NvFits p × (b ≡ nv_layout p)
unfolding nv_public_bytes nv_layout
nv_public-ok p b h = ground (
  arith,
  to_bytes-cases p.nv_index 4,
  to_bytes-cases (alg_to_int p.name_alg) 2,
  to_bytes-cases (nv_attrs_to_int p.attributes) 4,
  sized-cases p.auth_policy,
  to_bytes-cases p.data_size 2,
)

-- The message of a public area whose algorithm goes by `name`.
unfoldable pub nv_public_message : NvPublic → ℕ → NvPublicMessage
nv_public_message p name = record {
  nv_index = p.nv_index;
  name_alg = name;
  attributes = nv_attrs_to_int p.attributes;
  auth_policy = p.auth_policy;
  data_size = p.data_size;
}

module _ (p : NvPublic) (b : Bytes) (fits : NvFits p) (layout : b ≡ nv_layout p) where
  at_index :
      drop 0 b
      ≡ big_endian 4 p.nv_index
        ++ (big_endian 2 (alg_to_int p.name_alg)
            ++ (big_endian 4 (nv_attrs_to_int p.attributes)
                ++ (prefixed p.auth_policy ++ big_endian 2 p.data_size)))
  unfolding nv_layout
  at_index = drop-zero b ∙ layout

  at_name :
      drop 4 b
      ≡ big_endian 2 (alg_to_int p.name_alg)
        ++ (big_endian 4 (nv_attrs_to_int p.attributes)
            ++ (prefixed p.auth_policy ++ big_endian 2 p.data_size))
  at_name = drop_uint b 0 4 p.nv_index _ at_index

  at_attributes :
      drop 6 b
      ≡ big_endian 4 (nv_attrs_to_int p.attributes)
        ++ (prefixed p.auth_policy ++ big_endian 2 p.data_size)
  at_attributes = drop_uint b 4 2 (alg_to_int p.name_alg) _ at_name

  at_policy : drop 10 b ≡ prefixed p.auth_policy ++ big_endian 2 p.data_size
  at_policy = drop_uint b 6 4 (nv_attrs_to_int p.attributes) _ at_attributes

  at_size : drop (12 + length p.auth_policy) b ≡ big_endian 2 p.data_size ++ []
  at_size =
      drop_tpm2b b 10 p.auth_policy _ fits.policy_fits at_policy
      ∙ sym (append-nil (big_endian 2 p.data_size))

  proto_nv_public-layout :
      proto_nv_public b
      ≡ (alg_name (alg_to_int p.name_alg) >>= λ name. ok (nv_public_message p name))
  unfolding proto_nv_public nv_public_message
  proto_nv_public-layout = rw (
    uint_at-starts b 0 4 _ _ fits.index_fits at_index,
    uint_at-starts b 4 2 _ _ fits.name_alg_fits at_name,
    uint_at-starts b 6 4 _ _ fits.attributes_fit at_attributes,
    size_at b 10 p.auth_policy _ fits.policy_fits at_policy,
    content_at b 10 p.auth_policy _ fits.policy_fits at_policy,
    uint_at-starts b (12 + length p.auth_policy) 2 _ _ fits.size_fits at_size,
  )

-- Reading back the bytes of an NV public area gives the message of its fields where the protobuf
-- enumeration names its algorithm, and the error of the naming otherwise.
pub proto_nv_public-bytes :
    (p : NvPublic) (b : Bytes)
    → nv_public_bytes p ≡ ok b
    → proto_nv_public b
      ≡ (alg_name (alg_to_int p.name_alg) >>= λ name. ok (nv_public_message p name))
proto_nv_public-bytes p b h =
    let (fits, layout) = nv_public-ok p b h in proto_nv_public-layout p b fits layout

module _ (base : TpmCommand) (session : ℕ) (handle : ℕ) (area inner : Bytes)
    (handle_fits : handle < 2 ^ 32) (area_ok : single_auth_area session ≡ ok area)
    (inner_fits : length inner < 65536) (tagged : base.tag ≡ st_sessions)
    (layout : base.params ≡ big_endian 4 handle ++ (area ++ (prefixed [] ++ prefixed inner))) where
  reads_nv : nv_define_space_to_proto base ≡ (
      proto_nv_public inner >>= λ nv_public. ok (
        Message.nvdefinespace
          (proto_header base)
          handle
          (password_session session ∷ [])
          (proto_tpm2b_data [])
          nv_public))
  unfolding nv_define_space_to_proto
  reads_nv =
      let (body, body_fits, area_layout) = single_auth_area-ok session area area_ok in
      let params = base.params in
      let at_value =
        behind_area params area _ handle body handle_fits body_fits area_layout layout in
      let off = 4 + 4 + length body in
      let at_public : drop (off + 2 + 0) params ≡ prefixed inner ++ [] =
        drop_tpm2b params off [] _ (omega arith) at_value ∙ sym (append-nil (prefixed inner)) in
      rw (
        tagged,
        parse_auth_area-sessions params area body session
            (reads_area_size params area _ handle body handle_fits body_fits area_layout layout)
            (reads_area params area _ handle body handle_fits body_fits area_layout layout) area_ok,
        reads_handle params area _ handle body handle_fits body_fits area_layout layout,
        parse_tpm2b-starts params off [] _ (omega arith) at_value,
        parse_tpm2b-starts params (off + 2 + 0) inner _ inner_fits at_public,
        drop-prefixed [],
        drop-prefixed inner,
      )

-- What a TPMNVDefineSpace command was made of.
define_space_parts :
    (nv_index : ℕ) (attributes : Attributes TpmaNv) (session : ℕ) (hierarchy : TpmRh)
    (data_size : ℕ) (c : Command)
    → nv_define_space nv_index attributes session hierarchy data_size ≡ ok c
    → (area inner : Bytes) × (single_auth_area session ≡ ok area)
      × (nv_public_bytes (nv_template nv_index attributes data_size) ≡ ok inner)
      × (length inner < 65536)
      × (c
          ≡ Command.nv_define_space (record {
            tag = st_sessions;
            cc = cc_nv_define_space;
            params = big_endian 4 (rh_value hierarchy) ++ (area ++ (prefixed [] ++ prefixed inner));
          }))
unfolding nv_define_space nv_public_2b_bytes
define_space_parts nv_index attributes session hierarchy data_size c h =
    let (handle, area, value, inner_2b, e0, e1, e2, e3, out) =
      bind4-eq-ok (to_bytes (rh_value hierarchy) 4) (single_auth_area session) (data_2b_bytes [])
        (nv_public_2b_bytes (nv_template nv_index attributes data_size)) _ h in
    let (inner, written, s) = >>=-eq-ok (nv_public_bytes _) _ e3 in
    let (small, whole) : (length inner < 65536) × (inner_2b ≡ prefixed inner) =
      (ground (arith, sized-cases inner), ground (arith, sized-cases inner)) in
    let parent : handle ≡ big_endian 4 (rh_value hierarchy) =
      ground (arith, to_bytes-cases (rh_value hierarchy) 4) in
    let empty : value ≡ prefixed [] = ok-injective (sym e2 ∙ no_outside_info) in
    (area, inner, e1, written, small, cc (ok-injective out, parent, empty, whole))

rh_fits : (hierarchy : TpmRh) → rh_value hierarchy < 2 ^ 32
rh_fits hierarchy = ground arith

-- Whatever TPMNVDefineSpace command can be built, its `to_proto` reads the parameters back: it
-- returns the message of the hierarchy, one session with the session handle and nothing else, the
-- empty authorization value and the public area of the arguments.
pub to_proto-nv_define_space :
    (nv_index : ℕ) (attributes : Attributes TpmaNv) (session : ℕ) (hierarchy : TpmRh)
    (data_size : ℕ) (c : Command)
    → nv_define_space nv_index attributes session hierarchy data_size ≡ ok c
    → to_proto c
      ≡ ok (
          some (
            Message.nvdefinespace
              (proto_header (base_of c))
              (rh_value hierarchy)
              (password_session session ∷ [])
              (proto_tpm2b_data [])
              (record {
                nv_index = nv_index;
                name_alg = 0x000B;
                attributes = nv_attrs_to_int attributes;
                auth_policy = [];
                data_size = data_size;
              })))
unfolding to_proto base_of nv_template nv_public_message alg_name
to_proto-nv_define_space nv_index attributes session hierarchy data_size c h =
    let (area, inner, area_ok, written, small, e) =
      define_space_parts nv_index attributes session hierarchy data_size c h in
    let base : TpmCommand = record {
      tag = st_sessions;
      cc = cc_nv_define_space;
      params = big_endian 4 (rh_value hierarchy) ++ (area ++ (prefixed [] ++ prefixed inner));
    } in
    rw (
      e,
      reads_nv base session (rh_value hierarchy) area inner (rh_fits hierarchy) area_ok small refl
          refl,
      proto_nv_public-bytes (nv_template nv_index attributes data_size) inner written,
    )
