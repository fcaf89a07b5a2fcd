-- ===== src/Commands/Creation/Layout.antt =====
-- The parameters that TPMCreate and TPMCreatePrimary serialize, and how they are read again.
use tpm_fuzzer.Prelude.{
  ℕ, ◌+◌, ◌^◌, ◌<◌, ◌≡◌, sym, ap, ◌∙◌, arith, [], ◌∷◌, ◌++◌, length, drop, drop-zero, length-append,
  append-nil, append_assoc, ok, ok-injective, bind4-eq-ok,
}
use tpm_fuzzer.Bytes.{Bytes, big_endian, to_bytes, slice, join}
use tpm_fuzzer.Bytes.Integers.{to_bytes-cases, to_bytes-fits, length-big_endian}
use tpm_fuzzer.Bytes.Prefixed.{prefixed, sized-fits, length-prefixed}
use tpm_fuzzer.Types.Buffers.{data_2b_bytes, SensitiveCreate, sensitive_create_2b_bytes}
use tpm_fuzzer.Types.Public.{TpmtPublic, public_2b_bytes}
use tpm_fuzzer.Types.Public.Layout.{public_head}
use tpm_fuzzer.Types.Sessions.{default_auth_command, single_auth_area}
use tpm_fuzzer.Types.Pcr.{pcr_selections_bytes}
use tpm_fuzzer.Command.Parse.{uint_at, parse_tpm2b, proto_sessions}
use tpm_fuzzer.Command.Parse.Reading.{
  uint_at-starts, drop_uint, slice_at, drop_at, parse_tpm2b-starts, drop_tpm2b,
}
use tpm_fuzzer.Command.Parse.SensitiveArea.{sensitive_create_2b_bytes-ok}
use tpm_fuzzer.Command.Parse.PublicRoundTrip.{public_2b-ok}
use tpm_fuzzer.Command.Parse.SessionList.{auth_area-ok, proto_sessions-bytes, session_message}
use tpm_fuzzer.Commands.Hierarchy.{password_session}
use tpm_fuzzer.Commands.Creation.{creation_params}

-- The area of one password session, with its size in front.
pub single_auth_area-ok :
    (handle : ℕ) (area : Bytes)
    → single_auth_area handle ≡ ok area
    → (body : Bytes) × (length body < 2 ^ 32) × (area ≡ big_endian 4 (length body) ++ body)
unfolding single_auth_area
single_auth_area-ok handle area h =
    let (body, _, fits, layout) = auth_area-ok (default_auth_command handle ∷ []) area h in
    (body, fits, layout)

-- It is read back as the one session that the classes write down.
pub proto_sessions-single_auth_area :
    (handle : ℕ) (area : Bytes)
    → single_auth_area handle ≡ ok area
    → proto_sessions area ≡ ok (password_session handle ∷ [])
unfolding single_auth_area session_message password_session
proto_sessions-single_auth_area handle area h =
    proto_sessions-bytes (default_auth_command handle ∷ []) area h

-- A handle and an authorization area at the start of the parameters.
module _ (params area rest : Bytes) (handle : ℕ) (body : Bytes) (handle_fits : handle < 2 ^ 32)
    (body_fits : length body < 2 ^ 32) (layout : area ≡ big_endian 4 (length body) ++ body)
    (starts : params ≡ big_endian 4 handle ++ (area ++ rest)) where
  start : drop 0 params ≡ big_endian 4 handle ++ (area ++ rest)
  start = drop-zero params ∙ starts

  at_area : drop 4 params ≡ area ++ rest
  at_area = drop_uint params 0 4 handle _ start

  pub reads_handle : uint_at params 0 4 ≡ handle
  reads_handle = uint_at-starts params 0 4 handle _ handle_fits start

  pub reads_area_size : uint_at params 4 4 ≡ length body
  reads_area_size =
      uint_at-starts params 4 4 (length body) (body ++ rest) body_fits
        (at_area ∙ ap (λ t. t ++ rest) layout ∙ append_assoc (big_endian 4 (length body)) body rest)

  area_size : 4 + length body ≡ length area
  area_size = omega (
    arith,
    ap length layout,
    length-append (big_endian 4 (length body)) body,
    length-big_endian 4 (length body),
  )

  area_end : 4 + (4 + length body) ≡ 4 + 4 + length body
  area_end = omega arith

  pub reads_area : slice params 4 (4 + 4 + length body) ≡ area
  reads_area = rw area_end at (slice_at params 4 (4 + length body) area rest area_size at_area)

  pub behind_area : drop (4 + 4 + length body) params ≡ rest
  behind_area = rw area_end at (drop_at params 4 (4 + length body) area rest area_size at_area)

-- The sensitive area, the public area, empty outside information and an empty selection, from `off`
-- on.
unfoldable pub creation_tail : Bytes → Bytes → Bytes
creation_tail sensitive public =
    prefixed sensitive ++ (prefixed public ++ (prefixed [] ++ big_endian 4 0))

module _ (params : Bytes) (off : ℕ) (sensitive public : Bytes) (s_fits : length sensitive < 65536)
    (p_fits : length public < 65536)
    (starts : drop off params ≡ creation_tail sensitive public) where
  abbrev pub after_sensitive : ℕ
  after_sensitive = off + 2 + length sensitive

  abbrev pub after_public : ℕ
  after_public = after_sensitive + 2 + length public

  abbrev pub after_outside : ℕ
  after_outside = after_public + 2 + 0

  flat :
      drop off params ≡ prefixed sensitive ++ (prefixed public ++ (prefixed [] ++ big_endian 4 0))
  unfolding creation_tail
  flat = starts

  at_public : drop after_sensitive params ≡ prefixed public ++ (prefixed [] ++ big_endian 4 0)
  at_public = drop_tpm2b params off sensitive _ s_fits flat

  at_outside : drop after_public params ≡ prefixed [] ++ big_endian 4 0
  at_outside = drop_tpm2b params after_sensitive public _ p_fits at_public

  pub reads_sensitive : parse_tpm2b params off ≡ (prefixed sensitive, after_sensitive)
  reads_sensitive = parse_tpm2b-starts params off sensitive _ s_fits flat

  pub reads_public : parse_tpm2b params after_sensitive ≡ (prefixed public, after_public)
  reads_public = parse_tpm2b-starts params after_sensitive public _ p_fits at_public

  pub reads_outside : parse_tpm2b params after_public ≡ (prefixed [], after_outside)
  reads_outside = parse_tpm2b-starts params after_public [] _ (omega arith) at_outside

  pub reads_pcr : drop after_outside params ≡ big_endian 4 0
  reads_pcr = drop_tpm2b params after_public [] _ (omega arith) at_outside

-- What a creation command was made of.
pub record Created (handle session : ℕ) (s : SensitiveCreate) (t : TpmtPublic) (params : Bytes)
    : Type 0 where
  pub area : Bytes
  pub body : Bytes
  pub sensitive : Bytes
  pub public : Bytes
  pub handle_fits : handle < 2 ^ 32
  pub area_written : single_auth_area session ≡ ok area
  pub body_fits : length body < 2 ^ 32
  pub area_layout : area ≡ big_endian 4 (length body) ++ body
  pub sensitive_fits : length sensitive < 65536
  pub sensitive_written : sensitive_create_2b_bytes s ≡ ok (prefixed sensitive)
  pub public_fits : length public < 65536
  pub public_written : public_2b_bytes t ≡ ok (prefixed public)
  pub params_layout : params ≡ big_endian 4 handle ++ (area ++ creation_tail sensitive public)

pub no_outside_info : data_2b_bytes [] ≡ ok (prefixed [])
unfolding data_2b_bytes
no_outside_info = sized-fits [] (omega arith)

pub no_creation_pcr : pcr_selections_bytes [] ≡ ok (big_endian 4 0)
unfolding pcr_selections_bytes join
no_creation_pcr = rw (to_bytes-fits 0 4 (omega arith), append-nil)

same_parts :
    (b e : Bytes) {a a' c c' d d' : Bytes}
    → a ≡ a'
    → c ≡ c'
    → d ≡ d'
    → a ++ (b ++ (c ++ (d ++ e))) ≡ a' ++ (b ++ (c' ++ (d' ++ e)))
same_parts b e p q r = cc

module _ (handle session : ℕ) (s : SensitiveCreate) (t : TpmtPublic)
    (params parent area sens area_2b : Bytes) (parent_ok : to_bytes handle 4 ≡ ok parent)
    (area_ok : single_auth_area session ≡ ok area) (sens_ok : sensitive_create_2b_bytes s ≡ ok sens)
    (public_ok : public_2b_bytes t ≡ ok area_2b)
    (out : parent ++ (area ++ (sens ++ (area_2b ++ (prefixed [] ++ big_endian 4 0))))
      ≡ params) where
  assemble : Created handle session s t params
  unfolding creation_tail
  assemble =
      let (body, body_fits, area_layout) = single_auth_area-ok session area area_ok in
      let (ua_fits, d_fits, fits, sens_layout) = sensitive_create_2b_bytes-ok s sens sens_ok in
      let (rest, _, _, p_fits, p_layout) = public_2b-ok t area_2b public_ok in
      let (h_fits, h_layout) : (handle < 2 ^ 32) × (parent ≡ big_endian 4 handle) =
        (ground (arith, to_bytes-cases handle 4), ground (arith, to_bytes-cases handle 4)) in
      record {
        area = area;
        body = body;
        sensitive = prefixed s.user_auth ++ prefixed s.sensitive_data;
        public = public_head t rest;
        handle_fits = h_fits;
        area_written = area_ok;
        body_fits = body_fits;
        area_layout = area_layout;
        sensitive_fits = omega (
          arith,
          length-append (prefixed s.user_auth) (prefixed s.sensitive_data),
          length-prefixed s.user_auth,
          length-prefixed s.sensitive_data,
        );
        sensitive_written = sens_ok ∙ ap ok sens_layout;
        public_fits = p_fits;
        public_written = public_ok ∙ ap ok p_layout;
        params_layout = sym out ∙ same_parts _ _ h_layout sens_layout p_layout;
      }

pub creation_params-Created :
    (handle session : ℕ) (s : SensitiveCreate) (t : TpmtPublic) (params : Bytes)
    → creation_params handle session s t ≡ ok params
    → Created handle session s t params
unfolding creation_params
creation_params-Created handle session s t params h =
    let (parent, area, sens, area_2b, e0, e1, e2, e3, out) =
      bind4-eq-ok (to_bytes handle 4) (single_auth_area session) (sensitive_create_2b_bytes s)
        (public_2b_bytes t) _ (rw (no_outside_info, no_creation_pcr) at h) in
    assemble handle session s t params parent area sens area_2b e0 e1 e2 e3 (ok-injective out)
