-- ===== src/Command/Parse/SessionList.antt =====
-- `_proto_sessions` on the bytes of a TPM_AUTH_AREA.
use tpm_fuzzer.Prelude.{
  ℕ, zero, suc, ◌+◌, ◌^◌, ◌≤◌, ◌<◌, ◌≡◌, refl, sym, ap, ◌∙◌, arith, List, [], ◌∷◌, ◌++◌, length,
  drop, drop-zero, length-drop, length-append, append_assoc, map, ok, ok-injective, ◌>>=◌,
  >>=-eq-ok,
}
use tpm_fuzzer.Bytes.{Bytes, big_endian, join}
use tpm_fuzzer.Bytes.Integers.{to_bytes-cases, length-big_endian}
use tpm_fuzzer.Bytes.Slices.{index-starts}
use tpm_fuzzer.Bytes.Prefixed.{prefixed, sized-cases, big_endian-one}
use tpm_fuzzer.Types.Sessions.{AuthCommand, auth_command_bytes, auth_area_bytes}
use tpm_fuzzer.Proto.{TpmSession}
use tpm_fuzzer.Command.Parse.{session_at, sessions_loop, proto_sessions}
use tpm_fuzzer.Command.Parse.Reading.{
  uint_at-starts, drop_uint, drop_at, size_at, content_at, drop_tpm2b,
}

unfoldable pub session_message : AuthCommand → TpmSession
session_message a = record {
  session_handle = a.session_handle;
  nonce_size = length a.nonce;
  nonce = a.nonce;
  session_attributes = a.session_attributes;
  hmac_size = length a.hmac;
  hmac = a.hmac;
}

pub record AuthFits (a : AuthCommand) : Type 0 where
  pub handle_fits : a.session_handle < 2 ^ 32
  pub nonce_fits : length a.nonce < 65536
  pub attributes_fit : a.session_attributes < 256
  pub hmac_fits : length a.hmac < 65536

unfoldable pub auth_layout : AuthCommand → Bytes
auth_layout a =
    big_endian 4 a.session_handle
    ++ (prefixed a.nonce ++ ((a.session_attributes ∷ []) ++ prefixed a.hmac))

pub auth_command-ok :
    (a : AuthCommand) (b : Bytes) → auth_command_bytes a ≡ ok b → AuthFits a × (b ≡ auth_layout a)
unfolding auth_command_bytes auth_layout
auth_command-ok a b h = ground (
  arith,
  to_bytes-cases a.session_handle 4,
  sized-cases a.nonce,
  to_bytes-cases a.session_attributes 1,
  big_endian-one a.session_attributes,
  sized-cases a.hmac,
)

-- One round of the loop, where a session stands at `off`.
module _ (buffer : Bytes) (off : ℕ) (a : AuthCommand) (rest : Bytes) (fits : AuthFits a)
    (starts : drop off buffer ≡ auth_layout a ++ rest) where
  flat :
      drop off buffer
      ≡ big_endian 4 a.session_handle
        ++ (prefixed a.nonce ++ (a.session_attributes ∷ (prefixed a.hmac ++ rest)))
  unfolding auth_layout
  flat = starts ∙ simp append_assoc

  at_nonce :
      drop (off + 4) buffer ≡ prefixed a.nonce ++ (a.session_attributes ∷ (prefixed a.hmac ++ rest))
  at_nonce = drop_uint buffer off 4 a.session_handle _ flat

  at_attributes :
      drop (off + 4 + 2 + length a.nonce) buffer ≡ a.session_attributes ∷ (prefixed a.hmac ++ rest)
  at_attributes = drop_tpm2b buffer (off + 4) a.nonce _ fits.nonce_fits at_nonce

  at_hmac : drop (off + 4 + 2 + length a.nonce + 1) buffer ≡ prefixed a.hmac ++ rest
  at_hmac =
      drop_at buffer (off + 4 + 2 + length a.nonce) 1 (a.session_attributes ∷ []) _ refl
        at_attributes

  after : ℕ
  after = off + 4 + 2 + length a.nonce + 1 + 2 + length a.hmac

  at_after : drop after buffer ≡ rest
  unfolding after
  at_after = drop_tpm2b buffer (off + 4 + 2 + length a.nonce + 1) a.hmac rest fits.hmac_fits at_hmac

  session_at-starts : session_at buffer off ≡ ok (session_message a, after)
  unfolding session_at session_message after
  session_at-starts = rw (
    uint_at-starts buffer off 4 _ _ fits.handle_fits flat,
    size_at buffer (off + 4) a.nonce _ fits.nonce_fits at_nonce,
    content_at buffer (off + 4) a.nonce _ fits.nonce_fits at_nonce,
    index-starts buffer (off + 4 + 2 + length a.nonce) _ _ at_attributes,
    size_at buffer (off + 4 + 2 + length a.nonce + 1) a.hmac _ fits.hmac_fits at_hmac,
    content_at buffer (off + 4 + 2 + length a.nonce + 1) a.hmac _ fits.hmac_fits at_hmac,
  )

  -- There are bytes left where a session stands.
  inside : off < length buffer
  unfolding auth_layout
  inside = omega (
    arith,
    length-drop off buffer,
    ap length flat,
    length-append (big_endian 4 a.session_handle)
        (prefixed a.nonce ++ (a.session_attributes ∷ (prefixed a.hmac ++ rest))),
    length-big_endian 4 a.session_handle,
  )

loop_ends :
    (fuel : ℕ) (buffer : Bytes) (off : ℕ)
    → drop off buffer ≡ []
    → sessions_loop fuel buffer off ≡ ok []
unfolding sessions_loop
loop_ends zero buffer off h =
    let done : length buffer ≤ off = omega (arith, length-drop off buffer, ap length h) in
    ground arith
loop_ends (suc fuel) buffer off h =
    let done : length buffer ≤ off = omega (arith, length-drop off buffer, ap length h) in
    ground arith

loop_goes_on :
    (fuel : ℕ) (buffer : Bytes) (off : ℕ) (session : TpmSession) (next : ℕ)
    → off < length buffer
    → session_at buffer off ≡ ok (session, next)
    → sessions_loop (suc fuel) buffer off
      ≡ (sessions_loop fuel buffer next >>= λ sessions. ok (session ∷ sessions))
unfolding sessions_loop
loop_goes_on fuel buffer off session next inside h = ground arith

sessions_loop-join :
    (commands : List AuthCommand) (body buffer : Bytes) (off fuel : ℕ)
    → join auth_command_bytes commands ≡ ok body
    → drop off buffer ≡ body
    → length commands ≤ fuel
    → sessions_loop fuel buffer off ≡ ok (map session_message commands)
unfolding join
sessions_loop-join [] body buffer off fuel h starts enough =
    loop_ends fuel buffer off (starts ∙ sym (ok-injective h))
sessions_loop-join (a ∷ more) body buffer off zero h starts enough = absurd (omega arith)
sessions_loop-join (a ∷ more) body buffer off (suc fuel) h starts enough =
    let (first, e, h') = >>=-eq-ok (auth_command_bytes a) _ h in
    let (others, e', h'') = >>=-eq-ok (join auth_command_bytes more) _ h' in
    let (fits, layout) = auth_command-ok a first e in
    let start : drop off buffer ≡ auth_layout a ++ others =
      starts ∙ sym (ok-injective h'') ∙ ap (λ t. t ++ others) layout in
    loop_goes_on fuel buffer off _ _ (inside buffer off a others fits start)
      (session_at-starts buffer off a others fits start)
    ∙ rw (
        sessions_loop-join more others buffer _ fuel e' (at_after buffer off a others fits start)
          (omega arith))

-- Every session takes bytes, so there are no more sessions than bytes.
length-join :
    (commands : List AuthCommand) (body : Bytes)
    → join auth_command_bytes commands ≡ ok body
    → length commands ≤ length body
unfolding join auth_layout
length-join [] body h = omega arith
length-join (a ∷ more) body h =
    let (first, e, h') = >>=-eq-ok (auth_command_bytes a) _ h in
    let (others, e', h'') = >>=-eq-ok (join auth_command_bytes more) _ h' in
    let (fits, layout) = auth_command-ok a first e in
    omega (
      arith,
      length-join more others e',
      ap length (ok-injective h''),
      length-append first others,
      ap length layout,
      length-append (big_endian 4 a.session_handle)
          (prefixed a.nonce ++ ((a.session_attributes ∷ []) ++ prefixed a.hmac)),
      length-big_endian 4 a.session_handle,
    )

pub auth_area-ok :
    (commands : List AuthCommand) (b : Bytes)
    → auth_area_bytes commands ≡ ok b
    → (body : Bytes) × (join auth_command_bytes commands ≡ ok body)
      × (length body < 2 ^ 32)
      × (b ≡ big_endian 4 (length body) ++ body)
unfolding auth_area_bytes
auth_area-ok commands b h =
    let (body, e, h') = >>=-eq-ok (join auth_command_bytes commands) _ h in
    (
      body,
      e,
      ground (arith, to_bytes-cases (length body) 4),
      ground (arith, to_bytes-cases (length body) 4),
    )

-- Reading back the bytes of an authorization area gives the messages of its sessions, in order.
pub proto_sessions-bytes :
    (commands : List AuthCommand) (b : Bytes)
    → auth_area_bytes commands ≡ ok b
    → proto_sessions b ≡ ok (map session_message commands)
unfolding proto_sessions
proto_sessions-bytes commands b h =
    let (body, e, fits, layout) = auth_area-ok commands b h in
    let behind : drop 4 b ≡ body = drop_uint b 0 4 (length body) body (drop-zero b ∙ layout) in
    sessions_loop-join commands body b 4 (length b) e behind (
      omega (
        arith,
        length-join commands body e,
        ap length layout,
        length-append (big_endian 4 (length body)) body,
      ))
