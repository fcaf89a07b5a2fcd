-- ===== src/Command/Parse/SensitiveArea.antt =====
-- `_proto_sensitive_create` on the bytes of a TPM2B_SENSITIVE_CREATE.
use tpm_fuzzer.Prelude.{
  ◌+◌, ◌<◌, ◌≡◌, sym, arith, ◌++◌, length, length-append, ok, [], drop, drop-zero, append-nil, ◌∙◌,
}
use tpm_fuzzer.Bytes.{Bytes, slice}
use tpm_fuzzer.Bytes.Prefixed.{prefixed, sized-cases, length-prefixed, drop-prefixed}
use tpm_fuzzer.Types.Buffers.{SensitiveCreate, sensitive_create_bytes, sensitive_create_2b_bytes}
use tpm_fuzzer.Proto.{SensitiveCreateMessage}
use tpm_fuzzer.Command.{proto_tpm2b_data}
use tpm_fuzzer.Command.Parse.{uint_at, proto_sensitive_create}
use tpm_fuzzer.Command.Parse.Reading.{size_at, slice_at, content_at, drop_tpm2b}

-- What the bytes are.
pub sensitive_create_2b_bytes-ok :
    (s : SensitiveCreate) (b : Bytes)
    → sensitive_create_2b_bytes s ≡ ok b
    → (length s.user_auth < 65536)
      × (length s.sensitive_data < 65536)
      × (4 + length s.user_auth + length s.sensitive_data < 65536)
      × (b ≡ prefixed (prefixed s.user_auth ++ prefixed s.sensitive_data))
unfolding sensitive_create_2b_bytes sensitive_create_bytes
sensitive_create_2b_bytes-ok s b h = ground (
  arith,
  sized-cases s.user_auth,
  sized-cases s.sensitive_data,
  sized-cases (prefixed s.user_auth ++ prefixed s.sensitive_data),
  length-append (prefixed s.user_auth) (prefixed s.sensitive_data),
  length-prefixed s.user_auth,
  length-prefixed s.sensitive_data,
)

-- The message that stands for a sensitive area.
unfoldable pub sensitive_create_message : SensitiveCreate → SensitiveCreateMessage
sensitive_create_message s = record {
  size = 4 + length s.user_auth + length s.sensitive_data;
  user_auth = proto_tpm2b_data s.user_auth;
  sensitive_data = proto_tpm2b_data s.sensitive_data;
}

module _ (ua d : Bytes) (ua_fits : length ua < 65536) (d_fits : length d < 65536)
    (fits : 4 + length ua + length d < 65536) where
  inner : Bytes
  inner = prefixed ua ++ prefixed d

  length-inner : length inner ≡ 4 + length ua + length d
  unfolding inner
  length-inner =
      omega (arith, length-append (prefixed ua) (prefixed d), length-prefixed ua, length-prefixed d)

  inner_size : uint_at (prefixed inner) 0 2 ≡ 4 + length ua + length d
  inner_size = rw (← length-inner) (
      size_at (prefixed inner) 0 inner [] (rw length-inner fits)
        (drop-zero (prefixed inner) ∙ sym (append-nil (prefixed inner))))

  slice-inner : slice (prefixed inner) 2 (2 + (4 + length ua + length d)) ≡ inner
  slice-inner =
      slice_at (prefixed inner) 2 (4 + length ua + length d) inner [] (sym length-inner)
        (drop-prefixed inner ∙ sym (append-nil inner))

  at_auth : drop 0 inner ≡ prefixed ua ++ prefixed d
  unfolding inner
  at_auth = drop-zero inner

  at_data : drop (2 + length ua) inner ≡ prefixed d ++ []
  at_data = drop_tpm2b inner 0 ua (prefixed d) ua_fits at_auth ∙ sym (append-nil (prefixed d))

  proto_sensitive_create-prefixed :
      proto_sensitive_create (prefixed inner)
      ≡ sensitive_create_message (record { user_auth = ua; sensitive_data = d })
  unfolding proto_sensitive_create sensitive_create_message proto_tpm2b_data
  proto_sensitive_create-prefixed = rw (
    inner_size,
    slice-inner,
    size_at inner 0 ua (prefixed d) ua_fits at_auth,
    content_at inner 0 ua (prefixed d) ua_fits at_auth,
    size_at inner (2 + length ua) d [] d_fits at_data,
    content_at inner (2 + length ua) d [] d_fits at_data,
  )

-- Reading back the bytes of a TPM2B_SENSITIVE_CREATE gives the message of its fields.
pub proto_sensitive_create-bytes :
    (s : SensitiveCreate) (b : Bytes)
    → sensitive_create_2b_bytes s ≡ ok b
    → proto_sensitive_create b ≡ sensitive_create_message s
unfolding inner
proto_sensitive_create-bytes s b h =
    let (ua_fits, d_fits, fits, e) = sensitive_create_2b_bytes-ok s b h in
    rw e (proto_sensitive_create-prefixed s.user_auth s.sensitive_data ua_fits d_fits fits)
