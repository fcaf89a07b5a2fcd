-- ===== src/Commands/AuthSession/SessionLayout.antt =====
-- What `TPMStartAuthSession.to_proto` reads in the parameters of a session command.
use tpm_fuzzer.Prelude.{
  ℕ, ◌+◌, ◌^◌, ◌<◌, ◌≡◌, refl, sym, ap, ◌∙◌, [], ◌∷◌, ◌++◌, length, drop, drop-zero, append-nil,
  append_assoc, ok, ◌>>=◌,
}
use tpm_fuzzer.Bytes.{Bytes, big_endian}
use tpm_fuzzer.Bytes.Slices.{index-starts}
use tpm_fuzzer.Bytes.Prefixed.{prefixed}
use tpm_fuzzer.Types.Enums.{alg_to_int}
use tpm_fuzzer.Types.Algorithms.{SymDefObject, sym_def_object_bytes}
use tpm_fuzzer.Types.Public.Layout.{sym_tail}
use tpm_fuzzer.Proto.{Message}
use tpm_fuzzer.Proto.Constants.{enum_value, alg_name, se_name}
use tpm_fuzzer.Command.{TpmCommand, proto_header, proto_tpm2b_data}
use tpm_fuzzer.Command.Parse.Reading.{
  uint_at-starts, drop_uint, drop_at, size_at, content_at, drop_tpm2b,
}
use tpm_fuzzer.Commands.AuthSession.{start_auth_session_to_proto}
use tpm_fuzzer.Commands.AuthSession.Symmetric.{
  sym_key_bits, sym_mode, sym_end, sym-ok, parse_symmetric-starts,
}

-- The parameters of a session command, part by part.
module _ (base : TpmCommand) (key bind : ℕ) (nonce salt : Bytes) (type : ℕ) (s : SymDefObject)
    (sym_bytes : Bytes) (hash : ℕ) (key_fits : key < 2 ^ 32) (bind_fits : bind < 2 ^ 32)
    (nonce_fits : length nonce < 65536) (salt_fits : length salt < 65536)
    (written : sym_def_object_bytes s ≡ ok sym_bytes) (hash_fits : hash < 65536)
    (layout : base.params
      ≡ big_endian 4 key
        ++ (big_endian 4 bind
            ++ (prefixed nonce
                ++ (prefixed salt ++ (type ∷ (sym_bytes ++ big_endian 2 hash)))))) where
  nonce_end : ℕ
  nonce_end = 10 + length nonce

  salt_end : ℕ
  salt_end = nonce_end + 2 + length salt

  at_key :
      drop 0 base.params
      ≡ big_endian 4 key
        ++ (big_endian 4 bind
            ++ (prefixed nonce ++ (prefixed salt ++ (type ∷ (sym_bytes ++ big_endian 2 hash)))))
  at_key = drop-zero base.params ∙ layout

  at_bind :
      drop 4 base.params
      ≡ big_endian 4 bind
        ++ (prefixed nonce ++ (prefixed salt ++ (type ∷ (sym_bytes ++ big_endian 2 hash))))
  at_bind = drop_uint base.params 0 4 key _ at_key

  at_nonce :
      drop 8 base.params
      ≡ prefixed nonce ++ (prefixed salt ++ (type ∷ (sym_bytes ++ big_endian 2 hash)))
  at_nonce = drop_uint base.params 4 4 bind _ at_bind

  at_salt : drop nonce_end base.params ≡ prefixed salt ++ (type ∷ (sym_bytes ++ big_endian 2 hash))
  unfolding nonce_end
  at_salt = drop_tpm2b base.params 8 nonce _ nonce_fits at_nonce

  at_type : drop salt_end base.params ≡ type ∷ (sym_bytes ++ big_endian 2 hash)
  unfolding salt_end
  at_type = drop_tpm2b base.params nonce_end salt _ salt_fits at_salt

  at_symmetric :
      drop (salt_end + 1) base.params
      ≡ big_endian 2 (alg_to_int s.algorithm) ++ (sym_tail s ++ big_endian 2 hash)
  at_symmetric =
      drop_at base.params salt_end 1 (type ∷ []) _ refl at_type
      ∙ ap (λ t. t ++ big_endian 2 hash) (sym-ok s sym_bytes written).1
      ∙ append_assoc (big_endian 2 (alg_to_int s.algorithm)) (sym_tail s) (big_endian 2 hash)

  at_hash : drop (sym_end s (salt_end + 1)) base.params ≡ big_endian 2 hash ++ []
  at_hash =
      (parse_symmetric-starts s sym_bytes written base.params (salt_end + 1) (big_endian 2 hash)
        at_symmetric).1
      ∙ sym (append-nil (big_endian 2 hash))

  -- What `to_proto` makes of them.
  pub start_auth_session_to_proto-layout : start_auth_session_to_proto base ≡ (
      se_name type >>= λ type_name. alg_name (alg_to_int s.algorithm) >>= λ sym_name.
      alg_name (sym_mode s) >>= λ mode_name. alg_name hash >>= λ hash_name.
      enum_value key >>= λ key_value. enum_value bind >>= λ bind_value. ok (
        Message.startauthsession
          (proto_header base)
          key_value
          bind_value
          (proto_tpm2b_data nonce)
          (proto_tpm2b_data salt)
          type_name
          (record { algorithm = sym_name; key_bits = sym_key_bits s; mode = mode_name })
          hash_name))
  unfolding start_auth_session_to_proto nonce_end salt_end
  start_auth_session_to_proto-layout = rw (
    size_at base.params 8 nonce _ nonce_fits at_nonce,
    size_at base.params (10 + length nonce) salt _ salt_fits at_salt,
    index-starts base.params (10 + length nonce + 2 + length salt) _ _ at_type,
    uint_at-starts base.params (10 + length nonce + 2 + length salt + 1) 2 _ _
        (sym-ok s sym_bytes written).0 at_symmetric,
    (parse_symmetric-starts s sym_bytes written base.params (salt_end + 1) (big_endian 2 hash)
        at_symmetric).0,
    uint_at-starts base.params (sym_end s (salt_end + 1)) 2 _ _ hash_fits at_hash,
    uint_at-starts base.params 0 4 _ _ key_fits at_key,
    uint_at-starts base.params 4 4 _ _ bind_fits at_bind,
    content_at base.params 8 nonce _ nonce_fits at_nonce,
    content_at base.params (10 + length nonce) salt _ salt_fits at_salt,
  )
