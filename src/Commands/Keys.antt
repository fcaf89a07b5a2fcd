-- ===== src/Commands/Keys.antt =====
-- The commands that use a key: TPMSign, TPMRSADecrypt and TPMRSAEncrypt.
use tpm_fuzzer.Prelude.{ℕ, [], ◌∷◌, ◌++◌, Option, none, some, Result, ok, ◌>>=◌}
use tpm_fuzzer.Bytes.{Bytes, to_bytes, sized}
use tpm_fuzzer.Types.Enums.{TpmAlg, TpmRs, IntOr, alg_to_int, rs_to_int}
use tpm_fuzzer.Types.Algorithms.{
  SigScheme, sig_scheme_bytes, RsaDecryptScheme, rsa_decrypt_scheme_bytes,
}
use tpm_fuzzer.Types.Buffers.{TkHashcheck, tk_hashcheck_bytes}
use tpm_fuzzer.Types.Sessions.{single_auth_area}
use tpm_fuzzer.Proto.{RsaDecryptMessage, Message}
use tpm_fuzzer.Proto.Constants.{
  enum_value, st_no_sessions, st_sessions, cc_sign, cc_rsa_decrypt, cc_rsa_encrypt,
}
use tpm_fuzzer.Command.{TpmCommand, proto_header, proto_tpm2b_data}
use tpm_fuzzer.Commands.Instance.{Command}
use tpm_fuzzer.Commands.Hierarchy.{password_session}

unfoldable pub sign : ℕ → Bytes → SigScheme → TkHashcheck → IntOr TpmRs → Result Command
sign key_handle digest in_scheme validation session_handle = do
  digest_bytes ← sized digest
  key ← to_bytes key_handle 4
  auth_area ← single_auth_area (rs_to_int session_handle)
  scheme ← sig_scheme_bytes in_scheme
  ticket ← tk_hashcheck_bytes validation
  ok (
      Command.plain (record {
        tag = st_sessions;
        cc = cc_sign;
        params = key ++ (auth_area ++ (digest_bytes ++ (scheme ++ ticket)));
      }))

unfoldable pub rsa_decrypt : ℕ → Bytes → RsaDecryptScheme → Bytes → IntOr TpmRs → Result Command
rsa_decrypt key_handle cipher_text in_scheme label session_handle = do
  cipher_bytes ← sized cipher_text
  label_bytes ← sized label
  key ← to_bytes key_handle 4
  auth_area ← single_auth_area (rs_to_int session_handle)
  scheme ← rsa_decrypt_scheme_bytes in_scheme
  ok (
      Command.rsa_decrypt
        (record {
          tag = st_sessions;
          cc = cc_rsa_decrypt;
          params = key ++ (auth_area ++ (cipher_bytes ++ (scheme ++ label_bytes)));
        })
        key_handle cipher_text in_scheme label (rs_to_int session_handle))

-- `hash_alg_val`: 0 where the scheme has no hash algorithm.
unfoldable pub hash_or_zero : Option (IntOr TpmAlg) → ℕ
hash_or_zero none = 0
hash_or_zero (some h) = alg_to_int h

unfoldable pub scheme_message : RsaDecryptScheme → Result RsaDecryptMessage
unfolding hash_or_zero
scheme_message s = do
  scheme_val ← enum_value (alg_to_int s.scheme)
  hash_alg_val ← enum_value (hash_or_zero s.hash_alg)
  ok (record { scheme = scheme_val; hash_alg = hash_alg_val })

unfoldable pub rsa_decrypt_to_proto :
    TpmCommand → ℕ → Bytes → RsaDecryptScheme → Bytes → ℕ → Result Message
rsa_decrypt_to_proto base key_handle cipher_text in_scheme label session_handle = do
  scheme ← scheme_message in_scheme
  ok (
      Message.rsadecrypt (proto_header base) key_handle (password_session session_handle ∷ [])
        (proto_tpm2b_data cipher_text) scheme (proto_tpm2b_data label))

unfoldable pub rsa_encrypt : ℕ → Bytes → RsaDecryptScheme → Bytes → Result Command
rsa_encrypt key_handle message in_scheme label = do
  msg ← sized message
  label_bytes ← sized label
  key ← to_bytes key_handle 4
  scheme ← rsa_decrypt_scheme_bytes in_scheme
  ok (
      Command.rsa_encrypt
        (record {
          tag = st_no_sessions;
          cc = cc_rsa_encrypt;
          params = key ++ (msg ++ (scheme ++ label_bytes));
        })
        key_handle message in_scheme label)

unfoldable pub rsa_encrypt_to_proto :
    TpmCommand → ℕ → Bytes → RsaDecryptScheme → Bytes → Result Message
rsa_encrypt_to_proto base key_handle message in_scheme label = do
  scheme ← scheme_message in_scheme
  ok (
      Message.rsaencrypt (proto_header base) key_handle (proto_tpm2b_data message) scheme
        (proto_tpm2b_data label))
