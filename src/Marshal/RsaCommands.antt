-- ===== src/Marshal/RsaCommands.antt =====
-- What the constructors of TPMRSAEncrypt and TPMRSADecrypt serialize.
use tpm_fuzzer.Prelude.{ℕ, ◌^◌, ◌<◌, ◌≡◌, refl, sym, ◌++◌, length, ok, ok-injective, >>=-eq-ok}
use tpm_fuzzer.Bytes.{Bytes, to_bytes, big_endian, sized}
use tpm_fuzzer.Bytes.Prefixed.{prefixed}
use tpm_fuzzer.Types.Enums.{TpmRs, IntOr, rs_to_int}
use tpm_fuzzer.Types.Sessions.{single_auth_area}
use tpm_fuzzer.Proto.Constants.{st_sessions, st_no_sessions}
use tpm_fuzzer.Command.{TpmCommand}
use tpm_fuzzer.Commands.Instance.{Command}
use tpm_fuzzer.Commands.Keys.{rsa_encrypt, rsa_decrypt}
use tpm_fuzzer.Types.Algorithms.{RsaDecryptScheme, rsa_decrypt_scheme_bytes}
use tpm_fuzzer.Prelude.{bind4-eq-ok}
use tpm_fuzzer.Proto.Constants.{cc_rsa_encrypt, cc_rsa_decrypt}
use tpm_fuzzer.Marshal.Sessions.{area_of, single_auth_area-area_of}
use tpm_fuzzer.Marshal.FieldBytes.{to_bytes-ok, sized-ok}

-- The parameters of a TPMRSAEncrypt command that is built, and the bounds that hold.
pub rsa_encrypt-ok :
    (key_handle : ℕ) (message : Bytes) (in_scheme : RsaDecryptScheme) (label : Bytes) (c : Command)
    → rsa_encrypt key_handle message in_scheme label ≡ ok c
    → (base : TpmCommand) × (scheme : Bytes) × (length message < 65536)
      × (length label < 65536)
      × (key_handle < 2 ^ 32)
      × (rsa_decrypt_scheme_bytes in_scheme ≡ ok scheme)
      × (base.params ≡ big_endian 4 key_handle ++ (prefixed message ++ (scheme ++ prefixed label)))
      × (c ≡ Command.rsa_encrypt base key_handle message in_scheme label)
unfolding rsa_encrypt
rsa_encrypt-ok key_handle message in_scheme label c made =
    let (msg, label_bytes, key, scheme, hm, hl, hk, hs, e) =
      bind4-eq-ok (sized message) (sized label) (to_bytes key_handle 4)
        (rsa_decrypt_scheme_bytes in_scheme) _ made in
    let (msg_fits, em) = sized-ok message msg hm in
    let (label_fits, el) = sized-ok label label_bytes hl in
    let (key_fits, ek) = to_bytes-ok key_handle 4 key hk in
    (
      record {
        tag = st_no_sessions;
        cc = cc_rsa_encrypt;
        params = key ++ (msg ++ (scheme ++ label_bytes));
      },
      scheme,
      msg_fits,
      label_fits,
      key_fits,
      hs,
      rw (em, el, ek) refl,
      sym (ok-injective e),
    )

-- The same for TPMRSADecrypt.
pub rsa_decrypt-ok :
    (key_handle : ℕ) (cipher_text : Bytes) (in_scheme : RsaDecryptScheme) (label : Bytes)
    (session_handle : IntOr TpmRs) (c : Command)
    → rsa_decrypt key_handle cipher_text in_scheme label session_handle ≡ ok c
    → (base : TpmCommand) × (scheme : Bytes) × (length cipher_text < 65536)
      × (length label < 65536)
      × (key_handle < 2 ^ 32)
      × (rs_to_int session_handle < 2 ^ 32)
      × (rsa_decrypt_scheme_bytes in_scheme ≡ ok scheme)
      × (base.params
          ≡ big_endian 4 key_handle
            ++ (area_of (rs_to_int session_handle)
                ++ (prefixed cipher_text ++ (scheme ++ prefixed label))))
      × (c
          ≡ Command.rsa_decrypt base key_handle cipher_text in_scheme label
              (rs_to_int session_handle))
unfolding rsa_decrypt
rsa_decrypt-ok key_handle cipher_text in_scheme label session_handle c made =
    let (cipher, label_bytes, key, area, hm, hl, hk, ha, made2) =
      bind4-eq-ok (sized cipher_text) (sized label) (to_bytes key_handle 4)
        (single_auth_area (rs_to_int session_handle)) _ made in
    let (scheme, hs, e) = >>=-eq-ok (rsa_decrypt_scheme_bytes in_scheme) _ made2 in
    let (cipher_fits, em) = sized-ok cipher_text cipher hm in
    let (label_fits, el) = sized-ok label label_bytes hl in
    let (key_fits, ek) = to_bytes-ok key_handle 4 key hk in
    let (session_fits, ea) = single_auth_area-area_of (rs_to_int session_handle) area ha in
    (
      record {
        tag = st_sessions;
        cc = cc_rsa_decrypt;
        params = key ++ (area ++ (cipher ++ (scheme ++ label_bytes)));
      },
      scheme,
      cipher_fits,
      label_fits,
      key_fits,
      session_fits,
      hs,
      rw (em, el, ek, ea) refl,
      sym (ok-injective e),
    )
