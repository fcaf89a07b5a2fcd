-- ===== src/Seeds/Table/Asymmetric.antt =====
-- `tpm_make_credential_seeds`, `tpm_rsa_encrypt_seeds`, `tpm_rsa_decrypt_seeds`, and the TPMSign and
-- TPMLoadExternal entries of `TEST_CASES`.
use tpm_fuzzer.Prelude.{
  List, [], ◌∷◌, ◌++◌, Option, none, some, true, false, replicate, Result, ◌>>=◌,
}
use tpm_fuzzer.Bytes.{Bytes, to_bytes}
use tpm_fuzzer.Types.Enums.{TpmAlg, TpmRh, TpmaObject, IntOr, member}
use tpm_fuzzer.Types.Algorithms.{RsaDecryptScheme}
use tpm_fuzzer.Commands.Instance.{Command}
use tpm_fuzzer.Commands.Keys.{sign, rsa_decrypt, rsa_encrypt}
use tpm_fuzzer.Commands.Loading.{make_credential, load_external}
use tpm_fuzzer.Seeds.Generation.{SeedVariants}
use tpm_fuzzer.Seeds.Table.Build.{variants_of, pw, primary, key_template, primary_from}

-- `signing_primary`, and the key of the first entries of TPMSign
unfoldable pub signing_flags : List TpmaObject
signing_flags =
    TpmaObject.fixed_tpm ∷ TpmaObject.fixed_parent ∷ TpmaObject.sensitive_data_origin
    ∷ TpmaObject.user_with_auth ∷ TpmaObject.noda ∷ TpmaObject.sign_encrypt ∷ []

unfoldable pub signing_primary : Result Command
unfolding signing_flags
signing_primary = primary_from (key_template signing_flags TpmAlg.null none)

-- `credential` of 16 bytes with a name of 34 bytes, the hash algorithm first
unfoldable pub credential_for : Bytes → Result Command
credential_for credential = do
  alg ← to_bytes 0x000B 2
  make_credential 0x80000000 credential (alg ++ replicate 32 0x00)

unfoldable pub tpm_make_credential_seeds : Result SeedVariants
unfolding credential_for
tpm_make_credential_seeds = variants_of (
    (primary ∷ credential_for (replicate 16 0xab) ∷ [])
    ∷ (signing_primary ∷ credential_for (replicate 16 0xab) ∷ [])
    ∷ (primary ∷ credential_for [] ∷ [])
    ∷ [])

abbrev scheme_of : TpmAlg → Option (IntOr TpmAlg) → RsaDecryptScheme
scheme_of scheme hash_alg = record { scheme = member scheme; hash_alg = hash_alg }

unfoldable pub encrypt_primary : Result Command
encrypt_primary = primary_from (
    key_template
      (TpmaObject.fixed_tpm ∷ TpmaObject.fixed_parent ∷ TpmaObject.sensitive_data_origin
        ∷ TpmaObject.user_with_auth ∷ TpmaObject.decrypt ∷ [])
      TpmAlg.null none)

unfoldable pub tpm_rsa_encrypt_seeds : Result SeedVariants
tpm_rsa_encrypt_seeds = variants_of (
    (encrypt_primary
      ∷ rsa_encrypt 0x80000000 (replicate 64 0x41) (scheme_of TpmAlg.rsaes none) []
      ∷ [])
    ∷ (encrypt_primary
        ∷ rsa_encrypt 0x80000000 (replicate 64 0x41)
            (scheme_of TpmAlg.oaep (some (member TpmAlg.sha256))) []
        ∷ [])
    ∷ (encrypt_primary
        ∷ rsa_encrypt 0x80000000 (replicate 64 0x41) (scheme_of TpmAlg.null none) []
        ∷ [])
    ∷ (encrypt_primary
        ∷ rsa_encrypt 0x80000000 [] (scheme_of TpmAlg.oaep (some (member TpmAlg.sha256))) []
        ∷ [])
    ∷ [])

unfoldable pub decrypt_primary : Result Command
decrypt_primary = primary_from (
    key_template
      (TpmaObject.fixed_tpm ∷ TpmaObject.fixed_parent ∷ TpmaObject.sensitive_data_origin
        ∷ TpmaObject.user_with_auth ∷ TpmaObject.noda ∷ TpmaObject.decrypt ∷ [])
      TpmAlg.null none)

abbrev decrypt_with : RsaDecryptScheme → List (Result Command)
decrypt_with scheme =
    decrypt_primary ∷ rsa_decrypt 0x80000000 (replicate 256 0x00) scheme [] pw ∷ []

unfoldable pub tpm_rsa_decrypt_seeds : Result SeedVariants
tpm_rsa_decrypt_seeds = variants_of (
    decrypt_with (scheme_of TpmAlg.rsaes none)
    ∷ decrypt_with (scheme_of TpmAlg.oaep (some (member TpmAlg.sha256)))
    ∷ decrypt_with (scheme_of TpmAlg.null none)
    ∷ [])

-- A signature of the digest by the key at the first transient handle, with an RSASSA scheme.
abbrev sign_with : Bytes → TpmAlg → Bytes → Result Command
sign_with digest hash_alg ticket_digest =
    sign 0x80000000 digest (record { scheme = member TpmAlg.rsassa; hash_alg = member hash_alg })
      (record { hierarchy = member TpmRh.null; digest = ticket_digest }) pw

unfoldable pub sign_seeds : Result SeedVariants
unfolding signing_flags
sign_seeds = variants_of (
    (signing_primary ∷ sign_with (replicate 32 0x00) TpmAlg.sha256 [] ∷ [])
    ∷ (primary ∷ sign_with (replicate 32 0x00) TpmAlg.sha256 [] ∷ [])
    ∷ (signing_primary ∷ sign_with (replicate 16 0x00) TpmAlg.sha256 [] ∷ [])
    ∷ (signing_primary ∷ sign_with (replicate 32 0x00) TpmAlg.sha256 (replicate 32 0x01) ∷ [])
    ∷ (primary_from (key_template signing_flags TpmAlg.rsassa (some (member TpmAlg.sha256)))
        ∷ sign_with (replicate 48 0x00) TpmAlg.sha384 []
        ∷ [])
    ∷ (primary_from (key_template (signing_flags ++ (TpmaObject.x509_sign ∷ [])) TpmAlg.null none)
        ∷ sign_with (replicate 32 0x00) TpmAlg.sha256 []
        ∷ [])
    ∷ [])

unfoldable pub load_external_seeds : Result SeedVariants
load_external_seeds = variants_of (
    (load_external TpmAlg.sha256 2048 TpmRh.null false ∷ [])
    ∷ (load_external TpmAlg.sha256 2048 TpmRh.null true ∷ [])
    ∷ [])
