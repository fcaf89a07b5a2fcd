-- ===== src/Seeds/Table/Objects.antt =====
-- `tpm_load_seeds`, `tpm_unseal_seeds` and the TPMCreate entries of main.py.
use tpm_fuzzer.Prelude.{ℕ, List, [], ◌∷◌, none, some, codes, Result, ◌>>=◌}
use tpm_fuzzer.Types.Enums.{TpmAlg, TpmaObject, member}
use tpm_fuzzer.Types.Attributes.{flags}
use tpm_fuzzer.Types.Buffers.{private_2b_bytes}
use tpm_fuzzer.Commands.Instance.{Command}
use tpm_fuzzer.Commands.Creation.{tpm_create}
use tpm_fuzzer.Commands.Loading.{tpm_load, unseal}
use tpm_fuzzer.Seeds.Generation.{SeedVariants}
use tpm_fuzzer.Seeds.Table.Build.{variants_of, pw, primary}
use tpm_fuzzer.Seeds.Table.Blobs.{
  flip_last, unseal_seal_in_private, unseal_seal_in_public, unseal_hmac_in_private,
  unseal_hmac_in_public,
}

-- The sealed object and the HMAC key that both functions create.
unfoldable pub create_sealed : Result Command
create_sealed =
    tpm_create 0x80000000 pw TpmAlg.sha256 TpmAlg.keyedhash 2048
      (some (
        flags (
          TpmaObject.fixed_tpm ∷ TpmaObject.fixed_parent ∷ TpmaObject.user_with_auth
          ∷ TpmaObject.noda ∷ [])))
      none (some (record { scheme = member TpmAlg.null; hash_alg = none })) (codes "hello secret")

unfoldable pub create_hmac : Result Command
create_hmac =
    tpm_create 0x80000000 pw TpmAlg.sha256 TpmAlg.keyedhash 2048
      (some (
        flags (
          TpmaObject.fixed_tpm ∷ TpmaObject.fixed_parent ∷ TpmaObject.sensitive_data_origin
          ∷ TpmaObject.user_with_auth ∷ TpmaObject.noda ∷ TpmaObject.sign_encrypt
          ∷ TpmaObject.restricted ∷ [])))
      none (some (record { scheme = member TpmAlg.hmac; hash_alg = some (member TpmAlg.sha256) }))
      []

unfoldable pub load_sealed : Result Command
load_sealed = tpm_load 0x80000000 unseal_seal_in_private unseal_seal_in_public pw

unfoldable pub load_hmac : Result Command
load_hmac = tpm_load 0x80000000 unseal_hmac_in_private unseal_hmac_in_public pw

unfoldable pub tpm_load_seeds : Result SeedVariants
tpm_load_seeds = variants_of (
    (primary ∷ create_sealed ∷ load_sealed ∷ [])
    ∷ (primary ∷ create_hmac ∷ load_hmac ∷ [])
    ∷ (primary
        ∷ (do empty ← private_2b_bytes []; tpm_load 0x80000000 empty unseal_seal_in_public pw)
        ∷ [])
    ∷ (primary
        ∷ (do
          corrupted ← flip_last unseal_seal_in_private
          tpm_load 0x80000000 corrupted unseal_seal_in_public pw)
        ∷ [])
    ∷ [])

unfoldable pub tpm_unseal_seeds : Result SeedVariants
tpm_unseal_seeds = variants_of (
    (primary ∷ create_sealed ∷ load_sealed ∷ unseal 0x80000001 pw ∷ [])
    ∷ (primary ∷ unseal 0x80000000 pw ∷ [])
    ∷ (primary ∷ create_hmac ∷ load_hmac ∷ unseal 0x80000001 pw ∷ [])
    ∷ [])

-- `TPMCreate(0x80000000, TPM_RS.PW, hashAlg, TPM_ALG.RSA, keyBits)` under a primary key
unfoldable pub create_rsa : TpmAlg → ℕ → List (Result Command)
create_rsa hash_alg key_bits =
    primary ∷ tpm_create 0x80000000 pw hash_alg TpmAlg.rsa key_bits none none none [] ∷ []

unfoldable pub tpm_create_seeds : Result SeedVariants
unfolding create_rsa
tpm_create_seeds = variants_of (
    create_rsa TpmAlg.sha256 2048
    ∷ create_rsa TpmAlg.sha256 1024
    ∷ create_rsa TpmAlg.sha1 2048
    ∷ create_rsa TpmAlg.sha1 1024
    ∷ create_rsa TpmAlg.sha384 2048
    ∷ create_rsa TpmAlg.sha384 1024
    ∷ [])
