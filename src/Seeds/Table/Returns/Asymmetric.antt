-- ===== src/Seeds/Table/Returns/Asymmetric.antt =====
-- The seeds of Seeds/Table/Asymmetric all serialize.
use tpm_fuzzer.Commands.Creation.{creation_params, primary_template, tpm_create_primary}
use tpm_fuzzer.Commands.Keys.{rsa_decrypt, rsa_encrypt, sign}
use tpm_fuzzer.Commands.Loading.{dummy_key, external_private, load_external, make_credential}
use tpm_fuzzer.Prelude.{ok, refl, ◌≡◌}
use tpm_fuzzer.Seeds.Table.Asymmetric.{
  credential_for, decrypt_primary, encrypt_primary, load_external_seeds, sign_seeds, signing_flags,
  signing_primary, tpm_make_credential_seeds, tpm_rsa_decrypt_seeds, tpm_rsa_encrypt_seeds,
}
use tpm_fuzzer.Seeds.Table.Build.{key_template, primary, primary_from}
use tpm_fuzzer.Seeds.Table.Returns.{seeds_result}

pub tpm_make_credential_seeds_return : seeds_result tpm_make_credential_seeds ≡ ok tt
unfolding seeds_result tpm_make_credential_seeds creation_params primary_template tpm_create_primary
    make_credential credential_for signing_flags signing_primary key_template primary primary_from
tpm_make_credential_seeds_return = refl

pub tpm_rsa_encrypt_seeds_return : seeds_result tpm_rsa_encrypt_seeds ≡ ok tt
unfolding seeds_result tpm_rsa_encrypt_seeds creation_params primary_template tpm_create_primary
    rsa_encrypt encrypt_primary key_template primary_from
tpm_rsa_encrypt_seeds_return = refl

pub tpm_rsa_decrypt_seeds_return : seeds_result tpm_rsa_decrypt_seeds ≡ ok tt
unfolding seeds_result tpm_rsa_decrypt_seeds creation_params primary_template tpm_create_primary
    rsa_decrypt decrypt_primary key_template primary_from
tpm_rsa_decrypt_seeds_return = refl

pub sign_seeds_return : seeds_result sign_seeds ≡ ok tt
unfolding seeds_result sign_seeds creation_params primary_template tpm_create_primary sign
    signing_flags signing_primary key_template primary primary_from
sign_seeds_return = refl

pub load_external_seeds_return : seeds_result load_external_seeds ≡ ok tt
unfolding seeds_result load_external_seeds dummy_key external_private load_external
load_external_seeds_return = refl
