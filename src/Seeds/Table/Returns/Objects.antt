-- ===== src/Seeds/Table/Returns/Objects.antt =====
-- The seeds of Seeds/Table/Objects all serialize.
use tpm_fuzzer.Commands.Creation.{
  create_template, creation_params, primary_template, rsa_parms_or_default, tpm_create,
  tpm_create_primary,
}
use tpm_fuzzer.Commands.Loading.{tpm_load, unseal}
use tpm_fuzzer.Prelude.{ok, refl, ◌≡◌}
use tpm_fuzzer.Seeds.Table.Blobs.{
  flip_last, from_hex, unseal_hmac_in_private, unseal_hmac_in_public, unseal_seal_in_private,
  unseal_seal_in_public,
}
use tpm_fuzzer.Seeds.Table.Build.{primary}
use tpm_fuzzer.Seeds.Table.Objects.{
  create_hmac, create_rsa, create_sealed, load_hmac, load_sealed, tpm_create_seeds, tpm_load_seeds,
  tpm_unseal_seeds,
}
use tpm_fuzzer.Seeds.Table.Returns.{seeds_result}

pub tpm_load_seeds_return : seeds_result tpm_load_seeds ≡ ok tt
unfolding seeds_result tpm_load_seeds create_template creation_params primary_template
    rsa_parms_or_default tpm_create tpm_create_primary tpm_load flip_last from_hex
    unseal_hmac_in_private unseal_hmac_in_public unseal_seal_in_private unseal_seal_in_public
    primary create_hmac create_sealed load_hmac load_sealed
tpm_load_seeds_return = refl

pub tpm_unseal_seeds_return : seeds_result tpm_unseal_seeds ≡ ok tt
unfolding seeds_result tpm_unseal_seeds create_template creation_params primary_template
    rsa_parms_or_default tpm_create tpm_create_primary tpm_load unseal from_hex
    unseal_hmac_in_private unseal_hmac_in_public unseal_seal_in_private unseal_seal_in_public
    primary create_hmac create_sealed load_hmac load_sealed
tpm_unseal_seeds_return = refl

pub tpm_create_seeds_return : seeds_result tpm_create_seeds ≡ ok tt
unfolding seeds_result tpm_create_seeds create_template creation_params primary_template
    rsa_parms_or_default tpm_create tpm_create_primary primary create_rsa
tpm_create_seeds_return = refl
