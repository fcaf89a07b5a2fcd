-- ===== src/Seeds/Table/Returns/Plain.antt =====
-- The seeds of Seeds/Table/Plain all serialize.
use tpm_fuzzer.Commands.AuthSession.{nonce_or_default, salt_or_default, start_auth_session}
use tpm_fuzzer.Commands.Creation.{creation_params, primary_template, tpm_create_primary}
use tpm_fuzzer.Commands.Hierarchy.{set_primary_policy, tpm_clear}
use tpm_fuzzer.Commands.Simple.{
  get_capability, get_random, incremental_self_test, self_test, tpm_hash,
}
use tpm_fuzzer.Prelude.{ok, refl, ◌≡◌}
use tpm_fuzzer.Seeds.Table.Build.{hmac_session, primary}
use tpm_fuzzer.Seeds.Table.Plain.{
  clear_seeds, create_primary_seeds, self_test_seeds, set_primary_policy_seeds,
  start_auth_session_seeds, tpm_get_capability_seeds, tpm_get_rand_seeds, tpm_hash_seeds,
  tpm_incremental_self_test_seeds,
}
use tpm_fuzzer.Seeds.Table.Returns.{seeds_result}

pub tpm_incremental_self_test_seeds_return : seeds_result tpm_incremental_self_test_seeds ≡ ok tt
unfolding seeds_result tpm_incremental_self_test_seeds incremental_self_test
tpm_incremental_self_test_seeds_return = refl

pub tpm_get_rand_seeds_return : seeds_result tpm_get_rand_seeds ≡ ok tt
unfolding seeds_result tpm_get_rand_seeds get_random
tpm_get_rand_seeds_return = refl

pub tpm_get_capability_seeds_return : seeds_result tpm_get_capability_seeds ≡ ok tt
unfolding seeds_result tpm_get_capability_seeds get_capability
tpm_get_capability_seeds_return = refl

pub tpm_hash_seeds_return : seeds_result tpm_hash_seeds ≡ ok tt
unfolding seeds_result tpm_hash_seeds tpm_hash
tpm_hash_seeds_return = refl

pub self_test_seeds_return : seeds_result self_test_seeds ≡ ok tt
unfolding seeds_result self_test_seeds self_test
self_test_seeds_return = refl

pub create_primary_seeds_return : seeds_result create_primary_seeds ≡ ok tt
unfolding seeds_result create_primary_seeds creation_params primary_template tpm_create_primary
    get_random primary
create_primary_seeds_return = refl

pub start_auth_session_seeds_return : seeds_result start_auth_session_seeds ≡ ok tt
unfolding seeds_result start_auth_session_seeds nonce_or_default salt_or_default start_auth_session
    creation_params primary_template tpm_create_primary hmac_session
start_auth_session_seeds_return = refl

pub clear_seeds_return : seeds_result clear_seeds ≡ ok tt
unfolding seeds_result clear_seeds tpm_clear
clear_seeds_return = refl

pub set_primary_policy_seeds_return : seeds_result set_primary_policy_seeds ≡ ok tt
unfolding seeds_result set_primary_policy_seeds set_primary_policy
set_primary_policy_seeds_return = refl
