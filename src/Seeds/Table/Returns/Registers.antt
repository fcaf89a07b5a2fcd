-- ===== src/Seeds/Table/Returns/Registers.antt =====
-- The seeds of Seeds/Table/Registers all serialize.
use tpm_fuzzer.Commands.AuthSession.{nonce_or_default, salt_or_default, start_auth_session}
use tpm_fuzzer.Commands.Pcr.{
  pcr_allocate, pcr_event, pcr_extend, pcr_read, pcr_reset, pcr_set_auth_policy, read_selection,
}
use tpm_fuzzer.Prelude.{ok, refl, ◌≡◌}
use tpm_fuzzer.Seeds.Table.Blobs.{from_hex}
use tpm_fuzzer.Seeds.Table.Build.{hmac_session}
use tpm_fuzzer.Seeds.Table.Registers.{
  pcr_event_seeds, tpm_pcr_allocate_seeds, tpm_pcr_extend_seeds, tpm_pcr_read_seeds,
  tpm_pcr_reset_seeds, tpm_pcr_setauthpolicy_seeds,
}
use tpm_fuzzer.Seeds.Table.Returns.{seeds_result}

pub tpm_pcr_read_seeds_return : seeds_result tpm_pcr_read_seeds ≡ ok tt
unfolding seeds_result tpm_pcr_read_seeds pcr_read read_selection from_hex
tpm_pcr_read_seeds_return = refl

pub tpm_pcr_allocate_seeds_return : seeds_result tpm_pcr_allocate_seeds ≡ ok tt
unfolding seeds_result tpm_pcr_allocate_seeds pcr_allocate from_hex
tpm_pcr_allocate_seeds_return = refl

pub tpm_pcr_extend_seeds_return : seeds_result tpm_pcr_extend_seeds ≡ ok tt
unfolding seeds_result tpm_pcr_extend_seeds pcr_extend
tpm_pcr_extend_seeds_return = refl

pub tpm_pcr_reset_seeds_return : seeds_result tpm_pcr_reset_seeds ≡ ok tt
unfolding seeds_result tpm_pcr_reset_seeds pcr_reset
tpm_pcr_reset_seeds_return = refl

pub tpm_pcr_setauthpolicy_seeds_return : seeds_result tpm_pcr_setauthpolicy_seeds ≡ ok tt
unfolding seeds_result tpm_pcr_setauthpolicy_seeds nonce_or_default salt_or_default
    start_auth_session pcr_read pcr_set_auth_policy read_selection from_hex hmac_session
tpm_pcr_setauthpolicy_seeds_return = refl

pub pcr_event_seeds_return : seeds_result pcr_event_seeds ≡ ok tt
unfolding seeds_result pcr_event_seeds pcr_event
pcr_event_seeds_return = refl
