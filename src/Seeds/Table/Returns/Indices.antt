-- ===== src/Seeds/Table/Returns/Indices.antt =====
-- The seeds of Seeds/Table/Indices all serialize.
use tpm_fuzzer.Commands.AuthSession.{nonce_or_default, salt_or_default, start_auth_session}
use tpm_fuzzer.Commands.Nv.{
  auth_or_index, nv_define_space, nv_extend, nv_read, nv_read_lock, nv_set_bits, nv_template,
  nv_undefine_space, nv_write, nv_write_lock,
}
use tpm_fuzzer.Prelude.{ok, refl, ◌≡◌}
use tpm_fuzzer.Seeds.Table.Build.{hmac_session}
use tpm_fuzzer.Seeds.Table.Indices.{
  define_at, nv_bits_attrs, nv_index_at, nv_read_lock_seeds, nv_read_seeds, nv_undefine_space_seeds,
  nv_write_lock_seeds, nv_write_seeds, tpm_nv_definespace_seeds, tpm_nv_extend_seeds,
  tpm_nv_setbits_seeds,
}
use tpm_fuzzer.Seeds.Table.Returns.{seeds_result}

pub tpm_nv_extend_seeds_return : seeds_result tpm_nv_extend_seeds ≡ ok tt
unfolding seeds_result tpm_nv_extend_seeds auth_or_index nv_define_space nv_extend nv_template
    nv_write_lock define_at nv_index_at
tpm_nv_extend_seeds_return = refl

pub tpm_nv_definespace_seeds_return : seeds_result tpm_nv_definespace_seeds ≡ ok tt
unfolding seeds_result tpm_nv_definespace_seeds nonce_or_default salt_or_default start_auth_session
    nv_define_space nv_template hmac_session define_at nv_index_at
tpm_nv_definespace_seeds_return = refl

pub tpm_nv_setbits_seeds_return : seeds_result tpm_nv_setbits_seeds ≡ ok tt
unfolding seeds_result tpm_nv_setbits_seeds nv_define_space nv_set_bits nv_template nv_bits_attrs
    nv_index_at
tpm_nv_setbits_seeds_return = refl

pub nv_write_lock_seeds_return : seeds_result nv_write_lock_seeds ≡ ok tt
unfolding seeds_result nv_write_lock_seeds nv_define_space nv_template nv_write_lock define_at
    nv_index_at
nv_write_lock_seeds_return = refl

pub nv_write_seeds_return : seeds_result nv_write_seeds ≡ ok tt
unfolding seeds_result nv_write_seeds auth_or_index nv_define_space nv_template nv_write define_at
    nv_index_at
nv_write_seeds_return = refl

pub nv_read_lock_seeds_return : seeds_result nv_read_lock_seeds ≡ ok tt
unfolding seeds_result nv_read_lock_seeds auth_or_index nv_define_space nv_read_lock nv_template
    nv_write define_at nv_index_at
nv_read_lock_seeds_return = refl

pub nv_read_seeds_return : seeds_result nv_read_seeds ≡ ok tt
unfolding seeds_result nv_read_seeds auth_or_index nv_define_space nv_read nv_template nv_write
    define_at nv_index_at
nv_read_seeds_return = refl

pub nv_undefine_space_seeds_return : seeds_result nv_undefine_space_seeds ≡ ok tt
unfolding seeds_result nv_undefine_space_seeds nv_define_space nv_template nv_undefine_space
    define_at nv_index_at
nv_undefine_space_seeds_return = refl
