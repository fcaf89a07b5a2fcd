-- ===== src/Seeds/Table/Indices.antt =====
-- The seeds of the NV commands.
use tpm_fuzzer.Prelude.{
  ℕ, ◌+◌, ◌*◌, ◌^◌, List, [], ◌∷◌, none, some, replicate, codes, bit_or, Result,
}
use tpm_fuzzer.Types.Enums.{
  TpmRh, TpmHt, ht_value, TpmRs, rs_value, TpmaNv, nv_value, IntOr, member,
}
use tpm_fuzzer.Types.Attributes.{Attributes, flags}
use tpm_fuzzer.Commands.Instance.{Command}
use tpm_fuzzer.Commands.Nv.{
  nv_define_space, nv_undefine_space, nv_write_lock, nv_read_lock, nv_write, nv_read, nv_extend,
  nv_set_bits,
}
use tpm_fuzzer.Seeds.Generation.{SeedVariants}
use tpm_fuzzer.Seeds.Table.Build.{variants_of, pw, hmac_session}
use tpm_fuzzer.Seeds.Table.Plain.{first_hmac_session_handle}

-- `(TPM_HT.NV_INDEX.value << 24) + k`
unfoldable pub nv_index_at : ℕ → ℕ
nv_index_at k = ht_value TpmHt.nv_index * 2 ^ 24 + k

-- `TPMNVDefineSpace` with its default session, hierarchy and size.
unfoldable pub define_at : ℕ → List TpmaNv → Result Command
define_at k attributes =
    nv_define_space (nv_index_at k) (flags attributes) (rs_value TpmRs.pw) TpmRh.owner 32

unfoldable pub tpm_nv_extend_seeds : Result SeedVariants
unfolding define_at
tpm_nv_extend_seeds =
    let define_extend =
      define_at 0 (TpmaNv.auth_write ∷ TpmaNv.auth_read ∷ TpmaNv.nt_extend ∷ TpmaNv.no_da ∷ []) in
    let define_ordinary = define_at 0 (TpmaNv.auth_write ∷ TpmaNv.auth_read ∷ TpmaNv.no_da ∷ []) in
    let define_lockable = define_at 0 (
      TpmaNv.auth_write ∷ TpmaNv.auth_read ∷ TpmaNv.nt_extend ∷ TpmaNv.write_define ∷ TpmaNv.no_da
      ∷ []) in
    let extend = nv_extend (nv_index_at 0) (codes "extend data here") none pw in
    variants_of (
      (define_extend ∷ extend ∷ [])
      ∷ (define_extend ∷ extend ∷ extend ∷ [])
      ∷ (define_ordinary ∷ extend ∷ [])
      ∷ (define_lockable
          ∷ nv_write_lock (nv_index_at 0) (IntOr.int (nv_index_at 0)) (rs_value TpmRs.pw)
          ∷ extend
          ∷ [])
      ∷ (define_extend
          ∷ nv_extend (nv_index_at 0) (codes "extend data here") (some (member TpmRh.owner)) pw
          ∷ [])
      ∷ [])

unfoldable pub tpm_nv_definespace_seeds : Result SeedVariants
unfolding define_at
tpm_nv_definespace_seeds = variants_of (
    (define_at 0 (TpmaNv.auth_read ∷ TpmaNv.auth_write ∷ []) ∷ [])
    ∷ (hmac_session
        ∷ nv_define_space (nv_index_at 0)
            (flags (TpmaNv.owner_write ∷ TpmaNv.owner_read ∷ TpmaNv.no_da ∷ []))
            first_hmac_session_handle TpmRh.owner 32
        ∷ [])
    ∷ [])

-- `nv_bits_attrs`
unfoldable pub nv_bits_attrs : ℕ
nv_bits_attrs =
    bit_or (bit_or (nv_value TpmaNv.owner_write) (nv_value TpmaNv.owner_read))
      (nv_value TpmaNv.nt_bits)

abbrev define_bits : ℕ → Result Command
define_bits k =
    nv_define_space (nv_index_at k) (Attributes.word nv_bits_attrs) (rs_value TpmRs.pw) TpmRh.owner
      8

abbrev bits_at : ℕ → ℕ → Result Command
bits_at k bits = nv_set_bits (nv_index_at k) bits (member TpmRh.owner) (rs_value TpmRs.pw)

unfoldable pub tpm_nv_setbits_seeds : Result SeedVariants
tpm_nv_setbits_seeds = variants_of (
    (define_bits 3 ∷ bits_at 3 0x0000000000000001 ∷ [])
    ∷ (define_bits 4 ∷ bits_at 4 0x0000000000000001 ∷ bits_at 4 0x00000000000000A5 ∷ [])
    ∷ [])

abbrev lock_write : Result Command
lock_write = nv_write_lock (nv_index_at 0) (member TpmRh.owner) (rs_value TpmRs.pw)

unfoldable pub nv_write_lock_seeds : Result SeedVariants
unfolding define_at
nv_write_lock_seeds =
    let lockable =
      define_at 0 (TpmaNv.owner_read ∷ TpmaNv.owner_write ∷ TpmaNv.write_define ∷ []) in
    variants_of (
      (lockable ∷ lock_write ∷ [])
      ∷ (lockable ∷ lock_write ∷ lock_write ∷ [])
      ∷ (define_at 0 (TpmaNv.owner_read ∷ TpmaNv.owner_write ∷ []) ∷ lock_write ∷ [])
      ∷ [])

-- `TPMNVWrite(index, b"\xaa" * 32, auth_handle=TPM_RH.OWNER)`
abbrev write_at : ℕ → Result Command
write_at k =
    nv_write (IntOr.int (nv_index_at k)) (replicate 32 0xaa) 0 (some (member TpmRh.owner)) pw

unfoldable pub nv_write_seeds : Result SeedVariants
unfolding define_at
nv_write_seeds =
    variants_of ((define_at 0 (TpmaNv.owner_read ∷ TpmaNv.owner_write ∷ []) ∷ write_at 0 ∷ []) ∷ [])

abbrev lock_read : ℕ → Result Command
lock_read k = nv_read_lock (nv_index_at k) (member TpmRh.owner) (rs_value TpmRs.pw)

unfoldable pub nv_read_lock_seeds : Result SeedVariants
unfolding define_at
nv_read_lock_seeds = variants_of (
    (define_at 3 (TpmaNv.owner_read ∷ TpmaNv.owner_write ∷ TpmaNv.read_stclear ∷ [])
      ∷ write_at 4
      ∷ lock_read 3
      ∷ [])
    ∷ (define_at 4 (TpmaNv.owner_read ∷ TpmaNv.owner_write ∷ TpmaNv.read_stclear ∷ [])
        ∷ write_at 5
        ∷ lock_read 4
        ∷ lock_read 4
        ∷ [])
    ∷ (define_at 5 (TpmaNv.owner_read ∷ TpmaNv.owner_write ∷ []) ∷ write_at 5 ∷ lock_read 5 ∷ [])
    ∷ [])

abbrev read_one : ℕ → Result Command
read_one size = nv_read (nv_index_at 1) size 0 (member TpmRh.owner) (rs_value TpmRs.pw)

unfoldable pub nv_read_seeds : Result SeedVariants
unfolding define_at
nv_read_seeds = variants_of (
    (define_at 1 (TpmaNv.owner_read ∷ TpmaNv.owner_write ∷ []) ∷ write_at 1 ∷ read_one 2 ∷ [])
    ∷ (define_at 1 (TpmaNv.owner_read ∷ TpmaNv.owner_write ∷ TpmaNv.read_locked ∷ [])
        ∷ write_at 1
        ∷ read_one 2
        ∷ [])
    ∷ (define_at 1 (TpmaNv.owner_read ∷ TpmaNv.owner_write ∷ []) ∷ read_one 0 ∷ [])
    ∷ [])

abbrev undefine : ℕ → Result Command
undefine k = nv_undefine_space (nv_index_at k) TpmRh.owner (rs_value TpmRs.pw)

abbrev define_platform : ℕ → List TpmaNv → Result Command
define_platform k attributes =
    nv_define_space (nv_index_at k) (flags attributes) (rs_value TpmRs.pw) TpmRh.platform 32

unfoldable pub nv_undefine_space_seeds : Result SeedVariants
unfolding define_at
nv_undefine_space_seeds = variants_of (
    (define_at 0 (TpmaNv.owner_read ∷ TpmaNv.owner_write ∷ []) ∷ undefine 0 ∷ [])
    ∷ (define_platform 1
          (TpmaNv.pp_read ∷ TpmaNv.pp_write ∷ TpmaNv.policy_delete ∷ TpmaNv.platform_create ∷ [])
        ∷ undefine 1
        ∷ [])
    ∷ (define_platform 2 (TpmaNv.pp_read ∷ TpmaNv.pp_write ∷ TpmaNv.platform_create ∷ [])
        ∷ undefine 2
        ∷ [])
    ∷ [])
