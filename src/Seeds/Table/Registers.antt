-- ===== src/Seeds/Table/Registers.antt =====
-- The seeds of the PCR commands.
use tpm_fuzzer.Prelude.{ℕ, [], ◌∷◌, replicate, codes, map, Result}
use tpm_fuzzer.Bytes.{Bytes}
use tpm_fuzzer.Types.Enums.{TpmAlg, TpmRh, rh_value, TpmRs, rs_value, IntOr, member}
use tpm_fuzzer.Types.Pcr.{PcrSelection, TpmtHa}
use tpm_fuzzer.Commands.Instance.{Command}
use tpm_fuzzer.Commands.Pcr.{
  pcr_read, pcr_allocate, pcr_extend, pcr_reset, pcr_event, pcr_set_auth_policy,
}
use tpm_fuzzer.Seeds.Generation.{SeedVariants}
use tpm_fuzzer.Seeds.Table.Blobs.{from_hex}
use tpm_fuzzer.Seeds.Table.Build.{variants_of, pw, hmac_session}
use tpm_fuzzer.Seeds.Table.Plain.{first_hmac_session_handle}

abbrev bank : TpmAlg → Bytes → PcrSelection
bank hash pcr_select = record { hash = member hash; pcr_select = pcr_select }

unfoldable pub tpm_pcr_read_seeds : Result SeedVariants
unfolding from_hex
tpm_pcr_read_seeds = variants_of (
    (pcr_read (bank TpmAlg.sha256 (from_hex (codes "010000")) ∷ []) ∷ [])
    ∷ (pcr_read (bank TpmAlg.sha1 (from_hex (codes "FFFFFF")) ∷ []) ∷ [])
    ∷ [])

unfoldable pub tpm_pcr_allocate_seeds : Result SeedVariants
unfolding from_hex
tpm_pcr_allocate_seeds = variants_of (
    map (λ allocation. pcr_allocate allocation (member TpmRh.platform) pw ∷ [])
      ((bank TpmAlg.sha256 (from_hex (codes "010002")) ∷ [])
        ∷ (bank TpmAlg.sha256 (from_hex (codes "010000"))
            ∷ bank TpmAlg.sha256 (from_hex (codes "010002"))
            ∷ [])
        ∷ (bank TpmAlg.sha256 (from_hex (codes "010000")) ∷ [])
        ∷ []))

abbrev digest_of : TpmAlg → Bytes → TpmtHa
digest_of hash_alg digest = record { hash_alg = member hash_alg; digest = digest }

unfoldable pub tpm_pcr_extend_seeds : Result SeedVariants
tpm_pcr_extend_seeds = variants_of (
    (pcr_extend (IntOr.int 0x00000000) (digest_of TpmAlg.sha256 (replicate 32 0x00) ∷ []) pw ∷ [])
    ∷ (pcr_extend (IntOr.int (rh_value TpmRh.null))
          (digest_of TpmAlg.sha256 (replicate 32 0x00) ∷ []) pw
        ∷ [])
    ∷ (pcr_extend (IntOr.int 0x00000000)
          (digest_of TpmAlg.sha1 (replicate 20 0x11)
            ∷ digest_of TpmAlg.sha256 (replicate 32 0x22)
            ∷ [])
          pw
        ∷ [])
    ∷ [])

unfoldable pub tpm_pcr_reset_seeds : Result SeedVariants
tpm_pcr_reset_seeds =
    variants_of (map (λ pcr_handle. pcr_reset pcr_handle pw ∷ []) (0x00000000 ∷ 0x00000010 ∷ []))

-- `TPMPCRSetAuthPolicy` under a password session
abbrev policy : TpmRh → Bytes → TpmAlg → ℕ → Result Command
policy auth_handle auth_policy hash_alg pcr_num =
    pcr_set_auth_policy (rh_value auth_handle) auth_policy (member hash_alg) pcr_num
      (rs_value TpmRs.pw)

unfoldable pub tpm_pcr_setauthpolicy_seeds : Result SeedVariants
unfolding from_hex
tpm_pcr_setauthpolicy_seeds = variants_of (
    (policy TpmRh.platform [] TpmAlg.sha256 0x00000000 ∷ [])
    ∷ (policy TpmRh.platform (replicate 32 0x00) TpmAlg.sha256 0x0000000B ∷ [])
    ∷ (policy TpmRh.platform (replicate 20 0x11) TpmAlg.sha1 0x00000010 ∷ [])
    ∷ (policy TpmRh.owner (replicate 32 0x22) TpmAlg.sha256 0x00000000 ∷ [])
    ∷ (hmac_session
        ∷ pcr_set_auth_policy (rh_value TpmRh.platform) (replicate 32 0x33) (member TpmAlg.sha256)
            0x00000001 first_hmac_session_handle
        ∷ [])
    ∷ (policy TpmRh.platform (replicate 32 0x44) TpmAlg.sha256 0x00000000
        ∷ pcr_read (bank TpmAlg.sha256 (from_hex (codes "010000")) ∷ [])
        ∷ [])
    ∷ (hmac_session
        ∷ pcr_set_auth_policy (rh_value TpmRh.platform) (replicate 32 0x66) (member TpmAlg.sha256)
            0x00000001 first_hmac_session_handle
        ∷ pcr_read (bank TpmAlg.sha256 (from_hex (codes "020000")) ∷ [])
        ∷ [])
    ∷ [])

unfoldable pub pcr_event_seeds : Result SeedVariants
pcr_event_seeds = variants_of (
    (pcr_event 0x00000001 [] (rs_value TpmRs.pw) ∷ [])
    ∷ (pcr_event 0x00000001 (replicate 1024 0x00) (rs_value TpmRs.pw) ∷ [])
    ∷ (pcr_event (rh_value TpmRh.null) (replicate 1024 0x00) (rs_value TpmRs.pw) ∷ [])
    ∷ (pcr_event (rh_value TpmRh.null) [] (rs_value TpmRs.pw) ∷ [])
    ∷ [])
