-- ===== src/Seeds/Table/Returns/Single.antt =====
-- The commands that are entries of `TEST_CASES` serialize.
use tpm_fuzzer.Commands.Instance.{Command}
use tpm_fuzzer.Commands.Simple.{
  ecc_parameters, get_test_result, parms_or_default, read_clock, stir_random, test_parms,
  vendor_tcg_test,
}
use tpm_fuzzer.Prelude.{Result, [], none, ok, refl, ◌>>=◌, ◌∷◌, ◌≡◌}
use tpm_fuzzer.Seeds.Generation.{SeedVariants}
use tpm_fuzzer.Seeds.Table.Returns.{seeds_result}
use tpm_fuzzer.Types.Enums.{TpmEccCurve, member}

-- The one sequence of an entry that is a command.
abbrev pub lone : Result Command → Result SeedVariants
lone built = built >>= λ c. ok ((c ∷ []) ∷ [])

pub stir_random_return : seeds_result (lone (stir_random [])) ≡ ok tt
unfolding seeds_result stir_random
stir_random_return = refl

pub get_test_result_return : seeds_result (lone get_test_result) ≡ ok tt
unfolding seeds_result get_test_result
get_test_result_return = refl

pub read_clock_return : seeds_result (lone read_clock) ≡ ok tt
unfolding seeds_result read_clock
read_clock_return = refl

pub vendor_tcg_test_return : seeds_result (lone (vendor_tcg_test [])) ≡ ok tt
unfolding seeds_result vendor_tcg_test
vendor_tcg_test_return = refl

pub ecc_parameters_return :
    seeds_result (lone (ecc_parameters (member TpmEccCurve.nist_p192))) ≡ ok tt
unfolding seeds_result ecc_parameters
ecc_parameters_return = refl

pub test_parms_return : seeds_result (lone (test_parms none)) ≡ ok tt
unfolding seeds_result test_parms parms_or_default
test_parms_return = refl
