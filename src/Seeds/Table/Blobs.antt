-- ===== src/Seeds/Table/Blobs.antt =====
-- The blobs of main.py, and `bytes.fromhex`.
use tpm_fuzzer.Prelude.{
  ℕ, ◌+◌, ◌-◌, ◌*◌, List, [], ◌∷◌, ◌++◌, ltb, if◌then◌else◌, bit_xor, codes, Result, ok, raise,
  index_error, ◌>>=◌,
}
use tpm_fuzzer.Bytes.{Bytes}

-- The value of one hexadecimal digit, `0` to `9`, `A` to `F` or `a` to `f`.
hex_digit : ℕ → ℕ
hex_digit c = if ltb c b':' then c - b'0' else if ltb c b'G' then c - b'A' + 10 else c - b'a' + 10

-- `bytes.fromhex` of a text that is pairs of digits and nothing else.
unfoldable pub from_hex : List ℕ → Bytes
unfolding hex_digit
from_hex (c ∷ d ∷ rest) = (hex_digit c * 16 + hex_digit d) ∷ from_hex rest
from_hex (c ∷ []) = []
from_hex [] = []

-- `corrupted[-1] ^= 0xFF` of a bytearray
unfoldable pub flip_last : Bytes → Result Bytes
flip_last [] = raise index_error
flip_last (b ∷ []) = ok (bit_xor b 0xFF ∷ [])
flip_last (b ∷ c ∷ rest) = do more ← flip_last (c ∷ rest); ok (b ∷ more)

-- `_UNSEAL_SEAL_IN_PRIVATE`
unfoldable pub unseal_seal_in_private : Bytes
unfolding from_hex
unseal_seal_in_private =
    from_hex (codes "008a002033594e6f3ea199dd22b14de0b92b3f9e067739d4e62c04aaf98786946286fc")
    ++ from_hex (codes "bf001062fa60d9f9a3659af10227ba4a96a3e7f7e8eed20d6626f1e7c1bf725ff2b8e6")
    ++ from_hex (codes "be76005faaeb84bfc5b16a3347dfb438fd7103a247e0e8817e6813977988a779d810b7")
    ++ from_hex (codes "cec88f787a2de64cb6508ab17fb27400861621c7608f18c05ffa429632114db15da39d")

-- `_UNSEAL_SEAL_IN_PUBLIC`
unfoldable pub unseal_seal_in_public : Bytes
unfolding from_hex
unseal_seal_in_public =
    from_hex (codes "002e0008000b00000452000000100020100e11fac0e57e528401b817aa65bf846eb7ad")
    ++ from_hex (codes "6fee0c7c756a89cdccb52f6c09")

-- `_UNSEAL_HMAC_IN_PRIVATE`
unfoldable pub unseal_hmac_in_private : Bytes
unfolding from_hex
unseal_hmac_in_private =
    from_hex (codes "009e002071cfbc5a2fc1c71f4e5b2d115daeb9c0d4ccbf123239c86d5a8077fb8a6a61")
    ++ from_hex (codes "79001090647df915b1ac8e6a09d72c6d243b959921d23b92b7d34d560d460e66801565")
    ++ from_hex (codes "458b440c78df63194196c6cf67effdf6771d897c62c22f23fbea9593f2676a3e5ba128")
    ++ from_hex (codes "a58a7da9ba8e112eebc62943e4c1e1789f478cc5d442940ea2039d169661179afb65d0")
    ++ from_hex (codes "6910b48613248100993df6cebff5dbdc24c86110")

-- `_UNSEAL_HMAC_IN_PUBLIC`
unfoldable pub unseal_hmac_in_public : Bytes
unfolding from_hex
unseal_hmac_in_public =
    from_hex (codes "00300008000b0005047200000005000b0020794e393f0483ff026189ffa1084466b4eb")
    ++ from_hex (codes "24eb0e9ab8d436538073a76359cbd5")
