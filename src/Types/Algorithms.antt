-- ===== src/Types/Algorithms.antt =====
-- Algorithm parameters and schemes of tools/seed-generation/tpm2_types.py.
use tpm_fuzzer.Prelude.{
  ℕ, ◌++◌, Option, none, some, ◌==◌, if◌then◌else◌, Result, ok, raise, not_implemented_error,
  value_error, ◌>>=◌,
}
use tpm_fuzzer.Bytes.{Bytes, to_bytes}
use tpm_fuzzer.Types.Enums.{TpmAlg, alg_value, IntOr, member, alg_to_int}

pub record SymDefObject : Type 0 where
  pub algorithm : IntOr TpmAlg
  pub key_bits : ℕ
  pub mode : IntOr TpmAlg

abbrev pub default_sym_def_object : SymDefObject
default_sym_def_object = record {
  algorithm = member TpmAlg.aes;
  key_bits = 128;
  mode = member TpmAlg.cfb;
}

-- The null algorithm has no key bits and no mode.
unfoldable pub sym_def_object_bytes : SymDefObject → Result Bytes
sym_def_object_bytes s = do
  alg ← to_bytes (alg_to_int s.algorithm) 2
  if alg_to_int s.algorithm == alg_value TpmAlg.null then ok alg else do
    key_bits ← to_bytes s.key_bits 2
    mode ← to_bytes (alg_to_int s.mode) 2
    ok (alg ++ (key_bits ++ mode))

pub record RsaParms : Type 0 where
  pub symmetric : SymDefObject
  pub scheme : IntOr TpmAlg
  pub scheme_hash : Option (IntOr TpmAlg)
  pub key_bits : ℕ
  pub exponent : ℕ

-- `TPMS_RSA_PARMS(key_bits=key_bits)`
abbrev pub default_rsa_parms : ℕ → RsaParms
default_rsa_parms key_bits = record {
  symmetric = default_sym_def_object;
  scheme = member TpmAlg.null;
  scheme_hash = none;
  key_bits = key_bits;
  exponent = 0;
}

-- `s`, and the bytes of the hash algorithm behind it if there is one.
unfoldable pub append_hash : Bytes → Option (IntOr TpmAlg) → Result Bytes
append_hash s none = ok s
append_hash s (some hash_alg) = do h ← to_bytes (alg_to_int hash_alg) 2; ok (s ++ h)

unfoldable pub rsa_parms_bytes : RsaParms → Result Bytes
unfolding append_hash
rsa_parms_bytes p = do
  sym ← sym_def_object_bytes p.symmetric
  code ← to_bytes (alg_to_int p.scheme) 2
  scheme ←
      if alg_to_int p.scheme == alg_value TpmAlg.null
      then ok code
      else append_hash code p.scheme_hash
  key_bits ← to_bytes p.key_bits 2
  exponent ← to_bytes p.exponent 4
  ok (sym ++ (scheme ++ (key_bits ++ exponent)))

pub record KeyedhashParms : Type 0 where
  pub scheme : IntOr TpmAlg
  pub hash_alg : Option (IntOr TpmAlg)

abbrev pub default_keyedhash_parms : KeyedhashParms
default_keyedhash_parms = record { scheme = member TpmAlg.null; hash_alg = none }

unfoldable pub keyedhash_parms_bytes : KeyedhashParms → Result Bytes
unfolding append_hash
keyedhash_parms_bytes p = do
  s ← to_bytes (alg_to_int p.scheme) 2
  if alg_to_int p.scheme == alg_value TpmAlg.hmac then append_hash s p.hash_alg else ok s

pub record SigScheme : Type 0 where
  pub scheme : IntOr TpmAlg
  pub hash_alg : IntOr TpmAlg

unfoldable pub sig_scheme_bytes : SigScheme → Result Bytes
sig_scheme_bytes p = do
  s ← to_bytes (alg_to_int p.scheme) 2
  if alg_to_int p.scheme == alg_value TpmAlg.null
      then ok s
      else do h ← to_bytes (alg_to_int p.hash_alg) 2; ok (s ++ h)

pub record RsaDecryptScheme : Type 0 where
  pub scheme : IntOr TpmAlg
  pub hash_alg : Option (IntOr TpmAlg)

unfoldable pub rsa_decrypt_scheme_bytes : RsaDecryptScheme → Result Bytes
unfolding append_hash
rsa_decrypt_scheme_bytes p = do
  s ← to_bytes (alg_to_int p.scheme) 2
  if alg_to_int p.scheme == alg_value TpmAlg.oaep then append_hash s p.hash_alg else ok s

pub record PublicParms : Type 0 where
  pub alg_type : IntOr TpmAlg
  pub rsa_parameters : Option RsaParms

public_parms_parameters : Option RsaParms → Result Bytes
public_parms_parameters none = raise value_error
public_parms_parameters (some p) = rsa_parms_bytes p

unfoldable pub public_parms_bytes : PublicParms → Result Bytes
unfolding public_parms_parameters
public_parms_bytes p = do
  alg ← to_bytes (alg_to_int p.alg_type) 2
  parameters ←
      if alg_to_int p.alg_type == alg_value TpmAlg.rsa
      then public_parms_parameters p.rsa_parameters
      else raise not_implemented_error
  ok (alg ++ parameters)
