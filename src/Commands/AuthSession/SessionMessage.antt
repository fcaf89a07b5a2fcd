-- ===== src/Commands/AuthSession/SessionMessage.antt =====
-- `TPMStartAuthSession.to_proto` after `TPMStartAuthSession.__init__`.
use tpm_fuzzer.Prelude.{
  ltb, ◌&&◌, if◌then◌else◌, value_error, ℕ, ◌^◌, ◌<◌, ◌≡◌, refl, ◌∙◌, arith, [], ◌∷◌, ◌++◌, Option,
  some, length, append_assoc, Result, ok, ok-injective, ◌>>=◌, bind6-eq-ok, raise,
}
use tpm_fuzzer.Bytes.{Bytes, big_endian, to_bytes}
use tpm_fuzzer.Bytes.Integers.{to_bytes-cases}
use tpm_fuzzer.Bytes.Prefixed.{prefixed, big_endian-one}
use tpm_fuzzer.Types.Enums.{TpmAlg, alg_value, TpmRh, IntOr, alg_to_int, rh_to_int}
use tpm_fuzzer.Types.Algorithms.{SymDefObject, sym_def_object_bytes}
use tpm_fuzzer.Proto.{Message}
use tpm_fuzzer.Proto.Constants.{enum_value, alg_name, se_name}
use tpm_fuzzer.Proto.EnumValue.{enum_value-both}
use tpm_fuzzer.Command.{TpmCommand, proto_header, proto_tpm2b_data}
use tpm_fuzzer.Commands.{to_proto}
use tpm_fuzzer.Commands.Instance.{Command, base_of}
use tpm_fuzzer.Commands.AuthSession.{nonce_or_default, salt_or_default, start_auth_session}
use tpm_fuzzer.Commands.AuthSession.Symmetric.{sym_key_bits, sym_mode}
use tpm_fuzzer.Commands.AuthSession.SessionLayout.{start_auth_session_to_proto-layout}

-- What the bytes of the single numbers are.
written_as : (n w : ℕ) (b : Bytes) → to_bytes n w ≡ ok b → (n < 256 ^ w) × (b ≡ big_endian w n)
written_as n w b h = ground (arith, to_bytes-cases n w)

alg_fits : (a : TpmAlg) → alg_value a < 65536
alg_fits a = ground arith

-- A sized buffer in front of more bytes, in the order in which the command writes it.
params_layout :
    (key bind nonce salt size se sym_bytes hash : Bytes) (type : ℕ)
    → size ≡ big_endian 2 (length nonce)
    → se ≡ type ∷ []
    → key ++ (bind ++ (size ++ (nonce ++ (salt ++ (se ++ (sym_bytes ++ hash))))))
      ≡ key ++ (bind ++ (prefixed nonce ++ (salt ++ (type ∷ (sym_bytes ++ hash)))))
params_layout key bind nonce salt size se sym_bytes hash type p q = rw (p, q, append_assoc)

alg_name-alg_value : (a : TpmAlg) → alg_name (alg_value a) ≡ ok (alg_value a)
unfolding alg_name
alg_name-alg_value a = ground arith

same_parts :
    (nonce sym_bytes : Bytes) (type : ℕ) {a a' b b' c c' d d' : Bytes}
    → a ≡ a'
    → b ≡ b'
    → c ≡ c'
    → d ≡ d'
    → a ++ (b ++ (nonce ++ (c ++ (type ∷ (sym_bytes ++ d)))))
      ≡ a' ++ (b' ++ (nonce ++ (c' ++ (type ∷ (sym_bytes ++ d')))))
same_parts nonce sym_bytes type p q r t = cc

-- Three namings, the two handles, and the message of what they return.
message_of_names :
    (a b c : Result ℕ) (key bind : ℕ) (f : ℕ → ℕ → ℕ → ℕ → ℕ → Message)
    → (a >>= λ x.
          b >>= λ y. c >>= λ z. enum_value key >>= λ k. enum_value bind >>= λ l. ok (f x y z k l))
        >>= (λ m. ok (some m))
      ≡ (a >>= λ x. b >>= λ y. c >>= λ z.
          (if ltb key (2 ^ 31) && ltb bind (2 ^ 31)
            then ok (some (f x y z key bind))
            else raise value_error))
message_of_names (raise e) b c key bind f = refl
message_of_names (ok x) (raise e) c key bind f = refl
message_of_names (ok x) (ok y) (raise e) key bind f = refl
message_of_names (ok x) (ok y) (ok z) key bind f = enum_value-both key bind (f x y z)

to_proto-layout :
    (base : TpmCommand) (key bind : ℕ) (nonce salt : Bytes) (type : ℕ) (s : SymDefObject)
    (sym_bytes : Bytes) (auth_hash : TpmAlg)
    → key < 2 ^ 32
    → bind < 2 ^ 32
    → length nonce < 65536
    → length salt < 65536
    → sym_def_object_bytes s ≡ ok sym_bytes
    → base.params
      ≡ big_endian 4 key
        ++ (big_endian 4 bind
            ++ (prefixed nonce
                ++ (prefixed salt ++ (type ∷ (sym_bytes ++ big_endian 2 (alg_value auth_hash))))))
    → to_proto (Command.start_auth_session base) ≡ (
        se_name type >>= λ type_name. alg_name (alg_to_int s.algorithm) >>= λ sym_name.
        alg_name (sym_mode s) >>= λ mode_name.
        if ltb key (2 ^ 31) && ltb bind (2 ^ 31)
        then ok (
            some (
              Message.startauthsession
                (proto_header base)
                key
                bind
                (proto_tpm2b_data nonce)
                (proto_tpm2b_data salt)
                type_name
                (record { algorithm = sym_name; key_bits = sym_key_bits s; mode = mode_name })
                (alg_value auth_hash)))
        else raise value_error)
unfolding to_proto
to_proto-layout base key bind nonce salt type s sym_bytes auth_hash kf bf nf sf written layout =
    rw
      (
        start_auth_session_to_proto-layout base key bind nonce salt type s sym_bytes
            (alg_value auth_hash) kf bf nf sf written (alg_fits auth_hash) layout,
        alg_name-alg_value auth_hash,
      )
      (message_of_names (se_name type) (alg_name (alg_to_int s.algorithm)) (alg_name (sym_mode s))
        key bind _)

-- Whatever TPMStartAuthSession command can be built from a salt with its size in front, its `to_proto`
-- reads the parameters back: it returns the message of the arguments, with no key bits and the
-- null mode for the null algorithm, where the protobuf enumerations name the session type, the
-- symmetric algorithm and its mode, and both handles are below 2^31. It raises the error of the
-- naming, or ValueError for a handle of 2^31 or more, as the handles of transient and persistent
-- objects are.
pub to_proto-start_auth_session :
    (tpm_key bind : IntOr TpmRh) (nonce salt : Option Bytes) (secret : Bytes) (session_type : ℕ)
    (symmetric : SymDefObject) (auth_hash : TpmAlg) (c : Command)
    → salt_or_default salt ≡ prefixed secret
    → length secret < 65536
    → start_auth_session tpm_key bind nonce salt session_type symmetric auth_hash ≡ ok c
    → to_proto c ≡ (
        se_name session_type >>= λ type_name.
        alg_name (alg_to_int symmetric.algorithm) >>= λ sym_name.
        alg_name (sym_mode symmetric) >>= λ mode_name.
        if ltb (rh_to_int tpm_key) (2 ^ 31) && ltb (rh_to_int bind) (2 ^ 31)
        then ok (
            some (
              Message.startauthsession
                (proto_header (base_of c))
                (rh_to_int tpm_key)
                (rh_to_int bind)
                (proto_tpm2b_data (nonce_or_default nonce))
                (proto_tpm2b_data secret)
                type_name
                (record {
                  algorithm = sym_name;
                  key_bits = sym_key_bits symmetric;
                  mode = mode_name;
                })
                (alg_value auth_hash)))
        else raise value_error)
unfolding start_auth_session base_of
to_proto-start_auth_session tpm_key bind nonce salt secret type s auth_hash c salted fits h =
    let (key_b, bind_b, size_b, se_b, sym_b, hash_b, e0, e1, e2, e3, e4, e5, out) =
      bind6-eq-ok (to_bytes (rh_to_int tpm_key) 4) (to_bytes (rh_to_int bind) 4)
        (to_bytes (length (nonce_or_default nonce)) 2) (to_bytes type 1) (sym_def_object_bytes s)
        (to_bytes (alg_value auth_hash) 2) _ h in
    let (key_fits, key_l) = written_as _ 4 key_b e0 in
    let (bind_fits, bind_l) = written_as _ 4 bind_b e1 in
    let (nonce_fits, size_l) = written_as _ 2 size_b e2 in
    let (type_fits, se_l) = written_as type 1 se_b e3 in
    let (hash_fits, hash_l) = written_as _ 2 hash_b e5 in
    rw (← ok-injective out) (
      to_proto-layout _ _ _ (nonce_or_default nonce) secret type s sym_b auth_hash key_fits
        bind_fits nonce_fits fits e4
        (params_layout key_b bind_b (nonce_or_default nonce) (salt_or_default salt) size_b se_b
            sym_b hash_b type size_l (se_l ∙ big_endian-one type type_fits)
          ∙ same_parts _ _ _ key_l bind_l salted hash_l))
