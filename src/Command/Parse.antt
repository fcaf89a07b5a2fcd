-- ===== src/Command/Parse.antt =====
-- The static methods of TPMCommand that read a structure back from its bytes.
pub mod Reading
pub mod SensitiveArea
pub mod PublicArea
pub mod PublicRoundTrip
pub mod HashMisread
pub mod PcrList
pub mod SessionList
pub mod SessionsEnd
use tpm_fuzzer.Prelude.{
  ℕ, zero, suc, ◌+◌, List, [], ◌∷◌, ◌++◌, length, drop, ltb, ◌==◌, if◌then◌else◌, Result, ok, raise,
  not_implemented_error, diverges, ◌>>=◌,
}
use tpm_fuzzer.Bytes.{Bytes, from_bytes, slice, index}
use tpm_fuzzer.Types.Enums.{TpmAlg, alg_value}
use tpm_fuzzer.Proto.{
  Buffer, TpmSession, SensitiveCreateMessage, PublicParmsMessage, PublicIdMessage, PublicMessage,
  PcrSelectionMessage, PcrSelectionsMessage,
}

-- `int.from_bytes(buffer[offset : offset + w], BYTE_ORDER)`
unfoldable pub uint_at : Bytes → ℕ → ℕ → ℕ
uint_at buffer offset w = from_bytes (slice buffer offset (offset + w))

-- `_parse_tpm2b`
unfoldable pub parse_tpm2b : Bytes → ℕ → Bytes × ℕ
parse_tpm2b buffer offset =
    let size = uint_at buffer offset 2 in
    let end = offset + 2 + size in (slice buffer offset end, end)

-- `_proto_sensitive_create`
unfoldable pub proto_sensitive_create : Bytes → SensitiveCreateMessage
proto_sensitive_create payload =
    let inner_size = uint_at payload 0 2 in
    let inner = slice payload 2 (2 + inner_size) in
    let user_auth_size = uint_at inner 0 2 in
    let user_auth = slice inner 2 (2 + user_auth_size) in
    let data_offset = 2 + user_auth_size in
    let data_size = uint_at inner data_offset 2 in
    let sensitive_data = slice inner (data_offset + 2) (data_offset + 2 + data_size) in
    record {
      size = inner_size;
      user_auth = record { size = user_auth_size; buffer = user_auth };
      sensitive_data = record { size = data_size; buffer = sensitive_data };
    }

-- The branch of `_proto_public` for an RSA area whose parameters start at `offset`. It leaves the
-- field `symmetric_key_bits` out, which is 0.
unfoldable pub proto_public_rsa : Bytes → ℕ → PublicParmsMessage × PublicIdMessage
proto_public_rsa public offset =
    let symmetric = uint_at public offset 2 in
    let offset_scheme = offset + (if symmetric == alg_value TpmAlg.null then 2 else 6) in
    let scheme = uint_at public offset_scheme 2 in
    let key_bits = uint_at public (offset_scheme + 2) 2 in
    let exponent = uint_at public (offset_scheme + 2 + 2) 4 in
    let (unique_bytes, _) = parse_tpm2b public (offset_scheme + 2 + 2 + 4) in
    (
      PublicParmsMessage.rsa symmetric scheme 0 key_bits exponent,
      PublicIdMessage.rsa (drop 2 unique_bytes),
    )

-- The branch for a keyed hash area.
unfoldable pub proto_public_keyedhash : Bytes → ℕ → PublicParmsMessage × PublicIdMessage
proto_public_keyedhash public offset =
    let scheme = uint_at public offset 2 in
    let (unique_bytes, _) = parse_tpm2b public (offset + 2) in
    (
      PublicParmsMessage.keyedhash scheme,
      PublicIdMessage.keyedhash
          (record { size = length (drop 2 unique_bytes); buffer = drop 2 unique_bytes }),
    )

unfoldable pub proto_public_union : ℕ → Bytes → ℕ → Result (PublicParmsMessage × PublicIdMessage)
proto_public_union public_type public offset =
    if public_type == alg_value TpmAlg.rsa
    then ok (proto_public_rsa public offset)
    else if public_type == alg_value TpmAlg.keyedhash
    then ok (proto_public_keyedhash public offset)
    else raise not_implemented_error

-- `_proto_public`
unfoldable pub proto_public : Bytes → Result PublicMessage
proto_public payload = do
  let public = drop 2 payload
  let public_type = uint_at public 0 2
  let name_alg = uint_at public 2 2
  let object_attributes = uint_at public 4 4
  let auth_policy_size = uint_at public 8 2
  let auth_policy = slice public 10 (10 + auth_policy_size)
  (parameters, unique) ← proto_public_union public_type public (10 + auth_policy_size)
  ok (record {
    size = length public;
    type = public_type;
    name_alg = name_alg;
    object_attributes = object_attributes;
    auth_policy = record { size = auth_policy_size; buffer = auth_policy };
    parameters = parameters;
    unique = unique;
  })

-- `for _ in range(count)`, from `offset` on
unfoldable pub pcr_selection_loop : ℕ → Bytes → ℕ → Result (List PcrSelectionMessage)
pcr_selection_loop zero payload offset = ok []
pcr_selection_loop (suc count) payload offset = do
  let hash_alg = uint_at payload offset 2
  sizeof_select ← index payload (offset + 2)
  let pcr_select = slice payload (offset + 2 + 1) (offset + 2 + 1 + sizeof_select)
  selections ← pcr_selection_loop count payload (offset + 2 + 1 + sizeof_select)
  ok (
      record { hash = hash_alg; sizeof_select = sizeof_select; pcr_select = pcr_select }
      ∷ selections)

-- `_proto_pcr_selection`
unfoldable pub proto_pcr_selection : Bytes → Result PcrSelectionsMessage
proto_pcr_selection payload = do
  let count = uint_at payload 0 4
  selections ← pcr_selection_loop count payload 4
  ok (record { count = count; pcr_selections = selections })

-- One round of the loop of `_proto_sessions`: the session at `session_offset` and the offset
-- behind it.
unfoldable pub session_at : Bytes → ℕ → Result (TpmSession × ℕ)
session_at auth_bytes offset = do
  let session_handle = uint_at auth_bytes offset 4
  let nonce_size = uint_at auth_bytes (offset + 4) 2
  let nonce = slice auth_bytes (offset + 4 + 2) (offset + 4 + 2 + nonce_size)
  let offset_attributes = offset + 4 + 2 + nonce_size
  session_attributes ← index auth_bytes offset_attributes
  let hmac_size = uint_at auth_bytes (offset_attributes + 1) 2
  let hmac = slice auth_bytes (offset_attributes + 1 + 2) (offset_attributes + 1 + 2 + hmac_size)
  ok (
    record {
      session_handle = session_handle;
      nonce_size = nonce_size;
      nonce = nonce;
      session_attributes = session_attributes;
      hmac_size = hmac_size;
      hmac = hmac;
    },
    offset_attributes + 1 + 2 + hmac_size,
  )

-- `while session_offset < len(auth_bytes)`
unfoldable pub sessions_loop : ℕ → Bytes → ℕ → Result (List TpmSession)
sessions_loop zero auth_bytes offset =
    if ltb offset (length auth_bytes) then raise diverges else ok []
sessions_loop (suc fuel) auth_bytes offset =
    let rest = do
      (session, next) ← session_at auth_bytes offset
      sessions ← sessions_loop fuel auth_bytes next
      ok (session ∷ sessions)
    in if ltb offset (length auth_bytes) then rest else ok []

-- `_proto_sessions`: each round moves the offset forward, so the length of the buffer is enough.
unfoldable pub proto_sessions : Bytes → Result (List TpmSession)
proto_sessions auth_bytes = sessions_loop (length auth_bytes) auth_bytes 4
