-- ===== src/Marshal/Structures.antt =====
-- The functions of src/harness/proto_conversion.cc for one type each: `MarshalTPM*`.
use tpm_fuzzer.Prelude.{
  ℕ, ◌+◌, ◌-◌, ◌%◌, ◌^◌, none, some, List, [], ◌∷◌, ◌++◌, length, take, map, replicate, ltb, ◌==◌,
  ◌||◌, Bool, if◌then◌else◌,
}
use tpm_fuzzer.Bytes.{Bytes}
use tpm_fuzzer.Proto.{
  TpmHeader, Buffer, TpmSession, SensitiveCreateMessage, PublicParmsMessage, PublicIdMessage,
  PublicMessage, PcrSelectionMessage, PcrSelectionsMessage, RsaDecryptMessage, SymDefMessage,
  NvPublicMessage,
}
use tpm_fuzzer.Marshal.Tss2.{MuParms, MuPcrSelection, MuNvPublic, Mu}
use tpm_fuzzer.Marshal.Steps.{Step, max_buffer, resume, rewritten, ◌and_then◌, call, raw, done}

-- The numbers of the algorithms that are tested for.
abbrev is_sym : ℕ → Bool
is_sym alg = alg == 0x0006 || alg == 0x0010

abbrev null_alg : ℕ
null_alg = 0x0010

module _ (mu : Mu) where
  -- `MarshalCommandHeader`; the ten bytes are written by the three calls.
  unfoldable pub marshal_command_header : TpmHeader → Step
  marshal_command_header h buf =
      resume (λ later. if length later - length buf == 10 then some later else none)
        ((call (mu.uint16 (h.tag % 2 ^ 16))
            and_then call (mu.uint32 h.command_size)
            and_then call (mu.uint32 h.command_code))
          buf)

  -- `MarshalTPM2BDigest`
  unfoldable pub marshal_tpm2b_digest : Buffer → Step
  marshal_tpm2b_digest digest =
      if ltb 65535 (length digest.buffer)
      then (λ buf. none)
      else (call (mu.uint16 (length digest.buffer)) and_then raw digest.buffer)

  -- `MarshalTPMSession`
  unfoldable pub marshal_tpm_session : TpmSession → Step
  marshal_tpm_session session =
      let nonce_size = length session.nonce % 2 ^ 16 in
      let hmac_size = length session.hmac % 2 ^ 16 in
      call (mu.uint32 session.session_handle)
      and_then call (mu.uint16 nonce_size)
      and_then raw (take nonce_size session.nonce)
      and_then raw (session.session_attributes % 2 ^ 8 ∷ [])
      and_then call (mu.uint16 hmac_size)
      and_then raw (take hmac_size session.hmac)

  unfoldable pub marshal_sessions : List TpmSession → Step
  marshal_sessions [] = done
  marshal_sessions (session ∷ more) = marshal_tpm_session session and_then marshal_sessions more

  -- The size in front of the sessions is written again, at `pos`.
  unfoldable pub patch_auth_size : ℕ → Step
  patch_auth_size pos buf =
      let size = (length buf - (pos + 4)) % 2 ^ 32 in
      rewritten pos buf (mu.uint32 size (max_buffer - pos))

  -- `MarshalRepeatedField` for a field of sessions
  unfoldable pub marshal_repeated_field : List TpmSession → Step
  marshal_repeated_field sessions buf =
      (call (mu.uint32 0) and_then marshal_sessions sessions and_then patch_auth_size (length buf))
        buf

  -- `MarshalTPMTRSADecrypt`: the hash algorithm is written for OAEP only.
  unfoldable pub marshal_tpmt_rsa_decrypt : RsaDecryptMessage → Step
  marshal_tpmt_rsa_decrypt scheme =
      let alg = scheme.scheme % 2 ^ 16 in
      call (mu.uint16 alg)
      and_then (if alg == 0x0017 then call (mu.uint16 (scheme.hash_alg % 2 ^ 16)) else done)

  -- `MarshalTPMTSymDef`
  unfoldable pub marshal_tpmt_sym_def : SymDefMessage → Step
  marshal_tpmt_sym_def sym =
      let alg = if is_sym (sym.algorithm % 2 ^ 16) then sym.algorithm % 2 ^ 16 else null_alg in
      call (
        mu.tpmt_sym_def (
          if alg == null_alg then record { algorithm = alg; key_bits = 0; mode = 0 } else record {
            algorithm = alg;
            key_bits = sym.key_bits % 2 ^ 16;
            mode = sym.mode % 2 ^ 16;
          }))

  -- `MarshalTPM2BSensitiveCreate`
  unfoldable pub marshal_tpm2b_sensitive_create : SensitiveCreateMessage → Step
  marshal_tpm2b_sensitive_create sens = call (
      mu.tpm2b_sensitive_create (
        take mu.auth_capacity sens.user_auth.buffer,
        take mu.sensitive_data_capacity sens.sensitive_data.buffer,
      ))

  -- The parameters of the public area.
  unfoldable pub mu_parms : PublicParmsMessage → MuParms
  mu_parms (PublicParmsMessage.rsa symmetric scheme symmetric_key_bits key_bits exponent) =
      let sym_alg = if is_sym (symmetric % 2 ^ 16) then symmetric % 2 ^ 16 else null_alg in
      let scheme_alg = scheme % 2 ^ 16 in
      MuParms.rsa
        (if sym_alg == null_alg
          then record { algorithm = sym_alg; key_bits = 0; mode = 0 }
          else record {
            algorithm = sym_alg;
            key_bits = symmetric_key_bits % 2 ^ 16;
            mode = 0x0043;
          })
        (if scheme_alg == 0x0014 || scheme_alg == null_alg then scheme_alg else null_alg)
        (key_bits % 2 ^ 16) exponent
  mu_parms (PublicParmsMessage.keyedhash scheme) =
      let alg = scheme % 2 ^ 16 in
      MuParms.keyedhash
        (if alg == 0x0005 || (alg == 0x000A || alg == null_alg) then alg else null_alg)

  unfoldable pub mu_unique : PublicParmsMessage → PublicIdMessage → Bytes
  mu_unique (PublicParmsMessage.rsa _ _ _ _ _) (PublicIdMessage.rsa modulus) =
      take mu.public_key_rsa_capacity modulus
  mu_unique (PublicParmsMessage.keyedhash _) (PublicIdMessage.keyedhash digest) =
      take mu.digest_capacity digest.buffer
  mu_unique (PublicParmsMessage.rsa _ _ _ _ _) (PublicIdMessage.keyedhash digest) = []
  mu_unique (PublicParmsMessage.keyedhash _) (PublicIdMessage.rsa modulus) = []

  -- `MarshalTPM2BPublic`
  unfoldable pub marshal_tpm2b_public : PublicMessage → Step
  marshal_tpm2b_public pub_proto = call (
      mu.tpm2b_public (record {
        name_alg = pub_proto.name_alg % 2 ^ 16;
        object_attributes = pub_proto.object_attributes;
        auth_policy = take mu.digest_capacity pub_proto.auth_policy.buffer;
        parameters = mu_parms pub_proto.parameters;
        unique = mu_unique pub_proto.parameters pub_proto.unique;
      }))

  -- One selection: the array is zero behind the bytes that are copied.
  unfoldable pub mu_pcr_selection : PcrSelectionMessage → MuPcrSelection
  mu_pcr_selection sel =
      let size =
        if ltb mu.select_capacity sel.sizeof_select
        then mu.select_capacity
        else sel.sizeof_select in
      let copied = take size sel.pcr_select in
      record {
        hash = sel.hash % 2 ^ 16;
        sizeof_select = size % 2 ^ 8;
        pcr_select = copied ++ replicate (mu.select_capacity - length copied) 0;
      }

  -- `MarshalTPMLPCRSelection`: the first `TPM2_NUM_PCR_BANKS` of the selections
  unfoldable pub marshal_tpml_pcr_selection : PcrSelectionsMessage → Step
  marshal_tpml_pcr_selection pcr =
      call (mu.tpml_pcr_selection (map mu_pcr_selection (take mu.num_pcr_banks pcr.pcr_selections)))

  -- `MarshalTPMNvPublic`
  unfoldable pub marshal_tpm_nv_public : NvPublicMessage → Step
  marshal_tpm_nv_public nv =
      let area : MuNvPublic = record {
        nv_index = nv.nv_index;
        name_alg = nv.name_alg % 2 ^ 16;
        attributes = nv.attributes;
        auth_policy = take mu.digest_capacity nv.auth_policy;
        data_size = nv.data_size % 2 ^ 16;
      } in
      call (mu.tpm2b_nv_public (mu.nv_public_size area % 2 ^ 16, area))
