-- ===== src/Proto.antt =====
-- The protobuf messages that tools/seed-generation builds (include/proto), as records of their
-- fields; a field that the code leaves out has the default of proto3, 0 or empty.
pub mod Constants
pub mod EnumValue
use tpm_fuzzer.Prelude.{ℕ, List}
use tpm_fuzzer.Bytes.{Bytes}

pub record TpmHeader : Type 0 where
  pub tag : ℕ
  pub command_size : ℕ
  pub command_code : ℕ

-- The shape that TPM2BData, TPM2BDigest, TPM2BEvent, TPM2BPrivate, TPM2BPublicKeyRSA, TPM2BAuth and
-- TPM2BSensitiveData share.
pub record Buffer : Type 0 where
  pub size : ℕ
  pub buffer : Bytes

pub record TpmSession : Type 0 where
  pub session_handle : ℕ
  pub nonce_size : ℕ
  pub nonce : Bytes
  pub session_attributes : ℕ
  pub hmac_size : ℕ
  pub hmac : Bytes

-- TPM2BSensitiveCreate, with the TPMSSensitiveCreate inside it.
pub record SensitiveCreateMessage : Type 0 where
  pub size : ℕ
  pub user_auth : Buffer
  pub sensitive_data : Buffer

pub data PublicParmsMessage : Type 0 where
  rsa : (symmetric scheme symmetric_key_bits key_bits exponent : ℕ) → PublicParmsMessage
  keyedhash : (scheme : ℕ) → PublicParmsMessage

pub data PublicIdMessage : Type 0 where
  rsa : Bytes → PublicIdMessage
  keyedhash : Buffer → PublicIdMessage

-- TPM2BPublic, with the TPMTPublic inside it.
pub record PublicMessage : Type 0 where
  pub size : ℕ
  pub type : ℕ
  pub name_alg : ℕ
  pub object_attributes : ℕ
  pub auth_policy : Buffer
  pub parameters : PublicParmsMessage
  pub unique : PublicIdMessage

pub record PcrSelectionMessage : Type 0 where
  pub hash : ℕ
  pub sizeof_select : ℕ
  pub pcr_select : Bytes

pub record PcrSelectionsMessage : Type 0 where
  pub count : ℕ
  pub pcr_selections : List PcrSelectionMessage

pub record RsaDecryptMessage : Type 0 where
  pub scheme : ℕ
  pub hash_alg : ℕ

pub record SymDefMessage : Type 0 where
  pub algorithm : ℕ
  pub key_bits : ℕ
  pub mode : ℕ

pub record NvPublicMessage : Type 0 where
  pub nv_index : ℕ
  pub name_alg : ℕ
  pub attributes : ℕ
  pub auth_policy : Bytes
  pub data_size : ℕ

-- The `oneof` of TPMCommand in include/proto/tpm_commands.proto: one constructor for each field that
-- the generator fills.
pub data Message : Type 0 where
  getrandom : (header : TpmHeader) (bytes_requested : ℕ) → Message
  create :
      (header : TpmHeader) (parent_handle : ℕ) (sessions : List TpmSession)
      (in_sensitive : SensitiveCreateMessage) (in_public : PublicMessage) (outside_info : Buffer)
      (creation_pcr : PcrSelectionsMessage)
      → Message
  createprimary :
      (header : TpmHeader) (hierarchy : ℕ) (sessions : List TpmSession)
      (in_sensitive : SensitiveCreateMessage) (in_public : PublicMessage) (outside_info : Buffer)
      (creation_pcr : PcrSelectionsMessage)
      → Message
  startauthsession :
      (header : TpmHeader) (tpm_key bind : ℕ) (nonce encrypted_salt : Buffer) (session_type : ℕ)
      (symmetric : SymDefMessage) (auth_hash : ℕ)
      → Message
  rsadecrypt :
      (header : TpmHeader) (key_handle : ℕ) (sessions : List TpmSession) (cipher_text : Buffer)
      (in_scheme : RsaDecryptMessage) (label : Buffer)
      → Message
  clear : (header : TpmHeader) (auth_handle : ℕ) (sessions : List TpmSession) → Message
  rsaencrypt :
      (header : TpmHeader) (key_handle : ℕ) (message : Buffer) (in_scheme : RsaDecryptMessage)
      (label : Buffer)
      → Message
  pcrevent :
      (header : TpmHeader) (pcr_handle : ℕ) (sessions : List TpmSession) (event_data : Buffer)
      → Message
  pcrallocate :
      (header : TpmHeader) (auth_handle : ℕ) (sessions : List TpmSession)
      (pcr_allocation : PcrSelectionsMessage)
      → Message
  nvdefinespace :
      (header : TpmHeader) (auth_handle : ℕ) (sessions : List TpmSession) (auth : Buffer)
      (nv_public : NvPublicMessage)
      → Message
  setprimarypolicy :
      (header : TpmHeader) (auth_handle : ℕ) (sessions : List TpmSession) (auth_policy : Buffer)
      (hash_alg : ℕ)
      → Message
  load :
      (header : TpmHeader) (parent_handle : ℕ) (sessions : List TpmSession) (in_private : Buffer)
      (in_public : PublicMessage)
      → Message
  makecredential : (header : TpmHeader) (handle : ℕ) (credential object_name : Buffer) → Message
  pcrsetauthpolicy :
      (header : TpmHeader) (auth_handle : ℕ) (sessions : List TpmSession) (auth_policy : Buffer)
      (hash_alg pcr_num : ℕ)
      → Message
  pcrread : (header : TpmHeader) (pcr_selection : PcrSelectionsMessage) → Message
