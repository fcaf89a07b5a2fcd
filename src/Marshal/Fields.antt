-- ===== src/Marshal/Fields.antt =====
-- The fields of the command messages of include/proto/tpm_commands.
use tpm_fuzzer.Prelude.{ℕ, List, [], ◌∷◌}
use tpm_fuzzer.Proto.{
  TpmHeader, Buffer, TpmSession, SensitiveCreateMessage, PublicMessage, PcrSelectionsMessage,
  RsaDecryptMessage, SymDefMessage, NvPublicMessage, Message,
}

-- A field of a command message as the reflection of protobuf shows it: by its type, and by the name
-- for `bytes_requested`.
pub data Field : Type 0 where
  header : TpmHeader → Field
  number bytes_requested enumeration algorithm session_kind : ℕ → Field
  sessions : List TpmSession → Field
  data_2b digest_2b private_2b public_key_rsa_2b event_2b : Buffer → Field
  sym_def : SymDefMessage → Field
  sensitive_create : SensitiveCreateMessage → Field
  public_area : PublicMessage → Field
  pcr_selection : PcrSelectionsMessage → Field
  rsa_scheme : RsaDecryptMessage → Field
  nv_public : NvPublicMessage → Field

-- The fields of the message that the `oneof` holds, in the order of include/proto/tpm_commands.
unfoldable pub fields_of : Message → List Field
fields_of (Message.getrandom h n) = Field.header h ∷ Field.bytes_requested n ∷ []
fields_of (Message.create h parent s sens area outside pcr) =
    Field.header h
    ∷ Field.number parent
    ∷ Field.sessions s
    ∷ Field.sensitive_create sens
    ∷ Field.public_area area
    ∷ Field.data_2b outside
    ∷ Field.pcr_selection pcr
    ∷ []
fields_of (Message.createprimary h hierarchy s sens area outside pcr) =
    Field.header h
    ∷ Field.enumeration hierarchy
    ∷ Field.sessions s
    ∷ Field.sensitive_create sens
    ∷ Field.public_area area
    ∷ Field.data_2b outside
    ∷ Field.pcr_selection pcr
    ∷ []
fields_of (Message.startauthsession h key bind nonce salt kind sym auth_hash) =
    Field.header h
    ∷ Field.enumeration key
    ∷ Field.enumeration bind
    ∷ Field.data_2b nonce
    ∷ Field.data_2b salt
    ∷ Field.session_kind kind
    ∷ Field.sym_def sym
    ∷ Field.algorithm auth_hash
    ∷ []
fields_of (Message.rsadecrypt h key s cipher scheme label) =
    Field.header h
    ∷ Field.number key
    ∷ Field.sessions s
    ∷ Field.public_key_rsa_2b cipher
    ∷ Field.rsa_scheme scheme
    ∷ Field.data_2b label
    ∷ []
fields_of (Message.clear h auth_handle s) =
    Field.header h ∷ Field.number auth_handle ∷ Field.sessions s ∷ []
fields_of (Message.rsaencrypt h key message scheme label) =
    Field.header h
    ∷ Field.number key
    ∷ Field.public_key_rsa_2b message
    ∷ Field.rsa_scheme scheme
    ∷ Field.data_2b label
    ∷ []
fields_of (Message.pcrevent h handle s event) =
    Field.header h ∷ Field.number handle ∷ Field.sessions s ∷ Field.event_2b event ∷ []
fields_of (Message.pcrallocate h auth_handle s pcr) =
    Field.header h ∷ Field.enumeration auth_handle ∷ Field.sessions s ∷ Field.pcr_selection pcr ∷ []
fields_of (Message.nvdefinespace h auth_handle s auth nv) =
    Field.header h
    ∷ Field.number auth_handle
    ∷ Field.sessions s
    ∷ Field.data_2b auth
    ∷ Field.nv_public nv
    ∷ []
fields_of (Message.setprimarypolicy h auth_handle s policy hash) =
    Field.header h
    ∷ Field.enumeration auth_handle
    ∷ Field.sessions s
    ∷ Field.digest_2b policy
    ∷ Field.algorithm hash
    ∷ []
fields_of (Message.load h parent s in_private area) =
    Field.header h
    ∷ Field.number parent
    ∷ Field.sessions s
    ∷ Field.private_2b in_private
    ∷ Field.public_area area
    ∷ []
fields_of (Message.makecredential h handle credential name) =
    Field.header h ∷ Field.number handle ∷ Field.data_2b credential ∷ Field.data_2b name ∷ []
fields_of (Message.pcrsetauthpolicy h auth_handle s policy hash pcr_num) =
    Field.header h
    ∷ Field.number auth_handle
    ∷ Field.sessions s
    ∷ Field.digest_2b policy
    ∷ Field.algorithm hash
    ∷ Field.number pcr_num
    ∷ []
fields_of (Message.pcrread h pcr) = Field.header h ∷ Field.pcr_selection pcr ∷ []
