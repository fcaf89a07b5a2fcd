-- ===== src/Commands/Instance.antt =====
-- Objects of the command classes of tools/seed-generation/tpm2_commands.py: one constructor for each
-- class with a `to_proto` of its own, holding the attributes that the method reads.
use tpm_fuzzer.Prelude.{ℕ, List}
use tpm_fuzzer.Bytes.{Bytes}
use tpm_fuzzer.Types.Algorithms.{RsaDecryptScheme}
use tpm_fuzzer.Types.Pcr.{PcrSelection}
use tpm_fuzzer.Proto.{Message}
use tpm_fuzzer.Command.{TpmCommand}

pub data Command : Type 0 where
  -- a class that inherits `to_proto` from TPMCommand
  plain : (base : TpmCommand) → Command
  -- a class whose `__init__` stores the message in `self.proto`: TPMSetPrimaryPolicy, TPMLoad,
  -- TPMPCRRead, TPMPCREvent, TPMPCRSetAuthPolicy
  prepared : (base : TpmCommand) (proto : Message) → Command
  clear : (base : TpmCommand) (auth_handle session_handle : ℕ) → Command
  create create_primary get_random start_auth_session nv_define_space :
      (base : TpmCommand) → Command
  rsa_decrypt :
      (base : TpmCommand) (key_handle : ℕ) (cipher_text : Bytes) (in_scheme : RsaDecryptScheme)
      (label : Bytes) (session_handle : ℕ)
      → Command
  rsa_encrypt :
      (base : TpmCommand) (key_handle : ℕ) (message : Bytes) (in_scheme : RsaDecryptScheme)
      (label : Bytes)
      → Command
  pcr_allocate :
      (base : TpmCommand) (selections : List PcrSelection) (auth_handle session_handle : ℕ)
      → Command
  make_credential : (base : TpmCommand) (handle : ℕ) (credential object_name : Bytes) → Command

unfoldable pub base_of : Command → TpmCommand
base_of (plain base) = base
base_of (prepared base _) = base
base_of (clear base _ _) = base
base_of (create base) = base
base_of (create_primary base) = base
base_of (get_random base) = base
base_of (start_auth_session base) = base
base_of (nv_define_space base) = base
base_of (rsa_decrypt base _ _ _ _ _) = base
base_of (rsa_encrypt base _ _ _ _) = base
base_of (pcr_allocate base _ _ _) = base
base_of (make_credential base _ _ _) = base
