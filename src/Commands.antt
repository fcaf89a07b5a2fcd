-- ===== src/Commands.antt =====
-- The command classes of tools/seed-generation/tpm2_commands.py, and `to_proto` by class.
pub mod Instance
pub mod Hierarchy
pub mod Simple
pub mod Creation
pub mod Loading
pub mod AuthSession
pub mod Keys
pub mod Pcr
pub mod Nv
use tpm_fuzzer.Prelude.{Option, none, some, Result, ok, ◌>>=◌}
use tpm_fuzzer.Proto.{Message}
use Instance.{Command}
use Hierarchy.{clear_to_proto}
use Simple.{get_random_to_proto}
use Creation.{create_to_proto, create_primary_to_proto}
use Loading.{make_credential_to_proto}
use AuthSession.{start_auth_session_to_proto}
use Keys.{rsa_decrypt_to_proto, rsa_encrypt_to_proto}
use Pcr.{pcr_allocate_to_proto}
use Nv.{nv_define_space_to_proto}

-- `to_proto`; TPMCommand's own returns `None`.
unfoldable pub to_proto : Command → Result (Option Message)
to_proto (Command.plain base) = ok none
to_proto (Command.prepared base proto) = ok (some proto)
to_proto (Command.clear base auth session) = ok (some (clear_to_proto base auth session))
to_proto (Command.create base) = do m ← create_to_proto base; ok (some m)
to_proto (Command.create_primary base) = do m ← create_primary_to_proto base; ok (some m)
to_proto (Command.get_random base) = ok (some (get_random_to_proto base))
to_proto (Command.start_auth_session base) = do m ← start_auth_session_to_proto base; ok (some m)
to_proto (Command.nv_define_space base) = do m ← nv_define_space_to_proto base; ok (some m)
to_proto (Command.rsa_decrypt base key cipher scheme label session) = do
  m ← rsa_decrypt_to_proto base key cipher scheme label session
  ok (some m)
to_proto (Command.rsa_encrypt base key message scheme label) = do
  m ← rsa_encrypt_to_proto base key message scheme label
  ok (some m)
to_proto (Command.pcr_allocate base selections auth session) = do
  m ← pcr_allocate_to_proto base selections auth session
  ok (some m)
to_proto (Command.make_credential base handle credential name) =
    ok (some (make_credential_to_proto base handle credential name))
