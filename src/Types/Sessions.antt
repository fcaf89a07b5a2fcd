-- ===== src/Types/Sessions.antt =====
-- The authorization area of tools/seed-generation/tpm2_types.py.
use tpm_fuzzer.Prelude.{ℕ, List, [], ◌∷◌, ◌++◌, length, Result, ok, ◌>>=◌}
use tpm_fuzzer.Bytes.{Bytes, to_bytes, sized, join}

-- TPMS_AUTH_COMMAND
pub record AuthCommand : Type 0 where
  pub session_handle : ℕ
  pub nonce : Bytes
  pub session_attributes : ℕ
  pub hmac : Bytes

-- `TPMS_AUTH_COMMAND(session_handle=handle)`
abbrev pub default_auth_command : ℕ → AuthCommand
default_auth_command handle = record {
  session_handle = handle;
  nonce = [];
  session_attributes = 0;
  hmac = [];
}

unfoldable pub auth_command_bytes : AuthCommand → Result Bytes
auth_command_bytes a = do
  sh ← to_bytes a.session_handle 4
  nonce ← sized a.nonce
  attrs ← to_bytes a.session_attributes 1
  hmac ← sized a.hmac
  ok (sh ++ (nonce ++ (attrs ++ hmac)))

-- TPM_AUTH_AREA
unfoldable pub auth_area_bytes : List AuthCommand → Result Bytes
auth_area_bytes commands = do
  auth_bytes ← join auth_command_bytes commands
  auth_size ← to_bytes (length auth_bytes) 4
  ok (auth_size ++ auth_bytes)

-- The area that the commands build: one session with no nonce, attributes or HMAC.
unfoldable pub single_auth_area : ℕ → Result Bytes
unfolding auth_area_bytes join
single_auth_area handle = auth_area_bytes (default_auth_command handle ∷ [])
