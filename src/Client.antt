-- ===== src/Client.antt =====
-- crates/cedro-client/src/error.rs: the errors of the client, and the steps of its handshake.
pub mod Commands
pub mod Subscriptions
pub mod Config
pub mod Handshake
use market_data_v.Common.{ℕ, Bytes, String, codes}

pub data HandshakeStep : Type 0 where
  await_welcome send_software_key await_username_prompt send_username : HandshakeStep
  await_password_prompt send_password await_connected : HandshakeStep

-- The text of a step.
unfoldable pub step_text : HandshakeStep → Bytes
step_text await_welcome = codes "awaiting welcome"
step_text send_software_key = codes "sending software key"
step_text await_username_prompt = codes "awaiting username prompt"
step_text send_username = codes "sending username"
step_text await_password_prompt = codes "awaiting password prompt"
step_text send_password = codes "sending password"
step_text await_connected = codes "awaiting 'You are connected'"

-- An `io::Error` is left out of a variant that carries one, and so is the time that a timeout waited.
pub data ClientError : Type 0 where
  io : ClientError
  handshake : HandshakeStep → String → ClientError
  handshake_timeout : HandshakeStep → ClientError
  unexpected_eof reader_already_started : ClientError
  buffer_pressure_panic : (pending_bytes pct : ℕ) → ClientError
  invalid_config : String → ClientError
  command_write : ClientError
