-- ===== src/Protocol.antt =====
-- src/protocol.rs: the messages of the tunnel, shutdown reasons and the opening request.
-- `to_text` and `from_text` are calls of serde_json and are not modelled.
pub mod Reasons
use acp_tunnel.Common.{
  ℕ, String, ◌≡◌, Bool, true, false, Option, none, some, List, [], ◌∷◌, ◌==◌, format, if◌then◌else◌,
}
use acp_tunnel.Fault.{Error, Result, ok, err}

abbrev pub tunnel_version : ℕ
tunnel_version = 3

pub record ClientInfo : Type 0 where
  pub name : String
  pub version : String

pub record ResumeRequest : Type 0 where
  pub connection_id : String
  pub resume_token : String

pub record ClientEnvironmentVariable : Type 0 where
  pub name : String
  pub value : String

abbrev pub ClientEnvironment : Type 0
ClientEnvironment = List ClientEnvironmentVariable

unfoldable pub is_empty : ClientEnvironment → Bool
is_empty [] = true
is_empty (_ ∷ _) = false

pub data AckStream : Type 0 where
  client_to_server server_to_client : AckStream

pub data ShutdownReason : Type 0 where
  stdin_eof sigterm interrupt client_shutdown : ShutdownReason
  unknown : String → ShutdownReason

-- Exit codes and signals are kept as the pairs that `exit_details` makes, non-negative here.
pub data Envelope : Type 0 where
  open_tunnel :
      ℕ → String → String → ClientInfo → ClientEnvironment → Option ResumeRequest → Envelope
  ready : ℕ → String → Option String → Bool → Envelope
  acp : Option ℕ → String → Envelope
  ack : AckStream → ℕ → Envelope
  stderr : String → Envelope
  exit : Option ℕ → Option ℕ → Envelope
  shutdown : ShutdownReason → Envelope
  shutdown_complete : Option ℕ → Option ℕ → Envelope
  error : String → String → Envelope
  ping : String → Envelope
  pong : String → Envelope

pub record OpenRequest : Type 0 where
  pub version : ℕ
  pub agent : String
  pub workspace : String
  pub client_info : ClientInfo
  pub client_environment : ClientEnvironment
  pub resume : Option ResumeRequest

-- The text that names a rejected version; the decimal print of the number is `show`.
abbrev pub version_error : (ℕ → String) → ℕ → Error
version_error show v =
    Error.protocol (format ("unsupported tunnel version " ∷ show v ∷ "; expected 3" ∷ []))

abbrev pub not_open_error : Error
not_open_error = Error.protocol "the first WebSocket message must be an open envelope"

unfoldable pub into_open : (ℕ → String) → Envelope → Result OpenRequest
into_open show (open_tunnel v agent workspace info environment resume) =
    if v == tunnel_version
    then ok (record {
      version = v;
      agent = agent;
      workspace = workspace;
      client_info = info;
      client_environment = environment;
      resume = resume;
    })
    else err (version_error show v)
into_open show _ = err not_open_error
