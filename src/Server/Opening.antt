-- ===== src/Server/Opening.antt =====
-- src/server.rs: from the first message of a socket to a session, new or resumed.
--
-- What the socket does before it is handed on is an argument, and so are the bytes of a text, the
-- start of a process and what becomes of a socket that is sent to a session.

pub mod Admission
use acp_tunnel.Common.{
  ℕ, String, ◌≡◌, Bool, true, false, ◌||◌, not, Option, none, some, List, [], ◌∷◌, Dict, get,
  insert, remove, ◌==◌, contains, contains_text, format, quoted, str_eq, is_blank, if◌then◌else◌,
  is_some,
}
use acp_tunnel.Fault.{Error, Result, ok, err, ◌>>=◌, ok_or}
use acp_tunnel.Auth.{authenticate}
use acp_tunnel.Credentials.{new_token}
use acp_tunnel.Config.{AgentConfig, McpPolicy, WorkspaceConfig, McpServerConfig, ServerConfig}
use acp_tunnel.Process.{merge_agent_environment}
use acp_tunnel.Protocol.{
  ClientEnvironment, ResumeRequest, Envelope, OpenRequest, into_open, version_error, is_empty,
  tunnel_version,
}

-- What a socket gives as its first message.
pub data First : Type 0 where
  text : Result Envelope → First
  other_message : First
  -- The text of the error.
  failed : String → First
  closed : First
  timed_out : First

-- A step that fails may first tell the client why (`fail_socket`), under a code.
pub data Step {ℓ} (A : Type ℓ) : Type ℓ where
  done : A → Step A
  told : String → Error → Step A
  silent : Error → Step A

-- What an error is shown as, without the name of its kind before it.
abbrev pub message_of : Error → String
message_of (Error.config m) = m
message_of Error.unauthorized = ""
message_of (Error.protocol m) = m
message_of (Error.policy m) = m
message_of (Error.process m) = m
message_of (Error.network m) = m
message_of (Error.io m) = m
message_of (Error.json m) = m
message_of (Error.toml m) = m
message_of (Error.url m) = m
message_of (Error.web_socket m) = m
message_of (Error.timeout m) = m

abbrev pub opened : Result OpenRequest → Step OpenRequest
opened (ok request) = done request
opened (err e) =
    told
      (if contains_text "unsupported tunnel version" (message_of e)
        then "unsupported_tunnel_version"
        else "invalid_open")
      e

unfoldable pub read_open : (ℕ → String) → First → Step OpenRequest
unfolding into_open
read_open show (text parsed) = opened (parsed >>= into_open show)
read_open show other_message =
    told "invalid_open" (Error.protocol "opening message must be WebSocket text")
read_open show (failed source) =
    told "invalid_open" (Error.network (format ("cannot read open envelope: " ∷ source ∷ [])))
read_open show closed = silent (Error.protocol "connection closed before open envelope")
read_open show timed_out = told "open_timeout" (Error.timeout "waiting for open envelope")

-- What `AgentProcess::spawn` starts a command with, in a directory.
pub record Launch : Type 0 where
  pub command : String
  pub args : List String
  pub directory : String
  pub environment : Dict String

pub record Prepared (process : Type 0) : Type 0 where
  pub started : process
  pub workspace_path : String
  pub mcp_policy : McpPolicy

abbrev pub start_code : Error → String
start_code (Error.protocol _) = "client_environment_rejected"
start_code _ = "agent_start_failed"

module _ {process : Type 0} (variable : String → Option String)
    (launch : Launch → Result process) where
  unfoldable pub spawn : AgentConfig → String → ClientEnvironment → Result process
  spawn agent path environment = do
    merged ← merge_agent_environment variable agent environment
    launch (record {
      command = agent.command;
      args = agent.args;
      directory = path;
      environment = merged;
    })

  abbrev pub spawned : AgentConfig → WorkspaceConfig → Result process → Step (Prepared process)
  spawned agent workspace (ok p) =
      done (record { started = p; workspace_path = workspace.path; mcp_policy = agent.mcp_policy })
  spawned agent workspace (err e) = told (start_code e) e

  unfoldable pub prepare_agent : ServerConfig → OpenRequest → Step (Prepared process)
  unfolding spawn
  prepare_agent config request = elim (get request.agent config.agents) [
    | none ↦
        told "unknown_agent"
          (Error.protocol (format ("unknown agent " ∷ quoted request.agent ∷ [])))
    | some agent ↦
        if contains request.workspace agent.workspaces
        then elim (get request.workspace config.workspaces) [
          | none ↦
              told "unknown_workspace"
                (Error.protocol (format ("unknown workspace " ∷ quoted request.workspace ∷ [])))
          | some workspace ↦
              spawned agent workspace (spawn agent workspace.path request.client_environment)
        ]
        else told "unknown_workspace" (
            Error.protocol (
              format (
                "workspace "
                ∷ quoted request.workspace
                ∷ " is not allowed for agent "
                ∷ quoted request.agent
                ∷ [])))
  ]

-- The other end of the channel of attachments is the session under the same key.
pub record ResumeEntry : Type 0 where
  pub resume_token : String
  pub agent : String
  pub workspace : String

-- What becomes of a socket that is sent to the channel of attachments.
pub data Sending : Type 0 where
  accepted overdue gone : Sending

abbrev pub rejected {ℓ} : {A : Type ℓ} → Step A
rejected = told "resume_rejected" (Error.protocol "resume request was rejected")

-- `SecretToken::new`
module _ (as_bytes : String → List ℕ) where
  abbrev pub matches : ResumeEntry → OpenRequest → ResumeRequest → Bool
  matches entry request resume = not (
      not (str_eq entry.agent request.agent)
      || not (str_eq entry.workspace request.workspace)
      || not (authenticate (as_bytes entry.resume_token) (as_bytes resume.resume_token)))

  -- The key of the session that the socket goes to.
  abbrev pub deliver_socket : Sending → String → Step String
  deliver_socket accepted key = done key
  deliver_socket overdue key = silent (Error.timeout "attaching resumed WebSocket")
  deliver_socket gone key = silent (Error.protocol "resume session is no longer available")

  unfoldable pub check_entry : Sending → OpenRequest → ResumeRequest → ResumeEntry → Step String
  unfolding new_token
  check_entry sending request resume entry = elim (new_token entry.resume_token) [
    | err e ↦ silent e
    | ok _ ↦
        if matches entry request resume
        then deliver_socket sending resume.connection_id
        else rejected
  ]

  unfoldable pub resume_tunnel : Dict ResumeEntry → Sending → OpenRequest → Step String
  unfolding check_entry is_empty
  resume_tunnel sessions sending request =
      if is_empty request.client_environment
      then elim request.resume [
        | none ↦ silent (Error.protocol "resume credentials are missing")
        | some resume ↦ elim (get resume.connection_id sessions) [
          | none ↦ rejected
          | some entry ↦ check_entry sending request resume entry
        ]
      ]
      else rejected

-- The table of sessions, while a session runs and after it.
abbrev pub register : String → String → OpenRequest → Dict ResumeEntry → Dict ResumeEntry
register connection_id resume_token request sessions =
    insert connection_id
      (record { resume_token = resume_token; agent = request.agent; workspace = request.workspace })
      sessions

abbrev pub unregister : String → Dict ResumeEntry → Dict ResumeEntry
unregister connection_id sessions = remove connection_id sessions
