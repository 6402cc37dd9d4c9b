-- ===== src/Config.antt =====
-- src/config.rs: the server's configuration and its validation. Reading the TOML file is not
-- modelled; durations are numbers of seconds.
pub mod Names
pub mod Valid
use acp_tunnel.Common.{
  ℕ, String, ◌≡◌, Bool, true, false, Option, none, some, List, [], ◌∷◌, ◌||◌, ◌&&◌, not, str_eq,
  ◌++◌, ◌==◌, ltb, leb, if◌then◌else◌, Dict, contains_key, format, quoted, is_blank,
}
use acp_tunnel.Fault.{Error, Result, ok, err, ◌>>=◌, ◌>>◌, fail_if}
use Names.{validate_id, validate_environment_name}

pub record TlsConfig : Type 0 where
  pub cert_path : String
  pub key_path : String

pub data McpPolicy : Type 0 where
  deny allowlisted passthrough : McpPolicy

pub record AgentConfig : Type 0 where
  pub command : String
  pub args : List String
  pub workspaces : List String
  pub pass_env : List String
  pub env : Dict String
  pub client_env_allowlist : List String
  pub mcp_policy : McpPolicy

pub record WorkspaceConfig : Type 0 where
  pub path : String

pub record McpServerConfig : Type 0 where
  pub command : String
  pub args : List String
  pub pass_env : List String
  pub env : Dict String
  pub client_env_allowlist : List String

-- The listener address is kept by whether it is a loopback address, which is all that the code asks.
pub record ServerConfig : Type 0 where
  pub listen_loopback : Bool
  pub max_frame_bytes : ℕ
  pub connection_timeout_seconds : ℕ
  pub keepalive_interval_seconds : ℕ
  pub keepalive_timeout_seconds : ℕ
  pub shutdown_timeout_seconds : ℕ
  pub reconnect_grace_seconds : ℕ
  pub max_replay_frames : ℕ
  pub max_replay_bytes : ℕ
  pub channel_capacity : ℕ
  pub diagnostic_channel_capacity : ℕ
  pub diagnostic_line_bytes : ℕ
  pub rewrite_cwd : Bool
  pub allow_insecure_mcp_passthrough : Bool
  pub allowed_origins : List String
  pub tls : Option TlsConfig
  pub agents : Dict AgentConfig
  pub workspaces : Dict WorkspaceConfig
  pub mcp_servers : Dict McpServerConfig

-- A check of every entry, in order: the first failure is the result.
abbrev pub for_each {ℓ} : {A : Type ℓ} → (A → Result (Unit {0})) → List A → Result (Unit {0})
for_each f [] = ok tt
for_each f (x ∷ xs) = f x >> for_each f xs

unfoldable pub validate_command : String → String → String → Result (Unit {0})
validate_command kind id command =
    if is_blank command
    then err (Error.config (format (kind ∷ " " ∷ quoted id ∷ " command must not be empty" ∷ [])))
    else ok tt

abbrev pub keys {ℓ} : {V : Type ℓ} → Dict V → List String
keys [] = []
keys ((k, v) ∷ m) = k ∷ keys m

-- Does a name of the list stand in the map?
unfoldable pub overlaps : List String → Dict String → Bool
overlaps [] env = false
overlaps (name ∷ names) env = contains_key name env || overlaps names env

unfoldable pub validate_environment :
    String → String → List String → Dict String → Result (Unit {0})
unfolding overlaps
validate_environment kind id pass_env env = do
  for_each (validate_environment_name kind id) (pass_env ++ keys env)
  fail_if (overlaps pass_env env) (
      Error.config
        (format (kind ∷ " " ∷ quoted id ∷ " lists the same variable in pass_env and env" ∷ [])))

unfoldable pub is_passthrough : McpPolicy → Bool
is_passthrough passthrough = true
is_passthrough _ = false

-- The limits, sizes and timeouts.
unfoldable pub validate_limits : ServerConfig → Result (Unit {0})
validate_limits c = do
  fail_if
      (c.max_frame_bytes == 0
        || c.channel_capacity == 0
        || c.diagnostic_channel_capacity == 0
        || c.diagnostic_line_bytes == 0
        || c.max_replay_frames == 0
        || c.max_replay_bytes == 0)
      (Error.config "frame and channel limits must be greater than zero")
  fail_if (ltb c.max_replay_bytes c.max_frame_bytes)
      (Error.config "max_replay_bytes must be at least max_frame_bytes")
  fail_if
      (c.connection_timeout_seconds == 0
        || c.keepalive_interval_seconds == 0
        || leb c.keepalive_timeout_seconds c.keepalive_interval_seconds
        || c.shutdown_timeout_seconds == 0
        || c.reconnect_grace_seconds == 0)
      (Error.config
        "timeouts must be positive and keepalive_timeout_seconds must exceed keepalive_interval_seconds")

-- What the configuration asks of the libraries for paths and URLs.
pub record PathLib : Type 0 where
  pub is_absolute : String → Bool
  -- `none` if the origin does not parse; otherwise whether it cannot be a base, and its scheme.
  pub parse_url : String → Option (Bool × String)

module _ (lib : PathLib) where
  unfoldable pub validate_workspace : String × WorkspaceConfig → Result (Unit {0})
  validate_workspace (id, w) = do
    validate_id "workspace" id
    fail_if (not (lib.is_absolute w.path))
        (Error.config (format ("workspace " ∷ quoted id ∷ " path must be absolute" ∷ [])))

  unfoldable pub validate_origin : String → Result (Unit {0})
  validate_origin origin = elim (lib.parse_url origin) [
    | none ↦ err (Error.config (format ("invalid allowed origin " ∷ quoted origin ∷ [])))
    | some (cannot_be_a_base, scheme) ↦ fail_if (cannot_be_a_base && not (str_eq scheme "null")) (
        Error.config
          (format ("allowed origin " ∷ quoted origin ∷ " must be an absolute origin" ∷ [])))
  ]

module _ (c : ServerConfig) where
  unfoldable pub validate_workspace_reference : String → String → Result (Unit {0})
  validate_workspace_reference id workspace = do
    validate_id "workspace" workspace
    fail_if (not (contains_key workspace c.workspaces)) (
        Error.config (
          format ("agent " ∷ quoted id ∷ " references unknown workspace " ∷ quoted workspace ∷ [])))

  unfoldable pub validate_agent : String × AgentConfig → Result (Unit {0})
  unfolding validate_command validate_environment is_passthrough validate_workspace_reference
  validate_agent (id, agent) = do
    validate_id "agent" id
    validate_command "agent" id agent.command
    for_each (validate_workspace_reference id) agent.workspaces
    validate_environment "agent" id agent.pass_env agent.env
    for_each (validate_environment_name "agent" id) agent.client_env_allowlist
    fail_if (is_passthrough agent.mcp_policy && not c.allow_insecure_mcp_passthrough) (
        Error.config (
          format (
            "agent "
            ∷ quoted id
            ∷ " uses MCP passthrough; set allow_insecure_mcp_passthrough = true to acknowledge remote command execution risk"
            ∷ [])))

unfoldable pub validate_mcp_server : String × McpServerConfig → Result (Unit {0})
unfolding validate_command validate_environment
validate_mcp_server (id, server) = do
  validate_id "MCP server" id
  validate_command "MCP server" id server.command
  validate_environment "MCP server" id server.pass_env server.env
  for_each (validate_environment_name "MCP server" id) server.client_env_allowlist

unfoldable pub validate_tls : Option TlsConfig → Result (Unit {0})
validate_tls none = ok tt
validate_tls (some tls) =
    fail_if (str_eq tls.cert_path tls.key_path)
      (Error.config "TLS certificate and private key paths must differ")

-- `ServerConfig::validate`.
unfoldable pub validate : PathLib → ServerConfig → Result (Unit {0})
validate lib c = do
  validate_limits c
  for_each (validate_workspace lib) c.workspaces
  for_each (validate_agent c) c.agents
  for_each validate_mcp_server c.mcp_servers
  for_each (validate_origin lib) c.allowed_origins
  validate_tls c.tls
