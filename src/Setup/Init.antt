-- ===== src/Setup/Init.antt =====
-- src/setup.rs: `initialize_server`, which writes a configuration and a token; src/config.rs: the
-- loading of a configuration. The TOML library, the random identifiers and the answers of the operating
-- system that do not change are fields of a record; the files are a world of their own.
pub mod Kept
pub mod Initialized
use acp_tunnel.Common.{
  ℕ, ◌+◌, String, ◌++◌, Bool, true, false, Option, none, some, List, [], ◌∷◌, Dict, get, format,
  if◌then◌else◌,
}
use acp_tunnel.Fault.{Error, Result, ok, err}
use acp_tunnel.Fault as Fault
use acp_tunnel.Files.{
  Node, file, directory, link, PathLib, World, Answer, answered, failed, or_config, Act, Fs, ◌>>=◌,
  ◌>>◌, done, lift, call, call_or, node_at,
}
use acp_tunnel.Config.{
  McpPolicy, deny, allowlisted, passthrough, is_passthrough, ServerConfig, for_each, validate,
}
use acp_tunnel.Config as Config
use acp_tunnel.Config.Names.{validate_id, validate_environment_name}
use acp_tunnel.Credentials.{TokenFile, read_token_file}
use acp_tunnel.Setup.Private.{write_private_file, replace_private_file, exists}
use acp_tunnel.Setup.Executable.{Probe, is_dir, resolve_executable}

pub record InitOptions : Type 0 where
  pub config_path : String
  pub token_path : String
  pub agent_id : String
  pub command : String
  pub workspace_id : String
  pub workspace_path : String
  pub pass_env : List String
  pub client_env_allowlist : List String
  pub mcp_policy : McpPolicy
  pub force : Bool

pub record InitReport : Type 0 where
  pub config_path : String
  pub token_path : String
  pub token_created : Bool
  pub command : String
  pub workspace_path : String

pub record GeneratedAgent : Type 0 where
  pub command : String
  pub workspaces : List String
  pub pass_env : List String
  pub client_env_allowlist : List String
  pub mcp_policy : String

pub record GeneratedWorkspace : Type 0 where
  pub path : String

pub record GeneratedConfig : Type 0 where
  pub allow_insecure_mcp_passthrough : Bool
  pub agents : Dict GeneratedAgent
  pub workspaces : Dict GeneratedWorkspace

-- What surrounds the command. `random` holds the random parts of the token and of the names of files.
pub record Machine : Type 0 where
  pub paths : PathLib
  pub fault : ℕ → Option String
  pub reach : ℕ → ℕ
  pub os : Probe
  pub search_path : Option String
  pub lib : Config.PathLib
  pub to_string_pretty : GeneratedConfig → Answer String
  pub from_str : String → Result ServerConfig
  pub as_bytes : String → List ℕ
  pub from_utf8 : List ℕ → Option String
  pub random : ℕ → String

-- The identifiers and the names of variables that go into the configuration.
unfoldable pub check_names : InitOptions → Result (Unit {0})
check_names options = Fault.◌>>◌ (validate_id "agent" options.agent_id) (
    Fault.◌>>◌ (validate_id "workspace" options.workspace_id) (
      for_each (validate_environment_name "generated agent" options.agent_id)
        (options.pass_env ++ options.client_env_allowlist)))

abbrev pub policy_name : McpPolicy → String
policy_name deny = "deny"
policy_name allowlisted = "allowlisted"
policy_name passthrough = "passthrough"

unfoldable pub generated : InitOptions → String → String → GeneratedConfig
unfolding is_passthrough
generated options command workspace_path = record {
  allow_insecure_mcp_passthrough = is_passthrough options.mcp_policy;
  agents =
      (
        options.agent_id,
        record {
          command = command;
          workspaces = options.workspace_id ∷ [];
          pass_env = options.pass_env;
          client_env_allowlist = options.client_env_allowlist;
          mcp_policy = policy_name options.mcp_policy;
        },
      )
      ∷ [];
  workspaces = (options.workspace_id, record { path = workspace_path }) ∷ [];
}

-- What stands at the configuration's own path, links not followed.
unfoldable pub refuse_existing : InitOptions → Option Node → Result (Unit {0})
refuse_existing options none = ok tt
refuse_existing options (some (link _)) = err (
    Error.config
      (format ("configuration " ∷ options.config_path ∷ " must not be a symbolic link" ∷ [])))
refuse_existing options (some _) =
    if options.force
    then ok tt
    else err (
        Error.config (
          format (
            "configuration " ∷ options.config_path ∷ " already exists; use --force to replace it"
            ∷ [])))

abbrev pub not_read : String → String → String
not_read path error = format ("cannot read " ∷ path ∷ ": " ∷ error ∷ [])

abbrev pub told : {A : Type 0} → Option String → A → Answer A
told none a = answered a
told (some error) a = failed error

module _ (machine : Machine) where
  unfoldable pub locate_workspace : String → Result String
  locate_workspace path =
      let missing = Error.config (format ("workspace " ∷ path ∷ " is not a directory" ∷ [])) in
      Fault.◌>>=◌
        (or_config (machine.os.canonicalize path)
          (λ error. format ("cannot resolve workspace " ∷ path ∷ ": " ∷ error ∷ [])))
        λ canonical. elim (machine.os.metadata canonical) [
          | answered metadata ↦ if is_dir metadata then ok canonical else err missing
          | failed _ ↦ err missing
        ]

  unfoldable pub symlink_metadata : String → Fs (Option Node)
  symlink_metadata path w =
      let asked = call machine.fault (λ m. (answered (get path m), m)) w in
      (ok (elim asked.0 [ answered found ↦ found | failed _ ↦ none ]), asked.1)

  -- A file is opened, inspected and read.
  abbrev pub opened : World → String → Answer TokenFile
  opened w path = elim (machine.fault w.calls) [
    | some error ↦ failed error
    | none ↦ elim (node_at w.entries path) [
      | some (file mode bytes) ↦ answered (record {
        mode = told (machine.fault (w.calls + 1)) mode;
        contents = told (machine.fault (w.calls + 2)) bytes;
      })
      | some (directory mode) ↦ answered (record {
        mode = told (machine.fault (w.calls + 1)) mode;
        contents = failed "is a directory";
      })
      | _ ↦ failed "not found"
    ]
  ]

  unfoldable pub load_token_file : String → Fs String
  load_token_file path w =
      (read_token_file (λ p. p) (opened w) machine.from_utf8 path, record w { calls = w.calls + 3 })

  abbrev pub text_at : String → Act String
  text_at path m = elim (node_at m path) [
    | some (file mode bytes) ↦ elim (machine.from_utf8 bytes) [
      | some text ↦ (answered text, m)
      | none ↦ (failed "stream did not contain valid UTF-8", m)
    ]
    | some (directory mode) ↦ (failed "is a directory", m)
    | _ ↦ (failed "not found", m)
  ]

  unfoldable pub load : String → Fs ServerConfig
  load path = do
    text ← call_or machine.fault (text_at path) (not_read path)
    config ← lift (machine.from_str text)
    lift (validate machine.lib config)
    done config

  abbrev pub new_token_text : String
  new_token_text = format (machine.random 0 ∷ machine.random 1 ∷ "\n" ∷ [])

  -- Whether a token is created.
  unfoldable pub ensure_token : String → Fs Bool
  ensure_token path = exists machine.paths machine.fault machine.reach path >>= λ there.
      if there
      then (load_token_file path >>= λ _. done false)
      else (write_private_file machine.paths machine.fault machine.reach path
            (machine.as_bytes new_token_text)
          >> done true)

  unfoldable pub generate : InitOptions → String → String → Result String
  generate options command workspace_path =
      Fault.◌>>=◌
        (or_config (machine.to_string_pretty (generated options command workspace_path))
          (λ error. format ("cannot serialize generated configuration: " ∷ error ∷ [])))
        λ text.
          Fault.◌>>=◌ (machine.from_str text)
            λ config. Fault.◌>>◌ (validate machine.lib config) (ok text)

  unfoldable pub write_config : InitOptions → String → Fs (Unit {0})
  write_config options text =
      if options.force
      then replace_private_file machine.paths machine.fault machine.reach (machine.random 2)
          (machine.random 3) options.config_path (machine.as_bytes text)
      else write_private_file machine.paths machine.fault machine.reach options.config_path
          (machine.as_bytes text)

  unfoldable pub initialize_server : InitOptions → Fs InitReport
  initialize_server options = do
    lift (check_names options)
    command ← lift (resolve_executable machine.os options.command machine.search_path)
    workspace_path ← lift (locate_workspace options.workspace_path)
    found ← symlink_metadata options.config_path
    lift (refuse_existing options found)
    token_created ← ensure_token options.token_path
    text ← lift (generate options command workspace_path)
    write_config options text
    _ ← load options.config_path
    done (record {
      config_path = options.config_path;
      token_path = options.token_path;
      token_created = token_created;
      command = command;
      workspace_path = workspace_path;
    })
