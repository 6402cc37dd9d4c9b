-- ===== src/Setup/Doctor.antt =====
-- src/setup.rs, src/main.rs: the diagnosis of a server, and the command that prints it. What the
-- doctor asks of the operating system and of the network is a record of answers.
pub mod Notices
pub mod Quiet
pub mod Parts
pub mod Reachable
pub mod Healthy
use acp_tunnel.Common.{
  ℕ, String, ◌++◌, Bool, true, false, ◌||◌, ◌&&◌, not, Option, none, some, List, [], ◌∷◌, Dict, get,
  contains, contains_key, length, ◌==◌, bit_and, format, quoted, if◌then◌else◌,
}
use acp_tunnel.Fault.{Error, Result, ok, err, ◌>>=◌, to_string}
use acp_tunnel.Files.{Answer, answered, failed}
use acp_tunnel.Config.{ServerConfig, AgentConfig, WorkspaceConfig, TlsConfig, is_passthrough}
use acp_tunnel.Process.{selected_environment}
use acp_tunnel.Setup.Executable.{Metadata, Probe, is_file, is_dir, resolve_executable}
use acp_tunnel.Setup.Doctor.Notices.{
  DoctorLevel, DoctorNotice, DoctorReport, is_error, has_errors, notice, buzz_client_environment,
  Binding, Handshake, PublicUrl, any, diagnose_public_url, diagnose_websocket_endpoint, unwritable,
  unset_variables, open_to_commands, listed_names, diagnose_preset, each, diagnose_listener,
  diagnose_credential, diagnose_url, endpoint, fine, warning, error, bound, in_use, unbound, http,
  broken, upgraded,
}

module _ (os : Probe) (variable : String → Option String)
    (read_dir : String → Answer (Unit {0})) where
  abbrev pub unreadable : String → WorkspaceConfig → DoctorReport
  unreadable id workspace = elim (read_dir workspace.path) [
    | answered _ ↦ []
    | failed e ↦ notice error (format ("cannot read workspace " ∷ quoted id ∷ ": " ∷ e ∷ []))
  ]

  unfoldable pub diagnose_workspace : String → WorkspaceConfig → DoctorReport
  diagnose_workspace id workspace = elim (os.metadata workspace.path) [
    | failed e ↦ notice error (format ("cannot access workspace " ∷ quoted id ∷ ": " ∷ e ∷ []))
    | answered metadata ↦
        if is_dir metadata
        then notice fine (format ("workspace " ∷ quoted id ∷ " exists at " ∷ workspace.path ∷ []))
          ++ (unwritable id metadata ++ unreadable id workspace)
        else notice error (format ("workspace " ∷ quoted id ∷ " is not a directory" ∷ []))
  ]

  unfoldable pub diagnose_executable : String → AgentConfig → Option String → DoctorReport
  diagnose_executable id agent search_path =
      elim (resolve_executable os agent.command search_path) [
        | ok command ↦
            notice fine (format ("agent " ∷ quoted id ∷ " executable is " ∷ command ∷ []))
        | err e ↦ notice error (to_string e)
      ]

  unfoldable pub diagnose_agent : String → AgentConfig → DoctorReport
  unfolding unset_variables diagnose_executable diagnose_preset
  diagnose_agent id agent =
      let environment = selected_environment variable agent.pass_env agent.env in
      unset_variables id environment agent.pass_env
      ++ (diagnose_executable id agent (get "PATH" environment)
          ++ (open_to_commands id agent ++ diagnose_preset id agent))

  unfoldable pub diagnose_tls_file : String → String → DoctorReport
  diagnose_tls_file kind path = elim (os.metadata path) [
    | failed e ↦ notice error (format ("cannot access " ∷ kind ∷ " " ∷ path ∷ ": " ∷ e ∷ []))
    | answered metadata ↦
        if is_file metadata
        then notice fine (format (kind ∷ " exists at " ∷ path ∷ []))
        else notice error (format (kind ∷ " is not a file" ∷ []))
  ]

  unfoldable pub diagnose_tls : Option TlsConfig → DoctorReport
  unfolding diagnose_tls_file
  diagnose_tls none = []
  diagnose_tls (some tls) =
      diagnose_tls_file "TLS certificate" tls.cert_path
      ++ diagnose_tls_file "TLS private key" tls.key_path

  abbrev pub diagnose_parts :
      ServerConfig → Result String → String → Binding → Option PublicUrl → DoctorReport
  diagnose_parts config token listen binding url =
      diagnose_credential token
      ++ (each diagnose_workspace config.workspaces
          ++ (each diagnose_agent config.agents
              ++ (diagnose_tls config.tls
                  ++ (diagnose_listener listen binding ++ diagnose_url url))))

  -- The configuration is that of the file, if it loads; the address is shown as `listen`.
  unfoldable pub diagnose_server :
      String
      → Result ServerConfig
      → Result String
      → String
      → Binding
      → Option PublicUrl
      → DoctorReport
  unfolding diagnose_workspace diagnose_agent diagnose_tls diagnose_listener diagnose_credential
      diagnose_url
  diagnose_server config_path (err e) token listen binding url = notice error (to_string e)
  diagnose_server config_path (ok config) token listen binding url =
      notice fine (format ("configuration " ∷ config_path ∷ " is valid" ∷ []))
      ++ diagnose_parts config token listen binding url

  -- The command: it fails if a notice is an error. Where the configuration is, and what it loads as,
  -- is given with the path.
  unfoldable pub run_doctor :
      (ℕ → String)
      → Result String
      → (String → Result ServerConfig)
      → Result String
      → String
      → Binding
      → Option PublicUrl
      → Result (Unit {0})
  unfolding diagnose_websocket_endpoint has_errors
  run_doctor status_text config_path load token listen binding url = config_path >>= λ path.
      let report =
        diagnose_server path (load path) token listen binding url ++ endpoint status_text url in
      if has_errors report then err (Error.config "doctor found one or more errors") else ok tt
