-- ===== src/Setup/Doctor/Parts.antt =====
-- Each part of the diagnosis is without an error exactly where that part of the server can run.
use acp_tunnel.Common.{
  String, ◌≡◌, refl, sym, ◌∙◌, inl, inr, ◌↔◌, ◌++◌, true, false, Option, none, some, List, [], ◌∷◌,
  Dict, get, arith, Bool-cases,
}
use acp_tunnel.Fault.{Result, ok, err, Result-cases}
use acp_tunnel.Files.{Answer-cases, Answer}
use acp_tunnel.Config.{AgentConfig, WorkspaceConfig, TlsConfig}
use acp_tunnel.Process.{selected_environment}
use acp_tunnel.Setup.Executable.{Metadata, Probe, is_dir, resolve_executable}
use acp_tunnel.Setup.Executable.Resolved.{Resolves, resolve_executable_iff}
use acp_tunnel.Setup.Doctor.Notices.{
  has_errors, Binding, bound, in_use, unbound, unwritable, unset_variables, open_to_commands,
  diagnose_preset, diagnose_listener, diagnose_credential,
}
use acp_tunnel.Setup.Doctor.{
  unreadable, diagnose_workspace, diagnose_executable, diagnose_agent, diagnose_tls_file,
  diagnose_tls,
}
use acp_tunnel.Setup.Doctor.Quiet.{
  Quiet, Quiet-append, IsAnswered, IsDirectory, IsFile, Succeeds, IsUsable, HasTlsFiles,
}

pub listener-Quiet :
    (listen : String) (b : Binding) → Quiet (diagnose_listener listen b) ↔ IsUsable b
unfolding diagnose_listener has_errors
listener-Quiet listen bound = (λ _. tt, λ _. refl)
listener-Quiet listen in_use = (λ _. tt, λ _. refl)
listener-Quiet listen (unbound e) = (λ q. cc, λ p. absurd p)

pub credential-Quiet : (token : Result String) → Quiet (diagnose_credential token) ↔ Succeeds token
unfolding diagnose_credential has_errors
credential-Quiet (ok _) = (λ _. tt, λ _. refl)
credential-Quiet (err e) = (λ q. cc, λ p. absurd p)

-- Warnings alone are no error.
pub unwritable-Quiet : (id : String) (metadata : Metadata) → Quiet (unwritable id metadata)
unfolding has_errors
unwritable-Quiet id metadata = ground arith

pub unset-Quiet :
    (id : String) (environment : Dict String) (names : List String)
    → Quiet (unset_variables id environment names)
unfolding unset_variables has_errors
unset-Quiet id environment [] = refl
unset-Quiet id environment (name ∷ names) = ground (arith, unset-Quiet id environment names)

pub open-Quiet : (id : String) (agent : AgentConfig) → Quiet (open_to_commands id agent)
unfolding has_errors
open-Quiet id agent = ground arith

pub preset-Quiet : (id : String) (agent : AgentConfig) → Quiet (diagnose_preset id agent)
unfolding diagnose_preset has_errors
preset-Quiet id agent = ground arith

module _ (os : Probe) (variable : String → Option String)
    (read_dir : String → Answer (Unit {0})) where
  -- A directory that can be listed.
  abbrev pub IsReadable : String → WorkspaceConfig → Type 0
  IsReadable id workspace =
      IsDirectory (os.metadata workspace.path) × IsAnswered (read_dir workspace.path)

  -- The command is found in the environment that the agent gets.
  abbrev pub IsLaunchable : String → AgentConfig → Type 0
  IsLaunchable id agent =
      (canonical : String) × Resolves os agent.command
        (get "PATH" (selected_environment variable agent.pass_env agent.env)) canonical

  unreadable-Quiet :
      (id : String) (workspace : WorkspaceConfig)
      → Quiet (unreadable os variable read_dir id workspace) ↔ IsAnswered (read_dir workspace.path)
  unfolding has_errors
  unreadable-Quiet id workspace = elim (Answer-cases (read_dir workspace.path)) [
    | inl (a, e) ↦ rw (e, unreadable) (λ _. tt, λ _. refl)
    | inr (m, e) ↦ rw (e, unreadable) (λ q. cc, λ p. absurd p)
  ]

  pub workspace-Quiet :
      (id : String) (workspace : WorkspaceConfig)
      → Quiet (diagnose_workspace os variable read_dir id workspace) ↔ IsReadable id workspace
  unfolding diagnose_workspace
  workspace-Quiet id workspace = elim (Answer-cases (os.metadata workspace.path)) [
    | inr (m, e) ↦ unfold has_errors in rw (e, diagnose_workspace) (λ q. cc, λ p. absurd p.0)
    | inl (metadata, e) ↦ elim (Bool-cases (is_dir metadata)) [
      | inr other ↦ unfold has_errors in rw (e, other, diagnose_workspace) (λ q. cc, λ p. cc)
      | inl here ↦
          let report = unreadable os variable read_dir id workspace in
          let (apart, together) = Quiet-append (unwritable id metadata) report in
          let (into, from) = unreadable-Quiet id workspace in
          unfold has_errors in
          rw (e, here, diagnose_workspace)
            (λ q. (refl, into (apart q).1), λ p. together (unwritable-Quiet id metadata, from p.1))
    ]
  ]

  executable-Quiet :
      (id : String) (agent : AgentConfig) (search_path : Option String)
      → Quiet (diagnose_executable os variable read_dir id agent search_path)
        ↔ ((canonical : String) × Resolves os agent.command search_path canonical)
  unfolding diagnose_executable has_errors
  executable-Quiet id agent search_path =
      elim (Result-cases (resolve_executable os agent.command search_path)) [
        | inl (command, e) ↦
            rw (e, diagnose_executable)
              (
                λ _. (command, (resolve_executable_iff os agent.command search_path command).0 e),
                λ _. refl,
              )
        | inr (m, e) ↦
            rw (e, diagnose_executable)
              (
                λ (q : true ≡ false). cc,
                λ p.
                    let runs = (resolve_executable_iff os agent.command search_path p.0).1 p.1 in
                    let both : err m ≡ ok p.0 = sym e ∙ runs in cc,
              )
      ]

  pub agent-Quiet :
      (id : String) (agent : AgentConfig)
      → Quiet (diagnose_agent os variable read_dir id agent) ↔ IsLaunchable id agent
  unfolding diagnose_agent
  agent-Quiet id agent =
      let environment = selected_environment variable agent.pass_env agent.env in
      let path = get "PATH" environment in
      let last = open_to_commands id agent ++ diagnose_preset id agent in
      let run = diagnose_executable os variable read_dir id agent path in
      let (apart1, together1) =
        Quiet-append (unset_variables id environment agent.pass_env) (run ++ last) in
      let (apart2, together2) = Quiet-append run last in
      let (apart3, together3) =
        Quiet-append (open_to_commands id agent) (diagnose_preset id agent) in
      let (into, from) = executable-Quiet id agent path in
      (
        λ q. into (apart2 (apart1 q).1).0,
        λ p. together1 (
          unset-Quiet id environment agent.pass_env,
          together2 (from p, together3 (open-Quiet id agent, preset-Quiet id agent)),
        ),
      )

  tls-IsFile-Quiet :
      (kind path : String)
      → Quiet (diagnose_tls_file os variable read_dir kind path) ↔ IsFile (os.metadata path)
  unfolding diagnose_tls_file has_errors
  tls-IsFile-Quiet kind path = elim (Answer-cases (os.metadata path)) [
    | inr (m, e) ↦ rw (e, diagnose_tls_file) (λ q. cc, λ p. absurd p)
    | inl (metadata, e) ↦ rw (e, diagnose_tls_file) (ground arith)
  ]

  pub tls-Quiet :
      (tls : Option TlsConfig) → Quiet (diagnose_tls os variable read_dir tls) ↔ HasTlsFiles os tls
  unfolding diagnose_tls
  tls-Quiet none = unfold has_errors in (λ _. tt, λ _. refl)
  tls-Quiet (some tls) =
      let (apart, together) =
        Quiet-append (diagnose_tls_file os variable read_dir "TLS certificate" tls.cert_path)
          (diagnose_tls_file os variable read_dir "TLS private key" tls.key_path) in
      let (into1, from1) = tls-IsFile-Quiet "TLS certificate" tls.cert_path in
      let (into2, from2) = tls-IsFile-Quiet "TLS private key" tls.key_path in
      (λ q. (into1 (apart q).0, into2 (apart q).1), λ p. together (from1 p.0, from2 p.1))
