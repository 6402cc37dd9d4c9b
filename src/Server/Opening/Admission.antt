-- ===== src/Server/Opening/Admission.antt =====
-- Who gets a session, and which.
use acp_tunnel.Common.{
  ℕ, String, ◌≡◌, refl, ap, inl, inr, true, false, Option, some, List, [], ◌∷◌, Dict, get, contains,
  str_eq, eq_iff, is_blank, arith, Bool-cases, Option-cases,
}
use acp_tunnel.Fault.{Result, ok, err, >>=-eq-ok}
use acp_tunnel.Credentials.{new_token}
use acp_tunnel.Auth.{authenticate}
use acp_tunnel.Auth.Compared.{authenticate_iff}
use acp_tunnel.Config.{AgentConfig, WorkspaceConfig, ServerConfig}
use acp_tunnel.Process.{merge_agent_environment}
use acp_tunnel.Protocol.{ClientEnvironment, ResumeRequest, OpenRequest, is_empty}
use acp_tunnel.Server.Opening.{
  done, Launch, Prepared, spawn, spawned, prepare_agent, ResumeEntry, Sending, accepted, overdue,
  gone, matches, check_entry, resume_tunnel,
}

-- What a socket that resumes a session has shown.
pub record Admitted (sessions : Dict ResumeEntry) (request : OpenRequest) (key : String)
    : Type 0 where
  pub no_environment : request.client_environment ≡ []
  pub resume : ResumeRequest
  pub asked : request.resume ≡ some resume
  pub same_key : key ≡ resume.connection_id
  pub entry : ResumeEntry
  pub found : get key sessions ≡ some entry
  pub same_agent : entry.agent ≡ request.agent
  pub same_workspace : entry.workspace ≡ request.workspace
  pub same_token : resume.resume_token ≡ entry.resume_token

is_empty-eq : (environment : ClientEnvironment) → is_empty environment ≡ true → environment ≡ []
unfolding is_empty
is_empty-eq [] e = refl
is_empty-eq (v ∷ vs) e = cc

module _ (as_bytes : String → List ℕ)
    (as_bytes-injective : (a b : String) → as_bytes a ≡ as_bytes b → a ≡ b) where
  matches-eq :
      (entry : ResumeEntry) (request : OpenRequest) (resume : ResumeRequest)
      → matches as_bytes entry request resume ≡ true
      → (entry.agent ≡ request.agent)
        × (entry.workspace ≡ request.workspace)
        × (resume.resume_token ≡ entry.resume_token)
  matches-eq entry request resume e =
      let token : authenticate (as_bytes entry.resume_token) (as_bytes resume.resume_token) ≡ true =
        ground arith in
      (
        ground (arith, eq_iff entry.agent request.agent),
        ground (arith, eq_iff entry.workspace request.workspace),
        as_bytes-injective resume.resume_token entry.resume_token (
            (authenticate_iff (as_bytes entry.resume_token) (as_bytes resume.resume_token)).0
              token),
      )

  check_entry-done :
      (sending : Sending) (request : OpenRequest) (resume : ResumeRequest) (entry : ResumeEntry)
      (key : String)
      → check_entry as_bytes sending request resume entry ≡ done key
      → (matches as_bytes entry request resume ≡ true) × (key ≡ resume.connection_id)
  unfolding check_entry
  check_entry-done accepted request resume entry key e = ground arith
  check_entry-done overdue request resume entry key e = absurd (ground arith)
  check_entry-done gone request resume entry key e = absurd (ground arith)

  -- Where different texts have different bytes, a socket that asks to resume is handed to a session
  -- only if it sent no environment, the session stands in the table under the connection id that it
  -- named, and its agent, its workspace and its resume token are those of the session.
  pub resume_tunnel-Admitted :
      (sessions : Dict ResumeEntry) (sending : Sending) (request : OpenRequest) (key : String)
      → resume_tunnel as_bytes sessions sending request ≡ done key
      → Admitted sessions request key
  unfolding resume_tunnel
  resume_tunnel-Admitted sessions sending request key e =
      elim (Bool-cases (is_empty request.client_environment)) [
        | inr some_environment ↦ absurd (ground arith)
        | inl no_environment ↦ elim (Option-cases request.resume) [
          | inl missing ↦ absurd (ground arith)
          | inr (resume, asked) ↦ elim (Option-cases (get resume.connection_id sessions)) [
            | inl unknown ↦ absurd (ground arith)
            | inr (entry, found) ↦
                let (matched, same_key) =
                  check_entry-done sending request resume entry key
                    (rw (no_environment, asked, found) at e) in
                let (agent, workspace, token) = matches-eq entry request resume matched in
                record {
                  no_environment = is_empty-eq request.client_environment no_environment;
                  resume = resume;
                  asked = asked;
                  same_key = same_key;
                  entry = entry;
                  found = rw same_key found;
                  same_agent = agent;
                  same_workspace = workspace;
                  same_token = token;
                }
          ]
        ]
      ]

-- A socket that asks to resume with no environment, and with the agent, the workspace and the token
-- of a session in the table whose token is not empty, is handed to that session if its channel
-- takes it.
pub resume_tunnel-admits :
    (as_bytes : String → List ℕ) (sessions : Dict ResumeEntry) (request : OpenRequest)
    (resume : ResumeRequest) (entry : ResumeEntry)
    → request.client_environment ≡ []
    → request.resume ≡ some resume
    → get resume.connection_id sessions ≡ some entry
    → is_blank entry.resume_token ≡ false
    → entry.agent ≡ request.agent
    → entry.workspace ≡ request.workspace
    → resume.resume_token ≡ entry.resume_token
    → resume_tunnel as_bytes sessions accepted request ≡ done resume.connection_id
unfolding resume_tunnel check_entry is_empty new_token
resume_tunnel-admits as_bytes sessions request resume entry no_environment asked found solid agent
      workspace token =
    let same_bytes : authenticate (as_bytes entry.resume_token) (as_bytes resume.resume_token)
        ≡ true =
      (authenticate_iff (as_bytes entry.resume_token) (as_bytes resume.resume_token)).1
        (ap as_bytes token) in
    let a : str_eq entry.agent request.agent ≡ true =
      ground (arith, eq_iff entry.agent request.agent) in
    let w : str_eq entry.workspace request.workspace ≡ true =
      ground (arith, eq_iff entry.workspace request.workspace) in
    rw
      (no_environment, asked, found, solid, a, w, same_bytes, resume_tunnel, check_entry, new_token)
      refl

module _ {process : Type 0} (variable : String → Option String)
    (launch : Launch → Result process) where
  -- What an agent that was prepared has been started from.
  pub record Entitled (config : ServerConfig) (request : OpenRequest) (p : Prepared process)
      : Type 0 where
    pub agent : AgentConfig
    pub configured : get request.agent config.agents ≡ some agent
    pub permitted : contains request.workspace agent.workspaces ≡ true
    pub workspace : WorkspaceConfig
    pub located : get request.workspace config.workspaces ≡ some workspace
    pub environment : Dict String
    pub merged : merge_agent_environment variable agent request.client_environment ≡ ok environment
    pub launched :
        launch (record {
          command = agent.command;
          args = agent.args;
          directory = workspace.path;
          environment = environment;
        })
        ≡ ok p.started
    pub policy : p.mcp_policy ≡ agent.mcp_policy

  spawned-done :
      (agent : AgentConfig) (workspace : WorkspaceConfig) (r : Result process)
      (p : Prepared process)
      → spawned variable launch agent workspace r ≡ done p
      → (r ≡ ok p.started) × (p.mcp_policy ≡ agent.mcp_policy)
  spawned-done agent workspace (ok q) p e = ground arith
  spawned-done agent workspace (err m) p e = cc

  -- An agent that is prepared for a socket is configured under the name that was asked for, allows
  -- the workspace that was asked for, which is configured too, and was launched with its own
  -- command in the workspace's directory, in the environment merged for it.
  pub prepare_agent-Entitled :
      (config : ServerConfig) (request : OpenRequest) (p : Prepared process)
      → prepare_agent variable launch config request ≡ done p
      → Entitled config request p
  unfolding prepare_agent spawn
  prepare_agent-Entitled config request p e =
      elim (Option-cases (get request.agent config.agents)) [
        | inl unknown ↦ absurd (ground arith)
        | inr (agent, configured) ↦
            elim (Bool-cases (contains request.workspace agent.workspaces)) [
              | inr barred ↦ absurd (ground arith)
              | inl permitted ↦ elim (Option-cases (get request.workspace config.workspaces)) [
                | inl nowhere ↦ absurd (ground arith)
                | inr (workspace, located) ↦
                    let (started, policy) =
                      spawned-done agent workspace
                        (spawn variable launch agent workspace.path request.client_environment) p
                        (rw (configured, permitted, located, prepare_agent) at e) in
                    let (environment, merged, launched) = >>=-eq-ok _ _ started in
                    record {
                      agent = agent;
                      configured = configured;
                      permitted = permitted;
                      workspace = workspace;
                      located = located;
                      environment = environment;
                      merged = merged;
                      launched = launched;
                      policy = policy;
                    }
              ]
            ]
      ]
