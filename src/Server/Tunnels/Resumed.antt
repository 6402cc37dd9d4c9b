-- ===== src/Server/Tunnels/Resumed.antt =====
-- What a socket that resumes a session has shown.
use acp_tunnel.Common.{ℕ, String, ◌≡◌, ◌≢◌, refl, inl, inr, Option, some, List, Option-cases}
use acp_tunnel.Fault.{Error, Result}
use acp_tunnel.Config.{ServerConfig}
use acp_tunnel.Protocol.{OpenRequest, ResumeRequest}
use acp_tunnel.Server.Opening.{
  Step, done, told, silent, read_open, Launch, Prepared, prepare_agent, ResumeEntry, resume_tunnel,
}
use acp_tunnel.Server.Opening.Admission.{resume_tunnel-Admitted}
use acp_tunnel.Server.Tunnels.{
  Arrival, Outcome, attached, turned_away, Event, Table, after_resume, open_session, serve_request,
  run_tunnel, table_after,
}
use acp_tunnel.Server.Tunnels.Table.{Step-cases, Lives, table_after-Lives}

attached-injective :
    {process : Type 0} (o : Outcome process) (a b : String)
    → o ≡ attached a
    → o ≡ attached b
    → a ≡ b
attached-injective o a b e f = cc

module _ {process : Type 0} (show : ℕ → String) (as_bytes : String → List ℕ)
    (variable : String → Option String) (launch : Launch → Result process)
    (config : ServerConfig) where
  after_resume-done :
      (step : Step String) (key : String)
      → after_resume show as_bytes variable launch config step ≡ attached key
      → step ≡ done key
  after_resume-done (done k) key e =
      let same : k ≡ key = attached-injective _ k key refl e in rw same refl
  after_resume-done (told code m) key e = cc
  after_resume-done (silent m) key e = cc

  turned_away-only :
      (m : Error) (key : String) (o : Outcome process) → o ≡ turned_away m → o ≢ attached key
  turned_away-only m key o e f = cc

  began-only :
      (arrival : Arrival) (request : OpenRequest) (table : Table) (step : Step (Prepared process))
      (key : String)
      → (open_session show as_bytes variable launch config arrival request table step).0
        ≢ attached key
  unfolding open_session
  began-only arrival request table (done p) key e = cc
  began-only arrival request table (told code m) key e = cc
  began-only arrival request table (silent m) key e = cc

  run_tunnel-attached :
      (arrival : Arrival) (table : Table) (key : String)
      → (run_tunnel show as_bytes variable launch config arrival table).0 ≡ attached key
      → (request : OpenRequest) × (read_open show arrival.first ≡ done request)
        × (resume_tunnel as_bytes table arrival.sending request ≡ done key)
  unfolding run_tunnel serve_request open_session
  run_tunnel-attached arrival table key e = elim (Step-cases (read_open show arrival.first)) [
    | inr (m, inl (code, stopped)) ↦
        absurd (turned_away-only m key _ refl (rw (stopped, run_tunnel) at e))
    | inr (m, inr stopped) ↦ absurd (turned_away-only m key _ refl (rw (stopped, run_tunnel) at e))
    | inl (request, read) ↦ elim (Option-cases request.resume) [
      | inr (resume, asked) ↦ (
        request,
        read,
        after_resume-done _ key (rw (read, asked, run_tunnel, serve_request) at e),
      )
      | inl fresh ↦ absurd (
          began-only arrival request table (prepare_agent variable launch config request) key
            (rw (read, fresh, run_tunnel, serve_request) at e))
    ]
  ]

-- What a socket that goes to a session has shown, and where the session comes from.
pub record Resumed {process : Type 0} (show : ℕ → String) (as_bytes : String → List ℕ)
    (variable : String → Option String) (launch : Launch → Result process) (config : ServerConfig)
    (history : List Event) (arrival : Arrival) (key : String) : Type 0 where
  pub request : OpenRequest
  pub read : read_open show arrival.first ≡ done request
  pub resume : ResumeRequest
  pub asked : request.resume ≡ some resume
  pub named : key ≡ resume.connection_id
  pub entry : ResumeEntry
  pub lives : Lives show as_bytes variable launch config history key entry
  pub same_agent : entry.agent ≡ request.agent
  pub same_workspace : entry.workspace ≡ request.workspace
  pub same_token : resume.resume_token ≡ entry.resume_token

-- Where different texts have different bytes, after any history of arrivals and ends of sessions a
-- socket is handed to the session under a key only if its request named that key, and an earlier
-- socket, whose request was entitled to the agent that was started, opened a session under it that
-- has not ended since, for the agent and the workspace that are asked for, and under the token that
-- is shown.
pub run_tunnel-Resumed :
    {process : Type 0} (show : ℕ → String) (as_bytes : String → List ℕ)
    (variable : String → Option String) (launch : Launch → Result process) (config : ServerConfig)
    → ((a b : String) → as_bytes a ≡ as_bytes b → a ≡ b)
    → (history : List Event) (arrival : Arrival) (key : String)
    → (run_tunnel show as_bytes variable launch config arrival
        (table_after show as_bytes variable launch config history)).0
      ≡ attached key
    → Resumed show as_bytes variable launch config history arrival key
run_tunnel-Resumed show as_bytes variable launch config injective history arrival key e =
    let table = table_after show as_bytes variable launch config history in
    let (request, read, handed) =
      run_tunnel-attached show as_bytes variable launch config arrival table key e in
    let shown =
      resume_tunnel-Admitted as_bytes injective table arrival.sending request key handed in
    record {
      request = request;
      read = read;
      resume = shown.resume;
      asked = shown.asked;
      named = shown.same_key;
      entry = shown.entry;
      lives =
          table_after-Lives show as_bytes variable launch config history key shown.entry
            shown.found;
      same_agent = shown.same_agent;
      same_workspace = shown.same_workspace;
      same_token = shown.same_token;
    }
