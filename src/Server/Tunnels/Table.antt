-- ===== src/Server/Tunnels/Table.antt =====
-- Where the sessions in the table come from.
use acp_tunnel.Common.{
  ℕ, String, ◌≡◌, ◌≢◌, refl, sym, ◌⊎◌, inl, inr, Option, none, some, List, [], ◌∷◌, get, get-insert,
  get-remove, str_eq, eq_iff, arith, Bool-cases, Option-cases,
}
use acp_tunnel.Fault.{Error, Result}
use acp_tunnel.Config.{ServerConfig}
use acp_tunnel.Protocol.{OpenRequest}
use acp_tunnel.Server.Opening.{
  Step, done, told, silent, read_open, Launch, Prepared, prepare_agent, ResumeEntry, register,
}
use acp_tunnel.Server.Opening.Admission.{Entitled, prepare_agent-Entitled}
use acp_tunnel.Server.Tunnels.{
  Arrival, Event, arrives, ends, Table, open_session, serve_request, run_tunnel, table_after,
}

pub Step-cases :
    {A : Type 0} (s : Step A)
    → ((a : A) × (s ≡ done a))
      ⊎ ((e : Error) × (((code : String) × (s ≡ told code e)) ⊎ (s ≡ silent e)))
Step-cases (done a) = inl (a, refl)
Step-cases (told code e) = inr (e, inl (code, refl))
Step-cases (silent e) = inr (e, inr refl)

some-injective : {A : Type 0} (a b : A) → some a ≡ some b → a ≡ b
some-injective a b e = cc

module _ {process : Type 0} (show : ℕ → String) (as_bytes : String → List ℕ)
    (variable : String → Option String) (launch : Launch → Result process)
    (config : ServerConfig) where
  -- A socket that opened a session under a key: its request was entitled to the agent that was started,
  -- and the entry is what the request asked for, under the token that was made for it.
  pub record Opens (arrival : Arrival) (key : String) (entry : ResumeEntry) : Type 0 where
    pub request : OpenRequest
    pub read : read_open show arrival.first ≡ done request
    pub fresh : request.resume ≡ none
    pub agent : Prepared process
    pub entitled : Entitled variable launch config request agent
    pub same_key : arrival.connection_id ≡ key
    pub same_entry : entry ≡ record {
      resume_token = arrival.resume_token;
      agent = request.agent;
      workspace = request.workspace;
    }

  -- The session under a key was opened, and has not ended since.
  abbrev pub Lives : List Event → String → ResumeEntry → Type 0
  Lives [] key entry = ⊥
  Lives (arrives arrival ∷ history) key entry = Opens arrival key entry ⊎ Lives history key entry
  Lives (ends k ∷ history) key entry = (k ≢ key) × Lives history key entry

  registered-get :
      (arrival : Arrival) (request : OpenRequest) (table : Table) (key : String)
      (entry : ResumeEntry) (p : Prepared process)
      → read_open show arrival.first ≡ done request
      → request.resume ≡ none
      → prepare_agent variable launch config request ≡ done p
      → get key (register arrival.connection_id arrival.resume_token request table) ≡ some entry
      → Opens arrival key entry ⊎ (get key table ≡ some entry)
  registered-get arrival request table key entry p read fresh prepared e =
      let own : ResumeEntry = record {
        resume_token = arrival.resume_token;
        agent = request.agent;
        workspace = request.workspace;
      } in
      elim (Bool-cases (str_eq arrival.connection_id key)) [
        | inr other ↦ inr (ground (arith, get-insert key arrival.connection_id own table, other, e))
        | inl same ↦
            let stored : some own ≡ some entry =
              ground (arith, get-insert key arrival.connection_id own table, same, e) in
            inl (record {
              request = request;
              read = read;
              fresh = fresh;
              agent = p;
              entitled = prepare_agent-Entitled variable launch config request p prepared;
              same_key = (eq_iff arrival.connection_id key).0 same;
              same_entry = sym (some-injective own entry stored);
            })
      ]

  serve_request-get :
      (arrival : Arrival) (request : OpenRequest) (table : Table) (key : String)
      (entry : ResumeEntry)
      → read_open show arrival.first ≡ done request
      → get key (serve_request show as_bytes variable launch config arrival request table).1
        ≡ some entry
      → Opens arrival key entry ⊎ (get key table ≡ some entry)
  unfolding serve_request open_session
  serve_request-get arrival request table key entry read e = elim (Option-cases request.resume) [
    | inr (resume, asked) ↦ inr (rw (asked, serve_request) at e)
    | inl fresh ↦ elim (Step-cases (prepare_agent variable launch config request)) [
      | inr (m, inl (code, stopped)) ↦ inr (rw (fresh, stopped, serve_request, open_session) at e)
      | inr (m, inr stopped) ↦ inr (rw (fresh, stopped, serve_request, open_session) at e)
      | inl (p, prepared) ↦
          registered-get arrival request table key entry p read fresh prepared
            (rw (fresh, prepared, serve_request, open_session) at e)
    ]
  ]

  run_tunnel-get :
      (arrival : Arrival) (table : Table) (key : String) (entry : ResumeEntry)
      → get key (run_tunnel show as_bytes variable launch config arrival table).1 ≡ some entry
      → Opens arrival key entry ⊎ (get key table ≡ some entry)
  unfolding run_tunnel
  run_tunnel-get arrival table key entry e = elim (Step-cases (read_open show arrival.first)) [
    | inr (m, inl (code, stopped)) ↦ inr (rw (stopped, run_tunnel) at e)
    | inr (m, inr stopped) ↦ inr (rw (stopped, run_tunnel) at e)
    | inl (request, read) ↦
        serve_request-get arrival request table key entry read (rw (read, run_tunnel) at e)
  ]

  -- Every session in the table is one that lives.
  pub table_after-Lives :
      (history : List Event) (key : String) (entry : ResumeEntry)
      → get key (table_after show as_bytes variable launch config history) ≡ some entry
      → Lives history key entry
  unfolding table_after get
  table_after-Lives [] key entry e = cc
  table_after-Lives (arrives arrival ∷ history) key entry e =
      let table = table_after show as_bytes variable launch config history in
      elim (run_tunnel-get arrival table key entry e) [
        | inl opened ↦ inl opened
        | inr there ↦ inr (table_after-Lives history key entry there)
      ]
  table_after-Lives (ends k ∷ history) key entry e =
      let table = table_after show as_bytes variable launch config history in
      elim (Bool-cases (str_eq k key)) [
        | inl same ↦ absurd (ground (arith, get-remove key k table, same, e))
        | inr other ↦ (
          (λ q. ground (arith, eq_iff k key, q, other)),
          table_after-Lives history key entry (ground (arith, get-remove key k table, other, e)),
        )
      ]
