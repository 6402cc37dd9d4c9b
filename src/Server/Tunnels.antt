-- ===== src/Server/Tunnels.antt =====
-- src/server.rs: `run_tunnel`, one socket from its first message to a session, on the table of sessions
-- that all sockets share.
--
-- What a socket brings is a record: its first message, the random identifier and token that it would get,
-- and what becomes of it if it is sent to a session. The table changes where a session is registered and
-- where it ends; the history of the server is the list of these events, the newest first.
pub mod Table
pub mod Resumed
use acp_tunnel.Common.{ℕ, String, Option, none, some, List, [], ◌∷◌, Dict}
use acp_tunnel.Fault.{Error, Result}
use acp_tunnel.Config.{ServerConfig}
use acp_tunnel.Protocol.{OpenRequest}
use acp_tunnel.Server.Opening.{
  First, Step, done, told, silent, read_open, Launch, Prepared, prepare_agent, ResumeEntry, Sending,
  resume_tunnel, register, unregister,
}

pub record Arrival : Type 0 where
  pub first : First
  pub connection_id : String
  pub resume_token : String
  pub sending : Sending

-- A session begins under a key, a socket goes to the session under a key, or it is turned away.
pub data Outcome (process : Type 0) : Type 0 where
  began : String → Prepared process → Outcome process
  attached : String → Outcome process
  turned_away : Error → Outcome process

pub data Event : Type 0 where
  arrives : Arrival → Event
  ends : String → Event

abbrev pub Table : Type 0
Table = Dict ResumeEntry

module _ {process : Type 0} (show : ℕ → String) (as_bytes : String → List ℕ)
    (variable : String → Option String) (launch : Launch → Result process)
    (config : ServerConfig) where
  abbrev pub after_resume : Step String → Outcome process
  after_resume (done key) = attached key
  after_resume (told code e) = turned_away e
  after_resume (silent e) = turned_away e

  -- An agent was prepared: the session is registered, for as long as it runs.
  unfoldable pub open_session :
      Arrival → OpenRequest → Table → Step (Prepared process) → Outcome process × Table
  open_session arrival request table (done p) = (
    began arrival.connection_id p,
    register arrival.connection_id arrival.resume_token request table,
  )
  open_session arrival request table (told code e) = (turned_away e, table)
  open_session arrival request table (silent e) = (turned_away e, table)

  unfoldable pub serve_request : Arrival → OpenRequest → Table → Outcome process × Table
  unfolding open_session
  serve_request arrival request table = elim request.resume [
    | some _ ↦ (after_resume (resume_tunnel as_bytes table arrival.sending request), table)
    | none ↦ open_session arrival request table (prepare_agent variable launch config request)
  ]

  unfoldable pub run_tunnel : Arrival → Table → Outcome process × Table
  unfolding serve_request
  run_tunnel arrival table = elim (read_open show arrival.first) [
    | done request ↦ serve_request arrival request table
    | told code e ↦ (turned_away e, table)
    | silent e ↦ (turned_away e, table)
  ]

  -- The table after a history.
  unfoldable pub table_after : List Event → Table
  unfolding run_tunnel
  table_after [] = []
  table_after (arrives arrival ∷ history) = (run_tunnel arrival (table_after history)).1
  table_after (ends key ∷ history) = unregister key (table_after history)
