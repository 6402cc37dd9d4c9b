-- ===== src/Server/Session/Ending/Concluded.antt =====
-- What is left of a session that has ended with a transport: its status, what the client is told,
-- and its success.
use acp_tunnel.Common.{
  String, ◌≡◌, ◌≢◌, ◌↔◌, ◌⊎◌, Bool, true, false, eq_iff, none, some, List, [], ◌∷◌, ◌++◌, str_eq,
  format,
}
use acp_tunnel.Fault.{Result, ok}
use acp_tunnel.Protocol.{Envelope}
use acp_tunnel.Process.{ExitStatus}
use acp_tunnel.Server.Transport.{TransportCommand, envelope, TransportHandle}
use acp_tunnel.Server.Session.{Session}
use acp_tunnel.Server.Session.Ending.{Reaping, graceful, terminated, Ended}

-- What a session ends with: the status that the agent had already, or that of its reaping, which is
-- graceful, with its standard input closed, only where the client has asked for the end.
pub data FinalStatus (reap : Bool → Reaping → Result ExitStatus) (category : String) (s : Session)
    (status : ExitStatus) : Type 0 where
  exited : s.child_status ≡ some status → FinalStatus reap category s status
  stopped :
      s.child_status ≡ none
      → category ≡ "client_shutdown"
      → reap false graceful ≡ ok status
      → FinalStatus reap category s status
  killed :
      s.child_status ≡ none
      → category ≢ "client_shutdown"
      → reap s.stdin_open terminated ≡ ok status
      → FinalStatus reap category s status

-- What the channel gets last: the confirmation that the client has asked for; or, where the exit was
-- not sent and the client has not left, an error and the exit; or nothing.
pub data Farewell (category : String) (exit_was_sent : Bool) (status : ExitStatus)
    (old new : List TransportCommand) : Type 0 where
  confirmed :
      category ≡ "client_shutdown"
      → new
        ≡ old
          ++ TransportCommand.shutdown_complete
              (Envelope.shutdown_complete status.code status.signal)
            ∷ []
      → Farewell category exit_was_sent status old new
  announced :
      category ≢ "client_shutdown"
      → category ≢ "client_close"
      → category ≢ "reconnect_timeout"
      → exit_was_sent ≡ false
      → new
        ≡ old
          ++ envelope (Envelope.error category (format ("tunnel ended: " ∷ category ∷ [])))
            ∷ TransportCommand.exit (Envelope.exit status.code status.signal)
            ∷ []
      → Farewell category exit_was_sent status old new
  left_alone :
      category ≢ "client_shutdown"
      → (exit_was_sent ≡ true) ⊎ (category ≡ "client_close") ⊎ (category ≡ "reconnect_timeout")
      → new ≡ old
      → Farewell category exit_was_sent status old new

same_text : (a b : String) → str_eq a b ≡ true → a ≡ b
same_text a b e = (eq_iff a b).0 e

-- What is left of a session that has ended with a transport.
pub record Concluded (reap : Bool → Reaping → Result ExitStatus) (category : String) (s : Session)
    (h : TransportHandle) (end : Ended) : Type 0 where
  pub final : FinalStatus reap category s end.status
  pub left : TransportHandle
  pub attached : end.transport ≡ some left
  pub farewell : Farewell category s.exit_was_sent end.status h.commands left.commands
  pub success :
      (end.verdict ≡ ok tt)
      ↔ ((category ≡ "client_shutdown") ⊎ ((category ≡ "child_exit") × (end.status.code ≡ some 0)))
