-- ===== src/Server/Session/Ending.antt =====
-- src/server.rs: what `run_agent_session` does after its loop. How the agent is reaped, gracefully
-- or not, is an argument; so is what becomes of the last commands.
pub mod Concluded
use acp_tunnel.Common.{
  String, ◌≡◌, ◌≢◌, ◌↔◌, refl, inl, inr, ◌⊎◌, Bool, true, false, eq_iff, different, append_assoc,
  Option-cases, ◌&&◌, ◌||◌, not, Option, none, some, List, [], ◌∷◌, ◌++◌, str_eq, format,
  if◌then◌else◌, ◌==◌, arith, Bool-cases,
}
use acp_tunnel.Fault.{Error, Result, ok, err, ◌>>=◌, >>=-eq-ok}
use acp_tunnel.Protocol.{Envelope}
use acp_tunnel.Process.{ExitStatus}
use acp_tunnel.Server.Transport.{TransportCommand, envelope, TransportHandle, send, push}
use acp_tunnel.Server.Session.{Session}
use acp_tunnel.Server.Session.Events.{
  Delivery, admission, await_reply, exit_envelope, send_and_wait, send_exit,
}

pub data Reaping : Type 0 where
  graceful terminated : Reaping

pub record Ended : Type 0 where
  pub status : ExitStatus
  pub stdin_open : Bool
  pub transport : Option TransportHandle
  pub verdict : Result (Unit {0})

abbrev pub reaping : String → Reaping
reaping category = if str_eq category "client_shutdown" then graceful else terminated

-- Before a graceful end the agent's standard input is flushed and closed.
unfoldable pub stdin_left : String → Session → Bool
stdin_left category s = if str_eq category "client_shutdown" then false else s.stdin_open

-- The agent is reaped, with its standard input open or not, unless it has exited already.
unfoldable pub final_status :
    (Bool → Reaping → Result ExitStatus) → String → Session → Result ExitStatus
unfolding stdin_left
final_status reap category s = elim s.child_status [
  | none ↦ reap (stdin_left category s) (reaping category)
  | some status ↦ ok status
]

abbrev pub completion : ExitStatus → TransportCommand
completion status =
    TransportCommand.shutdown_complete (Envelope.shutdown_complete status.code status.signal)

unfoldable pub send_shutdown_complete :
    Delivery → ExitStatus → TransportHandle → TransportHandle × Bool
unfolding send_and_wait
send_shutdown_complete d status h = send_and_wait d (completion status) h

abbrev pub ended_error : String → TransportCommand
ended_error category =
    envelope (Envelope.error category (format ("tunnel ended: " ∷ category ∷ [])))

abbrev pub offer_error : String → TransportHandle → TransportHandle
offer_error category h = elim (send (ended_error category) h) [ none ↦ h | some h' ↦ h' ]

abbrev pub is_quiet : String → Bool
is_quiet category = str_eq category "client_close" || str_eq category "reconnect_timeout"

unfoldable pub last_commands :
    Delivery → ExitStatus → String → Bool → TransportHandle → TransportHandle
unfolding send_shutdown_complete send_exit
last_commands d status category exit_was_sent h =
    if str_eq category "client_shutdown"
    then (send_shutdown_complete d status h).0
    else if not exit_was_sent && not (is_quiet category)
    then (send_exit d status (offer_error category h)).0
    else h

abbrev pub is_success : ExitStatus → Bool
is_success status = elim status.code [ none ↦ false | some n ↦ n == 0 ]

abbrev pub failure : String → Error
failure category =
    if str_eq category "server_shutdown"
    then Error.network "server is shutting down"
    else if str_eq category "reconnect_timeout"
    then Error.timeout "waiting for client reconnect"
    else Error.network (format ("tunnel ended: " ∷ category ∷ []))

unfoldable pub verdict_of : String → ExitStatus → Result (Unit {0})
verdict_of category status =
    if str_eq category "child_exit" && is_success status || str_eq category "client_shutdown"
    then ok tt
    else err (failure category)

abbrev pub final_transport : Delivery → ExitStatus → String → Session → Option TransportHandle
final_transport d status category s = elim s.transport [
  | none ↦ none
  | some h ↦ some (last_commands d status category s.exit_was_sent h)
]

unfoldable pub conclude :
    (Bool → Reaping → Result ExitStatus) → Delivery → String → Session → Result Ended
unfolding final_status last_commands verdict_of stdin_left
conclude reap d category s = do
  status ← final_status reap category s
  ok (record {
    status = status;
    stdin_open = stdin_left category s;
    transport = final_transport d status category s;
    verdict = verdict_of category status;
  })
