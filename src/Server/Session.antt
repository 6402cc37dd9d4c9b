-- ===== src/Server/Session.antt =====
-- src/server.rs: the state of one agent session, and what it does with an envelope of the client.
-- The policy's `apply` is an argument; a line that is written to the agent is flushed.
pub mod Abstract
pub mod Envelopes
pub mod Events
pub mod Kept
pub mod Loop
pub mod Run
pub mod Wire
pub mod Carried
pub mod Honest
pub mod Select
pub mod Detached
pub mod Ending
use acp_tunnel.Common.{
  ℕ, ◌+◌, ◌%◌, ◌^◌, min, String, len, ◌≡◌, Bool, true, false, Option, none, some, List, [], ◌∷◌,
  ◌++◌, ltb, leb, if◌then◌else◌, u64_max, checked_add, checked_sub, is_none,
}
use acp_tunnel.Fault.{Error, Result, ok, err, ◌>>=◌, ok_or}
use acp_tunnel.Config.{ServerConfig}
use acp_tunnel.Policy.{PolicyOutcome, forward, reject}
use acp_tunnel.Process.{ExitStatus}
use acp_tunnel.Protocol.{
  Envelope, acp, ack, ping, pong, shutdown, client_to_server, server_to_client, ShutdownReason,
}
use acp_tunnel.Server.Replay.{Replay, replay_fits, queue_server_frame, acknowledge}
use acp_tunnel.Server.Transport.{TransportHandle, envelope, send}

pub record Counters : Type 0 where
  pub inbound_frames : ℕ
  pub inbound_bytes : ℕ
  pub dropped_stderr_frames : ℕ

-- A counter wraps around.
abbrev pub fetch_add : ℕ → ℕ → ℕ
fetch_add a b = (a + b) % 2 ^ 64

-- `agent_stdin` holds the lines written to the agent; `stdin_open` says whether its pipe still
-- takes them. `resumable` says whether the session stands in the table of sessions.
pub record Session : Type 0 where
  pub replay : Replay
  pub expected_client_sequence : ℕ
  pub counters : Counters
  pub transport : Option TransportHandle
  pub end_category : Option String
  pub shutdown_reason : Option ShutdownReason
  pub agent_stdin : List String
  pub stdin_open : Bool
  pub generation : ℕ
  pub detached_deadline : Option ℕ
  pub last_received : ℕ
  pub child_status : Option ExitStatus
  pub resumed_count : ℕ
  pub exit_was_sent : Bool
  pub resumable : Bool

abbrev pub finish : String → Session → Session
finish category s = record s { end_category = some category }

-- A command for the client, if one is attached; a transport that is gone is not told.
abbrev pub offer : Envelope → Option TransportHandle → Option TransportHandle
offer e none = none
offer e (some h) = elim (send (envelope e) h) [ none ↦ some h | some h' ↦ some h' ]

unfoldable pub send_client_ack : Option TransportHandle → ℕ → Option TransportHandle
send_client_ack transport expected = elim (checked_sub expected 1) [
  | none ↦ transport
  | some sequence ↦ offer (ack client_to_server sequence) transport
]

unfoldable pub write_line : String → Session → Result Session
write_line line s =
    if s.stdin_open
    then ok (record s { agent_stdin = s.agent_stdin ++ line ∷ [] })
    else err (Error.io "broken pipe")

unfoldable pub advance : Session → Result Session
unfolding send_client_ack
advance s = do
  expected ←
      ok_or (checked_add s.expected_client_sequence 1)
        (Error.protocol "client ACP sequence exhausted")
  ok (record s {
    expected_client_sequence = expected;
    transport = send_client_ack s.transport expected;
  })

unfoldable pub count_inbound : String → Session → Session
count_inbound payload s = record s {
  counters = record (s.counters) {
    inbound_frames = fetch_add s.counters.inbound_frames 1;
    inbound_bytes = fetch_add s.counters.inbound_bytes (min (len payload) u64_max);
  };
}

module _ (config : ServerConfig) (apply : String → Result PolicyOutcome) where
  unfoldable pub accept_line : PolicyOutcome → Session → Result Session
  unfolding write_line advance
  accept_line (forward line) s = do s' ← write_line line s; advance s'
  accept_line (reject line) s =
      if replay_fits config line s.replay
      then (queue_server_frame line s.replay >>= λ replay. advance (record s { replay = replay }))
      else ok (finish "replay_buffer_exhausted" s)

  unfoldable pub handle_frame : ℕ → String → Session → Result Session
  unfolding accept_line
  handle_frame sequence payload s =
      if ltb config.max_frame_bytes (len payload)
      then ok (finish "oversized_acp_line" s)
      else if ltb s.expected_client_sequence sequence
      then ok (finish "client_sequence_gap" s)
      else if ltb sequence s.expected_client_sequence
      then ok (record s { transport = send_client_ack s.transport s.expected_client_sequence })
      else (apply payload >>= λ outcome. accept_line outcome s)

  unfoldable pub handle_client_envelope : Envelope → Session → Result Session
  unfolding handle_frame count_inbound
  handle_client_envelope (acp (some sequence) payload) s =
      handle_frame sequence payload (count_inbound payload s)
  handle_client_envelope (acp none _) s = ok (finish "missing_sequence" s)
  handle_client_envelope (ack server_to_client sequence) s =
      if leb s.replay.next_sequence sequence
      then ok (finish "invalid_acknowledgement" s)
      else ok (record s { replay = acknowledge sequence s.replay })
  handle_client_envelope (ack client_to_server _) s = ok (finish "unexpected_acknowledgement" s)
  handle_client_envelope (ping nonce) s =
      ok (record s { transport = offer (pong nonce) s.transport })
  handle_client_envelope (pong _) s = ok s
  handle_client_envelope (shutdown reason) s =
      if is_none s.shutdown_reason then ok (record s { shutdown_reason = some reason }) else ok s
  handle_client_envelope _ s = ok (finish "unexpected_envelope" s)
