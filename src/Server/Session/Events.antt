-- ===== src/Server/Session/Events.antt =====
-- src/server.rs: the loop of `run_agent_session`. One round pumps the replay buffer and offers the
-- exit status (`prepare`), then takes the event that `select!` found ready (`select`).
use acp_tunnel.Common.{
  ℕ, ◌+◌, String, Bool, true, false, ◌&&◌, Option, none, some, List, ltb, leb, ◌==◌, if◌then◌else◌,
  checked_add, checked_sub, saturating_add, saturating_sub, is_none, is_some, length, all,
}
use acp_tunnel.Fault.{Error, Result, ok, err, ◌>>=◌, ok_or}
use acp_tunnel.Config.{ServerConfig}
use acp_tunnel.Policy.{PolicyOutcome}
use acp_tunnel.Protocol.{Envelope, ack, client_to_server, ping, stderr, tunnel_version}
use acp_tunnel.Process.{ExitStatus}
use acp_tunnel.Server.Replay.{ReplayFrame, queue_server_frame}
use acp_tunnel.Server.Transport.{
  TransportHandle, TransportCommand, envelope, Fate, sent, push, try_send, pump_frames,
  attach_transport,
}
use acp_tunnel.Server.Session.{Session, finish, fetch_add, handle_client_envelope}

pub data TransportEventKind : Type 0 where
  message : Envelope → TransportEventKind
  activity writable disconnected closed invalid_envelope : TransportEventKind

pub record TransportEvent : Type 0 where
  pub generation : ℕ
  pub kind : TransportEventKind

pub data AgentEvent : Type 0 where
  line : String → AgentEvent
  stdout_error stdout_closed : AgentEvent

-- A channel that is closed yields `none`.
pub data Event : Type 0 where
  child_exit : Result ExitStatus → Event
  attachment : Option Fate → Event
  server_shutdown : Event
  keepalive_tick : String → Event
  transport_event : Option TransportEvent → Event
  agent_output : Option AgentEvent → Event
  diagnostic : Option String → Event
  deadline_reached : Event

-- What becomes of a command that waits for its one-shot reply: the channel refuses it or stays
-- full, the reply does not come in time, the command is written, or its task goes and drops it.
pub data Delivery : Type 0 where
  refused stalled unanswered written dropped : Delivery

-- `timeout(..., commands.send(..))`: elapsed, or whether the channel took the command.
abbrev pub admission : Delivery → Option Bool
admission refused = some false
admission stalled = none
admission _ = some true

-- `timeout(..., sent_rx)`: elapsed, or whether the sender sent before it was dropped.
abbrev pub answer : Delivery → Option Bool
answer written = some true
answer dropped = some false
answer _ = none

-- A command that the channel has not taken is not waited for.
abbrev pub after_send :
    Option Bool → Bool → TransportCommand → TransportHandle → TransportHandle × Bool
after_send (some true) in_time c h = (push c h, in_time)
after_send _ in_time c h = (h, false)

-- `send_exit` and `send_shutdown_complete`: `is_ok` asks only whether the one-shot was answered or
-- dropped in time, not which of the two. The handle, and the value that is returned.
unfoldable pub await_reply : Delivery → TransportCommand → TransportHandle → TransportHandle × Bool
await_reply d c h = after_send (admission d) (is_some (answer d)) c h

-- A channel whose task is gone refuses the command.
unfoldable pub send_and_wait :
    Delivery → TransportCommand → TransportHandle → TransportHandle × Bool
unfolding await_reply
send_and_wait d c h = if h.closed then (h, false) else await_reply d c h

abbrev pub exit_envelope : ExitStatus → Envelope
exit_envelope status = Envelope.exit status.code status.signal

unfoldable pub send_exit : Delivery → ExitStatus → TransportHandle → TransportHandle × Bool
unfolding send_and_wait
send_exit d status h = send_and_wait d (TransportCommand.exit (exit_envelope status)) h

module _ (config : ServerConfig) where
  unfoldable pub detach_transport : ℕ → Session → Session
  detach_transport now s = record s {
    transport = none;
    detached_deadline = elim s.detached_deadline [
      | none ↦ some (now + config.reconnect_grace_seconds)
      | some deadline ↦ some deadline
    ];
  }

  unfoldable pub pump : ℕ → Session → Session
  unfolding detach_transport
  pump now s = elim s.transport [
    | none ↦ s
    | some h ↦
        let (pending, h', live) = pump_frames h s.replay.pending in
        let s' = record s {
          replay = record (s.replay) { pending = pending };
          transport = some h';
        } in
        if live then s' else detach_transport now s'
  ]

  abbrev pub all_enqueued : TransportHandle → List ReplayFrame → Bool
  all_enqueued h = all (λ f. f.last_sent_generation == h.generation)

  unfoldable pub after_exit : ℕ → TransportHandle × Bool → Session → Session
  unfolding detach_transport
  after_exit now (h, true) s =
      finish "child_exit" (record s { transport = some h; exit_was_sent = true })
  after_exit now (h, false) s = detach_transport now (record s { transport = some h })

  unfoldable pub offer_exit_to : ℕ → Delivery → ExitStatus → TransportHandle → Session → Session
  unfolding after_exit send_exit
  offer_exit_to now d status h s =
      if all_enqueued h s.replay.pending then after_exit now (send_exit d status h) s else s

  unfoldable pub offer_exit : ℕ → Delivery → Session → Session
  unfolding offer_exit_to
  offer_exit now d s = elim s.child_status [
    | none ↦ s
    | some status ↦ elim s.transport [ none ↦ s | some h ↦ offer_exit_to now d status h s ]
  ]

  -- The part of a round before `select!`.
  unfoldable pub prepare : ℕ → Delivery → Session → Session
  unfolding pump offer_exit
  prepare now d s = offer_exit now d (pump now s)

  unfoldable pub can_read_agent : Session → Bool
  can_read_agent s =
      is_none s.child_status
      && ltb (length s.replay.pending) config.max_replay_frames
      && leb s.replay.pending_bytes (saturating_sub config.max_replay_bytes config.max_frame_bytes)

  -- The guards of the branches of `select!`.
  unfoldable pub enabled : Session → Event → Bool
  unfolding can_read_agent
  enabled s (child_exit _) = is_none s.child_status
  enabled s (agent_output _) = can_read_agent s
  enabled s deadline_reached = is_some s.detached_deadline
  enabled s _ = true

  abbrev pub ready_envelope : String → String → Bool → Envelope
  ready_envelope connection_id resume_token resumed =
      Envelope.ready tunnel_version connection_id (some resume_token) resumed

  abbrev pub resume_ack : ℕ → Option Envelope
  resume_ack expected = elim (checked_sub expected 1) [
    | none ↦ none
    | some sequence ↦ some (ack client_to_server sequence)
  ]

  -- What a resumed socket's setup leaves behind.
  unfoldable pub take_attached : ℕ → List ReplayFrame × Result TransportHandle → Session → Session
  take_attached now (pending, ok h) s = record s {
    replay = record (s.replay) { pending = pending };
    transport = some h;
    detached_deadline = none;
    last_received = now;
    resumed_count = saturating_add s.resumed_count 1;
  }
  take_attached now (pending, err _) s = record s {
    replay = record (s.replay) { pending = pending };
    transport = none;
  }

  unfoldable pub attach : String → String → ℕ → Fate → Session → Result Session
  unfolding take_attached
  attach connection_id resume_token now fate s = do
    generation ←
        ok_or (checked_add s.generation 1) (Error.protocol "transport generation exhausted")
    ok (
        take_attached now
          (attach_transport generation config.channel_capacity
            (ready_envelope connection_id resume_token true) (resume_ack s.expected_client_sequence)
            fate s.replay.pending)
          (record s { generation = generation; transport = none }))

  unfoldable pub keepalive : ℕ → String → Session → Session
  unfolding detach_transport
  keepalive now nonce s = elim s.transport [
    | none ↦ s
    | some h ↦
        if ltb config.keepalive_timeout_seconds (saturating_sub now s.last_received)
        then detach_transport now s
        else elim (try_send (envelope (ping nonce)) h) [
          | sent h' ↦ record s { transport = some h' }
          | _ ↦ s
        ]
  ]

  unfoldable pub forward_diagnostic : String → Session → Session
  forward_diagnostic payload s = elim s.transport [
    | none ↦ s
    | some h ↦ elim (try_send (envelope (stderr payload)) h) [
      | sent h' ↦ record s { transport = some h' }
      | _ ↦ record s {
        counters = record (s.counters) {
          dropped_stderr_frames = fetch_add s.counters.dropped_stderr_frames 1;
        };
      }
    ]
  ]

  unfoldable pub take_agent_event : AgentEvent → Session → Result Session
  take_agent_event (line payload) s = do
    replay ← queue_server_frame payload s.replay
    ok (record s { replay = replay })
  take_agent_event stdout_error s = ok (finish "agent_stdout_line" s)
  take_agent_event stdout_closed s = ok s

  -- A shutdown request takes the session out of the table and ends it.
  unfoldable pub after_envelope : Session → Session
  after_envelope s =
      if is_some s.shutdown_reason
      then finish "client_shutdown" (record s { resumable = false })
      else s

  -- An event of an older transport is dropped.
  abbrev pub is_current : ℕ → Option TransportHandle → Bool
  is_current g none = false
  is_current g (some h) = h.generation == g

  module _ (apply : String → Result PolicyOutcome) where
    unfoldable pub take_transport_event : ℕ → TransportEventKind → Session → Result Session
    unfolding detach_transport after_envelope
    take_transport_event now (message e) s = do
      s' ← handle_client_envelope config apply e (record s { last_received = now })
      ok (after_envelope s')
    take_transport_event now activity s = ok (record s { last_received = now })
    take_transport_event now writable s = ok s
    take_transport_event now disconnected s = ok (detach_transport now s)
    take_transport_event now closed s = ok (detach_transport now s)
    take_transport_event now invalid_envelope s = ok (finish "invalid_envelope" s)

    -- The branch of `select!` that runs.
    unfoldable pub select : String → String → ℕ → Event → Session → Result Session
    unfolding take_transport_event attach keepalive forward_diagnostic take_agent_event
    select cid token now (child_exit (ok status)) s = ok (record s { child_status = some status })
    select cid token now (child_exit (err e)) s = err e
    select cid token now (attachment none) s = ok s
    select cid token now (attachment (some fate)) s = attach cid token now fate s
    select cid token now server_shutdown s = ok (finish "server_shutdown" s)
    select cid token now (keepalive_tick nonce) s = ok (keepalive now nonce s)
    select cid token now (transport_event none) s = ok (finish "transport_task_stopped" s)
    select cid token now (transport_event (some e)) s =
        if is_current e.generation s.transport then take_transport_event now e.kind s else ok s
    select cid token now (agent_output none) s = ok s
    select cid token now (agent_output (some e)) s = take_agent_event e s
    select cid token now (diagnostic none) s = ok s
    select cid token now (diagnostic (some payload)) s = ok (forward_diagnostic payload s)
    select cid token now deadline_reached s = ok (finish "reconnect_timeout" s)
