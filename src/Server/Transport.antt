-- ===== src/Server/Transport.antt =====
-- src/server.rs: one attached WebSocket, seen from the session: the bounded command channel, the
-- setup of a new transport and the pump that replays frames into it.
--
-- A handle keeps every command that was put into the channel, oldest first, and how many the
-- transport task has received. `send(..).await` waits until the task has made room; `try_send`
-- does not wait. A task that is gone has closed its end of the channel.
pub mod Pump
pub mod Attach
use acp_tunnel.Common.{
  ℕ, zero, suc, ◌+◌, ◌-◌, max, String, ◌≡◌, Bool, true, false, Option, none, some, List, [], ◌∷◌,
  ◌++◌, ltb, ◌==◌, if◌then◌else◌, length,
}
use acp_tunnel.Fault.{Error, Result, ok, err}
use acp_tunnel.Protocol.{Envelope, acp}
use acp_tunnel.Server.Replay.{ReplayFrame}

-- The one-shot senders of the last two stand in the session's own steps.
pub data TransportCommand : Type 0 where
  envelope : Envelope → TransportCommand
  exit : Envelope → TransportCommand
  shutdown_complete : Envelope → TransportCommand

pub record TransportHandle : Type 0 where
  pub generation : ℕ
  pub capacity : ℕ
  pub commands : List TransportCommand
  pub taken : ℕ
  pub closed : Bool

abbrev pub fresh : ℕ → ℕ → TransportHandle
fresh generation capacity = record {
  generation = generation;
  capacity = capacity;
  commands = [];
  taken = 0;
  closed = false;
}

-- The command is in the channel, once the task has made room for it.
abbrev pub push : TransportCommand → TransportHandle → TransportHandle
push c h = record h {
  commands = h.commands ++ c ∷ [];
  taken = max h.taken (length h.commands + 1 - h.capacity);
}

-- `commands.send(c).await`
unfoldable pub send : TransportCommand → TransportHandle → Option TransportHandle
send c h = if h.closed then none else some (push c h)

pub data TrySend : Type 0 where
  sent : TransportHandle → TrySend
  is_full is_closed : TrySend

-- `commands.try_send(c)`
unfoldable pub try_send : TransportCommand → TransportHandle → TrySend
try_send c h =
    if h.closed
    then is_closed
    else if ltb (length h.commands - h.taken) h.capacity
    then sent (push c h)
    else is_full

abbrev pub frame_command : ReplayFrame → TransportCommand
frame_command f = envelope (acp (some f.sequence) f.payload)

-- The loop of `pump_replay`: the frames with their marks, the handle, and whether the channel
-- is still open.
unfoldable pub pump_frames :
    TransportHandle → List ReplayFrame → List ReplayFrame × TransportHandle × Bool
unfolding try_send
pump_frames h [] = ([], h, true)
pump_frames h (f ∷ fs) = elim (f.last_sent_generation == h.generation) [
  | true ↦ let (rest, h', live) = pump_frames h fs in (f ∷ rest, h', live)
  | false ↦ elim (try_send (frame_command f) h) [
    | sent h' ↦
        let (rest, h'', live) = pump_frames h' fs in
        (record f { last_sent_generation = h.generation } ∷ rest, h'', live)
    | is_full ↦ (f ∷ fs, h, true)
    | is_closed ↦ (f ∷ fs, h, false)
  ]
]

-- What becomes of the setup of a transport: the number of commands that its task accepts, if it
-- stops or stalls before the end, and whether the setup timeout then ends the wait.
pub record Fate : Type 0 where
  pub accepts : Option ℕ
  pub expires : Bool

-- One awaited send of the setup.
unfoldable pub setup_send :
    Option ℕ → TransportCommand → TransportHandle → Option (Option ℕ × TransportHandle)
setup_send Option.none c h = some (none, push c h)
setup_send (some zero) c h = none
setup_send (some (suc n)) c h = some (some n, push c h)

unfoldable pub setup_ack :
    Option ℕ → Option Envelope → TransportHandle → Option (Option ℕ × TransportHandle)
setup_ack budget none h = some (budget, h)
setup_ack budget (some e) h = setup_send budget (envelope e) h

unfoldable pub replay_frames :
    Option ℕ → TransportHandle → List ReplayFrame → List ReplayFrame × Option TransportHandle
unfolding setup_send
replay_frames budget h [] = ([], some h)
replay_frames budget h (f ∷ fs) = elim (setup_send budget (frame_command f) h) [
  | none ↦ (f ∷ fs, none)
  | some (budget', h') ↦
      let (rest, done) = replay_frames budget' h' fs in
      (record f { last_sent_generation = h.generation } ∷ rest, done)
]

abbrev pub stopped : Fate → String → Error
stopped fate message =
    if fate.expires then Error.timeout "preparing resumed transport" else Error.network message

abbrev pub attached : Fate → Option TransportHandle → Result TransportHandle
attached fate none = err (stopped fate "transport stopped during replay")
attached fate (some h) = ok h

unfoldable pub attach_transport :
    ℕ
    → ℕ
    → Envelope
    → Option Envelope
    → Fate
    → List ReplayFrame
    → List ReplayFrame × Result TransportHandle
unfolding setup_send setup_ack replay_frames
attach_transport generation capacity ready_message client_ack fate pending =
    elim (setup_send fate.accepts (envelope ready_message) (fresh generation capacity)) [
      | none ↦ (pending, err (stopped fate "transport stopped before ready"))
      | some (budget, h) ↦ elim (setup_ack budget client_ack h) [
        | none ↦ (pending, err (stopped fate "transport stopped before resume acknowledgement"))
        | some (budget', h') ↦
            let (frames, done) = replay_frames budget' h' pending in (frames, attached fate done)
      ]
    ]
