-- ===== src/Server/Socket.antt =====
-- src/server.rs: `spawn_transport`, the task that moves commands to a WebSocket and messages from it.
--
-- A turn is what `select!` found ready. Which messages the socket takes and which events the channel has
-- room for are arguments, as are the texts of envelopes. The messages written, the events told and the
-- one-shot replies sent are kept in order, each under the envelope that waits for it.
pub mod Asked
pub mod Commands
pub mod Written
use acp_tunnel.Common.{
  ℕ, String, Bool, true, false, ◌||◌, not, Option, none, some, List, [], ◌∷◌, ◌++◌, length,
  if◌then◌else◌,
}
use acp_tunnel.Fault.{Result, ok, err}
use acp_tunnel.Files.{Answer, answered, failed}
use acp_tunnel.Protocol.{Envelope}
use acp_tunnel.Server.Transport.{TransportCommand, envelope, exit, shutdown_complete}
use acp_tunnel.Server.Session.Events.{
  TransportEvent, TransportEventKind, activity, writable, disconnected, closed, invalid_envelope,
}

pub data Message : Type 0 where
  text : String → Message
  ping pong binary : List ℕ → Message
  close : Message

-- A command, or none if the session has dropped the channel; or a message, an error or the end, and
-- whether the session still takes the event that it becomes.
pub data Turn : Type 0 where
  command : Option TransportCommand → Turn
  received : Option (Answer Message) → Bool → Turn

pub record Task : Type 0 where
  pub generation : ℕ
  pub written : List Message
  pub events : List TransportEvent
  pub replied : List Envelope
  pub running : Bool

abbrev pub spawned : ℕ → Task
spawned generation = record {
  generation = generation;
  written = [];
  events = [];
  replied = [];
  running = true;
}

abbrev pub stop : Task → Task
stop task = record task { running = false }

-- `sent.send(())`
abbrev pub reply : Option Envelope → Task → Task
reply none task = task
reply (some e) task = record task { replied = task.replied ++ e ∷ [] }

abbrev pub tell : TransportEventKind → Task → Task
tell kind task = record task {
  events = task.events ++ record { generation = task.generation; kind = kind } ∷ [];
}

abbrev pub is_terminal : TransportEventKind → Bool
is_terminal disconnected = true
is_terminal closed = true
is_terminal invalid_envelope = true
is_terminal _ = false

module _ (to_text : Envelope → Option String) (from_text : String → Result Envelope)
    (takes : ℕ → Bool) (room : ℕ → Bool) where
  -- `events.try_send`: an event that finds no room is lost.
  abbrev pub try_tell : TransportEventKind → Task → Task
  try_tell kind task = if room (length task.events) then tell kind task else task

  -- `socket.send`: the task, and whether the socket took the message.
  unfoldable pub write : Message → Task → Task × Bool
  write m task =
      if takes (length task.written)
      then (record task { written = task.written ++ m ∷ [] }, true)
      else (task, false)

  -- A message was written, or not; a one-shot reply may wait for it.
  unfoldable pub after_write : Option Envelope → Task × Bool → Task
  after_write sent (task, false) = stop (try_tell disconnected task)
  after_write sent (task, true) = try_tell writable (reply sent task)

  unfoldable pub complete : Envelope → Task × Bool → Task
  unfolding write
  complete e (task, false) = stop task
  complete e (task, true) = stop (reply (some e) (write close task).0)

  unfoldable pub take_command : Option TransportCommand → Task → Task
  unfolding write after_write complete
  take_command none task = stop (write close task).0
  take_command (some (envelope e)) task = elim (to_text e) [
    | none ↦ stop (try_tell invalid_envelope task)
    | some s ↦ after_write none (write (text s) task)
  ]
  take_command (some (exit e)) task = elim (to_text e) [
    | none ↦ stop task
    | some s ↦ after_write (some e) (write (text s) task)
  ]
  take_command (some (shutdown_complete e)) task = elim (to_text e) [
    | none ↦ stop task
    | some s ↦ complete e (write (text s) task)
  ]

  abbrev pub parsed : Result Envelope → TransportEventKind
  parsed (ok e) = TransportEventKind.message e
  parsed (err _) = invalid_envelope

  abbrev pub after_pong : Task × Bool → Task × TransportEventKind
  after_pong (task, true) = (task, activity)
  after_pong (task, false) = (task, disconnected)

  unfoldable pub judge : Option (Answer Message) → Task → Task × TransportEventKind
  unfolding write
  judge none task = (task, disconnected)
  judge (some (failed _)) task = (task, disconnected)
  judge (some (answered (text s))) task = (task, parsed (from_text s))
  judge (some (answered (ping payload))) task = after_pong (write (pong payload) task)
  judge (some (answered (pong _))) task = (task, activity)
  judge (some (answered close)) task = (task, closed)
  judge (some (answered (binary _))) task = (task, invalid_envelope)

  unfoldable pub take_message : Option (Answer Message) → Bool → Task → Task
  unfolding judge
  take_message m heard task =
      let (after, kind) = judge m task in
      let there = if heard then tell kind after else after in
      if not heard || is_terminal kind then stop there else there

  unfoldable pub turn : Turn → Task → Task
  unfolding take_command take_message
  turn (command c) task = take_command c task
  turn (received m heard) task = take_message m heard task

  -- The loop, as far as the script of its turns goes.
  unfoldable pub run : Task → List Turn → Task
  unfolding turn
  run task [] = task
  run task (t ∷ turns) = let rest = run (turn t task) turns in if task.running then rest else task
