-- ===== src/Client/Link.antt =====
-- src/client.rs: the loop of `connect_with_shutdown`, one branch of its `select!` at a time.
pub mod Refinement
pub mod Moves
pub mod Steps
pub mod Written
pub mod Honest
use acp_tunnel.Common.{
  ℕ, ◌+◌, ◌≤◌, String, len, ◌≡◌, Bool, true, false, ◌&&◌, Option, none, some, List, [], ◌∷◌, ◌++◌,
  ltb, leb, ◌==◌, if◌then◌else◌, length, checked_add, saturating_add, saturating_sub, format,
}
use acp_tunnel.Fault.{Error, Result, ok, err, ◌>>=◌, ◌>>◌, ok_or}
use acp_tunnel.Protocol.{
  ClientInfo, Envelope, acp, ack, client_to_server, server_to_client, ShutdownReason, stdin_eof,
}
use acp_tunnel.Client.Socket.{
  ConnectOptions, ResumeCredentials, PendingFrame, Socket, send, send_acp, Message, text, binary,
  Turn, reconnect,
}

-- The variables of the loop; `stdout` and `stderr` hold the lines written and flushed, and what
-- writing to either meets from now on, if it fails, stands beside them.
pub record Link : Type 0 where
  pub socket : Socket
  pub pending : List PendingFrame
  pub pending_bytes : ℕ
  pub next_client_sequence : ℕ
  pub expected_server_sequence : ℕ
  pub last_received : ℕ
  pub stdout : List String
  pub stderr : List String
  pub stdout_fails : Option Error
  pub stderr_fails : Option Error

abbrev pub connected : ℕ → Socket → Link
connected now socket = record {
  socket = socket;
  pending = [];
  pending_bytes = 0;
  next_client_sequence = 1;
  expected_server_sequence = 1;
  last_received = now;
  stdout = [];
  stderr = [];
  stdout_fails = none;
  stderr_fails = none;
}

-- What a branch comes to: the loop goes on, it returns, or it still reconnects.
pub data Outcome : Type 0 where
  running : Link → Outcome
  returned : Result (Unit {0}) → Outcome
  reconnecting : Outcome

pub data LinkEvent : Type 0 where
  -- A line of standard input, a read error, or its end.
  stdin_line : Option (Result String) → LinkEvent
  -- A message, an error of the socket, or the end of its stream.
  incoming : Option (Result Message) → LinkEvent
  keepalive_expired : LinkEvent
  shutdown_received : ShutdownReason → LinkEvent

infixl 5 ◌>>?◌
abbrev pub ◌>>?◌ {ℓ} : {A : Type ℓ} → Result A → (A → Outcome) → Outcome
ok a >>? f = f a
err e >>? f = returned (err e)

-- `while pending.front().is_some_and(|frame| frame.sequence <= sequence)`
abbrev pub drop_acknowledged : ℕ → List PendingFrame → ℕ → List PendingFrame × ℕ
drop_acknowledged sequence [] bytes = ([], bytes)
drop_acknowledged sequence (f ∷ fs) bytes =
    if leb f.sequence sequence
    then drop_acknowledged sequence fs (saturating_sub bytes (len f.payload))
    else (f ∷ fs, bytes)

unfoldable pub acknowledge : ℕ → Link → Link
acknowledge sequence l =
    let (pending, bytes) = drop_acknowledged sequence l.pending l.pending_bytes in
    record l { pending = pending; pending_bytes = bytes }

-- Takes a line into the replay buffer.
unfoldable pub queue_line : String → Link → Result (Link × PendingFrame)
queue_line line l = do
  next ←
      ok_or (checked_add l.next_client_sequence 1) (Error.protocol "client ACP sequence exhausted")
  let frame : PendingFrame = record { sequence = l.next_client_sequence; payload = line }
  ok (
    record l {
      pending = l.pending ++ frame ∷ [];
      pending_bytes = saturating_add l.pending_bytes (len line);
      next_client_sequence = next;
    },
    frame,
  )

-- Writes a line to an output and flushes it.
abbrev pub write_out : Option Error → Result (Unit {0})
write_out none = ok tt
write_out (some e) = err e

-- Writes the payload of the expected frame to standard output; an older frame is not written again.
unfoldable pub deliver : ℕ → String → Link → Result Link
deliver sequence payload l =
    if sequence == l.expected_server_sequence
    then (write_out l.stdout_fails
        >> (ok_or (checked_add l.expected_server_sequence 1)
              (Error.protocol "server ACP sequence exhausted")
            >>= λ next.
                ok (record l {
                  stdout = l.stdout ++ payload ∷ [];
                  expected_server_sequence = next;
                })))
    else if ltb l.expected_server_sequence sequence
    then err (Error.protocol "server ACP sequence gap")
    else ok l

module _ (options : ConnectOptions) (info : ClientInfo) (credentials : ResumeCredentials)
    (shut_down : ShutdownReason → Result (Unit {0})) where
  -- The guard of the branch that reads standard input.
  unfoldable pub can_read_stdin : Link → Bool
  can_read_stdin l =
      ltb (length l.pending) options.max_replay_frames
      && leb l.pending_bytes (saturating_sub options.max_replay_bytes options.max_frame_bytes)

  module _ (now : ℕ) (deadline : ℕ) (script : List Turn) where
    unfoldable pub reconnect_and_replay : Link → Outcome
    reconnect_and_replay l = elim (reconnect options info credentials deadline l.pending script) [
      | none ↦ reconnecting
      | some (err e) ↦ returned (err e)
      | some (ok none) ↦ returned (ok tt)
      | some (ok (some socket)) ↦ running (record l { socket = socket; last_received = now })
    ]

    -- A send; where it fails the connector reconnects.
    unfoldable pub send_or_reconnect : Envelope → Link → Outcome
    unfolding reconnect_and_replay
    send_or_reconnect e l = elim (send e l.socket) [
      | some socket ↦ running (record l { socket = socket })
      | none ↦ reconnect_and_replay l
    ]

    unfoldable pub read_line : String → Link → Outcome
    unfolding send_or_reconnect queue_line
    read_line line l =
        if ltb options.max_frame_bytes (len line)
        then returned (err (Error.protocol "local ACP line exceeds the frame limit"))
        else if ltb options.max_replay_bytes (saturating_add l.pending_bytes (len line))
        then returned (err (Error.protocol "local replay byte limit is smaller than one ACP frame"))
        else (queue_line line l >>? λ (l', frame).
            send_or_reconnect (acp (some frame.sequence) frame.payload) l')

    unfoldable pub read_frame : ℕ → String → Link → Outcome
    unfolding deliver send_or_reconnect
    read_frame sequence payload l =
        if ltb options.max_frame_bytes (len payload)
        then returned (err (Error.protocol "remote ACP line exceeds configured limit"))
        else (deliver sequence payload l >>? λ l'.
            send_or_reconnect (ack server_to_client (saturating_sub l'.expected_server_sequence 1))
              l')

    unfoldable pub read_envelope : Envelope → Link → Outcome
    unfolding read_frame acknowledge
    read_envelope (acp (some sequence) payload) l = read_frame sequence payload l
    read_envelope (acp none _) l =
        returned (err (Error.protocol "tunnel v3 ACP frame is missing a sequence number"))
    read_envelope (ack client_to_server sequence) l =
        if leb l.next_client_sequence sequence
        then returned (err (Error.protocol "server acknowledged unsent client sequence"))
        else running (acknowledge sequence l)
    read_envelope (ack server_to_client _) l =
        returned (err (Error.protocol "server sent an acknowledgement for the wrong stream"))
    read_envelope (Envelope.stderr payload) l =
        (write_out l.stderr_fails >>? λ _. running (record l { stderr = l.stderr ++ payload ∷ [] }))
    read_envelope (Envelope.ping nonce) l = send_or_reconnect (Envelope.pong nonce) l
    read_envelope (Envelope.pong _) l = running l
    read_envelope (Envelope.exit code signal) l = elim code [
      | none ↦ returned (err (Error.process "remote agent exited"))
      | some n ↦
          if n == 0 then returned (ok tt) else returned (err (Error.process "remote agent exited"))
    ]
    read_envelope (Envelope.error code message) l =
        returned (err (Error.protocol (format (code ∷ ": " ∷ message ∷ []))))
    read_envelope (Envelope.open_tunnel _ _ _ _ _ _) l =
        returned (err (Error.protocol "unexpected handshake envelope"))
    read_envelope (Envelope.ready _ _ _ _) l =
        returned (err (Error.protocol "unexpected handshake envelope"))
    read_envelope (Envelope.shutdown _) l =
        returned (err (Error.protocol "unexpected shutdown envelope"))
    read_envelope (Envelope.shutdown_complete _ _) l =
        returned (err (Error.protocol "unexpected shutdown envelope"))

    unfoldable pub read_message : Message → Link → Outcome
    unfolding read_envelope
    read_message (text (ok e)) l = read_envelope e l
    read_message (text (err e)) l = returned (err e)
    -- A native ping is answered by a native pong, which carries nothing of the tunnel.
    read_message Message.ping l = if l.socket.broken then reconnect_and_replay l else running l
    read_message Message.pong l = running l
    read_message Message.close l = reconnect_and_replay l
    read_message binary l =
        returned (err (Error.protocol "binary WebSocket messages are not supported"))

    -- One round of the loop.
    unfoldable pub step : LinkEvent → Link → Outcome
    unfolding read_line read_message
    step (stdin_line (some (ok line))) l = read_line line l
    step (stdin_line (some (err e))) l = returned (err e)
    step (stdin_line none) l = returned (shut_down stdin_eof)
    step (incoming (some (ok m))) l = read_message m (record l { last_received = now })
    step (incoming (some (err _))) l = reconnect_and_replay l
    step (incoming none) l = reconnect_and_replay l
    step keepalive_expired l = reconnect_and_replay l
    step (shutdown_received reason) l = returned (shut_down reason)
