-- ===== src/Client/Socket.antt =====
-- src/client.rs: the options of a connector, its sockets, and how it opens and reopens one.
--
-- What the network, the clock and the shutdown signal do is given as a script, one entry for each
-- turn of the loop. The pauses between attempts (200 ms, doubling up to 5 s) show only in its times.
pub mod Reconnect
use acp_tunnel.Common.{
  ℕ, zero, suc, String, ◌≡◌, Bool, true, false, ◌&&◌, Option, none, some, List, [], ◌∷◌, ◌++◌, map,
  leb, ◌==◌, if◌then◌else◌, str_eq, is_some, is_none, format, saturating_sub,
}
use acp_tunnel.Fault.{Error, Result, ok, err, ◌>>=◌}
use acp_tunnel.Protocol.{
  ClientInfo, ClientEnvironment, ResumeRequest, Envelope, open_tunnel, acp, tunnel_version,
}

-- The URL stands in Client.Options; here only what the loop reads.
pub record ConnectOptions : Type 0 where
  pub agent : String
  pub workspace : String
  pub client_environment : ClientEnvironment
  pub max_frame_bytes : ℕ
  pub max_replay_frames : ℕ
  pub max_replay_bytes : ℕ
  pub connection_timeout : ℕ
  pub keepalive_timeout : ℕ
  pub reconnect_timeout : ℕ
  pub shutdown_timeout : ℕ

pub record ResumeCredentials : Type 0 where
  pub connection_id : String
  pub resume_token : String

pub record PendingFrame : Type 0 where
  pub sequence : ℕ
  pub payload : String

-- What was sent on a socket, oldest first, and whether it still takes messages.
pub record Socket : Type 0 where
  pub written : List Envelope
  pub broken : Bool

unfoldable pub send : Envelope → Socket → Option Socket
send e socket =
    if socket.broken then none else some (record socket { written = socket.written ++ e ∷ [] })

abbrev pub frame_envelope : PendingFrame → Envelope
frame_envelope f = acp (some f.sequence) f.payload

-- `send_acp`
unfoldable pub send_acp : PendingFrame → Socket → Option Socket
unfolding send
send_acp f socket = send (frame_envelope f) socket

-- A received WebSocket message; a text comes with what `Envelope::from_text` makes of it.
pub data Message : Type 0 where
  text : Result Envelope → Message
  ping pong close binary : Message

-- How the opening exchange goes: it fails with an error of the network or of a timeout, the
-- stream ends, or a first message arrives.
pub data Reply : Type 0 where
  failed : Error → Reply
  ended : Reply
  received : Message → Reply

module _ (options : ConnectOptions) (info : ClientInfo) where
  -- The opening message: environment values go out only when no session is resumed.
  unfoldable pub open_envelope : Option ResumeCredentials → Envelope
  open_envelope none =
      open_tunnel tunnel_version options.agent options.workspace info options.client_environment
        none
  open_envelope (some c) =
      open_tunnel tunnel_version options.agent options.workspace info []
        (some (record { connection_id = c.connection_id; resume_token = c.resume_token }))

  unfoldable pub read_ready : Bool → Envelope → Result ResumeCredentials
  read_ready resuming (Envelope.ready version connection_id (some resume_token) resumed) =
      if version == tunnel_version && same_flag resumed resuming
      then ok (record { connection_id = connection_id; resume_token = resume_token })
      else err (Error.protocol "expected tunnel v3 ready response")
    where
      same_flag : Bool → Bool → Bool
      same_flag true b = b
      same_flag false true = false
      same_flag false false = true
  read_ready resuming (Envelope.error code message) =
      err (Error.protocol (format (code ∷ ": " ∷ message ∷ [])))
  read_ready resuming _ = err (Error.protocol "expected tunnel v3 ready response")

  unfoldable pub read_reply : Bool → Reply → Result ResumeCredentials
  unfolding read_ready
  read_reply resuming (failed e) = err e
  read_reply resuming ended = err (Error.network "server closed before ready response")
  read_reply resuming (received (text parsed)) = do envelope ← parsed; read_ready resuming envelope
  read_reply resuming (received _) = err (Error.protocol "expected text ready response")

  -- `open_socket`: the socket has sent the opening message.
  unfoldable pub open_socket :
      Option ResumeCredentials → Reply → Result (Socket × ResumeCredentials)
  unfolding read_reply open_envelope
  open_socket resume reply = do
    credentials ← read_reply (is_some resume) reply
    ok (record { written = open_envelope resume ∷ []; broken = false }, credentials)

-- The replay of the pending frames on a new socket that takes `accepts` messages, or all; `none`
-- if it fails on the way.
unfoldable pub replay : Option ℕ → Socket → List PendingFrame → Option Socket
replay none socket fs = some (record socket { written = socket.written ++ map frame_envelope fs })
replay (some n) socket [] = some socket
replay (some zero) socket (f ∷ fs) = none
replay (some (suc n)) socket (f ∷ fs) =
    replay (some n) (record socket { written = socket.written ++ frame_envelope f ∷ [] }) fs

-- One turn of the loop of `reconnect_and_replay`: a shutdown request with the result of the
-- shutdown, or an attempt, its reply and how much of the replay the new socket takes, and whether
-- a shutdown request ends the pause after it.
pub data Attempt : Type 0 where
  shut : Result (Unit {0}) → Attempt
  tried : Reply → Option ℕ → Option (Result (Unit {0})) → Attempt

pub record Turn : Type 0 where
  pub starts : ℕ
  pub attempt : Attempt
  pub ends : ℕ

abbrev pub same_credentials : ResumeCredentials → ResumeCredentials → Bool
same_credentials a b =
    str_eq a.connection_id b.connection_id && str_eq a.resume_token b.resume_token

abbrev pub reconnect_timed_out : Error
reconnect_timed_out = Error.timeout "reconnecting detached tunnel"

abbrev pub after_shutdown : Result (Unit {0}) → Result (Option Socket)
after_shutdown (ok _) = ok none
after_shutdown (err e) = err e

-- What an attempt comes to: the loop ends with a result, or goes on.
unfoldable pub judge_attempt :
    ResumeCredentials
    → List PendingFrame
    → Option ℕ
    → Result (Socket × ResumeCredentials)
    → Option (Result (Option Socket))
judge_attempt credentials pending accepts (ok (socket, returned)) =
    if same_credentials returned credentials
    then elim (replay accepts socket pending) [
      | none ↦ none
      | some replayed ↦ some (ok (some replayed))
    ]
    else some (err (Error.protocol "server changed resume credentials during reconnect"))
judge_attempt credentials pending accepts (err _) = none

abbrev pub after_pause :
    Option (Result (Unit {0})) → Option (Result (Option Socket)) → Option (Result (Option Socket))
after_pause none rest = rest
after_pause (some r) rest = some (after_shutdown r)

module _ (options : ConnectOptions) (info : ClientInfo) (credentials : ResumeCredentials) where
  -- `reconnect_and_replay`, from its deadline on; `none` while the script has no end of it yet.
  unfoldable pub reconnect : ℕ → List PendingFrame → List Turn → Option (Result (Option Socket))
  unfolding judge_attempt
  reconnect deadline pending [] = none
  reconnect deadline pending (t ∷ ts) = elim t.attempt [
    | shut r ↦ some (after_shutdown r)
    | tried reply accepts pause ↦
        if leb deadline t.starts
        then some (err reconnect_timed_out)
        else let rest = reconnect deadline pending ts in
          elim (judge_attempt credentials pending accepts
            (open_socket options info (some credentials) reply)) [
              | some result ↦ some result
              | none ↦
                  if leb deadline t.ends
                  then some (err reconnect_timed_out)
                  else after_pause pause rest
            ]
  ]
