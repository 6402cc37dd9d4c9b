-- ===== src/Client/Shutdown.antt =====
-- src/client.rs: the graceful shutdown of a session, over the socket in use or over new ones.
--
-- What the network and the clock do is a script: one entry for each turn of the outer loop, and in
-- it one for each message waited for. The timeout around the whole has the same length as the
-- deadline inside. The pauses after failed attempts show only in the times.
pub mod Confirmed
use acp_tunnel.Common.{
  ℕ, String, ◌≡◌, Bool, true, false, Option, none, some, List, [], ◌∷◌, ◌++◌, leb, if◌then◌else◌,
  format,
}
use acp_tunnel.Fault.{Error, Result, ok, err}
use acp_tunnel.Protocol.{
  ClientInfo, Envelope, ShutdownReason, shutdown, ping, pong, stderr, shutdown_complete,
}
use acp_tunnel.Client.Socket.{
  ConnectOptions, ResumeCredentials, Socket, send, Message, text, Reply, open_socket,
  same_credentials,
}

-- What a wait for a message comes to.
pub data Hearing : Type 0 where
  heard : Message → Hearing
  stream_ended : Hearing
  overdue : Hearing

pub record Listen : Type 0 where
  pub starts : ℕ
  pub hearing : Hearing
  -- Whether an answer to a ping cannot be sent.
  pub pong_fails : Bool

-- What becomes of the shutdown request.
pub data Request : Type 0 where
  requested failed stalled : Request

-- `opened` is none where the attempt to open a socket runs into the deadline.
pub record Round : Type 0 where
  pub starts : ℕ
  pub opened : Option Reply
  pub ends : ℕ
  pub request : Request
  pub listens : List Listen

-- What listening on one socket comes to: a result, or the socket is lost.
pub data Listened : Type 0 where
  finished : Result (Unit {0}) → Listened
  lost : Listened

abbrev pub unconfirmed : Error
unconfirmed = Error.timeout "waiting for remote shutdown confirmation"

abbrev pub unreachable : Error
unreachable = Error.timeout "reconnecting to shut down detached tunnel"

-- What a message means while the shutdown is awaited; none where the wait goes on.
unfoldable pub judge_message : Bool → Message → Option Listened
judge_message pong_fails (text (err e)) = some (finished (err e))
judge_message pong_fails (text (ok (shutdown_complete _ _))) = some (finished (ok tt))
judge_message pong_fails (text (ok (ping _))) =
    if pong_fails then some (finished (err (Error.web_socket "cannot send"))) else none
judge_message pong_fails (text (ok (stderr _))) = none
judge_message pong_fails (text (ok (Envelope.exit _ _))) = none
judge_message pong_fails (text (ok (Envelope.ack _ _))) = none
judge_message pong_fails (text (ok (pong _))) = none
judge_message pong_fails (text (ok (Envelope.acp _ _))) = none
judge_message pong_fails (text (ok (Envelope.error code message))) =
    some (finished (err (Error.protocol (format (code ∷ ": " ∷ message ∷ [])))))
judge_message pong_fails (text (ok (Envelope.open_tunnel _ _ _ _ _ _))) =
    some (finished (err (Error.protocol "unexpected envelope during shutdown")))
judge_message pong_fails (text (ok (Envelope.ready _ _ _ _))) =
    some (finished (err (Error.protocol "unexpected envelope during shutdown")))
judge_message pong_fails (text (ok (shutdown _))) =
    some (finished (err (Error.protocol "unexpected envelope during shutdown")))
judge_message pong_fails Message.ping =
    if pong_fails then some (finished (err (Error.web_socket "cannot send"))) else none
judge_message pong_fails Message.pong = none
judge_message pong_fails Message.close = some lost
judge_message pong_fails Message.binary =
    some (finished (err (Error.protocol "binary WebSocket messages are not supported")))

unfoldable pub judge_hearing : Bool → Hearing → Option Listened
unfolding judge_message
judge_hearing pong_fails (heard m) = judge_message pong_fails m
judge_hearing pong_fails stream_ended = some lost
judge_hearing pong_fails overdue = some (finished (err unconfirmed))

-- The inner loop; `none` while the script has no end of it yet.
unfoldable pub listen : ℕ → List Listen → Option Listened
unfolding judge_hearing
listen deadline [] = none
listen deadline (l ∷ ls) =
    let rest = listen deadline ls in
    if leb deadline l.starts
    then some (finished (err unconfirmed))
    else elim (judge_hearing l.pong_fails l.hearing) [ some outcome ↦ some outcome | none ↦ rest ]

module _ (options : ConnectOptions) (info : ClientInfo) (credentials : ResumeCredentials) where
  -- The socket of a turn: the one at hand, a new one, a result, or none after a failed attempt.
  pub data Current : Type 0 where
    at_hand : Current
    ended : Result (Unit {0}) → Current
    unopened : Current

  abbrev pub taken_up : Result (Socket × ResumeCredentials) → Current
  taken_up (ok (socket, returned)) =
      if same_credentials returned credentials
      then at_hand
      else ended (err (Error.protocol "server changed resume credentials during shutdown"))
  taken_up (err _) = unopened

  unfoldable pub current : Bool → ℕ → Round → Current
  current true deadline r = at_hand
  current false deadline r = elim r.opened [
    | none ↦ ended (err unreachable)
    | some reply ↦ elim (taken_up (open_socket options info (some credentials) reply)) [
      | at_hand ↦ at_hand
      | ended result ↦ ended result
      | unopened ↦ if leb deadline r.ends then ended (err unreachable) else unopened
    ]
  ]

  -- The outer loop of `graceful_shutdown_inner`, with a socket at hand or without.
  unfoldable pub graceful_shutdown : ℕ → Bool → List Round → Option (Result (Unit {0}))
  unfolding current listen
  graceful_shutdown deadline has_socket [] = none
  graceful_shutdown deadline has_socket (r ∷ rs) =
      let rest = graceful_shutdown deadline false rs in
      if leb deadline r.starts
      then some (err unconfirmed)
      else elim (current has_socket deadline r) [
        | ended result ↦ some result
        | unopened ↦ rest
        | at_hand ↦ elim r.request [
          | failed ↦ rest
          | stalled ↦ some (err (Error.timeout "sending remote shutdown request"))
          | requested ↦ elim (listen deadline r.listens) [
            | none ↦ none
            | some lost ↦ rest
            | some (finished result) ↦ some result
          ]
        ]
      ]
