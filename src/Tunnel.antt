-- ===== src/Tunnel.antt =====
-- src/client.rs and src/server.rs together: a connector and the session that it is attached to,
-- with a network between them that may drop, delay, repeat and reorder whatever was ever sent.
--
-- A real connection is better behaved than this network, so what holds here holds there.

pub mod Agreement
pub mod Progress
pub mod InOrder
pub mod Arrival
use acp_tunnel.Common.{
  ℕ, String, ◌≡◌, Bool, true, Option, none, some, List, [], ◌∷◌, ◌++◌, map, Occurs,
}
use acp_tunnel.Cause.{Cause, silent, hears, reads, line_of}
use acp_tunnel.Fault.{Error, Result, ok}
use acp_tunnel.Config.{ServerConfig}
use acp_tunnel.Policy.{PolicyOutcome}
use acp_tunnel.Protocol.{ClientInfo, Envelope, ShutdownReason}
use acp_tunnel.Server.Transport.{TransportHandle, frame_command}
use acp_tunnel.Server.Session.{Session}
use acp_tunnel.Server.Session.Events.{Event, Delivery, enabled, prepare, resume_ack, select}
use acp_tunnel.Server.Session.Loop.{IsBounded, cause}
use acp_tunnel.Server.Session.Run.{started, progress}
use acp_tunnel.Server.Session.Wire.{carried}
use acp_tunnel.Client.Socket.{
  ConnectOptions, ResumeCredentials, Socket, Turn, open_envelope, frame_envelope,
}
use acp_tunnel.Client.Link.{Link, connected, LinkEvent, running, step}
use acp_tunnel.Client.Link.Moves.{link_cause}
use acp_tunnel.Client.Link.Steps.{Allowed}

-- The two ends; every envelope that was ever sent from the connector and to it; the lines that the
-- connector has read from its standard input, and the session from its agent.
pub record World : Type 0 where
  pub link : Link
  pub session : Session
  pub up : List Envelope
  pub down : List Envelope
  pub typed : List String
  pub spoken : List String

-- An envelope is heard only if it was sent.
abbrev pub Heard : Cause → List Envelope → Type 0
Heard (hears e) es = Occurs e es
Heard _ es = Unit

abbrev pub commands_of : Option TransportHandle → List Envelope
commands_of none = []
commands_of (some h) = map carried h.commands

-- The acknowledgement that a resumed transport starts with.
abbrev pub acknowledged : Option Envelope → List Envelope
acknowledged none = []
acknowledged (some e) = e ∷ []

-- A connector whose first socket is open, and a session whose first transport is attached.
abbrev pub opened : ℕ → Socket → Session → World
opened now socket session = record {
  link = connected now socket;
  session = session;
  up = socket.written;
  down = commands_of session.transport;
  typed = [];
  spoken = [];
}

module _ (options : ConnectOptions) (info : ClientInfo) (credentials : ResumeCredentials)
    (shut_down : ShutdownReason → Result (Unit {0})) (config : ServerConfig)
    (apply : String → Result PolicyOutcome) (cid token : String) where
  -- What happens next.
  pub data Tick (w : World) : World → Type 0 where
    -- The connector goes through a round of its loop.
    link_steps :
        (now deadline : ℕ) (script : List Turn) (event : LinkEvent) (l : Link)
        → Heard (link_cause event) w.down
        → Allowed options info credentials shut_down now deadline script event w.link
        → step options info credentials shut_down now deadline script event w.link ≡ running l
        → Tick w (record w {
          link = l;
          up = w.up ++ l.socket.written;
          typed = line_of (link_cause event) w.typed;
        })
    -- The connector's socket breaks.
    socket_breaks :
        Tick w (record w {
          link = record (w.link) { socket = record (w.link.socket) { broken = true } };
        })
    -- The connector's standard output or error starts to fail, or works again.
    outputs_change :
        (out errors : Option Error)
        → Tick w (record w { link = record (w.link) { stdout_fails = out; stderr_fails = errors } })
    -- The connector replays on a socket that is then lost.
    replay_fails : Tick w (record w {
      up =
          w.up ++ open_envelope options info (some credentials) ∷ map frame_envelope w.link.pending;
    })
    -- The session, which has not ended, goes through the part of a round before `select!`.
    session_prepares :
        (now : ℕ) (d : Delivery)
        → w.session.end_category ≡ none
        → Tick w (record w {
          session = prepare config now d w.session;
          down = w.down ++ commands_of (prepare config now d w.session).transport;
        })
    -- A branch of `select!` runs in the session, which has not ended.
    session_selects :
        (now : ℕ) (event : Event) (s : Session)
        → w.session.end_category ≡ none
        → Heard (cause event) w.up
        → IsBounded config event
        → enabled config w.session event ≡ true
        → select config apply cid token now event w.session ≡ ok s
        → Tick w (record w {
          session = s;
          down = w.down ++ commands_of s.transport;
          spoken = line_of (cause event) w.spoken;
        })
    -- The session sets up a transport, or pumps into it, and it is then lost.
    attach_fails : Tick w (record w {
      down =
          w.down
          ++ (acknowledged (resume_ack config w.session.expected_client_sequence)
              ++ map (λ f. carried (frame_command f)) w.session.replay.pending);
    })
    -- The task of the transport takes commands, or goes.
    task_progresses :
        (taken : ℕ) (closed : Bool)
        → Tick w (record w {
          session = record (w.session) { transport = progress taken closed w.session.transport };
        })
    -- The agent closes its standard input.
    pipe_changes :
        (is_open : Bool)
        → Tick w (record w { session = record (w.session) { stdin_open = is_open } })

  pub data Ticks (w : World) : World → Type 0 where
    start : Ticks w w
    next : {u v : World} → Ticks w u → Tick u v → Ticks w v
