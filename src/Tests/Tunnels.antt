-- ===== src/Tests/Tunnels.antt =====
-- Examples of the theorems about the two ends together.
use acp_tunnel.Common.{
  String, ◌≡◌, refl, false, none, some, List, [], ◌∷◌, ◌++◌, arith, saturating_add, checked_add,
  checked_sub, inl, inr,
}
use acp_tunnel.Fault.{ok}
use acp_tunnel.Numbered.{Begins}
use acp_tunnel.Protocol.{acp, ack, client_to_server}
use acp_tunnel.Server.Transport.{
  send as transport_send, TransportHandle, envelope, push, Fate, attach_transport,
}
use acp_tunnel.Server.Session.{Session, handle_client_envelope}
use acp_tunnel.Server.Session.Abstract.{forwarded}
use acp_tunnel.Server.Session.Events.{
  Event, transport_event, message, enabled, select, ready_envelope,
}
use acp_tunnel.Server.Session.Loop.{HasLimits}
use acp_tunnel.Server.Session.Run.{begin, started, first_spec}
use acp_tunnel.Client.Socket.{Socket, send, open_envelope, open_socket}
use acp_tunnel.Client.Link.{Link, running, stdin_line, can_read_stdin, step}
use acp_tunnel.Client.Link.Moves.{queued_link}
use acp_tunnel.Tunnel.{World, commands_of, opened, Ticks, start, next, link_steps, session_selects}
use acp_tunnel.Tunnel.Agreement.{Agreed, Merge, refused}
use acp_tunnel.Tunnel.InOrder.{
  Opened, first_link, Opened-Agreed, typed_in_order, spoken_in_order, none_lost,
}
use acp_tunnel.Tunnel.Arrival.{Arrives, line-Arrives}
use acp_tunnel.Tests.{
  sample_config, sample_options, sample_info, sample_credentials, sample_apply, sample_shut_down,
  sample_ready,
}

pub sample_limits : HasLimits sample_config
sample_limits = record { frame-le-replay = omega arith; replay-lt-max = omega arith }

abbrev pub sample_fate : Fate
sample_fate = record { accepts = none; expires = false }

abbrev pub socket0 : Socket
socket0 = record { written = open_envelope sample_options sample_info none ∷ []; broken = false }

socket0_opened :
    open_socket sample_options sample_info none (sample_ready false)
    ≡ ok (socket0, sample_credentials)
unfolding open_socket
socket0_opened = refl

abbrev pub handle0 : TransportHandle
handle0 = record {
  generation = 1;
  capacity = 4;
  commands = envelope (ready_envelope sample_config "c1" "t1" false) ∷ [];
  taken = 0;
  closed = false;
}

pub session0_begun : begin sample_config "c1" "t1" 0 sample_fate ≡ ok (started 0 handle0)
unfolding begin attach_transport
session0_begun = refl

abbrev pub world0 : World
world0 = opened 0 socket0 (started 0 handle0)

world0-Opened :
    Opened sample_options sample_info sample_credentials sample_shut_down sample_config sample_apply
      "c1" "t1" world0
world0-Opened = record {
  now = 0;
  reply = sample_ready false;
  socket = socket0;
  socket_opened = socket0_opened;
  begun_at = 0;
  fate = sample_fate;
  session = started 0 handle0;
  session_begun = session0_begun;
  world = refl;
}

-- The connector reads a line and sends it.
abbrev pub link1 : Link
link1 = record (queued_link "hello" world0.link) {
  socket = record socket0 { written = socket0.written ++ acp (some 1) "hello" ∷ [] };
}

pub link1_stepped :
    step sample_options sample_info sample_credentials sample_shut_down 1 60 []
      (stdin_line (some (ok "hello")))
      world0.link
    ≡ running link1
unfolding step saturating_add checked_add send
link1_stepped = refl

abbrev world1 : World
world1 = record world0 {
  link = link1;
  up = world0.up ++ link1.socket.written;
  typed = "hello" ∷ [];
}

-- The session hears it, and the agent gets it.
abbrev pub event1 : Event
event1 = transport_event (some (record { generation = 1; kind = message (acp (some 1) "hello") }))

abbrev pub session1 : Session
session1 = record (started 0 handle0) {
  counters = record { inbound_frames = 1; inbound_bytes = 5; dropped_stderr_frames = 0 };
  last_received = 2;
  expected_client_sequence = 2;
  agent_stdin = "hello" ∷ [];
  transport = some (push (envelope (ack client_to_server 1)) handle0);
}

pub session1_selected :
    select sample_config sample_apply "c1" "t1" 2 event1 (started 0 handle0) ≡ ok session1
unfolding select handle_client_envelope checked_add checked_sub transport_send
session1_selected = refl

abbrev world2 : World
world2 = record world1 { session = session1; down = world1.down ++ commands_of session1.transport }

two-Ticks :
    Ticks sample_options sample_info sample_credentials sample_shut_down sample_config sample_apply
      "c1" "t1" world0 world2
unfolding enabled can_read_stdin
two-Ticks =
    next
      (next start (link_steps 1 60 [] (stdin_line (some (ok "hello"))) link1 tt refl link1_stepped))
      (session_selects 2 event1 session1 refl (inr (inr (inl refl))) tt refl session1_selected)

typed_in_order_example :
    (accepted : List String) × Begins accepted ("hello" ∷ [])
    × ("hello" ∷ [] ≡ forwarded sample_apply accepted)
typed_in_order_example =
    typed_in_order sample_options sample_info sample_credentials sample_shut_down sample_config
      sample_apply "c1" "t1" (omega arith) sample_limits world0 world2 world0-Opened two-Ticks

spoken_in_order_example :
    (accepted sent : List String) × Begins accepted ("hello" ∷ [])
    × Merge [] (refused sample_apply accepted) sent
    × Begins [] sent
spoken_in_order_example =
    spoken_in_order sample_options sample_info sample_credentials sample_shut_down sample_config
      sample_apply "c1" "t1" (omega arith) sample_limits world0 world2 world0-Opened two-Ticks

none_lost_example :
    (accepted sent settled printed : List String) × ("hello" ∷ [] ≡ forwarded sample_apply accepted)
    × Merge [] (refused sample_apply accepted) sent
    × ("hello" ∷ [] ≡ settled ++ "hello" ∷ [])
    × Begins settled accepted
    × (sent ≡ printed ++ [])
    × Begins printed []
none_lost_example =
    none_lost sample_options sample_info sample_credentials sample_shut_down sample_config
      sample_apply "c1" "t1" (omega arith) sample_limits world0 world2 world0-Opened two-Ticks

pub world0-Agreed :
    Agreed sample_options sample_config sample_apply
      (first_link sample_options sample_info sample_credentials sample_shut_down sample_config
        sample_apply "c1" "t1")
      first_spec
      world0
world0-Agreed =
    Opened-Agreed sample_options sample_info sample_credentials sample_shut_down sample_config
      sample_apply "c1" "t1" world0 sample_limits world0-Opened

line-Arrives_example :
    Arrives sample_options sample_info sample_credentials sample_shut_down sample_config
      sample_apply "c1" "t1" world0 1 60 [] handle0 "hello" "hello"
unfolding can_read_stdin
line-Arrives_example =
    line-Arrives sample_options sample_info sample_credentials sample_shut_down sample_config
      sample_apply "c1" "t1"
      (first_link sample_options sample_info sample_credentials sample_shut_down sample_config
        sample_apply "c1" "t1")
      first_spec world0 1 60 [] "hello" "hello" handle0 world0-Agreed refl (omega arith)
      (omega arith) (omega arith) refl (omega arith) (omega arith) refl refl refl refl refl refl
      refl
