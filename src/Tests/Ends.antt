-- ===== src/Tests/Ends.antt =====
-- Examples of the theorems about one end of the tunnel.
use acp_tunnel.Common.{
  ◌≡◌, refl, true, false, none, some, List, [], ◌∷◌, ◌++◌, arith, checked_add, saturating_add,
  is_blank, get, contains_char,
}
use acp_tunnel.Cause.{reads, hears}
use acp_tunnel.Fault.{Error, ok}
use acp_tunnel.Config.{
  AgentConfig, deny, ServerConfig, PathLib, validate_limits, validate_tls, validate_workspace,
  validate_agent, validate,
}
use acp_tunnel.Config.Names.{validate_id, validate_environment_name}
use acp_tunnel.Config.Valid.{Limits, Sound, validate-Valid}
use acp_tunnel.Outbox.{Outbox, enqueue, settle}
use acp_tunnel.Protocol.{acp, ack, client_to_server}
use acp_tunnel.Server.Replay.{ReplayFrame, Replay, queue_server_frame, acknowledge}
use acp_tunnel.Server.Replay.Refinement.{Refines, queue_server_frame-Refines, acknowledge-Refines}
use acp_tunnel.Server.Transport.{envelope, attach_transport, pump_frames}
use acp_tunnel.Server.Transport.Attach.{Attached, attach_transport-Attached}
use acp_tunnel.Server.Transport.Pump.{Pumped, pump_frames-Pumped}
use acp_tunnel.Server.Session.{Session}
use acp_tunnel.Server.Session.Abstract.{Spec, Inv, Simulated}
use acp_tunnel.Server.Session.Events.{
  deadline_reached, enabled, attach, written, prepare, ready_envelope,
}
use acp_tunnel.Server.Session.Loop.{select-Simulated}
use acp_tunnel.Server.Session.Run.{started, first_spec, here, selected, Moves, begin-Rounds}
use acp_tunnel.Server.Session.Wire.{Wired}
use acp_tunnel.Server.Session.Select.{select-Wired}
use acp_tunnel.Server.Session.Detached.{
  IsWatched, attach-strands, select-IsWatched, prepare-IsWatched,
}
use acp_tunnel.Client.Socket.{Turn, tried, open_envelope, open_socket, replay, reconnect}
use acp_tunnel.Client.Socket.Reconnect.{Resumed, reconnect-Resumed}
use acp_tunnel.Client.Link.{stdin_line, can_read_stdin}
use acp_tunnel.Client.Link.Refinement.{LinkSpec, LinkInv, LinkSimulated}
use acp_tunnel.Client.Link.Steps.{step-Simulated}
use acp_tunnel.Client.Link.Written.{Written}
use acp_tunnel.Client.Link.Honest.{step-Written}
use acp_tunnel.Tests.{
  sample_config, sample_options, sample_info, sample_credentials, sample_apply, sample_shut_down,
  sample_ready,
}
use acp_tunnel.Tests.Tunnels.{
  sample_limits, sample_fate, handle0, link1, event1, session1, world0, link1_stepped,
  session1_selected, session0_begun, world0-Agreed,
}

abbrev spec1 : Spec
spec1 = record first_spec { accepted = "hello" ∷ [] }

begin-Rounds_example :
    (y : Spec) × Moves sample_config sample_apply "c1" "t1" first_spec y
    × Inv sample_apply sample_config y session1
unfolding enabled
begin-Rounds_example =
    begin-Rounds sample_config sample_apply "c1" "t1" 0 sample_fate sample_limits session0_begun
      (selected 2 event1 session1 here refl tt refl session1_selected)

select-Simulated_example :
    Simulated sample_apply sample_config first_spec (hears (acp (some 1) "hello")) session1
unfolding enabled
select-Simulated_example =
    select-Simulated sample_apply sample_config first_spec "c1" "t1" 2 event1 (started 0 handle0)
      session1 sample_limits tt refl world0-Agreed.server session1_selected

session1-Inv : Inv sample_apply sample_config spec1 session1
session1-Inv = record {
  refines = world0-Agreed.server.refines;
  expected = refl;
  stdin = refl;
  frames = omega arith;
  bytes = omega arith;
}

select-Wired_example : Wired spec1 session1.transport
select-Wired_example =
    select-Wired sample_apply sample_config first_spec spec1 "c1" "t1" 2 event1 (started 0 handle0)
      session1 world0-Agreed.server ("hello" ∷ [], [], refl, refl) session1-Inv (tt, tt)
      session1_selected

abbrev spec_untyped : LinkSpec
spec_untyped = record { outbox = record { settled = []; waiting = [] }; printed = [] }

abbrev spec_typed : LinkSpec
spec_typed = record { outbox = record { settled = []; waiting = "hello" ∷ [] }; printed = [] }

step-Simulated_example : LinkSimulated sample_options spec_untyped (reads "hello") link1
unfolding can_read_stdin
step-Simulated_example =
    step-Simulated sample_options sample_info sample_credentials sample_shut_down 1 60 [] _
      (stdin_line (some (ok "hello"))) world0.link link1 (omega arith) world0-Agreed.client refl
      link1_stepped

link1-LinkInv : LinkInv sample_options spec_typed link1
unfolding saturating_add
link1-LinkInv = record {
  holds = (refl, refl, tt);
  counted = refl;
  next = refl;
  expected = refl;
  stdout = refl;
  frames = omega arith;
  bytes = omega arith;
}

step-Written_example : Written spec_typed link1.socket.written
step-Written_example =
    step-Written sample_options sample_info sample_credentials sample_shut_down 1 60 [] spec_untyped
      spec_typed (stdin_line (some (ok "hello"))) world0.link link1 ("hello" ∷ [], [], refl, refl)
      link1-LinkInv world0-Agreed.written link1_stepped

select-IsWatched_example : IsWatched session1
select-IsWatched_example =
    select-IsWatched sample_config sample_apply "c1" "t1" 2 event1 (started 0 handle0) session1
      (λ x. x) refl session1_selected

prepare-IsWatched_example : IsWatched (prepare sample_config 1 written (started 0 handle0))
prepare-IsWatched_example = prepare-IsWatched sample_config 1 written (started 0 handle0) refl

-- A resumed socket that breaks during its setup, where the older one was still attached.
attach-strands_example :
    (s' : Session) × (attach sample_config "c1" "t1" 3
        (record { accepts = some 0; expires = false })
        session1
      ≡ ok s')
    × (s'.transport ≡ none)
    × (enabled sample_config s' deadline_reached ≡ false)
unfolding attach_transport
attach-strands_example =
    attach-strands sample_config "c1" "t1" 3 (record { accepts = some 0; expires = false })
      (Error.network "transport stopped before ready") session1 (omega arith) refl refl

abbrev two_frames : List ReplayFrame
two_frames =
    record { sequence = 1; payload = "a"; last_sent_generation = 1 }
    ∷ record { sequence = 2; payload = "b"; last_sent_generation = 0 }
    ∷ []

attach_transport-Attached_example :
    Attached 2
      (ready_envelope sample_config "c1" "t1" true)
      (some (ack client_to_server 1))
      two_frames
      (attach_transport 2 4
        (ready_envelope sample_config "c1" "t1" true)
        (some (ack client_to_server 1))
        sample_fate
        two_frames).0
      (record {
        generation = 2;
        capacity = 4;
        commands =
            envelope (ready_envelope sample_config "c1" "t1" true)
            ∷ envelope (ack client_to_server 1)
            ∷ envelope (acp (some 1) "a")
            ∷ envelope (acp (some 2) "b")
            ∷ [];
        taken = 0;
        closed = false;
      })
unfolding attach_transport
attach_transport-Attached_example =
    attach_transport-Attached 2 4 (ready_envelope sample_config "c1" "t1" true)
      (some (ack client_to_server 1)) sample_fate two_frames _ refl

pump_frames-Pumped_example : Pumped handle0 two_frames (pump_frames handle0 two_frames)
pump_frames-Pumped_example = pump_frames-Pumped handle0 two_frames

abbrev two_waiting : Outbox
two_waiting = record { settled = []; waiting = "a" ∷ "b" ∷ [] }

abbrev two_replay : Replay
two_replay = record { pending = two_frames; pending_bytes = 2; next_sequence = 3 }

two_refine : Refines two_waiting two_replay
two_refine = record { holds = (refl, refl, (refl, refl, tt)); bytes = refl; next = refl }

acknowledge-Refines_example : Refines (settle 1 two_waiting) (acknowledge 1 two_replay)
acknowledge-Refines_example = acknowledge-Refines 1 two_waiting two_replay two_refine

queue_server_frame-Refines_example : Refines (enqueue "c" two_waiting) (record {
  pending = two_frames ++ record { sequence = 3; payload = "c"; last_sent_generation = 0 } ∷ [];
  pending_bytes = 3;
  next_sequence = 4;
})
unfolding queue_server_frame checked_add saturating_add
queue_server_frame-Refines_example =
    queue_server_frame-Refines two_waiting two_replay _ "c" two_refine (omega arith) refl

-- Two failed attempts, then one that is taken up.
abbrev three_turns : List Turn
three_turns =
    record { starts = 0; attempt = tried (sample_ready false) none none; ends = 1 }
    ∷ record { starts = 2; attempt = tried (sample_ready true) (some 0) none; ends = 3 }
    ∷ record { starts = 4; attempt = tried (sample_ready true) none none; ends = 5 }
    ∷ []

reconnect-Resumed_example :
    Resumed sample_options sample_info sample_credentials link1.pending (record {
      written =
          open_envelope sample_options sample_info (some sample_credentials)
          ∷ acp (some 1) "hello"
          ∷ [];
      broken = false;
    })
unfolding reconnect open_socket replay
reconnect-Resumed_example =
    reconnect-Resumed sample_options sample_info sample_credentials 60 link1.pending _ three_turns
      refl

-- A library for paths and URLs that takes every path for absolute.
abbrev sample_lib : PathLib
sample_lib = record { is_absolute = λ _. true; parse_url = λ _. none }

abbrev sample_agent : AgentConfig
sample_agent = record {
  command = "fake-agent";
  args = [];
  workspaces = "project" ∷ [];
  pass_env = "PATH" ∷ [];
  env = [];
  client_env_allowlist = [];
  mcp_policy = deny;
}

abbrev sample_valid : ServerConfig
sample_valid = record sample_config {
  agents = ("fake", sample_agent) ∷ [];
  workspaces = ("project", record { path = "/srv/project" }) ∷ [];
}

validate-Valid_example :
    Limits sample_valid × (Sound sample_valid sample_agent × Unit {0}) × ((true ≡ true) × Unit {0})
unfolding validate validate_limits validate_tls validate_workspace validate_id validate_agent
    is_blank get validate_environment_name contains_char
validate-Valid_example = validate-Valid sample_lib sample_valid refl
