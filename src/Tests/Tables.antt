-- ===== src/Tests/Tables.antt =====
-- An example of the theorem about the table of sessions: a session is opened, and then resumed.
use acp_tunnel.Common.{
  remove, ℕ, String, refl, Option, none, some, List, [], ◌∷◌, get, insert, contains, is_blank,
}
use acp_tunnel.Fault.{Result, ok}
use acp_tunnel.Auth.{authenticate, accumulate, byte_at}
use acp_tunnel.Credentials.{new_token}
use acp_tunnel.Process.{
  merge_agent_environment, merge_variables, selected_environment, extend, inherited,
}
use acp_tunnel.Protocol.{ResumeRequest, open_tunnel, into_open, is_empty, tunnel_version}
use acp_tunnel.Server.Opening.{
  text, accepted, Launch, read_open, spawn, prepare_agent, check_entry, resume_tunnel,
}
use acp_tunnel.Server.Tunnels.{
  Arrival, Event, arrives, ends, open_session, serve_request, run_tunnel, table_after,
}
use acp_tunnel.Server.Tunnels.Resumed.{Resumed, run_tunnel-Resumed}
use acp_tunnel.Tests.{sample_info}
use acp_tunnel.Tests.Doors.{sample_bytes, sample_bytes-injective, no_variables, one_workspace}

abbrev show : ℕ → String
show _ = "3"

abbrev start : Launch → Result String
start l = ok l.directory

abbrev opening : Option ResumeRequest → String → Arrival
opening resume connection_id = record {
  first = text (ok (open_tunnel tunnel_version "fake" "project" sample_info [] resume));
  connection_id = connection_id;
  resume_token = "t1";
  sending = accepted;
}

-- One session was opened and is there, another has ended.
abbrev sample_history : List Event
sample_history = ends "c2" ∷ arrives (opening none "c2") ∷ arrives (opening none "c1") ∷ []

abbrev resuming : Arrival
resuming = opening (some (record { connection_id = "c1"; resume_token = "t1" })) "c3"

run_tunnel-Resumed_example :
    Resumed show sample_bytes no_variables start one_workspace sample_history resuming "c1"
unfolding run_tunnel serve_request open_session table_after read_open into_open spawn prepare_agent
    check_entry resume_tunnel get insert remove contains new_token is_empty is_blank authenticate
    accumulate byte_at merge_agent_environment merge_variables selected_environment extend inherited
run_tunnel-Resumed_example =
    run_tunnel-Resumed show sample_bytes no_variables start one_workspace sample_bytes-injective
      sample_history resuming "c1" refl
