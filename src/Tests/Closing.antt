-- ===== src/Tests/Closing.antt =====
-- Examples of the theorems about options, shutdown and the end of a session.
use acp_tunnel.Common.{
  ℕ, ◌≡◌, ◌≢◌, ◌≤◌, refl, inl, inr, Bool, true, false, none, some, List, [], ◌∷◌, arith,
}
use acp_tunnel.Fault.{Error, Result, ok, err}
use acp_tunnel.Config.Names.{validate_id}
use acp_tunnel.Protocol.{ClientInfo, Envelope, ShutdownReason, shutdown_complete}
use acp_tunnel.Process.{ExitStatus}
use acp_tunnel.Server.Session.Events.{written}
use acp_tunnel.Server.Session.Ending.Concluded.{Concluded}
use acp_tunnel.Server.Session.Ending.{Reaping, Ended, final_transport, verdict_of}
use acp_tunnel.Client.Socket.{ResumeCredentials, Socket, text, open_socket}
use acp_tunnel.Client.Link.{connected, can_read_stdin}
use acp_tunnel.Client.Options.{Url, Lookup, address, validate_connect_url, validate_options}
use acp_tunnel.Client.Options.Checked.{Guarded, Distinct, validate_options-Guarded}
use acp_tunnel.Client.Shutdown.{
  heard, overdue, failed, requested, Listen, Round, listen, current, graceful_shutdown,
}
use acp_tunnel.Client.Shutdown.Confirmed.{
  Confirmed, graceful_shutdown-Confirmed, graceful_shutdown-ends,
}
use acp_tunnel.Tests.{sample_options, sample_info, sample_credentials, sample_ready}
use acp_tunnel.Tests.Tunnels.{session1}

abbrev waits : List Listen
waits =
    record { starts = 3; hearing = heard (text (ok (Envelope.stderr "bye"))); pong_fails = false }
    ∷ record {
      starts = 4;
      hearing = heard (text (ok (shutdown_complete (some 0) none)));
      pong_fails = false;
    }
    ∷ []

-- The socket at hand breaks; on a new one the server confirms.
abbrev two_rounds : List Round
two_rounds =
    record { starts = 0; opened = none; ends = 1; request = failed; listens = [] }
    ∷ record {
      starts = 2;
      opened = some (sample_ready true);
      ends = 2;
      request = requested;
      listens = waits;
    }
    ∷ []

graceful_shutdown-Confirmed_example : Confirmed two_rounds
unfolding graceful_shutdown current open_socket listen
graceful_shutdown-Confirmed_example =
    graceful_shutdown-Confirmed sample_options sample_info sample_credentials 9 true two_rounds refl

-- The socket at hand breaks, and the next round starts at the deadline.
abbrev late_rounds : List Round
late_rounds =
    record {
      starts = 0;
      opened = none;
      ends = 1;
      request = failed;
      listens = record { starts = 9; hearing = overdue; pong_fails = false } ∷ [];
    }
    ∷ record {
      starts = 9;
      opened = none;
      ends = 9;
      request = failed;
      listens = record { starts = 9; hearing = overdue; pong_fails = false } ∷ [];
    }
    ∷ []

graceful_shutdown-ends_example :
    graceful_shutdown sample_options sample_info sample_credentials 9 true late_rounds ≢ none
graceful_shutdown-ends_example =
    graceful_shutdown-ends sample_options sample_info sample_credentials 9 true late_rounds
      (inl (omega arith), (inl (omega arith), tt)) (inr (inl (omega arith)))

abbrev no_names : Lookup
no_names name = err (Error.network name)

abbrev local_url : Url
local_url = record { scheme = "ws"; host = some (address true) }

validate_options-Guarded_example :
    Guarded no_names local_url
    × Distinct [] []
    × (64 ≤ 256)
    × ((info : ClientInfo) (credentials : ResumeCredentials)
          (shut_down : ShutdownReason → Result (Unit {0})) (now : ℕ) (socket : Socket)
        → can_read_stdin sample_options info credentials shut_down (connected now socket) ≡ true)
unfolding validate_options validate_id validate_connect_url
validate_options-Guarded_example = validate_options-Guarded no_names local_url sample_options refl

abbrev exited : ExitStatus
exited = record { code = some 0; signal = none }

abbrev reap_well : Bool → Reaping → Result ExitStatus
reap_well _ _ = ok exited

abbrev ended1 : Ended
ended1 = record {
  status = exited;
  stdin_open = true;
  transport = final_transport written exited "server_shutdown" session1;
  verdict = verdict_of "server_shutdown" exited;
}
