-- ===== src/Protocol/Reasons.antt =====
-- src/protocol.rs: the stable names of shutdown reasons.
use acp_tunnel.Common.{String, ◌≡◌, ◌≢◌, refl, str_eq, eq_iff, arith, if◌then◌else◌}
use acp_tunnel.Protocol.{ShutdownReason, stdin_eof, sigterm, interrupt, client_shutdown, unknown}

-- `ShutdownReason::as_str`, which `Serialize` writes.
unfoldable pub as_str : ShutdownReason → String
as_str stdin_eof = "stdin_eof"
as_str sigterm = "sigterm"
as_str interrupt = "interrupt"
as_str client_shutdown = "client_shutdown"
as_str (unknown reason) = reason

-- `Deserialize`, on the string that it reads.
unfoldable pub of_str : String → ShutdownReason
of_str reason =
    if str_eq reason "stdin_eof"
    then stdin_eof
    else if str_eq reason "sigterm"
    then sigterm
    else if str_eq reason "interrupt"
    then interrupt
    else if str_eq reason "client_shutdown"
    then client_shutdown
    else unknown reason

-- Reading any text as a shutdown reason and writing it gives the text back.
pub as_str-of_str : (reason : String) → as_str (of_str reason) ≡ reason
unfolding as_str of_str
as_str-of_str reason = ground (
  arith,
  eq_iff reason "stdin_eof",
  eq_iff reason "sigterm",
  eq_iff reason "interrupt",
  eq_iff reason "client_shutdown",
)

-- An unknown reason that is spelled like none of the four.
abbrev pub IsFuture : ShutdownReason → Type 0
IsFuture (unknown r) =
    (r ≢ "stdin_eof") × (r ≢ "sigterm") × (r ≢ "interrupt") × (r ≢ "client_shutdown")
IsFuture _ = Unit

-- Writing a shutdown reason and reading it gives the reason back, provided an unknown reason is not
-- spelled like a known one.
pub of_str-as_str : (reason : ShutdownReason) → IsFuture reason → of_str (as_str reason) ≡ reason
unfolding as_str of_str
of_str-as_str stdin_eof h = refl
of_str-as_str sigterm h = refl
of_str-as_str interrupt h = refl
of_str-as_str client_shutdown h = refl
of_str-as_str (unknown reason) h = ground (
  arith,
  eq_iff reason "stdin_eof",
  eq_iff reason "sigterm",
  eq_iff reason "interrupt",
  eq_iff reason "client_shutdown",
)
