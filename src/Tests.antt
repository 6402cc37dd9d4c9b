-- ===== src/Tests.antt =====
-- Samples that the examples of the theorems run on.
pub mod Ends
pub mod Closing
pub mod Tokens
pub mod Doors
pub mod Tunnels
pub mod Setups
pub mod Inits
pub mod Sockets
pub mod Tables
pub mod Proposals
pub mod Reaping
use acp_tunnel.Common.{ℕ, String, Bool, true, false, Option, none, some, List, [], ◌∷◌, str_eq}
use acp_tunnel.Fault.{Error, Result, ok, err}
use acp_tunnel.Config.{ServerConfig}
use acp_tunnel.Policy.{PolicyOutcome, forward, reject}
use acp_tunnel.Protocol.{ClientInfo, Envelope, ShutdownReason, tunnel_version}
use acp_tunnel.Client.Socket.{ConnectOptions, ResumeCredentials, Message, text, Reply, received}

abbrev pub sample_config : ServerConfig
sample_config = record {
  listen_loopback = true;
  max_frame_bytes = 64;
  connection_timeout_seconds = 10;
  keepalive_interval_seconds = 15;
  keepalive_timeout_seconds = 45;
  shutdown_timeout_seconds = 5;
  reconnect_grace_seconds = 60;
  max_replay_frames = 8;
  max_replay_bytes = 256;
  channel_capacity = 4;
  diagnostic_channel_capacity = 4;
  diagnostic_line_bytes = 64;
  rewrite_cwd = true;
  allow_insecure_mcp_passthrough = false;
  allowed_origins = [];
  tls = none;
  agents = [];
  workspaces = [];
  mcp_servers = [];
}

abbrev pub sample_options : ConnectOptions
sample_options = record {
  agent = "fake";
  workspace = "project";
  client_environment = [];
  max_frame_bytes = 64;
  max_replay_frames = 8;
  max_replay_bytes = 256;
  connection_timeout = 10;
  keepalive_timeout = 45;
  reconnect_timeout = 60;
  shutdown_timeout = 5;
}

abbrev pub sample_info : ClientInfo
sample_info = record { name = "acp-tunnel"; version = "0.1.0" }

abbrev pub sample_credentials : ResumeCredentials
sample_credentials = record { connection_id = "c1"; resume_token = "t1" }

-- A policy that refuses one line and forwards the others.
abbrev pub sample_apply : String → Result PolicyOutcome
sample_apply p = elim (str_eq p "new") [ true ↦ ok (reject "no") | false ↦ ok (forward p) ]

abbrev pub sample_shut_down : ShutdownReason → Result (Unit {0})
sample_shut_down _ = ok tt

-- The answer of a server that accepts a new session, or resumes one.
abbrev pub sample_ready : Bool → Reply
sample_ready resumed = received (text (ok (Envelope.ready tunnel_version "c1" (some "t1") resumed)))
