-- ===== src/Lib.antt =====
-- acp-tunnel carries ACP, one JSON line at a time, between an editor and an agent that runs on
-- another machine. A connector (src/client.rs) reads lines from its standard input and sends them
-- as numbered frames over a WebSocket; a server (src/server.rs) runs one session for each agent,
-- applies a policy to the lines, writes them to the agent and sends the agent's lines back. Either
-- end keeps the frames that the other has not acknowledged, and replays them on a new socket when
-- the connector resumes its session.
--
-- Which file models which part:
--   Fault             src/error.rs: `Error` and `Result`
--   Protocol          src/protocol.rs: `Envelope`, `OpenRequest`, `ShutdownReason` and their parts;
--                     Reasons the names of the reasons
--   Config            src/config.rs: `ServerConfig` and `validate`; Names the names, Valid the proofs
--   Policy            src/policy.rs: `AcpPolicy` and `apply`, over a JSON library; in Environment
--                     the environment that a client asks for its MCP servers
--   Process           src/process.rs: the environment of an agent and what `spawn` launches;
--                     Reaping the end of an agent, on Unix
--   Files             the calls of std::fs that the program makes, each of which may fail
--   Paths             src/paths.rs: the files that are used where none is named
--   Cli               src/main.rs: `default_workspace_id`; Init the prompts of `run_init`
--   Setup.Init        src/setup.rs, src/config.rs: `initialize_server` and `ServerConfig::load`
--   Setup.Private     src/setup.rs: `write_private_file`, `replace_private_file`
--   Setup.Executable  src/setup.rs: `resolve_executable`
--   Setup.Service     src/setup.rs: `generate_user_service`
--   Setup.Doctor      src/setup.rs, src/main.rs: `diagnose_server` and the doctor command
--   Auth              src/auth.rs: the comparison in `authenticate`
--   Credentials       src/credentials.rs: the sources of a token, its file and its text
--   Server.Access     src/server.rs, src/auth.rs: `enforce_upgrade_security`, `parse_bearer`
--   Server.Opening    src/server.rs: `read_open`, `prepare_agent`, `resume_tunnel`
--   Server.Tunnels    src/server.rs: `run_tunnel` on the table of sessions
--   Server.Replay     src/server.rs: `replay_fits`, `queue_server_frame`, the acknowledgement
--   Server.Transport  src/server.rs: `TransportHandle`, `attach_transport`, `pump_replay`
--   Server.Socket     src/server.rs: `spawn_transport`, the task between the channel and the WebSocket
--   Server.Readers    src/server.rs: `spawn_agent_stdout`, `spawn_stderr`
--   Server.Session    src/server.rs: `handle_client_envelope`, and in Events the loop of
--                     `run_agent_session`: `prepare` is the part of a round before `select!`,
--                     `select` the branch that runs, `enabled` the guards; in Ending the part
--                     after the loop. Abstract holds the session's specification
--   Client.Options    src/client.rs: `validate_options` and the selection of the environment
--   Client.Socket     src/client.rs: `open_socket`, `reconnect_and_replay`
--   Client.Link       src/client.rs: the loop of `connect_with_shutdown`; `step` is one branch
--   Client.Shutdown   src/client.rs: `graceful_shutdown_inner`
--   Tunnel            both ends, with a network between them that may drop, delay, repeat and
--                     reorder whatever was ever sent
--   Outbox, Numbered  what a replay buffer promises: a log of lines, numbered from 1
--   Common, Cause     shared names and lemmas
--   Tests             the theorems at concrete inputs
-- The session and the tunnel take the policy as a function of a line; Policy is one such function.
--
-- State is a record that is passed on; an operation that can fail returns a `Result`. The variables
-- of `run_agent_session` are the fields of `Session`, those of `connect_with_shutdown` the fields of
-- `Link`. What the surroundings do is an argument: the event that `select!` finds ready, the times,
-- what becomes of a command that waits for a reply, how far the setup of a transport gets, and the
-- script of reconnecting attempts. Numbers are natural; sequence numbers, generations and byte
-- counts keep the code's checked, saturating and wrapping arithmetic on 64 bits. The loops go
-- through lists, and the rounds of the two main loops are steps of a relation. Only the polling of
-- a process group takes fuel, two rounds more than sleeps of 25 milliseconds fit into the time
-- allowed, which is enough wherever a sleep takes its time.
-- A file system is a map from paths to nodes; every call of it is numbered, and the operating system
-- may refuse any of them. What an agent's process has done is the list of the answers so far.
-- Messages of errors leave out the numbers that the code prints in them.
--
-- The abstract specifications: an `Outbox` (a log of lines, split into those that the other end has
-- settled and those that wait), a `Spec` of a session (the client lines accepted and the outbox for
-- the client) and a `LinkSpec` of a connector (the outbox of its lines and the payloads printed).
-- `Move` and `LinkMove` say what each may do; the steps of the code are matched by these moves.
--
-- Not modelled: JSON and TOML texts, TLS, HTTP and the WebSocket library, the codec that cuts
-- a pipe into lines, the start of a child process by the operating system, the parsing of the
-- command line, and the variants of the code for Windows.
pub mod Common
pub mod Cause
pub mod Fault
pub mod Protocol
pub mod Config
pub mod Policy
pub mod Outbox
pub mod Process
pub mod Paths
pub mod Files
pub mod Auth
pub mod Credentials
pub mod Numbered
pub mod Server
pub mod Client
pub mod Tunnel
pub mod Setup
pub mod Cli
pub mod Tests
