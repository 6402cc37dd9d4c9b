-- ===== src/Config/Valid.antt =====
-- What a configuration that passes the validation grants to the rest of the program.
use acp_tunnel.Common.{
  String, ◌≤◌, ◌<◌, ◌≡◌, true, List, [], ◌∷◌, All, All-map, arith, contains_key,
}
use acp_tunnel.Fault.{Result, ok, >>-eq-ok}
use acp_tunnel.Config.{
  AgentConfig, WorkspaceConfig, ServerConfig, passthrough, is_passthrough, for_each,
  validate_limits, PathLib, validate_workspace, validate_workspace_reference, validate_agent,
  validate_command, validate_environment, validate,
}
use acp_tunnel.Config.Names.{validate_id, validate_environment_name}

for_each-All {ℓ} :
    {A : Type ℓ} (f : A → Result (Unit {0})) (xs : List A)
    → for_each f xs ≡ ok tt
    → All (λ x. f x ≡ ok tt) xs
for_each-All f [] e = tt
for_each-All f (x ∷ xs) e =
    let (h, rest) = >>-eq-ok (f x) (for_each f xs) e in (h, for_each-All f xs rest)

pub record Limits (c : ServerConfig) : Type 0 where
  pub frame : 1 ≤ c.max_frame_bytes
  pub channel : 1 ≤ c.channel_capacity
  pub replay_frames : 1 ≤ c.max_replay_frames
  pub frame-le-replay : c.max_frame_bytes ≤ c.max_replay_bytes
  pub grace : 1 ≤ c.reconnect_grace_seconds
  pub replay_bytes : 1 ≤ c.max_replay_bytes
  pub diagnostic_channel : 1 ≤ c.diagnostic_channel_capacity
  pub diagnostic_line : 1 ≤ c.diagnostic_line_bytes
  pub connection_timeout : 1 ≤ c.connection_timeout_seconds
  pub shutdown_timeout : 1 ≤ c.shutdown_timeout_seconds
  pub keepalive_interval : 1 ≤ c.keepalive_interval_seconds
  pub keepalive : c.keepalive_interval_seconds < c.keepalive_timeout_seconds

validate_limits-Limits : (c : ServerConfig) → validate_limits c ≡ ok tt → Limits c
unfolding validate_limits
validate_limits-Limits c e = record {
  frame = ground arith;
  channel = ground arith;
  replay_frames = ground arith;
  frame-le-replay = ground arith;
  grace = ground arith;
  replay_bytes = ground arith;
  diagnostic_channel = ground arith;
  diagnostic_line = ground arith;
  connection_timeout = ground arith;
  shutdown_timeout = ground arith;
  keepalive_interval = ground arith;
  keepalive = ground arith;
}

-- What the validation asks of an agent.
pub record Sound (c : ServerConfig) (agent : AgentConfig) : Type 0 where
  pub workspaces : All (λ w. contains_key w c.workspaces ≡ true) agent.workspaces
  pub opted_in : agent.mcp_policy ≡ passthrough → c.allow_insecure_mcp_passthrough ≡ true

reference-Sound :
    (c : ServerConfig) (id w : String)
    → validate_workspace_reference c id w ≡ ok tt
    → contains_key w c.workspaces ≡ true
unfolding validate_workspace_reference
reference-Sound c id w e = let (_, known) = >>-eq-ok (validate_id "workspace" w) _ e in ground arith

agent-Sound :
    (c : ServerConfig) (entry : String × AgentConfig)
    → validate_agent c entry ≡ ok tt
    → Sound c entry.1
unfolding validate_agent is_passthrough
agent-Sound c (id, agent) e =
    let (_, e1) = >>-eq-ok (validate_id "agent" id) _ e in
    let (_, e2) = >>-eq-ok (validate_command "agent" id agent.command) _ e1 in
    let (refs, e3) =
      >>-eq-ok (for_each (validate_workspace_reference c id) agent.workspaces) _ e2 in
    let (_, e4) = >>-eq-ok (validate_environment "agent" id agent.pass_env agent.env) _ e3 in
    let (_, last) =
      >>-eq-ok (for_each (validate_environment_name "agent" id) agent.client_env_allowlist) _ e4 in
    record {
      workspaces =
          All-map (reference-Sound c id) agent.workspaces
            (for_each-All (validate_workspace_reference c id) agent.workspaces refs);
      opted_in = λ p. ground arith;
    }

workspace-absolute :
    (lib : PathLib) (entry : String × WorkspaceConfig)
    → validate_workspace lib entry ≡ ok tt
    → lib.is_absolute entry.1.path ≡ true
unfolding validate_workspace
workspace-absolute lib (id, w) e =
    let (_, absolute) = >>-eq-ok (validate_id "workspace" id) _ e in ground arith

-- A configuration that passes the validation has sizes and times that are positive and in order,
-- every workspace that an agent names, no agent with MCP passthrough unless that was opted into,
-- and only absolute workspace paths.
pub validate-Valid :
    (lib : PathLib) (c : ServerConfig)
    → validate lib c ≡ ok tt
    → Limits c
      × All (λ (entry : String × AgentConfig). Sound c entry.1) c.agents
      × All (λ (entry : String × WorkspaceConfig). lib.is_absolute entry.1.path ≡ true) c.workspaces
unfolding validate
validate-Valid lib c e =
    let (limits, e1) = >>-eq-ok (validate_limits c) _ e in
    let (workspaces, e2) = >>-eq-ok (for_each (validate_workspace lib) c.workspaces) _ e1 in
    let (agents, e3) = >>-eq-ok (for_each (validate_agent c) c.agents) _ e2 in
    (
      validate_limits-Limits c limits,
      All-map (agent-Sound c) c.agents (for_each-All (validate_agent c) c.agents agents),
      All-map (workspace-absolute lib) c.workspaces
          (for_each-All (validate_workspace lib) c.workspaces workspaces),
    )
