-- ===== src/Policy.antt =====
-- src/policy.rs: what the server changes in the client's lines.
--
-- JSON values are those of serde_json, an argument here, as is the value that the schema crate makes
-- of a configured MCP server. The server's own environment is an argument.
pub mod Environment
pub mod Enforced
use acp_tunnel.Common.{
  ℕ, String, ◌≡◌, Bool, true, false, ◌&&◌, ◌||◌, not, Option, none, some, List, [], ◌∷◌, Dict, get,
  insert, or_insert, contains, contains_key, format, quoted, str_eq, if◌then◌else◌,
}
use acp_tunnel.Fault.{Error, Result, ok, err, ◌>>=◌}
use acp_tunnel.Files.{Answer, answered, failed}
use acp_tunnel.Config.{McpPolicy, McpServerConfig, deny, allowlisted, passthrough, is_passthrough}
use acp_tunnel.Config.Names.{validate_environment_name}
use acp_tunnel.Process.{selected_mcp_environment}
use acp_tunnel.Policy.Environment.{
  JsonLib, Ruled, pass, fail, and_then, required, text_member, merge_mcp_environment,
}

pub data PolicyOutcome : Type 0 where
  forward : String → PolicyOutcome
  reject : String → PolicyOutcome

pub record AcpPolicy : Type 0 where
  pub workspace_path : String
  pub rewrite_cwd : Bool
  pub mcp_policy : McpPolicy
  pub mcp_servers : Dict McpServerConfig

abbrev pub session_new : String
session_new = "session/new"

unfoldable pub is_lifecycle : String → Bool
is_lifecycle method = contains method (session_new ∷ "session/load" ∷ "session/resume" ∷ [])

module _ (lib : JsonLib) where
  open lib use {
    Value, from_str, sniff_method, to_string, null, text, negative, array, object, as_str, as_array,
    as_object, stdio_server,
  }

  module _ (variable : String → Option String) (policy : AcpPolicy) where
    abbrev pub members_of : Value → Dict Value
    members_of v = elim (as_object v) [ none ↦ [] | some members ↦ members ]

    abbrev pub constructed : String → Answer Value → Ruled Value
    constructed name (answered v) = pass v
    constructed name (failed error) =
        fail (format ("cannot construct MCP server " ∷ quoted name ∷ ": " ∷ error ∷ []))

    abbrev pub construct : String → McpServerConfig → Dict String → Ruled Value
    construct name configured environment =
        constructed name (stdio_server name configured.command configured.args environment)

    unfoldable pub configured_mcp : Dict Value → String → McpServerConfig → Ruled Value
    unfolding merge_mcp_environment
    configured_mcp members name configured =
        and_then
          (merge_mcp_environment lib (selected_mcp_environment variable configured)
            configured.client_env_allowlist (get "env" members))
          (construct name configured)

    unfoldable pub named_mcp : Dict Value → String → Ruled Value
    unfolding configured_mcp
    named_mcp members name =
        and_then
          (required (get name policy.mcp_servers)
            (format ("MCP server " ∷ quoted name ∷ " is not allowlisted" ∷ [])))
          (configured_mcp members name)

    -- The configured server that takes the place of one of the client's.
    unfoldable pub replacement : Value → Ruled Value
    unfolding named_mcp
    replacement server =
        and_then
          (required (text_member lib "name" (members_of server))
            "each MCP server must have a string name")
          (named_mcp (members_of server))

    unfoldable pub replacements : List Value → Ruled (List Value)
    unfolding replacement
    replacements [] = pass []
    replacements (server ∷ servers) =
        and_then (replacement server) λ v. and_then (replacements servers) λ vs. pass (v ∷ vs)

    unfoldable pub allow_listed : Dict Value → Ruled (Dict Value)
    unfolding replacements
    allow_listed params = elim (get "mcpServers" params) [
      | none ↦ pass params
      | some incoming ↦
          and_then (required (as_array incoming) "params.mcpServers must be an array") λ servers.
            and_then (replacements servers)
              λ configured. pass (insert "mcpServers" (array configured) params)
    ]

    unfoldable pub apply_mcp : McpPolicy → Dict Value → Ruled (Dict Value)
    unfolding allow_listed
    apply_mcp passthrough params = pass params
    apply_mcp deny params = pass (insert "mcpServers" (array []) params)
    apply_mcp allowlisted params = allow_listed params

    abbrev pub printed : Value → Result String
    printed v = elim (to_string v) [
      | failed error ↦ err (Error.json error)
      | answered line ↦ ok line
    ]

    unfoldable pub json_rpc_error : Value → ℕ → String → Result String
    json_rpc_error id code message = printed (
        object (
          ("error", object (("code", negative code) ∷ ("message", text message) ∷ []))
          ∷ ("id", id)
          ∷ ("jsonrpc", text "2.0")
          ∷ []))

    abbrev pub id_of : Dict Value → Value
    id_of root = elim (get "id" root) [ none ↦ null | some id ↦ id ]

    -- What the rules of MCP make of a `session/new` request.
    abbrev pub ruled : Dict Value → Ruled (Dict Value) → Result PolicyOutcome
    ruled root (pass params) =
        printed (object (insert "params" (object params) root)) >>= λ line. ok (forward line)
    ruled root (fail message) =
        json_rpc_error (id_of root) 32001 message >>= λ line. ok (reject line)

    abbrev pub located : Dict Value → Dict Value
    located params =
        if policy.rewrite_cwd then insert "cwd" (text policy.workspace_path) params else params

    unfoldable pub rewrite : String → Dict Value → Dict Value → Result PolicyOutcome
    unfolding apply_mcp json_rpc_error
    rewrite method root params = ruled root (
        if str_eq method session_new
        then apply_mcp policy.mcp_policy (located params)
        else pass (located params))

    -- `entry("params").or_insert_with(..)`
    abbrev pub params_of : Dict Value → Value
    params_of root = elim (get "params" root) [ none ↦ object [] | some params ↦ params ]

    unfoldable pub rewrite_document : String → Value → Result PolicyOutcome
    unfolding rewrite
    rewrite_document method document = elim (as_object document) [
      | none ↦ err (Error.policy "lifecycle JSON-RPC request must be an object")
      | some root ↦ elim (as_object (params_of root)) [
        | none ↦ err (Error.policy "lifecycle JSON-RPC params must be an object")
        | some members ↦ rewrite method root members
      ]
    ]

    -- Is a request of this method left alone?
    abbrev pub is_untouched : String → Bool
    is_untouched method =
        not (is_lifecycle method)
        || not policy.rewrite_cwd
          && (not (str_eq method session_new) || is_passthrough policy.mcp_policy)

    unfoldable pub apply : String → Result PolicyOutcome
    unfolding rewrite_document
    apply line = elim (sniff_method line) [
      | none ↦ ok (forward line)
      | some method ↦ if is_untouched method then ok (forward line) else elim (from_str line) [
        | failed error ↦
            err (Error.policy (format ("invalid lifecycle JSON-RPC request: " ∷ error ∷ [])))
        | answered document ↦ rewrite_document method document
      ]
    ]
