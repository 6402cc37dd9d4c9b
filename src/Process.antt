-- ===== src/Process.antt =====
-- src/process.rs: the environment that an agent is started with, and what it is launched with. The
-- launch itself is a call of the operating system; the server's own environment is an argument.
pub mod Merged
pub mod Reaping
use acp_tunnel.Common.{
  ℕ, String, ◌≡◌, Bool, true, false, Option, none, some, List, [], ◌∷◌, Dict, get, insert,
  or_insert, contains, contains_char, format, quoted,
}
use acp_tunnel.Fault.{Error, Result, ok, err, ◌>>=◌, ◌>>◌, fail_if}
use acp_tunnel.Config.{AgentConfig, McpServerConfig}
use acp_tunnel.Config.Names.{validate_environment_name}
use acp_tunnel.Protocol.{ClientEnvironmentVariable, ClientEnvironment}

pub record ExitStatus : Type 0 where
  pub code : Option ℕ
  pub signal : Option ℕ

-- `std::env::var` of a list of names, those that are set.
unfoldable pub inherited : (String → Option String) → List String → Dict String → Dict String
inherited variable [] selected = selected
inherited variable (name ∷ names) selected = elim (variable name) [
  | none ↦ inherited variable names selected
  | some value ↦ inherited variable names (insert name value selected)
]

-- `extend`: a later entry replaces an earlier one.
unfoldable pub extend : Dict String → Dict String → Dict String
extend selected [] = selected
extend selected ((name, value) ∷ fixed) = extend (insert name value selected) fixed

unfoldable pub selected_environment :
    (String → Option String) → List String → Dict String → Dict String
selected_environment variable pass_env fixed = extend (inherited variable pass_env []) fixed

unfoldable pub selected_mcp_environment : (String → Option String) → McpServerConfig → Dict String
selected_mcp_environment variable config = selected_environment variable config.pass_env config.env

abbrev pub invalid_name : Result (Unit {0}) → Result (Unit {0})
invalid_name (ok _) = ok tt
invalid_name (err _) = err (Error.protocol "client environment has an invalid variable name")

module _ (allowlist : List String) where
  -- The checks of one client variable; `seen` has the names before it.
  unfoldable pub check_variable : List String → ClientEnvironmentVariable → Result (Unit {0})
  check_variable seen v = do
    invalid_name (validate_environment_name "client agent" "request" v.name)
    fail_if (contains_char 0 v.value)
        (Error.protocol "client environment has an invalid variable value")
    fail_if (contains v.name seen)
        (Error.protocol "client environment contains a duplicate variable name")
    fail_if (not_listed v.name) (
        Error.protocol (
          format (
            "client environment variable "
            ∷ quoted v.name
            ∷ " is not allowlisted for this agent"
            ∷ [])))
    where
      not_listed : String → Bool
      not_listed name = elim (contains name allowlist) [ true ↦ false | false ↦ true ]

  -- The loop of `merge_agent_environment`.
  unfoldable pub merge_variables :
      List String → Dict String → ClientEnvironment → Result (Dict String)
  merge_variables seen merged [] = ok merged
  merge_variables seen merged (v ∷ vs) =
      check_variable seen v >> merge_variables (v.name ∷ seen) (or_insert v.name v.value merged) vs

unfoldable pub merge_agent_environment :
    (String → Option String) → AgentConfig → ClientEnvironment → Result (Dict String)
merge_agent_environment variable config environment =
    merge_variables config.client_env_allowlist []
      (selected_environment variable config.pass_env config.env) environment
