-- ===== src/Tests/Proposals.antt =====
-- An example of the theorem about the identifier that is proposed for a workspace, and a run of the
-- prompts.
use acp_tunnel.Common.{
  false, none, true, contains_char, [], ◌∷◌, String, ◌≡◌, refl, some, any_char, is_blank,
}
use acp_tunnel.Fault.{ok}
use acp_tunnel.Config.Names.{validate_id, is_lower_or_digit}
use acp_tunnel.Cli.{
  is_ascii_alphanumeric, push_character, collect, pop_separators, default_workspace_id,
}
use acp_tunnel.Files.{answered}
use acp_tunnel.Config.{deny}
use acp_tunnel.Config.Names.{validate_environment_name}
use acp_tunnel.Paths.{resolve_server_config_file}
use acp_tunnel.Cli.Init.{
  Words, Exchange, ◌>>=◌, give, split_commas, InitCommandOptions, answer_or_default, ask, prompt,
  required_value, policy_of, prompt_mcp_policy, checked_names, insert_name, collect_names,
  parse_environment_names, inherited_names, accepts_buzz, chosen_policy, run_init,
}
use acp_tunnel.Cli.Proposed.{default_workspace_id-valid}

-- The lower case of the one name that is looked at.
abbrev sample_lowercase : String → String
sample_lowercase _ = "_my  app_2 "

proposes : default_workspace_id sample_lowercase (some "_My  App_2 ") ≡ some "my-app-2"
unfolding default_workspace_id collect push_character pop_separators is_ascii_alphanumeric
    is_lower_or_digit is_blank
proposes = refl

default_workspace_id-valid_example : validate_id "workspace" "my-app-2" ≡ ok tt
unfolding any_char
default_workspace_id-valid_example =
    default_workspace_id-valid sample_lowercase (some "_My  App_2 ") "my-app-2" (λ _. refl) proposes

-- The words of a terminal, as they are.
abbrev plain : Words
plain = record { trim = λ s. s; to_ascii_lowercase = λ s. s; to_lowercase = sample_lowercase }

abbrev said : String → Exchange
said line = record { asked = answered tt; read = answered line }

abbrev asking : InitCommandOptions
asking = record {
  config_file = some "c";
  token_file = some "t";
  agent = none;
  agent_command = some "/bin/agent";
  workspace = none;
  workspace_path = none;
  pass_env = [];
  buzz = true;
  mcp_policy = none;
  force = false;
}

-- The agent is named, the workspace is the one proposed, two variables are passed.
answers_prompts :
    (run_init plain
      (λ a b. b)
      none
      true
      (answered "/w")
      some
      asking
      (said "coder" ∷ said "" ∷ said "" ∷ said "LANG,,HOME,LANG" ∷ said "deny" ∷ [])).0
    ≡ ok (record {
      config_path = "c";
      token_path = "t";
      agent_id = "coder";
      command = "/bin/agent";
      workspace_id = "my-app-2";
      workspace_path = "/w";
      pass_env = "HOME" ∷ "LANG" ∷ [];
      client_env_allowlist = "BUZZ_AUTH_TAG" ∷ "BUZZ_PRIVATE_KEY" ∷ "BUZZ_RELAY_URL" ∷ [];
      mcp_policy = deny;
      force = false;
    })
unfolding run_init ◌>>=◌ give required_value prompt ask answer_or_default inherited_names
    parse_environment_names checked_names insert_name collect_names split_commas accepts_buzz
    chosen_policy prompt_mcp_policy policy_of resolve_server_config_file validate_environment_name
    contains_char default_workspace_id collect push_character pop_separators is_ascii_alphanumeric
    is_lower_or_digit is_blank
answers_prompts = refl
