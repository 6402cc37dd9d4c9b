-- ===== src/Tests/Inits.antt =====
-- Examples of the theorem about the first configuration of a server.
use acp_tunnel.Common.{
  Bool, is_blank, strip_suffix, same_text, insert, ◌≡◌, refl, none, some, [], ◌∷◌, get, true, false,
  contains_char,
}
use acp_tunnel.Fault.{Error, ok, err}
use acp_tunnel.Config.Names.{
  validate_id, is_id, is_id_rest, is_lower_or_digit, validate_environment_name,
}
use acp_tunnel.Config.{validate, validate_limits, validate_tls}
use acp_tunnel.Credentials.{
  read_token_file, validate_token_text, without_line_end, has_newline, new_token,
}
use acp_tunnel.Setup.Executable.{resolve_executable, canonical_executable, is_executable}
use acp_tunnel.Files.{
  lift, done, required, call, call_or, write_all, ◌>>=◌, exists_at, set_permissions, create_new,
  create_dirs, file, directory, World, answered,
}
use acp_tunnel.Config.{deny}
use acp_tunnel.Files.Frame.{Stands}
use acp_tunnel.Setup.Init.{
  InitOptions, Machine, initialize_server, check_names, refuse_existing, locate_workspace,
  symlink_metadata, load_token_file, load, ensure_token, generate, write_config,
}
use acp_tunnel.Setup.Init.Initialized.{Outcome, initialize_server-Outcome}
use acp_tunnel.Setup.Private.{
  write_private_file, set_private_directory_permissions, set_private_file_permissions, exists,
  write_or, sibling_path, replace_private_file,
}
use acp_tunnel.Tests.{sample_config}
use acp_tunnel.Tests.Setups.{sample_paths, sample_probe, whole}

abbrev sample_machine : Machine
sample_machine = record {
  paths = sample_paths;
  fault = λ _. none;
  reach = whole;
  os = sample_probe;
  search_path = none;
  lib = record { is_absolute = λ _. true; parse_url = λ _. none };
  to_string_pretty = λ _. answered "x";
  from_str = λ _. ok sample_config;
  as_bytes = λ _. 120 ∷ [];
  from_utf8 = λ _. some "x";
  random = λ _. "r";
}

abbrev sample_init : Bool → InitOptions
sample_init force = record {
  config_path = "c";
  token_path = "t";
  agent_id = "a";
  command = "/bin/agent";
  workspace_id = "w";
  workspace_path = "/w";
  pass_env = "HOME" ∷ [];
  client_env_allowlist = [];
  mcp_policy = deny;
  force = force;
}

-- A token stands already, and another file.
abbrev fresh_world : World
fresh_world = record {
  entries = ("d", directory 448) ∷ ("t", file 384 (115 ∷ 10 ∷ [])) ∷ ("n", file 420 (1 ∷ [])) ∷ [];
  calls = 0;
}

initialize_server-Outcome_example :
    Stands (initialize_server sample_machine (sample_init false) fresh_world).1.entries "n" (1 ∷ [])
    × Outcome sample_machine
        (sample_init false)
        (initialize_server sample_machine (sample_init false) fresh_world).1.entries
        (initialize_server sample_machine (sample_init false) fresh_world).0
unfolding get
initialize_server-Outcome_example =
    initialize_server-Outcome sample_machine (sample_init false) "n" (1 ∷ []) fresh_world refl
      (420, refl)

initialized_once :
    get "c" (initialize_server sample_machine (sample_init false) fresh_world).1.entries
    ≡ some (file 384 (120 ∷ []))
unfolding initialize_server check_names refuse_existing locate_workspace symlink_metadata
    load_token_file load ensure_token generate write_config write_private_file
    set_private_directory_permissions set_private_file_permissions exists write_or
    replace_private_file sibling_path lift done required call call_or write_all ◌>>=◌ exists_at
    set_permissions create_new create_dirs validate_id is_id is_id_rest is_lower_or_digit
    validate_environment_name is_blank contains_char resolve_executable canonical_executable
    is_executable read_token_file validate_token_text without_line_end has_newline new_token
    strip_suffix same_text validate validate_limits validate_tls get insert
initialized_once = refl

-- `--force` is refused where no configuration stands.
forced_too_early :
    (initialize_server sample_machine (sample_init true) fresh_world).0
    ≡ err (Error.config "cannot set permissions on c: not found")
unfolding initialize_server check_names refuse_existing locate_workspace symlink_metadata
    load_token_file load ensure_token generate write_config write_private_file
    set_private_directory_permissions set_private_file_permissions exists write_or
    replace_private_file sibling_path lift done required call call_or write_all ◌>>=◌ exists_at
    set_permissions create_new create_dirs validate_id is_id is_id_rest is_lower_or_digit
    validate_environment_name is_blank contains_char resolve_executable canonical_executable
    is_executable read_token_file validate_token_text without_line_end has_newline new_token
    strip_suffix same_text validate validate_limits validate_tls get insert
forced_too_early = refl
