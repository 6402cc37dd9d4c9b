-- ===== src/Cli/Init.antt =====
-- src/main.rs: the init command, from its options and prompts to the options of `initialize_server`.
--
-- What a prompt meets is a script: whether the terminal takes the question, and the line that is read; at
-- the end of the input every line is empty. The trimming and the lower case of a text are arguments.
use Prim.Native.Char.{code}
use Prim.Native.String as Text
use acp_tunnel.Common.{
  String, Bool, true, false, ◌||◌, Option, none, some, List, [], ◌∷◌, ◌==◌, str_eq, str_ltb,
  is_blank, format, if◌then◌else◌,
}
use acp_tunnel.Fault.{Error, config, Result, ok, err, ok_or}
use acp_tunnel.Fault as Fault
use acp_tunnel.Files.{Answer, or_config}
use acp_tunnel.Config.{McpPolicy, deny, allowlisted, passthrough}
use acp_tunnel.Config.Names.{validate_environment_name}
use acp_tunnel.Paths.{default_token_file, resolve_server_config_file, or_default}
use acp_tunnel.Setup.Service.{replace_char}
use acp_tunnel.Setup.Init.{InitOptions}
use acp_tunnel.Setup.Doctor.Notices.{buzz_client_environment}
use acp_tunnel.Cli.{default_workspace_id}

pub record Words : Type 0 where
  pub trim : String → String
  pub to_ascii_lowercase : String → String
  pub to_lowercase : String → String

pub record Exchange : Type 0 where
  pub asked : Answer (Unit {0})
  pub read : Answer String

abbrev pub Dialog : Type 0 → Type 0
Dialog A = List Exchange → Result A × List Exchange

infixl 5 ◌>>=◌
unfoldable pub ◌>>=◌ : {A B : Type 0} → Dialog A → (A → Dialog B) → Dialog B
◌>>=◌ first rest script = elim (first script).0 [
  | ok a ↦ rest a (first script).1
  | err e ↦ (err e, (first script).1)
]

unfoldable pub give : {A : Type 0} → Result A → Dialog A
give r script = (r, script)

-- `split(',')`
abbrev onto : Text.String → List String → List String
onto s [] = s ∷ []
onto s (part ∷ parts) = format (s ∷ part ∷ []) ∷ parts

unfoldable pub split_commas : String → List String
split_commas Text.[] = "" ∷ []
split_commas (Text.◌∷◌ c s) =
    let rest = split_commas s in
    if code c == b',' then "" ∷ rest else onto (Text.◌∷◌ c Text.[]) rest

pub record InitCommandOptions : Type 0 where
  pub config_file : Option String
  pub token_file : Option String
  pub agent : Option String
  pub agent_command : Option String
  pub workspace : Option String
  pub workspace_path : Option String
  pub pass_env : List String
  pub buzz : Bool
  pub mcp_policy : Option McpPolicy
  pub force : Bool

-- `BTreeSet::insert`, on the members in their order.
unfoldable pub insert_name : String → List String → List String
insert_name name [] = name ∷ []
insert_name name (other ∷ names) =
    if str_eq name other
    then other ∷ names
    else if str_ltb name other
    then name ∷ other ∷ names
    else other ∷ insert_name name names

-- `collect()` into a set.
unfoldable pub collect_names : List String → List String → List String
unfolding insert_name
collect_names set [] = set
collect_names set (name ∷ names) = collect_names (insert_name name set) names

module _ (words : Words) where
  unfoldable pub answer_or_default : String → Option String → String → Result String
  answer_or_default label default input =
      if is_blank (words.trim input)
      then ok_or default
          (config (format (words.to_ascii_lowercase label ∷ " must not be empty" ∷ [])))
      else ok (words.trim input)

  unfoldable pub ask : String → Option String → Exchange → Result String
  unfolding answer_or_default
  ask label default exchange =
      Fault.◌>>=◌
        (or_config exchange.asked (λ error. format ("cannot write prompt: " ∷ error ∷ [])))
        λ _.
          Fault.◌>>=◌
            (or_config exchange.read
              (λ error. format ("cannot read prompt response: " ∷ error ∷ [])))
            (answer_or_default label default)

  unfoldable pub prompt : String → Option String → Dialog String
  unfolding ask
  prompt label default [] = (answer_or_default label default "", [])
  prompt label default (exchange ∷ script) = (ask label default exchange, script)

  abbrev pub not_a_terminal : String → Error
  not_a_terminal label = config (
      format (
        "use --"
        ∷ replace_char 32 "-" (words.to_ascii_lowercase label)
        ∷ " when stdin is not a terminal"
        ∷ []))

  -- Also `required_path`, for a path is a text.
  unfoldable pub required_value : Option String → Bool → String → Option String → Dialog String
  unfolding give
  required_value (some value) interactive label default = give (ok value)
  required_value none true label default = prompt label default
  required_value none false label default = give (err (not_a_terminal label))

  unfoldable pub yes_or_no : String → String → Result Bool
  yes_or_no label answer =
      if str_eq answer "y" || str_eq answer "yes"
      then ok true
      else if str_eq answer "n" || str_eq answer "no"
      then ok false
      else err (config (format (label ∷ " requires a yes or no response" ∷ [])))

  unfoldable pub prompt_yes_no : String → Bool → Dialog Bool
  unfolding give yes_or_no
  prompt_yes_no label default =
      let marker = if default then "Y/n" else "y/N" in
      prompt label (some marker) >>= λ answer.
      if str_eq answer marker
      then give (ok default)
      else give (yes_or_no label (words.to_ascii_lowercase answer))

  unfoldable pub policy_of : String → Result McpPolicy
  policy_of answer =
      if str_eq answer "passthrough"
      then ok passthrough
      else if str_eq answer "allowlisted"
      then ok allowlisted
      else if str_eq answer "deny"
      then ok deny
      else err (config "unknown MCP policy")

  unfoldable pub prompt_mcp_policy : Dialog McpPolicy
  unfolding give policy_of
  prompt_mcp_policy =
      prompt "MCP policy (passthrough, allowlisted, or deny)" (some "passthrough") >>= λ answer.
      give (policy_of (words.to_ascii_lowercase answer))

  -- The names that are not blank, each checked and then put into the set.
  unfoldable pub checked_names : List String → List String → Result (List String)
  unfolding insert_name
  checked_names names [] = ok names
  checked_names names (part ∷ parts) =
      let name = words.trim part in
      let without = checked_names names parts in
      let further = checked_names (insert_name name names) parts in
      if is_blank name
      then without
      else Fault.◌>>◌ (validate_environment_name "generated agent" "environment" name) further

  unfoldable pub parse_environment_names : String → Result (List String)
  unfolding checked_names split_commas
  parse_environment_names text = checked_names [] (split_commas text)

  unfoldable pub inherited_names : Bool → List String → Dialog (List String)
  unfolding give parse_environment_names collect_names
  inherited_names interactive (name ∷ names) = give (ok (collect_names [] (name ∷ names)))
  inherited_names true [] = prompt "Inherited environment names" (some "HOME,PATH") >>= λ text.
      give (parse_environment_names text)
  inherited_names false [] = give (ok ("HOME" ∷ "PATH" ∷ []))

  unfoldable pub accepts_buzz : Bool → Bool → Dialog Bool
  unfolding give
  accepts_buzz true false = prompt_yes_no "Accept Buzz session variables" true
  accepts_buzz interactive buzz = give (ok buzz)

  unfoldable pub chosen_policy : Bool → Option McpPolicy → Dialog McpPolicy
  unfolding give
  chosen_policy interactive (some policy) = give (ok policy)
  chosen_policy true none = prompt_mcp_policy
  chosen_policy false none = give (ok passthrough)

  -- The options that `run_init` gives to `initialize_server`.
  unfoldable pub run_init :
      (String → String → String)
      → Option String
      → Bool
      → Answer String
      → (String → Option String)
      → InitCommandOptions
      → Dialog InitOptions
  run_init join home interactive current_dir file_name options = do
    config_path ← give (resolve_server_config_file join home options.config_file)
    token_path ← give (
        ok_or (or_default options.token_file (default_token_file join home))
          (config "use --token-file because HOME is unavailable"))
    here ← give (
        or_config current_dir
          (λ error. format ("cannot read the current directory: " ∷ error ∷ [])))
    agent_id ← required_value options.agent interactive "Agent ID" (some "agent")
    command ← required_value options.agent_command interactive "Agent command" none
    workspace_id ←
        required_value options.workspace interactive "Workspace ID"
          (default_workspace_id words.to_lowercase (file_name here))
    workspace_path ← required_value options.workspace_path interactive "Workspace path" (some here)
    pass_env ← inherited_names interactive options.pass_env
    buzz ← accepts_buzz interactive options.buzz
    mcp_policy ← chosen_policy interactive options.mcp_policy
    give (
        ok (record {
          config_path = config_path;
          token_path = token_path;
          agent_id = agent_id;
          command = command;
          workspace_id = workspace_id;
          workspace_path = workspace_path;
          pass_env = pass_env;
          client_env_allowlist = if buzz then collect_names [] buzz_client_environment else [];
          mcp_policy = mcp_policy;
          force = options.force;
        }))
