-- ===== src/Tests/Doors.antt =====
-- Examples of the theorems about who gets in, and about what is let through.
use acp_tunnel.Common.{
  ◌↔◌, ◌⊎◌, ℕ, String, ◌≡◌, refl, true, false, Option, none, some, List, [], ◌∷◌, Dict, get, insert,
  or_insert, contains, is_blank, contains_char, any_char, split_once_space, equals_ignore_case,
  str_eq,
}
use acp_tunnel.Fault.{ok}
use acp_tunnel.Auth.{authenticate, accumulate, byte_at}
use acp_tunnel.Auth.Compared.{authenticate_iff}
use acp_tunnel.Files.{Answer, answered, failed}
use acp_tunnel.Config.{AgentConfig, ServerConfig, deny, passthrough, is_passthrough}
use acp_tunnel.Config.Names.{validate_environment_name}
use acp_tunnel.Policy.Environment.{JsonLib}
use acp_tunnel.Policy.{AcpPolicy, is_lifecycle, rewrite_document, rewrite, apply_mcp, apply}
use acp_tunnel.Policy.Enforced.{Governed, apply-Governed}
use acp_tunnel.Process.{
  inherited, extend, check_variable, merge_variables, merge_agent_environment, selected_environment,
}
use acp_tunnel.Process.Merged.{server_first, sent_value, AllAllowed, merge_agent_environment-Merged}
use acp_tunnel.Protocol.{ResumeRequest, OpenRequest}
use acp_tunnel.Server.Access.{text, absent, is_whitespace, parse_bearer, enforce_upgrade_security}
use acp_tunnel.Server.Access.Guarded.{Bears, FromAllowed, enforce_upgrade_security-Bears}
use acp_tunnel.Server.Opening.{ResumeEntry, done, accepted, resume_tunnel, prepare_agent}
use acp_tunnel.Server.Opening.Admission.{resume_tunnel-admits, Entitled, prepare_agent-Entitled}
use acp_tunnel.Tests.{sample_config, sample_info}
use package.text.Mathlib.TextEquality.{Char-path}
use Prim.Native.Char.{code}

-- A JSON library that knows one request and one answer.
data Sample : Type 0 where
  nothing no_items no_members denied_params denied_request other : Sample

abbrev sample_object : Dict Sample → Sample
sample_object [] = no_members
sample_object ((key, no_items) ∷ []) = denied_params
sample_object ((key, denied_params) ∷ []) = denied_request
sample_object _ = other

abbrev sample_to_string : Sample → Answer String
sample_to_string denied_request = answered "denied"
sample_to_string _ = failed "not known"

abbrev sample_from_str : String → Answer Sample
sample_from_str line = elim (str_eq line "new") [
  | true ↦ answered no_members
  | false ↦ failed "expected value"
]

abbrev sample_as_object : Sample → Option (Dict Sample)
sample_as_object no_members = some []
sample_as_object _ = none

abbrev sample_json : JsonLib
sample_json = record {
  Value = Sample;
  from_str = sample_from_str;
  sniff_method = λ line. elim (str_eq line "new") [ true ↦ some "session/new" | false ↦ none ];
  to_string = sample_to_string;
  null = nothing;
  text = λ _. other;
  negative = λ _. other;
  array = λ _. no_items;
  object = sample_object;
  as_str = λ _. none;
  as_array = λ _. none;
  as_object = sample_as_object;
  stdio_server = λ _ _ _ _. failed "not known";
}

abbrev pub no_variables : String → Option String
no_variables _ = none

abbrev denying : AcpPolicy
denying = record {
  workspace_path = "/srv/project";
  rewrite_cwd = false;
  mcp_policy = deny;
  mcp_servers = [];
}

apply-Governed_example :
    Governed sample_json no_variables denying "new" "denied"
    ⊎ ((false ≡ false) × (deny ≡ passthrough) × ◌≡◌ {A = String} "denied" "new")
unfolding apply rewrite_document rewrite apply_mcp insert get is_lifecycle contains is_passthrough
apply-Governed_example = apply-Governed sample_json no_variables denying "new" "denied" refl refl

abbrev token_bytes : List ℕ
token_bytes = 97 ∷ 98 ∷ []

abbrev wrong_bytes : List ℕ
wrong_bytes = 97 ∷ 99 ∷ []

authenticate_iff_example :
    (authenticate token_bytes wrong_bytes ≡ true) ↔ (wrong_bytes ≡ token_bytes)
authenticate_iff_example = authenticate_iff token_bytes wrong_bytes

abbrev one_agent : AgentConfig
one_agent = record {
  command = "fake-agent";
  args = [];
  workspaces = "project" ∷ [];
  pass_env = [];
  env = ("HOME", "/srv") ∷ [];
  client_env_allowlist = "TOKEN" ∷ [];
  mcp_policy = deny;
}

merge_agent_environment-Merged_example :
    ((name : String)
      → get name (("HOME", "/srv") ∷ ("TOKEN", "t") ∷ [])
        ≡ server_first
            (get name (selected_environment no_variables [] (("HOME", "/srv") ∷ [])))
            (sent_value name (record { name = "TOKEN"; value = "t" } ∷ [])))
    × AllAllowed ("TOKEN" ∷ []) [] (record { name = "TOKEN"; value = "t" } ∷ [])
unfolding merge_agent_environment merge_variables check_variable validate_environment_name is_blank
    contains_char contains or_insert get selected_environment extend insert inherited
merge_agent_environment-Merged_example =
    merge_agent_environment-Merged no_variables one_agent
      (record { name = "TOKEN"; value = "t" } ∷ []) (("HOME", "/srv") ∷ ("TOKEN", "t") ∷ []) refl

-- The characters of a text stand for its bytes.
abbrev pub sample_bytes : String → List ℕ
sample_bytes String.[] = []
sample_bytes (String.◌∷◌ c s) = code c ∷ sample_bytes s

pub sample_bytes-injective : (a b : String) → sample_bytes a ≡ sample_bytes b → a ≡ b
sample_bytes-injective String.[] String.[] e = refl
sample_bytes-injective String.[] (String.◌∷◌ d t) e = cc
sample_bytes-injective (String.◌∷◌ c s) String.[] e = cc
sample_bytes-injective (String.◌∷◌ c s) (String.◌∷◌ d t) e =
    let first : c ≡ d = Char-path c d cc in let rest : s ≡ t = sample_bytes-injective s t cc in cc

enforce_upgrade_security-Bears_example :
    Bears "secret" (text "Bearer secret") × FromAllowed sample_config absent
unfolding enforce_upgrade_security parse_bearer is_whitespace split_once_space equals_ignore_case
    is_blank any_char authenticate accumulate byte_at
enforce_upgrade_security-Bears_example =
    enforce_upgrade_security-Bears sample_bytes sample_bytes-injective "secret" sample_config
      (text "Bearer secret") absent refl

abbrev sample_sessions : Dict ResumeEntry
sample_sessions = ("c1", record { resume_token = "t1"; agent = "fake"; workspace = "project" }) ∷ []

abbrev sample_resume : ResumeRequest
sample_resume = record { connection_id = "c1"; resume_token = "t1" }

abbrev sample_request : OpenRequest
sample_request = record {
  version = 3;
  agent = "fake";
  workspace = "project";
  client_info = sample_info;
  client_environment = [];
  resume = some sample_resume;
}

resume_tunnel-admits_example :
    resume_tunnel sample_bytes sample_sessions accepted sample_request ≡ done "c1"
unfolding get is_blank
resume_tunnel-admits_example =
    resume_tunnel-admits sample_bytes sample_sessions sample_request sample_resume
      (record { resume_token = "t1"; agent = "fake"; workspace = "project" }) refl refl refl refl
      refl refl refl

abbrev pub one_workspace : ServerConfig
one_workspace = record sample_config {
  agents = ("fake", one_agent) ∷ [];
  workspaces = ("project", record { path = "/srv/project" }) ∷ [];
}

prepare_agent-Entitled_example :
    Entitled no_variables
      (λ l. ok l.directory)
      one_workspace
      sample_request
      (record { started = "/srv/project"; workspace_path = "/srv/project"; mcp_policy = deny })
unfolding prepare_agent get contains merge_agent_environment merge_variables
prepare_agent-Entitled_example =
    prepare_agent-Entitled no_variables (λ l. ok l.directory) one_workspace sample_request _ refl
