-- ===== src/Policy/Environment.antt =====
-- src/policy.rs: the environment that a client asks for its MCP servers, over a JSON library: the
-- values of serde_json, and the value that the schema crate makes of a configured server.
pub mod Allowed
use acp_tunnel.Common.{
  ℕ, String, Option, none, some, List, [], ◌∷◌, Dict, get, insert, or_insert, contains,
  contains_key, if◌then◌else◌,
}
use acp_tunnel.Fault.{ok, err}
use acp_tunnel.Files.{Answer}
use acp_tunnel.Config.Names.{validate_environment_name}

-- The calls of serde_json, and of the schema crate, that the policy makes.
pub record JsonLib : Type 1 where
  pub Value : Type 0
  pub from_str : String → Answer Value
  -- The member `method` of a line that is an object with a text, or nothing, under that name.
  pub sniff_method : String → Option String
  pub to_string : Value → Answer String
  pub null : Value
  pub text : String → Value
  -- The negative integer of this size.
  pub negative : ℕ → Value
  pub array : List Value → Value
  pub object : Dict Value → Value
  pub as_str : Value → Option String
  pub as_array : Value → Option (List Value)
  pub as_object : Value → Option (Dict Value)
  pub stdio_server : String → String → List String → Dict String → Answer Value

-- A failure of an MCP rule is a text.
pub data Ruled {ℓ} (A : Type ℓ) : Type ℓ where
  pass : A → Ruled A
  fail : String → Ruled A

abbrev pub and_then {ℓ κ} : {A : Type ℓ} {B : Type κ} → Ruled A → (A → Ruled B) → Ruled B
and_then (pass a) f = f a
and_then (fail message) f = fail message

abbrev pub required {ℓ} : {A : Type ℓ} → Option A → String → Ruled A
required none message = fail message
required (some a) message = pass a

unfoldable pub validate_client_environment_name : String → Ruled (Unit {0})
validate_client_environment_name name =
    elim (validate_environment_name "client MCP server" "request" name) [
      | ok _ ↦ pass tt
      | err _ ↦ fail "MCP environment contains an invalid variable name"
    ]

module _ (lib : JsonLib) where
  open lib use {
    Value, from_str, sniff_method, to_string, null, text, negative, array, object, as_str, as_array,
    as_object, stdio_server,
  }

  abbrev pub text_member : String → Dict (Value) → Option String
  text_member key members = elim (get key members) [ none ↦ none | some v ↦ as_str v ]

  unfoldable pub parse_entry : Dict String → Value → Ruled (Dict String)
  unfolding validate_client_environment_name
  parse_entry parsed entry =
      and_then (required (as_object entry) "each MCP environment entry must be an object")
        λ members.
          and_then
            (required (text_member "name" members)
              "each MCP environment entry must have a string name")
            λ name.
              and_then
                (required (text_member "value" members)
                  "each MCP environment entry must have a string value")
                λ value. and_then (validate_client_environment_name name) λ _.
                  if contains_key name parsed
                  then fail "MCP environment contains a duplicate variable name"
                  else pass (insert name value parsed)

  unfoldable pub parse_entries : Dict String → List Value → Ruled (Dict String)
  unfolding parse_entry
  parse_entries parsed [] = pass parsed
  parse_entries parsed (entry ∷ entries) =
      and_then (parse_entry parsed entry) λ parsed'. parse_entries parsed' entries

  unfoldable pub parse_members : Dict String → Dict (Value) → Ruled (Dict String)
  unfolding validate_client_environment_name
  parse_members parsed [] = pass parsed
  parse_members parsed ((name, member) ∷ members) =
      and_then (validate_client_environment_name name) λ _.
        and_then (required (as_str member) "each MCP environment value must be a string")
          λ value. parse_members (insert name value parsed) members

  unfoldable pub parse_client_environment : Option Value → Ruled (Dict String)
  unfolding parse_entries parse_members
  parse_client_environment none = pass []
  parse_client_environment (some incoming) = elim (as_array incoming) [
    | some entries ↦ parse_entries [] entries
    | none ↦ elim (as_object incoming) [
      | some members ↦ parse_members [] members
      | none ↦ fail "MCP server env must be an object or an array"
    ]
  ]

  unfoldable pub merge_allowed : List String → Dict String → Dict String → Dict String
  merge_allowed allowlist environment [] = environment
  merge_allowed allowlist environment ((name, value) ∷ client) =
      merge_allowed allowlist
        (if contains name allowlist then or_insert name value environment else environment) client

  unfoldable pub merge_mcp_environment :
      Dict String → List String → Option Value → Ruled (Dict String)
  unfolding parse_client_environment merge_allowed
  merge_mcp_environment server_environment allowlist incoming =
      and_then (parse_client_environment incoming)
        λ client. pass (merge_allowed allowlist server_environment client)
