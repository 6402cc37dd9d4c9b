-- ===== src/Process/Merged.antt =====
-- What the merged environment of an agent holds.
use acp_tunnel.Common.{
  String, ◌≡◌, refl, sym, ap, ◌∙◌, Bool, true, false, Option, none, some, List, [], ◌∷◌, Dict, get,
  or_insert, get-or_insert, contains, contains_char, is_some, if◌then◌else◌, str_eq, arith,
}
use acp_tunnel.Fault.{ok, ok-injective, >>-eq-ok}
use acp_tunnel.Config.{AgentConfig}
use acp_tunnel.Protocol.{ClientEnvironmentVariable, ClientEnvironment}
use acp_tunnel.Process.{
  selected_environment, check_variable, merge_variables, merge_agent_environment,
}

-- The value that a client sends for a name.
abbrev pub sent_value : String → ClientEnvironment → Option String
sent_value name [] = none
sent_value name (v ∷ vs) = if str_eq v.name name then some v.value else sent_value name vs

-- The server's value goes before the client's.
abbrev pub server_first : Option String → Option String → Option String
server_first (some value) sent = some value
server_first none sent = sent

pub record Allowed (allowlist seen : List String) (v : ClientEnvironmentVariable) : Type 0 where
  pub listed : contains v.name allowlist ≡ true
  pub is_new : contains v.name seen ≡ false
  pub value : contains_char 0 v.value ≡ false

abbrev pub AllAllowed : List String → List String → ClientEnvironment → Type 0
AllAllowed allowlist seen [] = Unit
AllAllowed allowlist seen (v ∷ vs) =
    Allowed allowlist seen v × AllAllowed allowlist (v.name ∷ seen) vs

check_variable-Allowed :
    (allowlist seen : List String) (v : ClientEnvironmentVariable)
    → check_variable allowlist seen v ≡ ok tt
    → Allowed allowlist seen v
unfolding check_variable
check_variable-Allowed allowlist seen v e = record {
  listed = ground arith;
  is_new = ground arith;
  value = ground arith;
}

server_first-none : (m : Option String) → server_first m none ≡ m
server_first-none none = refl
server_first-none (some v) = refl

merge_variables-get :
    (allowlist seen : List String) (merged result : Dict String) (vs : ClientEnvironment)
    (name : String)
    → merge_variables allowlist seen merged vs ≡ ok result
    → get name result ≡ server_first (get name merged) (sent_value name vs)
unfolding merge_variables
merge_variables-get allowlist seen merged result [] name e =
    ap (get name) (sym (ok-injective merged result e)) ∙ sym (server_first-none (get name merged))
merge_variables-get allowlist seen merged result (v ∷ vs) name e =
    let (_, rest) = >>-eq-ok (check_variable allowlist seen v) _ e in
    merge_variables-get allowlist (v.name ∷ seen) (or_insert v.name v.value merged) result vs name
      rest
    ∙ step (get name merged) (str_eq v.name name) v.value (sent_value name vs)
        (get-or_insert name v.name v.value merged)
  where
    step :
        (m : Option String) (b : Bool) (value : String) (later : Option String)
        {put : Option String}
        → put ≡ (if is_some m then m else if b then some value else none)
        → server_first put later ≡ server_first m (if b then some value else later)
    step none true value later e = rw e refl
    step none false value later e = rw e refl
    step (some w) b value later e = rw e refl

merge_variables-AllAllowed :
    (allowlist seen : List String) (merged result : Dict String) (vs : ClientEnvironment)
    → merge_variables allowlist seen merged vs ≡ ok result
    → AllAllowed allowlist seen vs
unfolding merge_variables
merge_variables-AllAllowed allowlist seen merged result [] e = tt
merge_variables-AllAllowed allowlist seen merged result (v ∷ vs) e =
    let (h, rest) = >>-eq-ok (check_variable allowlist seen v) _ e in
    (
      check_variable-Allowed allowlist seen v h,
      merge_variables-AllAllowed allowlist (v.name ∷ seen) (or_insert v.name v.value merged) result
          vs rest,
    )

-- An environment that is merged without an error gives every name the server's value, or else the
-- first value that the client sent for it; and each variable that the client sent is allowlisted
-- for the agent, new among those before it, and without a NUL.
pub merge_agent_environment-Merged :
    (variable : String → Option String) (config : AgentConfig) (sent : ClientEnvironment)
    (result : Dict String)
    → merge_agent_environment variable config sent ≡ ok result
    → ((name : String)
        → get name result
          ≡ server_first
              (get name (selected_environment variable config.pass_env config.env))
              (sent_value name sent))
      × AllAllowed config.client_env_allowlist [] sent
unfolding merge_agent_environment
merge_agent_environment-Merged variable config sent result e = (
  (λ name. merge_variables-get config.client_env_allowlist [] _ result sent name e),
  merge_variables-AllAllowed config.client_env_allowlist [] _ result sent e,
)
