-- ===== src/Policy/Environment/Allowed.antt =====
-- What the environment of a configured MCP server takes from the client.
use acp_tunnel.Common.{
  String, ◌≡◌, refl, sym, str_eq, eq_iff, Bool-cases, contains, or_insert, get-or_insert,
  contains_key, ◌∙◌, ◌⊎◌, inl, inr, true, Option, none, some, List, [], ◌∷◌, Dict, get, arith,
}
use acp_tunnel.Policy.Environment.{
  JsonLib, Ruled, pass, fail, and_then, required, merge_mcp_environment, merge_allowed,
  parse_client_environment,
}

pub and_then-eq-pass {ℓ κ} :
    {A : Type ℓ} {B : Type κ} (r : Ruled A) (f : A → Ruled B) {b : B}
    → and_then r f ≡ pass b
    → (a : A) × (r ≡ pass a) × (f a ≡ pass b)
and_then-eq-pass (pass a) f e = (a, refl, e)
and_then-eq-pass (fail m) f e = cc

pub required-eq-pass {ℓ} :
    {A : Type ℓ} (o : Option A) (m : String) {a : A} → required o m ≡ pass a → o ≡ some a
required-eq-pass none m e = cc
required-eq-pass (some a) m e = cc

-- An environment extends that of the server by names that it allows.
pub record Extends (allowlist : List String) (base environment : Dict String) : Type 0 where
  pub kept : (name value : String) → get name base ≡ some value → get name environment ≡ some value
  pub added :
      (name value : String)
      → get name environment ≡ some value
      → (get name base ≡ some value) ⊎ (contains name allowlist ≡ true)

or_insert-Extends :
    (allowlist : List String) (base environment : Dict String) (name value : String)
    → Extends allowlist base environment
    → contains name allowlist ≡ true
    → Extends allowlist base (or_insert name value environment)
or_insert-Extends allowlist base environment name value h ok_name = record {
  kept = λ j v e. ground (arith, get-or_insert j name value environment, h.kept j v e);
  added = λ j v e. elim (Bool-cases (contains_key j environment)) [
    | inl there ↦ h.added j v (sym (rw there at (get-or_insert j name value environment)) ∙ e)
    | inr missing ↦ elim (Bool-cases (str_eq name j)) [
      | inl same ↦ inr (rw ((eq_iff name j).0 same) at ok_name)
      | inr differs ↦ absurd (ground (arith, get-or_insert j name value environment))
    ]
  ];
}

merge_allowed-Extends :
    (lib : JsonLib) (allowlist : List String) (base environment client : Dict String)
    → Extends allowlist base environment
    → Extends allowlist base (merge_allowed lib allowlist environment client)
unfolding merge_allowed
merge_allowed-Extends lib allowlist base environment [] h = h
merge_allowed-Extends lib allowlist base environment ((name, value) ∷ client) h =
    elim (Bool-cases (contains name allowlist)) [
      | inl listed ↦
          rw (listed, merge_allowed)
            (merge_allowed-Extends lib allowlist base (or_insert name value environment) client
              (or_insert-Extends allowlist base environment name value h listed))
      | inr unlisted ↦
          rw (unlisted, merge_allowed)
            (merge_allowed-Extends lib allowlist base environment client h)
    ]

pub merge_mcp_environment-Extends :
    (lib : JsonLib) (base : Dict String) (allowlist : List String) (incoming : Option lib.Value)
    (environment : Dict String)
    → merge_mcp_environment lib base allowlist incoming ≡ pass environment
    → Extends allowlist base environment
unfolding merge_mcp_environment
merge_mcp_environment-Extends lib base allowlist incoming environment e =
    let (client, _, e') =
      and_then-eq-pass (parse_client_environment lib incoming)
        (λ client. pass (merge_allowed lib allowlist base client)) e in
    let same : merge_allowed lib allowlist base client ≡ environment = cc in
    rw (← same) (
      merge_allowed-Extends lib allowlist base base client
        (record { kept = λ name value f. f; added = λ name value f. inl f }))
