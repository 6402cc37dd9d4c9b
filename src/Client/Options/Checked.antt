-- ===== src/Client/Options/Checked.antt =====
-- What options that pass the checks grant to the connector.
use acp_tunnel.Common.{
  ℕ, String, ◌≤◌, ◌≡◌, ◌⊎◌, refl, inl, inr, Bool, true, false, Option, none, some, List, [], ◌∷◌,
  All, all, equals_ignore_case, arith, str_eq, eq_iff, contains, contains_char, Bool-cases,
}
use acp_tunnel.Fault.{Result, ok, >>-eq-ok, >>=-eq-ok, fail_if, fail_if-eq-ok}
use acp_tunnel.Config.Names.{validate_id, validate_environment_name}
use acp_tunnel.Protocol.{ClientInfo, ClientEnvironment, ShutdownReason}
use acp_tunnel.Client.Socket.{ConnectOptions, ResumeCredentials, Socket}
use acp_tunnel.Client.Link.{connected, can_read_stdin}
use acp_tunnel.Client.Options.{
  Host, address, domain, Url, Lookup, all_loopback, host_is_loopback, plain_allowed,
  validate_connect_url, validate_client_environment, validate_options,
}

-- The names that are sent are different, and no value has a NUL.
abbrev pub Distinct : List String → ClientEnvironment → Type 0
Distinct seen [] = Unit
Distinct seen (v ∷ vs) =
    (contains v.name seen ≡ false) × (contains_char 0 v.value ≡ false) × Distinct (v.name ∷ seen) vs

-- The host leads to this machine: it is a loopback address, or the name localhost in any case, or a
-- name that stands for addresses, all of them loopback addresses.
abbrev pub LeadsHere : Lookup → Option Host → Type 0
LeadsHere lookup none = ⊥
LeadsHere lookup (some (address loopback)) = loopback ≡ true
LeadsHere lookup (some (domain name)) =
    (equals_ignore_case name "localhost" ≡ true)
    ⊎ ((b : Bool) × (bs : List Bool) × (lookup name ≡ ok (b ∷ bs)) × All (λ c. c ≡ true) (b ∷ bs))

-- Encrypted, or to this machine.
abbrev pub Guarded : Lookup → Url → Type 0
Guarded lookup url = (url.scheme ≡ "wss") ⊎ ((url.scheme ≡ "ws") × LeadsHere lookup url.host)

validate_client_environment-Distinct :
    (seen : List String) (vs : ClientEnvironment)
    → validate_client_environment seen vs ≡ ok tt
    → Distinct seen vs
unfolding validate_client_environment
validate_client_environment-Distinct seen [] e = tt
validate_client_environment-Distinct seen (v ∷ vs) e =
    let (_, e1) =
      >>-eq-ok (validate_environment_name "connector" "client environment" v.name) _ e in
    let (fresh, e2) = >>-eq-ok (fail_if (contains v.name seen) _) _ e1 in
    let (clean, e3) = >>-eq-ok (fail_if (contains_char 0 v.value) _) _ e2 in
    (
      fail_if-eq-ok (contains v.name seen) _ fresh,
      fail_if-eq-ok (contains_char 0 v.value) _ clean,
      validate_client_environment-Distinct (v.name ∷ seen) vs e3,
    )

plain_allowed-eq-ok : (b : Bool) → plain_allowed b ≡ ok tt → b ≡ true
plain_allowed-eq-ok true e = refl
plain_allowed-eq-ok false e = cc

all-All : (bs : List Bool) → all (λ c. c) bs ≡ true → All (λ c. c ≡ true) bs
all-All [] e = tt
all-All (b ∷ bs) e = (ground arith, all-All bs (ground arith))

all_loopback-All :
    (bs : List Bool)
    → all_loopback bs ≡ true
    → (c : Bool) × (cs : List Bool) × (bs ≡ c ∷ cs) × All (λ d. d ≡ true) (c ∷ cs)
all_loopback-All [] e = cc
all_loopback-All (b ∷ bs) e = (b, bs, refl, all-All (b ∷ bs) e)

host_is_loopback-LeadsHere :
    (lookup : Lookup) (host : Option Host)
    → host_is_loopback lookup host ≡ ok true
    → LeadsHere lookup host
unfolding host_is_loopback
host_is_loopback-LeadsHere lookup none e = cc
host_is_loopback-LeadsHere lookup (some (address loopback)) e = cc
host_is_loopback-LeadsHere lookup (some (domain name)) e =
    elim (Bool-cases (equals_ignore_case name "localhost")) [
      | inl local ↦ inl local
      | inr foreign ↦
          let (addresses, found, all_local) =
            >>=-eq-ok (lookup name) (λ addresses. ok (all_loopback addresses))
              (rw (foreign, host_is_loopback) at e) in
          let every : all_loopback addresses ≡ true = cc in
          let (b, bs, same, loop) = all_loopback-All addresses every in
          inr (b, bs, rw same at found, loop)
    ]

validate_connect_url-Guarded :
    (lookup : Lookup) (url : Url) → validate_connect_url lookup url ≡ ok tt → Guarded lookup url
unfolding validate_connect_url
validate_connect_url-Guarded lookup url e = elim (Bool-cases (str_eq url.scheme "wss")) [
  | inl secure ↦ inl (ground (arith, eq_iff url.scheme "wss"))
  | inr not_secure ↦ elim (Bool-cases (str_eq url.scheme "ws")) [
    | inr other ↦ absurd (ground arith)
    | inl plain ↦
        let (b, found, allowed) =
          >>=-eq-ok (host_is_loopback lookup url.host) plain_allowed
            (rw (not_secure, plain, validate_connect_url) at e) in
        let local : b ≡ true = plain_allowed-eq-ok b allowed in
        inr (
          ground (arith, eq_iff url.scheme "ws"),
          host_is_loopback-LeadsHere lookup url.host (rw local at found),
        )
  ]
]

-- Options that pass the checks have a URL that is encrypted or leads to this machine, by a loopback
-- address, the name localhost or a name whose addresses are one or more and all loopback,
-- environment values under different names and without a NUL, and limits under which a new
-- connector may read.
pub validate_options-Guarded :
    (lookup : Lookup) (url : Url) (options : ConnectOptions)
    → validate_options lookup url options ≡ ok tt
    → Guarded lookup url
      × Distinct [] options.client_environment
      × (options.max_frame_bytes ≤ options.max_replay_bytes)
      × ((info : ClientInfo) (credentials : ResumeCredentials)
            (shut_down : ShutdownReason → Result (Unit {0})) (now : ℕ) (socket : Socket)
          → can_read_stdin options info credentials shut_down (connected now socket) ≡ true)
unfolding validate_options can_read_stdin
validate_options-Guarded lookup url options e =
    let (_, e1) = >>-eq-ok (validate_id "agent" options.agent) _ e in
    let (_, e2) = >>-eq-ok (validate_id "workspace" options.workspace) _ e1 in
    let (guarded, e3) = >>-eq-ok (validate_connect_url lookup url) _ e2 in
    let (distinct, last) =
      >>-eq-ok (validate_client_environment [] options.client_environment) _ e3 in
    (
      validate_connect_url-Guarded lookup url guarded,
      validate_client_environment-Distinct [] options.client_environment distinct,
      ground arith,
      (λ info credentials shut_down now socket. ground arith),
    )
