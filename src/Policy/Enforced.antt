-- ===== src/Policy/Enforced.antt =====
-- What the policy lets through to the agent in a `session/new` request.
use acp_tunnel.Common.{
  String, ◌≡◌, ◌≢◌, refl, sym, str_eq, eq_iff, different, Bool-cases, not, ◌&&◌, contains, ◌∙◌, ◌⊎◌,
  inl, inr, true, false, Option, none, some, List, [], ◌∷◌, Dict, get, insert, get-insert, eq_refl,
  All, arith, Option-cases,
}
use acp_tunnel.Fault.{ok, >>=-eq-ok}
use acp_tunnel.Files.{Answer, answered, failed, Answer-cases}
use acp_tunnel.Config.{is_passthrough, McpPolicy, McpServerConfig, deny, allowlisted, passthrough}
use acp_tunnel.Process.{selected_mcp_environment}
use acp_tunnel.Policy.Environment.{
  JsonLib, Ruled, pass, fail, and_then, required, text_member, merge_mcp_environment,
}
use acp_tunnel.Policy.Environment.Allowed.{
  and_then-eq-pass, required-eq-pass, Extends, merge_mcp_environment-Extends,
}
use acp_tunnel.Policy.{
  forward, reject, AcpPolicy, session_new, is_lifecycle, members_of, constructed, construct,
  configured_mcp, named_mcp, params_of, replacement, replacements, allow_listed, apply_mcp, printed,
  json_rpc_error, id_of, ruled, located, rewrite, rewrite_document, is_untouched, apply,
}

is_passthrough-eq : (p : McpPolicy) → is_passthrough p ≡ true → p ≡ passthrough
unfolding is_passthrough
is_passthrough-eq deny e = cc
is_passthrough-eq allowlisted e = cc
is_passthrough-eq passthrough e = refl

module _ (lib : JsonLib) (variable : String → Option String) (policy : AcpPolicy) where
  open lib use {
    Value, from_str, sniff_method, to_string, null, text, negative, array, object, as_str, as_array,
    as_object, stdio_server,
  }

  -- An entry that stands for a server of the configuration.
  pub record Configured (v : Value) : Type 0 where
    pub name : String
    pub server : McpServerConfig
    pub environment : Dict String
    pub listed : get name policy.mcp_servers ≡ some server
    pub selected :
        Extends server.client_env_allowlist (selected_mcp_environment variable server) environment
    pub made : stdio_server name server.command server.args environment ≡ answered v

  -- The parameters before and after.
  abbrev pub Enforces : McpPolicy → Dict Value → Dict Value → Type 0
  Enforces deny params params' = get "mcpServers" params' ≡ some (array [])
  Enforces allowlisted params params' =
      ((get "mcpServers" params ≡ none) × (get "mcpServers" params' ≡ none))
      ⊎ ((servers : List Value) × (get "mcpServers" params' ≡ some (array servers))
          × All Configured servers)
  Enforces passthrough params params' = get "mcpServers" params' ≡ get "mcpServers" params

  Enforces-from :
      (p : McpPolicy) (a b result : Dict Value)
      → get "mcpServers" a ≡ get "mcpServers" b
      → Enforces p a result
      → Enforces p b result
  Enforces-from deny a b result e h = h
  Enforces-from allowlisted a b result e h = rw e at h
  Enforces-from passthrough a b result e h = h ∙ e

  constructed-eq-pass :
      (name : String) (a : Answer Value) (v : Value)
      → constructed lib variable policy name a ≡ pass v
      → a ≡ answered v
  constructed-eq-pass name (answered w) v e = cc
  constructed-eq-pass name (failed m) v e = cc

  replacement-Configured : (v w : Value) → replacement lib variable policy v ≡ pass w → Configured w
  unfolding replacement named_mcp configured_mcp
  replacement-Configured v w e =
      let members = members_of lib variable policy v in
      let (name, _, e1) =
        and_then-eq-pass (required (text_member lib "name" members) _)
          (named_mcp lib variable policy members) e in
      let (server, found, e2) =
        and_then-eq-pass (required (get name policy.mcp_servers) _)
          (configured_mcp lib variable policy members name) e1 in
      let (environment, merged, e3) =
        and_then-eq-pass
          (merge_mcp_environment lib (selected_mcp_environment variable server)
            server.client_env_allowlist (get "env" members))
          (construct lib variable policy name server) e2 in
      record {
        name = name;
        server = server;
        environment = environment;
        listed = required-eq-pass (get name policy.mcp_servers) _ found;
        selected = merge_mcp_environment-Extends lib _ _ (get "env" members) environment merged;
        made =
            constructed-eq-pass name (stdio_server name server.command server.args environment) w
              e3;
      }

  replacements-Configured :
      (vs ws : List Value) → replacements lib variable policy vs ≡ pass ws → All Configured ws
  unfolding replacements
  replacements-Configured [] [] e = tt
  replacements-Configured [] (w ∷ ws) e = cc
  replacements-Configured (v ∷ vs) ws e =
      let (x, first, e1) =
        and_then-eq-pass (replacement lib variable policy v)
          (λ x. and_then (replacements lib variable policy vs) (λ xs. pass (x ∷ xs))) e in
      let (xs, rest, e2) =
        and_then-eq-pass (replacements lib variable policy vs) (λ xs. pass (x ∷ xs)) e1 in
      let same : x ∷ xs ≡ ws = cc in
      rw (← same) (replacement-Configured v x first, replacements-Configured vs xs rest)

  get-other :
      (key k : String) (v : Value) (m : Dict Value) → key ≢ k → get key (insert k v m) ≡ get key m
  get-other key k v m other = get-insert key k v m ∙ elim (Bool-cases (str_eq k key)) [
    | inl same ↦ absurd (other (sym ((eq_iff k key).0 same)))
    | inr differs ↦ rw differs refl
  ]

  get-inserted : (key : String) (v : Value) (m : Dict Value) → get key (insert key v m) ≡ some v
  get-inserted key v m = get-insert key key v m ∙ ground (arith, eq_refl key)

  apply_mcp-Enforces :
      (p : McpPolicy) (params result : Dict Value)
      → apply_mcp lib variable policy p params ≡ pass result
      → Enforces p params result
        × ((key : String) → key ≢ "mcpServers" → get key result ≡ get key params)
  unfolding apply_mcp allow_listed
  apply_mcp-Enforces passthrough params result e =
      let same : params ≡ result = cc in rw (← same) (refl, λ key other. refl)
  apply_mcp-Enforces deny params result e =
      let same : insert "mcpServers" (array []) params ≡ result = cc in
      rw (← same) (
        get-inserted "mcpServers" (array []) params,
        (λ key other. get-other key "mcpServers" (array []) params other),
      )
  apply_mcp-Enforces allowlisted params result e = elim (Option-cases (get "mcpServers" params)) [
    | inl missing ↦
        let same : params ≡ result = ground arith in
        rw (← same) (inl (missing, missing), λ key other. refl)
    | inr (incoming, present) ↦
        let (servers, _, e1) =
          and_then-eq-pass (required (as_array incoming) "params.mcpServers must be an array")
            (listed params) (rw (present, allow_listed) at e) in
        let (configured, all, e2) =
          and_then-eq-pass (replacements lib variable policy servers)
            (λ cs. pass (insert "mcpServers" (array cs) params)) e1 in
        let same : insert "mcpServers" (array configured) params ≡ result = cc in
        rw (← same) (
          inr (
            configured,
            get-inserted "mcpServers" (array configured) params,
            replacements-Configured servers configured all,
          ),
          (λ key other. get-other key "mcpServers" (array configured) params other),
        )
  ]
    where
      listed : Dict Value → List Value → Ruled (Dict Value)
      listed params servers =
          and_then (replacements lib variable policy servers)
            λ cs. pass (insert "mcpServers" (array cs) params)

  -- A forwarded `session/new` request: what the line and the document that is forwarded have in
  -- common, and what the policy makes of the rest.
  pub record Governed (line out : String) : Type 0 where
    pub document : Value
    pub root : Dict Value
    pub params : Dict Value
    pub root' : Dict Value
    pub params' : Dict Value
    pub read : from_str line ≡ answered document
    pub is_object : as_object document ≡ some root
    pub had : as_object (params_of lib variable policy root) ≡ some params
    pub written : to_string (object root') ≡ answered out
    pub members : (key : String) → key ≢ "params" → get key root' ≡ get key root
    pub under : get "params" root' ≡ some (object params')
    pub others :
        (key : String) → key ≢ "cwd" → key ≢ "mcpServers" → get key params' ≡ get key params
    pub servers : Enforces policy.mcp_policy params params'
    pub moved : policy.rewrite_cwd ≡ true → get "cwd" params' ≡ some (text policy.workspace_path)
    pub stays : policy.rewrite_cwd ≡ false → get "cwd" params' ≡ get "cwd" params

  printed-eq-ok :
      (v : Value) (out : String)
      → printed lib variable policy v ≡ ok out
      → to_string v ≡ answered out
  printed-eq-ok v out e = elim (Answer-cases (to_string v)) [
    | inr (m, broke) ↦ absurd (ground arith)
    | inl (line, made) ↦ ground arith
  ]

  located-keeps :
      (params : Dict Value) (key : String)
      → key ≢ "cwd"
      → get key (located lib variable policy params) ≡ get key params
  located-keeps params key other = elim (Bool-cases policy.rewrite_cwd) [
    | inl on ↦ rw on (get-other key "cwd" (text policy.workspace_path) params other)
    | inr off ↦ rw off refl
  ]

  located-moved :
      (params : Dict Value)
      → policy.rewrite_cwd ≡ true
      → get "cwd" (located lib variable policy params) ≡ some (text policy.workspace_path)
  located-moved params on = rw on (get-inserted "cwd" (text policy.workspace_path) params)

  ruled-forward :
      (root : Dict Value) (r : Ruled (Dict Value)) (out : String)
      → ruled lib variable policy root r ≡ ok (forward out)
      → (result : Dict Value) × (r ≡ pass result)
        × (to_string (object (insert "params" (object result) root)) ≡ answered out)
  ruled-forward root (fail m) out e =
      let (line, _, e') =
        >>=-eq-ok (json_rpc_error lib variable policy (id_of lib variable policy root) 32001 m)
          (λ line. ok (reject line)) e in
      absurd (ground arith)
  ruled-forward root (pass result) out e =
      let document = object (insert "params" (object result) root) in
      let (line, made, e') =
        >>=-eq-ok (printed lib variable policy document) (λ line. ok (forward line)) e in
      let same : line ≡ out = ground arith in
      (result, refl, printed-eq-ok document out (rw same at made))

  rewrite-Governed :
      (line out : String) (document : Value) (root params : Dict Value)
      → from_str line ≡ answered document
      → as_object document ≡ some root
      → as_object (params_of lib variable policy root) ≡ some params
      → rewrite lib variable policy session_new root params ≡ ok (forward out)
      → Governed line out
  unfolding rewrite
  rewrite-Governed line out document root params read is_object had e =
      let placed = located lib variable policy params in
      let (result, passed, written) =
        ruled-forward root (apply_mcp lib variable policy policy.mcp_policy placed) out e in
      let (enforced, kept) = apply_mcp-Enforces policy.mcp_policy placed result passed in
      let same : get "mcpServers" placed ≡ get "mcpServers" params =
        located-keeps params "mcpServers" (different _ _ refl) in
      record {
        document = document;
        root = root;
        params = params;
        root' = insert "params" (object result) root;
        params' = result;
        read = read;
        is_object = is_object;
        had = had;
        written = written;
        members = λ key other. get-other key "params" (object result) root other;
        under = get-inserted "params" (object result) root;
        others = λ key p q. kept key q ∙ located-keeps params key p;
        servers = Enforces-from policy.mcp_policy placed params result same enforced;
        moved = λ on. kept "cwd" (different _ _ refl) ∙ located-moved params on;
        stays = λ off. kept "cwd" (different _ _ refl) ∙ rw off refl;
      }

  -- A `session/new` request that is forwarded is untouched only where the policy neither rewrites
  -- the directory nor rules over MCP servers. Otherwise what is forwarded is the printed document
  -- of the line, in which nothing has changed but, in the parameters, the directory and the
  -- servers: the directory is that of the workspace where the policy rewrites it and the client's
  -- elsewhere; the servers are none under the policy that denies them, the client's under the one
  -- that passes them, and under the one that allows listed ones they stay absent or are only
  -- configured ones, each with the environment that the server selects and, beyond that, only names
  -- that the server allows.
  pub apply-Governed :
      (line out : String)
      → sniff_method line ≡ some session_new
      → apply lib variable policy line ≡ ok (forward out)
      → Governed line out
        ⊎ ((policy.rewrite_cwd ≡ false) × (policy.mcp_policy ≡ passthrough) × (out ≡ line))
  unfolding apply rewrite_document is_lifecycle contains
  apply-Governed line out method e =
      elim (Bool-cases (is_untouched lib variable policy session_new)) [
        | inl untouched ↦
            let same : line ≡ out = ground arith in
            let free : not policy.rewrite_cwd && is_passthrough policy.mcp_policy ≡ true =
              untouched in
            inr (
              ground (arith, free),
              is_passthrough-eq policy.mcp_policy (ground (arith, free)),
              sym same,
            )
        | inr touched ↦ elim (Answer-cases (from_str line)) [
          | inr (m, unread) ↦ absurd (ground arith)
          | inl (document, read) ↦ elim (Option-cases (as_object document)) [
            | inl no_object ↦ absurd (ground arith)
            | inr (root, is_object) ↦
                elim (Option-cases (as_object (params_of lib variable policy root))) [
                  | inl no_params ↦ absurd (ground arith)
                  | inr (params, found) ↦ inl (
                      rewrite-Governed line out document root params read is_object found (
                        rw (method, touched, read, is_object, found, apply, rewrite_document) at e))
                ]
          ]
        ]
      ]

-- A line without a method, or with one that is not of the session lifecycle, is forwarded as it is.
pub apply-other :
    (lib : JsonLib) (variable : String → Option String) (policy : AcpPolicy) (line : String)
    → ((method : String) → lib.sniff_method line ≡ some method → is_lifecycle method ≡ false)
    → apply lib variable policy line ≡ ok (forward line)
unfolding apply
apply-other lib variable policy line other = elim (Option-cases (lib.sniff_method line)) [
  | inl nothing ↦ rw (nothing, apply) refl
  | inr (method, sniffed) ↦ rw (sniffed, other method sniffed, apply) refl
]
