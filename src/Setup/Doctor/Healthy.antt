-- ===== src/Setup/Doctor/Healthy.antt =====
-- The doctor finds no error exactly in a server that can run.
use acp_tunnel.Common.{ℕ, String, ◌≡◌, refl, ap, ◌∙◌, ◌↔◌, ◌++◌, true, false, Option, arith}
use acp_tunnel.Fault.{Result, ok, err, ok-injective}
use acp_tunnel.Files.{Answer}
use acp_tunnel.Config.{ServerConfig}
use acp_tunnel.Setup.Executable.{Probe}
use acp_tunnel.Setup.Doctor.Notices.{
  has_errors, Binding, PublicUrl, each, diagnose_listener, diagnose_credential, diagnose_url,
  endpoint,
}
use acp_tunnel.Setup.Doctor.{
  diagnose_workspace, diagnose_agent, diagnose_tls, diagnose_parts, diagnose_server, run_doctor,
}
use acp_tunnel.Setup.Doctor.Quiet.{
  Quiet, Quiet-append, Each, each-Quiet, Succeeds, IsUsable, HasTlsFiles, IsReachable,
}
use acp_tunnel.Setup.Doctor.Parts.{
  listener-Quiet, credential-Quiet, workspace-Quiet, agent-Quiet, tls-Quiet, IsReadable,
  IsLaunchable,
}
use acp_tunnel.Setup.Doctor.Reachable.{url-Quiet}

module _ (os : Probe) (variable : String → Option String)
    (read_dir : String → Answer (Unit {0})) where
  -- A server that can run: its configuration loads, the credential is one, every workspace is a
  -- directory that can be listed, every agent's command leads to an executable file, the TLS files
  -- are files, the address is usable, and the public URL, if one is given, is reachable.
  pub record Healthy (config : ServerConfig) (token : Result String) (binding : Binding)
      (url : Option PublicUrl) : Type 0 where
    pub credential : Succeeds token
    pub workspaces : Each (IsReadable os variable read_dir) config.workspaces
    pub agents : Each (IsLaunchable os variable read_dir) config.agents
    pub tls : HasTlsFiles os config.tls
    pub listener : IsUsable binding
    pub public_url : IsReachable url

  diagnose_parts-Healthy :
      (status_text : ℕ → String) (config : ServerConfig) (token : Result String) (listen : String)
      (binding : Binding) (url : Option PublicUrl)
      → (Quiet (diagnose_parts os variable read_dir config token listen binding url)
          × Quiet (endpoint status_text url))
        ↔ Healthy config token binding url
  diagnose_parts-Healthy status_text config token listen binding url =
      let end = diagnose_listener listen binding ++ diagnose_url url in
      let tls = diagnose_tls os variable read_dir config.tls ++ end in
      let agents = each (diagnose_agent os variable read_dir) config.agents in
      let workspaces = each (diagnose_workspace os variable read_dir) config.workspaces in
      let (a1, t1) = Quiet-append (diagnose_credential token) (workspaces ++ (agents ++ tls)) in
      let (a2, t2) = Quiet-append workspaces (agents ++ tls) in
      let (a3, t3) = Quiet-append agents tls in
      let (a4, t4) = Quiet-append (diagnose_tls os variable read_dir config.tls) end in
      let (a5, t5) = Quiet-append (diagnose_listener listen binding) (diagnose_url url) in
      let c = credential-Quiet token in
      let w = each-Quiet _ _ (workspace-Quiet os variable read_dir) config.workspaces in
      let g = each-Quiet _ _ (agent-Quiet os variable read_dir) config.agents in
      let f = tls-Quiet os variable read_dir config.tls in
      let l = listener-Quiet listen binding in
      let u = url-Quiet status_text url in
      (
        λ q.
            let (q1, r1) = a1 q.0 in
            let (q2, r2) = a2 r1 in
            let (q3, r3) = a3 r2 in
            let (q4, r4) = a4 r3 in
            let (q5, r5) = a5 r4 in
            record {
              credential = c.0 q1;
              workspaces = w.0 q2;
              agents = g.0 q3;
              tls = f.0 q4;
              listener = l.0 q5;
              public_url = u.0 (r5, q.1);
            },
        λ h.
            let (r5, last) = u.1 h.public_url in
            (
              t1 (
                c.1 h.credential,
                t2 (w.1 h.workspaces, t3 (g.1 h.agents, t4 (f.1 h.tls, t5 (l.1 h.listener, r5)))),
              ),
              last,
            ),
      )

  diagnose_server-Healthy :
      (status_text : ℕ → String) (path : String) (loaded : Result ServerConfig)
      (token : Result String) (listen : String) (binding : Binding) (url : Option PublicUrl)
      → Quiet (
          diagnose_server os variable read_dir path loaded token listen binding url
          ++ endpoint status_text url)
        ↔ ((config : ServerConfig) × (loaded ≡ ok config) × Healthy config token binding url)
  unfolding diagnose_server has_errors
  diagnose_server-Healthy status_text path (err e) token listen binding url =
      (λ (q : true ≡ false). cc, λ p. let wrong : err e ≡ ok p.0 = p.1 in cc)
  diagnose_server-Healthy status_text path (ok config) token listen binding url =
      let parts = diagnose_parts os variable read_dir config token listen binding url in
      let (apart, together) = Quiet-append parts (endpoint status_text url) in
      let (into, from) = diagnose_parts-Healthy status_text config token listen binding url in
      (
        λ q. (config, refl, into (apart q)),
        λ p. together (from (rw (ok-injective config p.0 p.1) p.2)),
      )

  -- The doctor succeeds exactly if a configuration file is found that loads, the credential is one,
  -- every workspace is a directory that can be listed, every agent's command leads to an executable
  -- file in the agent's environment, the TLS files are files, the listener's address is free or in
  -- use already, and the public URL, if one is given, has an address that takes a connection and a
  -- route that answers a client without a credential by 401.
  pub run_doctor-Healthy :
      (status_text : ℕ → String) (config_path : Result String) (load : String → Result ServerConfig)
      (token : Result String) (listen : String) (binding : Binding) (url : Option PublicUrl)
      → (run_doctor os variable read_dir status_text config_path load token listen binding url
          ≡ ok tt)
        ↔ ((path : String) × (config : ServerConfig) × (config_path ≡ ok path)
            × (load path ≡ ok config)
            × Healthy config token binding url)
  unfolding run_doctor
  run_doctor-Healthy status_text (err e) load token listen binding url =
      (λ q. cc, λ p. let wrong : err e ≡ ok p.0 = p.2 in cc)
  run_doctor-Healthy status_text (ok path) load token listen binding url =
      let report =
        diagnose_server os variable read_dir path (load path) token listen binding url
        ++ endpoint status_text url in
      let (into, from) =
        diagnose_server-Healthy status_text path (load path) token listen binding url in
      (
        λ e. let (config, loaded, h) = into (ground arith) in (path, config, refl, loaded, h),
        λ p.
            let same : path ≡ p.0 = ok-injective path p.0 p.2 in
            let silent : has_errors report ≡ false = from (p.1, ap load same ∙ p.3, p.4) in
            rw silent refl,
      )
