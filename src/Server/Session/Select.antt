-- ===== src/Server/Session/Select.antt =====
-- The branches of `select!` keep the wire honest.
use acp_tunnel.Common.{ℕ, String, ◌≡◌, sym, ap, ◌∙◌, inl, inr, Bool-cases, none, some, arith}
use acp_tunnel.Fault.{Result, ok, err, >>=-eq-ok, ok-injective}
use acp_tunnel.Config.{ServerConfig}
use acp_tunnel.Policy.{PolicyOutcome}
use acp_tunnel.Server.Session.{Session, handle_client_envelope}
use acp_tunnel.Server.Session.Abstract.{Spec, Inv, Grows}
use acp_tunnel.Server.Session.Events.{
  Event, child_exit, attachment, keepalive_tick, transport_event, agent_output, diagnostic, line,
  stdout_error, stdout_closed, TransportEventKind, message, activity, writable, disconnected,
  closed, invalid_envelope, detach_transport, is_current, keepalive, forward_diagnostic,
  take_agent_event, after_envelope, take_transport_event, select,
}
use acp_tunnel.Server.Session.Loop.{after_envelope-Same}
use acp_tunnel.Server.Session.Wire.{Wired, handle_client_envelope-Answered, Answered-Wired}
use acp_tunnel.Server.Session.Carried.{Wired-grow}
use acp_tunnel.Server.Session.Honest.{keepalive-Wired, forward_diagnostic-Wired, attach-Wired}

module _ (apply : String → Result PolicyOutcome) (config : ServerConfig) (y z : Spec) where
  same-Wired :
      (s s' : Session)
      → Grows y z
      → Wired y s.transport
      → s'.transport ≡ s.transport
      → Wired z s'.transport
  same-Wired s s' g w e = rw e (Wired-grow y z s.transport g w)

  after_envelope-transport : (s : Session) → (after_envelope config s).transport ≡ s.transport
  unfolding after_envelope
  after_envelope-transport s = ground arith

  message-Wired :
      (t u s' : Session)
      → Grows y z
      → Inv apply config z s'
      → Wired y t.transport
      → after_envelope config u ≡ s'
      → Wired z u.transport
      → Wired z s'.transport
  message-Wired t u s' g v w e h = rw (← e) (rw (after_envelope-transport u) h)

  take_transport_event-Wired :
      (now : ℕ) (k : TransportEventKind) (s s' : Session)
      → Grows y z
      → Inv apply config z s'
      → Wired y s.transport
      → take_transport_event config apply now k s ≡ ok s'
      → Wired z s'.transport
  unfolding take_transport_event
  take_transport_event-Wired now (message m) s s' g v w e =
      let t : Session = record s { last_received = now } in
      let (u, handled, e') =
        >>=-eq-ok (handle_client_envelope config apply m t) (λ u. ok (after_envelope config u)) e in
      let same = ok-injective (after_envelope config u) s' e' in
      let (_, counted, _) = after_envelope-Same apply config u in
      message-Wired t u s' g v w same (
        Answered-Wired z t u
          (sym counted ∙ ap (λ (r : Session). r.expected_client_sequence) same ∙ v.expected)
          (handle_client_envelope-Answered config apply m t u handled)
          (Wired-grow y z s.transport g w))
  take_transport_event-Wired now activity s s' g v w e = same-Wired s s' g w (ground arith)
  take_transport_event-Wired now writable s s' g v w e = same-Wired s s' g w (ground arith)
  take_transport_event-Wired now invalid_envelope s s' g v w e = same-Wired s s' g w (ground arith)
  take_transport_event-Wired now disconnected s s' g v w e =
      let gone : s'.transport ≡ none = unfold detach_transport in ground arith in rw gone tt
  take_transport_event-Wired now closed s s' g v w e =
      let gone : s'.transport ≡ none = unfold detach_transport in ground arith in rw gone tt

  -- A branch of `select!` that takes an abstract session to a later one leaves only honest commands
  -- for the attached transport: every frame is a line of the outbox under its number, and every
  -- acknowledgement is of lines that were accepted.
  pub select-Wired :
      (cid token : String) (now : ℕ) (e : Event) (s s' : Session)
      → Inv apply config y s
      → Grows y z
      → Inv apply config z s'
      → Wired y s.transport
      → select config apply cid token now e s ≡ ok s'
      → Wired z s'.transport
  unfolding select
  select-Wired cid token now (attachment (some fate)) s s' v0 g v w e =
      Wired-grow y z s'.transport g (attach-Wired apply config y cid token now fate s s' v0 e)
  select-Wired cid token now (keepalive_tick nonce) s s' v0 g v w e =
      rw (← ok-injective (keepalive config now nonce s) s' e)
        (Wired-grow y z _ g (keepalive-Wired apply config y now nonce s w))
  select-Wired cid token now (diagnostic (some payload)) s s' v0 g v w e =
      rw (← ok-injective (forward_diagnostic config payload s) s' e)
        (Wired-grow y z _ g (forward_diagnostic-Wired apply config y payload s w))
  select-Wired cid token now (transport_event (some m)) s s' v0 g v w e =
      elim (Bool-cases (is_current config m.generation s.transport)) [
        | inl current ↦ take_transport_event-Wired now m.kind s s' g v w (rw current at e)
        | inr stale ↦ same-Wired s s' g w (ground arith)
      ]
  select-Wired cid token now (agent_output (some (line p))) s s' v0 g v w e =
      same-Wired s s' g w (unfold take_agent_event in ground arith)
  select-Wired cid token now (agent_output (some stdout_error)) s s' v0 g v w e =
      same-Wired s s' g w (unfold take_agent_event in ground arith)
  select-Wired cid token now (agent_output (some stdout_closed)) s s' v0 g v w e =
      same-Wired s s' g w (unfold take_agent_event in ground arith)
  select-Wired cid token now (child_exit (ok status)) s s' v0 g v w e =
      same-Wired s s' g w (ground arith)
  select-Wired cid token now (child_exit (err m)) s s' v0 g v w e = cc
  select-Wired cid token now _ s s' v0 g v w e = same-Wired s s' g w (ground arith)
