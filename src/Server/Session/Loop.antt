-- ===== src/Server/Session/Loop.antt =====
-- The rounds of a session refine the abstract session.
use acp_tunnel.Common.{
  ℕ, ◌+◌, ◌≤◌, ◌<◌, String, len, ◌≡◌, refl, inl, inr, true, some, [], ◌∷◌, length, length-append,
  arith, u64_max, Bool-cases, saturating_add_fits,
}
use acp_tunnel.Cause.{Cause, silent, hears, reads, MayKeep}
use acp_tunnel.Fault.{Result, ok, err, >>=-eq-ok, ok-injective}
use acp_tunnel.Config.{ServerConfig}
use acp_tunnel.Outbox.{enqueue}
use acp_tunnel.Policy.{PolicyOutcome}
use acp_tunnel.Server.Replay.{queue_server_frame}
use acp_tunnel.Server.Replay.Refinement.{queued, queue_server_frame-eq-ok, queued-Refines}
use acp_tunnel.Server.Session.{Session, handle_client_envelope}
use acp_tunnel.Server.Session.Abstract.{
  Spec, keep, emit, Inv, Simulated, Same, Same-Inv, Same-Simulated,
}
use acp_tunnel.Server.Session.Envelopes.{handle_client_envelope-Simulated}
use acp_tunnel.Server.Session.Events.{
  Event, child_exit, attachment, keepalive_tick, transport_event, agent_output, diagnostic, line,
  stdout_error, stdout_closed, TransportEventKind, message, activity, enabled, can_read_agent,
  is_current, keepalive, forward_diagnostic, take_agent_event, after_envelope, take_transport_event,
  select,
}
use acp_tunnel.Server.Session.Kept.{detach_transport-Same, attach-Inv}

-- The line codec of the agent's output yields no line above the frame limit.
abbrev pub IsBounded : ServerConfig → Event → Type 0
IsBounded config (agent_output (some (line payload))) = len payload ≤ config.max_frame_bytes
IsBounded config _ = Unit

-- The envelope of the client, or the line of the agent, that an event brings.
abbrev pub kind_cause : TransportEventKind → Cause
kind_cause (message m) = hears m
kind_cause _ = silent

abbrev pub cause : Event → Cause
cause (transport_event (some e)) = kind_cause e.kind
cause (agent_output (some (line payload))) = reads payload
cause _ = silent

kind-MayKeep : (k : TransportEventKind) → MayKeep (kind_cause k)
kind-MayKeep (message m) = tt
kind-MayKeep _ = tt

-- What the validation of a configuration grants, and sizes that a machine can hold.
pub record HasLimits (config : ServerConfig) : Type 0 where
  pub frame-le-replay : config.max_frame_bytes ≤ config.max_replay_bytes
  pub replay-lt-max : config.max_replay_bytes < u64_max

module _ (apply : String → Result PolicyOutcome) (config : ServerConfig) where
  keepalive-Same : (now : ℕ) (nonce : String) (s : Session) → Same s (keepalive config now nonce s)
  unfolding keepalive
  keepalive-Same now nonce s = ground arith

  forward_diagnostic-Same :
      (payload : String) (s : Session) → Same s (forward_diagnostic config payload s)
  unfolding forward_diagnostic
  forward_diagnostic-Same payload s = ground arith

  pub after_envelope-Same : (s : Session) → Same s (after_envelope config s)
  unfolding after_envelope
  after_envelope-Same s = ground arith

  can_read_agent-bounds :
      (s : Session) (payload : String)
      → HasLimits config
      → can_read_agent config s ≡ true
      → len payload ≤ config.max_frame_bytes
      → (length s.replay.pending + 1 ≤ config.max_replay_frames)
        × (s.replay.pending_bytes + len payload ≤ config.max_replay_bytes)
  unfolding can_read_agent
  can_read_agent-bounds s payload limits h b = ground arith

  -- A line that the guard lets in fits into the replay buffer.
  agent_line-Simulated :
      (x : Spec) (payload : String) (s s' : Session)
      → HasLimits config
      → Inv apply config x s
      → can_read_agent config s ≡ true
      → len payload ≤ config.max_frame_bytes
      → take_agent_event config (line payload) s ≡ ok s'
      → Simulated apply config x (reads payload) s'
  unfolding take_agent_event
  agent_line-Simulated x payload s s' limits v h b e =
      let (r, q, e') =
        >>=-eq-ok (queue_server_frame payload s.replay)
          (λ replay. ok (record s { replay = replay })) e in
      let same = (queue_server_frame-eq-ok payload s.replay r q).0 in
      let (few, small) = can_read_agent-bounds s payload limits h b in
      let fits : s.replay.pending_bytes + len payload ≤ u64_max =
        omega (arith, limits.replay-lt-max) in
      let result : s' ≡ record s { replay = queued payload s.replay } = ground arith in
      (
        record x { outbox = enqueue payload x.outbox },
        emit payload refl,
        rw result (record {
          refines = queued-Refines x.outbox s.replay payload v.refines fits;
          expected = v.expected;
          stdin = v.stdin;
          frames = omega (arith, few, length-append s.replay.pending (_ ∷ []));
          bytes = omega (arith, small, saturating_add_fits s.replay.pending_bytes (len payload));
        }),
      )

  take_transport_event-Simulated :
      (x : Spec) (now : ℕ) (k : TransportEventKind) (s s' : Session)
      → HasLimits config
      → Inv apply config x s
      → take_transport_event config apply now k s ≡ ok s'
      → Simulated apply config x (kind_cause k) s'
  unfolding take_transport_event
  take_transport_event-Simulated x now (message m) s s' limits v e =
      let t : Session = record s { last_received = now } in
      let (u, handled, e') =
        >>=-eq-ok (handle_client_envelope config apply m t) (λ u. ok (after_envelope config u)) e in
      let (y, move, w) =
        handle_client_envelope-Simulated apply config limits.replay-lt-max x m t u
          (Same-Inv apply config x s t v (refl, refl, refl)) handled in
      (y, move, rw (← ok-injective _ _ e') (Same-Inv apply config y u _ w (after_envelope-Same u)))
  take_transport_event-Simulated x now activity s s' limits v e =
      Same-Simulated apply config x s s' v tt (ground arith)
  take_transport_event-Simulated x now _ s s' limits v e =
      rw (← ok-injective _ _ e)
        (Same-Simulated apply config x s _ v tt (detach_transport-Same apply config now s))

  -- Where the session refines an abstract session and a branch of `select!` is enabled, takes an
  -- agent line no longer than a frame, and does not fail, the branch makes one move of the abstract
  -- session: it accepts the next client line, settles acknowledged lines, queues the agent's line
  -- that it read, or does none of these; and the session still refines it, within its limits.
  pub select-Simulated :
      (x : Spec) (cid token : String) (now : ℕ) (e : Event) (s s' : Session)
      → HasLimits config
      → IsBounded config e
      → enabled config s e ≡ true
      → Inv apply config x s
      → select config apply cid token now e s ≡ ok s'
      → Simulated apply config x (cause e) s'
  unfolding select enabled
  select-Simulated x cid token now (attachment (some fate)) s s' limits b on v e =
      (x, keep tt, attach-Inv apply config x cid token now fate s s' v e)
  select-Simulated x cid token now (keepalive_tick nonce) s s' limits b on v e =
      rw (← ok-injective _ _ e)
        (Same-Simulated apply config x s _ v tt (keepalive-Same now nonce s))
  select-Simulated x cid token now (diagnostic (some payload)) s s' limits b on v e =
      rw (← ok-injective _ _ e)
        (Same-Simulated apply config x s _ v tt (forward_diagnostic-Same payload s))
  select-Simulated x cid token now (transport_event (some m)) s s' limits b on v e =
      elim (Bool-cases (is_current config m.generation s.transport)) [
        | inl current ↦ take_transport_event-Simulated x now m.kind s s' limits v (rw current at e)
        | inr stale ↦ Same-Simulated apply config x s s' v (kind-MayKeep m.kind) (ground arith)
      ]
  select-Simulated x cid token now (agent_output (some (line payload))) s s' limits b on v e =
      agent_line-Simulated x payload s s' limits v on b e
  select-Simulated x cid token now (agent_output (some stdout_error)) s s' limits b on v e =
      Same-Simulated apply config x s s' v tt (ground arith)
  select-Simulated x cid token now (agent_output (some stdout_closed)) s s' limits b on v e =
      Same-Simulated apply config x s s' v tt (ground arith)
  select-Simulated x cid token now (child_exit (ok status)) s s' limits b on v e =
      Same-Simulated apply config x s s' v tt (ground arith)
  select-Simulated x cid token now (child_exit (err m)) s s' limits b on v e = cc
  select-Simulated x cid token now _ s s' limits b on v e =
      Same-Simulated apply config x s s' v tt (ground arith)
