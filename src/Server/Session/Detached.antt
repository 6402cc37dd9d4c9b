-- ===== src/Server/Session/Detached.antt =====
-- When a session has no transport, does it wait for its reconnect deadline?
use acp_tunnel.Common.{
  ℕ, ◌+◌, ◌<◌, String, len, ltb, ◌≡◌, refl, inl, inr, true, false, ◌||◌, none, some, List, arith,
  u64_max, Bool-cases, Option-cases, is_some, checked_add,
}
use acp_tunnel.Fault.{Error, Result, ok, err, Result-cases, >>=-eq-ok, ok-injective}
use acp_tunnel.Config.{ServerConfig}
use acp_tunnel.Policy.{PolicyOutcome, forward, reject}
use acp_tunnel.Protocol.{Envelope, acp}
use acp_tunnel.Server.Replay.{ReplayFrame}
use acp_tunnel.Server.Transport.{send, TransportHandle, Fate, attach_transport, pump_frames}
use acp_tunnel.Server.Session.{
  Session, send_client_ack, write_line, advance, count_inbound, accept_line, handle_frame,
  handle_client_envelope,
}
use acp_tunnel.Server.Session.Events.{
  Event, TransportEventKind, child_exit, attachment, keepalive_tick, transport_event, agent_output,
  diagnostic, deadline_reached, line, stdout_error, stdout_closed, message, disconnected, closed,
  Delivery, enabled, pump, offer_exit, prepare, ready_envelope, resume_ack, take_attached, attach,
  keepalive, forward_diagnostic, take_agent_event, after_envelope, is_current, take_transport_event,
  select, detach_transport,
}
use acp_tunnel.Server.Session.Wire.{Answered, handle_client_envelope-Answered}

-- A transport is attached, or the deadline runs.
abbrev pub IsWatched : Session → Type 0
IsWatched s = (is_some s.transport || is_some s.detached_deadline) ≡ true

module _ (config : ServerConfig) (cid token : String) where
  -- The setup of a resumed socket, as the session runs it.
  abbrev pub resumed_setup : ℕ → Fate → Session → List ReplayFrame × Result TransportHandle
  resumed_setup now fate s =
      attach_transport (s.generation + 1) config.channel_capacity
        (ready_envelope config cid token true) (resume_ack config s.expected_client_sequence) fate
        s.replay.pending

  -- Where a resumed socket replaces a transport that was still attached, so that no deadline runs,
  -- and its setup fails, the session goes on without a transport and without a reconnect deadline:
  -- the branch that would end it is not enabled.
  pub attach-strands :
      (now : ℕ) (fate : Fate) (e : Error) (s : Session)
      → s.generation < u64_max
      → s.detached_deadline ≡ none
      → (resumed_setup now fate s).1 ≡ err e
      → (s' : Session) × (attach config cid token now fate s ≡ ok s')
        × (s'.transport ≡ none)
        × (enabled config s' deadline_reached ≡ false)
  unfolding attach checked_add enabled take_attached
  attach-strands now fate e s room free failed = (
    take_attached config now (resumed_setup now fate s)
        (record s { generation = s.generation + 1; transport = none }),
    ground arith,
    ground arith,
    ground arith,
  )

module _ (config : ServerConfig) where
  detach_transport-IsWatched : (now : ℕ) (s : Session) → IsWatched (detach_transport config now s)
  unfolding detach_transport
  detach_transport-IsWatched now s = elim (Option-cases s.detached_deadline) [
    | inl e ↦ rw e refl
    | inr (d, e) ↦ rw e refl
  ]

  pump-IsWatched : (now : ℕ) (s : Session) → IsWatched s → IsWatched (pump config now s)
  unfolding pump detach_transport
  pump-IsWatched now s w = elim (Option-cases s.transport) [
    | inl e ↦ rw (e, pump) w
    | inr (h, e) ↦ elim (Bool-cases (pump_frames h s.replay.pending).2) [
      | inl live ↦ rw (e, live, pump) refl
      | inr dead ↦ rw (e, dead, pump) (ground arith)
    ]
  ]

  offer_exit-IsWatched :
      (now : ℕ) (d : Delivery) (s : Session) → IsWatched s → IsWatched (offer_exit config now d s)
  unfolding offer_exit detach_transport
  offer_exit-IsWatched now d s w = ground arith

  pub prepare-IsWatched :
      (now : ℕ) (d : Delivery) (s : Session) → IsWatched s → IsWatched (prepare config now d s)
  unfolding prepare
  prepare-IsWatched now d s w =
      offer_exit-IsWatched now d (pump config now s) (pump-IsWatched now s w)

  attach-IsWatched :
      (cid token : String) (now : ℕ) (fate : Fate) (s s' : Session)
      → is_some s.detached_deadline ≡ true
      → attach config cid token now fate s ≡ ok s'
      → IsWatched s'
  unfolding attach take_attached
  attach-IsWatched cid token now fate s s' d e = ground arith

  module _ (apply : String → Result PolicyOutcome) where
    -- A setup that fails on a session that had a live transport is the exception.
    abbrev pub Replaces : Event → Session → Type 0
    Replaces (attachment (some fate)) s = is_some s.detached_deadline ≡ false
    Replaces _ s = ⊥

    Answered-transport :
        (s s' : Session) → Answered s s' → is_some s'.transport ≡ is_some s.transport
    unfolding send_client_ack send
    Answered-transport s s' a = ground arith

    accept_line-deadline :
        (o : PolicyOutcome) (s s' : Session)
        → accept_line config apply o s ≡ ok s'
        → s'.detached_deadline ≡ s.detached_deadline
    unfolding accept_line write_line advance
    accept_line-deadline (forward p) s s' e = ground arith
    accept_line-deadline (reject p) s s' e = ground arith

    handle_frame-deadline :
        (n : ℕ) (p : String) (s s' : Session)
        → handle_frame config apply n p s ≡ ok s'
        → s'.detached_deadline ≡ s.detached_deadline
    unfolding handle_frame
    handle_frame-deadline n p s s' e = elim (Result-cases (apply p)) [
      | inl (o, a) ↦ elim (Bool-cases (ltb config.max_frame_bytes (len p))) [
        | inl long ↦ ground arith
        | inr short ↦ elim (Bool-cases (ltb s.expected_client_sequence n)) [
          | inl gap ↦ ground arith
          | inr no_gap ↦ elim (Bool-cases (ltb n s.expected_client_sequence)) [
            | inl old ↦ ground arith
            | inr next ↦ accept_line-deadline o s s' (rw (short, no_gap, next, a) at e)
          ]
        ]
      ]
      | inr (m, a) ↦ ground arith
    ]

    handle_client_envelope-deadline :
        (m : Envelope) (s s' : Session)
        → handle_client_envelope config apply m s ≡ ok s'
        → s'.detached_deadline ≡ s.detached_deadline
    unfolding handle_client_envelope count_inbound
    handle_client_envelope-deadline (acp (some n) p) s s' e =
        handle_frame-deadline n p (count_inbound p s) s' e
    handle_client_envelope-deadline _ s s' e = ground arith

    message-IsWatched :
        (m : Envelope) (t u s' : Session)
        → IsWatched t
        → handle_client_envelope config apply m t ≡ ok u
        → after_envelope config u ≡ s'
        → IsWatched s'
    unfolding after_envelope
    message-IsWatched m t u s' w h e =
        let same = handle_client_envelope-deadline m t u h in
        let live = Answered-transport t u (handle_client_envelope-Answered config apply m t u h) in
        ground arith

    take_transport_event-IsWatched :
        (now : ℕ) (k : TransportEventKind) (s s' : Session)
        → IsWatched s
        → take_transport_event config apply now k s ≡ ok s'
        → IsWatched s'
    unfolding take_transport_event
    take_transport_event-IsWatched now (message m) s s' w e =
        let t : Session = record s { last_received = now } in
        let (u, handled, e') =
          >>=-eq-ok (handle_client_envelope config apply m t) (λ u. ok (after_envelope config u))
            e in
        message-IsWatched m t u s' w handled (ok-injective _ _ e')
    take_transport_event-IsWatched now disconnected s s' w e =
        rw (← ok-injective _ _ e) (detach_transport-IsWatched now s)
    take_transport_event-IsWatched now closed s s' w e =
        rw (← ok-injective _ _ e) (detach_transport-IsWatched now s)
    take_transport_event-IsWatched now _ s s' w e = ground arith

    -- Every branch of `select!` leaves a session either with a transport or with a running
    -- reconnect deadline, provided it had one of these before and the branch is not the attachment
    -- of a socket to a session whose deadline does not run.
    pub select-IsWatched :
        (cid token : String) (now : ℕ) (e : Event) (s s' : Session)
        → ¬ Replaces e s
        → IsWatched s
        → select config apply cid token now e s ≡ ok s'
        → IsWatched s'
    unfolding select
    select-IsWatched cid token now (attachment (some fate)) s s' n w e =
        elim (Bool-cases (is_some s.detached_deadline)) [
          | inl d ↦ attach-IsWatched cid token now fate s s' d e
          | inr d ↦ absurd (n d)
        ]
    select-IsWatched cid token now (keepalive_tick nonce) s s' n w e =
        unfold keepalive detach_transport in ground arith
    select-IsWatched cid token now (diagnostic (some payload)) s s' n w e =
        unfold forward_diagnostic in ground arith
    select-IsWatched cid token now (transport_event (some m)) s s' n w e =
        elim (Bool-cases (is_current config m.generation s.transport)) [
          | inl current ↦ take_transport_event-IsWatched now m.kind s s' w (rw current at e)
          | inr stale ↦ ground arith
        ]
    select-IsWatched cid token now (agent_output (some (line p))) s s' n w e =
        unfold take_agent_event in ground arith
    select-IsWatched cid token now (agent_output (some stdout_error)) s s' n w e =
        unfold take_agent_event in ground arith
    select-IsWatched cid token now (agent_output (some stdout_closed)) s s' n w e =
        unfold take_agent_event in ground arith
    select-IsWatched cid token now (child_exit (ok status)) s s' n w e = ground arith
    select-IsWatched cid token now (child_exit (err m)) s s' n w e = cc
    select-IsWatched cid token now _ s s' n w e = ground arith
