-- ===== src/Server/Session/Honest.antt =====
-- The rounds of a session keep the wire honest.
use acp_tunnel.Common.{
  ℕ, ◌+◌, ◌-◌, String, ◌≡◌, refl, ◌⊎◌, inl, inr, Bool, true, false, none, some, List, map, length,
  arith, All-append, Bool-cases, Option-cases, checked_sub, checked_add, if◌then◌else◌,
}
use acp_tunnel.Fault.{Error, Result, ok, err, ok_or, >>=-eq-ok, ok-injective}
use acp_tunnel.Config.{ServerConfig}
use acp_tunnel.Policy.{PolicyOutcome}
use acp_tunnel.Protocol.{ping, stderr}
use acp_tunnel.Process.{ExitStatus}
use acp_tunnel.Server.Replay.{ReplayFrame}
use acp_tunnel.Server.Transport.{
  TransportCommand, envelope, TransportHandle, Fate, push, try_send, frame_command, pump_frames,
  attach_transport,
}
use acp_tunnel.Server.Transport.Pump.{pump_frames-Pumped}
use acp_tunnel.Server.Transport.Attach.{acks, attach_transport-Attached}
use acp_tunnel.Server.Session.{Session}
use acp_tunnel.Server.Session.Abstract.{Spec, Inv}
use acp_tunnel.Server.Session.Events.{
  refused, stalled, Delivery, detach_transport, pump, ready_envelope, resume_ack, offer_exit,
  prepare, after_exit, send_exit, await_reply, exit_envelope, all_enqueued, take_attached, attach,
  keepalive, forward_diagnostic,
}
use acp_tunnel.Server.Session.Wire.{FromServer, carried, Carries, Wired, push-Carries, Inv-Has}
use acp_tunnel.Server.Session.Carried.{unsent-All, All-left, frames-Carries}

module _ (apply : String → Result PolicyOutcome) (config : ServerConfig) where
  pump_frames-Carries :
      (y : Spec) (s : Session) (h : TransportHandle)
      → Inv apply config y s
      → Carries y h.commands
      → Carries y (pump_frames h s.replay.pending).1.commands
  pump_frames-Carries y s h v w =
      let P = λ (f : ReplayFrame). FromServer y (carried (frame_command f)) in
      let r = pump_frames-Pumped h s.replay.pending in
      let all =
        unsent-All P h.generation s.replay.pending (Inv-Has y s.replay.pending v.refines.holds) in
      rw r.wrote (
        All-append _ h.commands (map frame_command r.now) w
          (frames-Carries y r.now (All-left P r.now _ (rw r.split at all))))

  pump-Wired :
      (y : Spec) (now : ℕ) (s : Session)
      → Inv apply config y s
      → Wired y s.transport
      → Wired y (pump config now s).transport
  unfolding pump detach_transport
  pump-Wired y now s v w = elim (Option-cases s.transport) [
    | inl e ↦ rw (e, pump) w
    | inr (h, e) ↦ elim (Bool-cases (pump_frames h s.replay.pending).2) [
      | inl live ↦ rw (e, live, pump) (pump_frames-Carries y s h v (rw e at w))
      | inr gone ↦ rw (e, gone, pump) tt
    ]
  ]

  send_exit-Carries :
      (y : Spec) (d : Delivery) (status : ExitStatus) (h : TransportHandle)
      → Carries y h.commands
      → Carries y (send_exit d status h).0.commands
  unfolding send_exit
  send_exit-Carries y d status h w =
      either h.closed (h, false) (await_reply d command h) w (replied d)
    where
      command : TransportCommand
      command = TransportCommand.exit (exit_envelope status)

      replied : (d : Delivery) → Carries y (await_reply d command h).0.commands
      replied refused = w
      replied stalled = w
      replied _ = push-Carries y command h tt w

      either :
          (b : Bool) (p q : TransportHandle × Bool)
          → Carries y p.0.commands
          → Carries y q.0.commands
          → Carries y (if b then p else q).0.commands
      either true p q u v = u
      either false p q u v = v

  after_exit-Wired :
      (y : Spec) (now : ℕ) (h : TransportHandle) (done : Bool) (s : Session)
      → Carries y h.commands
      → Wired y (after_exit config now (h, done) s).transport
  unfolding after_exit
  after_exit-Wired y now h true s w = w
  after_exit-Wired y now h false s w = tt

  offer_exit-Wired :
      (y : Spec) (now : ℕ) (d : Delivery) (s : Session)
      → Wired y s.transport
      → Wired y (offer_exit config now d s).transport
  unfolding offer_exit
  offer_exit-Wired y now d s w = elim (Option-cases s.child_status) [
    | inl e ↦ rw (e, offer_exit) w
    | inr (status, e) ↦ elim (Option-cases s.transport) [
      | inl e' ↦ rw (e, e', offer_exit) w
      | inr (h, e') ↦ elim (Bool-cases (all_enqueued config h s.replay.pending)) [
        | inl all ↦
            rw (e, e', all, offer_exit)
              (after_exit-Wired y now (send_exit d status h).0 (send_exit d status h).1 s
                (send_exit-Carries y d status h (rw e' at w)))
        | inr some_left ↦ rw (e, e', some_left, offer_exit) w
      ]
    ]
  ]

  pub prepare-Wired :
      (y : Spec) (now : ℕ) (d : Delivery) (s : Session)
      → Inv apply config y s
      → Wired y s.transport
      → Wired y (prepare config now d s).transport
  unfolding prepare
  prepare-Wired y now d s v w =
      offer_exit-Wired y now d (pump config now s) (pump-Wired y now s v w)

  -- What a best-effort send does to the transport.
  abbrev Tried : TransportCommand → TransportHandle → Session → Session → Type 0
  Tried c h s s' =
      (s'.transport ≡ s.transport) ⊎ (s'.transport ≡ none) ⊎ (s'.transport ≡ some (push c h))

  Tried-Wired :
      (y : Spec) (c : TransportCommand) (h : TransportHandle) (s s' : Session)
      → FromServer y (carried c)
      → s.transport ≡ some h
      → Wired y s.transport
      → Tried c h s s'
      → Wired y s'.transport
  Tried-Wired y c h s s' f e w (inl same) = rw same w
  Tried-Wired y c h s s' f e w (inr (inl gone)) = rw gone tt
  Tried-Wired y c h s s' f e w (inr (inr sent)) = rw sent (push-Carries y c h f (rw e at w))

  pub keepalive-Wired :
      (y : Spec) (now : ℕ) (nonce : String) (s : Session)
      → Wired y s.transport
      → Wired y (keepalive config now nonce s).transport
  unfolding keepalive
  keepalive-Wired y now nonce s w = elim (Option-cases s.transport) [
    | inl e ↦ rw (e, keepalive) w
    | inr (h, e) ↦
        Tried-Wired y (envelope (ping nonce)) h s (keepalive config now nonce s) tt e w
          (unfold try_send detach_transport in ground arith)
  ]

  pub forward_diagnostic-Wired :
      (y : Spec) (payload : String) (s : Session)
      → Wired y s.transport
      → Wired y (forward_diagnostic config payload s).transport
  unfolding forward_diagnostic
  forward_diagnostic-Wired y payload s w = elim (Option-cases s.transport) [
    | inl e ↦ rw (e, forward_diagnostic) w
    | inr (h, e) ↦
        Tried-Wired y (envelope (stderr payload)) h s (forward_diagnostic config payload s) tt e w
          (unfold try_send in ground arith)
  ]

  resume_ack-Carries :
      (y : Spec) (expected : ℕ)
      → expected ≡ length y.accepted + 1
      → Carries y (acks (resume_ack config expected))
  unfolding checked_sub
  resume_ack-Carries y expected e =
      let last : checked_sub expected 1 ≡ some (expected - 1) = ground arith in
      rw (last, acks) (omega arith, tt)

  -- A resumed transport is told the truth from its first message on.
  pub attach-Wired :
      (y : Spec) (cid token : String) (now : ℕ) (fate : Fate) (s s' : Session)
      → Inv apply config y s
      → attach config cid token now fate s ≡ ok s'
      → Wired y s'.transport
  unfolding attach
  attach-Wired y cid token now fate s s' v e =
      let (g, _, e') =
        >>=-eq-ok
          (ok_or (checked_add s.generation 1) (Error.protocol "transport generation exhausted"))
          (λ g. ok (take_attached config now (setup g) (bare g))) e in
      rw (← ok-injective (take_attached config now (setup g) (bare g)) s' e')
        (told g (setup g).0 (setup g).1 refl refl)
    where
      setup : ℕ → List ReplayFrame × Result TransportHandle
      setup g =
          attach_transport g config.channel_capacity (ready_envelope config cid token true)
            (resume_ack config s.expected_client_sequence) fate s.replay.pending

      bare : ℕ → Session
      bare g = record s { generation = g; transport = none }

      told :
          (g : ℕ) (frames : List ReplayFrame) (r : Result TransportHandle)
          → (setup g).0 ≡ frames
          → (setup g).1 ≡ r
          → Wired y (take_attached config now (frames, r) (bare g)).transport
      told g frames (err _) p q = unfold take_attached in tt
      told g frames (ok h) p q =
          let a =
            attach_transport-Attached g config.channel_capacity
              (ready_envelope config cid token true) (resume_ack config s.expected_client_sequence)
              fate s.replay.pending h q in
          unfold take_attached in
          rw a.commands (
            tt,
            All-append _ (acks (resume_ack config s.expected_client_sequence))
                (map frame_command s.replay.pending)
                (resume_ack-Carries y s.expected_client_sequence v.expected)
                (frames-Carries y s.replay.pending (Inv-Has y s.replay.pending v.refines.holds)),
          )
