-- ===== src/Server/Session/Kept.antt =====
-- What a round of a session does beside the envelopes and lines keeps the abstract session: the
-- part before `select!`, the loss of a transport, and a new one.
use acp_tunnel.Common.{
  ℕ, ◌+◌, String, ◌≡◌, refl, sym, inl, inr, Bool, true, false, none, List, length, arith,
  Option-cases, checked_add, if◌then◌else◌,
}
use acp_tunnel.Fault.{Error, Result, ok, err, ok_or, >>=-eq-ok, ok-injective}
use acp_tunnel.Config.{ServerConfig}
use acp_tunnel.Policy.{PolicyOutcome}
use acp_tunnel.Server.Replay.{ReplayFrame}
use acp_tunnel.Server.Replay.Refinement.{Holds, Holds-length}
use acp_tunnel.Server.Transport.{TransportHandle, Fate, attach_transport, pump_frames}
use acp_tunnel.Server.Transport.Pump.{pump_frames-Holds}
use acp_tunnel.Server.Transport.Attach.{attach_transport-Holds}
use acp_tunnel.Server.Session.{Session}
use acp_tunnel.Server.Session.Abstract.{Spec, Inv, Same, Same-Inv}
use acp_tunnel.Server.Session.Events.{
  Delivery, detach_transport, pump, ready_envelope, resume_ack, offer_exit, prepare, take_attached,
  attach,
}

module _ (apply : String → Result PolicyOutcome) (config : ServerConfig) where
  -- New marks on the frames are nothing to the abstract session.
  marked-Inv :
      (x : Spec) (s s' : Session) (frames : List ReplayFrame)
      → Inv apply config x s
      → Same (record s { replay = record (s.replay) { pending = frames } }) s'
      → Holds (length x.outbox.settled + 1) x.outbox.waiting frames
      → Inv apply config x s'
  marked-Inv x s s' frames v same h =
      Same-Inv apply config x (record s { replay = record (s.replay) { pending = frames } }) s'
        (record {
          refines = record { holds = h; bytes = v.refines.bytes; next = v.refines.next };
          expected = v.expected;
          stdin = v.stdin;
          frames = omega (
            arith,
            v.frames,
            Holds-length (length x.outbox.settled + 1) x.outbox.waiting frames h,
            Holds-length (length x.outbox.settled + 1) x.outbox.waiting s.replay.pending
                v.refines.holds,
          );
          bytes = v.bytes;
        })
        same

  if-Inv :
      (x : Spec) (b : Bool) {s t : Session}
      → Inv apply config x s
      → Inv apply config x t
      → Inv apply config x (if b then s else t)
  if-Inv x true v w = v
  if-Inv x false v w = w

  pub detach_transport-Same : (now : ℕ) (s : Session) → Same s (detach_transport config now s)
  unfolding detach_transport
  detach_transport-Same now s = (refl, refl, refl)

  pump-Inv :
      (x : Spec) (now : ℕ) (s : Session)
      → Inv apply config x s
      → Inv apply config x (pump config now s)
  unfolding pump
  pump-Inv x now s v = elim (Option-cases s.transport) [
    | inl e ↦ rw (e, pump) v
    | inr (h, e) ↦
        let frames = (pump_frames h s.replay.pending).0 in
        let held = pump_frames-Holds _ _ h s.replay.pending v.refines.holds in
        rw (e, pump)
          (if-Inv x (pump_frames h s.replay.pending).2
            (marked-Inv x s _ frames v (refl, refl, refl) held)
            (marked-Inv x s _ frames v (refl, refl, refl) held))
  ]

  offer_exit-Same : (now : ℕ) (d : Delivery) (s : Session) → Same s (offer_exit config now d s)
  unfolding offer_exit
  offer_exit-Same now d s = ground arith

  -- The part of a round before `select!` is no move of the abstract session.
  pub prepare-Inv :
      (x : Spec) (now : ℕ) (d : Delivery) (s : Session)
      → Inv apply config x s
      → Inv apply config x (prepare config now d s)
  unfolding prepare
  prepare-Inv x now d s v =
      Same-Inv apply config x (pump config now s) _ (pump-Inv x now s v)
        (offer_exit-Same now d (pump config now s))

  take_attached-Same :
      (now : ℕ) (frames : List ReplayFrame) (r : Result TransportHandle) (s : Session)
      → Same
          (record s { replay = record (s.replay) { pending = frames } })
          (take_attached config now (frames, r) s)
  unfolding take_attached
  take_attached-Same now frames (ok h) s = (refl, refl, refl)
  take_attached-Same now frames (err e) s = (refl, refl, refl)

  pub attach-Inv :
      (x : Spec) (cid token : String) (now : ℕ) (fate : Fate) (s s' : Session)
      → Inv apply config x s
      → attach config cid token now fate s ≡ ok s'
      → Inv apply config x s'
  unfolding attach
  attach-Inv x cid token now fate s s' v e =
      let (g, _, e') =
        >>=-eq-ok
          (ok_or (checked_add s.generation 1) (Error.protocol "transport generation exhausted"))
          (λ g.
            ok (take_attached config now (setup g) (record s { generation = g; transport = none })))
          e in
      let frames = (setup g).0 in
      let held =
        attach_transport-Holds _ _ g config.channel_capacity (ready_envelope config cid token true)
          (resume_ack config s.expected_client_sequence) fate s.replay.pending v.refines.holds in
      let t : Session = record s { generation = g; transport = none } in
      let result : s' ≡ take_attached config now (setup g) t = sym (ok-injective _ _ e') in
      rw result (marked-Inv x s _ frames v (take_attached-Same now frames (setup g).1 t) held)
    where
      setup : ℕ → List ReplayFrame × Result TransportHandle
      setup g =
          attach_transport g config.channel_capacity (ready_envelope config cid token true)
            (resume_ack config s.expected_client_sequence) fate s.replay.pending
