-- ===== src/Server/Session/Envelopes.antt =====
-- What an envelope of the client does is a move of the abstract session.
use acp_tunnel.Common.{
  ℕ, ◌+◌, ◌≤◌, ◌<◌, String, len, ◌≡◌, refl, sym, ap, ◌∙◌, inl, inr, true, some, List, [], ◌∷◌, ◌++◌,
  length, length-append, append-nil, arith, u64_max, Bool-cases, ltb, leb, checked_add,
  saturating_add, saturating_add_fits,
}
use acp_tunnel.Cause.{hears}
use acp_tunnel.Fault.{Result, ok, >>=-eq-ok}
use acp_tunnel.Config.{ServerConfig}
use acp_tunnel.Outbox.{Outbox, enqueue, settle}
use acp_tunnel.Policy.{PolicyOutcome, forward, reject}
use acp_tunnel.Protocol.{Envelope, acp, ack, server_to_client}
use acp_tunnel.Server.Replay.{Replay, replay_fits, queue_server_frame, acknowledge}
use acp_tunnel.Server.Replay.Refinement.{
  drop_acknowledged-length, drop_acknowledged-bytes, Refines, queued, queue_server_frame-eq-ok,
  queued-Refines, acknowledge-Refines,
}
use acp_tunnel.Server.Session.{
  Session, send_client_ack, write_line, advance, count_inbound, accept_line, handle_frame,
  handle_client_envelope,
}
use acp_tunnel.Server.Session.Abstract.{
  Spec, Same, forwarded, deliver, refuse, settles, Inv, Simulated, forwarded-append, Same-Inv,
  Same-Simulated,
}

module _ (apply : String → Result PolicyOutcome) where
  abbrev advanced : Session → Session
  advanced s = record s {
    expected_client_sequence = s.expected_client_sequence + 1;
    transport = send_client_ack s.transport (s.expected_client_sequence + 1);
  }

  advance-eq-ok : (s s' : Session) → advance s ≡ ok s' → s' ≡ advanced s
  unfolding advance checked_add
  advance-eq-ok s s' e = ground arith

  write_line-eq-ok :
      (line : String) (s s' : Session)
      → write_line line s ≡ ok s'
      → s' ≡ record s { agent_stdin = s.agent_stdin ++ line ∷ [] }
  unfolding write_line
  write_line-eq-ok line s s' e = ground arith

  count-Same : (p : String) (s : Session) → Same s (count_inbound p s)
  unfolding count_inbound
  count-Same p s = (refl, refl, refl)

  module _ (config : ServerConfig) (small : config.max_replay_bytes < u64_max) where
    -- A line that the agent has read, or that was refused, counts as accepted.
    accepted-Inv :
        (x : Spec) (s s' : Session) (p : String) (o : Outbox) (r : Replay) (lines : List String)
        → advance (record s { replay = r; agent_stdin = lines }) ≡ ok s'
        → Refines o r
        → s.expected_client_sequence ≡ length x.accepted + 1
        → lines ≡ forwarded apply (x.accepted ++ p ∷ [])
        → length r.pending ≤ config.max_replay_frames
        → r.pending_bytes ≤ config.max_replay_bytes
        → Inv apply config (record { accepted = x.accepted ++ p ∷ []; outbox = o }) s'
    accepted-Inv x s s' p o r lines e ref exp l f b = rw (advance-eq-ok _ s' e) (record {
      refines = ref;
      expected = omega (arith, exp, length-append x.accepted (p ∷ []));
      stdin = l;
      frames = f;
      bytes = b;
    })

    replay_fits-bounds :
        (line : String) (r : Replay)
        → replay_fits config line r ≡ true
        → (length r.pending + 1 ≤ config.max_replay_frames)
          × (r.pending_bytes + len line ≤ config.max_replay_bytes)
    unfolding replay_fits saturating_add
    replay_fits-bounds line r h = ground arith

    accept_line-Simulated :
        (x : Spec) (s s' : Session) (n : ℕ) (p : String) (outcome : PolicyOutcome)
        → Inv apply config x s
        → n ≡ length x.accepted + 1
        → apply p ≡ ok outcome
        → accept_line config apply outcome s ≡ ok s'
        → Simulated apply config x (hears (acp (some n) p)) s'
    unfolding accept_line
    accept_line-Simulated x s s' n p (forward line) v m a e =
        let (s1, w, adv) = >>=-eq-ok (write_line line s) advance e in
        (
          record x { accepted = x.accepted ++ p ∷ [] },
          deliver n p line refl m a,
          accepted-Inv x s s' p x.outbox s.replay (s.agent_stdin ++ line ∷ [])
              (rw (write_line-eq-ok line s s1 w) at adv) v.refines v.expected
              (rw (forwarded-append apply x.accepted p, a) (ap (λ l. l ++ line ∷ []) v.stdin))
              v.frames v.bytes,
        )
    accept_line-Simulated x s s' n p (reject line) v m a e =
        elim (Bool-cases (replay_fits config line s.replay)) [
          | inl fits ↦
              let (r, q, adv) =
                >>=-eq-ok (queue_server_frame line s.replay)
                  (λ replay. advance (record s { replay = replay })) (rw fits at e) in
              let (len_fits, bytes_fit) = replay_fits-bounds line s.replay fits in
              let same = (queue_server_frame-eq-ok line s.replay r q).0 in
              (
                record { accepted = x.accepted ++ p ∷ []; outbox = enqueue line x.outbox },
                refuse n p line refl m a,
                accepted-Inv x s s' p (enqueue line x.outbox) (queued line s.replay) s.agent_stdin
                    (rw same at adv)
                    (queued-Refines x.outbox s.replay line v.refines (omega (arith, bytes_fit)))
                    v.expected
                    (v.stdin ∙ sym (rw (forwarded-append apply x.accepted p, a) (append-nil _)))
                    (omega (arith, len_fits, length-append s.replay.pending (_ ∷ [])))
                    (omega
                      (arith, bytes_fit, saturating_add_fits s.replay.pending_bytes (len line))),
              )
          | inr full ↦ Same-Simulated apply config x s s' v tt (ground arith)
        ]

    handle_frame-Simulated :
        (x : Spec) (n : ℕ) (p : String) (s s' : Session)
        → Inv apply config x s
        → handle_frame config apply n p s ≡ ok s'
        → Simulated apply config x (hears (acp (some n) p)) s'
    unfolding handle_frame
    handle_frame-Simulated x n p s s' v e = elim (Bool-cases (ltb config.max_frame_bytes (len p))) [
      | inl long ↦ Same-Simulated apply config x s s' v tt (ground arith)
      | inr short ↦ elim (Bool-cases (ltb s.expected_client_sequence n)) [
        | inl gap ↦ Same-Simulated apply config x s s' v tt (ground arith)
        | inr no_gap ↦ elim (Bool-cases (ltb n s.expected_client_sequence)) [
          | inl old ↦ Same-Simulated apply config x s s' v tt (ground arith)
          | inr next ↦
              let (outcome, a, e') =
                >>=-eq-ok (apply p) (λ outcome. accept_line config apply outcome s)
                  (rw (short, no_gap, next) at e) in
              accept_line-Simulated x s s' n p outcome v (ground (arith, v.expected)) a e'
        ]
      ]
    ]

    acknowledge-Simulated :
        (x : Spec) (k : ℕ) (s s' : Session)
        → Inv apply config x s
        → handle_client_envelope config apply (ack server_to_client k) s ≡ ok s'
        → Simulated apply config x (hears (ack server_to_client k)) s'
    unfolding handle_client_envelope
    acknowledge-Simulated x k s s' v e = elim (Bool-cases (leb s.replay.next_sequence k)) [
      | inl early ↦ Same-Simulated apply config x s s' v tt (ground arith)
      | inr fine ↦
          let y : Spec = record x { outbox = settle k x.outbox } in
          let same : s' ≡ record s { replay = acknowledge k s.replay } = ground arith in
          (
            y,
            settles k refl (ground (arith, v.refines.next)),
            rw same (record {
              refines = acknowledge-Refines k x.outbox s.replay v.refines;
              expected = v.expected;
              stdin = v.stdin;
              frames =
                  unfold acknowledge in
                  omega (
                    arith,
                    v.frames,
                    drop_acknowledged-length k s.replay.pending s.replay.pending_bytes,
                  );
              bytes =
                  unfold acknowledge in
                  omega (
                    arith,
                    v.bytes,
                    drop_acknowledged-bytes k s.replay.pending s.replay.pending_bytes,
                  );
            }),
          )
    ]

    -- Whatever the client sends, the session makes a move of the abstract session, keeps its lines
    -- to the agent in step with the lines accepted, and stays within the replay limits.
    pub handle_client_envelope-Simulated :
        (x : Spec) (e : Envelope) (s s' : Session)
        → Inv apply config x s
        → handle_client_envelope config apply e s ≡ ok s'
        → Simulated apply config x (hears e) s'
    unfolding handle_client_envelope
    handle_client_envelope-Simulated x (acp (some n) p) s s' v e =
        handle_frame-Simulated x n p (count_inbound p s) s'
          (Same-Inv apply config x s _ v (count-Same p s)) e
    handle_client_envelope-Simulated x (ack server_to_client k) s s' v e =
        acknowledge-Simulated x k s s' v e
    handle_client_envelope-Simulated x _ s s' v e =
        Same-Simulated apply config x s s' v tt (ground arith)
