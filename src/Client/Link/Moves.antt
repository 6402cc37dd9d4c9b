-- ===== src/Client/Link/Moves.antt =====
-- The moves of the abstract connector that the operations on its state make.
use acp_tunnel.Common.{
  ℕ, ◌+◌, ◌≤◌, ◌<◌, String, len, ◌≡◌, refl, ap, inl, inr, false, some, [], ◌∷◌, ◌++◌, length,
  length-append, arith, u64_max, Bool-cases, ltb, ◌==◌, checked_add, saturating_add,
  saturating_add_fits,
}
use acp_tunnel.Cause.{Cause, silent, hears, reads, MayKeep}
use acp_tunnel.Fault.{Result, ok, err}
use acp_tunnel.Outbox.{log-settle, enqueue, settle, total_bytes-append}
use acp_tunnel.Protocol.{acp, ack, client_to_server}
use acp_tunnel.Client.Socket.{ConnectOptions, PendingFrame, Message, text}
use acp_tunnel.Client.Link.{
  Link, Outcome, running, ◌>>?◌, LinkEvent, stdin_line, incoming, acknowledge, queue_line, deliver,
}
use acp_tunnel.Client.Link.Refinement.{
  LinkSpec, keep, typed, settles, prints, LinkInv, LinkSimulated, SameLink, SameLink-Inv,
  Holds-append, acknowledged-Holds,
}

pub >>?-eq-running {ℓ} :
    {A : Type ℓ} (m : Result A) (f : A → Outcome) (l : Link)
    → (m >>? f) ≡ running l
    → (a : A) × (m ≡ ok a) × (f a ≡ running l)
>>?-eq-running (ok a) f l h = (a, refl, h)
>>?-eq-running (err e) f l h = cc

pub running-injective : (l l' : Link) → running l ≡ running l' → l ≡ l'
running-injective l l' e = cc

pub fits_below :
    (limit a b : ℕ) → limit < u64_max → ltb limit (saturating_add a b) ≡ false → a + b ≤ limit
unfolding saturating_add
fits_below limit a b h e = ground arith

abbrev pub queued_link : String → Link → Link
queued_link line l = record l {
  pending = l.pending ++ record { sequence = l.next_client_sequence; payload = line } ∷ [];
  pending_bytes = saturating_add l.pending_bytes (len line);
  next_client_sequence = l.next_client_sequence + 1;
}

pub queue_line-eq-ok :
    (line : String) (l l' : Link) (f : PendingFrame)
    → queue_line line l ≡ ok (l', f)
    → l' ≡ queued_link line l
unfolding queue_line checked_add
queue_line-eq-ok line l l' f e = ground arith

-- The envelope of the server, or the line of standard input, that an event brings.
abbrev pub message_cause : Message → Cause
message_cause (text (ok e)) = hears e
message_cause _ = silent

abbrev pub link_cause : LinkEvent → Cause
link_cause (incoming (some (ok m))) = message_cause m
link_cause (stdin_line (some (ok line))) = reads line
link_cause _ = silent

module _ (options : ConnectOptions) where
  pub keep-Simulated :
      (x : LinkSpec) {cause : Cause} (l l' : Link)
      → LinkInv options x l
      → MayKeep cause
      → SameLink l l'
      → LinkSimulated options x cause l'
  keep-Simulated x l l' v k same = (x, keep k, SameLink-Inv options x l l' v same)

  -- A line that the guard lets in, and that is no longer than a frame, fits.
  pub queued-Simulated :
      (x : LinkSpec) (line : String) (l l' : Link)
      → options.max_replay_bytes < u64_max
      → LinkInv options x l
      → length l.pending + 1 ≤ options.max_replay_frames
      → l.pending_bytes + len line ≤ options.max_replay_bytes
      → SameLink (queued_link line l) l'
      → LinkSimulated options x (reads line) l'
  queued-Simulated x line l l' small v few fit same = (
    record x { outbox = enqueue line x.outbox },
    typed line refl,
    SameLink-Inv options _ (queued_link line l) l'
        (record {
          holds =
              Holds-append (length x.outbox.settled + 1) l.next_client_sequence x.outbox.waiting
                l.pending line _ v.holds refl
                (omega (arith, length-append x.outbox.settled x.outbox.waiting, v.next)) refl;
          counted = omega (
            arith,
            v.counted,
            saturating_add_fits l.pending_bytes (len line),
            total_bytes-append x.outbox.waiting (line ∷ []),
          );
          next = omega (
            arith,
            v.next,
            length-append x.outbox.settled x.outbox.waiting,
            length-append x.outbox.waiting (line ∷ []),
            length-append x.outbox.settled (x.outbox.waiting ++ line ∷ []),
          );
          expected = v.expected;
          stdout = v.stdout;
          frames = omega (arith, few, length-append l.pending (_ ∷ []));
          bytes = omega (arith, fit, saturating_add_fits l.pending_bytes (len line));
        })
        same,
  )

  pub deliver-Simulated :
      (x : LinkSpec) (n : ℕ) (p : String) (l t l' : Link)
      → LinkInv options x l
      → deliver n p l ≡ ok t
      → SameLink t l'
      → LinkSimulated options x (hears (acp (some n) p)) l'
  unfolding deliver checked_add
  deliver-Simulated x n p l t l' v e same = elim (Bool-cases (n == l.expected_server_sequence)) [
    | inl hit ↦
        let result : t ≡ record l {
          stdout = l.stdout ++ p ∷ [];
          expected_server_sequence = l.expected_server_sequence + 1;
        } =
          ground arith in
        (
          record x { printed = x.printed ++ p ∷ [] },
          prints n p refl (ground (arith, v.expected)),
          SameLink-Inv options _ t l'
              (rw result (record {
                holds = v.holds;
                counted = v.counted;
                next = v.next;
                expected = omega (arith, v.expected, length-append x.printed (p ∷ []));
                stdout = ap (λ q. q ++ p ∷ []) v.stdout;
                frames = v.frames;
                bytes = v.bytes;
              }))
              same,
        )
    | inr miss ↦ let result : t ≡ l = ground arith in keep-Simulated x t l' (rw result v) tt same
  ]

  pub acknowledge-Simulated :
      (x : LinkSpec) (k : ℕ) (l : Link)
      → LinkInv options x l
      → k < l.next_client_sequence
      → LinkSimulated options x (hears (ack client_to_server k)) (acknowledge k l)
  unfolding acknowledge settle
  acknowledge-Simulated x k l v h =
      let (held, total, few, small) =
        acknowledged-Holds k (length x.outbox.settled + 1) x.outbox.settled x.outbox.waiting
          l.pending l.pending_bytes refl v.holds v.counted in
      (
        record x { outbox = settle k x.outbox },
        settles k refl (omega (arith, v.next)),
        record {
          holds = held;
          counted = total;
          next = rw (log-settle k x.outbox) v.next;
          expected = v.expected;
          stdout = v.stdout;
          frames = omega (arith, few, v.frames);
          bytes = omega (arith, small, v.bytes);
        },
      )
