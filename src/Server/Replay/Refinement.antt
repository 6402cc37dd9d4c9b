-- ===== src/Server/Replay/Refinement.antt =====
-- The server's replay buffer implements the outbox.
use acp_tunnel.Common.{
  saturating_sub, ℕ, suc, ◌+◌, ◌≤◌, String, len, ◌≡◌, refl, List, [], ◌∷◌, ◌++◌, ltb, leb, length,
  length-append, arith, Bool-cases, inl, inr, ap, u64_max, checked_add, saturating_add,
  checked_add_fits, saturating_add_fits, true, false,
}
use acp_tunnel.Fault.{ok}
use acp_tunnel.Outbox.{
  Outbox, log, log-settle, enqueue, settle, settle_from, total_bytes, total_bytes-append,
}
use acp_tunnel.Server.Replay.{
  ReplayFrame, Replay, queue_server_frame, drop_acknowledged, acknowledge,
}

-- The frames carry the payloads `ps`, numbered from `n`.
abbrev pub Holds : ℕ → List String → List ReplayFrame → Type 0
Holds n [] [] = Unit
Holds n [] (_ ∷ _) = ⊥
Holds n (_ ∷ _) [] = ⊥
Holds n (p ∷ ps) (f ∷ fs) = (f.sequence ≡ n) × (f.payload ≡ p) × Holds (n + 1) ps fs

pub record Refines (o : Outbox) (r : Replay) : Type 0 where
  pub holds : Holds (length o.settled + 1) o.waiting r.pending
  pub bytes : r.pending_bytes ≡ total_bytes o.waiting
  pub next : r.next_sequence ≡ length (log o) + 1

Holds-append :
    (n k : ℕ) (ps : List String) (fs : List ReplayFrame) (p : String) (f : ReplayFrame)
    → Holds n ps fs
    → f.sequence ≡ k
    → k ≡ n + length ps
    → f.payload ≡ p
    → Holds n (ps ++ p ∷ []) (fs ++ f ∷ [])
Holds-append n k [] [] p f h s e q = (omega arith, q, tt)
Holds-append n k [] (g ∷ fs) p f h s e q = absurd h
Holds-append n k (x ∷ ps) [] p f h s e q = absurd h
Holds-append n k (x ∷ ps) (g ∷ fs) p f h s e q =
    (h.0, h.1, Holds-append (n + 1) k ps fs p f h.2 s (omega arith) q)

pub Holds-length :
    (n : ℕ) (ps : List String) (fs : List ReplayFrame) → Holds n ps fs → length fs ≡ length ps
Holds-length n [] [] h = refl
Holds-length n [] (g ∷ fs) h = absurd h
Holds-length n (x ∷ ps) [] h = absurd h
Holds-length n (x ∷ ps) (g ∷ fs) h = ap suc (Holds-length (n + 1) ps fs h.2)

abbrev pub queued : String → Replay → Replay
queued payload r = record {
  pending =
      r.pending
      ++ record { sequence = r.next_sequence; payload = payload; last_sent_generation = 0 } ∷ [];
  pending_bytes = saturating_add r.pending_bytes (len payload);
  next_sequence = r.next_sequence + 1;
}

-- A frame is queued unless the sequence numbers are used up.
pub queue_server_frame_fits :
    (payload : String) (r : Replay)
    → r.next_sequence + 1 ≤ u64_max
    → queue_server_frame payload r ≡ ok (queued payload r)
unfolding queue_server_frame
queue_server_frame_fits payload r h = rw (checked_add_fits r.next_sequence 1 h)

pub queue_server_frame-eq-ok :
    (payload : String) (r r' : Replay)
    → queue_server_frame payload r ≡ ok r'
    → (r' ≡ queued payload r) × (r.next_sequence + 1 ≤ u64_max)
unfolding queue_server_frame checked_add
queue_server_frame-eq-ok payload r r' e = ground arith

pub queued-Refines :
    (o : Outbox) (r : Replay) (payload : String)
    → Refines o r
    → r.pending_bytes + len payload ≤ u64_max
    → Refines (enqueue payload o) (queued payload r)
queued-Refines o r payload v fits = record {
  holds =
      Holds-append (length o.settled + 1) r.next_sequence o.waiting r.pending payload _ v.holds refl
        (omega (arith, length-append o.settled o.waiting, v.next)) refl;
  bytes = omega (
    arith,
    v.bytes,
    saturating_add_fits r.pending_bytes (len payload) fits,
    total_bytes-append o.waiting (payload ∷ []),
  );
  next = omega (
    arith,
    v.next,
    length-append o.settled o.waiting,
    length-append o.waiting (payload ∷ []),
    length-append o.settled (o.waiting ++ payload ∷ []),
  );
}

-- The loop over the acknowledged frames makes the steps of `settle_from`.
acknowledged-Holds :
    (k n : ℕ) (done ps : List String) (fs : List ReplayFrame) (bytes : ℕ)
    → n ≡ length done + 1
    → Holds n ps fs
    → bytes ≡ total_bytes ps
    → let o = settle_from k done ps in
      Holds (length o.settled + 1) o.waiting (drop_acknowledged k fs bytes).0
      × ((drop_acknowledged k fs bytes).1 ≡ total_bytes o.waiting)
acknowledged-Holds k n done [] [] bytes m h b = (tt, b)
acknowledged-Holds k n done [] (f ∷ fs) bytes m h b = absurd h
acknowledged-Holds k n done (p ∷ ps) [] bytes m h b = absurd h
acknowledged-Holds k n done (p ∷ ps) (f ∷ fs) bytes m (s, q, h) b =
    elim (Bool-cases (ltb (length done) k)) [
      | inl more ↦
          let passed : leb f.sequence k ≡ true = ground arith in
          rw (more, passed)
            (acknowledged-Holds k (n + 1) (done ++ p ∷ []) ps fs _
              (omega (arith, length-append done (p ∷ []))) h (omega (arith, ap len q)))
      | inr stop ↦
          let kept : leb f.sequence k ≡ false = ground arith in
          rw (stop, kept) ((rw (← m) (s, q, h)), b)
    ]

-- Where a replay buffer refines an outbox, an acknowledgement drops from the buffer what it settles
-- in the outbox, and the byte count stays that of what is kept.
pub acknowledge-Refines :
    (k : ℕ) (o : Outbox) (r : Replay) → Refines o r → Refines (settle k o) (acknowledge k r)
unfolding settle acknowledge
acknowledge-Refines k o r v =
    let (h, b) =
      acknowledged-Holds k (length o.settled + 1) o.settled o.waiting r.pending r.pending_bytes refl
        v.holds v.bytes in
    record { holds = h; bytes = b; next = rw (log-settle k o) v.next }

-- Where a replay buffer refines an outbox and the new byte count fits into 64 bits, a frame that is
-- queued is the next line of the outbox, under the next number.
pub queue_server_frame-Refines :
    (o : Outbox) (r r' : Replay) (payload : String)
    → Refines o r
    → r.pending_bytes + len payload ≤ u64_max
    → queue_server_frame payload r ≡ ok r'
    → Refines (enqueue payload o) r'
queue_server_frame-Refines o r r' payload v fits e =
    rw ((queue_server_frame-eq-ok payload r r' e).0) (queued-Refines o r payload v fits)

pub drop_acknowledged-length :
    (k : ℕ) (fs : List ReplayFrame) (b : ℕ) → length (drop_acknowledged k fs b).0 ≤ length fs
drop_acknowledged-length k [] b = omega arith
drop_acknowledged-length k (f ∷ fs) b =
    ground (arith, drop_acknowledged-length k fs (saturating_sub b (len f.payload)))

pub drop_acknowledged-bytes :
    (k : ℕ) (fs : List ReplayFrame) (b : ℕ) → (drop_acknowledged k fs b).1 ≤ b
drop_acknowledged-bytes k [] b = omega arith
drop_acknowledged-bytes k (f ∷ fs) b =
    ground (arith, drop_acknowledged-bytes k fs (saturating_sub b (len f.payload)))
