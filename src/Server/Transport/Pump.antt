-- ===== src/Server/Transport/Pump.antt =====
-- src/server.rs: what `pump_replay` puts into the channel of a transport.
use acp_tunnel.Common.{
  ℕ, ◌+◌, ◌-◌, ◌≤◌, length, String, ◌≡◌, ◌≢◌, refl, Bool, true, false, List, [], ◌∷◌, ◌++◌,
  append_assoc, append-nil, arith, ◌⊎◌, inl, inr, sym, ap, ◌∙◌, map, ◌==◌, Bool-cases, All, ==_iff,
  if◌then◌else◌,
}
use acp_tunnel.Server.Replay.{ReplayFrame}
use acp_tunnel.Server.Replay.Refinement.{Holds}
use acp_tunnel.Server.Transport.{
  TransportCommand, TransportHandle, sent, is_full, is_closed, try_send, push, frame_command,
  pump_frames,
}

-- The frames keep their numbers and payloads.
pub pump_frames-Holds :
    (n : ℕ) (ps : List String) (h : TransportHandle) (fs : List ReplayFrame)
    → Holds n ps fs
    → Holds n ps (pump_frames h fs).0
unfolding pump_frames
pump_frames-Holds n [] h [] v = tt
pump_frames-Holds n [] h (f ∷ fs) v = absurd v
pump_frames-Holds n (p ∷ ps) h [] v = absurd v
pump_frames-Holds n (p ∷ ps) h (f ∷ fs) v = ground (
  arith,
  pump_frames-Holds (n + 1) ps h fs v.2,
  pump_frames-Holds (n + 1) ps (push (frame_command f) h) fs v.2,
)

-- The frames that this transport has not had.
abbrev pub unsent : ℕ → List ReplayFrame → List ReplayFrame
unsent g [] = []
unsent g (f ∷ fs) = if f.last_sent_generation == g then unsent g fs else f ∷ unsent g fs

abbrev pub NoneSent : ℕ → List ReplayFrame → Type 0
NoneSent g fs = All (λ f. f.last_sent_generation ≢ g) fs

-- What this transport has had is the older part of the buffer.
abbrev pub SentPrefix : ℕ → List ReplayFrame → Type 0
SentPrefix g [] = Unit
SentPrefix g (f ∷ fs) = ((f.last_sent_generation ≡ g) × SentPrefix g fs) ⊎ NoneSent g (f ∷ fs)

-- The channel has no room for another command.
abbrev pub IsFull : TransportHandle → Type 0
IsFull h = h.capacity ≤ length h.commands - h.taken

-- The outcome of a pump: it sent `now`, in order, and what it left unsent is nothing, or has no way
-- or no room to go.
pub record Pumped (h : TransportHandle) (fs : List ReplayFrame)
    (r : List ReplayFrame × TransportHandle × Bool) : Type 0 where
  pub now : List ReplayFrame
  pub split : unsent h.generation fs ≡ now ++ unsent h.generation r.0
  pub wrote : r.1.commands ≡ h.commands ++ map frame_command now
  pub same_generation : r.1.generation ≡ h.generation
  pub same_closed : r.1.closed ≡ h.closed
  pub stops_closed : r.2 ≡ false → h.closed ≡ true
  pub none_left : (unsent h.generation r.0 ≡ []) ⊎ (r.1.closed ≡ true) ⊎ IsFull r.1

try_send_cases :
    (c : TransportCommand) (h : TransportHandle)
    → (try_send c h ≡ sent (push c h))
      ⊎ ((try_send c h ≡ is_full) × IsFull h)
      ⊎ ((try_send c h ≡ is_closed) × (h.closed ≡ true))
unfolding try_send
try_send_cases c h = ground arith

Pumped-nothing :
    (h : TransportHandle) (fs : List ReplayFrame) (live : Bool)
    → (live ≡ false → h.closed ≡ true)
    → (unsent h.generation fs ≡ []) ⊎ (h.closed ≡ true) ⊎ IsFull h
    → Pumped h fs (fs, h, live)
Pumped-nothing h fs live stops reason = record {
  now = [];
  split = refl;
  wrote = sym (append-nil h.commands);
  same_generation = refl;
  same_closed = refl;
  stops_closed = stops;
  none_left = reason;
}

-- The pump puts into the channel a first part of the frames that this transport has not had, in
-- order, and these are no longer unsent afterwards; it leaves none unsent unless the channel is
-- closed or has no room; and it reports a dead transport only where the channel is closed.
pub pump_frames-Pumped :
    (h : TransportHandle) (fs : List ReplayFrame) → Pumped h fs (pump_frames h fs)
unfolding pump_frames
pump_frames-Pumped h [] = Pumped-nothing h [] true (λ e. cc) (inl refl)
pump_frames-Pumped h (f ∷ fs) = elim (Bool-cases (f.last_sent_generation == h.generation)) [
  | inl old ↦
      let v = pump_frames-Pumped h fs in
      rw (old, pump_frames)
        (record {
          now = v.now;
          split = rw old v.split;
          wrote = v.wrote;
          same_generation = v.same_generation;
          same_closed = v.same_closed;
          stops_closed = v.stops_closed;
          none_left = rw old v.none_left;
        })
  | inr new ↦ elim (try_send_cases (frame_command f) h) [
    | inl went ↦
        let v = pump_frames-Pumped (push (frame_command f) h) fs in
        rw (new, went, pump_frames)
          (record {
            now = f ∷ v.now;
            split = rw (new, (==_iff h.generation h.generation).1 refl) (ap (◌∷◌ f) v.split);
            wrote =
                v.wrote ∙ append_assoc h.commands (frame_command f ∷ []) (map frame_command v.now);
            same_generation = v.same_generation;
            same_closed = v.same_closed;
            stops_closed = v.stops_closed;
            none_left = rw ((==_iff h.generation h.generation).1 refl) v.none_left;
          })
    | inr (inl (full, no_room)) ↦
        rw (new, full, pump_frames) (Pumped-nothing h (f ∷ fs) true (λ e. cc) (inr (inr no_room)))
    | inr (inr (shut, e)) ↦
        rw (new, shut, pump_frames) (Pumped-nothing h (f ∷ fs) false (λ _. e) (inr (inl e)))
  ]
]
