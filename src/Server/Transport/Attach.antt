-- ===== src/Server/Transport/Attach.antt =====
-- A transport that is attached says ready, acknowledges, and replays the whole buffer in order.
use acp_tunnel.Common.{
  ℕ, zero, suc, ◌+◌, String, ◌≡◌, refl, false, Option, none, some, List, [], ◌∷◌, ◌++◌,
  append_assoc, append-nil, arith, inl, inr, map, Option-cases,
}
use acp_tunnel.Fault.{ok}
use acp_tunnel.Protocol.{Envelope}
use acp_tunnel.Server.Replay.{ReplayFrame}
use acp_tunnel.Server.Replay.Refinement.{Holds}
use acp_tunnel.Server.Transport.{
  TransportCommand, envelope, TransportHandle, Fate, fresh, push, frame_command, setup_send,
  setup_ack, replay_frames, attached, attach_transport,
}

abbrev pub mark : ℕ → ReplayFrame → ReplayFrame
mark g f = record f { last_sent_generation = g }

-- Whatever becomes of the setup, the buffer keeps its numbers and payloads.
replay_frames-Holds :
    (n : ℕ) (ps : List String) (b : Option ℕ) (h : TransportHandle) (fs : List ReplayFrame)
    → Holds n ps fs
    → Holds n ps (replay_frames b h fs).0
unfolding replay_frames
replay_frames-Holds n [] b h [] v = tt
replay_frames-Holds n [] b h (f ∷ fs) v = absurd v
replay_frames-Holds n (p ∷ ps) b h [] v = absurd v
replay_frames-Holds n (p ∷ ps) none h (f ∷ fs) v =
    (v.0, v.1, replay_frames-Holds (n + 1) ps none (push (frame_command f) h) fs v.2)
replay_frames-Holds n (p ∷ ps) (some zero) h (f ∷ fs) v = v
replay_frames-Holds n (p ∷ ps) (some (suc k)) h (f ∷ fs) v =
    (v.0, v.1, replay_frames-Holds (n + 1) ps (some k) (push (frame_command f) h) fs v.2)

-- A setup that runs through sends every frame.
replay_frames-eq-some :
    (b : Option ℕ) (h h' : TransportHandle) (fs : List ReplayFrame)
    → (replay_frames b h fs).1 ≡ some h'
    → (h'.commands ≡ h.commands ++ map frame_command fs)
      × ((replay_frames b h fs).0 ≡ map (mark h.generation) fs)
      × (h'.generation ≡ h.generation)
      × (h'.closed ≡ h.closed)
unfolding replay_frames
replay_frames-eq-some b h h' [] e = ground (arith, append-nil h.commands)
replay_frames-eq-some none h h' (f ∷ fs) e = ground (
  arith,
  replay_frames-eq-some none (push (frame_command f) h) h' fs e,
  append_assoc h.commands (frame_command f ∷ []) (map frame_command fs),
)
replay_frames-eq-some (some zero) h h' (f ∷ fs) e = cc
replay_frames-eq-some (some (suc k)) h h' (f ∷ fs) e = ground (
  arith,
  replay_frames-eq-some (some k) (push (frame_command f) h) h' fs e,
  append_assoc h.commands (frame_command f ∷ []) (map frame_command fs),
)

abbrev pub acks : Option Envelope → List TransportCommand
acks none = []
acks (some e) = envelope e ∷ []

pub attach_transport-Holds :
    (n : ℕ) (ps : List String) (g cap : ℕ) (first : Envelope) (ack : Option Envelope) (fate : Fate)
    (fs : List ReplayFrame)
    → Holds n ps fs
    → Holds n ps (attach_transport g cap first ack fate fs).0
unfolding attach_transport
attach_transport-Holds n ps g cap first ack fate fs v =
    elim (Option-cases (setup_send fate.accepts (envelope first) (fresh g cap))) [
      | inl e ↦ rw (e, attach_transport) v
      | inr ((b, h), e) ↦ elim (Option-cases (setup_ack b ack h)) [
        | inl e' ↦ rw (e, e', attach_transport) v
        | inr ((b', h'), e') ↦ rw (e, e', attach_transport) (replay_frames-Holds n ps b' h' fs v)
      ]
    ]

setup_send-eq-some :
    (b b' : Option ℕ) (c : TransportCommand) (h h' : TransportHandle)
    → setup_send b c h ≡ some (b', h')
    → h' ≡ push c h
unfolding setup_send
setup_send-eq-some none b' c h h' e = ground arith
setup_send-eq-some (some zero) b' c h h' e = cc
setup_send-eq-some (some (suc k)) b' c h h' e = ground arith

-- What an attached transport has in its channel.
pub record Attached (g : ℕ) (first : Envelope) (ack : Option Envelope)
    (fs frames : List ReplayFrame) (h : TransportHandle) : Type 0 where
  pub commands : h.commands ≡ envelope first ∷ (acks ack ++ map frame_command fs)
  pub marked : frames ≡ map (mark g) fs
  pub generation : h.generation ≡ g
  pub is_open : h.closed ≡ false

setup_ack-eq-some :
    (b b' : Option ℕ) (ack : Option Envelope) (h h' : TransportHandle)
    → setup_ack b ack h ≡ some (b', h')
    → (h'.commands ≡ h.commands ++ acks ack)
      × (h'.generation ≡ h.generation)
      × (h'.closed ≡ h.closed)
unfolding setup_ack
setup_ack-eq-some b b' none h h' e = ground (arith, append-nil h.commands)
setup_ack-eq-some b b' (some a) h h' e =
    let same = setup_send-eq-some b b' (envelope a) h h' e in rw same (refl, refl, refl)

attached-eq-ok :
    (fate : Fate) (r : Option TransportHandle) (h : TransportHandle)
    → attached fate r ≡ ok h
    → r ≡ some h
attached-eq-ok fate none h e = cc
attached-eq-ok fate (some h') h e = cc

-- A transport that was set up has in its channel, in this order, the ready message, the
-- acknowledgement if there is one, and every frame of the replay buffer, and each of these frames
-- is marked as sent to it.
pub attach_transport-Attached :
    (g cap : ℕ) (first : Envelope) (ack : Option Envelope) (fate : Fate) (fs : List ReplayFrame)
    (h : TransportHandle)
    → (attach_transport g cap first ack fate fs).1 ≡ ok h
    → Attached g first ack fs (attach_transport g cap first ack fate fs).0 h
unfolding attach_transport
attach_transport-Attached g cap first ack fate fs h e =
    elim (Option-cases (setup_send fate.accepts (envelope first) (fresh g cap))) [
      | inl e0 ↦ absurd (ground arith)
      | inr ((b, h0), e0) ↦ elim (Option-cases (setup_ack b ack h0)) [
        | inl e1 ↦ absurd (ground arith)
        | inr ((b1, h1), e1) ↦
            let start = setup_send-eq-some fate.accepts b (envelope first) (fresh g cap) h0 e0 in
            let acked = setup_ack-eq-some b b1 ack h0 h1 e1 in
            let all = replay_frames-eq-some b1 h1 h fs (
              attached-eq-ok fate (replay_frames b1 h1 fs).1 h
                (rw (e0, e1, attach_transport) at e)) in
            rw (e0, e1, attach_transport)
              (record {
                commands =
                    ground
                      (arith, append_assoc (envelope first ∷ []) (acks ack) (map frame_command fs));
                marked = ground arith;
                generation = ground arith;
                is_open = ground arith;
              })
      ]
    ]
