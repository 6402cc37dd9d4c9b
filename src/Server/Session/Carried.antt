-- ===== src/Server/Session/Carried.antt =====
-- What a transport carries stays honest, and the frames of a replay buffer are.
use acp_tunnel.Common.{
  ℕ, ap, inl, inr, Option, none, some, List, [], ◌∷◌, ◌++◌, map, length, length-append, arith, All,
  All-map, Bool-cases, ◌==◌,
}
use acp_tunnel.Numbered.{Has-grow}
use acp_tunnel.Outbox.{log}
use acp_tunnel.Protocol.{Envelope, acp, ack, client_to_server, server_to_client}
use acp_tunnel.Server.Replay.{ReplayFrame}
use acp_tunnel.Server.Transport.{TransportCommand, TransportHandle, frame_command}
use acp_tunnel.Server.Transport.Pump.{unsent}
use acp_tunnel.Server.Session.Abstract.{Spec, Grows}
use acp_tunnel.Server.Session.Wire.{FromServer, carried, Carries, Wired}

-- What was honest stays honest while the abstract session grows.
pub FromServer-grow : (x y : Spec) → Grows x y → (e : Envelope) → FromServer x e → FromServer y e
FromServer-grow x y (new, lines, a, l) (acp (some n) p) f =
    Has-grow (log x.outbox) (log y.outbox) lines n p l f
FromServer-grow x y (new, lines, a, l) (ack client_to_server k) f =
    omega (arith, ap length a, length-append x.accepted new)
FromServer-grow x y (new, lines, a, l) (acp none p) f = absurd f
FromServer-grow x y (new, lines, a, l) (ack server_to_client k) f = absurd f
FromServer-grow x y (new, lines, a, l) _ f = f

pub Carries-grow :
    (x y : Spec) (cs : List TransportCommand) → Grows x y → Carries x cs → Carries y cs
Carries-grow x y cs g w = All-map (λ c f. FromServer-grow x y g (carried c) f) cs w

pub Wired-grow : (x y : Spec) (t : Option TransportHandle) → Grows x y → Wired x t → Wired y t
Wired-grow x y none g w = tt
Wired-grow x y (some h) g w = Carries-grow x y h.commands g w

pub unsent-All :
    (P : ReplayFrame → Type 0) (g : ℕ) (fs : List ReplayFrame) → All P fs → All P (unsent g fs)
unsent-All P g [] h = tt
unsent-All P g (f ∷ fs) h = elim (Bool-cases (f.last_sent_generation == g)) [
  | inl old ↦ rw old (unsent-All P g fs h.1)
  | inr new ↦ rw new (h.0, unsent-All P g fs h.1)
]

pub All-left : (P : ReplayFrame → Type 0) (xs ys : List ReplayFrame) → All P (xs ++ ys) → All P xs
All-left P [] ys h = tt
All-left P (x ∷ xs) ys h = (h.0, All-left P xs ys h.1)

pub frames-Carries :
    (y : Spec) (fs : List ReplayFrame)
    → All (λ f. FromServer y (carried (frame_command f))) fs
    → Carries y (map frame_command fs)
frames-Carries y [] h = tt
frames-Carries y (f ∷ fs) h = (h.0, frames-Carries y fs h.1)
