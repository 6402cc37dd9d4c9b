-- ===== src/Client/Link/Written.antt =====
-- What an honest connector may write to its socket, and that a replay of its buffer is honest.
use acp_tunnel.Common.{
  ℕ, ◌+◌, ◌≤◌, String, ◌≡◌, refl, sym, ap, ◌∙◌, inl, inr, none, some, List, [], ◌∷◌, ◌++◌, map,
  length, length-append, append_assoc, append-nil, arith, All, All-map,
}
use acp_tunnel.Cause.{Cause}
use acp_tunnel.Numbered.{At, Has, Has-grow, At-append_right}
use acp_tunnel.Outbox.{log, log-settle}
use acp_tunnel.Protocol.{Envelope, acp, ack, client_to_server, server_to_client}
use acp_tunnel.Client.Socket.{ConnectOptions, PendingFrame, frame_envelope}
use acp_tunnel.Client.Link.{Link}
use acp_tunnel.Client.Link.Refinement.{
  Holds, LinkSpec, LinkMove, keep, typed, settles, prints, LinkInv,
}

-- An envelope that an honest connector may have sent.
abbrev pub FromClient : LinkSpec → Envelope → Type 0
FromClient x (acp (some n) p) = Has (log x.outbox) n p
FromClient x (acp none p) = ⊥
FromClient x (ack server_to_client k) = k ≤ length x.printed
FromClient x (ack client_to_server k) = ⊥
FromClient x _ = Unit

abbrev pub LinkGrows : LinkSpec → LinkSpec → Type 0
LinkGrows x y =
    (lines : List String) × (payloads : List String) × (log y.outbox ≡ log x.outbox ++ lines)
    × (y.printed ≡ x.printed ++ payloads)

pub LinkMove-grow : {x y : LinkSpec} {c : Cause} → LinkMove x c y → LinkGrows x y
LinkMove-grow (keep _) = ([], [], sym (append-nil _), sym (append-nil _))
LinkMove-grow {x} (typed line _) = (
  line ∷ [],
  [],
  sym (append_assoc x.outbox.settled x.outbox.waiting (line ∷ [])),
  sym (append-nil _),
)
LinkMove-grow {x} (settles k _ _) =
    ([], [], log-settle k x.outbox ∙ sym (append-nil _), sym (append-nil _))
LinkMove-grow {x} (prints n p _ _) = ([], p ∷ [], sym (append-nil _), refl)

pub FromClient-grow :
    (x y : LinkSpec) → LinkGrows x y → (e : Envelope) → FromClient x e → FromClient y e
FromClient-grow x y (lines, ps, l, p) (acp (some n) q) f =
    Has-grow (log x.outbox) (log y.outbox) lines n q l f
FromClient-grow x y (lines, ps, l, p) (ack server_to_client k) f =
    omega (arith, ap length p, length-append x.printed ps)
FromClient-grow x y g (acp none p) f = absurd f
FromClient-grow x y g (ack client_to_server k) f = absurd f
FromClient-grow x y g _ f = f

abbrev pub Written : LinkSpec → List Envelope → Type 0
Written x es = All (FromClient x) es

pub Written-grow :
    (x y : LinkSpec) (es : List Envelope) → LinkGrows x y → Written x es → Written y es
Written-grow x y es g w = All-map (FromClient-grow x y g) es w

pub Holds-Written :
    (k : ℕ) (ps : List String) (fs : List PendingFrame)
    → Holds k ps fs
    → All (λ f. At k ps f.sequence f.payload) fs
Holds-Written k [] [] h = tt
Holds-Written k [] (f ∷ fs) h = absurd h
Holds-Written k (p ∷ ps) [] h = absurd h
Holds-Written k (p ∷ ps) (f ∷ fs) (s, q, h) =
    (inl (s, q), All-map (λ g b. inr b) fs (Holds-Written (k + 1) ps fs h))

pub frames-Written :
    (x : LinkSpec) (fs : List PendingFrame)
    → All (λ f. At (length x.outbox.settled + 1) x.outbox.waiting f.sequence f.payload) fs
    → Written x (map frame_envelope fs)
frames-Written x [] h = tt
frames-Written x (f ∷ fs) h = (
  At-append_right 1 (length x.outbox.settled + 1) x.outbox.settled x.outbox.waiting f.sequence
      f.payload (omega arith) h.0,
  frames-Written x fs h.1,
)

-- A replay of the whole buffer.
pub buffer-Written :
    (options : ConnectOptions) (x : LinkSpec) (l : Link)
    → LinkInv options x l
    → Written x (map frame_envelope l.pending)
buffer-Written options x l v =
    frames-Written x l.pending (Holds-Written _ x.outbox.waiting l.pending v.holds)

pub last-Written :
    (z : LinkSpec) (fs : List PendingFrame) (f : PendingFrame)
    → Written z (map frame_envelope (fs ++ f ∷ []))
    → FromClient z (frame_envelope f)
last-Written z [] f w = w.0
last-Written z (g ∷ fs) f w = last-Written z fs f w.1
