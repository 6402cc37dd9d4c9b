-- ===== src/Tunnel/Agreement.antt =====
-- The two ends of the tunnel agree on what each has taken from the other.
use acp_tunnel.Common.{
  ◌≤◌, String, ◌≡◌, refl, sym, ap, ◌∙◌, List, [], ◌∷◌, ◌++◌, length, length-append, append_assoc,
  append-nil, arith, tests, All, All-Occurs, subst,
}
use acp_tunnel.Cause.{Cause, silent, hears, reads, line_of}
use acp_tunnel.Fault.{Result, ok, err}
use acp_tunnel.Config.{ServerConfig}
use acp_tunnel.Numbered.{Begins, Begins-next}
use acp_tunnel.Outbox.{log, log-settle, length-settle}
use acp_tunnel.Policy.{PolicyOutcome, forward, reject}
use acp_tunnel.Protocol.{Envelope}
use acp_tunnel.Server.Session.Abstract.{Spec, Move, Inv}
use acp_tunnel.Server.Session.Wire.{FromServer, Wired}
use acp_tunnel.Client.Socket.{ConnectOptions}
use acp_tunnel.Client.Link.Refinement.{LinkSpec, LinkMove, keep, typed, settles, prints, LinkInv}
use acp_tunnel.Client.Link.Written.{FromClient, Written}
use acp_tunnel.Tunnel.{World, Heard}

-- The lines that the policy refuses, answered to the client.
module _ (apply : String → Result PolicyOutcome) where
  abbrev pub refused_line : Result PolicyOutcome → List String → List String
  refused_line (ok (reject line)) rest = line ∷ rest
  refused_line _ rest = rest

  abbrev pub refused : List String → List String
  refused [] = []
  refused (p ∷ ps) = refused_line (apply p) (refused ps)

  pub refused-append :
      (ps : List String) (p : String)
      → refused (ps ++ p ∷ []) ≡ refused ps ++ refused_line (apply p) []
  refused-append [] p = refl
  refused-append (q ∷ ps) p =
      elim (apply q)
        as (λ r.
          refused_line r (refused (ps ++ p ∷ []))
          ≡ refused_line r (refused ps) ++ refused_line (apply p) []) [
            | ok (forward line) ↦ refused-append ps p
            | ok (reject line) ↦ ap (◌∷◌ line) (refused-append ps p)
            | err e ↦ refused-append ps p
          ]

-- The third list has the elements of the first two, each list in its own order.
pub data Merge : List String → List String → List String → Type 0 where
  empty : Merge [] [] []
  left :
      (a : String) {xs ys zs : List String}
      → Merge xs ys zs
      → Merge (xs ++ a ∷ []) ys (zs ++ a ∷ [])
  right :
      (b : String) {xs ys zs : List String}
      → Merge xs ys zs
      → Merge xs (ys ++ b ∷ []) (zs ++ b ∷ [])

module _ (options : ConnectOptions) (config : ServerConfig)
    (apply : String → Result PolicyOutcome) where
  -- The abstract connector `x` and the abstract session `y` of a world, and what each has taken.
  pub record Agreed (x : LinkSpec) (y : Spec) (w : World) : Type 0 where
    pub client : LinkInv options x w.link
    pub server : Inv apply config y w.session
    pub accepted : Begins y.accepted (log x.outbox)
    pub printed : Begins x.printed (log y.outbox)
    pub client_settled : length x.outbox.settled ≤ length y.accepted
    pub server_settled : length y.outbox.settled ≤ length x.printed
    pub up : Written x w.up
    pub down : All (FromServer y) w.down
    pub written : Written x w.link.socket.written
    pub wired : Wired y w.session.transport
    pub typed : w.typed ≡ log x.outbox
    pub spoken : Merge w.spoken (refused apply y.accepted) (log y.outbox)

Heard-FromServer :
    (y : Spec) (c : Cause) (e : Envelope) (es : List Envelope)
    → c ≡ hears e
    → Heard c es
    → All (FromServer y) es
    → FromServer y e
Heard-FromServer y c e es same h from =
    All-Occurs (FromServer y) e es (subst (λ c. Heard c es) same h) from

Heard-FromClient :
    (x : LinkSpec) (c : Cause) (e : Envelope) (es : List Envelope)
    → c ≡ hears e
    → Heard c es
    → Written x es
    → FromClient x e
Heard-FromClient x c e es same h from =
    All-Occurs (FromClient x) e es (subst (λ c. Heard c es) same h) from

pub client-moves :
    (x z : LinkSpec) (y : Spec) (c : Cause) (es : List Envelope)
    → LinkMove x c z
    → Heard c es
    → All (FromServer y) es
    → Begins x.printed (log y.outbox)
    → length x.outbox.settled ≤ length y.accepted
    → Begins z.printed (log y.outbox)
      × (length z.outbox.settled ≤ length y.accepted)
      × (length x.printed ≤ length z.printed)
client-moves x z y c es (keep _) h from b s = (b, s, omega arith)
client-moves x z y c es (typed line _) h from b s = (b, s, omega arith)
client-moves x z y c es (settles k e fits) h from b s = (
  b,
  omega (tests, length-settle k x.outbox fits, Heard-FromServer y c _ es e h from),
  omega arith,
)
client-moves x z y c es (prints n p e next) h from b s = (
  Begins-next x.printed (log y.outbox) n p b (Heard-FromServer y c _ es e h from) next,
  s,
  omega (arith, length-append x.printed (p ∷ [])),
)

pub typed-moves :
    (x z : LinkSpec) (c : Cause) (lines : List String)
    → LinkMove x c z
    → lines ≡ log x.outbox
    → line_of c lines ≡ log z.outbox
typed-moves x z silent lines (keep _) e = e
typed-moves x z (hears m) lines (keep _) e = e
typed-moves x z (reads line) lines (keep k) e = absurd k
typed-moves x z c lines (typed line same) e =
    rw same
      (ap (λ l. l ++ line ∷ []) e ∙ append_assoc x.outbox.settled x.outbox.waiting (line ∷ []))
typed-moves x z c lines (settles k same _) e = rw same (e ∙ sym (log-settle k x.outbox))
typed-moves x z c lines (prints n p same _) e = rw same e

module _ (apply : String → Result PolicyOutcome) where
  pub session-moves :
      (x : LinkSpec) (y z : Spec) (c : Cause) (es : List Envelope)
      → Move apply y c z
      → Heard c es
      → Written x es
      → Begins y.accepted (log x.outbox)
      → length y.outbox.settled ≤ length x.printed
      → Begins z.accepted (log x.outbox)
        × (length z.outbox.settled ≤ length x.printed)
        × (length y.accepted ≤ length z.accepted)
  session-moves x y z c es (Move.keep _) h from b s = (b, s, omega arith)
  session-moves x y z c es (Move.emit line _) h from b s = (b, s, omega arith)
  session-moves x y z c es (Move.settles k e fits) h from b s = (
    b,
    omega (tests, length-settle k y.outbox fits, Heard-FromClient x c _ es e h from),
    omega arith,
  )
  session-moves x y z c es (Move.deliver n p line e next _) h from b s = (
    Begins-next y.accepted (log x.outbox) n p b (Heard-FromClient x c _ es e h from) next,
    s,
    omega (arith, length-append y.accepted (p ∷ [])),
  )
  session-moves x y z c es (Move.refuse n p line e next _) h from b s = (
    Begins-next y.accepted (log x.outbox) n p b (Heard-FromClient x c _ es e h from) next,
    s,
    omega (arith, length-append y.accepted (p ∷ [])),
  )

  pub spoken-moves :
      (y z : Spec) (c : Cause) (lines : List String)
      → Move apply y c z
      → Merge lines (refused apply y.accepted) (log y.outbox)
      → Merge (line_of c lines) (refused apply z.accepted) (log z.outbox)
  spoken-moves y z silent lines (Move.keep _) m = m
  spoken-moves y z (hears e) lines (Move.keep _) m = m
  spoken-moves y z (reads line) lines (Move.keep k) m = absurd k
  spoken-moves y z c lines (Move.emit line same) m =
      rw (same, ← append_assoc y.outbox.settled y.outbox.waiting (line ∷ [])) (left line m)
  spoken-moves y z c lines (Move.settles k same _) m = rw (same, log-settle k y.outbox) m
  spoken-moves y z c lines (Move.deliver n p line same _ a) m =
      rw (same, refused-append apply y.accepted p, a, append-nil (refused apply y.accepted)) m
  spoken-moves y z c lines (Move.refuse n p line same _ a) m =
      rw
        (
          same,
          refused-append apply y.accepted p,
          a,
          ← append_assoc y.outbox.settled y.outbox.waiting (line ∷ []),
        )
        (right line m)
