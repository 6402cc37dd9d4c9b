-- ===== src/Server/Session/Abstract.antt =====
-- The abstract session: the client's lines accepted so far, and the outbox of lines for the client.
-- `Move` says what it may do, `Inv` when a session refines it.
use acp_tunnel.Common.{ℕ, ◌+◌, ◌≤◌, String, ◌≡◌, refl, ap, ◌∙◌, some, List, [], ◌∷◌, ◌++◌, length}
use acp_tunnel.Cause.{Cause, hears, reads, MayKeep}
use acp_tunnel.Fault.{Result, ok, err}
use acp_tunnel.Config.{ServerConfig}
use acp_tunnel.Outbox.{Outbox, log, enqueue, settle}
use acp_tunnel.Policy.{PolicyOutcome, forward, reject}
use acp_tunnel.Protocol.{acp, ack, server_to_client}
use acp_tunnel.Server.Replay.Refinement.{Refines}
use acp_tunnel.Server.Session.{Session}

pub record Spec : Type 0 where
  pub accepted : List String
  pub outbox : Outbox

-- What was accepted, and what was queued for the client, only gets longer.
abbrev pub Grows : Spec → Spec → Type 0
Grows x y =
    (new : List String) × (lines : List String) × (y.accepted ≡ x.accepted ++ new)
    × (log y.outbox ≡ log x.outbox ++ lines)

-- A step that leaves alone what the abstract session is about.
abbrev pub Same : Session → Session → Type 0
Same s s' =
    (s'.replay ≡ s.replay)
    × (s'.expected_client_sequence ≡ s.expected_client_sequence)
    × (s'.agent_stdin ≡ s.agent_stdin)

module _ (apply : String → Result PolicyOutcome) where
  -- The lines that the agent is to read: those that the policy forwards, as it rewrote them.
  abbrev pub forwarded_line : Result PolicyOutcome → List String → List String
  forwarded_line (ok (forward line)) rest = line ∷ rest
  forwarded_line _ rest = rest

  abbrev pub forwarded : List String → List String
  forwarded [] = []
  forwarded (p ∷ ps) = forwarded_line (apply p) (forwarded ps)

  -- What a session may do, seen from outside, on an envelope of the client or on its own.
  pub data Move (x : Spec) (cause : Cause) : Spec → Type 0 where
    keep : MayKeep cause → Move x cause x
    deliver :
        (n : ℕ) (p line : String)
        → cause ≡ hears (acp (some n) p)
        → n ≡ length x.accepted + 1
        → apply p ≡ ok (forward line)
        → Move x cause (record x { accepted = x.accepted ++ p ∷ [] })
    refuse :
        (n : ℕ) (p line : String)
        → cause ≡ hears (acp (some n) p)
        → n ≡ length x.accepted + 1
        → apply p ≡ ok (reject line)
        → Move x cause (record { accepted = x.accepted ++ p ∷ []; outbox = enqueue line x.outbox })
    settles :
        (k : ℕ)
        → cause ≡ hears (ack server_to_client k)
        → k ≤ length (log x.outbox)
        → Move x cause (record x { outbox = settle k x.outbox })
    emit :
        (line : String)
        → cause ≡ reads line
        → Move x cause (record x { outbox = enqueue line x.outbox })

  pub record Inv (config : ServerConfig) (x : Spec) (s : Session) : Type 0 where
    pub refines : Refines x.outbox s.replay
    pub expected : s.expected_client_sequence ≡ length x.accepted + 1
    pub stdin : s.agent_stdin ≡ forwarded x.accepted
    pub frames : length s.replay.pending ≤ config.max_replay_frames
    pub bytes : s.replay.pending_bytes ≤ config.max_replay_bytes

  -- One step of the code is matched by one move.
  abbrev pub Simulated : ServerConfig → Spec → Cause → Session → Type 0
  Simulated config x cause s = (y : Spec) × Move x cause y × Inv config y s

  pub forwarded-append :
      (ps : List String) (p : String)
      → forwarded (ps ++ p ∷ []) ≡ forwarded ps ++ forwarded_line (apply p) []
  forwarded-append [] p = refl
  forwarded-append (q ∷ ps) p =
      elim (apply q)
        as (λ r.
          forwarded_line r (forwarded (ps ++ p ∷ []))
          ≡ forwarded_line r (forwarded ps) ++ forwarded_line (apply p) []) [
            | ok (forward line) ↦ ap (◌∷◌ line) (forwarded-append ps p)
            | ok (reject line) ↦ forwarded-append ps p
            | err e ↦ forwarded-append ps p
          ]

  pub Same-Inv :
      (config : ServerConfig) (x : Spec) (s s' : Session)
      → Inv config x s
      → Same s s'
      → Inv config x s'
  Same-Inv config x s s' v (r, e, l) = record {
    refines = rw r v.refines;
    expected = e ∙ v.expected;
    stdin = l ∙ v.stdin;
    frames = rw r v.frames;
    bytes = rw r v.bytes;
  }

  pub Same-Simulated :
      (config : ServerConfig) (x : Spec) {cause : Cause} (s s' : Session)
      → Inv config x s
      → MayKeep cause
      → Same s s'
      → Simulated config x cause s'
  Same-Simulated config x s s' v k m = (x, keep k, Same-Inv config x s s' v m)
