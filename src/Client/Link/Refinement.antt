-- ===== src/Client/Link/Refinement.antt =====
-- The connector's loop refines an abstract connector: an outbox of the lines that it read, and the
-- server's payloads that it printed.
use acp_tunnel.Common.{
  ℕ, ◌+◌, ◌≤◌, String, len, ◌≡◌, ap, ◌∙◌, inl, inr, true, false, some, List, [], ◌∷◌, ◌++◌, length,
  length-append, arith, Bool-cases, ltb, leb, saturating_sub,
}
use acp_tunnel.Cause.{Cause, hears, reads, MayKeep}
use acp_tunnel.Fault.{Result}
use acp_tunnel.Outbox.{Outbox, log, enqueue, settle, settle_from, total_bytes}
use acp_tunnel.Protocol.{ClientInfo, Envelope, acp, ack, client_to_server, ShutdownReason}
use acp_tunnel.Client.Socket.{ConnectOptions, ResumeCredentials, PendingFrame, Turn}
use acp_tunnel.Client.Link.{
  Link, running, drop_acknowledged, reconnect_and_replay, send_or_reconnect,
}

-- The frames carry the payloads `ps`, numbered from `n`.
abbrev pub Holds : ℕ → List String → List PendingFrame → Type 0
Holds n [] [] = Unit
Holds n [] (_ ∷ _) = ⊥
Holds n (_ ∷ _) [] = ⊥
Holds n (p ∷ ps) (f ∷ fs) = (f.sequence ≡ n) × (f.payload ≡ p) × Holds (n + 1) ps fs

pub record LinkSpec : Type 0 where
  pub outbox : Outbox
  pub printed : List String

-- What a connector may do, seen from outside, on an envelope of the server or on its own.
pub data LinkMove (x : LinkSpec) (cause : Cause) : LinkSpec → Type 0 where
  keep : MayKeep cause → LinkMove x cause x
  typed :
      (line : String)
      → cause ≡ reads line
      → LinkMove x cause (record x { outbox = enqueue line x.outbox })
  settles :
      (k : ℕ)
      → cause ≡ hears (ack client_to_server k)
      → k ≤ length (log x.outbox)
      → LinkMove x cause (record x { outbox = settle k x.outbox })
  prints :
      (n : ℕ) (payload : String)
      → cause ≡ hears (acp (some n) payload)
      → n ≡ length x.printed + 1
      → LinkMove x cause (record x { printed = x.printed ++ payload ∷ [] })

pub record LinkInv (options : ConnectOptions) (x : LinkSpec) (l : Link) : Type 0 where
  pub holds : Holds (length x.outbox.settled + 1) x.outbox.waiting l.pending
  pub counted : l.pending_bytes ≡ total_bytes x.outbox.waiting
  pub next : l.next_client_sequence ≡ length (log x.outbox) + 1
  pub expected : l.expected_server_sequence ≡ length x.printed + 1
  pub stdout : l.stdout ≡ x.printed
  pub frames : length l.pending ≤ options.max_replay_frames
  pub bytes : l.pending_bytes ≤ options.max_replay_bytes

abbrev pub LinkSimulated : ConnectOptions → LinkSpec → Cause → Link → Type 0
LinkSimulated options x cause l = (y : LinkSpec) × LinkMove x cause y × LinkInv options y l

-- A branch that leaves alone what the abstract connector is about.
abbrev pub SameLink : Link → Link → Type 0
SameLink l l' =
    (l'.pending ≡ l.pending)
    × (l'.pending_bytes ≡ l.pending_bytes)
    × (l'.next_client_sequence ≡ l.next_client_sequence)
    × (l'.expected_server_sequence ≡ l.expected_server_sequence)
    × (l'.stdout ≡ l.stdout)

pub SameLink-Inv :
    (options : ConnectOptions) (x : LinkSpec) (l l' : Link)
    → LinkInv options x l
    → SameLink l l'
    → LinkInv options x l'
SameLink-Inv options x l l' v (p, b, n, e, s) = record {
  holds = rw p v.holds;
  counted = b ∙ v.counted;
  next = n ∙ v.next;
  expected = e ∙ v.expected;
  stdout = s ∙ v.stdout;
  frames = rw p v.frames;
  bytes = rw b v.bytes;
}

pub Holds-append :
    (n k : ℕ) (ps : List String) (fs : List PendingFrame) (p : String) (f : PendingFrame)
    → Holds n ps fs
    → f.sequence ≡ k
    → k ≡ n + length ps
    → f.payload ≡ p
    → Holds n (ps ++ p ∷ []) (fs ++ f ∷ [])
Holds-append n k [] [] p f h s e q = (omega arith, q, tt)
Holds-append n k [] (g ∷ fs) p f h s e q = absurd h
Holds-append n k (x ∷ ps) [] p f h s e q = absurd h
Holds-append n k (x ∷ ps) (g ∷ fs) p f h s e q =
    (h.0, h.1, Holds-append (n + 1) k ps fs p f h.2 s (omega arith) q)

pub acknowledged-Holds :
    (k n : ℕ) (done ps : List String) (fs : List PendingFrame) (bytes : ℕ)
    → n ≡ length done + 1
    → Holds n ps fs
    → bytes ≡ total_bytes ps
    → let o = settle_from k done ps in
      Holds (length o.settled + 1) o.waiting (drop_acknowledged k fs bytes).0
      × ((drop_acknowledged k fs bytes).1 ≡ total_bytes o.waiting)
      × (length (drop_acknowledged k fs bytes).0 ≤ length fs)
      × ((drop_acknowledged k fs bytes).1 ≤ bytes)
acknowledged-Holds k n done [] [] bytes m h b = (tt, b, omega arith, omega arith)
acknowledged-Holds k n done [] (f ∷ fs) bytes m h b = absurd h
acknowledged-Holds k n done (p ∷ ps) [] bytes m h b = absurd h
acknowledged-Holds k n done (p ∷ ps) (f ∷ fs) bytes m (s, q, h) b =
    elim (Bool-cases (ltb (length done) k)) [
      | inl more ↦
          let passed : leb f.sequence k ≡ true = ground arith in
          let (held, total, few, small) =
            acknowledged-Holds k (n + 1) (done ++ p ∷ []) ps fs
              (saturating_sub bytes (len f.payload)) (omega (arith, length-append done (p ∷ []))) h
              (omega (arith, ap len q)) in
          rw (more, passed) (held, total, omega arith, omega arith)
      | inr stop ↦
          let kept : leb f.sequence k ≡ false = ground arith in
          rw (stop, kept) ((rw (← m) (s, q, h)), b, omega arith, omega arith)
    ]

module _ (options : ConnectOptions) (info : ClientInfo) (credentials : ResumeCredentials)
    (shut_down : ShutdownReason → Result (Unit {0})) (now deadline : ℕ) (script : List Turn) where
  -- Whatever reconnecting comes to, if the loop goes on then nothing but the socket has changed.
  pub reconnect-Same :
      (l l' : Link)
      → reconnect_and_replay options info credentials shut_down now deadline script l ≡ running l'
      → SameLink l l'
  unfolding reconnect_and_replay
  reconnect-Same l l' e = ground arith

  pub send-Same :
      (m : Envelope) (l l' : Link)
      → send_or_reconnect options info credentials shut_down now deadline script m l ≡ running l'
      → SameLink l l'
  unfolding send_or_reconnect
  send-Same m l l' e = ground arith
