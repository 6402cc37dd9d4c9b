-- ===== src/Outbox.antt =====
-- What a replay buffer promises, of the client and of the server: an ordered log of payloads,
-- split into those that the peer has acknowledged and those that it has not. The n-th payload of
-- the log has sequence number n, from 1.
use acp_tunnel.Common.{
  ℕ, ◌+◌, ◌≤◌, max, String, len, ◌≡◌, refl, List, [], ◌∷◌, ◌++◌, append_assoc, ltb, if◌then◌else◌,
  length, length-append, arith, tests, ◌∙◌, Bool-cases, inl, inr,
}

pub record Outbox : Type 0 where
  pub settled : List String
  pub waiting : List String

abbrev pub log : Outbox → List String
log o = o.settled ++ o.waiting

abbrev pub enqueue : String → Outbox → Outbox
enqueue payload o = record o { waiting = o.waiting ++ payload ∷ [] }

-- The acknowledgement of every payload up to number `n`.
abbrev pub settle_from : ℕ → List String → List String → Outbox
settle_from n settled [] = record { settled = settled; waiting = [] }
settle_from n settled (p ∷ ps) =
    if ltb (length settled) n
    then settle_from n (settled ++ p ∷ []) ps
    else record { settled = settled; waiting = p ∷ ps }

unfoldable pub settle : ℕ → Outbox → Outbox
settle n o = settle_from n o.settled o.waiting

abbrev pub total_bytes : List String → ℕ
total_bytes [] = 0
total_bytes (p ∷ ps) = len p + total_bytes ps

pub total_bytes-append :
    (ps qs : List String) → total_bytes (ps ++ qs) ≡ total_bytes ps + total_bytes qs
total_bytes-append [] qs = omega arith
total_bytes-append (p ∷ ps) qs = omega (arith, total_bytes-append ps qs)

log-settle_from : (n : ℕ) (done ps : List String) → log (settle_from n done ps) ≡ done ++ ps
log-settle_from n done [] = refl
log-settle_from n done (p ∷ ps) = elim (Bool-cases (ltb (length done) n)) [
  | inl more ↦ rw more (log-settle_from n (done ++ p ∷ []) ps ∙ append_assoc done (p ∷ []) ps)
  | inr stop ↦ rw stop
]

-- An acknowledgement loses nothing from the log and adds nothing.
pub log-settle : (n : ℕ) (o : Outbox) → log (settle n o) ≡ log o
unfolding settle
log-settle n o = log-settle_from n o.settled o.waiting

length-settle_from :
    (n : ℕ) (done ps : List String)
    → n ≤ length done + length ps
    → length (settle_from n done ps).settled ≡ max (length done) n
length-settle_from n done [] h = omega arith
length-settle_from n done (p ∷ ps) h = elim (Bool-cases (ltb (length done) n)) [
  | inl more ↦ rw more (
      omega (
        tests,
        length-append done (p ∷ []),
        length-settle_from n (done ++ p ∷ []) ps (omega (arith, length-append done (p ∷ []))),
      ))
  | inr stop ↦ rw stop (ground arith)
]

pub length-settle :
    (n : ℕ) (o : Outbox)
    → n ≤ length (log o)
    → length (settle n o).settled ≡ max (length o.settled) n
unfolding settle
length-settle n o h =
    length-settle_from n o.settled o.waiting (omega (arith, length-append o.settled o.waiting))
