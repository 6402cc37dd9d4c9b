-- ===== src/Numbered.antt =====
-- The n-th payload of a log, counted from 1, and what the two ends of the tunnel know of it.
use acp_tunnel.Common.{
  ℕ, ◌+◌, ◌≤◌, String, ◌≡◌, refl, sym, ap, ◌∙◌, ◌⊎◌, inl, inr, List, [], ◌∷◌, ◌++◌, length,
  append_assoc, arith, subst,
}

-- Number `n` of the list, counted from `k`, is `p`.
abbrev pub At : ℕ → List String → ℕ → String → Type 0
At k [] n p = ⊥
At k (q ∷ qs) n p = ((n ≡ k) × (p ≡ q)) ⊎ At (k + 1) qs n p

abbrev pub Has : List String → ℕ → String → Type 0
Has log n p = At 1 log n p

At-append_left :
    (k : ℕ) (qs rs : List String) (n : ℕ) (p : String) → At k qs n p → At k (qs ++ rs) n p
At-append_left k [] rs n p h = absurd h
At-append_left k (q ∷ qs) rs n p (inl e) = inl e
At-append_left k (q ∷ qs) rs n p (inr h) = inr (At-append_left (k + 1) qs rs n p h)

pub At-append_right :
    (k j : ℕ) (qs rs : List String) (n : ℕ) (p : String)
    → j ≡ k + length qs
    → At j rs n p
    → At k (qs ++ rs) n p
At-append_right k j [] rs n p e h = subst (λ i. At i rs n p) (omega arith) h
At-append_right k j (q ∷ qs) rs n p e h = inr (At-append_right (k + 1) j qs rs n p (omega arith) h)

-- A log that grows keeps its numbering.
pub Has-grow :
    (log log' more : List String) (n : ℕ) (p : String)
    → log' ≡ log ++ more
    → Has log n p
    → Has log' n p
Has-grow log log' more n p e h = rw e (At-append_left 1 log more n p h)

At-le : (k : ℕ) (qs : List String) (n : ℕ) (p : String) → At k qs n p → k ≤ n
At-le k [] n p h = absurd h
At-le k (q ∷ qs) n p (inl e) = omega (arith, e.0)
At-le k (q ∷ qs) n p (inr h) = omega (arith, At-le (k + 1) qs n p h)

pub At-next :
    (k : ℕ) (done rest : List String) (n : ℕ) (p : String)
    → At k (done ++ rest) n p
    → n ≡ k + length done
    → (later : List String) × (rest ≡ p ∷ later)
At-next k [] [] n p h e = absurd h
At-next k [] (q ∷ qs) n p (inl (_, same)) e = (qs, ap (λ a. a ∷ qs) (sym same))
At-next k [] (q ∷ qs) n p (inr h) e = absurd (omega (arith, At-le (k + 1) qs n p h))
At-next k (d ∷ done) rest n p (inl (m, _)) e = absurd (omega arith)
At-next k (d ∷ done) rest n p (inr h) e = At-next (k + 1) done rest n p h (omega arith)

∷-injective : (a b : String) (xs ys : List String) → a ∷ xs ≡ b ∷ ys → (a ≡ b) × (xs ≡ ys)
∷-injective a b xs ys e = (cc, cc)

-- `done` is what the log begins with.
abbrev pub Begins : List String → List String → Type 0
Begins done log = (rest : List String) × (log ≡ done ++ rest)

-- The payload with the next number is the next one of the log.
pub Begins-next :
    (done log : List String) (n : ℕ) (p : String)
    → Begins done log
    → Has log n p
    → n ≡ length done + 1
    → Begins (done ++ p ∷ []) log
Begins-next done log n p (rest, e) h m =
    let (later, f) = At-next 1 done rest n p (subst (λ l. Has l n p) e h) (omega arith) in
    (later, e ∙ ap (λ r. done ++ r) f ∙ sym (append_assoc done (p ∷ []) later))

pub Begins-grow :
    (done log log' more : List String) → log' ≡ log ++ more → Begins done log → Begins done log'
Begins-grow done log log' more e (rest, f) =
    (rest ++ more, e ∙ ap (λ l. l ++ more) f ∙ append_assoc done rest more)

-- Of two beginnings of a log, the shorter is a beginning of the longer.
pub Begins-shorter :
    (done rest longer : List String)
    → length done ≤ length longer
    → Begins longer (done ++ rest)
    → Begins done longer
Begins-shorter [] rest longer h b = (longer, refl)
Begins-shorter (d ∷ done) rest [] h b = absurd (omega arith)
Begins-shorter (d ∷ done) rest (l ∷ longer) h (after, e) =
    let (same, later) = ∷-injective d l (done ++ rest) (longer ++ after) e in
    let (more, f) = Begins-shorter done rest longer (omega arith) (after, later) in
    (more, rw same (ap (λ t. l ∷ t) f))
