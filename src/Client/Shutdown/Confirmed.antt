-- ===== src/Client/Shutdown/Confirmed.antt =====
-- A shutdown succeeds only where the server has confirmed it, and it ends by its deadline.
use acp_tunnel.Common.{
  ℕ, ◌≤◌, ◌≡◌, ◌≢◌, ◌⊎◌, refl, inl, inr, Bool, true, false, Option, none, some, List, [], ◌∷◌, leb,
  All, arith, Bool-cases, Option-cases,
}
use acp_tunnel.Fault.{Result, ok}
use acp_tunnel.Protocol.{ClientInfo, shutdown_complete}
use acp_tunnel.Client.Socket.{ConnectOptions, ResumeCredentials, text}
use acp_tunnel.Client.Shutdown.{
  Hearing, heard, stream_ended, overdue, Listen, Request, requested, failed, stalled, Round,
  Listened, finished, lost, judge_message, judge_hearing, listen, Current, at_hand, ended, unopened,
  current, graceful_shutdown,
}

-- The server's confirmation is among what was listened to.
abbrev pub Confirms : List Listen → Type 0
Confirms [] = ⊥
Confirms (l ∷ ls) =
    ((code : Option ℕ) × (signal : Option ℕ) × (l.hearing
        ≡ heard (text (ok (shutdown_complete code signal)))))
    ⊎ Confirms ls

-- In one of the rounds the request was sent and then confirmed.
abbrev pub Confirmed : List Round → Type 0
Confirmed [] = ⊥
Confirmed (r ∷ rs) = ((r.request ≡ requested) × Confirms r.listens) ⊎ Confirmed rs

abbrev IsConfirmation : Hearing → Type 0
IsConfirmation h =
    (code : Option ℕ) × (signal : Option ℕ) × (h
      ≡ heard (text (ok (shutdown_complete code signal))))

judge_hearing-ok :
    (broken : Bool) (h : Hearing)
    → judge_hearing broken h ≡ some (finished (ok tt))
    → IsConfirmation h
unfolding judge_hearing judge_message
judge_hearing-ok broken (heard (text (ok (shutdown_complete code signal)))) e = (code, signal, refl)
judge_hearing-ok broken (heard m) e = absurd (ground arith)
judge_hearing-ok broken stream_ended e = cc
judge_hearing-ok broken overdue e = cc

listen-Confirms :
    (deadline : ℕ) (ls : List Listen) → listen deadline ls ≡ some (finished (ok tt)) → Confirms ls
unfolding listen
listen-Confirms deadline [] e = cc
listen-Confirms deadline (l ∷ ls) e = elim (Bool-cases (leb deadline l.starts)) [
  | inl late ↦ absurd (ground arith)
  | inr early ↦ elim (Option-cases (judge_hearing l.pong_fails l.hearing)) [
    | inl more ↦ inr (listen-Confirms deadline ls (rw (early, more, listen) at e))
    | inr (outcome, judged) ↦ inl (judge_hearing-ok l.pong_fails l.hearing (ground arith))
  ]
]

abbrev pub AnyLate : ℕ → List Round → Type 0
AnyLate deadline [] = ⊥
AnyLate deadline (r ∷ rs) = (deadline ≤ r.starts) ⊎ AnyLate deadline rs

abbrev pub LateListen : ℕ → List Listen → Type 0
LateListen deadline [] = ⊥
LateListen deadline (l ∷ ls) = (deadline ≤ l.starts) ⊎ LateListen deadline ls

listen-ends : (deadline : ℕ) (ls : List Listen) → LateListen deadline ls → listen deadline ls ≢ none
unfolding listen
listen-ends deadline [] late = absurd late
listen-ends deadline (l ∷ ls) (inl now) = λ e. absurd (ground arith)
listen-ends deadline (l ∷ ls) (inr later) =
    λ e. let rest = listen-ends deadline ls later in ground arith

module _ (options : ConnectOptions) (info : ClientInfo) (credentials : ResumeCredentials) where
  current-ok :
      (has_socket : Bool) (deadline : ℕ) (r : Round) (result : Result (Unit {0}))
      → current options info credentials has_socket deadline r ≡ ended result
      → result ≢ ok tt
  unfolding current
  current-ok true deadline r result e = cc
  current-ok false deadline r result e = λ q. absurd (ground arith)

  -- A graceful shutdown succeeds only if in one of its rounds the request was sent and the server's
  -- confirmation was then among the messages of that round.
  pub graceful_shutdown-Confirmed :
      (deadline : ℕ) (has_socket : Bool) (rs : List Round)
      → graceful_shutdown options info credentials deadline has_socket rs ≡ some (ok tt)
      → Confirmed rs
  unfolding graceful_shutdown
  graceful_shutdown-Confirmed deadline has_socket [] e = cc
  graceful_shutdown-Confirmed deadline has_socket (r ∷ rs) e =
      elim (Bool-cases (leb deadline r.starts)) [
        | inl late ↦ absurd (ground arith)
        | inr early ↦
            go (λ later. graceful_shutdown-Confirmed deadline false rs later)
              (current options info credentials has_socket deadline r) refl r.request refl
              (listen deadline r.listens) refl early
      ]
    where
      go :
          (graceful_shutdown options info credentials deadline false rs ≡ some (ok tt)
            → Confirmed rs)
          → (c : Current options info credentials)
          → current options info credentials has_socket deadline r ≡ c
          → (q : Request) → r.request ≡ q
          → (h : Option Listened) → listen deadline r.listens ≡ h
          → leb deadline r.starts ≡ false
          → Confirmed (r ∷ rs)
      go ih (ended result) c q rq h l early =
          absurd (current-ok has_socket deadline r result c (ground arith))
      go ih unopened c q rq h l early = inr (ih (rw (early, c, graceful_shutdown) at e))
      go ih at_hand c failed rq h l early = inr (ih (rw (early, c, rq, graceful_shutdown) at e))
      go ih at_hand c stalled rq h l early = absurd (ground arith)
      go ih at_hand c requested rq none l early = absurd (ground arith)
      go ih at_hand c requested rq (some lost) l early =
          inr (ih (rw (early, c, rq, l, graceful_shutdown) at e))
      go ih at_hand c requested rq (some (finished result)) l early =
          inl (rq, listen-Confirms deadline r.listens (ground arith))

  -- A graceful shutdown comes to an end if some round starts at its deadline or later, and the
  -- waits of every round reach the deadline.
  pub graceful_shutdown-ends :
      (deadline : ℕ) (has_socket : Bool) (rs : List Round)
      → All (λ r. LateListen deadline r.listens) rs
      → AnyLate deadline rs
      → graceful_shutdown options info credentials deadline has_socket rs ≢ none
  unfolding graceful_shutdown
  graceful_shutdown-ends deadline has_socket [] reach late = absurd late
  graceful_shutdown-ends deadline has_socket (r ∷ rs) reach late = λ e.
      elim (Bool-cases (leb deadline r.starts)) [
        | inl now ↦ absurd (ground arith)
        | inr early ↦
            go (graceful_shutdown-ends deadline false rs reach.1 (later late early))
              (current options info credentials has_socket deadline r) refl r.request refl
              (listen deadline r.listens) refl early e
      ]
    where
      later : AnyLate deadline (r ∷ rs) → leb deadline r.starts ≡ false → AnyLate deadline rs
      later (inl now) early = absurd (ground arith)
      later (inr rest) early = rest

      go :
          (graceful_shutdown options info credentials deadline false rs ≢ none)
          → (c : Current options info credentials)
          → current options info credentials has_socket deadline r ≡ c
          → (q : Request) → r.request ≡ q
          → (h : Option Listened) → listen deadline r.listens ≡ h
          → leb deadline r.starts ≡ false
          → graceful_shutdown options info credentials deadline has_socket (r ∷ rs) ≡ none
          → ⊥
      go ih (ended result) c q rq h l early e = absurd (ground arith)
      go ih unopened c q rq h l early e = ih (rw (early, c, graceful_shutdown) at e)
      go ih at_hand c failed rq h l early e = ih (rw (early, c, rq, graceful_shutdown) at e)
      go ih at_hand c stalled rq h l early e = absurd (ground arith)
      go ih at_hand c requested rq none l early e = listen-ends deadline r.listens reach.0 l
      go ih at_hand c requested rq (some lost) l early e =
          ih (rw (early, c, rq, l, graceful_shutdown) at e)
      go ih at_hand c requested rq (some (finished result)) l early e = absurd (ground arith)
