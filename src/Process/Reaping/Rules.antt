-- ===== src/Process/Reaping/Rules.antt =====
-- What holds after a computation that may fail, and the rules that go with its parts.
use acp_tunnel.Common.{subst, ◌≡◌, inl, inr, ◌⊎◌, Bool, true, false, [], ◌∷◌, if◌then◌else◌}
use acp_tunnel.Process.{ExitStatus}
use acp_tunnel.Process.Reaping.{
  term, kill, ended, elapsed, signalled, History, Ran, Ran-cases, gives, fails, spins, Run, ◌>>=◌,
  done,
}

-- How far an agent has been pressed: not at all, by SIGTERM, or by SIGTERM and a wait in vain.
pub data Stage : Type 0 where
  fresh warned overdue : Stage

abbrev pub later : Stage → Stage
later fresh = fresh
later _ = overdue

abbrev pub stage : History → Stage
stage [] = fresh
stage (signalled term ∷ h) = warned
stage (elapsed ∷ h) = later (stage h)
stage (_ ∷ h) = stage h

-- Every SIGKILL came after a SIGTERM and a wait in vain.
abbrev pub Safe : History → Type 0
Safe [] = Unit
Safe (signalled kill ∷ h) = (stage h ≡ overdue) × Safe h
Safe (_ ∷ h) = Safe h

-- The child had ended with this status.
abbrev pub Reported : ExitStatus → History → Type 0
Reported status [] = ⊥
Reported status (e ∷ h) = (e ≡ ended status) ⊎ Reported status h

-- What holds after a computation: `Q` of its value, and else safety.
abbrev pub After : {A : Type 0} → (A → History → Type 0) → Ran A → History → Type 0
After Q (gives a) h = Q a h
After Q (fails e) h = Safe h
After Q spins h = Safe h

pub After-weaken :
    {A : Type 0} (Q R : A → History → Type 0)
    → ((a : A) (h : History) → Q a h → R a h)
    → (r : Ran A) (h : History) → After Q r h
    → After R r h
After-weaken Q R w (gives a) h q = w a h q
After-weaken Q R w (fails e) h q = q
After-weaken Q R w spins h q = q

pub record Meets {A : Type 0} (f : Run A) (P : History → Type 0) (Q : A → History → Type 0)
    : Type 0 where
  pub meets : (h : History) → P h → After Q (f h).0 (f h).1

pub >>=-Meets :
    {A B : Type 0} (first : Run A) (rest : A → Run B) (P : History → Type 0)
    (M : A → History → Type 0) (Q : B → History → Type 0)
    → Meets first P M
    → ((a : A) → Meets (rest a) (M a) Q)
    → Meets (first >>= rest) P Q
unfolding ◌>>=◌
>>=-Meets first rest P M Q f g = record {
  meets = λ h p.
      let m = f.meets h p in
      elim (Ran-cases (first h).0) [
        | inl (a, e) ↦
            rw (e, ◌>>=◌) ((g a).meets (first h).1 (subst (λ r. After M r (first h).1) e m))
        | inr (inl (x, e)) ↦ rw (e, ◌>>=◌) (subst (λ r. After M r (first h).1) e m)
        | inr (inr e) ↦ rw (e, ◌>>=◌) (subst (λ r. After M r (first h).1) e m)
      ];
}

pub if-Meets :
    {A : Type 0} (b : Bool) (f g : Run A) (P : Bool → History → Type 0) (Q : A → History → Type 0)
    → Meets f (P true) Q
    → Meets g (P false) Q
    → Meets (if b then f else g) (P b) Q
if-Meets true f g P Q k l = k
if-Meets false f g P Q k l = l

pub done-Meets :
    {A : Type 0} (a : A) (P : History → Type 0) (Q : A → History → Type 0)
    → ((h : History) → P h → Q a h)
    → Meets (done a) P Q
unfolding done
done-Meets a P Q q = record { meets = q }

-- The status is that of the child, and what happened is safe.
abbrev pub Reaped : ExitStatus → History → Type 0
Reaped status h = Safe h × Reported status h
