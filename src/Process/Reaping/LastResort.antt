-- ===== src/Process/Reaping/LastResort.antt =====
-- The agent is killed only as a last resort, and the status that is returned is one that the
-- operating system gave for the child.
use acp_tunnel.Common.{ap, ℕ, String, refl, inl, inr, Bool, true, false, Option, none, some}
use acp_tunnel.Process.{ExitStatus}
use acp_tunnel.Process.Reaping.{
  term, kill, History, Os, Waited-cases, Tried-cases, reap, Run, ◌>>◌, done, try_wait, wait_within,
  signal_group, cleanup_remaining_group, force_kill, terminate_and_reap, graceful_shutdown_and_reap,
}
use acp_tunnel.Process.Reaping.Rules.{
  warned, overdue, later, Safe, Reported, After, After-weaken, Meets, >>=-Meets, done-Meets, Reaped,
}
use acp_tunnel.Process.Reaping.Group.{
  Good, Pressed, signal_term-Meets, signal_kill-Meets, cleanup-Meets,
}

abbrev Always : History → Type 0
Always h = Unit

-- A child that has ended is reported; else something is left to do.
abbrev Left : (History → Type 0) → Option ExitStatus → History → Type 0
Left P (some status) h = Reaped status h
Left P none h = P h

-- What is done with a child that has ended, or that has not.
elim-Meets :
    {A : Type 0} (o : Option ExitStatus) (f : ExitStatus → Run A) (g : Run A) (P : History → Type 0)
    (Q : A → History → Type 0)
    → ((status : ExitStatus) → Meets (f status) (Reaped status) Q)
    → Meets g P Q
    → Meets (elim o [ some status ↦ f status | none ↦ g ]) (Left P o) Q
elim-Meets (some status) f g P Q k l = k status
elim-Meets none f g P Q k l = l

module _ (os : Os) where
  abbrev Late : History → Type 0
  Late = Pressed os Always (λ _ _ _. tt) overdue

  abbrev Warned : History → Type 0
  Warned = Pressed os Always (λ _ _ _. tt) warned

  wait-Warned-Meets : (message : String) → Meets (wait_within os message) Warned (Left Late)
  unfolding wait_within
  wait-Warned-Meets message = record {
    meets = λ h (s, _, o). elim (Waited-cases (os.wait h)) [
      | inl (status, e) ↦ rw (e, wait_within) (s, inl refl)
      | inr (inl e) ↦ rw (e, wait_within) (s, tt, ap later o)
      | inr (inr (m, e)) ↦ rw (e, wait_within) s
    ];
  }

  wait-Meets : (message : String) → Meets (wait_within os message) Safe (Left Safe)
  unfolding wait_within
  wait-Meets message = record {
    meets = λ h s. elim (Waited-cases (os.wait h)) [
      | inl (status, e) ↦ rw (e, wait_within) (s, inl refl)
      | inr (inl e) ↦ rw (e, wait_within) s
      | inr (inr (m, e)) ↦ rw (e, wait_within) s
    ];
  }

  try_wait-Meets : Meets (try_wait os) Safe (Left Safe)
  unfolding try_wait
  try_wait-Meets = record {
    meets = λ h s. elim (Tried-cases (os.try_wait h)) [
      | inl (status, e) ↦ rw (e, try_wait) (s, inl refl)
      | inr (inl e) ↦ rw (e, try_wait) s
      | inr (inr (m, e)) ↦ rw (e, try_wait) s
    ];
  }

  warn-Meets : (pid : ℕ) → Meets (signal_group os pid term) Safe (λ _. Warned)
  warn-Meets pid = record {
    meets = λ h s. (signal_term-Meets os Always (λ _ _ _. tt) pid).meets h (s, tt);
  }

  returned-Meets : (status : ExitStatus) → Meets (done status) (Reaped status) Reaped
  returned-Meets status = done-Meets status (Reaped status) Reaped (λ h r. r)

  cleaned-Meets :
      (pid duration : ℕ) (status : ExitStatus)
      → Meets (cleanup_remaining_group os pid duration >> done status) (Reaped status) Reaped
  cleaned-Meets pid duration status =
      >>=-Meets _ _ (Reaped status) (λ _. Reaped status) Reaped
        (cleanup-Meets os (Reported status) (λ e h r. inr r) pid duration)
        λ _. returned-Meets status

  force_kill-Meets : (pid : ℕ) → Meets (force_kill os pid) Late Reaped
  unfolding force_kill
  force_kill-Meets pid =
      >>=-Meets _ _ Late (λ _. Safe) Reaped killed
        λ _.
          >>=-Meets _ _ Safe (Left Safe) Reaped (wait-Meets _)
            λ o. elim-Meets o _ _ Safe Reaped returned-Meets (record { meets = λ h s. s })
    where
      killed : Meets (signal_group os pid kill) Late (λ _. Safe)
      killed = record {
        meets = λ h p.
            After-weaken (λ _. Good os Always (λ _ _ _. tt)) (λ _. Safe) (λ _ _ (s, _). s)
              (signal_group os pid kill h).0 (signal_group os pid kill h).1
              ((signal_kill-Meets os Always (λ _ _ _. tt) pid).meets h p);
      }

  terminate_and_reap-Meets :
      (pid duration : ℕ) → Meets (terminate_and_reap os pid duration) Safe Reaped
  unfolding terminate_and_reap
  terminate_and_reap-Meets pid duration =
      >>=-Meets _ _ Safe (Left Safe) Reaped try_wait-Meets λ already.
        elim-Meets already _ _ Safe Reaped returned-Meets (
          >>=-Meets _ _ Safe (λ _. Warned) Reaped (warn-Meets pid)
            λ _. >>=-Meets _ _ Warned (Left Late) Reaped (wait-Warned-Meets _) λ left.
              elim-Meets left _ _ Late Reaped (cleaned-Meets pid duration) (force_kill-Meets pid))

  graceful_shutdown-Meets :
      (pid duration : ℕ) → Meets (graceful_shutdown_and_reap os pid duration) Safe Reaped
  unfolding graceful_shutdown_and_reap
  graceful_shutdown-Meets pid duration =
      >>=-Meets _ _ Safe (Left Safe) Reaped try_wait-Meets λ already.
        elim-Meets already _ _ Safe Reaped (cleaned-Meets pid duration) (
          >>=-Meets _ _ Safe (Left Safe) Reaped (wait-Meets _) λ left.
            elim-Meets left _ _ Safe Reaped (cleaned-Meets pid duration) (
              >>=-Meets _ _ Safe (λ _. Warned) Reaped (warn-Meets pid)
                λ _.
                  >>=-Meets _ _ Warned (Left Late) Reaped (wait-Warned-Meets _)
                    λ gone. elim-Meets gone _ _ Late Reaped returned-Meets (force_kill-Meets pid)))

-- If every SIGKILL so far came after a SIGTERM and a wait in vain, the same holds after an agent is
-- reaped, whatever the operating system answers; and a status that is returned is one that it gave
-- for the child.
pub reap-After :
    (os : Os) (pid shutdown_timeout : ℕ) (gracefully : Bool) (h : History)
    → Safe h
    → After Reaped
        (reap os pid shutdown_timeout gracefully h).0
        (reap os pid shutdown_timeout gracefully h).1
unfolding reap
reap-After os pid timeout true h safe = (graceful_shutdown-Meets os pid timeout).meets h safe
reap-After os pid timeout false h safe = (terminate_and_reap-Meets os pid timeout).meets h safe
