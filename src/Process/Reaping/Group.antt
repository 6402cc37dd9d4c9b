-- ===== src/Process/Reaping/Group.antt =====
-- The signals to a process group, and what is left of a group, in terms of the rules.
use acp_tunnel.Common.{
  ℕ, zero, suc, ◌+◌, ◌/◌, ◌≡◌, refl, inl, inr, Bool, true, false, ◌∷◌, leb, Bool-cases,
}
use acp_tunnel.Process.Reaping.{
  term, kill, Event, elapsed, slept, History, Os, Killpg-cases, Run, done, raw_pid, signal_group,
  process_group_exists, stop_or_sleep, poll, wait_for_process_group_exit, cleanup_remaining_group,
}
use acp_tunnel.Process.Reaping.Rules.{
  Stage, warned, overdue, stage, Safe, After-weaken, Meets, >>=-Meets, if-Meets, done-Meets,
}

-- `Keep` is a property of the past that more events do not change.
module _ (os : Os) (Keep : History → Type 0)
    (grow : (e : Event) (h : History) → Keep h → Keep (e ∷ h)) where
  abbrev pub Good : History → Type 0
  Good h = Safe h × Keep h

  abbrev pub Pressed : Stage → History → Type 0
  Pressed s h = Safe h × Keep h × (stage h ≡ s)

  pub signal_term-Meets : (pid : ℕ) → Meets (signal_group os pid term) Good (λ _. Pressed warned)
  unfolding signal_group
  signal_term-Meets pid = record {
    meets = λ h (s, k). elim (Bool-cases (raw_pid pid)) [
      | inl outside ↦ rw (outside, signal_group) s
      | inr inside ↦ elim (Killpg-cases (os.killpg term h)) [
        | inl e ↦ rw (inside, e, signal_group) (s, grow _ h k, refl)
        | inr (inl e) ↦ rw (inside, e, signal_group) (s, grow _ h k, refl)
        | inr (inr (inl e)) ↦ rw (inside, e, signal_group) s
        | inr (inr (inr (m, e))) ↦ rw (inside, e, signal_group) s
      ]
    ];
  }

  pub signal_kill-Meets : (pid : ℕ) → Meets (signal_group os pid kill) (Pressed overdue) (λ _. Good)
  unfolding signal_group
  signal_kill-Meets pid = record {
    meets = λ h (s, k, o). elim (Bool-cases (raw_pid pid)) [
      | inl outside ↦ rw (outside, signal_group) s
      | inr inside ↦ elim (Killpg-cases (os.killpg kill h)) [
        | inl e ↦ rw (inside, e, signal_group) ((o, s), grow _ h k)
        | inr (inl e) ↦ rw (inside, e, signal_group) ((o, s), grow _ h k)
        | inr (inr (inl e)) ↦ rw (inside, e, signal_group) s
        | inr (inr (inr (m, e))) ↦ rw (inside, e, signal_group) s
      ]
    ];
  }

  exists-Meets :
      (pid : ℕ) (st : Stage) → Meets (process_group_exists os pid) (Pressed st) (λ _. Pressed st)
  unfolding process_group_exists
  exists-Meets pid st = record {
    meets = λ h (s, k, o). elim (Bool-cases (raw_pid pid)) [
      | inl outside ↦ rw (outside, process_group_exists) s
      | inr inside ↦ elim (Killpg-cases (os.probe h)) [
        | inl e ↦ rw (inside, e, process_group_exists) (s, grow _ h k, o)
        | inr (inl e) ↦ rw (inside, e, process_group_exists) (s, grow _ h k, o)
        | inr (inr (inl e)) ↦ rw (inside, e, process_group_exists) (s, grow _ h k, o)
        | inr (inr (inr (m, e))) ↦ rw (inside, e, process_group_exists) s
      ]
    ];
  }

  -- The group is gone, or the time is up.
  abbrev Polled : Bool → History → Type 0
  Polled true h = Good h
  Polled false h = Pressed overdue h

  stop_or_sleep-Meets :
      (again : Run Bool) (deadline : ℕ)
      → Meets again (Pressed warned) Polled
      → Meets (stop_or_sleep os again deadline) (Pressed warned) Polled
  unfolding stop_or_sleep
  stop_or_sleep-Meets again deadline m = record {
    meets = λ h (s, k, o). elim (Bool-cases (leb deadline (os.now h))) [
      | inl late ↦ rw (late, stop_or_sleep) (s, grow elapsed h k, rw o refl)
      | inr early ↦ rw (early, stop_or_sleep) (m.meets (slept ∷ h) (s, grow slept h k, o))
    ];
  }

  poll-Meets : (fuel pid deadline : ℕ) → Meets (poll os fuel pid deadline) (Pressed warned) Polled
  unfolding poll
  poll-Meets zero pid deadline = record { meets = λ h (s, _, _). s }
  poll-Meets (suc fuel) pid deadline =
      >>=-Meets _ _ (Pressed warned) (λ _. Pressed warned) Polled (exists-Meets pid warned)
        λ there.
          if-Meets there _ _ (λ _. Pressed warned) Polled
            (stop_or_sleep-Meets (poll os fuel pid deadline) deadline
              (poll-Meets fuel pid deadline))
            (done-Meets true (Pressed warned) Polled (λ h (s, k, _). (s, k)))

  group_exit-Meets :
      (pid duration : ℕ)
      → Meets (wait_for_process_group_exit os pid duration) (Pressed warned) Polled
  unfolding wait_for_process_group_exit
  group_exit-Meets pid duration = record {
    meets = λ h p. (poll-Meets (duration / 25 + 2) pid (os.now h + duration)).meets h p;
  }

  -- Whatever is left of the group of a child that has ended is warned before it is killed.
  pub cleanup-Meets :
      (pid duration : ℕ) → Meets (cleanup_remaining_group os pid duration) Good (λ _. Good)
  unfolding cleanup_remaining_group
  cleanup-Meets pid duration =
      >>=-Meets _ _ Good (λ _. Good) (λ _. Good) there
        λ exists.
          if-Meets exists _ _ (λ _. Good) (λ _. Good)
            (>>=-Meets _ _ Good (λ _. Pressed warned) (λ _. Good) (signal_term-Meets pid)
              λ _.
                >>=-Meets _ _ (Pressed warned) Polled (λ _. Good) (group_exit-Meets pid duration)
                  λ gone.
                    if-Meets gone (done tt) _ Polled (λ _. Good)
                      (done-Meets tt Good (λ _. Good) (λ h g. g)) (signal_kill-Meets pid))
            (done-Meets tt Good (λ _. Good) (λ h g. g))
    where
      there : Meets (process_group_exists os pid) Good (λ _. Good)
      there = record {
        meets = λ h (s, k).
            After-weaken (λ _. Pressed (stage h)) (λ _. Good) (λ _ _ (s', k', _). (s', k'))
              (process_group_exists os pid h).0 (process_group_exists os pid h).1
              ((exists-Meets pid (stage h)).meets h (s, k, refl));
      }
