-- ===== src/Process/Reaping/Ends.antt =====
-- The reaping of an agent comes to an end: the polls of its group are bounded by the time allowed.
use acp_tunnel.Common.{
  ℕ, zero, suc, ◌+◌, ◌*◌, ◌/◌, ◌≤◌, String, ◌≡◌, ◌≢◌, inl, inr, Bool, true, false, Option, none,
  some, ◌∷◌, leb, if◌then◌else◌, Bool-cases, arith,
}
use acp_tunnel.Process.{ExitStatus}
use acp_tunnel.Process.Reaping.{
  Signal, term, kill, Event, slept, History, Os, Ran-cases, Killpg-cases, reap, gives, fails, spins,
  Run, ◌>>=◌, ◌>>◌, done, raw_pid, try_wait, wait_within, signal_group, process_group_exists,
  stop_or_sleep, poll, wait_for_process_group_exit, cleanup_remaining_group, force_kill,
  terminate_and_reap, graceful_shutdown_and_reap,
}

-- Time does not go back, and a sleep takes 25 milliseconds at least.
pub record HasClock (os : Os) : Type 0 where
  pub forward : (e : Event) (h : History) → os.now h ≤ os.now (e ∷ h)
  pub sleeps : (h : History) → os.now h + 25 ≤ os.now (slept ∷ h)

pub record Ends {A : Type 0} (f : Run A) : Type 0 where
  pub ends : (h : History) → (f h).0 ≢ spins

>>=-Ends :
    {A B : Type 0} (first : Run A) (rest : A → Run B)
    → Ends first
    → ((a : A) → Ends (rest a))
    → Ends (first >>= rest)
unfolding ◌>>=◌
>>=-Ends first rest f g = record {
  ends = λ h. elim (Ran-cases (first h).0) [
    | inl (a, e) ↦ rw (e, ◌>>=◌) ((g a).ends (first h).1)
    | inr (inl (x, e)) ↦ rw (e, ◌>>=◌) (λ (q : fails x ≡ spins). cc)
    | inr (inr e) ↦ absurd (f.ends h e)
  ];
}

if-Ends : {A : Type 0} (b : Bool) (f g : Run A) → Ends f → Ends g → Ends (if b then f else g)
if-Ends true f g k l = k
if-Ends false f g k l = l

elim-Ends :
    {A : Type 0} (o : Option ExitStatus) (f : ExitStatus → Run A) (g : Run A)
    → ((status : ExitStatus) → Ends (f status))
    → Ends g
    → Ends (elim o [ some status ↦ f status | none ↦ g ])
elim-Ends (some status) f g k l = k status
elim-Ends none f g k l = l

done-Ends : {A : Type 0} (a : A) → Ends (done a)
unfolding done
done-Ends a = record { ends = λ h e. cc }

module _ (os : Os) where
  try_wait-Ends : Ends (try_wait os)
  unfolding try_wait
  try_wait-Ends = record { ends = λ h e. ground arith }

  wait_within-Ends : (message : String) → Ends (wait_within os message)
  unfolding wait_within
  wait_within-Ends message = record { ends = λ h e. ground arith }

  signal_group-Ends : (pid : ℕ) (signal : Signal) → Ends (signal_group os pid signal)
  unfolding signal_group
  signal_group-Ends pid signal = record { ends = λ h e. ground arith }

  exists-Ends : (pid : ℕ) → Ends (process_group_exists os pid)
  unfolding process_group_exists
  exists-Ends pid = record { ends = λ h e. ground arith }

  module _ (clock : HasClock os) where
    exists-later : (pid : ℕ) (h : History) → os.now h ≤ os.now (process_group_exists os pid h).1
    unfolding process_group_exists
    exists-later pid h = elim (Bool-cases (raw_pid pid)) [
      | inl outside ↦ rw (outside, process_group_exists) (omega arith)
      | inr inside ↦ elim (Killpg-cases (os.probe h)) [
        | inl e ↦ rw (inside, e, process_group_exists) (clock.forward _ h)
        | inr (inl e) ↦ rw (inside, e, process_group_exists) (clock.forward _ h)
        | inr (inr (inl e)) ↦ rw (inside, e, process_group_exists) (clock.forward _ h)
        | inr (inr (inr (m, e))) ↦ rw (inside, e, process_group_exists) (clock.forward _ h)
      ]
    ]

    round-ends :
        (pid deadline : ℕ) (again : Run Bool) (h : History)
        → ((h1 : History)
            → os.now h ≤ os.now h1
            → leb deadline (os.now h1) ≡ false
            → (again (slept ∷ h1)).0 ≢ spins)
        → ((process_group_exists os pid >>= λ there.
              if there then stop_or_sleep os again deadline else done true)
            h).0
          ≢ spins
    unfolding ◌>>=◌ stop_or_sleep done
    round-ends pid deadline again h sleeping =
        let h1 = (process_group_exists os pid h).1 in
        elim (Ran-cases (process_group_exists os pid h).0) [
          | inr (inl (x, e)) ↦ rw (e, ◌>>=◌) (λ (q : fails x ≡ spins). cc)
          | inr (inr e) ↦ absurd ((exists-Ends pid).ends h e)
          | inl (false, e) ↦ rw (e, ◌>>=◌) (λ (q : gives true ≡ spins). cc)
          | inl (true, e) ↦ elim (Bool-cases (leb deadline (os.now h1))) [
            | inl late ↦ rw (e, late, ◌>>=◌, stop_or_sleep) (λ (q : gives false ≡ spins). cc)
            | inr early ↦
                rw (e, early, ◌>>=◌, stop_or_sleep) (sleeping h1 (exists-later pid h) early)
          ]
        ]

    -- The rounds left are enough for the time left.
    poll-ends :
        (fuel pid deadline : ℕ) (h : History)
        → deadline ≤ os.now h + 25 * fuel
        → (poll os (suc fuel) pid deadline h).0 ≢ spins
    unfolding poll
    poll-ends zero pid deadline h enough =
        round-ends pid deadline (poll os zero pid deadline) h
          λ h1 later early. ground (arith, enough, later, early)
    poll-ends (suc f) pid deadline h enough =
        round-ends pid deadline (poll os (suc f) pid deadline) h λ h1 later early.
          let more : os.now h1 + 25 ≤ os.now (slept ∷ h1) = clock.sleeps h1 in
          poll-ends f pid deadline (slept ∷ h1) (omega (arith, enough, later, more))

    waiting-Ends : (pid duration : ℕ) → Ends (wait_for_process_group_exit os pid duration)
    unfolding wait_for_process_group_exit
    waiting-Ends pid duration =
        let rounds : duration / 25 + 2 ≡ suc (duration / 25 + 1) = omega arith in
        record {
          ends = λ h.
              rw (rounds, wait_for_process_group_exit)
                (poll-ends (duration / 25 + 1) pid (os.now h + duration) h (omega arith));
        }

    cleanup-Ends : (pid timeout : ℕ) → Ends (cleanup_remaining_group os pid timeout)
    unfolding cleanup_remaining_group
    cleanup-Ends pid timeout = >>=-Ends (process_group_exists os pid) _ (exists-Ends pid) λ there.
        if-Ends there _ _
          (>>=-Ends (signal_group os pid term) _ (signal_group-Ends pid term) λ _.
            >>=-Ends (wait_for_process_group_exit os pid timeout) _ (waiting-Ends pid timeout)
              λ gone. if-Ends gone _ _ (done-Ends tt) (signal_group-Ends pid kill))
          (done-Ends tt)

    force_kill-Ends : (pid : ℕ) → Ends (force_kill os pid)
    unfolding force_kill
    force_kill-Ends pid = >>=-Ends (signal_group os pid kill) _ (signal_group-Ends pid kill) λ _.
        >>=-Ends (wait_within os "cannot reap force-killed agent: ") _ (wait_within-Ends _)
          λ status. elim-Ends status _ _ done-Ends (record { ends = λ h e. cc })

    settle-Ends :
        (pid timeout : ℕ) (status : ExitStatus)
        → Ends (cleanup_remaining_group os pid timeout >> done status)
    settle-Ends pid timeout status =
        >>=-Ends (cleanup_remaining_group os pid timeout) _ (cleanup-Ends pid timeout)
          λ _. done-Ends status

    terminate-Ends : (pid timeout : ℕ) → Ends (terminate_and_reap os pid timeout)
    unfolding terminate_and_reap
    terminate-Ends pid timeout = >>=-Ends (try_wait os) _ try_wait-Ends λ already.
        elim-Ends already _ _ done-Ends (
          >>=-Ends (signal_group os pid term) _ (signal_group-Ends pid term) λ _.
            >>=-Ends (wait_within os "cannot reap agent after termination: ") _ (wait_within-Ends _)
              λ ended. elim-Ends ended _ _ (settle-Ends pid timeout) (force_kill-Ends pid))

    graceful-Ends : (pid timeout : ℕ) → Ends (graceful_shutdown_and_reap os pid timeout)
    unfolding graceful_shutdown_and_reap
    graceful-Ends pid timeout = >>=-Ends (try_wait os) _ try_wait-Ends λ already.
        elim-Ends already _ _ (settle-Ends pid timeout) (
          >>=-Ends (wait_within os "cannot reap agent after stdin closure: ") _ (wait_within-Ends _)
            λ left. elim-Ends left _ _ (settle-Ends pid timeout) (
              >>=-Ends (signal_group os pid term) _ (signal_group-Ends pid term) λ _.
                >>=-Ends (wait_within os "cannot reap agent after termination: ") _
                  (wait_within-Ends _)
                  λ ended. elim-Ends ended _ _ done-Ends (force_kill-Ends pid)))

-- Where time does not go back and a sleep takes 25 milliseconds at least, the reaping of an agent
-- does not run out of rounds.
pub reap-ends :
    (os : Os)
    → HasClock os
    → (pid shutdown_timeout : ℕ) (gracefully : Bool) (h : History)
    → (reap os pid shutdown_timeout gracefully h).0 ≢ spins
unfolding reap
reap-ends os clock pid timeout true h = (graceful-Ends os clock pid timeout).ends h
reap-ends os clock pid timeout false h = (terminate-Ends os clock pid timeout).ends h
