-- ===== src/Process/Reaping.antt =====
-- src/process.rs: how an agent is ended: asked, warned by SIGTERM and killed by SIGKILL, on Unix.
--
-- The operating system is a record of functions of what has happened so far, the newest event
-- first. Times are milliseconds. The loop that polls the process group takes fuel.
pub mod Rules
pub mod Group
pub mod LastResort
pub mod Ends
use acp_tunnel.Common.{
  ℕ, zero, suc, ◌+◌, ◌/◌, String, ◌≡◌, refl, ◌⊎◌, inl, inr, Bool, true, false, Option, none, some,
  List, [], ◌∷◌, ltb, leb, if◌then◌else◌, format,
}
use acp_tunnel.Fault.{Error}
use acp_tunnel.Files.{Answer, answered, failed}
use acp_tunnel.Process.{ExitStatus}

pub data Signal : Type 0 where
  term kill : Signal

pub data Event : Type 0 where
  -- The child was asked about, or waited for, and had ended with this status.
  ended : ExitStatus → Event
  found_running : Event
  -- A wait, for the child or for its group, came to its end in vain.
  elapsed : Event
  -- A signal went to the group, whether or not it had a member left.
  signalled : Signal → Event
  group_seen : Bool → Event
  slept : Event
  refused : String → Event

abbrev pub History : Type 0
History = List Event

-- What waiting for a limited time comes to.
pub data Waited : Type 0 where
  exited : ExitStatus → Waited
  ran_out : Waited
  wait_failed : String → Waited

-- What `killpg` answers.
pub data Killpg : Type 0 where
  delivered no_group not_permitted : Killpg
  other : String → Killpg

pub record Os : Type 0 where
  pub try_wait : History → Answer (Option ExitStatus)
  pub wait : History → Waited
  pub killpg : Signal → History → Killpg
  pub probe : History → Killpg
  pub now : History → ℕ

-- What a computation comes to, if its fuel does not run out.
pub data Ran (A : Type 0) : Type 0 where
  gives : A → Ran A
  fails : Error → Ran A
  spins : Ran A

pub Ran-cases :
    {A : Type 0} (r : Ran A)
    → ((a : A) × (r ≡ gives a)) ⊎ ((e : Error) × (r ≡ fails e)) ⊎ (r ≡ spins)
Ran-cases (gives a) = inl (a, refl)
Ran-cases (fails e) = inr (inl (e, refl))
Ran-cases spins = inr (inr refl)

pub Killpg-cases :
    (k : Killpg)
    → (k ≡ delivered) ⊎ (k ≡ no_group) ⊎ (k ≡ not_permitted) ⊎ ((e : String) × (k ≡ other e))
Killpg-cases delivered = inl refl
Killpg-cases no_group = inr (inl refl)
Killpg-cases not_permitted = inr (inr (inl refl))
Killpg-cases (other e) = inr (inr (inr (e, refl)))

pub Waited-cases :
    (w : Waited)
    → ((s : ExitStatus) × (w ≡ exited s)) ⊎ (w ≡ ran_out) ⊎ ((e : String) × (w ≡ wait_failed e))
Waited-cases (exited s) = inl (s, refl)
Waited-cases ran_out = inr (inl refl)
Waited-cases (wait_failed e) = inr (inr (e, refl))

pub Tried-cases :
    (a : Answer (Option ExitStatus))
    → ((s : ExitStatus) × (a ≡ answered (some s)))
      ⊎ (a ≡ answered none)
      ⊎ ((e : String) × (a ≡ failed e))
Tried-cases (answered (some s)) = inl (s, refl)
Tried-cases (answered none) = inr (inl refl)
Tried-cases (failed e) = inr (inr (e, refl))

abbrev pub Run : Type 0 → Type 0
Run A = History → Ran A × History

infixl 5 ◌>>=◌
unfoldable pub ◌>>=◌ : {A B : Type 0} → Run A → (A → Run B) → Run B
◌>>=◌ first rest h = elim (first h).0 [
  | gives a ↦ rest a (first h).1
  | fails e ↦ (fails e, (first h).1)
  | spins ↦ (spins, (first h).1)
]

infixl 5 ◌>>◌
abbrev pub ◌>>◌ : {B : Type 0} → Run (Unit {0}) → Run B → Run B
first >> rest = first >>= λ _. rest

unfoldable pub done : {A : Type 0} → A → Run A
done a h = (gives a, h)

abbrev pub fail : {A : Type 0} → String → Run A
fail message h = (fails (Error.process message), h)

-- `i32::try_from` of a process number.
abbrev pub raw_pid : ℕ → Bool
raw_pid pid = ltb 2147483647 pid

abbrev pub outside_range : String
outside_range = "agent process ID is outside the platform range"

module _ (os : Os) where
  unfoldable pub try_wait : Run (Option ExitStatus)
  try_wait h = elim (os.try_wait h) [
    | answered (some status) ↦ (gives (some status), ended status ∷ h)
    | answered none ↦ (gives none, found_running ∷ h)
    | failed e ↦
        (fails (Error.process (format ("cannot inspect agent status: " ∷ e ∷ []))), refused e ∷ h)
  ]

  -- `timeout(duration, child.wait())`, under the message of its error; nothing where the time is up.
  unfoldable pub wait_within : String → Run (Option ExitStatus)
  wait_within message h = elim (os.wait h) [
    | exited status ↦ (gives (some status), ended status ∷ h)
    | ran_out ↦ (gives none, elapsed ∷ h)
    | wait_failed e ↦ (fails (Error.process (format (message ∷ e ∷ []))), refused e ∷ h)
  ]

  abbrev pub cannot_signal : String → Error
  cannot_signal e = Error.process (format ("cannot signal agent process group: " ∷ e ∷ []))

  unfoldable pub signal_group : ℕ → Signal → Run (Unit {0})
  signal_group pid signal h =
      if raw_pid pid then (fails (Error.process outside_range), h) else elim (os.killpg signal h) [
        | delivered ↦ (gives tt, signalled signal ∷ h)
        | no_group ↦ (gives tt, signalled signal ∷ h)
        | not_permitted ↦ (fails (cannot_signal "EPERM"), refused "EPERM" ∷ h)
        | other e ↦ (fails (cannot_signal e), refused e ∷ h)
      ]

  unfoldable pub process_group_exists : ℕ → Run Bool
  process_group_exists pid h =
      if raw_pid pid then (fails (Error.process outside_range), h) else elim (os.probe h) [
        | delivered ↦ (gives true, group_seen true ∷ h)
        | not_permitted ↦ (gives true, group_seen true ∷ h)
        | no_group ↦ (gives false, group_seen false ∷ h)
        | other e ↦ (
          fails (Error.process (format ("cannot inspect agent process group: " ∷ e ∷ []))),
          refused e ∷ h,
        )
      ]

  abbrev pub spin : Run Bool
  spin h = (spins, h)

  -- The group is there: the loop stops at the deadline, and else sleeps for 25 milliseconds.
  unfoldable pub stop_or_sleep : Run Bool → ℕ → Run Bool
  stop_or_sleep again deadline h =
      if leb deadline (os.now h) then (gives false, elapsed ∷ h) else again (slept ∷ h)

  unfoldable pub poll : ℕ → ℕ → ℕ → Run Bool
  poll zero pid deadline = spin
  poll (suc fuel) pid deadline =
      let again = poll fuel pid deadline in
      process_group_exists pid >>= λ there.
      if there then stop_or_sleep again deadline else done true

  unfoldable pub wait_for_process_group_exit : ℕ → ℕ → Run Bool
  wait_for_process_group_exit pid duration h = poll (duration / 25 + 2) pid (os.now h + duration) h

  unfoldable pub cleanup_remaining_group : ℕ → ℕ → Run (Unit {0})
  cleanup_remaining_group pid shutdown_timeout = process_group_exists pid >>= λ there.
      if there
      then (signal_group pid term
          >> (wait_for_process_group_exit pid shutdown_timeout >>= λ gone.
              if gone then done tt else signal_group pid kill))
      else done tt

  -- The last stage: SIGKILL, and a wait whose end is a timeout error.
  unfoldable pub force_kill : ℕ → Run ExitStatus
  force_kill pid =
      signal_group pid kill
      >> (wait_within "cannot reap force-killed agent: " >>= λ status. elim status [
        | some status ↦ done status
        | none ↦ λ h. (fails (Error.timeout "force-killing remote agent"), h)
      ])

  unfoldable pub terminate_and_reap : ℕ → ℕ → Run ExitStatus
  terminate_and_reap pid shutdown_timeout = try_wait >>= λ already. elim already [
    | some status ↦ done status
    | none ↦
        signal_group pid term
        >> (wait_within "cannot reap agent after termination: " >>= λ ended. elim ended [
          | some status ↦ cleanup_remaining_group pid shutdown_timeout >> done status
          | none ↦ force_kill pid
        ])
  ]

  unfoldable pub graceful_shutdown_and_reap : ℕ → ℕ → Run ExitStatus
  graceful_shutdown_and_reap pid shutdown_timeout = try_wait >>= λ already. elim already [
    | some status ↦ cleanup_remaining_group pid shutdown_timeout >> done status
    | none ↦ wait_within "cannot reap agent after stdin closure: " >>= λ left. elim left [
      | some status ↦ cleanup_remaining_group pid shutdown_timeout >> done status
      | none ↦
          signal_group pid term
          >> (wait_within "cannot reap agent after termination: " >>= λ ended. elim ended [
            | some status ↦ done status
            | none ↦ force_kill pid
          ])
    ]
  ]

  -- How the session reaps its agent.
  unfoldable pub reap : ℕ → ℕ → Bool → Run ExitStatus
  unfolding graceful_shutdown_and_reap terminate_and_reap
  reap pid shutdown_timeout gracefully =
      if gracefully
      then graceful_shutdown_and_reap pid shutdown_timeout
      else terminate_and_reap pid shutdown_timeout
