-- ===== src/Server/Readers.antt =====
-- src/server.rs: `spawn_agent_stdout` and `spawn_stderr`, the tasks that read what an agent prints.
--
-- A line is what the codec makes of the pipe: its text, or none where it cannot be read. Whether the
-- session still takes the n-th event, or the channel of diagnostics has room for the n-th line, is an
-- argument.
use acp_tunnel.Common.{
  ℕ, suc, ◌+◌, ◌<◌, ◌^◌, String, len, ◌≡◌, inl, inr, Bool, true, false, Option, none, some, List,
  [], ◌∷◌, length, arith, if◌then◌else◌, Bool-cases,
}
use acp_tunnel.Server.Session.{fetch_add}
use acp_tunnel.Server.Session.Events.{AgentEvent, line, stdout_error, stdout_closed}

pub record Outbound : Type 0 where
  pub outbound_frames : ℕ
  pub outbound_bytes : ℕ

abbrev pub count : String → Outbound → Outbound
count payload counters = record {
  outbound_frames = fetch_add counters.outbound_frames 1;
  outbound_bytes = fetch_add counters.outbound_bytes (len payload);
}

module _ (heard : ℕ → Bool) where
  -- The last event, if the session takes it.
  abbrev pub last : ℕ → AgentEvent → List AgentEvent
  last n event = if heard n then event ∷ [] else []

  -- The events that are taken from the n-th on, and the counters.
  unfoldable pub spawn_agent_stdout :
      ℕ → Outbound → List (Option String) → List AgentEvent × Outbound
  spawn_agent_stdout n counters [] = (last n stdout_closed, counters)
  spawn_agent_stdout n counters (none ∷ lines) = (last n stdout_error, counters)
  spawn_agent_stdout n counters (some payload ∷ lines) =
      let rest = spawn_agent_stdout (suc n) (count payload counters) lines in
      if heard n then (line payload ∷ rest.0, rest.1) else ([], count payload counters)

fetch_add-exact : (a : ℕ) → a + 1 < 2 ^ 64 → fetch_add a 1 ≡ a + 1
fetch_add-exact a small = omega (arith, small)

module _ (room : ℕ → Bool) where
  -- The lines that go to the diagnostics, and the number of those that were dropped.
  unfoldable pub spawn_stderr : ℕ → ℕ → List (Option String) → List String × ℕ
  spawn_stderr n dropped [] = ([], dropped)
  spawn_stderr n dropped (none ∷ lines) = spawn_stderr n (fetch_add dropped 1) lines
  spawn_stderr n dropped (some payload ∷ lines) =
      let kept = spawn_stderr (suc n) dropped lines in
      let lost = spawn_stderr (suc n) (fetch_add dropped 1) lines in
      if room n then (payload ∷ kept.0, kept.1) else lost

  -- Where the lines from the n-th readable one on go: those for which there is room are forwarded as
  -- they are, in order; those for which there is none, and the unreadable, are lost.
  pub data Sorted : ℕ → List (Option String) → List String → ℕ → Type 0 where
    done : {n : ℕ} → Sorted n [] [] 0
    forwarded :
        {n lost : ℕ} (payload : String) {lines : List (Option String)} {out : List String}
        → room n ≡ true
        → Sorted (suc n) lines out lost
        → Sorted n (some payload ∷ lines) (payload ∷ out) lost
    crowded_out :
        {n lost : ℕ} (payload : String) {lines : List (Option String)} {out : List String}
        → room n ≡ false
        → Sorted (suc n) lines out lost
        → Sorted n (some payload ∷ lines) out (suc lost)
    unreadable :
        {n lost : ℕ} {lines : List (Option String)} {out : List String}
        → Sorted n lines out lost
        → Sorted n (none ∷ lines) out (suc lost)

  -- Each line that the codec yields from an agent's standard error is forwarded to the diagnostics
  -- unaltered and in order where they have room for it, and each line without room, or that cannot
  -- be read, adds exactly one to the count of the dropped, as long as the count fits into 64 bits.
  pub spawn_stderr-accounts :
      (n dropped : ℕ) (lines : List (Option String))
      → dropped + length lines < 2 ^ 64
      → (lost : ℕ) × Sorted n lines (spawn_stderr n dropped lines).0 lost
        × ((spawn_stderr n dropped lines).1 ≡ dropped + lost)
  unfolding spawn_stderr
  spawn_stderr-accounts n dropped [] small = (0, done, omega arith)
  spawn_stderr-accounts n dropped (none ∷ lines) small =
      let exact : fetch_add dropped 1 ≡ dropped + 1 =
        fetch_add-exact dropped (omega (arith, small)) in
      let (lost, rest, count) =
        spawn_stderr-accounts n (dropped + 1) lines (omega (arith, small)) in
      rw (spawn_stderr, exact) (suc lost, unreadable rest, omega (arith, count))
  spawn_stderr-accounts n dropped (some payload ∷ lines) small = elim (Bool-cases (room n)) [
    | inl kept ↦
        let (lost, rest, count) =
          spawn_stderr-accounts (suc n) dropped lines (omega (arith, small)) in
        rw (kept, spawn_stderr) (lost, forwarded payload kept rest, omega (arith, count))
    | inr full ↦
        let exact : fetch_add dropped 1 ≡ dropped + 1 =
          fetch_add-exact dropped (omega (arith, small)) in
        let (lost, rest, count) =
          spawn_stderr-accounts (suc n) (dropped + 1) lines (omega (arith, small)) in
        rw (full, spawn_stderr, exact)
          (suc lost, crowded_out payload full rest, omega (arith, count))
  ]
