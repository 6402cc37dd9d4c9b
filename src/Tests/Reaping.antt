-- ===== src/Tests/Reaping.antt =====
-- Examples of the theorems about the reaping of an agent: a child that does not listen to SIGTERM.
use acp_tunnel.Common.{ℕ, ◌+◌, ◌≢◌, true, none, some, [], ◌∷◌, arith}
use acp_tunnel.Files.{answered}
use acp_tunnel.Process.{ExitStatus}
use acp_tunnel.Process.Reaping.{
  kill, signalled, History, Waited, exited, ran_out, delivered, Os, spins, reap,
}
use acp_tunnel.Process.Reaping.Rules.{After, Reaped}
use acp_tunnel.Process.Reaping.LastResort.{reap-After}
use acp_tunnel.Process.Reaping.Ends.{HasClock, reap-ends}

abbrev killed : ExitStatus
killed = record { code = none; signal = some 9 }

-- The child ends when it is killed; every event takes 25 milliseconds.
abbrev sample_wait : History → Waited
sample_wait (signalled kill ∷ _) = exited killed
sample_wait _ = ran_out

abbrev sample_now : History → ℕ
sample_now [] = 0
sample_now (_ ∷ h) = sample_now h + 25

abbrev stubborn : Os
stubborn = record {
  try_wait = λ _. answered none;
  wait = sample_wait;
  killpg = λ _ _. delivered;
  probe = λ _. delivered;
  now = sample_now;
}

stubborn-HasClock : HasClock stubborn
stubborn-HasClock = record { forward = λ e h. omega arith; sleeps = λ h. omega arith }

reap-After_example : After Reaped (reap stubborn 7 100 true []).0 (reap stubborn 7 100 true []).1
reap-After_example = reap-After stubborn 7 100 true [] tt

reap-ends_example : (reap stubborn 7 100 true []).0 ≢ spins
reap-ends_example = reap-ends stubborn stubborn-HasClock 7 100 true []
