-- ===== src/Tests/Sockets.antt =====
-- Examples of the theorems about the tasks of a WebSocket and of an agent's output.
use acp_tunnel.Server.Readers.{Sorted, spawn_stderr, spawn_stderr-accounts}
use acp_tunnel.Common.{
  ◌+◌, arith, ℕ, String, ◌≡◌, refl, ◌⊎◌, Bool, true, false, Option, none, some, List, [], ◌∷◌, ◌++◌,
  ltb,
}
use acp_tunnel.Fault.{Error, Result, err}
use acp_tunnel.Files.{answered}
use acp_tunnel.Protocol.{Envelope, acp}
use acp_tunnel.Server.Transport.{envelope, exit}
use acp_tunnel.Server.Socket.{
  Turn, command, received, ping, Task, spawned, run, turn, take_command, take_message, judge, write,
  after_write,
}
use acp_tunnel.Server.Socket.Asked.{texts, all_wanted, AllSent}
use acp_tunnel.Server.Socket.Written.{run-writes}

abbrev sample_text : Envelope → Option String
sample_text (acp _ payload) = some payload
sample_text _ = some "exit"

abbrev no_envelope : String → Result Envelope
no_envelope s = err (Error.protocol s)

-- The socket takes three messages, and the channel has room for one event.
abbrev takes : ℕ → Bool
takes n = ltb n 3

abbrev room : ℕ → Bool
room n = ltb n 1

-- A line, a ping, the exit status, and a line that is not written.
abbrev sample_turns : List Turn
sample_turns =
    command (some (envelope (acp (some 1) "one")))
    ∷ received (some (answered (ping []))) true
    ∷ command (some (exit (Envelope.exit (some 0) none)))
    ∷ command (some (envelope (acp (some 2) "two")))
    ∷ []

abbrev sample_run : Task
sample_run = run sample_text no_envelope takes room (spawned 1) sample_turns

writes_two : texts sample_run.written ≡ "one" ∷ "exit" ∷ []
unfolding run turn take_command take_message judge write after_write
writes_two = refl

run-writes_example :
    (rest : List String) × (all_wanted sample_text sample_turns ≡ texts sample_run.written ++ rest)
    × ((sample_run.running ≡ false) ⊎ (rest ≡ []))
    × AllSent sample_text sample_run
run-writes_example = run-writes sample_text no_envelope takes room 1 sample_turns

spawn_stderr-accounts_example :
    (lost : ℕ) × Sorted room 0
      (some "a" ∷ none ∷ some "b" ∷ [])
      (spawn_stderr room 0 5 (some "a" ∷ none ∷ some "b" ∷ [])).0
      lost
    × ((spawn_stderr room 0 5 (some "a" ∷ none ∷ some "b" ∷ [])).1 ≡ 5 + lost)
spawn_stderr-accounts_example =
    spawn_stderr-accounts room 0 5 (some "a" ∷ none ∷ some "b" ∷ []) (omega arith)
