-- ===== src/Server/Socket/Written.antt =====
-- What the task writes are the texts of the commands it is given, in their order, and a reply is sent
-- only for what was written.
use acp_tunnel.Common.{
  ℕ, String, ◌≡◌, refl, sym, ap, ◌∙◌, ◌⊎◌, inl, inr, Bool, true, false, ◌||◌, not, Option, none,
  some, List, [], ◌∷◌, ◌++◌, append_assoc, append-nil, if◌then◌else◌, Bool-cases,
}
use acp_tunnel.Fault.{Result}
use acp_tunnel.Files.{Answer, answered, failed}
use acp_tunnel.Protocol.{Envelope}
use acp_tunnel.Server.Session.Events.{TransportEventKind}
use acp_tunnel.Server.Socket.{
  Message, text, ping, pong, binary, close, Turn, command, received, Task, spawned, stop, tell,
  take_command, judge, after_pong, take_message, turn, run,
}
use acp_tunnel.Server.Socket.Asked.{
  texts, texts-append, Follows, still, gave_up, Tried, took, left_alone, wanted, all_wanted,
  AllSent, grow,
}
use acp_tunnel.Server.Socket.Commands.{write-Tried, command-Step, Step}

module _ (to_text : Envelope → Option String) (from_text : String → Result Envelope)
    (takes : ℕ → Bool) (room : ℕ → Bool) where
  run-stopped :
      (task : Task) (turns : List Turn)
      → task.running ≡ false
      → run to_text from_text takes room task turns ≡ task
  unfolding run
  run-stopped task [] stopped = refl
  run-stopped task (t ∷ turns) stopped = rw (stopped, run) refl

  joined :
      (before middle : Task) (t : Turn) (turns : List Turn)
      → Follows before middle (wanted to_text t)
      → Follows middle (run to_text from_text takes room middle turns) (all_wanted to_text turns)
      → Follows before
          (run to_text from_text takes room middle turns)
          (all_wanted to_text (t ∷ turns))
  joined before middle t turns f g = elim (f.left) [
    | inl stopped ↦ rw (run-stopped middle turns stopped) (record {
      rest = f.rest ++ all_wanted to_text turns;
      same =
          sym (append_assoc (texts middle.written) f.rest (all_wanted to_text turns))
          ∙ ap (λ l. l ++ all_wanted to_text turns) f.same
          ∙ append_assoc (texts before.written) (wanted to_text t) (all_wanted to_text turns);
      left = inl stopped;
    })
    | inr done ↦
        let all_there : texts middle.written ≡ texts before.written ++ wanted to_text t =
          sym (append-nil _) ∙ (rw (← done) f.same) in
        record {
          rest = g.rest;
          same =
              g.same
              ∙ ap (λ l. l ++ all_wanted to_text turns) all_there
              ∙ append_assoc (texts before.written) (wanted to_text t) (all_wanted to_text turns);
          left = g.left;
        }
  ]

  -- A message that arrives may be answered, but not by a text.
  pong-Step :
      (payload : List ℕ) (task : Task)
      → AllSent to_text task
      → (tried : Task × Bool) → Tried (pong payload) task tried
      → (texts (after_pong to_text from_text takes room tried).0.written ≡ texts task.written)
        × AllSent to_text (after_pong to_text from_text takes room tried).0
  pong-Step payload task h _ took = (
    texts-append task.written (pong payload ∷ []) ∙ append-nil _,
    grow to_text task.written (pong payload ∷ []) task.replied h,
  )
  pong-Step payload task h _ left_alone = (refl, h)

  judge-Step :
      (m : Option (Answer Message)) (task : Task)
      → AllSent to_text task
      → (texts (judge to_text from_text takes room m task).0.written ≡ texts task.written)
        × AllSent to_text (judge to_text from_text takes room m task).0
  unfolding judge
  judge-Step none task h = (refl, h)
  judge-Step (some (failed _)) task h = (refl, h)
  judge-Step (some (answered (text s))) task h = (refl, h)
  judge-Step (some (answered (ping payload))) task h =
      pong-Step payload task h _ (write-Tried to_text from_text takes room (pong payload) task)
  judge-Step (some (answered (pong _))) task h = (refl, h)
  judge-Step (some (answered close)) task h = (refl, h)
  judge-Step (some (answered (binary _))) task h = (refl, h)

  heard-Step :
      (heard ends : Bool) (kind : TransportEventKind) (task after : Task)
      → texts after.written ≡ texts task.written
      → AllSent to_text after
      → Step to_text from_text takes room task
          (let there = if heard then tell kind after else after in
            if not heard || ends then stop there else there)
          []
  heard-Step false ends kind task after e h = (still task _ e, h)
  heard-Step true true kind task after e h = (still task _ e, h)
  heard-Step true false kind task after e h = (still task _ e, h)

  turn-Step :
      (t : Turn) (task : Task)
      → AllSent to_text task
      → Step to_text from_text takes room task
          (turn to_text from_text takes room t task)
          (wanted to_text t)
  unfolding turn take_message take_command
  turn-Step (command none) task h = closing _ (write-Tried to_text from_text takes room close task)
    where
      closing :
          (tried : Task × Bool)
          → Tried close task tried
          → Step to_text from_text takes room task (stop tried.0) []
      closing _ took = (
        still task _ (texts-append task.written (close ∷ []) ∙ append-nil _),
        grow to_text task.written (close ∷ []) task.replied h,
      )
      closing _ left_alone = (still task _ refl, h)
  turn-Step (command (some c)) task h = command-Step to_text from_text takes room c task h
  turn-Step (received m heard) task h =
      let (same, kept) = judge-Step m task h in heard-Step heard _ _ task _ same kept

  run-going :
      (task : Task) (t : Turn) (turns : List Turn)
      → task.running ≡ true
      → run to_text from_text takes room task (t ∷ turns)
        ≡ run to_text from_text takes room (turn to_text from_text takes room t task) turns
  unfolding run
  run-going task t turns going = rw (going, run) refl

  run-Step :
      (task : Task) (turns : List Turn)
      → AllSent to_text task
      → Step to_text from_text takes room task
          (run to_text from_text takes room task turns)
          (all_wanted to_text turns)
  unfolding run
  run-Step task [] h = (still task _ refl, h)
  run-Step task (t ∷ turns) h = elim (Bool-cases task.running) [
    | inr stopped ↦ rw (run-stopped task (t ∷ turns) stopped) (gave_up task task _ refl stopped, h)
    | inl going ↦
        let (f, k) = turn-Step t task h in
        let (g, l) = run-Step (turn to_text from_text takes room t task) turns k in
        rw (run-going task t turns going) (joined task _ t turns f g, l)
  ]

  -- Whatever the socket takes and the channel has room for, the texts that the task of a WebSocket
  -- writes are those of the commands in its script, in their order, up to a point where the task
  -- has stopped if any is left; and every one-shot reply that it sends is for an envelope whose
  -- text was written.
  pub run-writes :
      (generation : ℕ) (turns : List Turn)
      → (rest : List String) × (all_wanted to_text turns
          ≡ texts (run to_text from_text takes room (spawned generation) turns).written ++ rest)
        × (((run to_text from_text takes room (spawned generation) turns).running ≡ false)
            ⊎ (rest ≡ []))
        × AllSent to_text (run to_text from_text takes room (spawned generation) turns)
  run-writes generation turns =
      let (f, sent) = run-Step (spawned generation) turns tt in (f.rest, sym f.same, f.left, sent)
