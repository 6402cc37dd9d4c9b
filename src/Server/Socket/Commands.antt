-- ===== src/Server/Socket/Commands.antt =====
-- One command of the task: its text is written, or the task stops.
use acp_tunnel.Common.{
  ℕ, String, ◌≡◌, refl, ap, ◌∙◌, inl, inr, Bool, Option, none, some, List, [], ◌∷◌, ◌++◌,
  append-nil, length, All-append, Bool-cases, Option-cases,
}
use acp_tunnel.Fault.{Result}
use acp_tunnel.Protocol.{Envelope}
use acp_tunnel.Server.Transport.{TransportCommand, envelope, exit, shutdown_complete}
use acp_tunnel.Server.Session.Events.{TransportEventKind, writable, disconnected, invalid_envelope}
use acp_tunnel.Server.Socket.{
  Message, text, close, Task, stop, reply, try_tell, write, after_write, complete, take_command,
}
use acp_tunnel.Server.Socket.Asked.{
  texts, texts-append, Occurs-append, Occurs-last, envelope_of, Follows, still, wrote, gave_up,
  Tried, took, left_alone, one, Sent, AllSent, grow,
}

module _ (to_text : Envelope → Option String) (from_text : String → Result Envelope)
    (takes : ℕ → Bool) (room : ℕ → Bool) where
  pub try_tell-written :
      (kind : TransportEventKind) (task : Task)
      → ((try_tell to_text from_text takes room kind task).written ≡ task.written)
        × ((try_tell to_text from_text takes room kind task).running ≡ task.running)
        × (AllSent to_text task → AllSent to_text (try_tell to_text from_text takes room kind task))
  try_tell-written kind task = elim (Bool-cases (room (length task.events))) [
    | inl e ↦ rw (e, try_tell) (refl, refl, λ h. h)
    | inr e ↦ rw (e, try_tell) (refl, refl, λ h. h)
  ]

  pub write-Tried :
      (m : Message) (task : Task) → Tried m task (write to_text from_text takes room m task)
  unfolding write
  write-Tried m task = elim (Bool-cases (takes (length task.written))) [
    | inl e ↦ rw (e, write) took
    | inr e ↦ rw (e, write) left_alone
  ]

  -- The text of an envelope was written, and the reply that may wait for it is sent.
  replied-AllSent :
      (sent : Option Envelope) (task : Task) (s : String)
      → ((e : Envelope) → sent ≡ some e → to_text e ≡ some s)
      → AllSent to_text task
      → AllSent to_text (reply sent (record task { written = task.written ++ text s ∷ [] }))
  replied-AllSent none task s there h = grow to_text task.written (text s ∷ []) task.replied h
  replied-AllSent (some e) task s there h =
      All-append (Sent to_text (task.written ++ text s ∷ [])) task.replied (e ∷ [])
        (grow to_text task.written (text s ∷ []) task.replied h)
        ((s, there e refl, Occurs-last (text s) task.written), tt)

  reply-written : (sent : Option Envelope) (task : Task) → (reply sent task).written ≡ task.written
  reply-written none task = refl
  reply-written (some e) task = refl

  abbrev pub Step : Task → Task → List String → Type 0
  Step before after asked = Follows before after asked × AllSent to_text after

  after_write-Step :
      (sent : Option Envelope) (task : Task) (s : String)
      → ((e : Envelope) → sent ≡ some e → to_text e ≡ some s)
      → AllSent to_text task
      → (tried : Task × Bool) → Tried (text s) task tried
      → Step task (after_write to_text from_text takes room sent tried) (s ∷ [])
  unfolding after_write
  after_write-Step sent task s there h _ took =
      let next = reply sent (record task { written = task.written ++ text s ∷ [] }) in
      let (same, _, kept) = try_tell-written writable next in
      (wrote task _ s (same ∙ reply-written sent _), kept (replied-AllSent sent task s there h))
  after_write-Step sent task s there h _ left_alone =
      let (same, _, kept) = try_tell-written disconnected task in
      (gave_up task _ (s ∷ []) (ap texts same) refl, kept h)

  closed-Step :
      (e : Envelope) (task : Task) (s : String)
      → to_text e ≡ some s
      → AllSent to_text task
      → (tried : Task × Bool)
      → Tried close (record task { written = task.written ++ text s ∷ [] }) tried
      → Step task (stop (reply (some e) tried.0)) (s ∷ [])
  closed-Step e task s there h _ took = (
    record {
      rest = [];
      same =
          append-nil _
          ∙ texts-append (task.written ++ text s ∷ []) (close ∷ [])
          ∙ append-nil _
          ∙ texts-append task.written (text s ∷ []);
      left = inr refl;
    },
    All-append _ task.replied (e ∷ [])
        (grow to_text (task.written ++ text s ∷ []) (close ∷ []) task.replied
          (grow to_text task.written (text s ∷ []) task.replied h))
        ((s, there, Occurs-append (text s) _ (close ∷ []) (Occurs-last (text s) task.written)), tt),
  )
  closed-Step e task s there h _ left_alone =
      (wrote task _ s refl, replied-AllSent (some e) task s (λ e' q. cc) h)

  complete-Step :
      (e : Envelope) (task : Task) (s : String)
      → to_text e ≡ some s
      → AllSent to_text task
      → (tried : Task × Bool) → Tried (text s) task tried
      → Step task (complete to_text from_text takes room e tried) (s ∷ [])
  unfolding complete
  complete-Step e task s there h _ took = closed-Step e task s there h _ (write-Tried close _)
  complete-Step e task s there h _ left_alone = (gave_up task _ (s ∷ []) refl refl, h)

  pub command-Step :
      (c : TransportCommand) (task : Task)
      → AllSent to_text task
      → Step task
          (take_command to_text from_text takes room (some c) task)
          (one to_text (to_text (envelope_of c)))
  unfolding take_command
  command-Step (envelope e) task h = elim (Option-cases (to_text e)) [
    | inl untold ↦
        let (same, _, kept) = try_tell-written invalid_envelope task in
        rw (untold, take_command) (still task _ (ap texts same), kept h)
    | inr (s, there) ↦
        rw (there, take_command)
          (after_write-Step none task s (λ _ q. cc) h _ (write-Tried (text s) task))
  ]
  command-Step (exit e) task h = elim (Option-cases (to_text e)) [
    | inl untold ↦ rw (untold, take_command) (still task _ refl, h)
    | inr (s, there) ↦
        rw (there, take_command)
          (after_write-Step (some e) task s (λ e' q. cc) h _ (write-Tried (text s) task))
  ]
  command-Step (shutdown_complete e) task h = elim (Option-cases (to_text e)) [
    | inl untold ↦ rw (untold, take_command) (still task _ refl, h)
    | inr (s, there) ↦
        rw (there, take_command) (complete-Step e task s there h _ (write-Tried (text s) task))
  ]
