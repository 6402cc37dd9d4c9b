-- ===== src/Server/Session/Run.antt =====
-- src/server.rs: a session from its first transport on, any number of rounds.
use acp_tunnel.Common.{
  ℕ, String, ◌≡◌, refl, sym, ap, ◌∙◌, Bool, true, false, Option, none, some, List, [], ◌∷◌, ◌++◌,
  append_assoc, append-nil, arith,
}
use acp_tunnel.Cause.{Cause}
use acp_tunnel.Fault.{Result, ok, ◌>>=◌, >>=-eq-ok, ok-injective}
use acp_tunnel.Config.{ServerConfig}
use acp_tunnel.Outbox.{log, log-settle}
use acp_tunnel.Policy.{PolicyOutcome}
use acp_tunnel.Server.Replay.{ReplayFrame, empty}
use acp_tunnel.Server.Transport.{TransportHandle, Fate, attach_transport}
use acp_tunnel.Server.Session.{Session}
use acp_tunnel.Server.Session.Abstract.{
  Spec, Grows, Move, keep, deliver, refuse, settles, emit, Inv, Same-Inv,
}
use acp_tunnel.Server.Session.Events.{Event, Delivery, enabled, prepare, ready_envelope, select}
use acp_tunnel.Server.Session.Kept.{prepare-Inv}
use acp_tunnel.Server.Session.Loop.{IsBounded, HasLimits, cause, select-Simulated}

-- The variables of `run_agent_session` before its loop, once the first transport is attached.
abbrev pub started : ℕ → TransportHandle → Session
started now h = record {
  replay = empty;
  expected_client_sequence = 1;
  counters = record { inbound_frames = 0; inbound_bytes = 0; dropped_stderr_frames = 0 };
  transport = some h;
  end_category = none;
  shutdown_reason = none;
  agent_stdin = [];
  stdin_open = true;
  generation = 1;
  detached_deadline = none;
  last_received = now;
  child_status = none;
  resumed_count = 0;
  exit_was_sent = false;
  resumable = true;
}

unfoldable pub begin : ServerConfig → String → String → ℕ → Fate → Result Session
begin config cid token now fate = do h ← first.1; ok (started now h)
  where
    first : List ReplayFrame × Result TransportHandle
    first =
        attach_transport 1 config.channel_capacity (ready_envelope config cid token false) none fate
          []

-- The task of a transport takes commands from its channel, and closes it when it goes.
abbrev pub progress : ℕ → Bool → Option TransportHandle → Option TransportHandle
progress taken closed none = none
progress taken closed (some h) = some (record h { taken = taken; closed = closed })

abbrev pub first_spec : Spec
first_spec = record { accepted = []; outbox = record { settled = []; waiting = [] } }

module _ (config : ServerConfig) (apply : String → Result PolicyOutcome) (cid token : String) where
  -- The loop; the pipe to the agent, the tasks of the transports and the events are as the
  -- surroundings choose.
  pub data Rounds (s : Session) : Session → Type 0 where
    here : Rounds s s
    pipe :
        {t : Session} (is_open : Bool) → Rounds s t → Rounds s (record t { stdin_open = is_open })
    task :
        {t : Session} (taken : ℕ) (closed : Bool)
        → Rounds s t
        → Rounds s (record t { transport = progress taken closed t.transport })
    prepared :
        {t : Session} (now : ℕ) (d : Delivery)
        → Rounds s t
        → t.end_category ≡ none
        → Rounds s (prepare config now d t)
    selected :
        {t : Session} (now : ℕ) (e : Event) (u : Session)
        → Rounds s t
        → t.end_category ≡ none
        → IsBounded config e
        → enabled config t e ≡ true
        → select config apply cid token now e t ≡ ok u
        → Rounds s u

  pub data Moves (x : Spec) : Spec → Type 0 where
    done : Moves x x
    more : {y z : Spec} (c : Cause) → Moves x y → Move apply y c z → Moves x z

  -- Whatever happens in a session, for as long as its loop goes on, it does as the abstract
  -- session does.
  pub Rounds-Simulated :
      (x : Spec) {s t : Session}
      → HasLimits config
      → Inv apply config x s
      → Rounds s t
      → (y : Spec) × Moves x y × Inv apply config y t
  Rounds-Simulated x limits v here = (x, done, v)
  Rounds-Simulated x limits v (pipe {t} is_open r) =
      let (y, m, w) = Rounds-Simulated x limits v r in
      (y, m, Same-Inv apply config y t _ w (refl, refl, refl))
  Rounds-Simulated x limits v (task {t} taken closed r) =
      let (y, m, w) = Rounds-Simulated x limits v r in
      (y, m, Same-Inv apply config y t _ w (refl, refl, refl))
  Rounds-Simulated x limits v (prepared {t} now d r _) =
      let (y, m, w) = Rounds-Simulated x limits v r in (y, m, prepare-Inv apply config y now d t w)
  Rounds-Simulated x limits v (selected {t} now e u r _ b on chosen) =
      let (y, m, w) = Rounds-Simulated x limits v r in
      let (z, n, w') = select-Simulated apply config y cid token now e t u limits b on w chosen in
      (z, more (cause e) m n, w')

  first-Inv :
      (now : ℕ) (h : TransportHandle)
      → HasLimits config
      → Inv apply config first_spec (started now h)
  first-Inv now h limits = record {
    refines = record { holds = tt; bytes = refl; next = refl };
    expected = refl;
    stdin = refl;
    frames = omega arith;
    bytes = omega arith;
  }

  pub begin-Inv :
      (now : ℕ) (fate : Fate) (s : Session)
      → HasLimits config
      → begin config cid token now fate ≡ ok s
      → Inv apply config first_spec s
  unfolding begin
  begin-Inv now fate s limits e =
      let (h, _, e') = >>=-eq-ok _ (λ h. ok (started now h)) e in
      rw (← ok-injective _ _ e') (first-Inv now h limits)

  -- A session that began and went through any number of rounds, with any events and with configured
  -- limits, has made moves of the abstract session from the empty one; the agent has been given the
  -- forwarded lines of exactly the accepted client lines, in order, and the replay buffer holds
  -- what the client has not acknowledged, numbered as it was queued, within its limits of frames
  -- and bytes.
  pub begin-Rounds :
      (now : ℕ) (fate : Fate) {s t : Session}
      → HasLimits config
      → begin config cid token now fate ≡ ok s
      → Rounds s t
      → (y : Spec) × Moves first_spec y × Inv apply config y t
  begin-Rounds now fate {s} limits e r =
      Rounds-Simulated first_spec limits (begin-Inv now fate s limits e) r

  pub Move-grow : {x y : Spec} {c : Cause} → Move apply x c y → Grows x y
  Move-grow {x} (keep _) = ([], [], sym (append-nil _), sym (append-nil _))
  Move-grow {x} (deliver n p line _ _ _) = (p ∷ [], [], refl, sym (append-nil _))
  Move-grow {x} (refuse n p line _ _ _) =
      (p ∷ [], line ∷ [], refl, sym (append_assoc x.outbox.settled x.outbox.waiting (line ∷ [])))
  Move-grow {x} (settles k _ _) =
      ([], [], sym (append-nil _), log-settle k x.outbox ∙ sym (append-nil _))
  Move-grow {x} (emit line _) = (
    [],
    line ∷ [],
    sym (append-nil _),
    sym (append_assoc x.outbox.settled x.outbox.waiting (line ∷ [])),
  )

  -- Moves only add to what was accepted and to what was queued for the client.
  pub Moves-grow : {x y : Spec} → Moves x y → Grows x y
  Moves-grow {x} done = ([], [], sym (append-nil _), sym (append-nil _))
  Moves-grow {x} (more {y} {z} c ms m) =
      let (new, lines, a, l) = Moves-grow ms in
      let (new', lines', a', l') = Move-grow m in
      (
        new ++ new',
        lines ++ lines',
        a' ∙ ap (λ q. q ++ new') a ∙ append_assoc x.accepted new new',
        l' ∙ ap (λ q. q ++ lines') l ∙ append_assoc (log x.outbox) lines lines',
      )
