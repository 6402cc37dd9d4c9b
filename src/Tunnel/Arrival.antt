-- ===== src/Tunnel/Arrival.antt =====
-- The way of one line, on a live connection, from the connector's standard input to that of the agent.
use acp_tunnel.Common.{
  ℕ, ◌+◌, ◌≤◌, ◌<◌, String, len, ◌≡◌, refl, ap, inl, inr, true, false, none, some, List, [], ◌∷◌,
  ◌++◌, length, arith, u64_max, checked_add, ltb, ==_iff, Occurs, saturating_add,
  saturating_add_fits,
}
use acp_tunnel.Fault.{Result, ok}
use acp_tunnel.Config.{ServerConfig}
use acp_tunnel.Outbox.{log}
use acp_tunnel.Policy.{PolicyOutcome, forward}
use acp_tunnel.Protocol.{ClientInfo, Envelope, acp, ShutdownReason}
use acp_tunnel.Server.Transport.{TransportHandle}
use acp_tunnel.Server.Session.{
  Session, count_inbound, write_line, advance, send_client_ack, accept_line, handle_frame,
  handle_client_envelope,
}
use acp_tunnel.Server.Session.Abstract.{Spec}
use acp_tunnel.Server.Session.Events.{
  transport_event, message, enabled, after_envelope, is_current, take_transport_event, select,
}
use acp_tunnel.Client.Socket.{ConnectOptions, ResumeCredentials, Turn, send}
use acp_tunnel.Client.Link.{
  Link, running, stdin_line, can_read_stdin, queue_line, send_or_reconnect, read_line, step,
}
use acp_tunnel.Client.Link.Refinement.{LinkSpec}
use acp_tunnel.Client.Link.Moves.{queued_link}
use acp_tunnel.Tunnel.{World, link_steps, session_selects, Ticks, start, next}
use acp_tunnel.Tunnel.Agreement.{Agreed}

-- A frame with the expected number, whose line the policy forwards, reaches the agent.
pub handle_client_envelope-accepts :
    (config : ServerConfig) (apply : String → Result PolicyOutcome) (p line : String) (s : Session)
    → len p ≤ config.max_frame_bytes
    → apply p ≡ ok (forward line)
    → s.stdin_open ≡ true
    → s.expected_client_sequence < u64_max
    → (s' : Session) × (handle_client_envelope config apply
          (acp (some s.expected_client_sequence) p)
          s
        ≡ ok s')
      × (s'.agent_stdin ≡ s.agent_stdin ++ line ∷ [])
      × (s'.expected_client_sequence ≡ s.expected_client_sequence + 1)
      × (s'.end_category ≡ s.end_category)
      × (s'.shutdown_reason ≡ s.shutdown_reason)
unfolding handle_client_envelope handle_frame accept_line write_line advance count_inbound
    checked_add
handle_client_envelope-accepts config apply p line s short a is_open room = (
  record (count_inbound p s) {
    agent_stdin = s.agent_stdin ++ line ∷ [];
    expected_client_sequence = s.expected_client_sequence + 1;
    transport = send_client_ack s.transport (s.expected_client_sequence + 1);
  },
  rw a (ground arith),
  refl,
  refl,
  refl,
  refl,
)

module _ (options : ConnectOptions) (info : ClientInfo) (credentials : ResumeCredentials)
    (shut_down : ShutdownReason → Result (Unit {0})) where
  -- A line that the guard lets in is queued and sent on a socket that works.
  pub step-sends :
      (now deadline : ℕ) (script : List Turn) (line : String) (l : Link)
      → options.max_frame_bytes ≤ options.max_replay_bytes
      → options.max_replay_bytes < u64_max
      → can_read_stdin options info credentials shut_down l ≡ true
      → len line ≤ options.max_frame_bytes
      → l.next_client_sequence < u64_max
      → l.socket.broken ≡ false
      → (l' : Link) × (step options info credentials shut_down now deadline script
            (stdin_line (some (ok line)))
            l
          ≡ running l')
        × (l'.socket.written ≡ l.socket.written ++ acp (some l.next_client_sequence) line ∷ [])
        × (l'.pending ≡ (queued_link line l).pending)
  unfolding step read_line queue_line send_or_reconnect can_read_stdin checked_add send
  step-sends now deadline script line l fits small on short room live =
      let sum = saturating_add_fits l.pending_bytes (len line) in
      let a : ltb options.max_frame_bytes (len line) ≡ false = ground arith in
      let b : ltb options.max_replay_bytes (saturating_add l.pending_bytes (len line)) ≡ false =
        ground (arith, sum) in
      let c : checked_add l.next_client_sequence 1 ≡ some (l.next_client_sequence + 1) =
        ground arith in
      (
        record (queued_link line l) {
          socket = record (l.socket) {
            written = l.socket.written ++ acp (some l.next_client_sequence) line ∷ [];
          };
        },
        rw (a, b, c, live) refl,
        refl,
        refl,
      )

Occurs-last : (e : Envelope) (xs : List Envelope) → Occurs e (xs ++ e ∷ [])
Occurs-last e [] = inl refl
Occurs-last e (x ∷ xs) = inr (Occurs-last e xs)

Occurs-append : (e : Envelope) (xs ys : List Envelope) → Occurs e ys → Occurs e (xs ++ ys)
Occurs-append e [] ys o = o
Occurs-append e (x ∷ xs) ys o = inr (Occurs-append e xs ys o)

module _ (options : ConnectOptions) (info : ClientInfo) (credentials : ResumeCredentials)
    (shut_down : ShutdownReason → Result (Unit {0})) (config : ServerConfig)
    (apply : String → Result PolicyOutcome) (cid token : String) where
  select-accepts :
      (now : ℕ) (p line : String) (s : Session) (h : TransportHandle)
      → s.transport ≡ some h
      → len p ≤ config.max_frame_bytes
      → apply p ≡ ok (forward line)
      → s.stdin_open ≡ true
      → s.expected_client_sequence < u64_max
      → s.end_category ≡ none
      → s.shutdown_reason ≡ none
      → (s' : Session) × (select config apply cid token now
            (transport_event (
              some (record {
                generation = h.generation;
                kind = message (acp (some s.expected_client_sequence) p);
              })))
            s
          ≡ ok s')
        × (s'.agent_stdin ≡ s.agent_stdin ++ line ∷ [])
        × (s'.expected_client_sequence ≡ s.expected_client_sequence + 1)
        × (s'.end_category ≡ none)
  unfolding select take_transport_event after_envelope
  select-accepts now p line s h attached short a is_open room on unasked =
      let t : Session = record s { last_received = now } in
      let (u, handled, stdin, counted, goes_on, reason) =
        handle_client_envelope-accepts config apply p line t short a is_open room in
      let current : is_current config h.generation s.transport ≡ true =
        rw attached ((==_iff h.generation h.generation).1 refl) in
      (
        after_envelope config u,
        rw (current, handled) refl,
        ground (arith, stdin),
        ground (arith, counted),
        ground (arith, goes_on, reason),
      )

  -- What two rounds make of a line: the connector's puts it on the socket as a numbered frame, the
  -- session's takes that frame from its transport and gives `given` to the agent, counts it and goes on; and
  -- these rounds are steps of the two ends together.
  pub record Arrives (w : World) (now deadline : ℕ) (script : List Turn) (h : TransportHandle)
      (line given : String) : Type 0 where
    pub link : Link
    pub session : Session
    pub link_stepped :
        step options info credentials shut_down now deadline script
          (stdin_line (some (ok line)))
          w.link
        ≡ running link
    pub sent :
        link.socket.written
        ≡ w.link.socket.written ++ acp (some w.link.next_client_sequence) line ∷ []
    pub session_selected :
        select config apply cid token now
          (transport_event (
            some (record {
              generation = h.generation;
              kind = message (acp (some w.link.next_client_sequence) line);
            })))
          w.session
        ≡ ok session
    pub given_to_agent : session.agent_stdin ≡ w.session.agent_stdin ++ given ∷ []
    pub counted : session.expected_client_sequence ≡ w.session.expected_client_sequence + 1
    pub goes_on : session.end_category ≡ none
    pub after : World
    pub ticks : Ticks options info credentials shut_down config apply cid token w after
    pub ends : (after.link ≡ link) × (after.session ≡ session)
    pub typed : after.typed ≡ w.typed ++ line ∷ []

  -- Where the session goes on, no shutdown is asked for and it has accepted every line read so far,
  -- the socket works, an open transport is attached, the agent's pipe is open, the connector may
  -- read and both ends allow a frame of this size and number, a line that the policy forwards
  -- arrives: the connector's round puts it on the socket, and the session's round that takes it
  -- from there gives it to the agent, counts it and goes on.
  pub line-Arrives :
      (x : LinkSpec) (y : Spec) (w : World) (now deadline : ℕ) (script : List Turn)
      (line given : String) (h : TransportHandle)
      → Agreed options config apply x y w
      → y.accepted ≡ log x.outbox
      → options.max_frame_bytes ≤ options.max_replay_bytes
      → options.max_replay_bytes < u64_max
      → options.max_frame_bytes ≤ config.max_frame_bytes
      → can_read_stdin options info credentials shut_down w.link ≡ true
      → len line ≤ options.max_frame_bytes
      → w.link.next_client_sequence < u64_max
      → w.link.socket.broken ≡ false
      → w.session.transport ≡ some h
      → h.closed ≡ false
      → w.session.stdin_open ≡ true
      → w.session.end_category ≡ none
      → w.session.shutdown_reason ≡ none
      → apply line ≡ ok (forward given)
      → Arrives w now deadline script h line given
  unfolding enabled
  line-Arrives x y w now deadline script line given h a caught_up fits small same_limit on short
        room live attached _ is_open runs unasked applied =
      let (l, stepped, sent, _) =
        step-sends options info credentials shut_down now deadline script line w.link fits small on
          short room live in
      let number : w.link.next_client_sequence ≡ w.session.expected_client_sequence =
        omega (arith, a.client.next, a.server.expected, ap length caught_up) in
      let (s, selected, stdin, counted, goes_on) =
        select-accepts now line given w.session h attached (omega (arith, short, same_limit))
          applied is_open (omega (arith, room, number)) runs unasked in
      record {
        link = l;
        session = s;
        link_stepped = stepped;
        sent = sent;
        session_selected = rw number selected;
        given_to_agent = stdin;
        counted = counted;
        goes_on = goes_on;
        after = _;
        ticks =
            next
              (next start
                (link_steps now deadline script (stdin_line (some (ok line))) l tt on stepped))
              (session_selects now _ s runs (heard l sent number) tt refl selected);
        ends = (refl, refl);
        typed = refl;
      }
    where
      heard :
          (l : Link)
          → l.socket.written
            ≡ w.link.socket.written ++ acp (some w.link.next_client_sequence) line ∷ []
          → w.link.next_client_sequence ≡ w.session.expected_client_sequence
          → Occurs (acp (some w.session.expected_client_sequence) line) (w.up ++ l.socket.written)
      heard l sent number =
          rw (sent, number) (Occurs-append _ w.up _ (Occurs-last _ w.link.socket.written))
