-- ===== src/Tunnel/InOrder.antt =====
-- What a user of the tunnel sees: lines arrive once, in order and unchanged, whatever the network
-- does and however often the connector comes back.
use acp_tunnel.Common.{
  ℕ, ◌+◌, ◌<◌, String, ◌≡◌, refl, ap, ◌∙◌, none, false, List, [], ◌∷◌, ◌++◌, map, arith, u64_max,
}
use acp_tunnel.Fault.{Result, ok, >>=-eq-ok, ok-injective}
use acp_tunnel.Config.{ServerConfig}
use acp_tunnel.Numbered.{Begins, Begins-shorter}
use acp_tunnel.Outbox.{log}
use acp_tunnel.Policy.{PolicyOutcome}
use acp_tunnel.Protocol.{ClientInfo, ShutdownReason}
use acp_tunnel.Server.Replay.{ReplayFrame}
use acp_tunnel.Server.Replay.Refinement.{Holds as ReplayHolds}
use acp_tunnel.Server.Transport.{Fate}
use acp_tunnel.Server.Transport.Attach.{attach_transport-Attached}
use acp_tunnel.Server.Session.{Session}
use acp_tunnel.Server.Session.Abstract.{Spec, forwarded}
use acp_tunnel.Server.Session.Events.{ready_envelope}
use acp_tunnel.Server.Session.Loop.{HasLimits}
use acp_tunnel.Server.Session.Run.{started, begin, begin-Inv, first_spec}
use acp_tunnel.Server.Session.Wire.{Wired}
use acp_tunnel.Client.Socket.{
  ConnectOptions, ResumeCredentials, PendingFrame, Socket, Reply, open_envelope, open_socket,
  read_reply,
}
use acp_tunnel.Client.Link.Refinement.{Holds as LinkHolds, LinkSpec}
use acp_tunnel.Client.Link.Written.{Written}
use acp_tunnel.Tunnel.{World, opened, Ticks}
use acp_tunnel.Tunnel.Agreement.{Agreed, Merge, empty, refused}
use acp_tunnel.Tunnel.Progress.{commands-From, Ticks-Agreed}

link-payloads :
    (n : ℕ) (ps : List String) (fs : List PendingFrame)
    → LinkHolds n ps fs
    → ps ≡ map (λ f. f.payload) fs
link-payloads n [] [] h = refl
link-payloads n [] (f ∷ fs) h = absurd h
link-payloads n (p ∷ ps) [] h = absurd h
link-payloads n (p ∷ ps) (f ∷ fs) (_, q, h) = rw q (ap (◌∷◌ p) (link-payloads (n + 1) ps fs h))

replay-payloads :
    (n : ℕ) (ps : List String) (fs : List ReplayFrame)
    → ReplayHolds n ps fs
    → ps ≡ map (λ f. f.payload) fs
replay-payloads n [] [] h = refl
replay-payloads n [] (f ∷ fs) h = absurd h
replay-payloads n (p ∷ ps) [] h = absurd h
replay-payloads n (p ∷ ps) (f ∷ fs) (_, q, h) = rw q (ap (◌∷◌ p) (replay-payloads (n + 1) ps fs h))

module _ (options : ConnectOptions) (info : ClientInfo) (credentials : ResumeCredentials)
    (shut_down : ShutdownReason → Result (Unit {0})) (config : ServerConfig)
    (apply : String → Result PolicyOutcome) (cid token : String) where
  pub record Opened (w : World) : Type 0 where
    pub now : ℕ
    pub reply : Reply
    pub socket : Socket
    pub socket_opened : open_socket options info none reply ≡ ok (socket, credentials)
    pub begun_at : ℕ
    pub fate : Fate
    pub session : Session
    pub session_begun : begin config cid token begun_at fate ≡ ok session
    pub world : w ≡ opened now socket session

  abbrev pub first_link : LinkSpec
  first_link = record { outbox = record { settled = []; waiting = [] }; printed = [] }

  socket-Written :
      (reply : Reply) (socket : Socket)
      → open_socket options info none reply ≡ ok (socket, credentials)
      → Written first_link socket.written
  unfolding open_socket
  socket-Written reply socket e =
      let (c, _, e') = >>=-eq-ok (read_reply options info false reply) _ e in
      let same : record { written = open_envelope options info none ∷ []; broken = false }
          ≡ socket =
        ap (λ r. r.0) (ok-injective _ _ e') in
      rw (← same) (unfold open_envelope in tt, tt)

  begin-Wired :
      (now : ℕ) (fate : Fate) (session : Session)
      → begin config cid token now fate ≡ ok session
      → Wired first_spec session.transport
  unfolding begin
  begin-Wired now fate session e =
      let (h, e1, e2) = >>=-eq-ok _ (λ h. ok (started now h)) e in
      let attached =
        attach_transport-Attached 1 config.channel_capacity (ready_envelope config cid token false)
          none fate [] h e1 in
      rw (← ok-injective _ _ e2, attached.commands) (tt, tt)

  pub Opened-Agreed :
      (w : World)
      → HasLimits config
      → Opened w
      → Agreed options config apply first_link first_spec w
  Opened-Agreed w limits o =
      let inv =
        begin-Inv config apply cid token o.begun_at o.fate o.session limits o.session_begun in
      let written = socket-Written o.reply o.socket o.socket_opened in
      let wired = begin-Wired o.begun_at o.fate o.session o.session_begun in
      rw o.world (record {
        client = record {
          holds = tt;
          counted = refl;
          next = refl;
          expected = refl;
          stdout = refl;
          frames = omega arith;
          bytes = omega arith;
        };
        server = inv;
        accepted = ([], refl);
        printed = ([], refl);
        client_settled = omega arith;
        server_settled = omega arith;
        up = written;
        down = commands-From first_spec o.session.transport wired;
        written = written;
        wired = wired;
        typed = refl;
        spoken = empty;
      })

  module _ (small : options.max_replay_bytes < u64_max) (limits : HasLimits config) (w v : World)
      (o : Opened w)
      (ticks : Ticks options info credentials shut_down config apply cid token w v) where
    agreed : (x : LinkSpec) × (y : Spec) × Agreed options config apply x y v
    agreed =
        Ticks-Agreed options info credentials shut_down config apply cid token first_link first_spec
          small limits (Opened-Agreed w limits o) ticks

    -- Whatever the network and the two ends have done since a tunnel was opened, with limits that a
    -- machine can hold: what the agent has been given is, line by line and in order, what the
    -- policy makes of a first part of the lines that the connector has read. No line is given
    -- twice, skipped or changed.
    pub typed_in_order :
        (accepted : List String) × Begins accepted v.typed
        × (v.session.agent_stdin ≡ forwarded apply accepted)
    typed_in_order =
        let (x, y, a) = agreed in
        let (rest, e) = a.accepted in (y.accepted, (rest, a.typed ∙ e), a.server.stdin)

    -- Under the same conditions what the connector has printed is a first part of one sequence, in
    -- which the lines read from the agent and the answers to the client lines that the policy
    -- refused are merged, each of the two in its own order.
    pub spoken_in_order :
        (accepted sent : List String) × Begins accepted v.typed
        × Merge v.spoken (refused apply accepted) sent
        × Begins v.link.stdout sent
    spoken_in_order =
        let (x, y, a) = agreed in
        let (rest, e) = a.accepted in
        (y.accepted, log y.outbox, (rest, a.typed ∙ e), a.spoken, rw a.client.stdout a.printed)

    -- Under the same conditions no line is lost on the way: every line that the connector has read
    -- stands in its replay buffer or is among those that the session has accepted, which are those
    -- that made up the agent's input; and every line for the connector, of the agent or of the
    -- policy, stands in the session's replay buffer or has been printed.
    pub none_lost :
        (accepted sent settled printed : List String) × (v.session.agent_stdin
          ≡ forwarded apply accepted)
        × Merge v.spoken (refused apply accepted) sent
        × (v.typed ≡ settled ++ map (λ f. f.payload) v.link.pending)
        × Begins settled accepted
        × (sent ≡ printed ++ map (λ f. f.payload) v.session.replay.pending)
        × Begins printed v.link.stdout
    none_lost =
        let (x, y, a) = agreed in
        (
          y.accepted,
          log y.outbox,
          x.outbox.settled,
          y.outbox.settled,
          a.server.stdin,
          a.spoken,
          a.typed ∙ ap (λ l. x.outbox.settled ++ l) (link-payloads _ _ _ a.client.holds),
          Begins-shorter x.outbox.settled x.outbox.waiting y.accepted a.client_settled a.accepted,
          ap (λ l. y.outbox.settled ++ l) (replay-payloads _ _ _ a.server.refines.holds),
          rw a.client.stdout (
              Begins-shorter y.outbox.settled y.outbox.waiting x.printed a.server_settled
                a.printed),
        )
