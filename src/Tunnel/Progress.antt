-- ===== src/Tunnel/Progress.antt =====
-- What either end of the tunnel does keeps the agreement.
use acp_tunnel.Common.{
  ℕ, ◌+◌, ◌-◌, ◌<◌, String, ◌≡◌, refl, inl, inr, Bool, Option, none, some, List, [], ◌∷◌, map,
  length, arith, u64_max, All, All-append, All-map, checked_sub, Bool-cases, ltb, ◌∙◌,
}
use acp_tunnel.Fault.{Result}
use acp_tunnel.Config.{ServerConfig}
use acp_tunnel.Numbered.{Begins-grow}
use acp_tunnel.Outbox.{log}
use acp_tunnel.Policy.{PolicyOutcome}
use acp_tunnel.Protocol.{ClientInfo, ack, client_to_server, ShutdownReason}
use acp_tunnel.Server.Replay.{ReplayFrame}
use acp_tunnel.Server.Transport.{TransportHandle, TransportCommand, frame_command}
use acp_tunnel.Server.Session.Abstract.{Inv, Spec, Same-Inv}
use acp_tunnel.Server.Session.Events.{resume_ack}
use acp_tunnel.Server.Session.Kept.{prepare-Inv}
use acp_tunnel.Server.Session.Loop.{HasLimits, select-Simulated}
use acp_tunnel.Server.Session.Run.{progress, Move-grow}
use acp_tunnel.Server.Session.Wire.{FromServer, carried, Carries, Wired, Inv-Has}
use acp_tunnel.Server.Session.Carried.{FromServer-grow}
use acp_tunnel.Server.Session.Honest.{prepare-Wired}
use acp_tunnel.Server.Session.Select.{select-Wired}
use acp_tunnel.Client.Socket.{ConnectOptions, ResumeCredentials, open_envelope}
use acp_tunnel.Client.Link.Refinement.{LinkInv, LinkSpec, SameLink-Inv}
use acp_tunnel.Client.Link.Steps.{step-Simulated}
use acp_tunnel.Client.Link.Written.{Written, LinkMove-grow, Written-grow, buffer-Written}
use acp_tunnel.Client.Link.Honest.{step-Written}
use acp_tunnel.Tunnel.{
  World, commands_of, acknowledged, Tick, link_steps, socket_breaks, outputs_change, replay_fails,
  session_prepares, session_selects, attach_fails, task_progresses, pipe_changes, Ticks, start,
  next,
}
use acp_tunnel.Tunnel.Agreement.{Agreed, client-moves, typed-moves, session-moves, spoken-moves}

carried-From :
    (y : Spec) (cs : List TransportCommand) → Carries y cs → All (FromServer y) (map carried cs)
carried-From y [] h = tt
carried-From y (c ∷ cs) h = (h.0, carried-From y cs h.1)

pub commands-From :
    (y : Spec) (t : Option TransportHandle) → Wired y t → All (FromServer y) (commands_of t)
commands-From y none w = tt
commands-From y (some h) w = carried-From y h.commands w

frames-From :
    (y : Spec) (fs : List ReplayFrame)
    → All (λ f. FromServer y (carried (frame_command f))) fs
    → All (FromServer y) (map (λ f. carried (frame_command f)) fs)
frames-From y [] h = tt
frames-From y (f ∷ fs) h = (h.0, frames-From y fs h.1)

resume_ack-From :
    (config : ServerConfig) (y : Spec) (expected : ℕ)
    → expected ≡ length y.accepted + 1
    → All (FromServer y) (acknowledged (resume_ack config expected))
unfolding checked_sub
resume_ack-From config y expected e = elim (Bool-cases (ltb expected 1)) [
  | inl zero ↦ absurd (ground arith)
  | inr pos ↦
      let some_ack : resume_ack config expected ≡ some (ack client_to_server (expected - 1)) =
        ground arith in
      rw some_ack (omega arith, tt)
]

progress-Wired :
    (y : Spec) (taken : ℕ) (closed : Bool) (t : Option TransportHandle)
    → Wired y t
    → Wired y (progress taken closed t)
progress-Wired y taken closed none w = tt
progress-Wired y taken closed (some h) w = w

module _ (options : ConnectOptions) (info : ClientInfo) (credentials : ResumeCredentials)
    (shut_down : ShutdownReason → Result (Unit {0})) (config : ServerConfig)
    (apply : String → Result PolicyOutcome) (cid token : String) where
  -- A step that is no move of the abstract ends.
  unmoved :
      (x : LinkSpec) (y : Spec) (w v : World)
      → Agreed options config apply x y w
      → LinkInv options x v.link
      → Inv apply config y v.session
      → Written x v.up
      → All (FromServer y) v.down
      → Written x v.link.socket.written
      → Wired y v.session.transport
      → v.typed ≡ w.typed
      → v.spoken ≡ w.spoken
      → (x' : LinkSpec) × (y' : Spec) × Agreed options config apply x' y' v
  unmoved x y w v a client server up down written wired typed spoken = (
    x,
    y,
    record {
      client = client;
      server = server;
      accepted = a.accepted;
      printed = a.printed;
      client_settled = a.client_settled;
      server_settled = a.server_settled;
      up = up;
      down = down;
      written = written;
      wired = wired;
      typed = typed ∙ a.typed;
      spoken = rw spoken a.spoken;
    },
  )

  -- The two ends agree after whatever happens next.
  pub Tick-Agreed :
      (x : LinkSpec) (y : Spec) (w v : World)
      → options.max_replay_bytes < u64_max
      → HasLimits config
      → Agreed options config apply x y w
      → Tick options info credentials shut_down config apply cid token w v
      → (x' : LinkSpec) × (y' : Spec) × Agreed options config apply x' y' v
  Tick-Agreed x y w v small limits a (link_steps now deadline script event l h on e) =
      let (z, move, inv) =
        step-Simulated options info credentials shut_down now deadline script x event w.link l small
          a.client on e in
      let (printed, settled, more) =
        client-moves x z y _ w.down move h a.down a.printed a.client_settled in
      let grows = LinkMove-grow move in
      let (lines, _, longer, _) = grows in
      let written =
        step-Written options info credentials shut_down now deadline script x z event w.link l grows
          inv a.written e in
      (
        z,
        y,
        record {
          client = inv;
          server = a.server;
          accepted = Begins-grow y.accepted (log x.outbox) (log z.outbox) lines longer a.accepted;
          printed = printed;
          client_settled = settled;
          server_settled = omega (arith, a.server_settled, more);
          up = All-append _ w.up l.socket.written (Written-grow x z w.up grows a.up) written;
          down = a.down;
          written = written;
          wired = a.wired;
          typed = typed-moves x z _ w.typed move a.typed;
          spoken = a.spoken;
        },
      )
  Tick-Agreed x y w v small limits a socket_breaks =
      unmoved x y w v a (SameLink-Inv options x w.link _ a.client (refl, refl, refl, refl, refl))
        a.server a.up a.down a.written a.wired refl refl
  Tick-Agreed x y w v small limits a (outputs_change _ _) =
      unmoved x y w v a (SameLink-Inv options x w.link _ a.client (refl, refl, refl, refl, refl))
        a.server a.up a.down a.written a.wired refl refl
  Tick-Agreed x y w v small limits a replay_fails =
      unmoved x y w v a a.client a.server
        (All-append _ w.up _ a.up
          (unfold open_envelope in tt, buffer-Written options x w.link a.client))
        a.down a.written a.wired refl refl
  Tick-Agreed x y w v small limits a (session_prepares now d _) =
      let wired = prepare-Wired apply config y now d w.session a.server a.wired in
      unmoved x y w v a a.client (prepare-Inv apply config y now d w.session a.server) a.up
        (All-append _ w.down _ a.down (commands-From y _ wired)) a.written wired refl refl
  Tick-Agreed x y w v small limits a (session_selects now event s _ h b on e) =
      let (z, move, inv) =
        select-Simulated apply config y cid token now event w.session s limits b on a.server e in
      let (accepted, settled, more) =
        session-moves apply x y z _ w.up move h a.up a.accepted a.server_settled in
      let grows = Move-grow config apply cid token move in
      let (_, lines, _, longer) = grows in
      let wired =
        select-Wired apply config y z cid token now event w.session s a.server grows inv a.wired
          e in
      (
        x,
        z,
        record {
          client = a.client;
          server = inv;
          accepted = accepted;
          printed = Begins-grow x.printed (log y.outbox) (log z.outbox) lines longer a.printed;
          client_settled = omega (arith, a.client_settled, more);
          server_settled = settled;
          up = a.up;
          down =
              All-append _ w.down _ (All-map (FromServer-grow y z grows) w.down a.down)
                (commands-From z _ wired);
          written = a.written;
          wired = wired;
          typed = a.typed;
          spoken = spoken-moves apply y z _ w.spoken move a.spoken;
        },
      )
  Tick-Agreed x y w v small limits a attach_fails =
      let ack = resume_ack-From config y _ a.server.expected in
      let frames = frames-From y _ (Inv-Has y w.session.replay.pending a.server.refines.holds) in
      unmoved x y w v a a.client a.server a.up
        (All-append _ w.down _ a.down (
          All-append _ (acknowledged (resume_ack config w.session.expected_client_sequence)) _ ack
            frames))
        a.written a.wired refl refl
  Tick-Agreed x y w v small limits a (task_progresses taken closed) =
      unmoved x y w v a a.client (Same-Inv apply config y w.session _ a.server (refl, refl, refl))
        a.up a.down a.written (progress-Wired y taken closed w.session.transport a.wired) refl refl
  Tick-Agreed x y w v small limits a (pipe_changes is_open) =
      unmoved x y w v a a.client (Same-Inv apply config y w.session _ a.server (refl, refl, refl))
        a.up a.down a.written a.wired refl refl

  pub Ticks-Agreed :
      (x : LinkSpec) (y : Spec) {w v : World}
      → options.max_replay_bytes < u64_max
      → HasLimits config
      → Agreed options config apply x y w
      → Ticks options info credentials shut_down config apply cid token w v
      → (x' : LinkSpec) × (y' : Spec) × Agreed options config apply x' y' v
  Ticks-Agreed x y small limits a start = (x, y, a)
  Ticks-Agreed x y small limits a (next {u} {v} ts t) =
      let (x', y', b) = Ticks-Agreed x y small limits a ts in Tick-Agreed x' y' u v small limits b t
