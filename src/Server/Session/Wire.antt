-- ===== src/Server/Session/Wire.antt =====
-- What a session puts on the wire: frames of its outbox under their numbers, and acknowledgements
-- of what it has accepted.
use acp_tunnel.Common.{
  ℕ, ◌+◌, ◌-◌, ◌≤◌, String, len, ◌≡◌, ◌⊎◌, inl, inr, Option, none, some, List, [], ◌∷◌, ◌++◌,
  length, arith, All, All-append, All-map, Bool-cases, checked_sub, ltb,
}
use acp_tunnel.Fault.{Result, ok, >>=-eq-ok}
use acp_tunnel.Config.{ServerConfig}
use acp_tunnel.Numbered.{At, Has, At-append_right}
use acp_tunnel.Outbox.{log}
use acp_tunnel.Policy.{PolicyOutcome, forward, reject}
use acp_tunnel.Protocol.{Envelope, acp, ack, ping, pong, client_to_server, server_to_client}
use acp_tunnel.Server.Replay.{ReplayFrame, replay_fits, queue_server_frame}
use acp_tunnel.Server.Replay.Refinement.{Holds}
use acp_tunnel.Server.Transport.{
  TransportCommand, envelope, TransportHandle, send, push, frame_command,
}
use acp_tunnel.Server.Session.{
  Session, offer, send_client_ack, write_line, advance, accept_line, handle_frame, count_inbound,
  handle_client_envelope,
}
use acp_tunnel.Server.Session.Abstract.{Spec}

-- An envelope that an honest server may have sent.
abbrev pub FromServer : Spec → Envelope → Type 0
FromServer y (acp (some n) p) = Has (log y.outbox) n p
FromServer y (acp none p) = ⊥
FromServer y (ack client_to_server k) = k ≤ length y.accepted
FromServer y (ack server_to_client k) = ⊥
FromServer y _ = Unit

abbrev pub carried : TransportCommand → Envelope
carried (envelope e) = e
carried (TransportCommand.exit e) = e
carried (TransportCommand.shutdown_complete e) = e

abbrev pub Carries : Spec → List TransportCommand → Type 0
Carries y cs = All (λ c. FromServer y (carried c)) cs

abbrev pub Wired : Spec → Option TransportHandle → Type 0
Wired y none = Unit
Wired y (some h) = Carries y h.commands

pub push-Carries :
    (y : Spec) (c : TransportCommand) (h : TransportHandle)
    → FromServer y (carried c)
    → Carries y h.commands
    → Carries y (push c h).commands
push-Carries y c h f w = All-append _ h.commands (c ∷ []) w (f, tt)

pub offer-Wired :
    (y : Spec) (e : Envelope) (t : Option TransportHandle)
    → FromServer y e
    → Wired y t
    → Wired y (offer e t)
unfolding send
offer-Wired y e none f w = tt
offer-Wired y e (some h) f w = elim (Bool-cases h.closed) [
  | inl shut ↦ rw (shut, send) w
  | inr live ↦ rw (live, send) (push-Carries y (envelope e) h f w)
]

pub send_client_ack-Wired :
    (y : Spec) (t : Option TransportHandle) (expected : ℕ)
    → expected ≡ length y.accepted + 1
    → Wired y t
    → Wired y (send_client_ack t expected)
unfolding send_client_ack checked_sub
send_client_ack-Wired y t expected e w = elim (Bool-cases (ltb expected 1)) [
  | inl zero ↦ absurd (ground arith)
  | inr pos ↦
      rw (pos, send_client_ack)
        (offer-Wired y (ack client_to_server (expected - 1)) t (omega arith) w)
]

-- The frames of the buffer stand in the log under their numbers.
pub Holds-Has :
    (k : ℕ) (ps : List String) (fs : List ReplayFrame)
    → Holds k ps fs
    → All (λ f. At k ps f.sequence f.payload) fs
Holds-Has k [] [] h = tt
Holds-Has k [] (f ∷ fs) h = absurd h
Holds-Has k (p ∷ ps) [] h = absurd h
Holds-Has k (p ∷ ps) (f ∷ fs) (s, q, h) =
    (inl (s, q), All-map (λ g b. inr b) fs (Holds-Has (k + 1) ps fs h))

-- Every frame of the buffer is one that an honest server may send.
pub Inv-Has :
    (y : Spec) (fs : List ReplayFrame)
    → Holds (length y.outbox.settled + 1) y.outbox.waiting fs
    → All (λ f. FromServer y (carried (frame_command f))) fs
Inv-Has y fs h =
    All-map
      (λ f a.
        At-append_right 1 (length y.outbox.settled + 1) y.outbox.settled y.outbox.waiting f.sequence
          f.payload (omega arith) a)
      fs (Holds-Has (length y.outbox.settled + 1) y.outbox.waiting fs h)

-- What an envelope of the client can do to the transport.
abbrev pub Answered : Session → Session → Type 0
Answered s s' =
    (s'.transport ≡ s.transport)
    ⊎ (s'.transport ≡ send_client_ack s.transport s'.expected_client_sequence)
    ⊎ ((nonce : String) × (s'.transport ≡ offer (pong nonce) s.transport))

advance-Answered :
    (s s' : Session)
    → advance s ≡ ok s'
    → s'.transport ≡ send_client_ack s.transport s'.expected_client_sequence
unfolding advance
advance-Answered s s' e = ground arith

module _ (config : ServerConfig) (apply : String → Result PolicyOutcome) where
  accept_line-Answered :
      (o : PolicyOutcome) (s s' : Session) → accept_line config apply o s ≡ ok s' → Answered s s'
  unfolding accept_line write_line
  accept_line-Answered (forward line) s s' e = inr (
      inl (
        advance-Answered (record s { agent_stdin = s.agent_stdin ++ line ∷ [] }) s' (ground arith)))
  accept_line-Answered (reject line) s s' e = elim (Bool-cases (replay_fits config line s.replay)) [
    | inl fits ↦
        let (r, q, adv) =
          >>=-eq-ok (queue_server_frame line s.replay)
            (λ replay. advance (record s { replay = replay })) (rw fits at e) in
        inr (inl (advance-Answered (record s { replay = r }) s' adv))
    | inr full ↦ inl (ground arith)
  ]

  handle_frame-Answered :
      (n : ℕ) (p : String) (s s' : Session)
      → handle_frame config apply n p s ≡ ok s'
      → Answered s s'
  unfolding handle_frame
  handle_frame-Answered n p s s' e = elim (Bool-cases (ltb config.max_frame_bytes (len p))) [
    | inl long ↦ inl (ground arith)
    | inr short ↦ elim (Bool-cases (ltb s.expected_client_sequence n)) [
      | inl gap ↦ inl (ground arith)
      | inr no_gap ↦ elim (Bool-cases (ltb n s.expected_client_sequence)) [
        | inl old ↦ inr (inl (ground arith))
        | inr next ↦
            let (outcome, a, e') =
              >>=-eq-ok (apply p) (λ outcome. accept_line config apply outcome s)
                (rw (short, no_gap, next) at e) in
            accept_line-Answered outcome s s' e'
      ]
    ]
  ]

  pub handle_client_envelope-Answered :
      (m : Envelope) (s s' : Session)
      → handle_client_envelope config apply m s ≡ ok s'
      → Answered s s'
  unfolding handle_client_envelope count_inbound
  handle_client_envelope-Answered (acp (some n) p) s s' e =
      handle_frame-Answered n p (count_inbound p s) s' e
  handle_client_envelope-Answered (ping nonce) s s' e = inr (inr (nonce, ground arith))
  handle_client_envelope-Answered _ s s' e = inl (ground arith)

-- So a session that was honest stays honest.
pub Answered-Wired :
    (y : Spec) (s s' : Session)
    → s'.expected_client_sequence ≡ length y.accepted + 1
    → Answered s s'
    → Wired y s.transport
    → Wired y s'.transport
Answered-Wired y s s' e (inl same) w = rw same w
Answered-Wired y s s' e (inr (inl acked)) w =
    rw acked (send_client_ack-Wired y s.transport s'.expected_client_sequence e w)
Answered-Wired y s s' e (inr (inr (nonce, pinged))) w =
    rw pinged (offer-Wired y (pong nonce) s.transport tt w)
