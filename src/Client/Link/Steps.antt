-- ===== src/Client/Link/Steps.antt =====
-- Each branch of the connector's loop makes a move of the abstract connector.
use acp_tunnel.Common.{
  ℕ, ◌<◌, String, len, ◌≡◌, refl, inl, inr, true, none, some, List, arith, u64_max, Bool-cases, ltb,
  leb, saturating_add, saturating_sub,
}
use acp_tunnel.Cause.{hears, reads}
use acp_tunnel.Fault.{Result, ok, err}
use acp_tunnel.Protocol.{
  ClientInfo, Envelope, acp, ack, client_to_server, server_to_client, ShutdownReason,
}
use acp_tunnel.Client.Socket.{ConnectOptions, ResumeCredentials, PendingFrame, Message, text, Turn}
use acp_tunnel.Client.Link.{
  Link, Outcome, running, LinkEvent, stdin_line, incoming, shutdown_received, acknowledge,
  queue_line, deliver, can_read_stdin, reconnect_and_replay, send_or_reconnect, read_line,
  read_frame, read_envelope, read_message, step,
}
use acp_tunnel.Client.Link.Refinement.{
  LinkSpec, LinkInv, LinkSimulated, SameLink-Inv, reconnect-Same, send-Same,
}
use acp_tunnel.Client.Link.Moves.{
  >>?-eq-running, running-injective, fits_below, queue_line-eq-ok, message_cause, link_cause,
  keep-Simulated, queued-Simulated, deliver-Simulated, acknowledge-Simulated,
}

module _ (options : ConnectOptions) where
  module _ (info : ClientInfo) (credentials : ResumeCredentials)
      (shut_down : ShutdownReason → Result (Unit {0})) (now deadline : ℕ) (script : List Turn) where
    abbrev send_frame : Link → PendingFrame → Outcome
    send_frame t f =
        send_or_reconnect options info credentials shut_down now deadline script
          (acp (some f.sequence) f.payload) t

    read_line-Simulated :
        (x : LinkSpec) (line : String) (l l' : Link)
        → options.max_replay_bytes < u64_max
        → LinkInv options x l
        → can_read_stdin options info credentials shut_down l ≡ true
        → read_line options info credentials shut_down now deadline script line l ≡ running l'
        → LinkSimulated options x (reads line) l'
    unfolding read_line can_read_stdin
    read_line-Simulated x line l l' small v h e =
        elim (Bool-cases (ltb options.max_frame_bytes (len line))) [
          | inl long ↦ absurd (ground arith)
          | inr short ↦
              elim (Bool-cases
                (ltb options.max_replay_bytes (saturating_add l.pending_bytes (len line)))) [
                  | inl full ↦ absurd (ground arith)
                  | inr fits ↦
                      let ((t, f), q, sent) =
                        >>?-eq-running (queue_line line l) (λ p. send_frame p.0 p.1) l'
                          (rw (short, fits) at e) in
                      let same =
                        send-Same options info credentials shut_down now deadline script _ t l'
                          sent in
                      queued-Simulated options x line l l' small v (ground arith)
                        (fits_below _ _ _ small fits) (rw (queue_line-eq-ok line l t f q) at same)
                ]
        ]

    read_frame-Simulated :
        (x : LinkSpec) (n : ℕ) (p : String) (l l' : Link)
        → LinkInv options x l
        → read_frame options info credentials shut_down now deadline script n p l ≡ running l'
        → LinkSimulated options x (hears (acp (some n) p)) l'
    unfolding read_frame
    read_frame-Simulated x n p l l' v e = elim (Bool-cases (ltb options.max_frame_bytes (len p))) [
      | inl long ↦ absurd (ground arith)
      | inr short ↦
          let (t, d, sent) =
            >>?-eq-running (deliver n p l) acknowledge_delivery l' (rw short at e) in
          deliver-Simulated options x n p l t l' v d
            (send-Same options info credentials shut_down now deadline script _ t l' sent)
    ]
      where
        acknowledge_delivery : Link → Outcome
        acknowledge_delivery t =
            send_or_reconnect options info credentials shut_down now deadline script
              (ack server_to_client (saturating_sub t.expected_server_sequence 1)) t

    read_envelope-Simulated :
        (x : LinkSpec) (m : Envelope) (l l' : Link)
        → LinkInv options x l
        → read_envelope options info credentials shut_down now deadline script m l ≡ running l'
        → LinkSimulated options x (hears m) l'
    unfolding read_envelope
    read_envelope-Simulated x (acp (some n) p) l l' v e = read_frame-Simulated x n p l l' v e
    read_envelope-Simulated x (ack client_to_server k) l l' v e =
        elim (Bool-cases (leb l.next_client_sequence k)) [
          | inl unsent ↦ absurd (ground arith)
          | inr fine ↦
              rw (← running-injective (acknowledge k l) l' (rw fine at e))
                (acknowledge-Simulated options x k l v (ground arith))
        ]
    read_envelope-Simulated x (Envelope.ping nonce) l l' v e =
        keep-Simulated options x l l' v tt
          (send-Same options info credentials shut_down now deadline script _ l l' e)
    read_envelope-Simulated x _ l l' v e = keep-Simulated options x l l' v tt (ground arith)

    read_message-Simulated :
        (x : LinkSpec) (m : Message) (l l' : Link)
        → LinkInv options x l
        → read_message options info credentials shut_down now deadline script m l ≡ running l'
        → LinkSimulated options x (message_cause m) l'
    unfolding read_message reconnect_and_replay
    read_message-Simulated x (text (ok e)) l l' v r = read_envelope-Simulated x e l l' v r
    read_message-Simulated x (text (err e)) l l' v r = cc
    read_message-Simulated x _ l l' v r = keep-Simulated options x l l' v tt (ground arith)

    -- The guard of the branch that an event takes.
    abbrev pub Allowed : LinkEvent → Link → Type 0
    Allowed (stdin_line _) l = can_read_stdin options info credentials shut_down l ≡ true
    Allowed _ l = Unit

    -- Where the connector refines an abstract connector and its loop takes an allowed event and
    -- goes on, it has made one move of the abstract connector: it queued the line that it read,
    -- settled what the server acknowledged, printed the payload that it expected next, or did none
    -- of these; and its replay buffer still holds what is not acknowledged, within its limits of
    -- frames and bytes.
    pub step-Simulated :
        (x : LinkSpec) (event : LinkEvent) (l l' : Link)
        → options.max_replay_bytes < u64_max
        → LinkInv options x l
        → Allowed event l
        → step options info credentials shut_down now deadline script event l ≡ running l'
        → LinkSimulated options x (link_cause event) l'
    unfolding step
    step-Simulated x (stdin_line (some (ok line))) l l' small v on e =
        read_line-Simulated x line l l' small v on e
    step-Simulated x (stdin_line (some (err m))) l l' small v on e = cc
    step-Simulated x (stdin_line none) l l' small v on e = cc
    step-Simulated x (incoming (some (ok m))) l l' small v on e =
        read_message-Simulated x m (record l { last_received = now }) l'
          (SameLink-Inv options x l _ v (refl, refl, refl, refl, refl)) e
    step-Simulated x (shutdown_received reason) l l' small v on e = cc
    step-Simulated x _ l l' small v on e =
        keep-Simulated options x l l' v tt
          (reconnect-Same options info credentials shut_down now deadline script l l' e)
