-- ===== src/Client/Link/Honest.antt =====
-- What a connector writes to its socket: frames of its outbox under their numbers, and
-- acknowledgements of what it has printed.
use acp_tunnel.Common.{
  ℕ, ◌≤◌, String, len, ◌≡◌, ◌∙◌, inl, inr, none, some, List, [], ◌∷◌, ◌++◌, length, arith,
  All-append, Bool-cases, ltb, checked_add, saturating_add, saturating_sub,
}
use acp_tunnel.Fault.{Result, ok, err}
use acp_tunnel.Protocol.{
  ClientInfo, Envelope, acp, ack, client_to_server, server_to_client, ShutdownReason,
}
use acp_tunnel.Client.Socket.{
  ConnectOptions, ResumeCredentials, PendingFrame, send, Message, text, binary, Turn, open_envelope,
  reconnect,
}
use acp_tunnel.Client.Socket.Reconnect.{reconnect-Resumed}
use acp_tunnel.Client.Link.{
  Link, Outcome, running, LinkEvent, stdin_line, incoming, shutdown_received, acknowledge,
  queue_line, deliver, reconnect_and_replay, send_or_reconnect, read_line, read_frame,
  read_envelope, read_message, step,
}
use acp_tunnel.Client.Link.Refinement.{LinkSpec, LinkInv, reconnect-Same, send-Same}
use acp_tunnel.Client.Link.Moves.{>>?-eq-running, running-injective}
use acp_tunnel.Client.Link.Written.{
  FromClient, LinkGrows, Written, Written-grow, Holds-Written, frames-Written, last-Written,
}

queue_line-frame :
    (line : String) (l t : Link) (f : PendingFrame)
    → queue_line line l ≡ ok (t, f)
    → (t.socket.written ≡ l.socket.written) × (t.pending ≡ l.pending ++ f ∷ [])
unfolding queue_line checked_add
queue_line-frame line l t f e = ground arith

deliver-written :
    (n : ℕ) (p : String) (l t : Link) → deliver n p l ≡ ok t → t.socket.written ≡ l.socket.written
unfolding deliver checked_add
deliver-written n p l t e = ground arith

module _ (options : ConnectOptions) (info : ClientInfo) (credentials : ResumeCredentials)
    (shut_down : ShutdownReason → Result (Unit {0})) (now deadline : ℕ) (script : List Turn) where
  reconnect-Written :
      (z : LinkSpec) (t l' : Link)
      → LinkInv options z l'
      → l'.pending ≡ t.pending
      → reconnect_and_replay options info credentials shut_down now deadline script t ≡ running l'
      → Written z l'.socket.written
  unfolding reconnect_and_replay open_envelope
  reconnect-Written z t l' v same e =
      let got : reconnect options info credentials deadline t.pending script
          ≡ some (ok (some l'.socket)) =
        ground arith in
      rw (reconnect-Resumed options info credentials deadline t.pending l'.socket script got) (
        opening,
        frames-Written z t.pending
            (Holds-Written _ z.outbox.waiting t.pending (rw same at v.holds)),
      )
    where
      opening : FromClient z (open_envelope options info (some credentials))
      opening = unfold open_envelope in tt

  send-Written :
      (z : LinkSpec) (m : Envelope) (t l' : Link)
      → LinkInv options z l'
      → FromClient z m
      → Written z t.socket.written
      → send_or_reconnect options info credentials shut_down now deadline script m t ≡ running l'
      → Written z l'.socket.written
  unfolding send_or_reconnect send
  send-Written z m t l' v f w e =
      let same = (send-Same options info credentials shut_down now deadline script m t l' e).0 in
      elim (Bool-cases t.socket.broken) [
        | inl broken ↦ reconnect-Written z t l' v same (rw (broken, send) at e)
        | inr live ↦
            let sent : l'.socket.written ≡ t.socket.written ++ m ∷ [] = ground arith in
            rw sent (All-append (FromClient z) t.socket.written (m ∷ []) w (f, tt))
      ]

  read_line-Written :
      (x z : LinkSpec) (line : String) (l l' : Link)
      → LinkGrows x z
      → LinkInv options z l'
      → Written x l.socket.written
      → read_line options info credentials shut_down now deadline script line l ≡ running l'
      → Written z l'.socket.written
  unfolding read_line
  read_line-Written x z line l l' g v w e =
      elim (Bool-cases (ltb options.max_frame_bytes (len line))) [
        | inl long ↦ absurd (ground arith)
        | inr short ↦
            elim (Bool-cases
              (ltb options.max_replay_bytes (saturating_add l.pending_bytes (len line)))) [
                | inl full ↦ absurd (ground arith)
                | inr fits ↦
                    let ((t, f), q, sent) =
                      >>?-eq-running (queue_line line l)
                        (λ p.
                          send_or_reconnect options info credentials shut_down now deadline script
                            (acp (some p.1.sequence) p.1.payload) p.0)
                        l' (rw (short, fits) at e) in
                    let same =
                      (send-Same options info credentials shut_down now deadline script _ t l'
                        sent).0 in
                    let (made, shape) = queue_line-frame line l t f q in
                    let buffered : l'.pending ≡ l.pending ++ f ∷ [] = same ∙ shape in
                    send-Written z _ t l' v
                      (last-Written z l.pending f
                        (frames-Written z _ (Holds-Written _ _ _ (rw buffered at v.holds))))
                      (rw made (Written-grow x z l.socket.written g w)) sent
              ]
      ]

  read_frame-Written :
      (x z : LinkSpec) (n : ℕ) (p : String) (l l' : Link)
      → LinkGrows x z
      → LinkInv options z l'
      → Written x l.socket.written
      → read_frame options info credentials shut_down now deadline script n p l ≡ running l'
      → Written z l'.socket.written
  unfolding read_frame
  read_frame-Written x z n p l l' g v w e =
      elim (Bool-cases (ltb options.max_frame_bytes (len p))) [
        | inl long ↦ absurd (ground arith)
        | inr short ↦
            let (t, d, sent) =
              >>?-eq-running (deliver n p l) acknowledge_delivery l' (rw short at e) in
            let (_, _, _, counted, _) =
              send-Same options info credentials shut_down now deadline script _ t l' sent in
            send-Written z _ t l' v (delivered t counted)
              (rw (deliver-written n p l t d) (Written-grow x z l.socket.written g w)) sent
      ]
    where
      acknowledge_delivery : Link → Outcome
      acknowledge_delivery t =
          send_or_reconnect options info credentials shut_down now deadline script
            (ack server_to_client (saturating_sub t.expected_server_sequence 1)) t

      delivered :
          (t : Link)
          → l'.expected_server_sequence ≡ t.expected_server_sequence
          → saturating_sub t.expected_server_sequence 1 ≤ length z.printed
      delivered t e = ground (arith, v.expected)

  read_envelope-Written :
      (x z : LinkSpec) (m : Envelope) (l l' : Link)
      → LinkGrows x z
      → LinkInv options z l'
      → Written x l.socket.written
      → read_envelope options info credentials shut_down now deadline script m l ≡ running l'
      → Written z l'.socket.written
  unfolding read_envelope
  read_envelope-Written x z (acp (some n) p) l l' g v w e = read_frame-Written x z n p l l' g v w e
  read_envelope-Written x z (Envelope.ping nonce) l l' g v w e =
      send-Written z _ l l' v tt (Written-grow x z l.socket.written g w) e
  read_envelope-Written x z (ack client_to_server k) l l' g v w e =
      let kept : l'.socket ≡ l.socket = unfold acknowledge in ground arith in
      rw kept (Written-grow x z l.socket.written g w)
  read_envelope-Written x z m l l' g v w e =
      let kept : l'.socket ≡ l.socket = ground arith in
      rw kept (Written-grow x z l.socket.written g w)

  message_reconnects-Written :
      (x z : LinkSpec) (l l' : Link)
      → LinkGrows x z
      → LinkInv options z l'
      → Written x l.socket.written
      → reconnect_and_replay options info credentials shut_down now deadline script l ≡ running l'
      → Written z l'.socket.written
  message_reconnects-Written x z l l' g v w e =
      let same = (reconnect-Same options info credentials shut_down now deadline script l l' e).0 in
      reconnect-Written z l l' v same e

  read_message-Written :
      (x z : LinkSpec) (m : Message) (l l' : Link)
      → LinkGrows x z
      → LinkInv options z l'
      → Written x l.socket.written
      → read_message options info credentials shut_down now deadline script m l ≡ running l'
      → Written z l'.socket.written
  unfolding read_message
  read_message-Written x z (text (ok m)) l l' g v w e = read_envelope-Written x z m l l' g v w e
  read_message-Written x z (text (err m)) l l' g v w e = cc
  read_message-Written x z Message.ping l l' g v w e = elim (Bool-cases l.socket.broken) [
    | inl broken ↦ message_reconnects-Written x z l l' g v w (rw broken at e)
    | inr live ↦
        let kept : l'.socket.written ≡ l.socket.written = ground arith in
        rw kept (Written-grow x z l.socket.written g w)
  ]
  read_message-Written x z Message.pong l l' g v w e =
      rw (← running-injective l l' e) (Written-grow x z l.socket.written g w)
  read_message-Written x z Message.close l l' g v w e = message_reconnects-Written x z l l' g v w e
  read_message-Written x z binary l l' g v w e = cc

  -- A round of the connector that takes an abstract connector to a later one has written only
  -- honest envelopes to the socket in use, also where it reconnected: every frame is a line that
  -- was read, under its number, and every acknowledgement is of payloads that were printed.
  pub step-Written :
      (x z : LinkSpec) (event : LinkEvent) (l l' : Link)
      → LinkGrows x z
      → LinkInv options z l'
      → Written x l.socket.written
      → step options info credentials shut_down now deadline script event l ≡ running l'
      → Written z l'.socket.written
  unfolding step
  step-Written x z (stdin_line (some (ok line))) l l' g v w e =
      read_line-Written x z line l l' g v w e
  step-Written x z (stdin_line (some (err m))) l l' g v w e = cc
  step-Written x z (stdin_line none) l l' g v w e = cc
  step-Written x z (incoming (some (ok m))) l l' g v w e =
      read_message-Written x z m (record l { last_received = now }) l' g v w e
  step-Written x z (shutdown_received reason) l l' g v w e = cc
  step-Written x z _ l l' g v w e = message_reconnects-Written x z l l' g v w e
