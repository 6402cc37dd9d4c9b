-- ===== src/Client/Socket/Reconnect.antt =====
-- src/client.rs: what a connector that gets its session back has sent on the new socket.
use acp_tunnel.Common.{
  ℕ, zero, suc, ◌≡◌, refl, ap, ◌∙◌, inl, inr, true, Option, none, some, List, [], ◌∷◌, ◌++◌, map,
  append_assoc, append-nil, arith, Bool-cases, Option-cases, leb,
}
use acp_tunnel.Fault.{Result, ok, err, >>=-eq-ok}
use acp_tunnel.Protocol.{ClientInfo, Envelope, open_tunnel, tunnel_version}
use acp_tunnel.Client.Socket.{
  ConnectOptions, ResumeCredentials, PendingFrame, Socket, frame_envelope, Reply, open_envelope,
  read_reply, open_socket, replay, Attempt, shut, tried, Turn, same_credentials, after_pause,
  judge_attempt, reconnect,
}

replay-eq-some :
    (b : Option ℕ) (s s' : Socket) (fs : List PendingFrame)
    → replay b s fs ≡ some s'
    → s'.written ≡ s.written ++ map frame_envelope fs
unfolding replay
replay-eq-some none s s' fs e = ground arith
replay-eq-some (some n) s s' [] e = ground (arith, append-nil s.written)
replay-eq-some (some zero) s s' (f ∷ fs) e = cc
replay-eq-some (some (suc n)) s s' (f ∷ fs) e =
    replay-eq-some (some n) (record s { written = s.written ++ frame_envelope f ∷ [] }) s' fs e
    ∙ append_assoc s.written (frame_envelope f ∷ []) (map frame_envelope fs)

module _ (options : ConnectOptions) (info : ClientInfo) (credentials : ResumeCredentials) where
  -- What asks for the session back: its own credentials, and nothing of the environment.
  abbrev pub resume_request : Envelope
  resume_request = open_tunnel tunnel_version options.agent options.workspace info [] (
      some (record {
        connection_id = credentials.connection_id;
        resume_token = credentials.resume_token;
      }))

  -- The socket of a session that was resumed.
  abbrev pub Resumed : List PendingFrame → Socket → Type 0
  Resumed pending s = s.written ≡ resume_request ∷ map frame_envelope pending

  open_socket-written :
      (reply : Reply) (s : Socket) (returned : ResumeCredentials)
      → open_socket options info (some credentials) reply ≡ ok (s, returned)
      → s.written ≡ resume_request ∷ []
  unfolding open_socket open_envelope
  open_socket-written reply s returned e =
      let (c, _, e') = >>=-eq-ok (read_reply options info true reply) _ e in ground arith

  judge_attempt-Resumed :
      (pending : List PendingFrame) (accepts : Option ℕ) (reply : Reply)
      (r : Result (Socket × ResumeCredentials)) (s : Socket)
      → open_socket options info (some credentials) reply ≡ r
      → judge_attempt credentials pending accepts r ≡ some (ok (some s))
      → Resumed pending s
  unfolding judge_attempt
  judge_attempt-Resumed pending accepts reply (err m) s o e = cc
  judge_attempt-Resumed pending accepts reply (ok (s0, returned)) s o e =
      elim (Bool-cases (same_credentials returned credentials)) [
        | inr changed ↦ absurd (ground arith)
        | inl same ↦ elim (Option-cases (replay accepts s0 pending)) [
          | inl broke ↦ absurd (ground arith)
          | inr (s1, done) ↦
              let it : s1 ≡ s = ground arith in
              rw (← it) (
                replay-eq-some accepts s0 s1 pending done
                ∙ ap (λ w. w ++ map frame_envelope pending)
                    (open_socket-written reply s0 returned o))
        ]
      ]

  after_pause-cases :
      (p : Option (Result (Unit {0}))) (rest : Option (Result (Option Socket))) (s : Socket)
      → after_pause p rest ≡ some (ok (some s))
      → rest ≡ some (ok (some s))
  after_pause-cases none rest s e = e
  after_pause-cases (some (ok _)) rest s e = cc
  after_pause-cases (some (err _)) rest s e = cc

  module _ (deadline : ℕ) (pending : List PendingFrame) (s : Socket) where
    -- One turn, given what holds of the turns after it.
    turn-Resumed :
        (t : Turn) (ts : List Turn) (a : Attempt)
        → t.attempt ≡ a
        → (reconnect options info credentials deadline pending ts ≡ some (ok (some s))
            → Resumed pending s)
        → reconnect options info credentials deadline pending (t ∷ ts) ≡ some (ok (some s))
        → Resumed pending s
    unfolding reconnect
    turn-Resumed t ts (shut (ok _)) q ih e = absurd (ground arith)
    turn-Resumed t ts (shut (err _)) q ih e = absurd (ground arith)
    turn-Resumed t ts (tried reply accepts pause) q ih e =
        elim (Bool-cases (leb deadline t.starts)) [
          | inl late ↦ absurd (ground arith)
          | inr early ↦
              elim (Option-cases (
                judge_attempt credentials pending accepts
                  (open_socket options info (some credentials) reply))) [
                    | inr (result, j) ↦
                        judge_attempt-Resumed pending accepts reply _ s refl
                          (j ∙ rw (q, early, j, reconnect) at e)
                    | inl j ↦ elim (Bool-cases (leb deadline t.ends)) [
                      | inl over ↦ absurd (ground arith)
                      | inr left ↦
                          ih (after_pause-cases pause _ s (rw (q, early, j, left, reconnect) at e))
                    ]
                  ]
        ]

    -- Whatever attempts failed before, a socket that reconnecting comes back with has sent a
    -- request for the same agent and workspace, with no environment, that asks to resume with the
    -- session's own credentials, and then every pending frame in order, and nothing else.
    pub reconnect-Resumed :
        (script : List Turn)
        → reconnect options info credentials deadline pending script ≡ some (ok (some s))
        → Resumed pending s
    unfolding reconnect
    reconnect-Resumed [] e = cc
    reconnect-Resumed (t ∷ ts) e = turn-Resumed t ts t.attempt refl (reconnect-Resumed ts) e
