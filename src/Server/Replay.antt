-- ===== src/Server/Replay.antt =====
-- src/server.rs: the buffer of ACP frames that the client has not acknowledged. The three
-- variables of the session that its functions pass about by reference stand in one record.
pub mod Refinement
use acp_tunnel.Common.{
  ℕ, ◌+◌, String, len, ◌≡◌, Bool, ◌&&◌, List, [], ◌∷◌, ◌++◌, ltb, leb, if◌then◌else◌, length,
  checked_add, saturating_add, saturating_sub,
}
use acp_tunnel.Fault.{Error, Result, ok, err, ◌>>=◌, ok_or}
use acp_tunnel.Config.{ServerConfig}

pub record ReplayFrame : Type 0 where
  pub sequence : ℕ
  pub payload : String
  pub last_sent_generation : ℕ

pub record Replay : Type 0 where
  pub pending : List ReplayFrame
  pub pending_bytes : ℕ
  pub next_sequence : ℕ

abbrev pub empty : Replay
empty = record { pending = []; pending_bytes = 0; next_sequence = 1 }

unfoldable pub replay_fits : ServerConfig → String → Replay → Bool
replay_fits config payload r =
    ltb (length r.pending) config.max_replay_frames
    && leb (saturating_add r.pending_bytes (len payload)) config.max_replay_bytes

unfoldable pub queue_server_frame : String → Replay → Result Replay
queue_server_frame payload r = do
  next ← ok_or (checked_add r.next_sequence 1) (Error.protocol "server ACP sequence exhausted")
  ok (record {
    pending =
        r.pending
        ++ record { sequence = r.next_sequence; payload = payload; last_sent_generation = 0 } ∷ [];
    pending_bytes = saturating_add r.pending_bytes (len payload);
    next_sequence = next;
  })

-- `while pending.front().is_some_and(|frame| frame.sequence <= sequence)`: the frames that stay,
-- and the bytes that they count.
abbrev pub drop_acknowledged : ℕ → List ReplayFrame → ℕ → List ReplayFrame × ℕ
drop_acknowledged sequence [] bytes = ([], bytes)
drop_acknowledged sequence (f ∷ fs) bytes =
    if leb f.sequence sequence
    then drop_acknowledged sequence fs (saturating_sub bytes (len f.payload))
    else (f ∷ fs, bytes)

unfoldable pub acknowledge : ℕ → Replay → Replay
acknowledge sequence r =
    let (pending, bytes) = drop_acknowledged sequence r.pending r.pending_bytes in
    record r { pending = pending; pending_bytes = bytes }
