-- ===== src/Supervisor/Stream.antt =====
-- src/supervisor.rs: the loop of `subscribe` that copies a process's stdout to the client.
use mesh_supervisor.Prelude.{if◌then◌else◌, nat_eq, ℕ, Bool, true, false, List, [], ◌∷◌, ◌++◌}
use mesh_supervisor.Proto.Frame.{Bytes}

-- What `rx.recv` gives.
pub data Received : Type 0 where
  chunk : Bytes → Received
  closed : Received
  lagged_by : ℕ → Received

-- The bytes that are written, and whether the loop ends with the channel, when `takes` says which
-- writes succeed.
unfoldable pub stream_chunks : (Bytes → Bool) → List Received → Bytes × Bool
stream_chunks takes [] = ([], false)
stream_chunks takes (closed ∷ later) = ([], true)
stream_chunks takes (lagged_by n ∷ later) = stream_chunks takes later
stream_chunks takes (chunk c ∷ later) =
    let (rest, ended) = stream_chunks takes later in
    if takes c then (c ++ rest, ended) else ([], false)
