-- ===== src/Process/Pump.antt =====
-- src/process.rs: the task of `launch_child` that pumps a child's stdout into a broadcast channel.
-- tokio's channel is outside the model: how many receivers it has at a read is given with the read.
pub mod Forwarding
use mesh_supervisor.Prelude.{nat_beq, if◌then◌else◌, nat_eq, is_empty, ℕ, List, [], ◌∷◌, ◌++◌}
use mesh_supervisor.Proto.Frame.{Bytes}

-- What `read_buf` gives: the bytes it adds to the buffer, none of them at the end of stdout.
pub data Read : Type 0 where
  bytes : Bytes → Read
  broken : Read

-- The chunks that are sent, from the buffer before the reads and the receivers at each of them.
unfoldable pub pump : Bytes → List (Read × ℕ) → List Bytes
pump buf [] = []
pump buf ((broken, receivers) ∷ later) = []
pump buf ((bytes more, receivers) ∷ later) =
    let rest = pump [] later in
    if is_empty more then [] else if nat_beq receivers 0 then rest else (buf ++ more) ∷ rest
