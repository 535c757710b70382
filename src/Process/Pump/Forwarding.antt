-- ===== src/Process/Pump/Forwarding.antt =====
-- What becomes of a child's stdout on its way through src/process.rs and src/supervisor.rs.
use mesh_supervisor.Prelude.{
  nat_beq, nat_eq, All, ℕ, ◌≤◌, ◌≡◌, refl, Bool, true, false, List, [], ◌∷◌, ◌++◌, map, arith,
}
use mesh_supervisor.Supervisor.Stream.{closed, chunk, Received, stream_chunks}
use mesh_supervisor.Process.Pump.{broken, bytes, pump, Read}
use mesh_supervisor.Proto.Frame.{Bytes}

-- All that is read before stdout ends or breaks.
abbrev pub printed : List (Read × ℕ) → Bytes
printed [] = []
printed ((broken, receivers) ∷ later) = []
printed ((bytes [], receivers) ∷ later) = []
printed ((bytes (b ∷ more), receivers) ∷ later) = (b ∷ more) ++ printed later

-- The entry of the table holds a receiver itself, so that a child in the table has one at least.
abbrev pub IsHeard : List (Read × ℕ) → Type 0
IsHeard reads = All (λ r. 1 ≤ r.1) reads

-- A receiver that keeps up is given each chunk, and then the end of the channel.
abbrev pub delivered : List Bytes → List Received
delivered chunks = map chunk chunks ++ (closed ∷ [])

-- While some receiver is there, the one of the table's entry or another, a subscriber from the
-- start who does not lag is written all that the child prints, in order and without a gap, and its
-- stream ends with the child's stdout; `takes` succeeds on every write.
pub stdout_arrives :
    (takes : Bytes → Bool) (reads : List (Read × ℕ))
    → ((c : Bytes) → takes c ≡ true)
    → IsHeard reads
    → stream_chunks takes (delivered (pump [] reads)) ≡ (printed reads, true)
unfolding stream_chunks pump
stdout_arrives takes [] works heard = refl
stdout_arrives takes ((broken, n) ∷ later) works heard = refl
stdout_arrives takes ((bytes [], n) ∷ later) works heard = refl
stdout_arrives takes ((bytes (b ∷ more), n) ∷ later) works heard =
    let some_one : nat_beq n 0 ≡ false = ground (arith, heard.0) in
    rw (some_one, works (b ∷ more), stdout_arrives takes later works heard.1) refl
