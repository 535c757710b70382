-- ===== src/Process/Table/Forget.antt =====
-- `forget` of src/process.rs on every branch.
use mesh_supervisor.Prelude.{
  nat_beq, if◌then◌else◌, nat_eq, Result, >>=-eq-ok, ok, err, ◌≡◌, refl, Bool, true, false, Option,
  none, some, arith,
}
use mesh_supervisor.Map.{lookup, remove}
use mesh_supervisor.Map.Laws.{lookup-remove}
use mesh_supervisor.Proto.{Handle, ControlError, not_found, bad_request, is_running}
use mesh_supervisor.Process.State.{ProcEntry, Manager}
use mesh_supervisor.Process.Table.{entry_of, drop_entry, forget, forget_message}
use mesh_supervisor.Store.Database.{Disk}

-- The three outcomes of a `forget`.
pub data Forgets {d : Disk} (m : Manager d) (id : Handle) (r : Result ControlError (Manager d))
    : Type 0 where
  unknown : lookup id m.procs ≡ none → r ≡ err (not_found id) → Forgets m id r
  refused :
      (e : ProcEntry)
      → lookup id m.procs ≡ some e
      → is_running e.status ≡ true
      → r ≡ err (bad_request forget_message)
      → Forgets m id r
  dropped :
      (e : ProcEntry) (m' : Manager d)
      → lookup id m.procs ≡ some e
      → is_running e.status ≡ false
      → r ≡ ok m'
      → ((j : Handle) → lookup j m'.procs ≡ (if nat_beq id j then none else lookup j m.procs))
      → m'.next ≡ m.next
      → Forgets m id r

module _ (d : Disk) where
  drop-Forgets :
      (m : Manager d) (id : Handle) (e : ProcEntry) (b : Bool)
      → lookup id m.procs ≡ some e
      → is_running e.status ≡ b
      → Forgets m id (drop_entry d m id e)
  unfolding drop_entry
  drop-Forgets m id e true at runs = refused e at runs (ground (arith, runs))
  drop-Forgets m id e false at gone =
      rw gone (dropped e _ at gone refl (λ j. lookup-remove id j m.procs) refl)

  -- `forget` refuses a handle that is not tracked and a process that runs; otherwise it drops the
  -- entry of its handle and no other, and leaves the counter alone.
  pub forget-Forgets : (m : Manager d) (id : Handle) → Forgets m id (forget d m id)
  unfolding forget
  forget-Forgets m id = by_entry (lookup id m.procs) refl
    where
      by_entry : (o : Option ProcEntry) → lookup id m.procs ≡ o → Forgets m id (forget d m id)
      by_entry none at = unknown at (ground (arith, at))
      by_entry (some e) at = rw (at) (drop-Forgets m id e (is_running e.status) at refl)

  drop-parts :
      (m m' : Manager d) (id : Handle) (e : ProcEntry)
      → drop_entry d m id e ≡ ok m'
      → (m'.procs ≡ remove id m.procs) × (m'.next ≡ m.next) × (m'.shutdown ≡ m.shutdown)
  unfolding drop_entry
  drop-parts m m' id e h = ground arith

  -- The shape of the manager after a `forget`.
  pub forget-parts :
      (m m' : Manager d) (id : Handle)
      → forget d m id ≡ ok m'
      → (m'.procs ≡ remove id m.procs) × (m'.next ≡ m.next) × (m'.shutdown ≡ m.shutdown)
  unfolding forget
  forget-parts m m' id e =
      let (entry, p, q) = >>=-eq-ok (entry_of m.procs id) _ e in drop-parts m m' id entry q
