-- ===== src/Process/Table.antt =====
-- src/process.rs: the operations that read or edit the process table. Each takes the table lock
-- once; cgroup readings are taken after it.
pub mod Views
pub mod Forget
use mesh_supervisor.Prelude.{
  if◌then◌else◌, nat_eq, Result, option_ok, ◌>>=◌, ok, err, String, Bool, false, ◌&&◌, ◌||◌, Option,
  List, [], ◌∷◌,
}
use mesh_supervisor.Map.{Map, lookup, remove, keys}
use mesh_supervisor.Proto.{
  Handle, ProcInfo, Usage, ControlError, not_found, bad_request, is_running,
}
use mesh_supervisor.Process.State.{ProcEntry, Stdout, info, Manager}
use mesh_supervisor.Process.Launch.{best_effort}
use mesh_supervisor.Store.Database.{Disk}
use mesh_supervisor.Store.Sort.{sort_by_key}
use mesh_supervisor.Store

-- What `cg.usage(handle)` reads at the time of the call.
abbrev pub Readings : Type 0
Readings = Handle → Option Usage

-- `fill_usage`
unfoldable pub fill_usage : Bool → Readings → ProcInfo → ProcInfo
fill_usage cgroups usage i =
    if is_running i.state && cgroups then record i { usage = usage i.handle } else i

unfoldable pub keyed_infos : Bool → Readings → Map Handle ProcEntry → List (Handle × ProcInfo)
unfolding fill_usage info
keyed_infos cgroups usage [] = []
keyed_infos cgroups usage ((h, p) ∷ rest) =
    (h, fill_usage cgroups usage (info p h)) ∷ keyed_infos cgroups usage rest

-- `map.get(&id).ok_or(ControlError::NotFound(id))`
unfoldable pub entry_of : Map Handle ProcEntry → Handle → Result ControlError ProcEntry
entry_of procs id = option_ok (not_found id) (lookup id procs)

abbrev pub forget_message : String
forget_message = "cannot forget a running process"

module _ (d : Disk) where
  -- `list`
  unfoldable pub list : Manager d → List Handle
  list m = keys (sort_by_key m.procs)

  -- `snapshot`, with the handle beside each info.
  unfoldable pub snapshot : Manager d → Readings → List (Handle × ProcInfo)
  unfolding keyed_infos
  snapshot m usage = sort_by_key (keyed_infos m.cgroups usage m.procs)

  -- `query`
  unfoldable pub query : Manager d → Readings → Handle → Result ControlError ProcInfo
  unfolding entry_of fill_usage info
  query m usage id = do entry ← entry_of m.procs id; ok (fill_usage m.cgroups usage (info entry id))

  -- `subscribe`: the channel to listen on.
  unfoldable pub subscribe : Manager d → Handle → Result ControlError Stdout
  unfolding entry_of
  subscribe m id = do entry ← entry_of m.procs id; ok entry.stdout

  unfoldable pub drop_entry : Manager d → Handle → ProcEntry → Result ControlError (Manager d)
  unfolding best_effort
  drop_entry m id entry =
      if is_running entry.status
      then err (bad_request forget_message)
      else ok (record m {
        procs = remove id m.procs;
        store = best_effort (λ db. Store.remove d db id) m.store;
      })

  -- `forget`: the manager after it, or why it is refused.
  unfoldable pub forget : Manager d → Handle → Result ControlError (Manager d)
  unfolding entry_of drop_entry
  forget m id = do entry ← entry_of m.procs id; drop_entry m id entry

  -- `any_running`
  unfoldable pub any_running : Map Handle ProcEntry → Bool
  any_running [] = false
  any_running ((h, p) ∷ rest) = is_running p.status || any_running rest
