-- ===== src/Process/Table/Views.antt =====
-- `snapshot` and `query` of src/process.rs show one and the same table.
use mathlib.Core.Option
use mesh_supervisor.Prelude.{nat_eq, option_ok, ◌≡◌, refl, Bool, [], ◌∷◌, arith}
use mesh_supervisor.Map.{Map, lookup}
use mesh_supervisor.Proto.{Handle, not_found}
use mesh_supervisor.Process.State.{ProcEntry, info, Manager}
use mesh_supervisor.Process.Table.{Readings, fill_usage, keyed_infos, snapshot, query}
use mesh_supervisor.Store.Database.{Disk}
use mesh_supervisor.Store.Sort.{Ascending, sort_by_key-Ascending, lookup-sort_by_key}

lookup-keyed_infos :
    (cgroups : Bool) (usage : Readings) (procs : Map Handle ProcEntry) (id : Handle)
    → lookup id (keyed_infos cgroups usage procs)
      ≡ Option.map (λ e. fill_usage cgroups usage (info e id)) (lookup id procs)
unfolding lookup keyed_infos
lookup-keyed_infos cgroups usage [] id = refl
lookup-keyed_infos cgroups usage ((h, e) ∷ rest) id =
    ground (arith, lookup-keyed_infos cgroups usage rest id)

module _ (d : Disk) where
  -- A handle's `query` is its entry in the `snapshot` of the same moment, and is refused exactly
  -- when the snapshot has no such entry; the snapshot is in ascending order of the handles.
  pub query-snapshot :
      (m : Manager d) (usage : Readings) (id : Handle)
      → (query d m usage id ≡ option_ok (not_found id) (lookup id (snapshot d m usage)))
        × Ascending 0 (snapshot d m usage)
  unfolding query snapshot
  query-snapshot m usage id = (
    rw
        (
          lookup-sort_by_key id (keyed_infos m.cgroups usage m.procs),
          lookup-keyed_infos m.cgroups usage m.procs id,
        )
        (ground arith),
    sort_by_key-Ascending (keyed_infos m.cgroups usage m.procs),
  )
