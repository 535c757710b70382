-- ===== src/Process/Launch/Reloaded.antt =====
-- The manager that `with_store` of src/process.rs builds from what src/store.rs loads.
use mesh_supervisor.Prelude.{
  Option-cases, nat_eq, ok, ℕ, ◌≤◌, ◌≡◌, refl, sym, ◌∙◌, inl, inr, Bool, false, some, List, [], ◌∷◌,
  arith,
}
use mesh_supervisor.Process.Launch.Spawn.{IsCounted}
use mesh_supervisor.Map.Laws.{lookup-insert}
use mesh_supervisor.Store.Reload.{load-IsLoadOf, IsLoadOf}
use mesh_supervisor.Map.{Map, insert, lookup}
use mesh_supervisor.Store.{load, Loaded}
use mesh_supervisor.Process.Record.{Record, reloaded}
use mesh_supervisor.Proto.{exited, running, stale, ProcState, is_running, Handle}
use mesh_supervisor.Process.Launch.{with_store, stale_entries}
use mesh_supervisor.Process.State.{ProcEntry, stale_entry}
use mesh_supervisor.Process.Signals.{send_all, kill_all_first, live_pids}
use mesh_supervisor.Store.Database.{IsDisk, Disk}
use mathlib.Core.Option

module _ (d : Disk) where
  stale_idle : (rec : Record) → is_running (stale_entry rec).status ≡ false
  unfolding stale_entry reloaded
  stale_idle rec = by_status rec.status
    where
      by_status : (s : ProcState) → is_running (reloaded s) ≡ false
      by_status running = refl
      by_status (exited code) = refl
      by_status stale = refl

  lookup-stale_entries :
      (recs : List (Handle × Record)) (h : Handle)
      → lookup h (stale_entries d recs) ≡ Option.map stale_entry (lookup h recs)
  unfolding stale_entries lookup
  lookup-stale_entries [] h = refl
  lookup-stale_entries ((id, rec) ∷ rest) h =
      rw (lookup-insert id h (stale_entry rec) (stale_entries d rest), lookup-stale_entries rest h)
        (ground arith)

  live_pids-insert :
      (h : Handle) (e : ProcEntry) (procs : Map Handle ProcEntry)
      → is_running e.status ≡ false
      → live_pids procs ≡ []
      → live_pids (insert h e procs) ≡ []
  unfolding live_pids insert
  live_pids-insert h e [] idle none_live = rw idle refl
  live_pids-insert h e ((j, x) ∷ rest) idle none_live = ground (arith, live_pids-insert h e rest)

  live_pids-stale_entries : (recs : List (Handle × Record)) → live_pids (stale_entries d recs) ≡ []
  unfolding stale_entries live_pids
  live_pids-stale_entries [] = refl
  live_pids-stale_entries ((id, rec) ∷ rest) =
      live_pids-insert id (stale_entry rec) (stale_entries d rest) (stale_idle rec)
        (live_pids-stale_entries rest)

module _ (d : Disk) (laws : IsDisk d) where
  loaded_below :
      (db : d.Db) (l : Loaded) (h : Handle) (e : ProcEntry)
      → IsLoadOf d db l
      → lookup h (stale_entries d l.records) ≡ some e
      → h ≤ l.next_handle
  loaded_below db l h e v at = elim (Option-cases (lookup h l.records)) [
    | inl gone ↦ absurd (ground (arith, lookup-stale_entries d l.records h, gone, at))
    | inr (rec, there) ↦ v.above h rec (sym (v.finds h) ∙ there)
  ]

  -- A supervisor that starts from what a successful `load` returned treats no process as live, so
  -- that a shutdown signals nobody, whatever pids the records hold, and its counter is at or above
  -- every handle of its table.
  pub load-with_store :
      (db : d.Db) (l : Loaded) (cgroups : Bool) (stop_deadline : ℕ)
      → load d db ≡ ok l
      → let m = with_store d db l cgroups stop_deadline in
        ((kill_all_first d m).2 ≡ []) × IsCounted m
  unfolding with_store kill_all_first send_all
  load-with_store db l cgroups stop_deadline e = (
    rw (live_pids-stale_entries d l.records) refl,
    record { counted = λ h x at. loaded_below db l h x (load-IsLoadOf d laws db l e) at },
  )
