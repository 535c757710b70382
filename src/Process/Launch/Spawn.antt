-- ===== src/Process/Launch/Spawn.antt =====
-- `spawn` of src/process.rs: handles are never reused, and other processes are left alone.
use mesh_supervisor.Prelude.{
  nat_beq, if◌then◌else◌, Option-cases, nat_eq, ℕ, ◌+◌, ◌^◌, ◌≤◌, ◌<◌, ◌≡◌, refl, ap, inl, inr,
  none, some, arith,
}
use mesh_supervisor.Map.{insert, lookup}
use mesh_supervisor.Map.Laws.{lookup-insert}
use mesh_supervisor.Proto.{Handle, Spec}
use mesh_supervisor.Process.State.{ProcEntry, Launched, Manager}
use mesh_supervisor.Process.Launch.{spawn, new_entry, next_id}
use mesh_supervisor.Store.Database.{Disk}

-- No handle of the table is above the counter.
pub record IsCounted {d : Disk} (m : Manager d) : Type 0 where
  pub counted : (h : Handle) (e : ProcEntry) → lookup h m.procs ≡ some e → h ≤ m.next

-- The counter has not come to the end of u64.
abbrev pub HasRoom : {d : Disk} → Manager d → Type 0
HasRoom m = m.next + 1 < 2 ^ 64

module _ (d : Disk) where
  pub unused : (m : Manager d) → IsCounted m → HasRoom m → lookup (next_id d m) m.procs ≡ none
  unused m v room = elim (Option-cases (lookup (next_id d m) m.procs)) [
    | inl free ↦ free
    | inr (e, at) ↦ absurd (omega (arith, v.counted (next_id d m) e at))
  ]

  pub no_wrap : (m : Manager d) → HasRoom m → next_id d m ≡ m.next + 1
  no_wrap m room = omega arith

  pub insert-IsCounted :
      (m m' : Manager d) (l : Launched)
      → IsCounted m
      → HasRoom m
      → m'.next ≡ next_id d m
      → m'.procs ≡ insert (next_id d m) (new_entry d l) m.procs
      → IsCounted m'
  insert-IsCounted m m' l v room n p = record {
    counted = λ h e at. ground (
      arith,
      no_wrap m room,
      lookup-insert (next_id d m) h (new_entry d l) m.procs,
      ap (lookup h) p,
      v.counted h e,
    );
  }

  -- In a table with no handle above the counter, and a counter that has not come to the end of
  -- u64, a spawn that launches answers with a handle that no entry had, one above the counter; it
  -- adds a running, armed entry with the child's pid there and changes no other entry. The counter
  -- stays at or above every handle.
  pub spawn_tracks :
      (m : Manager d) (spec : Spec) (l : Launched)
      → IsCounted m
      → HasRoom m
      → let m' = (spawn d m spec (some l)).0 in
        ((spawn d m spec (some l)).1 ≡ some (m.next + 1, l.pid))
        × (lookup (m.next + 1) m.procs ≡ none)
        × ((j : Handle)
            → lookup j m'.procs
              ≡ (if nat_beq (m.next + 1) j then some (new_entry d l) else lookup j m.procs))
        × IsCounted m'
  unfolding spawn
  spawn_tracks m spec l v room = (
    ap (λ (n : ℕ). some (n, l.pid)) (no_wrap m room),
    rw (← no_wrap m room) (unused m v room),
    λ j. rw (lookup-insert (next_id d m) j (new_entry d l) m.procs, no_wrap m room),
    insert-IsCounted m _ l v room refl refl,
  )

  -- A spawn that fails leaves the table and the store as they were, and uses up its handle.
  pub spawn_fails :
      (m : Manager d) (spec : Spec)
      → let r = spawn d m spec none in
        (r.1 ≡ none) × (r.0.procs ≡ m.procs) × (r.0.store ≡ m.store) × (r.0.next ≡ next_id d m)
  unfolding spawn
  spawn_fails m spec = ground arith
