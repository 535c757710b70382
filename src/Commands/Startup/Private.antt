-- ===== src/Commands/Startup/Private.antt =====
-- The file of the store that `run_supervise` of src/commands.rs keeps the node's key in.
use mesh_supervisor.Commands.Startup.{
  at_file, Outside, SuperviseArgs, start, Running, new_supervisor,
}
use mesh_supervisor.Commands.Startup.Ready.{start-IsStarted}
use mesh_supervisor.Prelude.{>>=-eq-ok, ok-injective, ok, String, ◌≡◌, ap, ◌∙◌, some}
use mesh_supervisor.Process.Launch.{with_store}
use mesh_supervisor.Store
use mesh_supervisor.Store.Files.{Files, IsFiles, OpenStore, open_at}
use mesh_supervisor.Store.Files.Private.{IsPrivate, open_at-IsPrivate}
use mesh_supervisor.Store.Database.{Disk, IsDisk}
use mesh_supervisor.Supervisor.{Supervisor}
use mesh_supervisor.Cgroup.{Fs}

-- The key that a supervisor runs with is the one of the store that was opened, or was put there
-- first, and the supervisor keeps its records in that store.
pub record KeepsKey {d : Disk} (o : Outside d) (opened : OpenStore d) (r : Running d) : Type 0 where
  pub db : d.Db
  pub keyed : Store.secret_key d opened.db o.generated ≡ ok (r.key, db)
  pub kept : r.supervisor.procs.store ≡ some db

module _ {d : Disk} (files : Files d) (fs : Fs) where
  -- A supervisor that starts has opened its store before it asked for its key: by then only the owner
  -- may read the file, and the tables still hold what was found in it. The key it runs with is the one
  -- in that store, or a new one that was put there. A file has the permissions that were set, and a
  -- commit makes exactly its writes.
  pub start-IsPrivate :
      (path : String) (before : files.State) (args : SuperviseArgs) (o : Outside d) (s : fs.State)
      (r : Running d)
      → IsDisk d
      → IsFiles files
      → (start d fs args (at_file files path before o) s).1 ≡ ok r
      → (opened : OpenStore d) × ((open_at files path before).1 ≡ ok opened)
        × IsPrivate files path before opened
        × KeepsKey o opened r
  unfolding new_supervisor with_store
  start-IsPrivate path before args o s r disk laws e =
      let st = start-IsStarted d fs args (at_file files path before o) s r e in
      let (opened, is_open, same) = >>=-eq-ok (open_at files path before).1 _ st.opened in
      (
        opened,
        is_open,
        open_at-IsPrivate files path before opened disk laws is_open,
        record {
          db = st.db;
          keyed = ap (λ x. Store.secret_key d x o.generated) (ok-injective same) ∙ st.keyed;
          kept = ap (λ (v : Supervisor d). v.procs.store) st.serves;
        },
      )
