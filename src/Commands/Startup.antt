-- ===== src/Commands/Startup.antt =====
-- src/commands.rs: what `run_supervise` does before it serves. The binding of the endpoint and the
-- joining of the telemetry topic are iroh's, and given by their success.
pub mod Ready
pub mod Private
use mesh_supervisor.Store.Files.{Files, open_at}
use mesh_supervisor.Prelude.{
  if◌then◌else◌, nat_eq, Result, option_ok, ◌>>=◌, is_some, ok, err, String, Bool, List, [],
}
use mesh_supervisor.Process.Launch.{with_store}
use mesh_supervisor.Commands.{authz_from_matches}
use mesh_supervisor.Supervisor.{Authz, Supervisor}
use mesh_supervisor.Proto.{EndpointId}
use mesh_supervisor.Store.{Loaded}
use mesh_supervisor.Cgroup.{detect, Fs}
use mesh_supervisor.Config.{SupervisorConfig}
use mesh_supervisor.Store.Database.{StoreError, Disk}
use mesh_supervisor.Store
use mesh_supervisor.Proto.Frame.{Bytes}

pub data StartError : Type 0 where
  store : StoreError → StartError
  unauthorized no_endpoint no_topic : StartError

-- The flags of `supervise`, and the configuration after its overrides.
pub record SuperviseArgs : Type 0 where
  pub cfg : SupervisorConfig
  pub is_open : Bool
  pub control : List EndpointId
  pub read : List EndpointId

-- What the start finds outside: the opened store, a key that may be generated, and iroh.
pub record Outside (d : Disk) : Type 0 where
  pub opened : Result StoreError d.Db
  pub generated : Bytes
  pub binds : Bool
  pub joins : Bool

pub record Running (d : Disk) : Type 0 where
  pub supervisor : Supervisor d
  pub key : Bytes

-- The store as `Store::open` opens it at `--store`, from this state of the files.
abbrev pub at_file : {d : Disk} (files : Files d) → String → files.State → Outside d → Outside d
at_file files path s o = record o { opened = (open_at files path s).1 >>= λ opened. ok (opened.db) }

-- An error with `?`.
abbrev pub or_fail {ℓ κ} :
    {E : Type κ} {A : Type ℓ} → (E → StartError) → Result E A → Result StartError A
or_fail f (ok a) = ok a
or_fail f (err e) = err (f e)

abbrev pub need : StartError → Bool → Result StartError (Unit {0})
need e b = if b then ok tt else err e

module _ (d : Disk) where
  -- `Store::open`, `secret_key` and `load`: the key, the store and what it held.
  unfoldable pub open_store : Outside d → Result StartError (Bytes × d.Db × Loaded)
  open_store o = do
    db ← or_fail store o.opened
    key ← or_fail store (Store.secret_key d db o.generated)
    loaded ← or_fail store (Store.load d key.1)
    ok (key.0, key.1, loaded)

  -- The supervisor of a start, with the posture that was chosen.
  unfoldable pub new_supervisor : SuperviseArgs → Bool → d.Db → Loaded → Authz → Supervisor d
  new_supervisor args cgroups db loaded authz = record {
    procs = with_store d db loaded cgroups args.cfg.stop_deadline;
    pipes = [];
    authz = authz;
    limiter = [];
    cfg = args.cfg;
  }

  -- The rest of the start, with or without cgroups.
  unfoldable pub serve :
      SuperviseArgs → Outside d → Bool → Bytes → d.Db → Loaded → Result StartError (Running d)
  unfolding new_supervisor
  serve args o cgroups key db loaded = do
    authz ← option_ok unauthorized (authz_from_matches args.is_open args.control args.read)
    u ← need no_endpoint o.binds
    u' ← need no_topic o.joins
    ok (record { supervisor = new_supervisor args cgroups db loaded authz; key = key })

  module _ (fs : Fs) where
    abbrev pub with_store_open :
        SuperviseArgs
        → Outside d
        → fs.State
        → Result StartError (Bytes × d.Db × Loaded)
        → fs.State × Result StartError (Running d)
    with_store_open args o s (err e) = (s, err e)
    with_store_open args o s (ok (key, db, loaded)) =
        let (s', group) = detect fs s in (s', serve args o (is_some group) key db loaded)

    -- `run_supervise` up to the moment it waits for Ctrl-C.
    unfoldable pub start :
        SuperviseArgs → Outside d → fs.State → fs.State × Result StartError (Running d)
    unfolding open_store serve
    start args o s = with_store_open args o s (open_store o)
