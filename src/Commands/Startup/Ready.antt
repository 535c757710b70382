-- ===== src/Commands/Startup/Ready.antt =====
-- The supervisor that `run_supervise` of src/commands.rs has when it begins to serve.
use mesh_supervisor.Prelude.{
  if◌then◌else◌, nat_eq, Result, ◌>>=◌, >>=-eq-ok, option_ok-eq-ok, ok-injective, is_some, ok, err,
  ◌≡◌, refl, sym, ap, subst, ◌∙◌, Bool, true, false, ◌&&◌, ◌||◌, some, [], arith,
}
use mesh_supervisor.Commands.Rights.{authz_from_matches_grants}
use mesh_supervisor.Process.Launch.Reloaded.{load-with_store}
use mesh_supervisor.Process.Launch.Spawn.{IsCounted}
use mesh_supervisor.Process.Signals.{kill_all_first}
use mesh_supervisor.Store.Identity.{secret_key-stable, Changes}
use mesh_supervisor.Proto.{denied, is_read_only, Request, EndpointId}
use mesh_supervisor.Process.Launch.{with_store}
use mesh_supervisor.Commands.{authz_from_matches}
use mesh_supervisor.Supervisor.{Supervisor, contains, authorize, Authz}
use mesh_supervisor.Store.{Loaded}
use mesh_supervisor.Cgroup.{detect, Fs}
use mesh_supervisor.Commands.Startup.{
  no_topic, no_endpoint, need, unauthorized, serve, store, new_supervisor, with_store_open,
  open_store, Running, Outside, start, SuperviseArgs, or_fail, StartError,
}
use mesh_supervisor.Store.Database.{IsDisk, Disk}
use mesh_supervisor.Store
use mathlib.Core.Option.{some-injective}
use mesh_supervisor.Process.Launch.Reloaded.{load-with_store}
use mesh_supervisor.Proto.Frame.{Bytes}

or_fail-eq-ok :
    {E A : Type 0} (f : E → StartError) (r : Result E A) {a : A} → or_fail f r ≡ ok a → r ≡ ok a
or_fail-eq-ok f (ok a) e = ground arith
or_fail-eq-ok f (err x) e = cc

both_needed :
    {A : Type 0} (binds joins : Bool) (x r : A)
    → ◌≡◌ {A = Result StartError A}
        (need no_endpoint binds >>= λ u. need no_topic joins >>= λ u'. ok x)
        (ok r)
    → r ≡ x
both_needed false joins x r e = cc
both_needed true false x r e = cc
both_needed true true x r e = sym (ok-injective e)

module _ (d : Disk) where
  open_store-steps :
      (o : Outside d) (found : Bytes × d.Db × Loaded)
      → open_store d o ≡ ok found
      → (db : d.Db) × (o.opened ≡ ok db)
        × (Store.secret_key d db o.generated ≡ ok (found.0, found.1))
        × (Store.load d found.1 ≡ ok found.2)
  unfolding open_store
  open_store-steps o found e =
      let (db, opened, e1) = >>=-eq-ok _ _ e in
      let (key, keyed, e2) = >>=-eq-ok _ _ e1 in
      let (loaded, is_loaded, e3) = >>=-eq-ok _ _ e2 in
      let same : (key.0, key.1, loaded) ≡ found = ok-injective e3 in
      (
        db,
        or_fail-eq-ok store _ opened,
        or_fail-eq-ok store _ keyed ∙ ap (λ f. ok (f.0, f.1)) same,
        ap (Store.load d) (sym (ap (λ f. f.1) same))
            ∙ or_fail-eq-ok store _ is_loaded
            ∙ ap (λ f. ok f.2) same,
      )

  serve-steps :
      (args : SuperviseArgs) (o : Outside d) (cgroups : Bool) (key : Bytes) (db : d.Db)
      (loaded : Loaded) (r : Running d)
      → serve d args o cgroups key db loaded ≡ ok r
      → (authz : Authz) × (authz_from_matches args.is_open args.control args.read ≡ some authz)
        × (r ≡ record { supervisor = new_supervisor d args cgroups db loaded authz; key = key })
  unfolding serve
  serve-steps args o cgroups key db loaded r e =
      let (authz, chosen, e1) = >>=-eq-ok _ _ e in
      (authz, option_ok-eq-ok unauthorized _ chosen, both_needed o.binds o.joins _ r e1)

-- What a start has found on the way to serving.
pub record IsStarted {d : Disk} (args : SuperviseArgs) (o : Outside d) (r : Running d)
    : Type 0 where
  pub first_db : d.Db
  pub db : d.Db
  pub loaded : Loaded
  pub cgroups : Bool
  pub authz : Authz
  pub opened : o.opened ≡ ok first_db
  pub keyed : Store.secret_key d first_db o.generated ≡ ok (r.key, db)
  pub is_loaded : Store.load d db ≡ ok loaded
  pub chosen : authz_from_matches args.is_open args.control args.read ≡ some authz
  pub serves : r.supervisor ≡ new_supervisor d args cgroups db loaded authz

module _ (d : Disk) (fs : Fs) where
  pub start-IsStarted :
      (args : SuperviseArgs) (o : Outside d) (s : fs.State) (r : Running d)
      → (start d fs args o s).1 ≡ ok r
      → IsStarted args o r
  unfolding start
  start-IsStarted args o s r e = by_store (open_store d o) refl e
    where
      by_store :
          (found : Result StartError (Bytes × d.Db × Loaded))
          → open_store d o ≡ found
          → (with_store_open d fs args o s found).1 ≡ ok r
          → IsStarted args o r
      by_store (err x) is k = cc
      by_store (ok (key, db, loaded)) is k =
          let (first_db, opened, keyed, is_loaded) = open_store-steps d o (key, db, loaded) is in
          let cgroups = is_some (detect fs s).1 in
          let (authz, chosen, same) = serve-steps d args o cgroups key db loaded r k in
          record {
            first_db = first_db;
            db = db;
            loaded = loaded;
            cgroups = cgroups;
            authz = authz;
            opened = opened;
            keyed = keyed ∙ ap (λ x. ok (x, db)) (sym (ap (λ x. x.key) same));
            is_loaded = is_loaded;
            chosen = chosen;
            serves = ap (λ x. x.supervisor) same;
          }

-- Exactly the rights of the flags; no process that counts as live, so that a shutdown signals
-- nobody; and a counter at or above every handle.
abbrev pub IsReady : {d : Disk} → SuperviseArgs → Supervisor d → Type 0
IsReady {d} args v =
    ((remote : EndpointId) (req : Request)
      → authorize v.authz remote req ≡ (
          if args.is_open
            || contains args.control remote
            || (is_read_only req && contains args.read remote)
          then ok tt
          else err denied))
    × ((kill_all_first d v.procs).2 ≡ [])
    × IsCounted v.procs

module _ (d : Disk) (laws : IsDisk d) (fs : Fs) where
  -- A supervisor that starts gives exactly the rights of its flags: `--open` and `--allow` admit every
  -- request, `--allow-read` what is read-only, and all else is denied. No process of its table counts
  -- as live, so that a shutdown signals nobody, and its counter is at or above every handle of its
  -- table.
  pub start-IsReady :
      (args : SuperviseArgs) (o : Outside d) (s : fs.State) (r : Running d)
      → (start d fs args o s).1 ≡ ok r
      → IsReady args r.supervisor
  unfolding new_supervisor
  start-IsReady args o s r e =
      let st = start-IsStarted d fs args o s r e in
      let (nobody, counted) =
        load-with_store d laws st.db st.loaded st.cgroups args.cfg.stop_deadline st.is_loaded in
      subst (IsReady args) (sym st.serves) (
        λ remote req.
            authz_from_matches_grants args.is_open args.control args.read st.authz remote req
              st.chosen,
        nobody,
        counted,
      )

  -- A supervisor that starts again on the store that an earlier one had, whatever records were put,
  -- removed or updated in it since, has the earlier one's key.
  pub restart_identity :
      (args args' : SuperviseArgs) (o o' : Outside d) (s s' : fs.State) (r r' : Running d)
      (db db' : d.Db)
      → (start d fs args o s).1 ≡ ok r
      → r.supervisor.procs.store ≡ some db
      → Changes d db db'
      → o'.opened ≡ ok db'
      → (start d fs args' o' s').1 ≡ ok r'
      → r'.key ≡ r.key
  unfolding with_store new_supervisor
  restart_identity args args' o o' s s' r r' db db' e at between opened e' =
      let one = start-IsStarted d fs args o s r e in
      let two = start-IsStarted d fs args' o' s' r' e' in
      let stored : one.db ≡ db =
        some-injective _ _ (sym (ap (λ (v : Supervisor d). v.procs.store) one.serves) ∙ at) in
      let same_db : two.first_db ≡ db' = ok-injective (sym two.opened ∙ opened) in
      let again =
        subst (λ x. Store.secret_key d x o'.generated ≡ ok (r'.key, two.db)) same_db two.keyed in
      let first =
        subst (λ x. Store.secret_key d one.first_db o.generated ≡ ok (r.key, x)) stored one.keyed in
      (secret_key-stable d laws one.first_db db db' r.key o.generated o'.generated (r'.key, two.db)
        first between again).0
