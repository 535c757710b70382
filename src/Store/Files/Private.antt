-- ===== src/Store/Files/Private.antt =====
-- The file that `Store::open` of src/store.rs leaves.
use mesh_supervisor.Prelude.{
  Result, >>=-eq-ok, ok-injective, ok, err, String, ◌≡◌, refl, sym, ap, subst, ◌∙◌, [],
}
use mesh_supervisor.Store.Files.{Files, IsFiles, OpenStore, open_at, restrict, owner_only}
use mesh_supervisor.Store.Database.{Disk, IsDisk, Agree, apply_all, StoreError}

module _ {d : Disk} (files : Files d) where
  -- A store that is open: it is the file that was created or found, only its owner may read the file,
  -- and the tables hold what they held.
  pub record IsPrivate (path : String) (s : files.State) (opened : OpenStore d) : Type 0 where
    pub created : d.Db
    pub found : (files.create path s).1 ≡ ok created
    pub same_path : opened.path ≡ path
    pub restricted : files.mode path (open_at files path s).0 ≡ owner_only
    pub kept : Agree (d.contents opened.db) (d.contents created)

  restrict-steps :
      (path : String) (s : files.State) (created : Result StoreError d.Db) (opened : OpenStore d)
      → (restrict files path s created).1 ≡ ok opened
      → (db : d.Db) × (created ≡ ok db)
        × ((files.set_permissions path owner_only s).1 ≡ ok tt)
        × ((restrict files path s created).0 ≡ (files.set_permissions path owner_only s).0)
        × (d.commit db [] ≡ ok opened.db)
        × (opened.path ≡ path)
  unfolding restrict
  restrict-steps path s (err e) opened h = cc
  restrict-steps path s (ok db) opened h =
      let (u, set, e1) = >>=-eq-ok (files.set_permissions path owner_only s).1 _ h in
      let (db', committed, e2) = >>=-eq-ok (d.commit db []) _ e1 in
      let same = ok-injective e2 in
      (
        db,
        refl,
        set,
        refl,
        committed ∙ ap (λ (o : OpenStore d). ok o.db) same,
        sym (ap (λ (o : OpenStore d). o.path) same),
      )

  pub open_at-IsPrivate :
      (path : String) (s : files.State) (opened : OpenStore d)
      → IsDisk d
      → IsFiles files
      → (open_at files path s).1 ≡ ok opened
      → IsPrivate path s opened
  unfolding open_at apply_all
  open_at-IsPrivate path s opened disk laws h =
      let (s', created) = files.create path s in
      let (db, found, set, after, committed, same) = restrict-steps path s' created opened h in
      record {
        created = db;
        found = found;
        same_path = same;
        restricted =
            subst (λ t. files.mode path t ≡ owner_only) (sym after)
              (laws.sets path owner_only s' set);
        kept = disk.commits db opened.db [] committed;
      }
