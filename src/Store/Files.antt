-- ===== src/Store/Files.antt =====
-- src/store.rs: the opening of the store's file; src/sandbox.rs: the directory of that file, which an
-- isolated child must not see. The file system is a parameter, with the path that it makes canonical.
pub mod Private
use mesh_supervisor.Prelude.{
  nat_beq, if◌then◌else◌, Result, ◌>>=◌, ok, err, ℕ, ◌*◌, String, ◌≡◌, Bool, true, not, ◌&&◌,
  Option, none, some, [], ◌∷◌, ◌++◌,
}
use mesh_supervisor.Cgroup.Paths.{FilePath}
use mesh_supervisor.Store.Database.{Disk, StoreError}
use mesh_supervisor.Text.{Text, text}
use mathlib.Core.Option

-- `create` is redb's `Database::create`, `set_permissions` and `canonicalize` are those of `std::fs`.
-- `mode` has the permission bits of the file at a path.
pub record Files (d : Disk) : Type 1 where
  pub State : Type 0
  pub create : String → State → State × Result StoreError d.Db
  pub set_permissions : String → ℕ → State → State × Result StoreError (Unit {0})
  pub canonicalize : String → State → Option FilePath
  pub mode : String → State → ℕ

-- A file has the permissions that were set.
pub record IsFiles {d : Disk} (files : Files d) : Type 0 where
  pub sets :
      (path : String) (m : ℕ) (s : files.State)
      → (files.set_permissions path m s).1 ≡ ok tt
      → files.mode path (files.set_permissions path m s).0 ≡ m

-- `Store`
pub record OpenStore (d : Disk) : Type 0 where
  pub db : d.Db
  pub path : String

-- 0o600
abbrev pub owner_only : ℕ
owner_only = 6 * 64

-- `Path::parent`: the root has none.
unfoldable pub parent : FilePath → Option FilePath
parent [] = none
parent (name ∷ dir) = some dir

abbrev pub below_root : FilePath → Text
below_root [] = []
below_root (name ∷ dir) = below_root dir ++ (b'/' ∷ name)

-- The text of an absolute path.
unfoldable pub into_os_string : FilePath → Text
into_os_string [] = text "/"
into_os_string (name ∷ dir) = below_root (name ∷ dir)

abbrev pub is_nul_free : Text → Bool
is_nul_free [] = true
is_nul_free (c ∷ s) = not (nat_beq c 0) && is_nul_free s

-- `CString::new(…).ok()`
unfoldable pub c_string : Text → Option Text
c_string s = if is_nul_free s then some s else none

-- The directory of a file, once its path is made canonical.
unfoldable pub hide : Option FilePath → Option Text
unfolding parent into_os_string c_string
hide abs = Option.bind (Option.bind abs parent) (λ dir. c_string (into_os_string dir))

module _ {d : Disk} (files : Files d) where
  -- `Store::open` from the permissions on; its transaction makes the two tables, and writes nothing.
  unfoldable pub restrict :
      String → files.State → Result StoreError d.Db → files.State × Result StoreError (OpenStore d)
  restrict path s (err e) = (s, err e)
  restrict path s (ok db) =
      let (s', done) = files.set_permissions path owner_only s in
      (s', done >>= λ u. d.commit db [] >>= λ db'. ok (record { db = db'; path = path }))

  -- `Store::open`: the file system after it, and the store.
  unfoldable pub open_at : String → files.State → files.State × Result StoreError (OpenStore d)
  unfolding restrict
  open_at path s = let (s', created) = files.create path s in restrict path s' created

  -- `store_hide_dir`, for the path of the store, if there is one.
  unfoldable pub store_hide_dir : Option String → files.State → Option Text
  unfolding hide
  store_hide_dir none s = none
  store_hide_dir (some path) s = hide (files.canonicalize path s)
