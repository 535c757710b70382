-- ===== src/Cgroup/Removal.antt =====
-- Whether `rmdir_retry` of src/cgroup.rs gets rid of a directory.
use mesh_supervisor.Cgroup
use mesh_supervisor.Prelude.{Bool-cases, ℕ, zero, suc, ◌<◌, ◌≡◌, inl, inr, true, false, arith}
use mesh_supervisor.Proto.{Handle}
use mesh_supervisor.Cgroup.Paths.{FilePath}
use mesh_supervisor.Cgroup.{kill_dir, leaf_of, rmdir_retry, rmdir_rounds, Fs}

-- What `std::fs::remove_dir` promises: a directory that was removed is not there, and an attempt
-- that fails changes nothing.
pub record IsRemoving (fs : Fs) : Type 0 where
  pub gone :
      (dir : FilePath) (s : fs.State)
      → (fs.remove_dir dir s).1 ≡ true
      → fs.is_there dir (fs.remove_dir dir s).0 ≡ false
  pub unchanged :
      (dir : FilePath) (s : fs.State)
      → (fs.remove_dir dir s).1 ≡ false
      → (fs.remove_dir dir s).0 ≡ s

module _ (fs : Fs) where
  -- The state after some sleeps.
  abbrev pub after_sleeps : ℕ → fs.State → fs.State
  after_sleeps zero s = s
  after_sleeps (suc n) s = after_sleeps n (fs.sleep s)

module _ (fs : Fs) (laws : IsRemoving fs) where
  rounds_remove :
      (left k : ℕ) (dir : FilePath) (s : fs.State)
      → k < left
      → (fs.remove_dir dir (after_sleeps fs k s)).1 ≡ true
      → fs.is_there dir (rmdir_rounds fs left dir s) ≡ false
  unfolding rmdir_rounds
  rounds_remove zero k dir s h e = absurd (omega arith)
  rounds_remove (suc left) zero dir s h e = rw e (laws.gone dir s e)
  rounds_remove (suc left) (suc k) dir s h e = elim (Bool-cases (fs.remove_dir dir s).1) [
    | inl removed ↦ rw removed (laws.gone dir s removed)
    | inr busy ↦ elim (Bool-cases (fs.is_there dir (fs.remove_dir dir s).0)) [
      | inr missing ↦ rw (busy, missing) missing
      | inl there ↦
          rw (busy, there, laws.unchanged dir s busy)
            (rounds_remove left k dir (fs.sleep s) (omega arith) e)
    ]
  ]

  -- A directory that can be removed after fewer than fifty sleeps of ten milliseconds is gone when
  -- `rmdir_retry` returns, whatever the attempts before found.
  pub rmdir_retry_removes :
      (k : ℕ) (dir : FilePath) (s : fs.State)
      → k < 50
      → (fs.remove_dir dir (after_sleeps fs k s)).1 ≡ true
      → fs.is_there dir (rmdir_retry fs dir s) ≡ false
  unfolding rmdir_retry
  rmdir_retry_removes k dir s h e = rounds_remove 50 k dir s h e

  -- The leaf of a child whose processes are gone within half a second of the kill is gone after
  -- `remove`.
  pub remove_reaps :
      (parent : FilePath) (handle : Handle) (k : ℕ) (s : fs.State)
      → k < 50
      → (fs.remove_dir
          (leaf_of parent handle)
          (after_sleeps fs k (kill_dir fs (leaf_of parent handle) s))).1
        ≡ true
      → fs.is_there (leaf_of parent handle) (Cgroup.remove fs parent handle s) ≡ false
  unfolding Cgroup.remove
  remove_reaps parent handle k s h e =
      rmdir_retry_removes k (leaf_of parent handle) (kill_dir fs (leaf_of parent handle) s) h e
