-- ===== src/Telemetry/Restart.antt =====
-- A supervisor that restarts keeps its identity (src/store.rs), while `publish_loop` of
-- src/telemetry.rs numbers its ticks from 1 again.
use mesh_supervisor.Prelude.{
  nat_eq, length, ℕ, ◌+◌, ◌^◌, ◌≤◌, ◌<◌, ◌≡◌, refl, some, List, [], ◌∷◌, arith,
}
use mesh_supervisor.Map.{lookup}
use mesh_supervisor.Proto.{ProcInfo}
use mesh_supervisor.Telemetry.{Tick, Crypto, LatestSeq, publish}
use mesh_supervisor.Telemetry.Replay.{Arrivals, accept_all, not_above, refused-latest}

module _ (c : Crypto) where
  -- The ticks of the rounds of one `publish_loop`, as they reach a watcher with no delay: the time
  -- of each, and a process table that is not empty.
  unfoldable pub published : c.SecretKey → ℕ → List (ℕ × ProcInfo × List ProcInfo) → Arrivals
  published secret seq [] = []
  published secret seq ((now, i, stats) ∷ rounds) =
      let seq' = (publish c secret now seq (i ∷ stats)).0 in
      (now, record { from = c.public secret; ts = now; seq = seq'; stats = i ∷ stats })
      ∷ published secret seq' rounds

  publish-seq :
      (secret : c.SecretKey) (now seq : ℕ) (i : ProcInfo) (stats : List ProcInfo)
      → seq + 1 < 2 ^ 64
      → (publish c secret now seq (i ∷ stats)).0 ≡ seq + 1
  unfolding publish
  publish-seq secret now seq i stats h = omega arith

  silent_from :
      (secret : c.SecretKey) (seq n age : ℕ) (latest : LatestSeq)
      (rounds : List (ℕ × ProcInfo × List ProcInfo))
      → lookup (c.public secret) latest ≡ some n
      → seq + length rounds ≤ n
      → n < 2 ^ 64
      → accept_all age latest (published secret seq rounds) ≡ ([], latest)
  unfolding accept_all published
  silent_from secret seq n age latest [] at le h = refl
  silent_from secret seq n age latest ((now, i, stats) ∷ rounds) at le h =
      let e = publish-seq secret now seq i stats (omega arith) in
      let t : Tick = record {
        from = c.public secret;
        ts = now;
        seq = (publish c secret now seq (i ∷ stats)).0;
        stats = i ∷ stats;
      } in
      let old = not_above t now age latest n at (omega (arith, e)) in
      rw (old, refused-latest t now age latest old)
        (silent_from secret t.seq n age latest rounds at (omega (arith, e)) h)

  -- A watcher that has accepted number `n` from a supervisor refuses, after that supervisor
  -- restarts, every one of the first `n` ticks that it publishes, fresh and properly signed though
  -- they are.
  pub restart_is_silent :
      (secret : c.SecretKey) (n age : ℕ) (latest : LatestSeq)
      (rounds : List (ℕ × ProcInfo × List ProcInfo))
      → lookup (c.public secret) latest ≡ some n
      → length rounds ≤ n
      → n < 2 ^ 64
      → accept_all age latest (published secret 0 rounds) ≡ ([], latest)
  restart_is_silent secret n age latest rounds at le h =
      silent_from secret 0 n age latest rounds at (omega arith) h
