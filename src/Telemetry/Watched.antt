-- ===== src/Telemetry/Watched.antt =====
-- The CPU rates of src/telemetry.rs in the output of `watch_loop`.
use mesh_supervisor.Prelude.{
  All, ℕ, ◌-◌, ◌*◌, ◌<◌, ◌≡◌, refl, sym, ap, subst, ◌∙◌, inl, inr, some, List, [], ◌∷◌, ◌++◌,
}
use mesh_supervisor.Proto.{ProcInfo, Usage}
use mesh_supervisor.Telemetry.{Tick, Crypto, Watcher, Samples, Shown, show_stats}
use mesh_supervisor.Telemetry.Replay.{accept_all}
use mesh_supervisor.Telemetry.Rates.{
  IsIn, IsDistinct, IsOther, rate_line, rate_between, samples_through, samples_after,
}
use mesh_supervisor.Telemetry.Loop.{Stream, opened, shown, watch_loop, watch_loop-shown}

IsIn-left : {A : Type 0} (x : A) (xs ys : List A) → IsIn x xs → IsIn x (xs ++ ys)
IsIn-left x [] ys h = elim h [ ]
IsIn-left x (z ∷ xs) ys (inl same) = inl same
IsIn-left x (z ∷ xs) ys (inr later) = inr (IsIn-left x xs ys later)

IsIn-right : {A : Type 0} (x : A) (xs ys : List A) → IsIn x ys → IsIn x (xs ++ ys)
IsIn-right x [] ys h = h
IsIn-right x (z ∷ xs) ys h = inr (IsIn-right x xs ys h)

samples_through-append :
    (xs ys : List Tick) (prev : Samples)
    → samples_through (xs ++ ys) prev ≡ samples_through ys (samples_through xs prev)
samples_through-append [] ys prev = refl
samples_through-append (x ∷ xs) ys prev =
    samples_through-append xs ys (samples_after x x.stats prev)

-- What a tick prints is printed among other ticks.
shown-IsIn :
    (line : Shown) (xs : List Tick) (u : Tick) (after : List Tick) (prev : Samples)
    → IsIn line (show_stats u u.stats (samples_through xs prev)).0
    → IsIn line (shown (xs ++ u ∷ after) prev)
unfolding shown
shown-IsIn line [] u after prev h = IsIn-left line _ _ h
shown-IsIn line (x ∷ xs) u after prev h =
    IsIn-right line _ _ (shown-IsIn line xs u after (samples_after x x.stats prev) h)

module _ (c : Crypto) (age : ℕ) (events : Stream) (w : Watcher) where
  -- A process that is measured by two ticks `t` and `u` of one publisher, which the watcher accepts,
  -- the second one with a later time, and by no tick that it accepts between them: `watch_loop` prints
  -- for `u` the growth of the process's counter since `t` over the time between the two, whatever other
  -- ticks, publishers and processes it sees. No process stands in one of the two twice.
  pub watch_loop-rates :
      (t u : Tick) (i j : ProcInfo) (a b : Usage) (before between after : List Tick)
      → (accept_all age w.latest_seq (opened c events)).0 ≡ (before ++ t ∷ between) ++ u ∷ after
      → IsDistinct t.stats
      → IsDistinct u.stats
      → IsIn i t.stats
      → IsIn j u.stats
      → i.usage ≡ some a
      → j.usage ≡ some b
      → u.from ≡ t.from
      → j.handle ≡ i.handle
      → t.ts < u.ts
      → All (λ m. All (IsOther t.from i.handle m) m.stats) between
      → IsIn
          (rate_line u j b (b.cpu_usec - a.cpu_usec, (u.ts - t.ts) * 10))
          (watch_loop c age w events).1
  watch_loop-rates t u i j a b before between after accepted dt du at_t at_u ea eb from handle lt
        others =
      let line = rate_line u j b (b.cpu_usec - a.cpu_usec, (u.ts - t.ts) * 10) in
      let printed =
        rate_between t u i j a b between (samples_through before w.prev) dt du at_t at_u ea eb from
          handle lt others in
      let among = shown-IsIn line (before ++ t ∷ between) u after w.prev (
        subst (λ s. IsIn line (show_stats u u.stats s).0)
          (sym (samples_through-append before (t ∷ between) w.prev)) printed) in
      subst (IsIn line)
        (sym (watch_loop-shown c age events w ∙ ap (λ ticks. shown ticks w.prev) accepted)) among
