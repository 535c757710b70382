-- ===== src/Telemetry/Arrival.antt =====
-- `publish_loop` and `watch_loop` of src/telemetry.rs together: what a supervisor sends, a watcher
-- prints.
use mesh_supervisor.Prelude.{
  nat_eq, length, ok, ℕ, ◌+◌, ◌%◌, ◌^◌, ◌≤◌, ◌<◌, ◌≡◌, refl, sym, ap, subst, ◌∙◌, true, Option,
  none, some, List, [], ◌∷◌, arith,
}
use mesh_supervisor.Map.{lookup, insert}
use mesh_supervisor.Map.Laws.{lookup-insert_self}
use mesh_supervisor.Proto.{EndpointId, ProcInfo}
use mesh_supervisor.Proto.Frame.{Bytes}
use mesh_supervisor.Telemetry.{
  Tick, Crypto, IsCrypto, Watcher, message, sign_tick, open_tick, publish, accept_tick, LatestSeq,
}
use mesh_supervisor.Telemetry.Replay.{Above, accept_all, accept_tick_iff, accepted-latest}
use mesh_supervisor.Telemetry.Signed.{open_tick-sign_tick}
use mesh_supervisor.Telemetry.Loop.{Stream, when_open, opened, shown, watch_loop, watch_loop-shown}

-- Samples of the process table, each with its time.
abbrev pub Rounds : Type 0
Rounds = List (ℕ × List ProcInfo)

abbrev pub broadcast : ℕ → Option Bytes → List (ℕ × Bytes) → List (ℕ × Bytes)
broadcast now none later = later
broadcast now (some content) later = (now, content) ∷ later

-- The messages reach the watcher in order, each after the delay of its time.
abbrev pub delivered : (ℕ → ℕ) → List (ℕ × Bytes) → Stream
delivered delay [] = []
delivered delay ((ts, content) ∷ sent) =
    (ts + delay ts, some (message content)) ∷ delivered delay sent

-- One tick for each sample that is not empty, numbered from above `seq`.
abbrev pub numbered : EndpointId → ℕ → Rounds → List Tick
numbered from seq [] = []
numbered from seq ((now, []) ∷ rounds) = numbered from seq rounds
numbered from seq ((now, i ∷ stats) ∷ rounds) =
    record { from = from; ts = now; seq = seq + 1; stats = i ∷ stats }
    ∷ numbered from (seq + 1) rounds

-- The number held for a publisher, if there is one, is not above its last one.
abbrev pub AtMost : Option ℕ → ℕ → Type 0
AtMost none seq = Unit {0}
AtMost (some n) seq = n ≤ seq

AtMost-Above : (o : Option ℕ) (seq : ℕ) → AtMost o seq → Above o (seq + 1)
AtMost-Above none seq h = tt
AtMost-Above (some n) seq h = omega arith

module _ (c : Crypto) (secret : c.SecretKey) where
  -- `publish_loop`: what is broadcast, with the times.
  unfoldable pub publish_loop : ℕ → Rounds → List (ℕ × Bytes)
  publish_loop seq [] = []
  publish_loop seq ((now, stats) ∷ rounds) =
      let (seq', sent) = publish c secret now seq stats in
      broadcast now sent (publish_loop seq' rounds)

  -- Each of the ticks can be encoded.
  abbrev pub IsSigned : ℕ → Rounds → Type 0
  IsSigned seq [] = Unit {0}
  IsSigned seq ((now, []) ∷ rounds) = IsSigned seq rounds
  IsSigned seq ((now, i ∷ stats) ∷ rounds) =
      ((content : Bytes) × (sign_tick c secret now (seq + 1) (i ∷ stats) ≡ ok content))
      × IsSigned (seq + 1) rounds

  publish-sent :
      (now seq : ℕ) (i : ProcInfo) (stats : List ProcInfo) (content : Bytes)
      → seq + 1 < 2 ^ 64
      → sign_tick c secret now (seq + 1) (i ∷ stats) ≡ ok content
      → publish c secret now seq (i ∷ stats) ≡ (seq + 1, some content)
  unfolding publish
  publish-sent now seq i stats content h e =
      let whole : (seq + 1) % 2 ^ 64 ≡ seq + 1 = omega arith in rw (whole, e) refl

  publish_loop-next :
      (now seq : ℕ) (i : ProcInfo) (stats : List ProcInfo) (content : Bytes) (rounds : Rounds)
      → publish c secret now seq (i ∷ stats) ≡ (seq + 1, some content)
      → publish_loop seq ((now, i ∷ stats) ∷ rounds)
        ≡ (now, content) ∷ publish_loop (seq + 1) rounds
  unfolding publish_loop
  publish_loop-next now seq i stats content rounds e =
      ap (λ p. broadcast now p.1 (publish_loop p.0 rounds)) e

  opened-next :
      (now : ℕ) (content : Bytes) (t : Tick) (events : Stream)
      → open_tick c content ≡ ok t
      → opened c ((now, some (message content)) ∷ events) ≡ (now, t) ∷ opened c events
  unfolding opened
  opened-next now content t events e = ap (λ r. when_open now r (opened c events)) e

  module _ (laws : IsCrypto c) (age : ℕ) (small : age < 2 ^ 64) (delay : ℕ → ℕ)
      (timely : (ts : ℕ) → delay ts ≤ age) where
    accepts_next :
        (now seq : ℕ) (stats : List ProcInfo) (latest : LatestSeq)
        → AtMost (lookup (c.public secret) latest) seq
        → let t : Tick = record {
          from = c.public secret;
          ts = now;
          seq = seq + 1;
          stats = stats;
        } in
          (accept_tick t (now + delay now) latest age).0 ≡ true
    accepts_next now seq stats latest h =
        let t : Tick = record { from = c.public secret; ts = now; seq = seq + 1; stats = stats } in
        (accept_tick_iff t (now + delay now) age latest small).1
          ((omega arith, omega (arith, timely now)), AtMost-Above _ seq h)

    all_accepted :
        (seq : ℕ) (rounds : Rounds) (latest : LatestSeq)
        → IsSigned seq rounds
        → seq + length rounds < 2 ^ 64
        → AtMost (lookup (c.public secret) latest) seq
        → (accept_all age latest (opened c (delivered delay (publish_loop seq rounds)))).0
          ≡ numbered (c.public secret) seq rounds
    unfolding publish_loop opened accept_all publish
    all_accepted seq [] latest signed bound most = refl
    all_accepted seq ((now, []) ∷ rounds) latest signed bound most =
        all_accepted seq rounds latest signed (omega arith) most
    all_accepted seq ((now, i ∷ stats) ∷ rounds) latest ((content, e), signed) bound most =
        let t : Tick = record {
          from = c.public secret;
          ts = now;
          seq = seq + 1;
          stats = i ∷ stats;
        } in
        let sent = publish-sent now seq i stats content (omega arith) e in
        let opens = open_tick-sign_tick c secret now (seq + 1) (i ∷ stats) content laws e in
        let taken = accepts_next now seq (i ∷ stats) latest most in
        let held : lookup (c.public secret) (insert (c.public secret) (seq + 1) latest)
            ≡ some (seq + 1) =
          lookup-insert_self (c.public secret) (seq + 1) latest in
        rw (publish_loop-next now seq i stats content rounds sent) (
          rw
            (opened-next (now + delay now) content t
              (delivered delay (publish_loop (seq + 1) rounds)) opens)
            (rw (taken, accepted-latest t (now + delay now) age latest taken)
              (ap (◌∷◌ t) (
                all_accepted (seq + 1) rounds (insert (c.public secret) (seq + 1) latest) signed
                  (omega arith) (subst (λ o. AtMost o (seq + 1)) (sym held) (omega arith))))))

    -- A watcher prints each sample of a supervisor's process table that is not empty, in order and with
    -- no other lines, where the messages arrive in order and alone, with delays within the window,
    -- every tick can be encoded, the numbers and the window stay within 64 bits, and the watcher holds
    -- no higher number of that supervisor than the one it publishes from. Encodings decode, and
    -- signatures verify.
    pub watch_loop-publish_loop :
        (seq : ℕ) (rounds : Rounds) (w : Watcher)
        → IsSigned seq rounds
        → seq + length rounds < 2 ^ 64
        → AtMost (lookup (c.public secret) w.latest_seq) seq
        → (watch_loop c age w (delivered delay (publish_loop seq rounds))).1
          ≡ shown (numbered (c.public secret) seq rounds) w.prev
    watch_loop-publish_loop seq rounds w signed bound most =
        watch_loop-shown c age _ w
        ∙ ap (λ ticks. shown ticks w.prev) (all_accepted seq rounds w.latest_seq signed bound most)
