-- ===== src/Telemetry.antt =====
-- src/telemetry.rs: signed ticks from supervisors to watchers. Signatures, blake3 and postcard are
-- parameters; the gossip network delivers any events in any order.
pub mod Replay
pub mod Signed
pub mod Restart
pub mod Rates
pub mod Loop
pub mod Arrival
pub mod Watched
use mesh_supervisor.Prelude.{
  ltb, leb, if◌then◌else◌, nat_eq, pair_eq, Result, option_ok, ◌>>=◌, ok, err, ℕ, ◌+◌, ◌-◌, ◌*◌,
  ◌/◌, ◌%◌, ◌^◌, String, ◌≡◌, Bool, true, false, not, Option, none, some, List, [], ◌∷◌,
}
use mesh_supervisor.Map.{Map, lookup, insert}
use mesh_supervisor.Proto.{EndpointId, Handle, ProcInfo, Usage}
use mesh_supervisor.Proto.Frame.{Bytes, Codec, IsInverse}

pub record Tick : Type 0 where
  pub from : EndpointId
  pub ts : ℕ
  pub seq : ℕ
  pub stats : List ProcInfo

-- iroh's keys and signatures, and postcard at the two wire types.
pub record Crypto : Type 1 where
  pub SecretKey : Type 0
  pub Signature : Type 0
  pub public : SecretKey → EndpointId
  pub sign : SecretKey → Bytes → Signature
  pub verify : EndpointId → Bytes → Signature → Bool
  pub tick : Codec Tick
  pub signed : Codec (Bytes × Signature)

-- What the code relies on: a signature verifies under the signer's public key, and encodings
-- decode.
pub record IsCrypto (c : Crypto) : Type 0 where
  pub verifies : (k : c.SecretKey) (b : Bytes) → c.verify (c.public k) b (c.sign k b) ≡ true
  pub tick : IsInverse c.tick
  pub signed : IsInverse c.signed

pub data TickError : Type 0 where
  codec signature : TickError

abbrev pub default_topic_label : String
default_topic_label = "mesh-supervisor/telemetry/1"

abbrev pub unwrap_or {ℓ} : {A : Type ℓ} → A → Option A → A
unwrap_or a none = a
unwrap_or a (some b) = b

-- `topic_for`, where `hash` is blake3 of the bytes of a text.
unfoldable pub topic_for : (String → Bytes) → Option String → Bytes
topic_for hash secret = hash (unwrap_or default_topic_label secret)

-- `now.abs_diff(ts)`
unfoldable pub abs_diff : ℕ → ℕ → ℕ
abs_diff a b = if ltb a b then b - a else a - b

-- `max_tick_age` in milliseconds, kept to 64 bits.
unfoldable pub fresh : ℕ → ℕ → ℕ → Bool
unfolding abs_diff
fresh ts now max_tick_age = leb (abs_diff now ts) (max_tick_age % 2 ^ 64)

abbrev pub LatestSeq : Type 0
LatestSeq = Map EndpointId ℕ

-- `is_some_and(|&prev| tick.seq <= prev)`
unfoldable pub is_old : Option ℕ → ℕ → Bool
is_old none seq = false
is_old (some prev) seq = leb seq prev

-- Whether the tick is accepted, and the numbers after it.
unfoldable pub accept_tick : Tick → ℕ → LatestSeq → ℕ → Bool × LatestSeq
unfolding fresh is_old
accept_tick tick now latest max_tick_age =
    if not (fresh tick.ts now max_tick_age)
    then (false, latest)
    else if is_old (lookup tick.from latest) tick.seq
    then (false, latest)
    else (true, insert tick.from tick.seq latest)

module _ (c : Crypto) where
  -- `sign_tick` at the time `now`.
  unfoldable pub sign_tick : c.SecretKey → ℕ → ℕ → List ProcInfo → Result TickError Bytes
  sign_tick secret now seq stats = do
    body ←
        option_ok codec (
          c.tick.to_allocvec
            (record { from = c.public secret; ts = now; seq = seq; stats = stats }))
    option_ok codec (c.signed.to_allocvec (body, c.sign secret body))

  unfoldable pub verified : Tick → Bytes × c.Signature → Result TickError Tick
  verified tick (body, sig) = if c.verify tick.from body sig then ok tick else err signature

  unfoldable pub open_tick : Bytes → Result TickError Tick
  unfolding verified
  open_tick content = do
    signed ← option_ok codec (c.signed.from_bytes content)
    tick ← option_ok codec (c.tick.from_bytes signed.0)
    verified tick signed

  -- One round of `publish_loop`: the sequence number after it, and what is broadcast. Nothing is
  -- sent while there is nothing to report.
  unfoldable pub publish : c.SecretKey → ℕ → ℕ → List ProcInfo → ℕ × Option Bytes
  unfolding sign_tick
  publish secret now seq [] = (seq, none)
  publish secret now seq (i ∷ stats) =
      let seq' : ℕ = (seq + 1) % 2 ^ 64 in
      (seq', elim (sign_tick secret now seq' (i ∷ stats)) [ ok bytes ↦ some bytes | err e ↦ none ])

-- The last counters of a process: `cpu_usec` and the time of the tick.
abbrev pub Samples : Type 0
Samples = Map (EndpointId × Handle) (ℕ × ℕ)

-- The CPU rate in percent, as a fraction: microseconds over ten times the milliseconds.
unfoldable pub rate : Option (ℕ × ℕ) → ℕ → ℕ → Option (ℕ × ℕ)
rate none cpu ts = none
rate (some (pc, pt)) cpu ts = if ltb pt ts then some (cpu - pc, (ts - pt) * 10) else none

-- One line of output.
pub record Shown : Type 0 where
  pub from : EndpointId
  pub info : ProcInfo
  pub mem_mib : Option ℕ
  pub cpu : Option (ℕ × ℕ)

unfoldable pub show_stat : Tick → ProcInfo → Option Usage → Samples → Shown × Samples
unfolding rate
show_stat tick i none prev =
    (record { from = tick.from; info = i; mem_mib = none; cpu = none }, prev)
show_stat tick i (some u) prev = (
  record {
    from = tick.from;
    info = i;
    mem_mib = some (u.mem_bytes / (1024 * 1024));
    cpu = rate (lookup (tick.from, i.handle) prev) u.cpu_usec tick.ts;
  },
  insert (tick.from, i.handle) (u.cpu_usec, tick.ts) prev,
)

unfoldable pub show_stats : Tick → List ProcInfo → Samples → List Shown × Samples
unfolding show_stat
show_stats tick [] prev = ([], prev)
show_stats tick (i ∷ rest) prev =
    let (line, prev') = show_stat tick i i.usage prev in
    let (lines, prev'') = show_stats tick rest prev' in (line ∷ lines, prev'')

pub record Watcher : Type 0 where
  pub latest_seq : LatestSeq
  pub prev : Samples

-- A gossip event; the other events of the stream only print.
pub data Event : Type 0 where
  message : Bytes → Event
  neighbor_up : EndpointId → Event
  neighbor_down : EndpointId → Event
  lagged : Event

module _ (c : Crypto) where
  unfoldable pub watch_tick : ℕ → ℕ → Watcher → Result TickError Tick → Watcher × List Shown
  unfolding accept_tick show_stats
  watch_tick max_tick_age now w (err e) = (w, [])
  watch_tick max_tick_age now w (ok tick) =
      let (accepted, latest) = accept_tick tick now w.latest_seq max_tick_age in
      let (lines, prev) = show_stats tick tick.stats w.prev in
      if accepted
      then (record { latest_seq = latest; prev = prev }, lines)
      else (record w { latest_seq = latest }, [])

  -- One event of `watch_loop`, at the time `now`.
  unfoldable pub watch : ℕ → ℕ → Watcher → Event → Watcher × List Shown
  unfolding watch_tick open_tick
  watch max_tick_age now w (message content) = watch_tick max_tick_age now w (open_tick c content)
  watch max_tick_age now w (neighbor_up id) = (w, [])
  watch max_tick_age now w (neighbor_down id) = (w, [])
  watch max_tick_age now w lagged = (w, [])
