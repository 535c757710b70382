-- ===== src/Examples/Ticks.antt =====
-- The theorems on src/telemetry.rs, with keys that are numbers, signatures that are the pair of key
-- and bytes, and codecs for ticks of at most one process.
use mesh_supervisor.Prelude.{
  nat_beq, nat_beq_iff, nat_eq, ok, ℕ, ◌≡◌, refl, subst, true, false, Option, none, some, List, [],
  ◌∷◌, arith,
}
use mesh_supervisor.Telemetry.Signed.{open_tick-authentic}
use mesh_supervisor.Telemetry.Restart.{restart_is_silent, published}
use mesh_supervisor.Map.{lookup}
use mesh_supervisor.Telemetry.Replay.{replay_refused, accept_all, Arrivals}
use mesh_supervisor.Proto.Frame.{IsInverse, Codec, Bytes}
use mesh_supervisor.Telemetry.{LatestSeq, accept_tick, IsCrypto, open_tick, Tick, Crypto}
use mesh_supervisor.Proto.{stale, exited, Usage, ProcState, running, ProcInfo}
use mathlib.Core.Option.{some-injective}
use mesh_supervisor.Prelude.{
  nat_beq, nat_beq_iff, ok, ℕ, ◌≡◌, refl, subst, true, false, Option, none, some, List, [], ◌∷◌,
  arith,
}

abbrev tick_of : Bytes → Option Tick
tick_of (from ∷ ts ∷ seq ∷ []) = some (record { from = from; ts = ts; seq = seq; stats = [] })
tick_of (from ∷ ts ∷ seq ∷ handle ∷ pid ∷ restarts ∷ []) = some (record {
  from = from;
  ts = ts;
  seq = seq;
  stats =
      record { handle = handle; pid = pid; state = running; usage = none; restarts = restarts }
      ∷ [];
})
tick_of bytes = none

abbrev one_bytes : Tick → ProcInfo → ProcState → Option Usage → Option Bytes
one_bytes t i running none = some (t.from ∷ t.ts ∷ t.seq ∷ i.handle ∷ i.pid ∷ i.restarts ∷ [])
one_bytes t i s u = none

abbrev tick_bytes : Tick → List ProcInfo → Option Bytes
tick_bytes t [] = some (t.from ∷ t.ts ∷ t.seq ∷ [])
tick_bytes t (i ∷ []) = one_bytes t i i.state i.usage
tick_bytes t stats = none

abbrev tick_codec : Codec Tick
tick_codec = record { to_allocvec = λ t. tick_bytes t t.stats; from_bytes = tick_of }

tick_of-one_bytes :
    (from ts seq handle pid restarts : ℕ) (state : ProcState) (usage : Option Usage) (b : Bytes)
    → let i : ProcInfo = record {
      handle = handle;
      pid = pid;
      state = state;
      usage = usage;
      restarts = restarts;
    } in
      let t : Tick = record { from = from; ts = ts; seq = seq; stats = i ∷ [] } in
      one_bytes t i state usage ≡ some b → tick_of b ≡ some t
tick_of-one_bytes from ts seq handle pid restarts running none b e =
    subst (λ x. tick_of x ≡ tick_of (from ∷ ts ∷ seq ∷ handle ∷ pid ∷ restarts ∷ []))
      (some-injective _ _ e) refl
tick_of-one_bytes from ts seq handle pid restarts running (some u) b e = cc
tick_of-one_bytes from ts seq handle pid restarts (exited code) usage b e = cc
tick_of-one_bytes from ts seq handle pid restarts stale usage b e = cc

tick_of-tick_bytes :
    (from ts seq : ℕ) (stats : List ProcInfo) (b : Bytes)
    → let t : Tick = record { from = from; ts = ts; seq = seq; stats = stats } in
      tick_bytes t stats ≡ some b → tick_of b ≡ some t
tick_of-tick_bytes from ts seq [] b e =
    subst (λ x. tick_of x ≡ some (record { from = from; ts = ts; seq = seq; stats = [] }))
      (some-injective _ _ e) refl
tick_of-tick_bytes from ts seq (i ∷ []) b e =
    tick_of-one_bytes from ts seq i.handle i.pid i.restarts i.state i.usage b e
tick_of-tick_bytes from ts seq (i ∷ j ∷ stats) b e = cc

abbrev signed_of : Bytes → Option (Bytes × ℕ)
signed_of [] = none
signed_of (sig ∷ body) = some (body, sig)

abbrev signed_codec : Codec (Bytes × ℕ)
signed_codec = record { to_allocvec = λ p. some (p.1 ∷ p.0); from_bytes = signed_of }

-- A signature names its key.
abbrev pub toy : Crypto
toy = record {
  SecretKey = ℕ;
  Signature = ℕ;
  public = λ k. k;
  sign = λ k b. k;
  verify = λ k b s. nat_beq k s;
  tick = tick_codec;
  signed = signed_codec;
}

signed_codec-IsInverse : IsInverse signed_codec
signed_codec-IsInverse = record {
  decodes = λ p b e. subst (λ x. signed_of x ≡ some p) (some-injective _ _ e) refl;
}

tick_codec-IsInverse : IsInverse tick_codec
tick_codec-IsInverse = record {
  decodes = λ t b e. tick_of-tick_bytes t.from t.ts t.seq t.stats b e;
}

pub toy-IsCrypto : IsCrypto toy
toy-IsCrypto = record {
  verifies = λ k b. (nat_beq_iff k k).1 refl;
  tick = tick_codec-IsInverse;
  signed = signed_codec-IsInverse;
}

abbrev seen : ℕ → LatestSeq
seen n = (5, n) ∷ []

abbrev pub nothing_seen : LatestSeq
nothing_seen = []

abbrev pub third : Tick
third = record { from = 5; ts = 1000; seq = 3; stats = [] }

abbrev arrivals : Arrivals
arrivals = (1200, third) ∷ (1300, record third { seq = 2 }) ∷ (1400, record third { seq = 4 }) ∷ []

third_taken : (accept_tick third 1200 [] 10000).0 ≡ true
unfolding accept_tick lookup
third_taken = refl

replay_refused_example :
    (accept_tick third 1500
      (accept_all 10000 (accept_tick third 1200 [] 10000).1 arrivals).1
      10000).0
    ≡ false
replay_refused_example =
    replay_refused third third 1200 1500 10000 [] arrivals third_taken refl (omega arith)

abbrev pub third_sent : Bytes
third_sent = 5 ∷ 5 ∷ 1000 ∷ 3 ∷ []

third_opened : open_tick toy third_sent ≡ ok third
unfolding open_tick
third_opened = refl

open_tick-authentic_example :
    (signed : Bytes × ℕ) × (signed_of third_sent ≡ some signed)
    × (tick_of signed.0 ≡ some third)
    × (nat_beq 5 signed.1 ≡ true)
open_tick-authentic_example = open_tick-authentic toy third_sent third third_opened

abbrev pub idle_info : ProcInfo
idle_info = record { handle = 1; pid = 701; state = running; usage = none; restarts = 0 }

seen_nine : lookup 5 (seen 9) ≡ some 9
unfolding lookup
seen_nine = refl

restart_is_silent_example :
    accept_all 10000 (seen 9) (published toy 5 0 ((1000, idle_info, []) ∷ [])) ≡ ([], seen 9)
restart_is_silent_example =
    restart_is_silent toy 5 9 10000 (seen 9) ((1000, idle_info, []) ∷ []) seen_nine (omega arith)
      (omega arith)
