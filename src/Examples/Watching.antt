-- ===== src/Examples/Watching.antt =====
-- The theorems on the loops of src/telemetry.rs, with the keys, signatures and codecs of `Ticks`.
use mesh_supervisor.Examples.Ticks.{toy, third, third_sent, idle_info, nothing_seen, toy-IsCrypto}
use mesh_supervisor.Prelude.{
  nat_beq, if◌then◌else◌, nat_eq, ℕ, ◌≡◌, refl, inl, inr, Option, none, some, [], ◌∷◌, ◌++◌, arith,
}
use mesh_supervisor.Telemetry.Arrival.{
  watch_loop-publish_loop, numbered, publish_loop, delivered, Rounds, IsSigned, AtMost,
}
use mesh_supervisor.Telemetry.Loop.{watch_loop-shown, opened, shown, watch_loop, Stream}
use mesh_supervisor.Map.{lookup}
use mesh_supervisor.Telemetry.Replay.{accept_all}
use mesh_supervisor.Proto.Frame.{Bytes}
use mesh_supervisor.Telemetry.{
  neighbor_up, message, Watcher, sign_tick, accept_tick, open_tick, Tick, Crypto,
}
use mesh_supervisor.Proto.{ProcInfo}
use mesh_supervisor.Telemetry.Watched.{watch_loop-rates}
use mesh_supervisor.Map.{insert}
use mesh_supervisor.Telemetry.Rates.{IsIn, rate_line}
use mesh_supervisor.Prelude.{
  nat_beq, if◌then◌else◌, ℕ, ◌≡◌, refl, inl, inr, Option, none, some, [], ◌∷◌, ◌++◌, arith,
}

-- Two processes of publisher 5, measured in two ticks that are two seconds apart.
abbrev busy_info : ℕ → ℕ → ProcInfo
busy_info handle cpu = record idle_info {
  handle = handle;
  usage = some (record { mem_bytes = 4096; cpu_usec = cpu });
}

abbrev first_tick : Tick
first_tick = record third { stats = busy_info 1 500 ∷ busy_info 2 9000 ∷ [] }

abbrev later_tick : Tick
later_tick = record third { ts = 3000; seq = 4; stats = busy_info 2 9100 ∷ busy_info 1 700500 ∷ [] }

-- Publisher 6 has a process of the same handle.
abbrev foreign_tick : Tick
foreign_tick = record third { from = 6; stats = busy_info 1 3 ∷ [] }

abbrev new_watcher : Watcher
new_watcher = record { latest_seq = []; prev = [] }

-- The third tick of publisher 5 twice, a neighbor, and an error of the stream.
abbrev events : Stream
events =
    (1200, some (message third_sent))
    ∷ (1250, some (neighbor_up 6))
    ∷ (1300, some (message third_sent))
    ∷ (1400, none)
    ∷ []

watch_loop-shown_example :
    (watch_loop toy 10000 new_watcher events).1
    ≡ shown (accept_all 10000 [] (opened toy events)).0 []
watch_loop-shown_example = watch_loop-shown toy 10000 events new_watcher

abbrev idle_rounds : Rounds
idle_rounds = (1000, idle_info ∷ []) ∷ (2000, []) ∷ (3000, idle_info ∷ []) ∷ []

idle_rounds-IsSigned : IsSigned toy 5 0 idle_rounds
unfolding sign_tick
idle_rounds-IsSigned = ((_, refl), ((_, refl), tt))

nothing_held : AtMost (lookup 5 nothing_seen) 0
unfolding lookup
nothing_held = tt

watch_loop-publish_loop_example :
    (watch_loop toy 10000 new_watcher (delivered (λ ts. 40) (publish_loop toy 5 0 idle_rounds))).1
    ≡ shown (numbered 5 0 idle_rounds) []
watch_loop-publish_loop_example =
    watch_loop-publish_loop toy 5 toy-IsCrypto 10000 (omega arith) (λ ts. 40) (λ ts. omega arith) 0
      idle_rounds new_watcher idle_rounds-IsSigned (omega arith) nothing_held

-- Messages 0, 1 and 2 hold the three ticks, each after its signature.
abbrev numbered_tick : Bytes → Option Tick
numbered_tick [] = none
numbered_tick (n ∷ rest) =
    some (if nat_beq n 0 then first_tick else if nat_beq n 1 then foreign_tick else later_tick)

abbrev meter : Crypto
meter = record toy { tick = record { to_allocvec = λ t. none; from_bytes = numbered_tick } }

abbrev readings : Stream
readings =
    (1100, some (message (5 ∷ 0 ∷ [])))
    ∷ (1200, some (message (6 ∷ 1 ∷ [])))
    ∷ (3100, some (message (5 ∷ 2 ∷ [])))
    ∷ []

readings_taken :
    (accept_all 10000 [] (opened meter readings)).0
    ≡ ([] ++ first_tick ∷ foreign_tick ∷ []) ++ later_tick ∷ []
unfolding accept_all opened open_tick accept_tick lookup insert
readings_taken = refl

watch_loop-rates_example :
    IsIn
      (rate_line later_tick
        (busy_info 1 700500)
        (record { mem_bytes = 4096; cpu_usec = 700500 })
        (700000, 20000))
      (watch_loop meter 10000 new_watcher readings).1
watch_loop-rates_example =
    watch_loop-rates meter 10000 readings new_watcher first_tick later_tick (busy_info 1 500)
      (busy_info 1 700500) (record { mem_bytes = 4096; cpu_usec = 500 })
      (record { mem_bytes = 4096; cpu_usec = 700500 }) [] (foreign_tick ∷ []) [] readings_taken
      (((λ e. omega (arith, e)), tt), (tt, tt)) (((λ e. omega (arith, e)), tt), (tt, tt)) (inl refl)
      (inr (inl refl)) refl refl refl refl (omega arith) ((inl (λ e. omega (arith, e)), tt), tt)
