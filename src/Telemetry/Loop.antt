-- ===== src/Telemetry/Loop.antt =====
-- `watch_loop` of src/telemetry.rs over the events of its topic.
use mesh_supervisor.Prelude.{
  Bool-cases, nat_eq, Result, ok, err, ℕ, ◌≡◌, refl, ap, inl, inr, Option, none, some, List, [],
  ◌∷◌, ◌++◌,
}
use mesh_supervisor.Telemetry.{
  Tick, TickError, Crypto, Watcher, Event, message, neighbor_up, neighbor_down, lagged, watch,
  watch_tick, open_tick, accept_tick, show_stats, Shown, Samples,
}
use mesh_supervisor.Telemetry.Replay.{Arrivals, accept_all}
use mesh_supervisor.Telemetry.Rates.{samples_after}

-- The stream of the topic: each event with the time at which it is handled, or an error.
abbrev pub Stream : Type 0
Stream = List (ℕ × Option Event)

-- A tick that was opened, before the others.
abbrev pub when_open : ℕ → Result TickError Tick → Arrivals → Arrivals
when_open now (ok tick) later = (now, tick) ∷ later
when_open now (err e) later = later

-- What is printed for ticks that are accepted one after the other.
unfoldable pub shown : List Tick → Samples → List Shown
shown [] prev = []
shown (t ∷ ticks) prev = (show_stats t t.stats prev).0 ++ shown ticks (samples_after t t.stats prev)

module _ (c : Crypto) where
  -- `watch_loop`: an error of the stream ends it.
  unfoldable pub watch_loop : ℕ → Watcher → Stream → Watcher × List Shown
  watch_loop age w [] = (w, [])
  watch_loop age w ((now, none) ∷ events) = (w, [])
  watch_loop age w ((now, some event) ∷ events) =
      let (w', lines) = watch c age now w event in
      let (w'', more) = watch_loop age w' events in (w'', lines ++ more)

  -- The ticks in the stream that open, up to an error of the stream.
  unfoldable pub opened : Stream → Arrivals
  opened [] = []
  opened ((now, none) ∷ events) = []
  opened ((now, some (message content)) ∷ events) =
      when_open now (open_tick c content) (opened events)
  opened ((now, some (neighbor_up id)) ∷ events) = opened events
  opened ((now, some (neighbor_down id)) ∷ events) = opened events
  opened ((now, some lagged) ∷ events) = opened events

  module _ (age : ℕ) where
    -- The lines of the rest of the stream, after the watcher that is reached.
    abbrev Prints : Stream → Type 0
    Prints events =
        (w : Watcher)
        → (watch_loop age w events).1 ≡ shown (accept_all age w.latest_seq (opened events)).0 w.prev

    accepted-Prints :
        (now : ℕ) (t : Tick) (events : Stream) (w : Watcher)
        → Prints events
        → (let (w', lines) = watch_tick c age now w (ok t) in lines ++ (watch_loop age w' events).1)
          ≡ shown (accept_all age w.latest_seq ((now, t) ∷ opened events)).0 w.prev
    unfolding watch_tick accept_all shown
    accepted-Prints now t events w rest = elim (Bool-cases (accept_tick t now w.latest_seq age).0) [
      | inl taken ↦ rw taken (
          ap (λ l. (show_stats t t.stats w.prev).0 ++ l)
            (rest (record {
              latest_seq = (accept_tick t now w.latest_seq age).1;
              prev = samples_after t t.stats w.prev;
            })))
      | inr refused ↦
          rw refused (rest (record w { latest_seq = (accept_tick t now w.latest_seq age).1 }))
    ]

    message-Prints :
        (now : ℕ) (r : Result TickError Tick) (events : Stream) (w : Watcher)
        → Prints events
        → (let (w', lines) = watch_tick c age now w r in lines ++ (watch_loop age w' events).1)
          ≡ shown (accept_all age w.latest_seq (when_open now r (opened events))).0 w.prev
    unfolding watch_tick
    message-Prints now (ok t) events w rest = accepted-Prints now t events w rest
    message-Prints now (err e) events w rest = rest w

  -- `watch_loop` prints, in order, the lines of those ticks of the stream that open and are accepted,
  -- each against the samples of the accepted ticks before it, up to an error of the stream, and
  -- nothing else.
  pub watch_loop-shown :
      (age : ℕ) (events : Stream) (w : Watcher)
      → (watch_loop age w events).1 ≡ shown (accept_all age w.latest_seq (opened events)).0 w.prev
  unfolding watch_loop opened watch accept_all shown
  watch_loop-shown age [] w = refl
  watch_loop-shown age ((now, none) ∷ events) w = refl
  watch_loop-shown age ((now, some (message content)) ∷ events) w =
      message-Prints age now (open_tick c content) events w (watch_loop-shown age events)
  watch_loop-shown age ((now, some (neighbor_up id)) ∷ events) w = watch_loop-shown age events w
  watch_loop-shown age ((now, some (neighbor_down id)) ∷ events) w = watch_loop-shown age events w
  watch_loop-shown age ((now, some lagged) ∷ events) w = watch_loop-shown age events w
