-- ===== src/Examples/Calls.antt =====
-- Theorems about calls of a client at the supervisor of `Control`, which dials three times.
use mesh_supervisor.Prelude.{
  ltb, if◌then◌else◌, nat_eq, Result, ok, err, ℕ, ◌≡◌, refl, subst, ◌≢◌, true, Option, none, some,
  List, [], ◌∷◌, arith,
}
use mesh_supervisor.Process.Pump.Forwarding.{stdout_arrives}
use mesh_supervisor.Supervisor.Stream.{stream_chunks, Received, chunk, closed, lagged_by}
use mesh_supervisor.Process.Pump.{pump, bytes, Read}
use mesh_supervisor.Map.{lookup}
use mesh_supervisor.Ratelimit.{admit, allow}
use mesh_supervisor.Commands.Calls.{run_reports}
use mesh_supervisor.Commands.Told.{Tells}
use mesh_supervisor.Commands.Report.{Report}
use mesh_supervisor.Examples.Control.{host, server}
use mesh_supervisor.Examples.Data.{mem_disk}
use mesh_supervisor.Client.Exchange.{subscribe_streams, link_to}
use mesh_supervisor.Proto.{Request, Response}
use mesh_supervisor.Commands.Report.{surprise, run_stop, run}
use mesh_supervisor.Config.{default_client}
use mesh_supervisor.Process.Pump.Forwarding.{delivered}
use mesh_supervisor.Proto
use mesh_supervisor.Process.Table
use mesh_supervisor.Process.Signals.{stop}
use mesh_supervisor.Proto.Frame.{write_u32, Bytes, write_msg, Codec, IsInverse}
use mathlib.Core.Option.{some-injective}
use mesh_supervisor.Client.Session.{subscribe, request}
use mesh_supervisor.Supervisor.{outcome_of, carry_out, accept, received, stream, answer}
use mesh_supervisor.Process.State.{Stdout, channel}

-- Only `stop` and `subscribe` have an encoding.
abbrev encode_request : Request → Option Bytes
encode_request (Proto.stop id) = some (id ∷ [])
encode_request (Proto.subscribe id) = some (id ∷ id ∷ [])
encode_request _ = none

abbrev decode_request : Bytes → Option Request
decode_request [] = none
decode_request (id ∷ []) = some (Proto.stop id)
decode_request (id ∷ _ ∷ rest) = some (Proto.subscribe id)

abbrev requests : Codec Request
requests = record { to_allocvec = encode_request; from_bytes = decode_request }

requests-IsInverse : IsInverse requests
requests-IsInverse = record { decodes = decodes }
  where
    back :
        (req : Request) (b b' : Bytes)
        → decode_request b ≡ some req
        → some b ≡ some b'
        → decode_request b' ≡ some req
    back req b b' known e = subst (λ x. decode_request x ≡ some req) (some-injective _ _ e) known

    decodes :
        (req : Request) (b : Bytes) → encode_request req ≡ some b → decode_request b ≡ some req
    decodes (Proto.stop id) b e = back (Proto.stop id) (id ∷ []) b refl e
    decodes (Proto.subscribe id) b e = back (Proto.subscribe id) (id ∷ id ∷ []) b refl e
    decodes (Proto.spawn spec) b e = cc
    decodes (Proto.signal id sig) b e = cc
    decodes (Proto.stdin_stream id) b e = cc
    decodes (Proto.query id) b e = cc
    decodes (Proto.forget id) b e = cc
    decodes Proto.list b e = cc

-- Only an `Ack` has one.
abbrev encode_response : Response → Option Bytes
encode_response Proto.ack = some (1 ∷ [])
encode_response _ = none

abbrev responses : Codec Response
responses = record { to_allocvec = encode_response; from_bytes = λ b. some Proto.ack }

responses-IsInverse : IsInverse responses
responses-IsInverse = record { decodes = decodes }
  where
    decodes :
        (resp : Response) (b : Bytes) → encode_response resp ≡ some b → some Proto.ack ≡ some resp
    decodes Proto.ack b e = refl
    decodes (Proto.error x) b e = cc
    decodes (Proto.spawned id pid) b e = cc
    decodes (Proto.status i) b e = cc
    decodes (Proto.listed infos) b e = cc

-- The receiver of each channel gives two chunks, between which it has lagged.
abbrev receiver : Stdout → List Received
receiver out = chunk (104 ∷ []) ∷ lagged_by 3 ∷ chunk (105 ∷ []) ∷ closed ∷ []

abbrev dial : ℕ → Result ℕ (Unit {0})
dial n = if ltb n 3 then err n else ok tt

stop_framed : write_msg requests (Proto.stop 2) ≡ ok (0 ∷ 0 ∷ 0 ∷ 1 ∷ 2 ∷ [])
unfolding write_msg write_u32
stop_framed = refl

subscribe_framed : write_msg requests (Proto.subscribe 2) ≡ ok (0 ∷ 0 ∷ 0 ∷ 2 ∷ 2 ∷ 2 ∷ [])
unfolding write_msg write_u32
subscribe_framed = refl

ack_framed : write_msg responses Proto.ack ≡ ok (0 ∷ 0 ∷ 0 ∷ 1 ∷ 1 ∷ [])
unfolding write_msg write_u32
ack_framed = refl

stop_acked : (accept mem_disk server host 7 1000 (received (Proto.stop 2))).1 ≡ answer Proto.ack
unfolding accept carry_out allow admit lookup outcome_of stop
stop_acked = refl

subscribe_streamed :
    (accept mem_disk server host 7 1000 (received (Proto.subscribe 2))).1 ≡ stream (channel 702)
unfolding accept carry_out allow admit lookup outcome_of Table.subscribe
subscribe_streamed = refl

run_reports_example :
    (report : Report) × (run
        (request requests responses default_client dial
          (link_to mem_disk requests responses receiver server host 7 1000))
        (run_stop 2)
      ≡ ok report)
    × Tells (run_stop 2) Proto.ack report
    × ((other : Response) → report ≢ surprise other)
run_reports_example =
    run_reports mem_disk requests responses receiver server host 7 1000 requests-IsInverse
      responses-IsInverse default_client dial 3 (omega arith) (omega arith) refl (run_stop 2)
      (0 ∷ 0 ∷ 0 ∷ 1 ∷ 2 ∷ []) Proto.ack (0 ∷ 0 ∷ 0 ∷ 1 ∷ 1 ∷ []) stop_framed stop_acked ack_framed

subscribe_streams_example :
    subscribe requests responses default_client dial
      (link_to mem_disk requests responses receiver server host 7 1000)
      2
    ≡ ok (104 ∷ 105 ∷ [])
subscribe_streams_example =
    subscribe_streams mem_disk requests responses receiver server host 7 1000 requests-IsInverse
      responses-IsInverse default_client dial 3 (omega arith) (omega arith) refl 2
      (0 ∷ 0 ∷ 0 ∷ 2 ∷ 2 ∷ 2 ∷ []) (channel 702) (0 ∷ 0 ∷ 0 ∷ 1 ∷ 1 ∷ []) subscribe_framed
      subscribe_streamed ack_framed

-- Three reads, with one receiver or two.
abbrev two_reads : List (Read × ℕ)
two_reads = (bytes (104 ∷ 105 ∷ []), 1) ∷ (bytes (33 ∷ []), 2) ∷ (bytes [], 1) ∷ []

stdout_arrives_example :
    stream_chunks (λ c. true) (delivered (pump [] two_reads)) ≡ (104 ∷ 105 ∷ 33 ∷ [], true)
stdout_arrives_example =
    stdout_arrives (λ c. true) two_reads (λ c. refl) (omega arith, (omega arith, (omega arith, tt)))
