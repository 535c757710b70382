-- ===== src/Client/Session.antt =====
-- src/client.rs: `request`, `subscribe` and `stdin_stream`, on top of `with_retry`. iroh's connection
-- is a parameter. The closing of a connection after its last message is left out.
use mesh_supervisor.Proto
use mesh_supervisor.Prelude.{
  if◌then◌else◌, nat_eq, Result, ◌>>=◌, ok, err, ℕ, Bool, Option, none, some, ◌++◌,
}
use mesh_supervisor.Config.{ClientConfig}
use mesh_supervisor.Proto.{Handle, Request, ControlError, Response}
use mesh_supervisor.Proto.Frame.{write_msg, read_msg, Bytes, Codec, FrameError}
use mesh_supervisor.Client.{with_retry}

-- Where a call stops. `broken` is an error of a stream, `unreachable` the one below `with_retry`'s
-- loop.
pub data CallError (E : Type 0) : Type 0 where
  transport : E → CallError E
  framing : FrameError → CallError E
  broken late unreachable : CallError E
  rejected : ControlError → CallError E
  unexpected : Response → CallError E

-- A connection with an open stream: whether bytes that are written are taken, what arrives within
-- the read timeout after all that was written, and whether the copying of a stream ends well.
pub record Link : Type 0 where
  pub takes : Bytes → Bool
  pub arrives : Bytes → Option Bytes
  pub copies : Bool

module _ {E : Type 0} where
  abbrev pub framed {ℓ} : {A : Type ℓ} → Result FrameError A → Result (CallError E) A
  framed (ok a) = ok a
  framed (err e) = err (framing e)

  abbrev pub guard : Bool → Result (CallError E) (Unit {0})
  guard b = if b then ok tt else err broken

  abbrev pub opened : Option (Result E (Unit {0})) → Result (CallError E) (Unit {0})
  opened none = err unreachable
  opened (some (ok u)) = ok u
  opened (some (err e)) = err (transport e)

  -- `connect_bi`, from the outcomes of the attempts to dial.
  unfoldable pub connect_bi :
      ClientConfig → (ℕ → Result E (Unit {0})) → Result (CallError E) (Unit {0})
  connect_bi cfg dial = opened (with_retry cfg dial).0

  -- `read_response`: the response and the rest of the stream.
  unfoldable pub read_response :
      Codec Response → Option Bytes → Result (CallError E) (Response × Bytes)
  read_response c none = err late
  read_response c (some bytes) = framed (read_msg c bytes)

  -- An `Ack`, or why there is none.
  unfoldable pub expect_ack : Response → Result (CallError E) (Unit {0})
  expect_ack Proto.ack = ok tt
  expect_ack (Proto.error e) = err (rejected e)
  expect_ack (Proto.spawned id pid) = err (unexpected (Proto.spawned id pid))
  expect_ack (Proto.status i) = err (unexpected (Proto.status i))
  expect_ack (Proto.listed is) = err (unexpected (Proto.listed is))

  module _ (requests : Codec Request) (responses : Codec Response) (cfg : ClientConfig)
      (dial : ℕ → Result E (Unit {0})) (link : Link) where
    -- Dial, and write the request: the bytes that were sent.
    unfoldable pub send_request : Request → Result (CallError E) Bytes
    unfolding connect_bi
    send_request req = do
      u ← connect_bi cfg dial
      frame ← framed (write_msg requests req)
      u' ← guard (link.takes frame)
      ok frame

    unfoldable pub request : Request → Result (CallError E) Response
    unfolding send_request read_response
    request req = do
      sent ← send_request req
      reply ← read_response responses (link.arrives sent)
      ok reply.0

    -- What is copied to `out`.
    unfoldable pub subscribe : Handle → Result (CallError E) Bytes
    unfolding send_request read_response expect_ack
    subscribe id = do
      sent ← send_request (Proto.subscribe id)
      reply ← read_response responses (link.arrives sent)
      u ← expect_ack reply.0
      u' ← guard link.copies
      ok reply.1

    unfoldable pub stdin_stream : Handle → Bytes → Result (CallError E) (Unit {0})
    unfolding send_request read_response expect_ack
    stdin_stream id input = do
      sent ← send_request (Proto.stdin_stream id)
      u ← guard link.copies
      reply ← read_response responses (link.arrives (sent ++ input))
      expect_ack reply.0
