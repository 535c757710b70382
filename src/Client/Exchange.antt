-- ===== src/Client/Exchange.antt =====
-- A call of src/client.rs that meets `accept` of src/supervisor.rs: the two ends of one connection,
-- with their frames between them.
use mesh_supervisor.Proto
use native.Mathlib.Nat.{eq-or-lt_of_le}
use mesh_supervisor.Supervisor.{
  accept, malformed, Host, Supervisor, Reply, Incoming, answer, stream, received,
}
use mesh_supervisor.Supervisor
use mesh_supervisor.Supervisor.Stream.{Received, chunk, closed, lagged_by, stream_chunks}
use mesh_supervisor.Prelude.{
  nat_eq, Result, ◌>>=◌, ok, err, ℕ, ◌≤◌, max, ◌≡◌, refl, sym, ap, subst, ◌∙◌, inl, inr, true,
  false, Option, none, some, List, [], ◌∷◌, ◌++◌, append-nil, arith,
}
use mesh_supervisor.Proto.Frame.RoundTrip.{read_msg-write_msg}
use mesh_supervisor.Process.State.{Stdout}
use mesh_supervisor.Client.Retry.{StopsAt, with_retry-StopsAt, is_failure}
use mesh_supervisor.Proto.{Handle, EndpointId, Response, Request}
use mesh_supervisor.Config.{ClientConfig}
use mesh_supervisor.Proto.Frame.{IsInverse, codec, write_msg, read_msg, Bytes, FrameError, Codec}
use mesh_supervisor.Store.Database.{Disk}
use mesh_supervisor.Client.{with_retry}
use mesh_supervisor.Client.Session.{
  expect_ack, stdin_stream, subscribe, opened, send_request, connect_bi, read_response, Link,
  request,
}

-- An attempt that the retries come to has succeeded: `with_retry` succeeds.
pub with_retry_reaches :
    {E T : Type 0} (cfg : ClientConfig) (f : ℕ → Result E T) (j : ℕ)
    → 1 ≤ j
    → j ≤ max cfg.max_retries 1
    → is_failure (f j) ≡ false
    → (v : T) × ((with_retry cfg f).0 ≡ some (ok v))
with_retry_reaches cfg f j first last works =
    let (n, stops, result, calls) = with_retry-StopsAt cfg f in
    let fine : is_failure (f n) ≡ false = reached n stops in
    let (v, e) = succeeded (f n) fine in (v, result ∙ ap some e)
  where
    reached : (n : ℕ) → StopsAt f (max cfg.max_retries 1) 1 n → is_failure (f n) ≡ false
    reached n stops = elim stops.settled [
      | inl fine ↦ fine
      | inr at_last ↦ elim (eq-or-lt_of_le (omega arith)) [
        | inl same ↦ subst (λ i. is_failure (f i) ≡ false) same works
        | inr before ↦ let failed = stops.failed_before j first before in cc
      ]
    ]

    succeeded : {E T : Type 0} (r : Result E T) → is_failure r ≡ false → (v : T) × (r ≡ ok v)
    succeeded (ok v) e = (v, refl)
    succeeded (err x) e = cc

-- What the supervisor reads of the bytes that were sent.
abbrev pub incoming_of : Codec Request → Bytes → Incoming
incoming_of c sent = elim (read_msg c sent) [ ok (req, rest) ↦ received req | err e ↦ malformed ]

-- The bytes of a reply; `receiver` is what the receiver of a process's channel gives from the
-- subscription on. No write fails.
abbrev pub bytes_of : Codec Response → (Stdout → List Received) → Reply → Result FrameError Bytes
bytes_of c receiver (answer resp) = write_msg c resp
bytes_of c receiver (stream out) = elim (write_msg c Proto.ack) [
  | ok frame ↦ ok (frame ++ (stream_chunks (λ b. true) (receiver out)).0)
  | err e ↦ err e
]
bytes_of c receiver Supervisor.panicked = err codec

-- The chunks that a receiver gives before its channel is closed; those that a lag loses, or that came
-- before the subscription, are not among them.
abbrev pub heard : List Received → Bytes
heard [] = []
heard (chunk c ∷ later) = c ++ heard later
heard (lagged_by n ∷ later) = heard later
heard (closed ∷ later) = []

stream_chunks-heard : (rs : List Received) → (stream_chunks (λ b. true) rs).0 ≡ heard rs
unfolding stream_chunks
stream_chunks-heard [] = refl
stream_chunks-heard (chunk c ∷ later) = ap (λ l. c ++ l) (stream_chunks-heard later)
stream_chunks-heard (lagged_by n ∷ later) = stream_chunks-heard later
stream_chunks-heard (closed ∷ later) = refl

abbrev pub sent_or_none : Result FrameError Bytes → Option Bytes
sent_or_none (ok bytes) = some bytes
sent_or_none (err e) = none

bind_ok :
    {E A B : Type 0} {r : Result E A} {a : A} (f : A → Result E B) → r ≡ ok a → (r >>= f) ≡ f a
bind_ok f e = ap (λ r. r >>= f) e

module _ (d : Disk) (requests : Codec Request) (responses : Codec Response)
    (receiver : Stdout → List Received) (s : Supervisor d) (host : Host) (remote : EndpointId)
    (now : ℕ) where
  -- A connection to the supervisor that the network does not break.
  abbrev pub link_to : Link
  link_to = record {
    takes = λ bytes. true;
    arrives = λ sent.
        sent_or_none
          (bytes_of responses receiver (accept d s host remote now (incoming_of requests sent)).1);
    copies = true;
  }

  module _ (inverse_requests : IsInverse requests) (inverse_responses : IsInverse responses) where
    sent_received :
        (req : Request) (sent input : Bytes)
        → write_msg requests req ≡ ok sent
        → incoming_of requests (sent ++ input) ≡ received req
    sent_received req sent input e =
        rw (incoming_of, read_msg-write_msg requests inverse_requests req sent input e) refl

    arrives_from :
        (req : Request) (sent input : Bytes)
        → write_msg requests req ≡ ok sent
        → link_to.arrives (sent ++ input)
          ≡ sent_or_none (bytes_of responses receiver (accept d s host remote now (received req)).1)
    arrives_from req sent input e = rw (sent_received req sent input e) refl

    response_read :
        {E : Type 0} (resp : Response) (back rest : Bytes)
        → write_msg responses resp ≡ ok back
        → read_response {E = E} responses (some (back ++ rest)) ≡ ok (resp, rest)
    unfolding read_response
    response_read resp back rest e =
        rw (read_msg-write_msg responses inverse_responses resp back rest e) refl

    answer_read :
        {E : Type 0} (req : Request) (sent input : Bytes) (resp : Response) (back : Bytes)
        → write_msg requests req ≡ ok sent
        → (accept d s host remote now (received req)).1 ≡ answer resp
        → write_msg responses resp ≡ ok back
        → read_response {E = E} responses (link_to.arrives (sent ++ input)) ≡ ok (resp, [])
    answer_read req sent input resp back e answered framed_back =
        ap (read_response responses) (
          arrives_from req sent input e
          ∙ ap (λ r. sent_or_none (bytes_of responses receiver r)) answered
          ∙ ap sent_or_none framed_back
          ∙ ap some (sym (append-nil back)))
        ∙ response_read resp back [] framed_back

    stream_read :
        {E : Type 0} (req : Request) (sent : Bytes) (out : Stdout) (back : Bytes)
        → write_msg requests req ≡ ok sent
        → (accept d s host remote now (received req)).1 ≡ stream out
        → write_msg responses Proto.ack ≡ ok back
        → read_response {E = E} responses (link_to.arrives (sent ++ []))
          ≡ ok (Proto.ack, heard (receiver out))
    stream_read req sent out back e streamed framed_back =
        ap (read_response responses) (
          arrives_from req sent [] e
          ∙ ap (λ r. sent_or_none (bytes_of responses receiver r)) streamed
          ∙ acked framed_back)
        ∙ response_read Proto.ack back (heard (receiver out)) framed_back
      where
        acked :
            write_msg responses Proto.ack ≡ ok back
            → sent_or_none (bytes_of responses receiver (stream out))
              ≡ some (back ++ heard (receiver out))
        acked e' = rw (bytes_of, e', stream_chunks-heard (receiver out)) refl

    module _ {E : Type 0} (cfg : ClientConfig) (dial : ℕ → Result E (Unit {0})) (j : ℕ)
        (first : 1 ≤ j) (last : j ≤ max cfg.max_retries 1)
        (works : is_failure (dial j) ≡ false) where
      connected : connect_bi cfg dial ≡ ok tt
      unfolding connect_bi
      connected = let (v, e) = with_retry_reaches cfg dial j first last works in ap opened e

      sends :
          (req : Request) (sent : Bytes)
          → write_msg requests req ≡ ok sent
          → send_request requests responses cfg dial link_to req ≡ ok sent
      unfolding send_request
      sends req sent e = rw (connected, e) refl

      -- A request that dials the supervisor within its retries returns the response that `accept`
      -- gives to it, if both of their frames can be sent.
      pub request_answers :
          (req : Request) (sent : Bytes) (resp : Response) (back : Bytes)
          → write_msg requests req ≡ ok sent
          → (accept d s host remote now (received req)).1 ≡ answer resp
          → write_msg responses resp ≡ ok back
          → request requests responses cfg dial link_to req ≡ ok resp
      unfolding request
      request_answers req sent resp back e answered framed_back =
          bind_ok _ (sends req sent e)
          ∙ ap (λ b. read_response responses (link_to.arrives b) >>= λ reply. ok reply.0)
              (sym (append-nil sent))
          ∙ bind_ok _ (answer_read req sent [] resp back e answered framed_back)

      -- A subscription that dials the supervisor within its retries copies, if `accept` streams to it,
      -- each chunk that its receiver gives from the subscription on until the channel is closed, in
      -- order, past any lag. What was printed before, and what a lag loses, is not copied. No write
      -- fails, both frames can be sent, and encodings decode.
      pub subscribe_streams :
          (id : Handle) (sent : Bytes) (out : Stdout) (back : Bytes)
          → write_msg requests (Proto.subscribe id) ≡ ok sent
          → (accept d s host remote now (received (Proto.subscribe id))).1 ≡ stream out
          → write_msg responses Proto.ack ≡ ok back
          → subscribe requests responses cfg dial link_to id ≡ ok (heard (receiver out))
      unfolding subscribe
      subscribe_streams id sent out back e streamed framed_back =
          bind_ok _ (sends (Proto.subscribe id) sent e)
          ∙ ap
              (λ b. read_response responses (link_to.arrives b) >>= λ reply.
                expect_ack reply.0 >>= λ u. ok reply.1)
              (sym (append-nil sent))
          ∙ bind_ok _ (stream_read (Proto.subscribe id) sent out back e streamed framed_back)

      -- Input that is piped to a process by a connection that dials the supervisor within its retries
      -- comes to an end as `accept` says: well after an `Ack`, else with the error it answers.
      pub stdin_stream_answers :
          (id : Handle) (sent input : Bytes) (resp : Response) (back : Bytes)
          → write_msg requests (Proto.stdin_stream id) ≡ ok sent
          → (accept d s host remote now (received (Proto.stdin_stream id))).1 ≡ answer resp
          → write_msg responses resp ≡ ok back
          → stdin_stream requests responses cfg dial link_to id input ≡ expect_ack resp
      unfolding stdin_stream
      stdin_stream_answers id sent input resp back e answered framed_back =
          bind_ok _ (sends (Proto.stdin_stream id) sent e)
          ∙ bind_ok _
              (answer_read (Proto.stdin_stream id) sent input resp back e answered framed_back)
