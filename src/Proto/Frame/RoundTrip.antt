-- ===== src/Proto/Frame/RoundTrip.antt =====
-- What a reader makes of the frames that `write_msg` sends, and of any other stream.
use mesh_supervisor.Prelude.{
  Option-cases, length, length-append, take-length-append, drop-length-append, ok, err, ℕ, ◌^◌, ◌≤◌,
  ◌<◌, ◌≡◌, inl, inr, some, ◌++◌, append_assoc, arith,
}
use mesh_supervisor.Proto.Frame.{
  Bytes, Codec, IsInverse, max_frame, too_large, unexpected_end, write_u32, read_u32, read_exact,
  write_msg, read_msg,
}

read_u32-write_u32 : (n : ℕ) (s : Bytes) → n < 2 ^ 32 → read_u32 (write_u32 n ++ s) ≡ some (n, s)
unfolding read_u32 write_u32
read_u32-write_u32 n s h = ground arith

read_exact-append : (xs ys : Bytes) → read_exact (length xs) (xs ++ ys) ≡ some (xs, ys)
unfolding read_exact
read_exact-append xs ys =
    ground (arith, length-append xs ys, take-length-append xs ys, drop-length-append xs ys)

module _ {T : Type 0} (c : Codec T) where
  write_msg-parts :
      (msg : T) (frame bytes : Bytes)
      → c.to_allocvec msg ≡ some bytes
      → write_msg c msg ≡ ok frame
      → (length bytes ≤ max_frame) × (frame ≡ write_u32 (length bytes) ++ bytes)
  unfolding write_msg
  write_msg-parts msg frame bytes e h = ground (arith, e)

  write_msg-encodes :
      (msg : T) (frame : Bytes)
      → write_msg c msg ≡ ok frame
      → (bytes : Bytes) × (c.to_allocvec msg ≡ some bytes)
  unfolding write_msg
  write_msg-encodes msg frame h = elim (Option-cases (c.to_allocvec msg)) [
    | inl e ↦ absurd (ground (arith, e))
    | inr found ↦ found
  ]

  read_msg_frame :
      (msg : T) (bytes rest : Bytes)
      → length bytes ≤ max_frame
      → c.from_bytes bytes ≡ some msg
      → read_msg c (write_u32 (length bytes) ++ (bytes ++ rest)) ≡ ok (msg, rest)
  unfolding read_msg
  read_msg_frame msg bytes rest h e =
      rw (read_u32-write_u32 (length bytes) (bytes ++ rest) (omega arith))
        (ground (arith, e, read_exact-append bytes rest))

module _ {T : Type 0} (c : Codec T) (inverse : IsInverse c) where
  -- With an encoding that decodes, a message that `write_msg` sent is what `read_msg` returns, and
  -- the reader stops where the frame ends: what follows in the stream is left for the next read.
  pub read_msg-write_msg :
      (msg : T) (frame rest : Bytes)
      → write_msg c msg ≡ ok frame
      → read_msg c (frame ++ rest) ≡ ok (msg, rest)
  read_msg-write_msg msg frame rest h =
      let (bytes, encoded) = write_msg-encodes c msg frame h in
      let (fits, shape) = write_msg-parts c msg frame bytes encoded h in
      rw (shape, append_assoc)
        (read_msg_frame c msg bytes rest fits (inverse.decodes msg bytes encoded))

module _ {T : Type 0} (c : Codec T) where
  -- A frame whose length field is above the limit is refused whatever follows, before a byte of
  -- its body is looked at.
  pub read_msg_too_large :
      (n : ℕ) (s : Bytes)
      → max_frame < n
      → n < 2 ^ 32
      → read_msg c (write_u32 n ++ s) ≡ err (too_large n)
  unfolding read_msg
  read_msg_too_large n s above fits = rw (read_u32-write_u32 n s fits) (ground arith)

  -- A stream that ends inside the body is an error, and never a message.
  pub read_msg_truncated :
      (n : ℕ) (s : Bytes)
      → length s < n
      → n ≤ max_frame
      → read_msg c (write_u32 n ++ s) ≡ err unexpected_end
  unfolding read_msg
  read_msg_truncated n s short fits = rw (read_u32-write_u32 n s (omega arith)) (ground arith)
