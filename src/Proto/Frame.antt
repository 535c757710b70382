-- ===== src/Proto/Frame.antt =====
-- src/proto.rs: `write_msg` and `read_msg`, a big-endian u32 length before a postcard message.
-- A stream is the list of the bytes that have not been read.
pub mod RoundTrip
use mesh_supervisor.Prelude.{
  ltb, leb, if◌then◌else◌, length, take, drop, Result, ok, err, ℕ, ◌+◌, ◌*◌, ◌/◌, ◌%◌, ◌^◌, ◌≡◌,
  Option, none, some, List, [], ◌∷◌, ◌++◌,
}

abbrev pub Bytes : Type 0
Bytes = List ℕ

-- The postcard crate, at one type of messages.
pub record Codec (T : Type 0) : Type 0 where
  pub to_allocvec : T → Option Bytes
  pub from_bytes : Bytes → Option T

-- What the code relies on: an encoding decodes to its value.
pub record IsInverse {T : Type 0} (c : Codec T) : Type 0 where
  pub decodes : (x : T) (b : Bytes) → c.to_allocvec x ≡ some b → c.from_bytes b ≡ some x

abbrev pub max_frame : ℕ
max_frame = 64 * 1024

pub data FrameError : Type 0 where
  codec : FrameError
  too_large : ℕ → FrameError
  unexpected_end : FrameError

-- The four bytes of `write_u32`.
unfoldable pub write_u32 : ℕ → Bytes
write_u32 n = (n / 2 ^ 24 % 256) ∷ (n / 2 ^ 16 % 256) ∷ (n / 2 ^ 8 % 256) ∷ (n % 256) ∷ []

-- `read_u32`: the number and the rest of the stream.
unfoldable pub read_u32 : Bytes → Option (ℕ × Bytes)
read_u32 (a ∷ b ∷ c ∷ d ∷ rest) = some (a * 2 ^ 24 + b * 2 ^ 16 + c * 2 ^ 8 + d, rest)
read_u32 _ = none

-- `read_exact` into a buffer of `len` bytes.
unfoldable pub read_exact : ℕ → Bytes → Option (Bytes × Bytes)
read_exact len s = if leb len (length s) then some (take len s, drop len s) else none

module _ {T : Type 0} (c : Codec T) where
  -- The bytes that a `write_msg` sends, or why it sends none. `bytes.len() as u32` keeps 32 bits.
  unfoldable pub write_msg : T → Result FrameError Bytes
  write_msg msg = elim (c.to_allocvec msg) [
    | none ↦ err codec
    | some bytes ↦
        if ltb max_frame (length bytes)
        then err (too_large (length bytes))
        else ok (write_u32 (length bytes % 2 ^ 32) ++ bytes)
  ]

  unfoldable pub decode_body : Option (Bytes × Bytes) → Result FrameError (T × Bytes)
  decode_body none = err unexpected_end
  decode_body (some (bytes, rest)) = elim (c.from_bytes bytes) [
    | none ↦ err codec
    | some msg ↦ ok (msg, rest)
  ]

  unfoldable pub read_body : Option (ℕ × Bytes) → Result FrameError (T × Bytes)
  unfolding decode_body read_exact
  read_body none = err unexpected_end
  read_body (some (len, s)) =
      if ltb max_frame len then err (too_large len) else decode_body (read_exact len s)

  -- The message and the rest of the stream.
  unfoldable pub read_msg : Bytes → Result FrameError (T × Bytes)
  unfolding read_body
  read_msg s = read_body (read_u32 s)
