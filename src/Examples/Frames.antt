-- ===== src/Examples/Frames.antt =====
-- The theorems on the frames of src/proto.rs, at a codec of single numbers.
use mesh_supervisor.Prelude.{nat_eq, ok, ℕ, ◌≡◌, refl, subst, Option, none, some, [], ◌∷◌, ◌++◌}
use mesh_supervisor.Proto.Frame.RoundTrip.{read_msg-write_msg}
use mesh_supervisor.Proto.Frame.{write_u32, Codec, write_msg, IsInverse, read_msg, Bytes}
use mathlib.Core.Option.{some-injective}

abbrev number_of : Bytes → Option ℕ
number_of [] = none
number_of (n ∷ rest) = some n

abbrev number_codec : Codec ℕ
number_codec = record { to_allocvec = λ n. some (n ∷ []); from_bytes = number_of }

number_codec-IsInverse : IsInverse number_codec
number_codec-IsInverse = record { decodes = decodes }
  where
    decodes : (n : ℕ) (b : Bytes) → some (n ∷ []) ≡ some b → number_of b ≡ some n
    decodes n b e = subst (λ x. number_of x ≡ some n) (some-injective _ _ e) refl

abbrev frame : Bytes
frame = 0 ∷ 0 ∷ 0 ∷ 1 ∷ 77 ∷ []

frame_sent : write_msg number_codec 77 ≡ ok frame
unfolding write_msg write_u32
frame_sent = refl

read_msg-write_msg_example : read_msg number_codec (frame ++ frame) ≡ ok (77, frame)
read_msg-write_msg_example =
    read_msg-write_msg number_codec number_codec-IsInverse 77 frame frame frame_sent
