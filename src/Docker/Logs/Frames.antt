-- ===== src/Docker/Logs/Frames.antt =====
-- internal/docker/client.go: parseMultiplexedLogs returns on every stream, and gives the lines of
-- the frames that Docker writes.
use mathlib.Core.List.{append-nil, append_assoc}
use homelab_dashboard.Prelude.{
  ℕ, zero, suc, ◌+◌, ◌/◌, ◌%◌, ◌^◌, ◌≤◌, ◌<◌, ◌≡◌, refl, sym, ap, ◌∙◌, inl, inr, Bool, false,
  Option, none, some, List, [], ◌∷◌, ◌++◌, length, Text, codes, ltb, arith, Bool-cases, All,
  if◌then◌else◌,
}
use homelab_dashboard.Docker.Logs.{
  LogLine, Ending, eof, read_full, uint32, max_frame, Round, stop, frame, with_payload, sized,
  with_header, read_frame, stream_of, lines_of, Demuxed, returned, demux, parse_multiplexed_logs,
}

-- The rest after n bytes is shorter by n.
Read : ℕ → Text → Option (Text × Text) → Type 0
Read n bytes none = Unit
Read n bytes (some p) = length bytes ≡ n + length p.1

read_full-Read : (n : ℕ) (bytes : Text) → Read n bytes (read_full n bytes)
unfolding Read read_full
read_full-Read zero bytes = ground arith
read_full-Read (suc n) [] = tt
read_full-Read (suc n) (b ∷ bytes) = longer (read_full n bytes) (read_full-Read n bytes)
  where
    longer :
        (o : Option (Text × Text))
        → Read n bytes o
        → Read (suc n) (b ∷ bytes) (elim o [ none ↦ none | some p ↦ some (b ∷ p.0, p.1) ])
    longer none h = tt
    longer (some p) h = omega arith

-- The bytes after a frame are fewer than n.
Shrinks : ℕ → Round → Type 0
Shrinks n (stop e) = Unit
Shrinks n (frame stream payload rest) = length rest < n

with_payload-Shrinks :
    (ending : Ending) (stream : Text) (n size : ℕ) (rest : Text) (o : Option (Text × Text))
    → length rest < n
    → Read size rest o
    → Shrinks n (with_payload ending stream rest o)
unfolding Shrinks Read with_payload
with_payload-Shrinks ending stream n size rest none h r = tt
with_payload-Shrinks ending stream n size rest (some (payload, after)) h r = omega arith

sized-Shrinks :
    (ending : Ending) (stream : Text) (n size : ℕ) (rest : Text)
    → length rest < n
    → Shrinks n (sized ending stream size rest)
unfolding Shrinks sized
sized-Shrinks ending stream n size rest h = elim (Bool-cases (ltb max_frame size)) [
  | inl e ↦ rw e tt
  | inr e ↦ rw e (with_payload-Shrinks ending stream n size rest _ h (read_full-Read size rest))
]

with_header-Shrinks :
    (ending : Ending) (bytes : Text) (o : Option (Text × Text))
    → Read 8 bytes o
    → Shrinks (length bytes) (with_header ending o)
unfolding Shrinks Read with_header
with_header-Shrinks ending bytes none r = tt
with_header-Shrinks ending bytes (some (header, rest)) r =
    sized-Shrinks ending _ (length bytes) _ rest (omega arith)

-- The loop returns, with lines and an error or none.
abbrev pub Returns : Demuxed → Type 0
Returns d = (lines : List LogLine) × (e : Option Text) × (d ≡ returned lines e)

module _ (parse_time : Text → Option ℕ) where
  round-Returns :
      (fuel n : ℕ) (ending : Ending) (lines : List LogLine) (r : Round)
      → ((more : List LogLine) (rest : Text)
          → length rest < fuel
          → Returns (demux parse_time fuel ending more rest))
      → Shrinks n r
      → n ≤ fuel
      → Returns (elim r [
        | stop e ↦ returned lines e
        | frame stream payload rest ↦
            demux parse_time fuel ending (lines ++ lines_of parse_time stream payload) rest
      ])
  unfolding Shrinks
  round-Returns fuel n ending lines (stop e) again s h = (lines, e, refl)
  round-Returns fuel n ending lines (frame stream payload rest) again s h =
      again _ rest (omega arith)

  demux-Returns :
      (fuel : ℕ) (ending : Ending) (lines : List LogLine) (bytes : Text)
      → length bytes < fuel
      → Returns (demux parse_time fuel ending lines bytes)
  unfolding demux read_frame
  demux-Returns zero ending lines bytes h = let no : ⊥ = omega arith in elim no [ ]
  demux-Returns (suc fuel) ending lines bytes h =
      round-Returns fuel (length bytes) ending lines (read_frame ending bytes)
        (λ more rest shorter. demux-Returns fuel ending more rest shorter)
        (with_header-Shrinks ending bytes _ (read_full-Read 8 bytes)) (omega arith)

  -- On every stream of bytes, however it ends, parseMultiplexedLogs returns lines and an error.
  pub parse_multiplexed_logs-Returns :
      (ending : Ending) (bytes : Text) → Returns (parse_multiplexed_logs parse_time ending bytes)
  unfolding parse_multiplexed_logs
  parse_multiplexed_logs-Returns ending bytes =
      demux-Returns (suc (length bytes)) ending [] bytes (omega arith)

-- The size of a payload as Docker writes it.
big_endian : ℕ → Text
big_endian n = n / 2 ^ 24 % 256 ∷ n / 2 ^ 16 % 256 ∷ n / 2 ^ 8 % 256 ∷ n % 256 ∷ []

uint32-big_endian : (n : ℕ) → n < 2 ^ 32 → uint32 (big_endian n) ≡ n
unfolding uint32 big_endian
uint32-big_endian n h = omega arith

-- A frame of stdout or stderr.
pub record Frame : Type 0 where
  pub from_stderr : Bool
  pub payload : Text

encode_frame : Frame → Text
unfolding big_endian
encode_frame f =
    (if f.from_stderr then 2 else 1) ∷ 0 ∷ 0 ∷ 0 ∷ (big_endian (length f.payload) ++ f.payload)

pub encode_frames : List Frame → Text
unfolding encode_frame
encode_frames [] = []
encode_frames (f ∷ fs) = encode_frame f ++ encode_frames fs

stream_name : Frame → Text
stream_name f = if f.from_stderr then codes "stderr" else codes "stdout"

read_full-append : (a b : Text) → read_full (length a) (a ++ b) ≡ some (a, b)
unfolding read_full
read_full-append [] b = refl
read_full-append (x ∷ a) b = rw (read_full-append a b) refl

-- The payload fits the reader.
unfoldable pub Fits : Frame → Type 0
Fits f = length f.payload ≤ max_frame

sized-payload :
    (stream payload rest : Text) (size : ℕ)
    → size ≡ length payload
    → size ≤ max_frame
    → sized eof stream size (payload ++ rest) ≡ frame stream payload rest
unfolding sized with_payload
sized-payload stream payload rest size e h =
    let small : ltb max_frame size ≡ false = ground arith in
    rw (small, e, read_full-append payload rest) refl

read_frame-encode_frame :
    (f : Frame) (rest : Text)
    → Fits f
    → read_frame eof (encode_frame f ++ rest) ≡ frame (stream_name f) f.payload rest
unfolding read_frame encode_frame big_endian with_header Fits read_full stream_name stream_of uint32
read_frame-encode_frame f rest h = elim (Bool-cases f.from_stderr) [
  | inl e ↦ rw e (sized-payload (codes "stderr") f.payload rest _ (omega arith) (omega arith))
  | inr e ↦ rw e (sized-payload (codes "stdout") f.payload rest _ (omega arith) (omega arith))
]

length-append : (a b : Text) → length (a ++ b) ≡ length a + length b
length-append [] b = ground arith
length-append (x ∷ a) b = ground (arith, length-append a b)

encode_frame_less :
    (f : Frame) (rest : Text) (fuel : ℕ)
    → length (encode_frame f ++ rest) < suc fuel
    → length rest < fuel
unfolding encode_frame big_endian
encode_frame_less f rest fuel h = ground (arith, length-append f.payload rest)

module _ (parse_time : Text → Option ℕ) where
  -- The lines of the frames, one frame after the other.
  pub frame_lines : List Frame → List LogLine
  unfolding lines_of stream_name
  frame_lines [] = []
  frame_lines (f ∷ fs) = lines_of parse_time (stream_name f) f.payload ++ frame_lines fs

  demux-read_frame :
      (fuel : ℕ) (lines : List LogLine) (bytes stream payload rest : Text)
      → read_frame eof bytes ≡ frame stream payload rest
      → demux parse_time (suc fuel) eof lines bytes
        ≡ demux parse_time fuel eof (lines ++ lines_of parse_time stream payload) rest
  unfolding demux
  demux-read_frame fuel lines bytes stream payload rest e =
      ap
        (λ (r : Round). elim r [
          | stop reason ↦ returned lines reason
          | frame s p after ↦ demux parse_time fuel eof (lines ++ lines_of parse_time s p) after
        ])
        e

  demux-encode_frames :
      (fs : List Frame) (fuel : ℕ) (lines : List LogLine)
      → All Fits fs
      → length (encode_frames fs) < fuel
      → demux parse_time fuel eof lines (encode_frames fs) ≡ returned (lines ++ frame_lines fs) none
  unfolding demux encode_frames frame_lines read_frame
  demux-encode_frames fs zero lines h less = let no : ⊥ = omega arith in elim no [ ]
  demux-encode_frames [] (suc fuel) lines h less =
      ap (λ t. returned t none) (sym (append-nil lines))
  demux-encode_frames (f ∷ fs) (suc fuel) lines (fit, h) less =
      demux-read_frame fuel lines (encode_frame f ++ encode_frames fs) (stream_name f) f.payload
        (encode_frames fs) (read_frame-encode_frame f (encode_frames fs) fit)
      ∙ demux-encode_frames fs fuel (lines ++ lines_of parse_time (stream_name f) f.payload) h
          (encode_frame_less f (encode_frames fs) fuel less)
      ∙ ap (λ t. returned t none)
          (append_assoc lines (lines_of parse_time (stream_name f) f.payload) (frame_lines fs))

  -- The frames that Docker writes, with payloads up to the size that the reader takes, give
  -- their lines in their order, and no error.
  pub parse_multiplexed_logs-encode_frames :
      (fs : List Frame)
      → All Fits fs
      → parse_multiplexed_logs parse_time eof (encode_frames fs) ≡ returned (frame_lines fs) none
  unfolding parse_multiplexed_logs
  parse_multiplexed_logs-encode_frames fs h =
      demux-encode_frames fs (suc (length (encode_frames fs))) [] h (omega arith)
