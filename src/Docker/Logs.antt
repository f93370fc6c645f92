-- ===== src/Docker/Logs.antt =====
-- internal/docker/client.go: parseMultiplexedLogs, parseRawLogs and splitTimestamp. The stream is the
-- list of its bytes and the way in which it ends; time.Parse is the parameter `parse_time`.
pub mod Frames
use homelab_dashboard.Prelude.{
  ℕ, zero, suc, ◌+◌, ◌*◌, ◌^◌, Bool, true, false, not, Option, none, some, List, [], ◌∷◌, ◌++◌, map,
  length, drop, Text, codes, text_eq, ltb, leb, ◌==◌, if◌then◌else◌, keep_if,
}
use homelab_dashboard.Prelude.Decimal.{format_int}
use homelab_dashboard.Prelude.Strings.{cut, split_on, trim_right}

-- A line: `none` is the zero time.
pub record LogLine : Type 0 where
  pub time : Option ℕ
  pub stream : Text
  pub text : Text

-- What a read meets after the last byte: the end, or an error.
pub data Ending : Type 0 where
  eof : Ending
  read_error : Text → Ending

-- io.ReadFull: n bytes and the rest, or `none` where the stream ends before.
unfoldable pub read_full : ℕ → Text → Option (Text × Text)
read_full zero bytes = some ([], bytes)
read_full (suc n) [] = none
read_full (suc n) (b ∷ bytes) = elim (read_full n bytes) [
  | none ↦ none
  | some p ↦ some (b ∷ p.0, p.1)
]

-- binary.BigEndian.Uint32
unfoldable pub uint32 : Text → ℕ
uint32 bytes = elim bytes [ a ∷ b ∷ c ∷ d ∷ rest ↦ a * 2 ^ 24 + b * 2 ^ 16 + c * 2 ^ 8 + d | _ ↦ 0 ]

abbrev pub max_frame : ℕ
max_frame = 4 * 2 ^ 20

-- One round of the loop: the return with its error, or a frame and the bytes after it.
pub data Round : Type 0 where
  stop : Option Text → Round
  frame : Text → Text → Text → Round

-- The error of a header that is not there: none at the end of the stream.
unfoldable pub header_error : Ending → Option Text
header_error eof = none
header_error (read_error e) = some e

unfoldable pub payload_error : Ending → Text → Option Text
payload_error (read_error e) rest = some e
payload_error eof [] = some (codes "EOF")
payload_error eof (b ∷ rest) = some (codes "unexpected EOF")

unfoldable pub stream_of : Text → Text
stream_of header = elim header [
  | b ∷ bs ↦ if b == 2 then codes "stderr" else codes "stdout"
  | [] ↦ codes "stdout"
]

unfoldable pub with_payload : Ending → Text → Text → Option (Text × Text) → Round
unfolding payload_error
with_payload ending stream rest none = stop (payload_error ending rest)
with_payload ending stream rest (some (payload, after)) = frame stream payload after

unfoldable pub sized : Ending → Text → ℕ → Text → Round
unfolding with_payload read_full format_int
sized ending stream size rest =
    if ltb max_frame size
    then stop (some (codes "log frame too large: " ++ format_int size))
    else with_payload ending stream rest (read_full size rest)

unfoldable pub with_header : Ending → Option (Text × Text) → Round
unfolding header_error sized stream_of uint32
with_header ending none = stop (header_error ending)
with_header ending (some (header, rest)) =
    sized ending (stream_of header) (uint32 (drop 4 header)) rest

unfoldable pub read_frame : Ending → Text → Round
unfolding with_header read_full
read_frame ending bytes = with_header ending (read_full 8 bytes)

-- What the loop has: its lines and its error, or no fuel left.
pub data Demuxed : Type 0 where
  returned : List LogLine → Option Text → Demuxed
  out_of_fuel : Demuxed

module _ (parse_time : Text → Option ℕ) where
  unfoldable pub with_time : Text → Text → Text → Option ℕ → LogLine
  with_time raw stream rest none = record { time = none; stream = stream; text = raw }
  with_time raw stream rest (some t) = record { time = some t; stream = stream; text = rest }

  unfoldable pub timestamped : Text → Text → Option (Text × Text) → LogLine
  unfolding with_time
  timestamped raw stream none = record { time = none; stream = stream; text = raw }
  timestamped raw stream (some (ts, rest)) = with_time raw stream rest (parse_time ts)

  unfoldable pub split_timestamp : Text → Text → LogLine
  unfolding timestamped cut
  split_timestamp raw stream = timestamped raw stream (cut raw b' ')

  -- The lines of a payload, the empty ones left out.
  unfoldable pub lines_of : Text → Text → List LogLine
  unfolding split_timestamp split_on trim_right keep_if
  lines_of stream payload =
      let chunks = split_on b'\n' (trim_right (λ c. c == b'\n') payload) in
      map (λ chunk. split_timestamp chunk stream)
        (keep_if (λ chunk. not (text_eq chunk [])) (chunks.0 ∷ chunks.1))

  unfoldable pub demux : ℕ → Ending → List LogLine → Text → Demuxed
  demux zero ending lines bytes = out_of_fuel
  demux (suc fuel) ending lines bytes = elim (read_frame ending bytes) [
    | stop e ↦ returned lines e
    | frame stream payload rest ↦ demux fuel ending (lines ++ lines_of stream payload) rest
  ]

  -- `parseMultiplexedLogs`, whose frames have at least a byte of the stream each.
  unfoldable pub parse_multiplexed_logs : Ending → Text → Demuxed
  unfolding demux
  parse_multiplexed_logs ending bytes = demux (suc (length bytes)) ending [] bytes

  -- The loop of the scanner over the lines of the text, up to one that is too long for its buffer.
  unfoldable pub raw_lines : Ending → Text → List Text → List LogLine × Option Text
  unfolding split_timestamp header_error trim_right
  raw_lines ending stream [] = ([], header_error ending)
  raw_lines ending stream (line ∷ lines) =
      let text = trim_right (λ c. c == b'\r') line in
      let (rest, e) = raw_lines ending stream lines in
      let all = if text_eq text [] then rest else split_timestamp text stream ∷ rest in
      if leb max_frame (length line)
      then ([], some (codes "bufio.Scanner: token too long"))
      else (all, e)

  -- `parseRawLogs`
  unfoldable pub parse_raw_logs : Ending → Text → Text → List LogLine × Option Text
  unfolding raw_lines split_on
  parse_raw_logs ending stream bytes =
      let lines = split_on b'\n' bytes in raw_lines ending stream (lines.0 ∷ lines.1)
