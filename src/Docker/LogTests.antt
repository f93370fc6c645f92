-- ===== src/Docker/LogTests.antt =====
-- The theorems on log streams, at sample frames.
use homelab_dashboard.Prelude.{
  ℕ, ◌≡◌, Option, none, some, List, [], ◌∷◌, Text, codes, true, false, arith,
}
use homelab_dashboard.Docker.Logs.{eof, returned, parse_multiplexed_logs}
use homelab_dashboard.Docker.Logs.Frames.{
  Returns, Frame, Fits, encode_frames, frame_lines, parse_multiplexed_logs-Returns,
  parse_multiplexed_logs-encode_frames,
}

-- A time is a text of one byte.
abbrev short_time : Text → Option ℕ
short_time (c ∷ []) = some c
short_time _ = none

abbrev frames : List Frame
frames =
    record { from_stderr = false; payload = codes "1 started" }
    ∷ record { from_stderr = true; payload = codes "2 failed" }
    ∷ []

parse_multiplexed_logs-Returns_example :
    Returns (parse_multiplexed_logs short_time eof (codes "garbage"))
parse_multiplexed_logs-Returns_example =
    parse_multiplexed_logs-Returns short_time eof (codes "garbage")

parse_multiplexed_logs-encode_frames_example :
    parse_multiplexed_logs short_time eof (encode_frames frames)
    ≡ returned (frame_lines short_time frames) none
unfolding Fits
parse_multiplexed_logs-encode_frames_example =
    parse_multiplexed_logs-encode_frames short_time frames (omega arith, (omega arith, tt))
