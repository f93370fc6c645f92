-- ===== src/Collector/LogScan.antt =====
-- internal/collector/logs.go: scanLogs. The regular expressions, those that strip ANSI codes and those
-- that match errors, are parameters, and so are the answers of Docker. Times are nanoseconds.
pub mod Found
pub mod Kept
use homelab_dashboard.Prelude.{
  ℕ, ◌-◌, ◌/◌, Bool, true, false, Option, none, some, List, [], ◌∷◌, ◌++◌, ◌⊎◌, inl, inr, Text,
  codes, ltb, if◌then◌else◌,
}
use homelab_dashboard.Prelude.Assoc.{Map, lookup, insert}
use homelab_dashboard.Prelude.Strings.{contains}
use homelab_dashboard.Store.Events.{LogErrorRecord, LogTable, InsertFault, insert_log_errors}
use homelab_dashboard.Docker.Logs.{LogLine}
use homelab_dashboard.Collector.State.{Container, running}
use homelab_dashboard.Collector.Inspect.{truncate}

pub record Target : Type 0 where
  pub id : Text
  pub name : Text
  pub tty : Bool

-- The running containers of the state.
unfoldable pub targets : {F : Type 0} → Map (Container F) → List Target
unfolding running
targets [] = []
targets ((k, c) ∷ m) =
    let rest = targets m in
    if running c then record { id = c.id; name = c.name; tty = c.tty } ∷ rest else rest

abbrev pub log_scan_interval : ℕ
log_scan_interval = 60_000_000_000

unfoldable pub since_or : ℕ → Option ℕ → ℕ
since_or now none = now - log_scan_interval
since_or now (some since) = since

-- What the scan uses of regexp and of Docker: the match and the stripping of a text, and the
-- lines of a container since a time, or an error; and where the context is done.
pub record Scanner : Type 0 where
  pub strip : Text → Text
  pub matches : Text → Bool
  pub logs : Text → Bool → ℕ → Option (List LogLine)
  pub is_done : Text → Bool

-- What a scan found, and the lines that it stored.
pub record Scanned : Type 0 where
  pub log_cursor : Map ℕ
  pub lines : LogTable
  pub published : List ℕ

unfoldable pub published_count : (ℕ × Option Text) × LogTable → Scanned → Scanned
published_count ((n, some e), lines) st = record st { lines = lines }
published_count ((n, none), lines) st = record st {
  lines = lines;
  published = if ltb 0 n then n ∷ st.published else st.published;
}

unfoldable pub store_batch : Option InsertFault → Option (List LogErrorRecord) → Scanned → Scanned
unfolding published_count insert_log_errors
store_batch fault none st = st
store_batch fault (some []) st = st
store_batch fault (some (r ∷ rs)) st =
    published_count (insert_log_errors fault (r ∷ rs) st.lines) st

module _ (sc : Scanner) (now : ℕ) where
  open sc use {strip, matches, logs, is_done}

  unfoldable pub strip_ansi : Text → Text
  unfolding contains
  strip_ansi s = if contains s (27 ∷ []) then strip s else s

  unfoldable pub line_record : Target → ℕ → Text → Text → LogErrorRecord
  unfolding truncate
  line_record t at stream text = record {
    id = 0;
    ts = at / 1_000_000_000;
    container_id = t.id;
    container_name = t.name;
    kind = codes "log";
    stream = stream;
    line = truncate text 4000;
  }

  unfoldable pub found_at : Target → ℕ → Text → Text → Option ℕ → List LogErrorRecord
  unfolding line_record strip_ansi
  found_at t since stream text none = []
  found_at t since stream text (some at) =
      let stripped = strip_ansi text in
      if ltb since at
      then (if matches stripped then line_record t at stream stripped ∷ [] else [])
      else []

  -- The records of the lines that are new and match.
  unfoldable pub found : Target → ℕ → List LogLine → List LogErrorRecord
  unfolding found_at
  found t since [] = []
  found t since (l ∷ ls) = found_at t since l.stream l.text l.time ++ found t since ls

  unfoldable pub take_lines :
      Target → ℕ → Option (List LogLine) → List LogErrorRecord × Map ℕ → List LogErrorRecord × Map ℕ
  unfolding found insert
  take_lines t since none (batch, cursor) = (batch, cursor)
  take_lines t since (some ls) (batch, cursor) = (batch ++ found t since ls, insert t.id now cursor)

  -- The loop over the targets; a context that is done ends the scan, and the batch is lost.
  unfoldable pub scan_targets :
      List Target → List LogErrorRecord × Map ℕ → Option (List LogErrorRecord) × Map ℕ
  unfolding take_lines since_or lookup
  scan_targets [] (batch, cursor) = (some batch, cursor)
  scan_targets (t ∷ ts) (batch, cursor) =
      let since = since_or now (lookup t.id cursor) in
      let rest = scan_targets ts (take_lines t since (logs t.id t.tty since) (batch, cursor)) in
      if is_done t.id then (none, cursor) else rest

  -- `scanLogs`, where there are patterns.
  unfoldable pub scan_logs : Option InsertFault → List Target → Scanned → Scanned
  unfolding store_batch scan_targets
  scan_logs fault ts st =
      let (batch, cursor) = scan_targets ts ([], st.log_cursor) in
      store_batch fault batch (record st { log_cursor = cursor })
