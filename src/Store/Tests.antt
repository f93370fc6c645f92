-- ===== src/Store/Tests.antt =====
-- Runs of the roll-up, and the theorems at them.
use homelab_dashboard.Prelude.{
  ℕ, ◌≡◌, refl, true, none, some, List, [], ◌∷◌, Text, codes, text_eq, length, keep_if, arith,
}
use homelab_dashboard.Store.Alerts.{AlertRecord, firing, resolved, unset}
use homelab_dashboard.Store.Rollup.{
  find, put, roll, groups, group, selected, prune_raw, prune_rolled, maintain, raw_cutoff,
}
use homelab_dashboard.Store.Rollup.Complete.{
  Step, inserted, maintained, history, step, InTime, Complete, history-Complete,
}
use homelab_dashboard.Store.Samples.{Sql}
use homelab_dashboard.Store.Maintenance.{Db, Outcome, rollup}
use homelab_dashboard.Store.Maintenance.Effect.{Represents, rollup-Represents}

-- A row is a key and a time, and a sum is the number of rows.
abbrev row : Text → ℕ → Text × ℕ
row k ts = (k, ts)

abbrev web : Text
web = codes "web"

abbrev past : List (Step (Text × ℕ))
past =
    maintained 910 86_400
    ∷ inserted (row web 700 ∷ [])
    ∷ maintained 605 86_400
    ∷ inserted (row web 299 ∷ row web 300 ∷ row web 601 ∷ [])
    ∷ []

key_of : Text × ℕ → Text
key_of r = r.0

ts_of : Text × ℕ → ℕ
ts_of r = r.1

count : List (Text × ℕ) → ℕ
count rows = length rows

past-InTime : InTime key_of ts_of count past
unfolding history step ts_of
past-InTime = (omega arith, omega arith)

history-Complete_example : Complete key_of ts_of count (history key_of ts_of count past)
history-Complete_example = history-Complete key_of ts_of count past past-InTime

both_rows_summed : find web 600 (history key_of ts_of count past).table.rolled ≡ some 2
unfolding history step maintain roll selected groups group put find prune_raw prune_rolled
    raw_cutoff keep_if text_eq key_of ts_of count
both_rows_summed = refl

abbrev aggregates : Sql ℕ
aggregates = record { avg = λ xs. 0; max = λ xs. 0; avg_int = λ xs. 0; max_int = λ xs. 0 }

abbrev empty_db : Db ℕ
empty_db = record {
  watermark = none;
  samples = record { raw = []; rolled = [] };
  hosts = record { raw = []; rolled = [] };
  mounts = record { raw = []; rolled = [] };
  disk_temps = [];
  events = 5 ∷ [];
  log_errors = [];
  alerts = [];
  containers = [];
}

empty-Represents : Represents aggregates empty_db [] [] []
unfolding history
empty-Represents = record {
  samples = refl;
  hosts = refl;
  mounts = refl;
  samples_mark = refl;
  hosts_mark = refl;
  mounts_mark = refl;
}

abbrev works : Outcome
works = record { read_ok = true; rest_ok = true }

rollup-Represents_example :
    Represents aggregates
      (rollup aggregates works 910 60 empty_db).1
      (maintained 910 60 ∷ [])
      (maintained 910 60 ∷ [])
      (maintained 910 60 ∷ [])
rollup-Represents_example =
    rollup-Represents aggregates works 910 60 empty_db [] [] [] refl empty-Represents

abbrev alert : AlertRecord
alert = record {
  id = 1;
  rule = codes "disk_high";
  target = [];
  target_name = [];
  severity = unset;
  message = [];
  state = firing;
  fired_at = 1;
  resolved_at = 0;
  notified_at = 0;
  acked_at = 0;
}

abbrev with_alerts : Db ℕ
with_alerts = record empty_db {
  alerts = alert ∷ record alert { id = 2; state = resolved; resolved_at = 3 } ∷ [];
}
