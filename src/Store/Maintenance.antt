-- ===== src/Store/Maintenance.antt =====
-- internal/store/rollup.go: the whole transaction of Rollup. Times are Unix seconds; a time before the
-- first second removes nothing. Of the tables that it only prunes, the rows are the columns it reads.
pub mod Effect
use homelab_dashboard.Prelude.{
  ℕ, ◌+◌, ◌-◌, Bool, true, false, ◌&&◌, ◌||◌, not, Option, none, some, List, [], ◌∷◌, Text, length,
  ltb, leb, if◌then◌else◌, keep_if,
}
use homelab_dashboard.Store.Alerts.{AlertRecord, is_firing}
use homelab_dashboard.Store.Rollup.{Table, bucket, roll, prune_raw, prune_rolled, raw_cutoff}
use homelab_dashboard.Store.Samples.{
  Sql, RawSample, RawHost, RawMount, SampleSum, HostSum, MountSum, sum_samples, sum_hosts,
  sum_mounts,
}

pub record ContainerRow : Type 0 where
  pub present : Bool
  pub last_seen : ℕ

-- `watermark` is the value under rollup_watermark in the table meta.
pub record Db (F : Type 0) : Type 0 where
  pub watermark : Option ℕ
  pub samples : Table (RawSample F) (SampleSum F)
  pub hosts : Table (RawHost F) (HostSum F)
  pub mounts : Table RawMount MountSum
  pub disk_temps : List ℕ
  pub events : List ℕ
  pub log_errors : List ℕ
  pub alerts : List AlertRecord
  pub containers : List ContainerRow

pub record RollupResult : Type 0 where
  pub watermark : ℕ
  pub container_rows : ℕ
  pub host_rows : ℕ
  pub mount_rows : ℕ
  pub pruned_raw : ℕ
  pub pruned_rollups : ℕ
  pub pruned_events : ℕ
  pub pruned_log_lines : ℕ

abbrev pub log_error_retention : ℕ
log_error_retention = 604_800

-- How the transaction goes: whether the read of the watermark works, and whether all the others do.
pub record Outcome : Type 0 where
  pub read_ok : Bool
  pub rest_ok : Bool

abbrev pub mark_or_zero : Option ℕ → ℕ
mark_or_zero none = 0
mark_or_zero (some w) = w

unfoldable pub watermark_read : Outcome → Option ℕ → ℕ
watermark_read o w = if o.read_ok then mark_or_zero w else 0

-- DELETE … WHERE ts < cutoff on a list of times, with the number of rows that it removes.
unfoldable pub prune_times : ℕ → List ℕ → List ℕ × ℕ
prune_times cutoff ts = let kept = keep_if (leb cutoff) ts in (kept, length ts - length kept)

-- DELETE FROM alerts WHERE state = 'resolved' AND resolved_at < cutoff
unfoldable pub prune_alerts : ℕ → List AlertRecord → List AlertRecord
prune_alerts cutoff rows = keep_if (λ r. is_firing r.state || leb cutoff r.resolved_at) rows

-- DELETE FROM containers WHERE present = 0 AND last_seen < cutoff
unfoldable pub prune_containers : ℕ → List ContainerRow → List ContainerRow
prune_containers cutoff rows = keep_if (λ r. r.present || leb cutoff r.last_seen) rows

module _ {F : Type 0} (sql : Sql F) where
  pub no_rows : RollupResult
  no_rows = record {
    watermark = 0;
    container_rows = 0;
    host_rows = 0;
    mount_rows = 0;
    pruned_raw = 0;
    pruned_rollups = 0;
    pruned_events = 0;
    pruned_log_lines = 0;
  }

  -- The part under `if to > from`.
  pub roll_tables : ℕ → ℕ → RollupResult → Db F → RollupResult × Db F
  roll_tables from to res db =
      let (samples, c) =
        roll (λ r. r.container_id) (λ r. r.ts) (sum_samples sql) from to db.samples in
      let (hosts, h) = roll (λ r. []) (λ r. r.ts) (sum_hosts sql) from to db.hosts in
      let (mounts, m) = roll (λ r. r.mount) (λ r. r.ts) (sum_mounts sql) from to db.mounts in
      (
        record res { container_rows = c; host_rows = h; mount_rows = m },
        record db { samples = samples; hosts = hosts; mounts = mounts; watermark = some to },
      )

  pub prune_raws : ℕ → RollupResult → Db F → RollupResult × Db F
  prune_raws cutoff res db =
      let (samples, c) =
        prune_raw (λ r. r.container_id) (λ r. r.ts) (sum_samples sql) cutoff db.samples in
      let (hosts, h) = prune_raw (λ r. []) (λ r. r.ts) (sum_hosts sql) cutoff db.hosts in
      let (mounts, m) = prune_raw (λ r. r.mount) (λ r. r.ts) (sum_mounts sql) cutoff db.mounts in
      (
        record res { pruned_raw = res.pruned_raw + c + h + m },
        record db { samples = samples; hosts = hosts; mounts = mounts },
      )

  pub prune_rollups : ℕ → RollupResult → Db F → RollupResult × Db F
  prune_rollups cutoff res db =
      let (samples, c) =
        prune_rolled (λ r. r.container_id) (λ r. r.ts) (sum_samples sql) cutoff db.samples in
      let (hosts, h) = prune_rolled (λ r. []) (λ r. r.ts) (sum_hosts sql) cutoff db.hosts in
      let (mounts, m) = prune_rolled (λ r. r.mount) (λ r. r.ts) (sum_mounts sql) cutoff db.mounts in
      let (temps, d) = prune_times cutoff db.disk_temps in
      (
        record res { pruned_rollups = res.pruned_rollups + c + h + m + d },
        record db { samples = samples; hosts = hosts; mounts = mounts; disk_temps = temps },
      )

  pub prune_rest : ℕ → ℕ → RollupResult → Db F → RollupResult × Db F
  prune_rest now cutoff res db =
      let (events, e) = prune_times cutoff db.events in
      let (lines, l) = prune_times (now - log_error_retention) db.log_errors in
      (
        record res { pruned_events = e; pruned_log_lines = l },
        record db {
          events = events;
          log_errors = lines;
          alerts = prune_alerts cutoff db.alerts;
          containers = prune_containers cutoff db.containers;
        },
      )

  -- The transaction, when each of its statements works.
  pub transaction : ℕ → ℕ → ℕ → Db F → RollupResult × Db F
  unfolding roll_tables prune_raws prune_rollups prune_rest no_rows
  transaction from now retention db =
      let to = bucket now in
      let (res₁, db₁) = if ltb from to then roll_tables from to no_rows db else (no_rows, db) in
      let (res₂, db₂) = prune_raws (raw_cutoff now to) (record res₁ { watermark = to }) db₁ in
      let (res₃, db₃) = prune_rollups (now - retention) res₂ db₂ in
      prune_rest now (now - retention) res₃ db₃

  -- `Rollup`: `none` is an error, after which the transaction is rolled back.
  unfoldable pub rollup : Outcome → ℕ → ℕ → Db F → Option RollupResult × Db F
  unfolding transaction
  rollup o now retention db =
      let (res, db') = transaction (watermark_read o db.watermark) now retention db in
      if o.rest_ok then (some res, db') else (none, db)
