-- ===== src/Store/Samples.antt =====
-- internal/store/samples.go: the samples and their inserts, and the tables of internal/store/schema.go
-- that hold them, with the columns that internal/store/rollup.go computes. An INTEGER column holds the
-- 64 bits of its value; times in rows are Unix seconds. SQLite's aggregate functions are `Sql`.
use homelab_dashboard.Prelude.{
  ℕ, ◌/◌, Bool, true, false, List, [], ◌∷◌, ◌++◌, map, Text, text_eq, length, if◌then◌else◌, ◌&&◌,
  ◌==◌,
}

-- A sample of a container; its time is in nanoseconds.
pub record Sample (F : Type 0) : Type 0 where
  pub container_id : Text
  pub ts : ℕ
  pub cpu_pct : F
  pub mem_bytes : ℕ
  pub mem_limit : ℕ
  pub net_rx : ℕ
  pub net_tx : ℕ
  pub blk_read : ℕ
  pub blk_write : ℕ

-- A row of samples_raw.
pub record RawSample (F : Type 0) : Type 0 where
  pub container_id : Text
  pub ts : ℕ
  pub cpu_pct : F
  pub mem_bytes : ℕ
  pub mem_limit : ℕ
  pub net_rx : ℕ
  pub net_tx : ℕ
  pub blk_read : ℕ
  pub blk_write : ℕ

pub record MountSample : Type 0 where
  pub mount : Text
  pub used : ℕ
  pub total : ℕ

-- A row of host_samples_raw.
pub record RawHost (F : Type 0) : Type 0 where
  pub ts : ℕ
  pub cpu_pct : F
  pub load1 : F
  pub load5 : F
  pub load15 : F
  pub mem_used : ℕ
  pub mem_total : ℕ
  pub swap_used : ℕ
  pub swap_total : ℕ
  pub net_rx : ℕ
  pub net_tx : ℕ
  pub cpu_temp : F

-- A row of mount_samples_raw.
pub record RawMount : Type 0 where
  pub ts : ℕ
  pub mount : Text
  pub used : ℕ
  pub total : ℕ

-- A sample of the host; its time is in nanoseconds, and is the one in `values`.
pub record HostSample (F : Type 0) : Type 0 where
  pub values : RawHost F
  pub mounts : List MountSample

-- The aggregates of REAL and of INTEGER columns; `avg_int` is what an INTEGER column stores of an
-- average.
pub record Sql (F : Type 0) : Type 0 where
  pub avg : List F → F
  pub max : List F → F
  pub avg_int : List ℕ → ℕ
  pub max_int : List ℕ → ℕ

-- The columns of samples_5m after its key.
pub record SampleSum (F : Type 0) : Type 0 where
  pub cpu_avg : F
  pub cpu_max : F
  pub mem_avg : ℕ
  pub mem_max : ℕ
  pub mem_limit : ℕ
  pub net_rx_avg : ℕ
  pub net_rx_max : ℕ
  pub net_tx_avg : ℕ
  pub net_tx_max : ℕ
  pub blk_read_avg : ℕ
  pub blk_read_max : ℕ
  pub blk_write_avg : ℕ
  pub blk_write_max : ℕ
  pub samples : ℕ

-- The columns of host_samples_5m after its key.
pub record HostSum (F : Type 0) : Type 0 where
  pub cpu_avg : F
  pub cpu_max : F
  pub load1 : F
  pub load5 : F
  pub load15 : F
  pub mem_avg : ℕ
  pub mem_max : ℕ
  pub mem_total : ℕ
  pub swap_avg : ℕ
  pub swap_total : ℕ
  pub net_rx_avg : ℕ
  pub net_rx_max : ℕ
  pub net_tx_avg : ℕ
  pub net_tx_max : ℕ
  pub cpu_temp_avg : F
  pub cpu_temp_max : F
  pub samples : ℕ

-- The columns of mount_samples_5m after its key.
pub record MountSum : Type 0 where
  pub used_avg : ℕ
  pub used_max : ℕ
  pub total : ℕ

-- INSERT OR REPLACE INTO mount_samples_raw, with ts and mount as the key
put_mount : RawMount → List RawMount → List RawMount
put_mount new [] = new ∷ []
put_mount new (r ∷ rows) =
    let rest = put_mount new rows in
    if r.ts == new.ts && text_eq r.mount new.mount then new ∷ rows else r ∷ rest

put_mounts : ℕ → List MountSample → List RawMount → List RawMount
unfolding put_mount
put_mounts ts [] rows = rows
put_mounts ts (m ∷ ms) rows =
    put_mounts ts ms
      (put_mount (record { ts = ts; mount = m.mount; used = m.used; total = m.total }) rows)

module _ {F : Type 0} where
  unfoldable pub raw_sample : Sample F → RawSample F
  raw_sample s = record {
    container_id = s.container_id;
    ts = s.ts / 1_000_000_000;
    cpu_pct = s.cpu_pct;
    mem_bytes = s.mem_bytes;
    mem_limit = s.mem_limit;
    net_rx = s.net_rx;
    net_tx = s.net_tx;
    blk_read = s.blk_read;
    blk_write = s.blk_write;
  }

  -- `InsertSamples`; `ok` says that no statement of its transaction fails.
  unfoldable pub insert_samples :
      Bool → List (Sample F) → List (RawSample F) → Bool × List (RawSample F)
  insert_samples ok [] rows = (true, rows)
  insert_samples ok (s ∷ ss) rows =
      if ok then (true, rows ++ map raw_sample (s ∷ ss)) else (false, rows)

  -- INSERT OR REPLACE INTO host_samples_raw, with ts as the key
  put_host : RawHost F → List (RawHost F) → List (RawHost F)
  put_host new [] = new ∷ []
  put_host new (r ∷ rows) =
      let rest = put_host new rows in if r.ts == new.ts then new ∷ rows else r ∷ rest

  -- `InsertHostSample`, in the same way.
  unfoldable pub insert_host_sample :
      Bool
      → HostSample F
      → List (RawHost F)
      → List RawMount
      → Bool × List (RawHost F) × List RawMount
  unfolding put_host put_mounts
  insert_host_sample ok h hosts mounts =
      let ts = h.values.ts / 1_000_000_000 in
      if ok
      then (true, put_host (record h.values { ts = ts }) hosts, put_mounts ts h.mounts mounts)
      else (false, hosts, mounts)

module _ {F : Type 0} (sql : Sql F) where
  open sql use {avg, max, avg_int, max_int}

  -- The columns of the SELECT of each roll-up, on the rows of a group.
  unfoldable pub sum_samples : List (RawSample F) → SampleSum F
  sum_samples rows = record {
    cpu_avg = avg (map (λ r. r.cpu_pct) rows);
    cpu_max = max (map (λ r. r.cpu_pct) rows);
    mem_avg = avg_int (map (λ r. r.mem_bytes) rows);
    mem_max = max_int (map (λ r. r.mem_bytes) rows);
    mem_limit = max_int (map (λ r. r.mem_limit) rows);
    net_rx_avg = avg_int (map (λ r. r.net_rx) rows);
    net_rx_max = max_int (map (λ r. r.net_rx) rows);
    net_tx_avg = avg_int (map (λ r. r.net_tx) rows);
    net_tx_max = max_int (map (λ r. r.net_tx) rows);
    blk_read_avg = avg_int (map (λ r. r.blk_read) rows);
    blk_read_max = max_int (map (λ r. r.blk_read) rows);
    blk_write_avg = avg_int (map (λ r. r.blk_write) rows);
    blk_write_max = max_int (map (λ r. r.blk_write) rows);
    samples = length rows;
  }

  unfoldable pub sum_hosts : List (RawHost F) → HostSum F
  sum_hosts rows = record {
    cpu_avg = avg (map (λ r. r.cpu_pct) rows);
    cpu_max = max (map (λ r. r.cpu_pct) rows);
    load1 = avg (map (λ r. r.load1) rows);
    load5 = avg (map (λ r. r.load5) rows);
    load15 = avg (map (λ r. r.load15) rows);
    mem_avg = avg_int (map (λ r. r.mem_used) rows);
    mem_max = max_int (map (λ r. r.mem_used) rows);
    mem_total = max_int (map (λ r. r.mem_total) rows);
    swap_avg = avg_int (map (λ r. r.swap_used) rows);
    swap_total = max_int (map (λ r. r.swap_total) rows);
    net_rx_avg = avg_int (map (λ r. r.net_rx) rows);
    net_rx_max = max_int (map (λ r. r.net_rx) rows);
    net_tx_avg = avg_int (map (λ r. r.net_tx) rows);
    net_tx_max = max_int (map (λ r. r.net_tx) rows);
    cpu_temp_avg = avg (map (λ r. r.cpu_temp) rows);
    cpu_temp_max = max (map (λ r. r.cpu_temp) rows);
    samples = length rows;
  }

  unfoldable pub sum_mounts : List RawMount → MountSum
  sum_mounts rows = record {
    used_avg = avg_int (map (λ r. r.used) rows);
    used_max = max_int (map (λ r. r.used) rows);
    total = max_int (map (λ r. r.total) rows);
  }
