-- ===== src/Collector/Counters.antt =====
-- internal/collector/stats.go: collectStats from its results on, rates, appendSparkline and
-- ResetCounters. Times are nanoseconds; the results are in the order in which the workers sent them.
pub mod Absorb
pub mod Samples
pub mod Sparkline
use homelab_dashboard.Prelude.{
  ℕ, ◌+◌, ◌-◌, ◌*◌, ◌/◌, ◌%◌, ◌^◌, ◌<◌, Bool, true, false, ◌&&◌, Option, none, some, List, [], ◌∷◌,
  ◌++◌, Text, length, drop, ltb, leb, ◌==◌, if◌then◌else◌,
}
use homelab_dashboard.Prelude.Assoc.{Map, lookup, insert, delete}
use homelab_dashboard.Prelude.Float.{Float}
use homelab_dashboard.Store.Samples.{Sample}
use homelab_dashboard.Docker.Stats.{Stats, CpuSnapshot, Usage, extract_usage}

pub record CounterSnapshot : Type 0 where
  pub ts : ℕ
  pub net_rx : ℕ
  pub net_tx : ℕ
  pub blk_read : ℕ
  pub blk_write : ℕ

pub record RateSet : Type 0 where
  pub net_rx : ℕ
  pub net_tx : ℕ
  pub blk_read : ℕ
  pub blk_write : ℕ

pub record Live (F : Type 0) : Type 0 where
  pub ts : ℕ
  pub cpu_percent : F
  pub mem_bytes : ℕ
  pub mem_limit : ℕ
  pub net_rx_rate : ℕ
  pub net_tx_rate : ℕ
  pub blk_rd_rate : ℕ
  pub blk_wr_rate : ℕ
  pub pids : ℕ

-- What the collector keeps of the last read of each container.
pub record Counters : Type 0 where
  pub cpu_prev : Map CpuSnapshot
  pub counters : Map CounterSnapshot

-- How a read ends: with an error, with the error that there is no such container, or with statistics.
pub data Reply : Type 0 where
  failed : Reply
  not_found : Reply
  got : Stats → Reply

-- The state of the loop over the results.
pub record Cycle (F : Type 0) : Type 0 where
  pub last : Counters
  pub live : Map (Live F)
  pub samples : List (Sample F)
  pub failures : ℕ

-- What the cycle changes of a container.
pub record Gauge (F : Type 0) : Type 0 where
  pub live : Option (Live F)
  pub sparkline : List F

abbrev pub sparkline_points : ℕ
sparkline_points = 30

unfoldable pub append_sparkline : {F : Type 0} → List F → F → List F
append_sparkline existing v =
    let added = existing ++ v ∷ [] in
    if ltb (sparkline_points * 4) (length added)
    then drop (length added - sparkline_points * 4) added
    else added

-- `ResetCounters`
unfoldable pub reset_counters : Text → Counters → Counters
reset_counters id c = record { cpu_prev = delete id c.cpu_prev; counters = delete id c.counters }

module _ {F : Type 0} (fl : Float F) where
  open fl use {of_nat, add, div, to_nat}

  -- time.Duration.Seconds of a duration that is not negative
  unfoldable pub seconds : ℕ → F
  seconds d =
      add (of_nat (d / 1_000_000_000)) (div (of_nat (d % 1_000_000_000)) (of_nat 1_000_000_000))

  -- The bytes per second between two values of a counter, 0 for one that went back.
  unfoldable pub delta : F → ℕ → ℕ → ℕ
  delta secs a b = if ltb b a then 0 else to_nat (div (of_nat (b - a)) secs)

  unfoldable pub counters_of : ℕ → Usage F → CounterSnapshot
  counters_of now u = record {
    ts = now;
    net_rx = u.net_rx;
    net_tx = u.net_tx;
    blk_read = u.blk_read;
    blk_write = u.blk_write;
  }

  unfoldable pub rate_set : F → CounterSnapshot → CounterSnapshot → RateSet
  rate_set secs prev cur = record {
    net_rx = delta secs prev.net_rx cur.net_rx;
    net_tx = delta secs prev.net_tx cur.net_tx;
    blk_read = delta secs prev.blk_read cur.blk_read;
    blk_write = delta secs prev.blk_write cur.blk_write;
  }

  -- `secs <= 0`, for a duration, is that the time did not advance.
  unfoldable pub rates_since : ℕ → Option CounterSnapshot → CounterSnapshot → Option RateSet
  rates_since now none cur = none
  rates_since now (some prev) cur =
      if leb now prev.ts then none else some (rate_set (seconds (now - prev.ts)) prev cur)

  -- `rates`, with the counters that it leaves.
  unfoldable pub rates :
      Text → ℕ → Usage F → Map CounterSnapshot → Option RateSet × Map CounterSnapshot
  unfolding counters_of rates_since
  rates id now u counters =
      let cur = counters_of now u in
      (rates_since now (lookup id counters) cur, insert id cur counters)

  unfoldable pub live_from_usage : ℕ → Usage F → RateSet → Live F
  live_from_usage now u r = record {
    ts = now / 1_000_000_000;
    cpu_percent = u.cpu_percent;
    mem_bytes = u.mem_bytes;
    mem_limit = u.mem_limit;
    net_rx_rate = r.net_rx;
    net_tx_rate = r.net_tx;
    blk_rd_rate = r.blk_read;
    blk_wr_rate = r.blk_write;
    pids = u.pids;
  }

  unfoldable pub sample_of : Text → ℕ → Usage F → RateSet → Sample F
  sample_of id now u r = record {
    container_id = id;
    ts = now;
    cpu_pct = u.cpu_percent;
    mem_bytes = u.mem_bytes;
    mem_limit = u.mem_limit;
    net_rx = r.net_rx;
    net_tx = r.net_tx;
    blk_read = r.blk_read;
    blk_write = r.blk_write;
  }

  -- What a read adds when both its CPU share and its rates are there.
  unfoldable pub keep_sample : Text → ℕ → Usage F → Bool → Option RateSet → Cycle F → Cycle F
  keep_sample id now u cpu_ok none c = c
  keep_sample id now u cpu_ok (some r) c =
      if cpu_ok
      then record c {
        live = insert id (live_from_usage now u r) c.live;
        samples = c.samples ++ sample_of id now u r ∷ [];
      }
      else c

  -- The body of the loop over the results.
  unfoldable pub absorb : ℕ → Text → Reply → Cycle F → Cycle F
  unfolding keep_sample
  absorb now id failed c = record c { failures = c.failures + 1 }
  absorb now id not_found c = record c {
    failures = c.failures + 1;
    last = reset_counters id c.last;
  }
  absorb now id (got s) c =
      let (u, snap, cpu_ok) = extract_usage fl (lookup id c.last.cpu_prev) s in
      let (r, counters) = rates id now u c.last.counters in
      keep_sample id now u cpu_ok r (record c {
        last = record { cpu_prev = insert id snap c.last.cpu_prev; counters = counters };
      })

  unfoldable pub absorb_all : ℕ → List (Text × Reply) → Cycle F → Cycle F
  absorb_all now [] c = c
  absorb_all now ((id, reply) ∷ rest) c = absorb_all now rest (absorb now id reply c)

  pub show_gauge : Live F → Gauge F → Gauge F
  show_gauge l g = record { live = some l; sparkline = append_sparkline g.sparkline l.cpu_percent }

  -- A container that is gone is passed over.
  pub show_one : Text → Live F → Option (Gauge F) → Map (Gauge F) → Map (Gauge F)
  unfolding show_gauge
  show_one id l none gauges = gauges
  show_one id l (some g) gauges = insert id (show_gauge l g) gauges

  -- The loop over `live`.
  unfoldable pub show_live : Map (Live F) → Map (Gauge F) → Map (Gauge F)
  unfolding show_one
  show_live [] gauges = gauges
  show_live ((id, l) ∷ rest) gauges = show_live rest (show_one id l (lookup id gauges) gauges)

  -- What `collectStats` leaves: the counters, the gauges, the samples that it inserts, and whether it
  -- marks the Docker source as failed. `asked` is the number of running containers.
  pub record Outcome : Type 0 where
    pub last : Counters
    pub gauges : Map (Gauge F)
    pub samples : List (Sample F)
    pub source_failed : Bool

  unfoldable pub collect_stats : ℕ → ℕ → List (Text × Reply) → Counters → Map (Gauge F) → Outcome
  collect_stats asked now results last gauges =
      if asked == 0
      then record { last = last; gauges = gauges; samples = []; source_failed = false }
      else let c =
          absorb_all now results (record { last = last; live = []; samples = []; failures = 0 }) in
        record {
          last = c.last;
          gauges = show_live c.live gauges;
          samples = c.samples;
          source_failed = c.failures == asked;
        }
