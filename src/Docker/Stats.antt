-- ===== src/Docker/Stats.antt =====
-- internal/docker/stats.go, and the types of internal/docker/types.go that it reads. A uint64 is a ℕ
-- below 2 ^ 64 with its wrap-around written out; float64 is the parameter `fl`.
pub mod Totals
pub mod Cpu
use homelab_dashboard.Prelude.{
  ℕ, ◌+◌, ◌-◌, ◌%◌, ◌^◌, Bool, true, false, ◌&&◌, ◌||◌, Option, none, some, List, [], ◌∷◌, Text,
  codes, text_eq, length, ltb, leb, ◌==◌, if◌then◌else◌,
}
use homelab_dashboard.Prelude.Assoc.{Map, lookup}
use homelab_dashboard.Prelude.Float.{Float}

pub record CpuUsage : Type 0 where
  pub total_usage : ℕ
  pub percpu_usage : List ℕ

pub record CpuStats : Type 0 where
  pub cpu_usage : CpuUsage
  pub system_cpu_usage : ℕ
  pub online_cpus : ℕ

pub record MemoryStats : Type 0 where
  pub usage : ℕ
  pub limit : ℕ
  pub stats : Map ℕ

pub record NetStats : Type 0 where
  pub rx_bytes : ℕ
  pub tx_bytes : ℕ

pub record BlkioEntry : Type 0 where
  pub op : Text
  pub value : ℕ

-- The fields that the program reads.
pub record Stats : Type 0 where
  pub cpu_stats : CpuStats
  pub memory_stats : MemoryStats
  pub networks : Map NetStats
  pub blkio_entries : List BlkioEntry
  pub pids_current : ℕ

pub record CpuSnapshot : Type 0 where
  pub total : ℕ
  pub system : ℕ
  pub cpus : ℕ

pub record Usage (F : Type 0) : Type 0 where
  pub cpu_percent : F
  pub mem_bytes : ℕ
  pub mem_limit : ℕ
  pub net_rx : ℕ
  pub net_tx : ℕ
  pub blk_read : ℕ
  pub blk_write : ℕ
  pub pids : ℕ

-- a + b and a - b on uint64
abbrev pub add64 : ℕ → ℕ → ℕ
add64 a b = (a + b) % 2 ^ 64

abbrev pub sub64 : ℕ → ℕ → ℕ
sub64 a b = (a + 2 ^ 64 - b) % 2 ^ 64

-- The conversion uint32(len(...)) wraps at 2 ^ 32.
unfoldable pub cpus_of : CpuStats → ℕ
cpus_of s =
    let listed = length s.cpu_usage.percpu_usage % 2 ^ 32 in
    let cpus = if s.online_cpus == 0 then listed else s.online_cpus in if cpus == 0 then 1 else cpus

unfoldable pub snapshot_cpu : Stats → CpuSnapshot
snapshot_cpu s = record {
  total = s.cpu_stats.cpu_usage.total_usage;
  system = s.cpu_stats.system_cpu_usage;
  cpus = cpus_of s.cpu_stats;
}

-- `none` where the map has no such key or its value is not below the usage.
unfoldable pub below_usage : Option ℕ → ℕ → Option ℕ
below_usage none usage = none
below_usage (some v) usage = if ltb v usage then some v else none

unfoldable pub memory_used : MemoryStats → ℕ
unfolding below_usage
memory_used m = elim (below_usage (lookup (codes "inactive_file") m.stats) m.usage) [
  | some inactive ↦ sub64 m.usage inactive
  | none ↦ elim (below_usage (lookup (codes "cache") m.stats) m.usage) [
    | some cache ↦ sub64 m.usage cache
    | none ↦ m.usage
  ]
]

-- The loop of `NetworkTotals`, from the sums so far.
unfoldable pub add_networks : Map NetStats → ℕ × ℕ → ℕ × ℕ
add_networks [] sums = sums
add_networks ((name, n) ∷ rest) (rx, tx) =
    add_networks rest (add64 rx n.rx_bytes, add64 tx n.tx_bytes)

unfoldable pub network_totals : Stats → ℕ × ℕ
network_totals s = add_networks s.networks (0, 0)

pub is_read : Text → Bool
is_read op = text_eq op (codes "Read") || text_eq op (codes "read")

pub is_write : Text → Bool
is_write op = text_eq op (codes "Write") || text_eq op (codes "write")

-- The loop of `BlockTotals`.
unfoldable pub add_blocks : List BlkioEntry → ℕ × ℕ → ℕ × ℕ
add_blocks [] sums = sums
add_blocks (e ∷ rest) (read, write) = add_blocks rest (
    if is_read e.op
    then (add64 read e.value, write)
    else if is_write e.op
    then (read, add64 write e.value)
    else (read, write))

unfoldable pub block_totals : Stats → ℕ × ℕ
block_totals s = add_blocks s.blkio_entries (0, 0)

module _ {F : Type 0} (fl : Float F) where
  open fl use {of_nat, mul, div, less, at_most}

  -- `none` for a result that is not ok.
  unfoldable pub cpu_percent : CpuSnapshot → CpuSnapshot → Option F
  cpu_percent prev cur =
      if prev.total == 0 && prev.system == 0
      then none
      else if ltb cur.total prev.total || leb cur.system prev.system
      then none
      else let cpu_delta = of_nat (sub64 cur.total prev.total) in
        let sys_delta = of_nat (sub64 cur.system prev.system) in
        if at_most sys_delta (of_nat 0)
        then none
        else let pct = mul (mul (div cpu_delta sys_delta) (of_nat cur.cpus)) (of_nat 100) in
          some (if less pct (of_nat 0) then of_nat 0 else pct)

  unfoldable pub usage_of : F → Stats → Usage F
  usage_of pct s = record {
    cpu_percent = pct;
    mem_bytes = memory_used s.memory_stats;
    mem_limit = s.memory_stats.limit;
    net_rx = (network_totals s).0;
    net_tx = (network_totals s).1;
    blk_read = (block_totals s).0;
    blk_write = (block_totals s).1;
    pids = s.pids_current;
  }

  unfoldable pub pct_or : Option F → F
  pct_or none = of_nat 0
  pct_or (some pct) = pct

  unfoldable pub is_ok : Option F → Bool
  is_ok none = false
  is_ok (some pct) = true

  unfoldable pub extract_usage : Option CpuSnapshot → Stats → Usage F × CpuSnapshot × Bool
  unfolding usage_of pct_or is_ok
  extract_usage none s = (usage_of (of_nat 0) s, snapshot_cpu s, false)
  extract_usage (some prev) s =
      let cur = snapshot_cpu s in
      let pct = cpu_percent prev cur in (usage_of (pct_or pct) s, cur, is_ok pct)
