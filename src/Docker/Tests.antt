-- ===== src/Docker/Tests.antt =====
-- Statistics of a container, and the theorems at them.
use homelab_dashboard.Prelude.{◌-◌, ◌^◌, ◌≡◌, refl, some, [], ◌∷◌, Text, codes, text_eq}
use homelab_dashboard.Prelude.Assoc.{lookup}
use homelab_dashboard.Prelude.Float.{whole}
use homelab_dashboard.Docker.Stats.{
  Stats, CpuSnapshot, NetStats, network_totals, add_networks, memory_used, below_usage, cpu_percent,
}

abbrev eth : Text × NetStats
eth = (codes "eth0", record { rx_bytes = 5; tx_bytes = 7 })

abbrev wifi : Text × NetStats
wifi = (codes "wlan0", record { rx_bytes = 2 ^ 64 - 1; tx_bytes = 1 })

abbrev stats : Stats
stats = record {
  cpu_stats = record {
    cpu_usage = record { total_usage = 1500; percpu_usage = 1 ∷ 2 ∷ [] };
    system_cpu_usage = 10_000;
    online_cpus = 0;
  };
  memory_stats = record { usage = 1000; limit = 4000; stats = (codes "cache", 300) ∷ [] };
  networks = eth ∷ wifi ∷ [];
  blkio_entries =
      record { op = codes "Read"; value = 9 } ∷ record { op = codes "write"; value = 4 } ∷ [];
  pids_current = 3;
}

abbrev before : CpuSnapshot
before = record { total = 1000; system = 9000; cpus = 2 }

abbrev after : CpuSnapshot
after = record { total = 2000; system = 9500; cpus = 2 }

sums_wrap : network_totals stats ≡ (4, 8)
unfolding network_totals add_networks
sums_wrap = refl

cache_subtracted : memory_used stats.memory_stats ≡ 700
unfolding memory_used below_usage lookup text_eq
cache_subtracted = refl

two_cores_busy : cpu_percent whole before after ≡ some 400
unfolding cpu_percent
two_cores_busy = refl
