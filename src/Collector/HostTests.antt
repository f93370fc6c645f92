-- ===== src/Collector/HostTests.antt =====
-- Two cycles of the host, and the theorem at them.
use homelab_dashboard.Prelude.{ℕ, ◌-◌, ◌≡◌, refl, false, none, some, [], ◌∷◌, codes, arith}
use homelab_dashboard.Prelude.Float.{whole}
use homelab_dashboard.Collector.Counters.{seconds, delta}
use homelab_dashboard.Host.{CpuTimes, ok, failed, host_cpu_percent}
use homelab_dashboard.Host.Readers.{NetCounters}
use homelab_dashboard.Store.Samples.{HostSample}
use homelab_dashboard.Collector.HostCycle.{
  Reads, HostWatch, collect_host, host_snapshot, host_state, info_or, net_rate, mount_samples,
  or_else, zero_float, no_times,
}
use homelab_dashboard.Collector.HostCycle.Rates.{two_cycles-sample}

abbrev times : CpuTimes
times = record no_times { user = 100; idle = 900 }

abbrev times_after : CpuTimes
times_after = record no_times { user = 300; idle = 900 }

abbrev net : NetCounters
net = record { rx_bytes = 1000; tx_bytes = 500 }

abbrev net_after : NetCounters
net_after = record { rx_bytes = 5000; tx_bytes = 100 }

abbrev reads : Reads ℕ
reads = record {
  info = some (record {
    name = codes "nas";
    operating_system = codes "Debian";
    kernel_version = codes "6.1";
    server_version = codes "27";
    ncpu = 4;
  });
  cpu = ok times;
  net = (net, none);
  memory = ok (record { total = 8000; available = 6000; swap_total = 10; swap_free = 20 });
  load = failed (codes "loadavg malformed");
  uptime = some 60;
  temperature = none;
  mounts = (record { mount = codes "/"; used = 3; total = 9; free = 6 } ∷ [], none);
}

abbrev reads_after : Reads ℕ
reads_after = record reads { info = none; cpu = ok times_after; net = (net_after, none) }

abbrev start : HostWatch ℕ
start = record {
  host = record {
    ts = 0;
    hostname = [];
    os = [];
    kernel = [];
    docker = [];
    cpus = 0;
    cpu_percent = 0;
    cpu_temp = 0;
    load1 = 0;
    load5 = 0;
    load15 = 0;
    mem_used = 0;
    mem_total = 0;
    swap_used = 0;
    swap_total = 0;
    net_rx_rate = 0;
    net_tx_rate = 0;
    uptime = 0;
    mounts = [];
  };
  host_prev = record {
    ts = 0;
    cpu = no_times;
    net = record { rx_bytes = 0; tx_bytes = 0 };
    ok = false;
  };
  sources = [];
}

-- The first cycle stores no sample; names that Info does not give stay.
first_unstored : (collect_host whole 1_000_000_000 reads start).1 ≡ none
unfolding collect_host
first_unstored = refl

names_stay :
    (collect_host whole 3_000_000_000 reads_after
      (collect_host whole 1_000_000_000 reads start).0).0.host.hostname
    ≡ codes "nas"
unfolding collect_host host_state info_or
names_stay = refl

rate_of_two_seconds :
    (collect_host whole 3_000_000_000 reads_after
      (collect_host whole 1_000_000_000 reads start).0).0.host.net_rx_rate
    ≡ 2000
unfolding collect_host host_state host_snapshot net_rate delta seconds
rate_of_two_seconds = refl

two_cycles-sample_example :
    (s : HostSample ℕ) × ((collect_host whole 3_000_000_000 reads_after
        (collect_host whole 1_000_000_000 reads start).0).1
      ≡ some s)
    × (s.values.ts ≡ 3_000_000_000)
    × (s.values.cpu_pct ≡ or_else (zero_float whole) (host_cpu_percent whole times times_after))
    × (s.values.net_rx
        ≡ delta whole
            (seconds whole (3_000_000_000 - 1_000_000_000))
            net.rx_bytes
            net_after.rx_bytes)
    × (s.values.net_tx
        ≡ delta whole
            (seconds whole (3_000_000_000 - 1_000_000_000))
            net.tx_bytes
            net_after.tx_bytes)
    × (s.mounts ≡ mount_samples reads_after.mounts.0)
two_cycles-sample_example =
    two_cycles-sample whole 1_000_000_000 3_000_000_000 reads reads_after start times times_after
      net net_after refl refl refl refl (omega arith)
