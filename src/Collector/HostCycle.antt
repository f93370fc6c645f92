-- ===== src/Collector/HostCycle.antt =====
-- internal/collector/hostcycle.go: collectHost from its readers to the sample; and hostSnapshot of
-- internal/collector/collector.go. What the readers of internal/host and Docker's Info give is an
-- argument; the arrays, the disks and the rules, which collectHost runs afterwards, are other parts.
pub mod Rates
use homelab_dashboard.Prelude.{
  ℕ, ◌+◌, ◌-◌, ◌/◌, Bool, true, false, ◌&&◌, Option, none, some, List, [], ◌∷◌, ◌++◌, map, Text,
  codes, leb, if◌then◌else◌,
}
use homelab_dashboard.Prelude.Assoc.{Map}
use homelab_dashboard.Prelude.Float.{Float}
use homelab_dashboard.Collector.Counters.{seconds, delta}
use homelab_dashboard.Collector.State.{HostState, MountUsage, SourceStatus, set_source}
use homelab_dashboard.Host.{
  Fetched, ok, failed, CpuTimes, Memory, host_cpu_percent, used, swap_used,
}
use homelab_dashboard.Host.Readers.{Load, NetCounters, joined}
use homelab_dashboard.Store.Samples.{HostSample, MountSample}

-- The fields of Docker's Info that the cycle reads.
pub record Info : Type 0 where
  pub name : Text
  pub operating_system : Text
  pub kernel_version : Text
  pub server_version : Text
  pub ncpu : ℕ

-- What the readers give in one cycle; the uptime is in seconds.
pub record Reads (F : Type 0) : Type 0 where
  pub info : Option Info
  pub cpu : Fetched CpuTimes
  pub net : NetCounters × Option Text
  pub memory : Fetched Memory
  pub load : Fetched (Load F)
  pub uptime : Option ℕ
  pub temperature : Option F
  pub mounts : List MountUsage × Option Text

pub record HostSnapshot : Type 0 where
  pub ts : ℕ
  pub cpu : CpuTimes
  pub net : NetCounters
  pub ok : Bool

-- The state that the cycle changes.
pub record HostWatch (F : Type 0) : Type 0 where
  pub host : HostState F
  pub host_prev : HostSnapshot
  pub sources : Map SourceStatus

abbrev pub no_times : CpuTimes
no_times = record {
  user = 0;
  nice = 0;
  system = 0;
  idle = 0;
  iowait = 0;
  irq = 0;
  softirq = 0;
  steal = 0;
}

abbrev pub read_times : Fetched CpuTimes → CpuTimes
read_times (ok c) = c
read_times (failed e) = no_times

abbrev pub works : {A : Type 0} → Fetched A → Bool
works (ok a) = true
works (failed e) = false

abbrev pub no_error : Option Text → Bool
no_error none = true
no_error (some e) = false

unfoldable pub host_snapshot : {F : Type 0} → ℕ → Reads F → HostSnapshot
host_snapshot now r = record {
  ts = now;
  cpu = read_times r.cpu;
  net = r.net.0;
  ok = works r.cpu && no_error r.net.1;
}

abbrev pub error_in : {A : Type 0} → Text → Fetched A → List Text
error_in prefix (ok a) = []
error_in prefix (failed e) = (prefix ++ e) ∷ []

abbrev pub error_of : Text → Option Text → List Text
error_of prefix none = []
error_of prefix (some e) = (prefix ++ e) ∷ []

-- The errors, in the order of the readers.
unfoldable pub errors_of : {F : Type 0} → Reads F → List Text
errors_of r =
    error_in (codes "cpu: ") r.cpu
    ++ error_of (codes "net: ") r.net.1
    ++ error_in (codes "memory: ") r.memory
    ++ error_in (codes "load: ") r.load
    ++ error_of (codes "mounts: ") r.mounts.1

unfoldable pub mount_samples : List MountUsage → List MountSample
mount_samples = map (λ (m : MountUsage). record { mount = m.mount; used = m.used; total = m.total })

abbrev pub or_else : {A : Type 0} → A → Option A → A
or_else d none = d
or_else d (some a) = a

-- The names of the machine: those of Info, or those that the state has.
unfoldable pub info_or : {F : Type 0} → HostState F → Option Info → Info
info_or h (some i) = i
info_or h none = record {
  name = h.hostname;
  operating_system = h.os;
  kernel_version = h.kernel;
  server_version = h.docker;
  ncpu = h.cpus;
}

module _ {F : Type 0} (fl : Float F) where
  abbrev pub zero_float : F
  zero_float = fl.of_nat 0

  unfoldable pub cpu_share : HostSnapshot → Fetched CpuTimes → F
  cpu_share prev (failed e) = zero_float
  cpu_share prev (ok c) =
      if prev.ok then or_else zero_float (host_cpu_percent fl prev.cpu c) else zero_float

  -- A rate is 0 unless both reads worked and the time advanced.
  unfoldable pub net_rate : (NetCounters → ℕ) → ℕ → HostSnapshot → NetCounters × Option Text → ℕ
  net_rate field now prev (net, some e) = 0
  net_rate field now prev (net, none) =
      if prev.ok
      then if leb now prev.ts
        then 0
        else delta fl (seconds fl (now - prev.ts)) (field prev.net) (field net)
      else 0

  abbrev pub memory_or_zero : Fetched Memory → Memory
  memory_or_zero (ok m) = m
  memory_or_zero (failed e) = record { total = 0; available = 0; swap_total = 0; swap_free = 0 }

  abbrev pub load_or_zero : Fetched (Load F) → Load F
  load_or_zero (ok l) = l
  load_or_zero (failed e) = record { one = zero_float; five = zero_float; fifteen = zero_float }

  unfoldable pub host_state : ℕ → Reads F → HostWatch F → HostState F
  unfolding info_or
  host_state now r c =
      let i = info_or c.host r.info in
      let m = memory_or_zero r.memory in
      let l = load_or_zero r.load in
      record {
        ts = now / 1_000_000_000;
        hostname = i.name;
        os = i.operating_system;
        kernel = i.kernel_version;
        docker = i.server_version;
        cpus = i.ncpu;
        cpu_percent = cpu_share c.host_prev r.cpu;
        cpu_temp = or_else zero_float r.temperature;
        load1 = l.one;
        load5 = l.five;
        load15 = l.fifteen;
        mem_used = used m;
        mem_total = m.total;
        swap_used = swap_used m;
        swap_total = m.swap_total;
        net_rx_rate = net_rate (λ n. n.rx_bytes) now c.host_prev r.net;
        net_tx_rate = net_rate (λ n. n.tx_bytes) now c.host_prev r.net;
        uptime = or_else 0 r.uptime;
        mounts = r.mounts.0;
      }

  unfoldable pub host_sample : ℕ → HostState F → HostSample F
  unfolding mount_samples
  host_sample now h = record {
    values = record {
      ts = now;
      cpu_pct = h.cpu_percent;
      load1 = h.load1;
      load5 = h.load5;
      load15 = h.load15;
      mem_used = h.mem_used;
      mem_total = h.mem_total;
      swap_used = h.swap_used;
      swap_total = h.swap_total;
      net_rx = h.net_rx_rate;
      net_tx = h.net_tx_rate;
      cpu_temp = h.cpu_temp;
    };
    mounts = mount_samples h.mounts;
  }

  -- The new state, and the sample that goes into the store, if one does.
  unfoldable pub collect_host : ℕ → Reads F → HostWatch F → HostWatch F × Option (HostSample F)
  unfolding host_state host_sample host_snapshot errors_of
  collect_host now r c =
      let h = host_state now r c in
      let errors = joined (errors_of r) in
      (
        record {
          host = h;
          host_prev = host_snapshot now r;
          sources = set_source (now / 1_000_000_000) (codes "host") errors c.sources;
        },
        if c.host_prev.ok then some (host_sample now h) else none,
      )
