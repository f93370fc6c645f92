-- ===== src/Collector/Tests.antt =====
-- Runs of the statistics cycle, the summaries and the bus, and the theorems at them.
use homelab_dashboard.Prelude.{
  ℕ, ◌+◌, ◌≤◌, ◌<◌, ◌≡◌, ◌↔◌, ◌⊎◌, refl, none, some, List, [], ◌∷◌, ◌++◌, Text, codes, length, take,
  arith, false, ◌-◌,
}
use homelab_dashboard.Prelude.Assoc.{Map, lookup}
use homelab_dashboard.Prelude.Float.{whole}
use homelab_dashboard.Docker.Stats.{Stats}
use homelab_dashboard.Collector.State.{Container}
use homelab_dashboard.Collector.Stacks.{StackSummary, by_name, health_of}
use homelab_dashboard.Collector.Stacks.Counts.{numbers_in, numbers_of, by_name-numbers}
use homelab_dashboard.Collector.Bus.{Channel, Bus, channel, publish_all, publish_all-channel}
use homelab_dashboard.Collector.Counters.{Counters, Reply, not_found, got, Cycle, Gauge}
use homelab_dashboard.Collector.Counters.Absorb.{Paired, two_reads, two_reads-sample}
use homelab_dashboard.Collector.Counters.Samples.{second_sample, share_between}
use homelab_dashboard.Collector.Counters.Sparkline.{Short}

abbrev reading : ℕ → ℕ → Stats
reading cpu system = record {
  cpu_stats = record {
    cpu_usage = record { total_usage = cpu; percpu_usage = [] };
    system_cpu_usage = system;
    online_cpus = 2;
  };
  memory_stats = record { usage = 10; limit = 20; stats = [] };
  networks = [];
  blkio_entries = [];
  pids_current = 1;
}

abbrev web : Text
web = codes "web"

abbrev no_counters : Counters
no_counters = record { cpu_prev = []; counters = [] }

abbrev results : List (Text × Reply)
results = (web, got (reading 5 10)) ∷ (codes "gone", not_found) ∷ []

abbrev gauges : Map (Gauge ℕ)
gauges = (web, record { live = none; sparkline = 1 ∷ [] }) ∷ []

no_counters-Paired : Paired no_counters
unfolding lookup
no_counters-Paired = λ id. (λ h. refl, λ h. refl)

gauges-Short : Short gauges
unfolding lookup
gauges-Short = λ id g h. ground arith

abbrev one : List ℕ
one = 1 ∷ []

abbrev start : Cycle ℕ
start = record { last = no_counters; live = []; samples = []; failures = 0 }

two_reads-sample_example :
    ((◌≡◌ {A = ℕ} 5 0) × (◌≡◌ {A = ℕ} 10 0) ⊎ 6 < 5 ⊎ 20 ≤ 10 ⊎ 9 ≤ 7
      → (two_reads whole web 7 9 (reading 5 10) (reading 6 20) start).samples ≡ [])
    × (0 < 5 + 10
        → 5 ≤ 6
        → 10 < 20
        → 7 < 9
        → (two_reads whole web 7 9 (reading 5 10) (reading 6 20) start).samples
          ≡ second_sample whole web 7 9
              (share_between whole (reading 5 10) (reading 6 20))
              (reading 5 10)
              (reading 6 20)
            ∷ [])
two_reads-sample_example =
    two_reads-sample whole web 7 9 (reading 5 10) (reading 6 20) start (omega arith) (omega arith)

abbrev member : Text → Text → Container ℕ
member name state = record {
  id = name;
  name = name;
  image = codes "nginx";
  stack = codes "site";
  stack_source = codes "compose";
  endpoint_id = 1;
  state = state;
  exit_code = 0;
  oom_killed = false;
  health = [];
  failing_streak = 0;
  restart_policy = codes "always";
  finished_at = 0;
  cpu_limit = 0;
  memory_limit = 0;
  update_ready = false;
  live = none;
  image_id = [];
  image_digest = [];
  service = [];
  status = [];
  health_log = [];
  restart_count = 0;
  created = 0;
  started_at = 0;
  error = [];
  tty = false;
  ports = [];
  mounts = [];
  env = [];
  labels = [];
  networks = [];
  sparkline = [];
  last_inspected = none;
}

abbrev site : List (Container ℕ)
site = member (codes "a") (codes "running") ∷ member (codes "b") (codes "exited") ∷ []

by_name-numbers_example :
    (numbers_in (lookup (codes "site") (by_name whole [] site [])) ≡ numbers_of (codes "site") site)
    × ((s : StackSummary ℕ)
        → lookup (codes "site") (by_name whole [] site []) ≡ some s
        → (health_of s ≡ codes "healthy") ↔ (
            ((numbers_of (codes "site") site).2 ≡ 0)
            × ((numbers_of (codes "site") site).1 ≡ (numbers_of (codes "site") site).0)))
by_name-numbers_example = by_name-numbers whole [] (codes "site") site

abbrev small : Channel ℕ
small = record { name = 7; buffer = 2; waiting = 1 ∷ [] }

abbrev bus : Bus ℕ
bus = record { subs = small ∷ []; next = 8 }

small_there : channel 7 bus.subs ≡ some small
unfolding channel
small_there = refl

publish_all-channel_example :
    channel 7 (publish_all (2 ∷ 3 ∷ []) bus).subs
    ≡ some (record small {
      waiting = small.waiting ++ take (small.buffer - length small.waiting) (2 ∷ 3 ∷ []);
    })
publish_all-channel_example = publish_all-channel (2 ∷ 3 ∷ []) bus 7 small small_there
