-- ===== src/Alerts/Rules/Tests.antt =====
-- A snapshot, and the theorems on the rules at it.
use homelab_dashboard.Prelude.{ℕ, ◌≡◌, refl, true, false, none, [], ◌∷◌, codes, All}
use homelab_dashboard.Prelude.Float.{whole}
use homelab_dashboard.Alerts.Format.{key, split_key}
use homelab_dashboard.Collector.State.{Container, Snapshot}
use homelab_dashboard.Alerts.Rules.{Thresholds, Formats, Inputs, conditions}
use homelab_dashboard.Alerts.Rules.Hysteresis.{Covered, conditions-Covered}
use homelab_dashboard.Alerts.Rules.Names.{conditions-split_key}

abbrev formats : Formats ℕ
formats = record { whole = λ n. []; tenths = λ n. []; duration = λ n. [] }

abbrev web : Container ℕ
web = record {
  id = codes "1";
  name = codes "web";
  image = codes "nginx";
  stack = codes "site";
  stack_source = codes "compose";
  endpoint_id = 1;
  state = codes "exited";
  exit_code = 0;
  oom_killed = false;
  health = [];
  failing_streak = 0;
  restart_policy = codes "always";
  finished_at = 5;
  cpu_limit = 0;
  memory_limit = 0;
  update_ready = false;
  live = none;
  image_id = [];
  image_digest = [];
  service = [];
  status = [];
  health_log = [];
  restart_count = 0;
  created = 0;
  started_at = 0;
  error = [];
  tty = false;
  ports = [];
  mounts = [];
  env = [];
  labels = [];
  networks = [];
  sparkline = [];
  last_inspected = none;
}

abbrev snapshot : Snapshot ℕ
snapshot = record {
  host = record {
    ts = 100;
    hostname = codes "nas";
    os = codes "Debian";
    kernel = codes "6.1";
    docker = codes "27";
    cpus = 4;
    cpu_percent = 87;
    cpu_temp = 50;
    load1 = 1;
    load5 = 1;
    load15 = 1;
    mem_used = 1;
    mem_total = 2;
    swap_used = 0;
    swap_total = 0;
    net_rx_rate = 0;
    net_tx_rate = 0;
    uptime = 60;
    mounts = [];
  };
  containers = web ∷ [];
  disks = [];
  arrays = [];
  sources = [];
  db_bytes = 1;
}

abbrev thresholds : Thresholds ℕ
thresholds = record {
  debounce = 60;
  sustained_for = 300;
  restart_loop_count = 3;
  restart_loop_window = 600;
  host_unreachable_for = 120;
  cpu_percent = 90;
  memory_percent = 90;
  disk_percent = 90;
  disk_temp_celsius = 50;
}

abbrev quiet : Inputs whole formats
quiet = record { now = 100; t = thresholds; is_firing = λ r t. false; restarts = []; db_max = 0 }

conditions-Covered_example :
    Covered
      (conditions whole formats quiet snapshot)
      (conditions whole formats (record quiet { is_firing = λ r t. true }) snapshot)
conditions-Covered_example =
    conditions-Covered whole formats quiet (λ r t. true) (λ r t h. refl) snapshot

conditions-split_key_example :
    All
      (λ c. split_key (key c.rule c.target) ≡ (c.rule, c.target))
      (conditions whole formats quiet snapshot)
conditions-split_key_example = conditions-split_key whole formats quiet snapshot
