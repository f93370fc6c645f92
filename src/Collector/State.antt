-- ===== src/Collector/State.antt =====
-- internal/collector/state.go: the fields of the state that the rules and the summaries read, and
-- setSource. Times are Unix seconds.
use homelab_dashboard.Prelude.{
  ℕ, Bool, true, false, Option, none, some, List, [], Text, codes, text_eq,
}
use homelab_dashboard.Prelude.Assoc.{Map, lookup, insert}
use homelab_dashboard.Disks.Health.{Disk, Array}
use homelab_dashboard.Collector.Counters.{Live}

pub record PortMapping : Type 0 where
  pub host_ip : Text
  pub host_port : ℕ
  pub container : ℕ
  pub protocol : Text

pub record MountInfo : Type 0 where
  pub type : Text
  pub source : Text
  pub destination : Text
  pub read_only : Bool

pub record HealthCheck : Type 0 where
  pub start : ℕ
  pub exit_code : ℕ
  pub output : Text

-- A container of the state; `last_inspected` is `none` for the zero time.
pub record Container (F : Type 0) : Type 0 where
  pub id : Text
  pub name : Text
  pub image : Text
  pub stack : Text
  pub stack_source : Text
  pub endpoint_id : ℕ
  pub state : Text
  pub exit_code : ℕ
  pub oom_killed : Bool
  pub health : Text
  pub failing_streak : ℕ
  pub restart_policy : Text
  pub finished_at : ℕ
  pub cpu_limit : F
  pub memory_limit : ℕ
  pub update_ready : Bool
  pub live : Option (Live F)
  pub image_id : Text
  pub image_digest : Text
  pub service : Text
  pub status : Text
  pub health_log : List HealthCheck
  pub restart_count : ℕ
  pub created : ℕ
  pub started_at : ℕ
  pub error : Text
  pub tty : Bool
  pub ports : List PortMapping
  pub mounts : List MountInfo
  pub env : List Text
  pub labels : Map Text
  pub networks : Map Text
  pub sparkline : List F
  pub last_inspected : Option ℕ

-- &Container{ID: id, Created: created}
unfoldable pub new_container : {F : Type 0} → F → Text → ℕ → Container F
new_container nought id created = record {
  id = id;
  name = [];
  image = [];
  stack = [];
  stack_source = [];
  endpoint_id = 0;
  state = [];
  exit_code = 0;
  oom_killed = false;
  health = [];
  failing_streak = 0;
  restart_policy = [];
  finished_at = 0;
  cpu_limit = nought;
  memory_limit = 0;
  update_ready = false;
  live = none;
  image_id = [];
  image_digest = [];
  service = [];
  status = [];
  health_log = [];
  restart_count = 0;
  created = created;
  started_at = 0;
  error = [];
  tty = false;
  ports = [];
  mounts = [];
  env = [];
  labels = [];
  networks = [];
  sparkline = [];
  last_inspected = none;
}

pub record MountUsage : Type 0 where
  pub mount : Text
  pub used : ℕ
  pub total : ℕ
  pub free : ℕ

pub record HostState (F : Type 0) : Type 0 where
  pub ts : ℕ
  pub hostname : Text
  pub os : Text
  pub kernel : Text
  pub docker : Text
  pub cpus : ℕ
  pub cpu_percent : F
  pub cpu_temp : F
  pub load1 : F
  pub load5 : F
  pub load15 : F
  pub mem_used : ℕ
  pub mem_total : ℕ
  pub swap_used : ℕ
  pub swap_total : ℕ
  pub net_rx_rate : ℕ
  pub net_tx_rate : ℕ
  pub uptime : ℕ
  pub mounts : List MountUsage

pub record SourceStatus : Type 0 where
  pub ok : Bool
  pub last_ok : ℕ
  pub last_error : Text
  pub error_at : ℕ

pub record Snapshot (F : Type 0) : Type 0 where
  pub host : HostState F
  pub containers : List (Container F)
  pub disks : List Disk
  pub arrays : List (Array F)
  pub sources : Map SourceStatus
  pub db_bytes : ℕ

unfoldable pub running : {F : Type 0} → Container F → Bool
running c = text_eq c.state (codes "running")

abbrev pub source_or_zero : Option SourceStatus → SourceStatus
source_or_zero none = record { ok = false; last_ok = 0; last_error = []; error_at = 0 }
source_or_zero (some s) = s

noted : ℕ → Option Text → SourceStatus → SourceStatus
noted now none s = record s { ok = true; last_ok = now; last_error = [] }
noted now (some e) s = record s { ok = false; last_error = e; error_at = now }

-- `setSource`, with the text of the error if there is one.
unfoldable pub set_source : ℕ → Text → Option Text → Map SourceStatus → Map SourceStatus
unfolding noted
set_source now name err sources =
    insert name (noted now err (source_or_zero (lookup name sources))) sources
