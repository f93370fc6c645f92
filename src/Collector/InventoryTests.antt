-- ===== src/Collector/InventoryTests.antt =====
-- The theorems on the inventory at sample containers.
use homelab_dashboard.Prelude.{
  ℕ, ◌+◌, ◌≡◌, refl, Bool, true, false, Option, none, some, [], ◌∷◌, inl, inr, In, ◌/◌, Text, codes,
  any_of, text_eq, arith,
}
use homelab_dashboard.Prelude.Assoc.{lookup}
use homelab_dashboard.Prelude.Float.{whole}
use homelab_dashboard.Prelude.Strings.{contains, has_prefix}
use homelab_dashboard.Docker.Stats.{CpuSnapshot}
use homelab_dashboard.Store.Events.{LogErrorRecord, count_of, restart_counts}
use homelab_dashboard.Collector.LogScan.{Scanner, Scanned, Target, scan_logs}
use homelab_dashboard.Collector.LogScan.Found.{Apart}
use homelab_dashboard.Collector.LogScan.Kept.{IsNew, plain, scan_logs_stored}
use homelab_dashboard.Docker.Logs.{LogLine}
use homelab_dashboard.Collector.Events.{Event, Handled, Handler, handle_event}
use homelab_dashboard.Collector.Events.Restarts.{adds, handle_event-restart_counts}
use homelab_dashboard.Collector.Inspect.{truncate, mask_env, is_secret, ContainerInspect}
use homelab_dashboard.Collector.Inspect.Secrets.{
  other_value, same, SameButSecrets, IsSecret, mask_env-SameButSecrets,
}
use homelab_dashboard.Collector.Inventory.{
  ContainerSummary, PortainerState, Inventory, refresh_inventory,
}
use homelab_dashboard.Collector.Inventory.Listed.{has, is_listed, has-refresh_inventory}

token_one : IsSecret (codes "API_TOKEN") (codes "1")
unfolding IsSecret is_secret contains has_prefix
token_one = (ground arith, refl, λ e. cc)

token_two : IsSecret (codes "API_TOKEN") (codes "22")
unfolding IsSecret is_secret contains has_prefix
token_two = (ground arith, refl, λ e. cc)

mask_env-SameButSecrets_example :
    mask_env (codes "A=1" ∷ codes "API_TOKEN=1" ∷ [])
    ≡ mask_env (codes "A=1" ∷ codes "API_TOKEN=22" ∷ [])
unfolding SameButSecrets
mask_env-SameButSecrets_example =
    mask_env-SameButSecrets (codes "A=1" ∷ codes "API_TOKEN=1" ∷ [])
      (codes "A=1" ∷ codes "API_TOKEN=22" ∷ [])
      (
        same (codes "A=1"),
        (other_value (codes "API_TOKEN") (codes "1") (codes "22") token_one token_two, tt),
      )

abbrev summary : ContainerSummary
summary = record {
  id = codes "c1";
  names = codes "/web" ∷ [];
  image = codes "nginx";
  image_id = codes "i1";
  created = 3;
  state = codes "running";
  status = codes "Up";
  labels = [];
}

abbrev no_portainer : PortainerState
no_portainer = record { version = []; endpoints = []; stacks = [] }

abbrev snapshot : CpuSnapshot
snapshot = record { total = 1; system = 2; cpus = 1 }

abbrev inventory : Inventory ℕ
inventory = record {
  containers = [];
  portainer = no_portainer;
  sources = [];
  counters = record { cpu_prev = (codes "gone", snapshot) ∷ []; counters = [] };
  log_cursor = [];
}

abbrev skip_none : Text → Text → Bool
skip_none name stack = false

abbrev no_answer : Text → Option ContainerInspect
no_answer id = none

abbrev no_time : Text → Option ℕ
no_time s = none

abbrev no_number : Text → ℕ
no_number s = 0

has-refresh_inventory_example :
    has
      (codes "c1")
      (refresh_inventory whole no_time no_number skip_none 9 no_answer
        (inr (summary ∷ []))
        inventory).0.containers
    ≡ any_of (is_listed whole skip_none no_portainer 9 (codes "c1")) (summary ∷ [])
has-refresh_inventory_example =
    has-refresh_inventory whole no_time no_number skip_none 9 no_answer (summary ∷ []) inventory
      (codes "c1")

is_there : any_of (is_listed whole skip_none no_portainer 9 (codes "c1")) (summary ∷ []) ≡ true
unfolding any_of is_listed text_eq
is_there = refl

abbrev handler : Handler ℕ
handler = record {
  fl = whole;
  parse_time = no_time;
  atoi = no_number;
  exit_text = λ s. some s;
  skip = skip_none;
  now = 9;
  answer = no_answer;
  listing = inr (summary ∷ []);
  event_fault = none;
  line_fault = none;
}

abbrev state : Handled ℕ
state = record {
  inventory = inventory;
  events = record { rows = []; last_id = 0 };
  lines = record { rows = []; last_id = 0 };
  messages = [];
  evaluations = 0;
}

abbrev die_event : Event
die_event = record {
  type = codes "container";
  action = codes "die";
  id = codes "c1";
  attributes = (codes "name", codes "web") ∷ (codes "exitCode", codes "1") ∷ [];
  time = 20;
  time_nano = 0;
}

handle_event-restart_counts_example :
    count_of (codes "c1") (restart_counts 10 (handle_event handler die_event state).events)
    ≡ count_of (codes "c1") (restart_counts 10 state.events)
      + adds handler 10 (codes "c1") die_event
handle_event-restart_counts_example =
    handle_event-restart_counts handler die_event state 10 (codes "c1") refl

counts_the_exit : adds handler 10 (codes "c1") die_event ≡ 1
unfolding text_eq any_of
counts_the_exit = refl

-- Docker has one line of one container, and every line matches.
abbrev scanner : Scanner
scanner = record {
  strip = λ s. s;
  matches = λ s. true;
  logs = λ id tty since.
      some
        (record { time = some 80_000_000_000; stream = codes "stderr"; text = codes "panic" } ∷ []);
  is_done = λ id. false;
}

abbrev scan_target : Target
scan_target = record { id = codes "c1"; name = codes "web"; tty = false }

abbrev nothing_scanned : Scanned
nothing_scanned = record {
  log_cursor = [];
  lines = record { rows = []; last_id = 0 };
  published = [];
}

abbrev panic : LogLine
panic = record { time = some 80_000_000_000; stream = codes "stderr"; text = codes "panic" }

panic-IsNew : IsNew scanner 90_000_000_000 30_000_000_000 panic 80_000_000_000
panic-IsNew = (refl, omega arith, refl)

scan_logs_stored_example :
    (row : LogErrorRecord) × In row
      (scan_logs scanner 90_000_000_000 none (scan_target ∷ []) nothing_scanned).lines.rows
    × (row.container_id ≡ codes "c1")
    × (row.ts ≡ 80_000_000_000 / 1_000_000_000)
    × (row.line ≡ truncate (plain scanner 90_000_000_000 (codes "panic")) 4000)
unfolding Apart lookup
scan_logs_stored_example =
    scan_logs_stored scanner 90_000_000_000 (scan_target ∷ []) nothing_scanned scan_target
      (panic ∷ []) panic 80_000_000_000 (λ id. refl) (tt, tt) (inl refl) refl (inl refl) panic-IsNew
