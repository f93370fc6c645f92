-- ===== src/Alerts/Rules.antt =====
-- internal/alerts/rules.go: conditions, containerDown, stoppedLongAgo and humanBytes, on the fields of
-- a snapshot that they read. Times are nanoseconds and Unix seconds as in the source; an exit code and
-- a temperature are not negative. The float formats and the duration format are the parameter `show`.
pub mod Hysteresis
pub mod Units
pub mod Down
pub mod Names
mod Tests
use homelab_dashboard.Prelude.{
  ℕ, zero, suc, ◌+◌, ◌-◌, ◌*◌, ◌/◌, ◌%◌, ◌^◌, Bool, true, false, ◌&&◌, ◌||◌, not, Option, none,
  some, List, [], ◌∷◌, ◌++◌, Text, codes, text_eq, concat, ltb, leb, ◌==◌, if◌then◌else◌,
}
use homelab_dashboard.Prelude.Assoc.{Map, lookup}
use homelab_dashboard.Prelude.Float.{Float}
use homelab_dashboard.Prelude.Decimal.{format_int}
use homelab_dashboard.Store.Alerts.{Severity, critical, warning}
use homelab_dashboard.Disks.Health.{Disk, Array, disk_healthy, array_healthy}
use homelab_dashboard.Collector.State.{
  Container, MountUsage, HostState, SourceStatus, Snapshot, running,
}
use homelab_dashboard.Collector.Counters.{Live}
use homelab_dashboard.Alerts.Engine.{Condition, Track, Settings, Engine, evaluate_at, nanos}
use homelab_dashboard.Alerts.Format.{key}

pub record Thresholds (F : Type 0) : Type 0 where
  pub debounce : ℕ
  pub sustained_for : ℕ
  pub restart_loop_count : ℕ
  pub restart_loop_window : ℕ
  pub host_unreachable_for : ℕ
  pub cpu_percent : F
  pub memory_percent : F
  pub disk_percent : F
  pub disk_temp_celsius : ℕ

-- "%.0f", "%.1f", and the text of a duration
pub record Formats (F : Type 0) : Type 0 where
  pub whole : F → Text
  pub tenths : F → Text
  pub duration : ℕ → Text

abbrev percent_hysteresis : ℕ
percent_hysteresis = 5

abbrev temp_hysteresis : ℕ
temp_hysteresis = 3

abbrev day : ℕ
day = 86_400 * nanos

-- time.Since(time.Unix(t, 0)) > d
abbrev pub longer_ago : ℕ → ℕ → ℕ → Bool
longer_ago now t d = ltb (t * nanos + d) now

abbrev pub is_state : {F : Type 0} → Container F → Text → Bool
is_state c name = text_eq c.state name

unfoldable pub stopped_long_ago : {F : Type 0} → ℕ → Container F → Bool
stopped_long_ago now c = if c.finished_at == 0 then false else longer_ago now c.finished_at day

unfoldable pub container_down : {F : Type 0} → ℕ → ℕ → Container F → Bool
container_down now debounce c =
    if running c
      || (is_state c (codes "paused")
          || (is_state c (codes "created") || is_state c (codes "restarting")))
    then is_state c (codes "restarting") && longer_ago now c.finished_at debounce
    else if text_eq c.restart_policy (codes "always")
        || text_eq c.restart_policy (codes "unless-stopped")
    then true
    else if text_eq c.restart_policy (codes "on-failure")
    then not (c.exit_code == 0)
    else not (c.exit_code == 0) && not (stopped_long_ago now c)

-- The loop of humanBytes, on fuel: what is left of n, the divisor and the exponent.
unfoldable pub human_scale : ℕ → ℕ → ℕ → ℕ → ℕ × ℕ × ℕ
human_scale zero n div exp = (n, div, exp)
human_scale (suc fuel) n div exp =
    let rest = human_scale fuel (n / 1024) (div * 1024 % 2 ^ 64) (exp + 1) in
    if leb 1024 n then rest else (n, div, exp)

-- "KMGTPE"[exp]; out of range the source panics.
abbrev pub unit_letter : List ℕ → ℕ → Option ℕ
unit_letter [] n = none
unit_letter (c ∷ cs) zero = some c
unit_letter (c ∷ cs) (suc n) = unit_letter cs n

abbrev letter_text : Option ℕ → Text
letter_text none = []
letter_text (some c) = c ∷ []

has_alert : Option Track → Bool
has_alert none = false
has_alert (some tr) = ltb 0 tr.alert_id

-- `isFiring`
unfoldable pub is_firing_in : Map Track → Text → Text → Bool
unfolding has_alert
is_firing_in tracks rule target = has_alert (lookup (key rule target) tracks)

module _ {F : Type 0} (fl : Float F) (show : Formats F) where
  open fl use {of_nat, mul, div, sub, less, at_most}

  unfoldable pub human_bytes : ℕ → Text
  human_bytes b =
      let (n, scale, exp) = human_scale 6 (b / 1024) 1024 0 in
      if ltb b 1024
      then format_int b ++ codes " B"
      else concat (
          show.tenths (div (of_nat b) (of_nat scale))
          ∷ codes " "
          ∷ letter_text (unit_letter (codes "KMGTPE") exp)
          ∷ codes "iB"
          ∷ [])

  -- The limit of a rule in percent, lower while its alert fires.
  unfoldable pub lowered : Bool → F → F
  lowered is_firing limit = if is_firing then sub limit (of_nat percent_hysteresis) else limit

  pub percent : ℕ → ℕ → F
  percent part total = mul (div (of_nat part) (of_nat total)) (of_nat 100)

  -- A condition, where the test holds.
  unfoldable pub when : Bool → Condition → List Condition
  when test c = if test then c ∷ [] else []

  -- What the rules read besides the snapshot: the time, the thresholds, isFiring, the restart counts and
  -- the limit of the database's size.
  pub record Inputs : Type 0 where
    pub now : ℕ
    pub t : Thresholds F
    pub is_firing : Text → Text → Bool
    pub restarts : Map ℕ
    pub db_max : ℕ

  abbrev pub restarts_of : Option ℕ → ℕ
  restarts_of none = 0
  restarts_of (some n) = n

  pub down_rule : Inputs → Container F → List Condition
  down_rule i c = when (container_down i.now i.t.debounce c) (record {
    rule = codes "container_down";
    target = c.id;
    target_name = c.name;
    severity = critical;
    message = concat (
        codes "state "
        ∷ c.state
        ∷ codes ", exit code "
        ∷ format_int c.exit_code
        ∷ (if c.oom_killed then codes ", OOM killed" else [])
        ∷ []);
    hold_for = i.t.debounce;
  })

  pub restart_rule : Inputs → Container F → List Condition
  restart_rule i c =
      let n = restarts_of (lookup c.id i.restarts) in
      when (leb i.t.restart_loop_count n) (record {
        rule = codes "restart_loop";
        target = c.id;
        target_name = c.name;
        severity = critical;
        message =
            concat
              (format_int n ∷ codes " restarts in " ∷ show.duration i.t.restart_loop_window ∷ []);
        hold_for = 0;
      })

  pub health_rule : Inputs → Container F → List Condition
  health_rule i c = when (text_eq c.health (codes "unhealthy")) (record {
    rule = codes "health_failing";
    target = c.id;
    target_name = c.name;
    severity = warning;
    message = codes "health check failing, streak " ++ format_int c.failing_streak;
    hold_for = i.t.debounce;
  })

  pub cpu_scale : HostState F → Container F → F
  cpu_scale h c =
      if less (of_nat 0) c.cpu_limit
      then c.cpu_limit
      else if ltb 0 h.cpus
      then of_nat h.cpus
      else of_nat 1

  pub cpu_rule : Inputs → HostState F → Container F → Live F → List Condition
  unfolding cpu_scale
  cpu_rule i h c l =
      let pct = div l.cpu_percent (cpu_scale h c) in
      when (at_most (lowered (i.is_firing (codes "cpu_high") c.id) i.t.cpu_percent) pct) (record {
        rule = codes "cpu_high";
        target = c.id;
        target_name = c.name;
        severity = warning;
        message = concat (codes "CPU at " ∷ show.whole pct ∷ codes "% of its allowance" ∷ []);
        hold_for = i.t.sustained_for;
      })

  pub memory_rule : Inputs → Container F → Live F → List Condition
  unfolding percent
  memory_rule i c l =
      let pct = percent l.mem_bytes l.mem_limit in
      when
        (ltb 0 l.mem_limit
          && ltb 0 c.memory_limit
          && at_most (lowered (i.is_firing (codes "memory_high") c.id) i.t.memory_percent) pct)
        (record {
          rule = codes "memory_high";
          target = c.id;
          target_name = c.name;
          severity = warning;
          message = concat (
              codes "memory at "
              ∷ show.whole pct
              ∷ codes "% of its "
              ∷ human_bytes l.mem_limit
              ∷ codes " limit"
              ∷ []);
          hold_for = i.t.sustained_for;
        })

  pub live_rules : Inputs → HostState F → Container F → Option (Live F) → List Condition
  unfolding cpu_rule memory_rule
  live_rules i h c none = []
  live_rules i h c (some l) = if running c then cpu_rule i h c l ++ memory_rule i c l else []

  pub container_rules : Inputs → HostState F → Container F → List Condition
  unfolding down_rule restart_rule health_rule live_rules
  container_rules i h c =
      down_rule i c ++ (restart_rule i c ++ (health_rule i c ++ live_rules i h c c.live))

  pub host_rules : Inputs → HostState F → List Condition
  unfolding percent
  host_rules i h =
      let pct = percent h.mem_used h.mem_total in
      when
        (ltb 0 h.mem_total
          && at_most
              (lowered (i.is_firing (codes "host_memory_high") (codes "host")) i.t.memory_percent)
              pct)
        (record {
          rule = codes "host_memory_high";
          target = codes "host";
          target_name = h.hostname;
          severity = warning;
          message = concat (codes "host memory at " ∷ show.whole pct ∷ codes "%" ∷ []);
          hold_for = i.t.sustained_for;
        })
      ++ when
          (ltb 0 h.cpus
            && at_most
                (lowered (i.is_firing (codes "host_cpu_high") (codes "host")) i.t.cpu_percent)
                h.cpu_percent)
          (record {
            rule = codes "host_cpu_high";
            target = codes "host";
            target_name = h.hostname;
            severity = warning;
            message = concat (codes "host CPU at " ∷ show.whole h.cpu_percent ∷ codes "%" ∷ []);
            hold_for = i.t.sustained_for;
          })

  pub mount_rule : Inputs → MountUsage → List Condition
  unfolding percent
  mount_rule i m =
      let pct = percent m.used m.total in
      when
        (not (m.total == 0)
          && at_most (lowered (i.is_firing (codes "disk_high") m.mount) i.t.disk_percent) pct)
        (record {
          rule = codes "disk_high";
          target = m.mount;
          target_name = m.mount;
          severity = warning;
          message =
              concat (show.whole pct ∷ codes "% used, " ∷ human_bytes m.free ∷ codes " free" ∷ []);
          hold_for = i.t.sustained_for;
        })

  pub disk_name : Disk → Text
  disk_name d =
      if text_eq d.model []
      then d.device
      else concat (d.device ∷ codes " (" ∷ d.model ∷ codes ")" ∷ [])

  pub show_bool : Bool → Text
  show_bool b = if b then codes "true" else codes "false"

  pub smart_rule : Disk → List Condition
  unfolding disk_name show_bool
  smart_rule d = when (not (disk_healthy d)) (record {
    rule = codes "smart_failing";
    target = d.device;
    target_name = disk_name d;
    severity = critical;
    message = concat (
        codes "reallocated "
        ∷ format_int d.reallocated
        ∷ codes ", pending "
        ∷ format_int d.pending
        ∷ codes ", uncorrectable "
        ∷ format_int d.uncorrectable
        ∷ codes ", smart passed "
        ∷ show_bool d.smart_passed
        ∷ []);
    hold_for = 0;
  })

  -- The limit that is lowered by 3 is written as the temperature that is raised by 3.
  pub temperature_rule : Inputs → Disk → List Condition
  unfolding disk_name
  temperature_rule i d =
      let raised = if i.is_firing (codes "disk_temp_high") d.device then temp_hysteresis else 0 in
      when
        (not (d.standby || (d.temperature == 0))
          && leb i.t.disk_temp_celsius (d.temperature + raised))
        (record {
          rule = codes "disk_temp_high";
          target = d.device;
          target_name = disk_name d;
          severity = warning;
          message = format_int d.temperature ++ 0xc2 ∷ 0xb0 ∷ b'C' ∷ [];
          hold_for = i.t.sustained_for;
        })

  pub disk_rules : Inputs → Disk → List Condition
  unfolding smart_rule temperature_rule
  disk_rules i d = smart_rule d ++ temperature_rule i d

  pub array_rule : Array F → List Condition
  array_rule a =
      let msg =
        if text_eq a.sync_action []
        then a.state
        else concat (a.sync_action ∷ codes " " ∷ show.tenths a.sync_percent ∷ codes "%" ∷ []) in
      when (not (array_healthy a)) (record {
        rule = codes "raid_degraded";
        target = a.name;
        target_name = concat (a.name ∷ codes " " ∷ a.level ∷ []);
        severity = critical;
        message = concat (
            msg
            ∷ codes ", "
            ∷ format_int a.slots_active
            ∷ codes " of "
            ∷ format_int a.slots_total
            ∷ codes " members active"
            ∷ []);
        hold_for = 0;
      })

  pub source_rule : Inputs → Text → Option SourceStatus → List Condition
  source_rule i name none = []
  source_rule i name (some src) = when (not src.ok) (record {
    rule = codes "host_unreachable";
    target = name;
    target_name = name;
    severity = critical;
    message = src.last_error;
    hold_for = i.t.host_unreachable_for;
  })

  pub size_rule : Inputs → ℕ → List Condition
  size_rule i db_bytes = when (ltb 0 i.db_max && ltb i.db_max db_bytes) (record {
    rule = codes "db_size";
    target = codes "sqlite";
    target_name = codes "dashboard.db";
    severity = warning;
    message = concat (human_bytes db_bytes ∷ codes " on disk, limit " ∷ human_bytes i.db_max ∷ []);
    hold_for = 0;
  })

  pub for_each : {A : Type 0} → (A → List Condition) → List A → List Condition
  for_each f [] = []
  for_each f (x ∷ xs) = f x ++ for_each f xs

  unfoldable pub conditions : Inputs → Snapshot F → List Condition
  unfolding container_rules host_rules mount_rule disk_rules array_rule source_rule size_rule
      for_each
  conditions i snap =
      for_each (container_rules i snap.host) snap.containers
      ++ (host_rules i snap.host
          ++ (for_each (mount_rule i) snap.host.mounts
              ++ (for_each (disk_rules i) snap.disks
                  ++ (for_each array_rule snap.arrays
                      ++ (source_rule i (codes "docker") (lookup (codes "docker") snap.sources)
                          ++ (source_rule i (codes "portainer")
                                (lookup (codes "portainer") snap.sources)
                              ++ size_rule i snap.db_bytes))))))

  -- Evaluate, at the time `now`: the conditions of a snapshot, found with the alerts that fire.
  unfoldable pub evaluate : Settings → ℕ → Thresholds F → Map ℕ → ℕ → Snapshot F → Engine → Engine
  evaluate s now t restarts db_max snap e =
      let inputs : Inputs = record {
        now = now;
        t = t;
        is_firing = is_firing_in e.tracks;
        restarts = restarts;
        db_max = db_max;
      } in
      evaluate_at s now (conditions inputs snap) e
