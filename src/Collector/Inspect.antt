-- ===== src/Collector/Inspect.antt =====
-- internal/collector/inventory.go: applyInspect, maskEnv, parseDockerTime and truncate. The parser of
-- times and strconv.Atoi, whose errors are dropped, are parameters.
pub mod Secrets
use homelab_dashboard.Prelude.{
  ℕ, ◌-◌, Bool, true, false, not, ◌&&◌, ◌||◌, Option, none, some, List, [], ◌∷◌, ◌++◌, map, length,
  take, drop, Text, codes, text_eq, ltb, leb, ◌==◌, if◌then◌else◌, any_of,
}
use homelab_dashboard.Prelude.Assoc.{Map, insert}
use homelab_dashboard.Prelude.Strings.{has_prefix, contains, cut}
use homelab_dashboard.Prelude.Float.{Float}
use homelab_dashboard.Prelude.Sorting.{text_less, sort_with, sort_by, sort_strings}
use homelab_dashboard.Collector.State.{Container, PortMapping, MountInfo, HealthCheck}

pub record HealthLog : Type 0 where
  pub start : Text
  pub exit_code : ℕ
  pub output : Text

pub record Health : Type 0 where
  pub status : Text
  pub failing_streak : ℕ
  pub log : List HealthLog

pub record ContainerState : Type 0 where
  pub status : Text
  pub oom_killed : Bool
  pub exit_code : ℕ
  pub error : Text
  pub started_at : Text
  pub finished_at : Text
  pub health : Option Health

pub record PortBinding : Type 0 where
  pub host_ip : Text
  pub host_port : Text

pub record Mount : Type 0 where
  pub type : Text
  pub name : Text
  pub source : Text
  pub destination : Text
  pub rw : Bool

-- The fields of docker.ContainerInspect that applyInspect reads.
pub record ContainerInspect : Type 0 where
  pub created : Text
  pub restart_count : ℕ
  pub state : ContainerState
  pub env : List Text
  pub tty : Bool
  pub restart_policy : Text
  pub memory : ℕ
  pub nano_cpus : ℕ
  pub port_bindings : Map (List PortBinding)
  pub mounts : List Mount
  pub networks : Map Text

abbrev pub secret_env_hints : List Text
secret_env_hints =
    codes "PASS"
    ∷ codes "SECRET"
    ∷ codes "TOKEN"
    ∷ codes "KEY"
    ∷ codes "PWD"
    ∷ codes "CREDENTIAL"
    ∷ codes "AUTH"
    ∷ codes "PRIVATE"
    ∷ codes "DSN"
    ∷ codes "DATABASE_URL"
    ∷ codes "COOKIE"
    ∷ codes "SALT"
    ∷ codes "HASH"
    ∷ []

-- strings.ToUpper, on ASCII.
unfoldable pub to_upper : Text → Text
to_upper s = map (λ c. if leb 97 c && leb c 122 then c - 32 else c) s

unfoldable pub is_secret : Text → Bool
unfolding to_upper contains any_of
is_secret key = any_of (contains (to_upper key)) secret_env_hints

-- The six bullets, in UTF-8.
abbrev pub bullets : Text
bullets =
    226 ∷ 128 ∷ 162 ∷ 226 ∷ 128 ∷ 162 ∷ 226 ∷ 128 ∷ 162 ∷ 226 ∷ 128 ∷ 162 ∷ 226 ∷ 128 ∷ 162 ∷ 226
    ∷ 128 ∷ 162 ∷ []

unfoldable pub mask_cut : Text → Option (Text × Text) → Text
unfolding is_secret
mask_cut kv none = kv
mask_cut kv (some (key, value)) =
    if is_secret key && not (text_eq value []) then key ++ b'=' ∷ bullets else kv

unfoldable pub mask_line : Text → Text
unfolding mask_cut cut
mask_line kv = mask_cut kv (cut kv b'=')

unfoldable pub mask_env : List Text → List Text
unfolding mask_line sort_strings
mask_env env = sort_strings (map mask_line env)

-- s[:n] and an ellipsis
unfoldable pub truncate : Text → ℕ → Text
truncate s n = if leb (length s) n then s else take n s ++ 226 ∷ 128 ∷ 166 ∷ []

unfoldable pub last_five : {A : Type 0} → List A → List A
last_five logs = if ltb 5 (length logs) then drop (length logs - 5) logs else logs

unfoldable pub mount_info : Mount → MountInfo
mount_info m = record {
  type = m.type;
  source = if text_eq m.type (codes "volume") && not (text_eq m.name []) then m.name else m.source;
  destination = m.destination;
  read_only = not m.rw;
}

-- m[key] = value for each entry in turn
unfoldable pub copy_map : Map Text → Map Text → Map Text
unfolding insert
copy_map [] out = out
copy_map ((k, v) ∷ m) out = copy_map m (insert k v out)

module _ {F : Type 0} (fl : Float F) (parse_time : Text → Option ℕ) (atoi : Text → ℕ) where
  open fl use {of_nat, div}

  unfoldable pub or_zero_time : Option ℕ → ℕ
  or_zero_time none = 0
  or_zero_time (some t) = t

  -- A time of Docker, in seconds; 0 where it is not set or does not parse.
  unfoldable pub parse_docker_time : Text → ℕ
  unfolding or_zero_time has_prefix
  parse_docker_time s =
      if text_eq s [] || has_prefix s (codes "0001-") then 0 else or_zero_time (parse_time s)

  unfoldable pub health_check : HealthLog → HealthCheck
  unfolding parse_docker_time truncate
  health_check l = record {
    start = parse_docker_time l.start;
    exit_code = l.exit_code;
    output = truncate l.output 2000;
  }

  unfoldable pub set_health : Option Health → Container F → Container F
  unfolding health_check last_five
  set_health none cont = record cont { health = []; failing_streak = 0; health_log = [] }
  set_health (some h) cont = record cont {
    health = h.status;
    failing_streak = h.failing_streak;
    health_log = map health_check (last_five h.log);
  }

  unfoldable pub spec_parts : Text → Option (Text × Text) → Text × Text
  spec_parts spec none = (spec, [])
  spec_parts spec (some parts) = parts

  unfoldable pub port_mappings : Map (List PortBinding) → List PortMapping
  unfolding spec_parts cut
  port_mappings [] = []
  port_mappings ((spec, bindings) ∷ rest) =
      let (port, proto) = spec_parts spec (cut spec b'/') in
      map
        (λ (b : PortBinding). record {
          host_ip = b.host_ip;
          host_port = atoi b.host_port;
          container = atoi port;
          protocol = proto;
        })
        bindings
      ++ port_mappings rest

  unfoldable pub apply_inspect : ContainerInspect → Container F → Container F
  unfolding parse_docker_time set_health mask_env mount_info port_mappings copy_map sort_by
      sort_with
  apply_inspect info cont = set_health info.state.health (record cont {
    state = info.state.status;
    restart_count = info.restart_count;
    restart_policy = info.restart_policy;
    exit_code = info.state.exit_code;
    oom_killed = info.state.oom_killed;
    error = info.state.error;
    tty = info.tty;
    started_at = parse_docker_time info.state.started_at;
    finished_at = parse_docker_time info.state.finished_at;
    memory_limit = info.memory;
    cpu_limit = div (of_nat info.nano_cpus) (of_nat 1_000_000_000);
    created = if cont.created == 0 then parse_docker_time info.created else cont.created;
    env = mask_env info.env;
    mounts = sort_by (λ m. m.destination) (map mount_info info.mounts);
    ports = sort_with (λ a b. ltb a.host_port b.host_port) (port_mappings info.port_bindings);
    networks = copy_map info.networks [];
  })
