-- ===== src/Config/Load.antt =====
-- internal/config/config.go: Load. The reads of a file, the parsers of floats and durations, the time
-- zones and the %q verb are parameters; durations are nanoseconds.
pub mod Bounds
use homelab_dashboard.Prelude.{
  ℕ, ◌+◌, ◌-◌, ◌*◌, ◌%◌, ◌^◌, Bool, true, false, not, ◌&&◌, ◌||◌, Option, none, some, List, [], ◌∷◌,
  ◌++◌, ◌⊎◌, inl, inr, map, length, concat, Text, codes, text_eq, ltb, leb, ◌==◌, if◌then◌else◌,
  keep_if, any_of,
}
use homelab_dashboard.Prelude.Assoc.{Map, lookup}
use homelab_dashboard.Prelude.Decimal.{parse_int, Signed, plus, minus}
use homelab_dashboard.Prelude.Strings.{trim_right, has_prefix}
use homelab_dashboard.Registry.Tokens.{RegistryCredential}
use homelab_dashboard.Registry.Challenge.{to_lower}
use homelab_dashboard.Config.{
  Env, MountSpec, Read, parse_mounts, env_string, env_list, env_value, env_int, parse_bool,
  secret_value, text_or_default,
}
use homelab_dashboard.Config.Credentials.{parse_registry_auth}

pub record AlertThresholds (F : Type 0) : Type 0 where
  pub cpu_percent : F
  pub memory_percent : F
  pub disk_percent : F
  pub disk_temp_celsius : Signed
  pub restart_loop_count : Signed
  pub restart_loop_window : Signed
  pub sustained_for : Signed
  pub debounce : Signed
  pub host_unreachable_for : Signed

pub record Config (F : Type 0) : Type 0 where
  pub listen_addr : Text
  pub data_dir : Text
  pub timezone : Text
  pub log_level : Text
  pub portainer_url : Text
  pub portainer_api_key : Text
  pub portainer_endpoint_ids : List ℕ
  pub docker_host : Text
  pub smart_url : Text
  pub host_proc : Text
  pub host_sys : Text
  pub host_root : Text
  pub tracked_mounts : List MountSpec
  pub exclude_patterns : List Text
  pub own_stack : Text
  pub stats_interval : Signed
  pub host_interval : Signed
  pub update_interval : Signed
  pub stats_workers : Signed
  pub stats_timeout : Signed
  pub retention_days : Signed
  pub db_max_bytes : Signed
  pub admin_password : Text
  pub admin_password_hash : Text
  pub session_secret : Text
  pub session_ttl : Signed
  pub secure_cookies : Bool
  pub telegram_bot_token : Text
  pub telegram_chat_id : Text
  pub registry_auth : Map RegistryCredential
  pub alerts : AlertThresholds F
  pub log_error_patterns : List Text
  pub allowed_origins : List Text

-- v < n and v > n for a bound n from 1 up.
unfoldable pub below : Signed → ℕ → Bool
below (plus v) n = ltb v n
below (minus v) n = true

unfoldable pub above : Signed → ℕ → Bool
above (plus v) n = ltb n v
above (minus v) n = false

-- a >= b
unfoldable pub at_least : Signed → Signed → Bool
at_least (plus a) (plus b) = leb b a
at_least (plus a) (minus b) = true
at_least (minus a) (plus b) = a == 0 && b == 0
at_least (minus a) (minus b) = leb a b

-- An int64 from its bits.
unfoldable pub signed64 : ℕ → Signed
signed64 bits = if ltb bits (2 ^ 63) then plus bits else minus (2 ^ 64 - bits)

-- int64(v) * 1024 * 1024
unfoldable pub mebibytes : Signed → Signed
unfolding signed64
mebibytes (plus n) = signed64 (n * 2 ^ 20 % 2 ^ 64)
mebibytes (minus n) = signed64 ((2 ^ 64 - n * 2 ^ 20 % 2 ^ 64) % 2 ^ 64)

abbrev pub second : ℕ
second = 1_000_000_000

-- The calls of fail, each under its condition.
unfoldable pub failures : List (Bool × Text) → List Text
failures [] = []
failures ((bad, message) ∷ checks) =
    let rest = failures checks in if bad then message ∷ rest else rest

-- The errors of several reads, one after the other.
unfoldable pub concat_errors : List (List Text) → List Text
concat_errors [] = []
concat_errors (es ∷ rest) = es ++ concat_errors rest

module _ {F : Type 0} (c : Config F) where
  unfoldable pub url_checks : List (Bool × Text)
  unfolding has_prefix
  url_checks =
      let prefixed =
        has_prefix c.portainer_url (codes "http://")
        || has_prefix c.portainer_url (codes "https://") in
      let empty = text_eq c.portainer_url [] in
      (empty, codes "PORTAINER_URL is required")
      ∷ (not empty && not prefixed, codes "PORTAINER_URL must start with http:// or https://")
      ∷ []

  unfoldable pub key_checks : List (Bool × Text)
  key_checks =
      (
        text_eq c.portainer_api_key [],
        codes "PORTAINER_API_KEY or PORTAINER_API_KEY_FILE is required",
      )
      ∷ []

  unfoldable pub password_checks : List (Bool × Text)
  password_checks =
      (
        text_eq c.admin_password [] && text_eq c.admin_password_hash [],
        codes "ADMIN_PASSWORD, ADMIN_PASSWORD_FILE, or ADMIN_PASSWORD_HASH is required",
      )
      ∷ (
        not (text_eq c.admin_password []) && ltb (length c.admin_password) 8,
        codes "ADMIN_PASSWORD must be at least 8 characters",
      )
      ∷ []

  unfoldable pub telegram_checks : List (Bool × Text)
  telegram_checks =
      let no_token = text_eq c.telegram_bot_token [] in
      let no_chat = text_eq c.telegram_chat_id [] in
      (
        if no_token then not no_chat else no_chat,
        codes "TELEGRAM_BOT_TOKEN and TELEGRAM_CHAT_ID must be set together",
      )
      ∷ []

  unfoldable pub known_level : Bool
  known_level =
      let is : Text → Bool = λ t. text_eq c.log_level t in
      is (codes "debug") || (is (codes "info") || (is (codes "warn") || is (codes "error")))

  -- The checks of the numbers, the level and the data directory.
  unfoldable pub bound_checks : List (Bool × Text)
  unfolding below above at_least known_level has_prefix
  bound_checks =
      (
        below c.stats_workers 1 || above c.stats_workers 64,
        codes "STATS_WORKERS must be between 1 and 64",
      )
      ∷ (below c.stats_interval (5 * second), codes "STATS_INTERVAL must be at least 5s")
      ∷ (below c.host_interval (10 * second), codes "HOST_INTERVAL must be at least 10s")
      ∷ (
        at_least c.stats_timeout c.stats_interval,
        codes "STATS_TIMEOUT must be shorter than STATS_INTERVAL",
      )
      ∷ (below c.retention_days 1, codes "RETENTION_DAYS must be at least 1")
      ∷ (below c.db_max_bytes (16 * 2 ^ 20), codes "DB_MAX_MB must be at least 16")
      ∷ (not known_level, codes "LOG_LEVEL must be debug, info, warn, or error")
      ∷ (not (has_prefix c.data_dir (codes "/")), codes "DATA_DIR must be an absolute path")
      ∷ []

unfoldable pub mount_checks : (Text → Text) → List MountSpec → List (Bool × Text)
unfolding has_prefix
mount_checks quote [] = []
mount_checks quote (m ∷ ms) =
    (
      not (has_prefix m.path (codes "/")) || not (has_prefix m.label (codes "/")),
      codes "TRACKED_MOUNTS entry "
          ++ quote m.path
          ++ b'=' ∷ quote m.label
          ++ codes " must use absolute paths",
    )
    ∷ mount_checks quote ms

-- What Load returns: the errors, or the configuration.
unfoldable pub unless_errors : {F : Type 0} → List Text → Config F → List Text ⊎ Config F
unless_errors [] c = inr c
unless_errors (e ∷ es) c = inl (e ∷ es)

unfoldable pub value_or : {A B : Type 0} → B → (A → B) → Text ⊎ A → B × List Text
value_or def f (inl e) = (def, e ∷ [])
value_or def f (inr a) = (f a, [])

unfoldable pub positive_id : Option Signed → Option ℕ
positive_id none = none
positive_id (some (minus n)) = none
positive_id (some (plus n)) = if n == 0 then none else some n

-- What Load calls of the standard library.
pub record Library (F : Type 0) : Type 0 where
  pub quote : Text → Text
  pub of_nat : ℕ → F
  pub parse_float : Text → Option F
  pub parse_duration : Text → Option Signed
  pub read_file : Text → Text ⊎ Text
  pub is_zone : Text → Bool

module _ {F : Type 0} (lib : Library F) (env : Env) where
  open lib use {quote, of_nat, parse_float, parse_duration, read_file, is_zone}

  env_float : Text → ℕ → Read F
  unfolding env_value
  env_float key def = env_value quote parse_float (codes "a number") env key (of_nat def)

  env_duration : Text → ℕ → Read Signed
  unfolding env_value
  env_duration key def =
      env_value quote parse_duration (codes "a duration like 15s or 6h") env key (plus def)

  env_bool : Text → Bool → Read Bool
  unfolding env_value parse_bool
  env_bool key def = env_value quote parse_bool (codes "true or false") env key def

  id_or_error : Text → Option ℕ → List ℕ × List Text → List ℕ × List Text
  id_or_error raw none (ids, errors) =
      (ids, (codes "PORTAINER_ENDPOINT_IDS contains invalid id " ++ quote raw) ∷ errors)
  id_or_error raw (some id) (ids, errors) = (id ∷ ids, errors)

  endpoint_ids : List Text → List ℕ × List Text
  unfolding id_or_error positive_id parse_int
  endpoint_ids [] = ([], [])
  endpoint_ids (raw ∷ raws) = id_or_error raw (positive_id (parse_int raw)) (endpoint_ids raws)

  getenv : Text → Text
  unfolding lookup
  getenv key = text_or_default [] (lookup key env)

  slashless : Text → Text
  unfolding trim_right
  slashless s = trim_right (λ c. c == b'/') s

  thresholds : Read (AlertThresholds F)
  unfolding env_float env_duration env_int
  thresholds =
      let cpu = env_float (codes "ALERT_CPU_PCT") 90 in
      let memory = env_float (codes "ALERT_MEM_PCT") 90 in
      let disk = env_float (codes "ALERT_DISK_PCT") 90 in
      let temp = env_int quote env (codes "ALERT_DISK_TEMP_C") 55 in
      let count = env_int quote env (codes "ALERT_RESTART_COUNT") 3 in
      let window = env_duration (codes "ALERT_RESTART_WINDOW") (600 * second) in
      let sustained = env_duration (codes "ALERT_SUSTAINED_FOR") (300 * second) in
      let debounce = env_duration (codes "ALERT_DEBOUNCE") (120 * second) in
      let unreachable = env_duration (codes "ALERT_HOST_UNREACHABLE_FOR") (120 * second) in
      (
        record {
          cpu_percent = cpu.0;
          memory_percent = memory.0;
          disk_percent = disk.0;
          disk_temp_celsius = temp.0;
          restart_loop_count = count.0;
          restart_loop_window = window.0;
          sustained_for = sustained.0;
          debounce = debounce.0;
          host_unreachable_for = unreachable.0;
        },
        concat_errors (
            cpu.1 ∷ memory.1 ∷ disk.1 ∷ temp.1 ∷ count.1 ∷ window.1 ∷ sustained.1 ∷ debounce.1
            ∷ unreachable.1 ∷ []),
      )

  -- The configuration, and the errors of its reads and checks in their order.
  unfoldable pub settings : Config F × List (List Text)
  unfolding env_duration env_bool env_int env_list env_string thresholds endpoint_ids getenv
      slashless parse_mounts to_lower mebibytes secret_value parse_registry_auth value_or failures
      url_checks key_checks password_checks telegram_checks bound_checks mount_checks
  settings =
      let workers = env_int quote env (codes "STATS_WORKERS") 8 in
      let retention = env_int quote env (codes "RETENTION_DAYS") 90 in
      let session_ttl = env_duration (codes "SESSION_TTL") (604800 * second) in
      let cookies = env_bool (codes "SECURE_COOKIES") true in
      let stats = env_duration (codes "STATS_INTERVAL") (15 * second) in
      let hosts = env_duration (codes "HOST_INTERVAL") (60 * second) in
      let updates = env_duration (codes "UPDATE_INTERVAL") (21600 * second) in
      let timeout = env_duration (codes "STATS_TIMEOUT") (5 * second) in
      let megabytes = env_int quote env (codes "DB_MAX_MB") 500 in
      let zone = env_string env (codes "TZ") (codes "Asia/Riyadh") in
      let key =
        value_or [] (λ (s : Text). s) (secret_value read_file env (codes "PORTAINER_API_KEY")) in
      let ids = endpoint_ids (env_list env (codes "PORTAINER_ENDPOINT_IDS") []) in
      let password =
        value_or [] (λ (s : Text). s) (secret_value read_file env (codes "ADMIN_PASSWORD")) in
      let secret =
        value_or [] (λ (s : Text). s) (secret_value read_file env (codes "SESSION_SECRET")) in
      let auth =
        value_or [] (λ (m : Map RegistryCredential). m)
          (parse_registry_auth quote (getenv (codes "REGISTRY_AUTH"))) in
      let c : Config F = record {
        listen_addr = env_string env (codes "LISTEN_ADDR") (codes ":8080");
        data_dir = env_string env (codes "DATA_DIR") (codes "/data");
        timezone = zone;
        log_level = to_lower (env_string env (codes "LOG_LEVEL") (codes "info"));
        portainer_url = slashless (getenv (codes "PORTAINER_URL"));
        portainer_api_key = key.0;
        portainer_endpoint_ids = ids.0;
        docker_host =
            slashless (env_string env (codes "DOCKER_HOST") (codes "http://socket-proxy:2375"));
        smart_url = slashless (env_string env (codes "SMART_URL") (codes "http://smart:9633"));
        host_proc = env_string env (codes "HOST_PROC") (codes "/host/proc");
        host_sys = env_string env (codes "HOST_SYS") (codes "/host/sys");
        host_root = env_string env (codes "HOST_ROOT") (codes "/hostfs");
        tracked_mounts =
            parse_mounts
              (env_list env (codes "TRACKED_MOUNTS") (codes "/hostfs/usr=/,/data=/Volume1"));
        exclude_patterns = env_list env (codes "EXCLUDE_PATTERNS") [];
        own_stack = env_string env (codes "OWN_STACK") (codes "homelab-dashboard");
        stats_interval = stats.0;
        host_interval = hosts.0;
        update_interval = updates.0;
        stats_workers = workers.0;
        stats_timeout = timeout.0;
        retention_days = retention.0;
        db_max_bytes = mebibytes megabytes.0;
        admin_password = password.0;
        admin_password_hash = getenv (codes "ADMIN_PASSWORD_HASH");
        session_secret = secret.0;
        session_ttl = session_ttl.0;
        secure_cookies = cookies.0;
        telegram_bot_token = getenv (codes "TELEGRAM_BOT_TOKEN");
        telegram_chat_id = getenv (codes "TELEGRAM_CHAT_ID");
        registry_auth = auth.0;
        alerts = thresholds.0;
        log_error_patterns =
            env_list env (codes "LOG_ERROR_PATTERNS")
              (codes "(?i)error|exception|fatal|panic|traceback");
        allowed_origins = env_list env (codes "ALLOWED_ORIGINS") [];
      } in
      (
        c,
        (workers.1
            ∷ retention.1
            ∷ session_ttl.1
            ∷ cookies.1
            ∷ stats.1
            ∷ hosts.1
            ∷ updates.1
            ∷ timeout.1
            ∷ megabytes.1
            ∷ thresholds.1
            ∷ failures (
                (
                  not (is_zone c.timezone),
                  codes "TZ " ++ quote c.timezone ++ codes " is not a valid IANA zone",
                )
                ∷ [])
            ∷ failures (url_checks c)
            ∷ key.1
            ∷ failures (key_checks c)
            ∷ ids.1
            ∷ password.1
            ∷ failures (password_checks c)
            ∷ secret.1
            ∷ failures (telegram_checks c)
            ∷ auth.1
            ∷ failures (bound_checks c)
            ∷ failures (mount_checks quote c.tracked_mounts)
            ∷ []),
      )

  unfoldable pub load : List Text ⊎ Config F
  unfolding settings unless_errors concat_errors
  load = unless_errors (concat_errors settings.1) settings.0
