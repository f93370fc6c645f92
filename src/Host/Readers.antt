-- ===== src/Host/Readers.antt =====
-- internal/host/host.go: load, network, mounts and temperature. statMount and ParseFloat are arguments.
use homelab_dashboard.Prelude.{
  ℕ, ◌+◌, ◌%◌, ◌^◌, Bool, Option, none, some, List, [], ◌∷◌, ◌++◌, length, drop, any_of, Text,
  codes, text_eq, ltb, if◌then◌else◌,
}
use homelab_dashboard.Prelude.Float.{Float}
use homelab_dashboard.Prelude.Strings.{has_prefix, cut, trim_space, join_rest}
use homelab_dashboard.Collector.State.{MountUsage}
use homelab_dashboard.Host.{
  File, unopened, scanned, Fetched, ok, failed, fields, number_in, parse_uint,
}

pub record Load (F : Type 0) : Type 0 where
  pub one : F
  pub five : F
  pub fifteen : F

-- ParseFloat without regard to its error is `value`.
unfoldable pub load_of : {F : Type 0} → (Text → F) → List Text → Fetched (Load F)
load_of value (one ∷ five ∷ fifteen ∷ fs) =
    ok (record { one = value one; five = value five; fifteen = value fifteen })
load_of value _ = failed (codes "loadavg malformed")

-- Reader.Load, on the text of the file.
unfoldable pub load_average : {F : Type 0} → (Text → F) → Fetched Text → Fetched (Load F)
unfolding load_of fields
load_average value (failed e) = failed e
load_average value (ok text) = load_of value (fields text)

pub record NetCounters : Type 0 where
  pub rx_bytes : ℕ
  pub tx_bytes : ℕ

abbrev pub virtual_prefixes : List Text
virtual_prefixes =
    codes "lo"
    ∷ codes "veth"
    ∷ codes "docker"
    ∷ codes "br-"
    ∷ codes "virbr"
    ∷ codes "tailscale"
    ∷ codes "wg"
    ∷ codes "tun"
    ∷ codes "dummy"
    ∷ []

unfoldable pub is_virtual_interface : Text → Bool
unfolding has_prefix
is_virtual_interface name = any_of (λ p. has_prefix name p) virtual_prefixes

unfoldable pub add_counters : List Text → NetCounters → NetCounters
unfolding parse_uint
add_counters fs t = if ltb (length fs) 9 then t else record {
  rx_bytes = (t.rx_bytes + number_in fs) % 2 ^ 64;
  tx_bytes = (t.tx_bytes + number_in (drop 8 fs)) % 2 ^ 64;
}

-- One round of the loop of Reader.Network.
unfoldable pub add_interface : Text → NetCounters → NetCounters
unfolding is_virtual_interface add_counters fields trim_space
add_interface line t = elim (cut line b':') [
  | some p ↦ if is_virtual_interface (trim_space p.0) then t else add_counters (fields p.1) t
  | none ↦ t
]

unfoldable pub add_interfaces : List Text → NetCounters → NetCounters
unfolding add_interface
add_interfaces [] t = t
add_interfaces (line ∷ lines) t = add_interfaces lines (add_interface line t)

-- Reader.Network: the total so far, with the error of the scan.
unfoldable pub network : File → NetCounters × Option Text
unfolding add_interfaces
network (unopened e) = (record { rx_bytes = 0; tx_bytes = 0 }, some e)
network (scanned lines e) = (add_interfaces lines (record { rx_bytes = 0; tx_bytes = 0 }), e)

pub record MountProbe : Type 0 where
  pub path : Text
  pub label : Text

abbrev pub add_mount :
    Text → Fetched MountUsage → List MountUsage × List Text → List MountUsage × List Text
add_mount label (failed e) (out, errs) = (out, (label ++ codes ": " ++ e) ∷ errs)
add_mount label (ok u) (out, errs) = (record u { mount = label } ∷ out, errs)

-- The loop of Reader.Mounts, from its end.
unfoldable pub mounts_of :
    (Text → Fetched MountUsage) → List MountProbe → List MountUsage × List Text
mounts_of stat_mount [] = ([], [])
mounts_of stat_mount (p ∷ probes) =
    add_mount p.label (stat_mount p.path) (mounts_of stat_mount probes)

-- errors.Join
abbrev pub joined : List Text → Option Text
joined [] = none
joined (e ∷ errs) = some (e ++ join_rest 10 errs)

unfoldable pub mounts :
    (Text → Fetched MountUsage) → List MountProbe → List MountUsage × Option Text
unfolding mounts_of
mounts stat_mount probes = ((mounts_of stat_mount probes).0, joined (mounts_of stat_mount probes).1)

-- An entry of hwmon with the text of its two files; `none` is one that does not read.
pub record Sensor : Type 0 where
  pub name : Option Text
  pub temp1_input : Option Text

abbrev pub cpu_sensors : List Text
cpu_sensors = codes "coretemp" ∷ codes "k10temp" ∷ codes "zenpower" ∷ codes "cpu_thermal" ∷ []

module _ {F : Type 0} (fl : Float F) (parse_float : Text → Option F) where
  infixl 20 ◌>>=◌
  abbrev ◌>>=◌ {ℓ ℓ'} : {A : Type ℓ} {B : Type ℓ'} → Option A → (A → Option B) → Option B
  none >>= f = none
  some a >>= f = f a

  -- The name and the temperature of an entry that the loop does not leave out.
  unfoldable pub reading : Sensor → Option (Text × F)
  unfolding trim_space
  reading s = do
    name ← s.name
    raw ← s.temp1_input
    milli ← parse_float (trim_space raw)
    some (trim_space name, fl.div milli (fl.of_nat 1000))

  abbrev or_fallback : Option F → Option F → Option F
  or_fallback (some f) next = some f
  or_fallback none next = next

  -- The loop of CPUTemperature, from the fallback so far.
  unfoldable pub temperature_from : List Sensor → Option F → Option F
  unfolding reading
  temperature_from [] fallback = fallback
  temperature_from (s ∷ sensors) fallback = elim (reading s) [
    | none ↦ temperature_from sensors fallback
    | some r ↦
        let rest = temperature_from sensors (or_fallback fallback (some r.1)) in
        if any_of (text_eq r.0) cpu_sensors then some r.1 else rest
  ]

  -- CPUTemperature; `none` is a directory that does not read.
  unfoldable pub cpu_temperature : Option (List Sensor) → Option F
  unfolding temperature_from
  cpu_temperature none = none
  cpu_temperature (some sensors) = temperature_from sensors none
