-- ===== src/Disks/Smart.antt =====
-- internal/disks/smart.go: ParseSmartctl on the report that encoding/json reads from the text, whose
-- numbers smartctl gives as 0 or more.
use homelab_dashboard.Prelude.{
  ℕ, ◌+◌, ◌≡◌, ◌%◌, ◌^◌, refl, Bool, true, false, not, ◌&&◌, ◌||◌, Option, none, some, List, [],
  ◌∷◌, map, any_of, Text, codes, leb, ◌==◌, if◌then◌else◌,
}
use homelab_dashboard.Prelude.Strings.{contains}
use homelab_dashboard.Disks.Health.{Disk, disk_healthy}

pub record SmartAttribute : Type 0 where
  pub id : ℕ
  pub raw_value : ℕ

pub record NvmeHealth : Type 0 where
  pub temperature : ℕ
  pub percentage_used : ℕ
  pub power_on_hours : ℕ
  pub power_cycles : ℕ
  pub media_errors : ℕ
  pub critical_warning : ℕ

-- The fields that ParseSmartctl reads; `none` is a null pointer.
pub record SmartctlOutput : Type 0 where
  pub device_name : Text
  pub device_type : Text
  pub device_protocol : Text
  pub exit_status : ℕ
  pub messages : List Text
  pub model_family : Text
  pub model_name : Text
  pub serial_number : Text
  pub firmware_version : Text
  pub user_capacity : ℕ
  pub rotation_rate : ℕ
  pub smart_status : Option Bool
  pub current_temperature : ℕ
  pub power_on_time : ℕ
  pub power_cycle_count : ℕ
  pub attributes : List SmartAttribute
  pub nvme : Option NvmeHealth

-- The result with its error, if any.
pub data SmartError : Type 0 where
  no_device_name : SmartError
  err_standby : SmartError

-- firstNonEmpty
unfoldable pub first_non_empty : List Text → Text
first_non_empty [] = []
first_non_empty ([] ∷ values) = first_non_empty values
first_non_empty ((c ∷ v) ∷ values) = c ∷ v

abbrev pub is_empty : Text → Bool
is_empty [] = true
is_empty (c ∷ s) = false

-- strings.ToLower, on ASCII text.
unfoldable pub to_lower : Text → Text
to_lower = map (λ c. if leb 65 c && leb c 90 then c + 32 else c)

unfoldable pub names_standby : List Text → Bool
unfolding to_lower
names_standby = any_of (λ m. contains (to_lower m) (codes "standby"))

abbrev pub or_value : ℕ → ℕ → ℕ
or_value old new = if old == 0 then new else old

unfoldable pub first_disk : SmartctlOutput → Disk
unfolding first_non_empty names_standby
first_disk out =
    let model = first_non_empty (out.model_name ∷ out.model_family ∷ []) in
    record {
      device = out.device_name;
      model = model;
      serial = out.serial_number;
      firmware = out.firmware_version;
      capacity_bytes = out.user_capacity;
      rotation_rpm = out.rotation_rate;
      transport = first_non_empty (out.device_protocol ∷ out.device_type ∷ []);
      temperature = out.current_temperature;
      power_on_hours = out.power_on_time;
      power_cycles = out.power_cycle_count;
      reallocated = 0;
      pending = 0;
      uncorrectable = 0;
      crc_errors = 0;
      smart_passed = elim out.smart_status [ none ↦ false | some passed ↦ passed ];
      smart_known = elim out.smart_status [ none ↦ false | some passed ↦ true ];
      standby = names_standby out.messages || (out.exit_status == 2 && is_empty model);
      percent_used = 0;
    }

-- One round of the loop over the attributes.
unfoldable pub set_attribute : Disk → SmartAttribute → Disk
set_attribute d a =
    if a.id == 5
    then record d { reallocated = a.raw_value }
    else if a.id == 197
    then record d { pending = a.raw_value }
    else if a.id == 198
    then record d { uncorrectable = a.raw_value }
    else if a.id == 199
    then record d { crc_errors = a.raw_value }
    else if a.id == 194 || a.id == 190
    then record d { temperature = or_value d.temperature (a.raw_value % 2 ^ 8) }
    else if a.id == 9
    then record d { power_on_hours = or_value d.power_on_hours (a.raw_value % 2 ^ 32) }
    else d

unfoldable pub set_attributes : List SmartAttribute → Disk → Disk
unfolding set_attribute
set_attributes [] d = d
set_attributes (a ∷ rest) d = set_attributes rest (set_attribute d a)

unfoldable pub with_nvme : Option NvmeHealth → Disk → Disk
with_nvme none d = d
with_nvme (some n) d = record d {
  temperature = or_value d.temperature n.temperature;
  power_on_hours = or_value d.power_on_hours n.power_on_hours;
  power_cycles = or_value d.power_cycles n.power_cycles;
  uncorrectable = n.media_errors;
  percent_used = n.percentage_used;
  smart_known = not (n.critical_warning == 0) || d.smart_known;
  smart_passed = n.critical_warning == 0 && d.smart_passed;
}

unfoldable pub error_of_disk : Disk → Option SmartError
error_of_disk d =
    if is_empty d.device
    then some no_device_name
    else if d.standby && is_empty d.model
    then some err_standby
    else none

unfoldable pub parse_smartctl : SmartctlOutput → Disk × Option SmartError
unfolding first_disk set_attributes with_nvme error_of_disk
parse_smartctl out =
    let d = with_nvme out.nvme (set_attributes out.attributes (first_disk out)) in
    (d, error_of_disk d)

-- A report with a critical warning of an NVMe device gives a disk that is not healthy, whatever its
-- other fields are.
pub parse_smartctl-unhealthy :
    (out : SmartctlOutput) (n : NvmeHealth)
    → out.nvme ≡ some n
    → (n.critical_warning == 0) ≡ false
    → disk_healthy (parse_smartctl out).0 ≡ false
unfolding disk_healthy parse_smartctl with_nvme
parse_smartctl-unhealthy out n e warned = rw (e, warned) refl
