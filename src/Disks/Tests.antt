-- ===== src/Disks/Tests.antt =====
-- Arrays and disks at concrete reports.
use homelab_dashboard.Prelude.{
  ℕ, ◌≡◌, refl, true, false, [], ◌∷◌, codes, text_eq, any_of, none, some,
}
use homelab_dashboard.Disks.Health.{Array, finalize_state}
use homelab_dashboard.Disks.Smart.{
  SmartctlOutput, err_standby, parse_smartctl, first_disk, set_attributes, set_attribute, with_nvme,
  error_of_disk, names_standby, first_non_empty,
}

abbrev raid : Array ℕ
raid = record {
  name = codes "md0";
  level = codes "raid5";
  state = [];
  active = true;
  members = record { device = codes "sda1"; faulty = false; spare = false } ∷ [];
  slots_total = 3;
  slots_active = 3;
  degraded = false;
  sync_action = [];
  sync_percent = 0;
}

raid_clean : (finalize_state raid).state ≡ codes "clean"
unfolding finalize_state text_eq
raid_clean = refl

-- A drive that sleeps: smartctl names no model.
abbrev asleep : SmartctlOutput
asleep = record {
  device_name = codes "/dev/sda";
  device_type = codes "sat";
  device_protocol = [];
  exit_status = 2;
  messages = [];
  model_family = [];
  model_name = [];
  serial_number = [];
  firmware_version = [];
  user_capacity = 0;
  rotation_rate = 0;
  smart_status = none;
  current_temperature = 0;
  power_on_time = 0;
  power_cycle_count = 0;
  attributes = record { id = 194; raw_value = 292 } ∷ record { id = 190; raw_value = 40 } ∷ [];
  nvme = none;
}

sleep_reported : (parse_smartctl asleep).1 ≡ some err_standby
unfolding parse_smartctl first_disk set_attributes set_attribute with_nvme error_of_disk
    names_standby first_non_empty any_of
sleep_reported = refl

low_byte_taken : (parse_smartctl asleep).0.temperature ≡ 36
unfolding parse_smartctl first_disk set_attributes set_attribute with_nvme
low_byte_taken = refl
