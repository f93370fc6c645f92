-- ===== src/Host/Tests.antt =====
-- Files of /proc, and the theorems at them.
use homelab_dashboard.Prelude.{
  ℕ, ◌-◌, ◌≤◌, ◌<◌, ◌↔◌, ◌≡◌, refl, Option, none, some, [], ◌∷◌, Text, codes, text_eq, any_of,
  if◌then◌else◌, arith,
}
use homelab_dashboard.Prelude.Float.{whole}
use homelab_dashboard.Prelude.Strings.{has_prefix, cut, is_space, trim_space, trim_left, trim_both}
use homelab_dashboard.Prelude.Decimal.{is_digit}
use homelab_dashboard.Host.{
  CpuTimes, sum_of, cpu, cpu_from, cpu_times, is_cpu_line, fields, words_of, parse_uint,
  parse_digits, host_cpu_percent, memory, memory_from, set_line, set_fields, set_amount, with_total,
  scanned, ok,
}
use homelab_dashboard.Host.Readers.{
  network, add_interfaces, add_interface, is_virtual_interface, add_counters, cpu_temperature,
  temperature_from, reading,
}
use homelab_dashboard.Host.Percent.{host_cpu_percent_bounds, share_percent, busy_of}

abbrev before : CpuTimes
before = record {
  user = 100;
  nice = 0;
  system = 50;
  idle = 800;
  iowait = 50;
  irq = 0;
  softirq = 0;
  steal = 0;
}

abbrev after : CpuTimes
after = record {
  user = 150;
  nice = 0;
  system = 75;
  idle = 1000;
  iowait = 50;
  irq = 0;
  softirq = 0;
  steal = 25;
}

cpu_line_read :
    cpu (
      scanned
        (codes "intr 5"
          ∷ codes "cpu  150 0 75 1000 50 0 0 25 0 0"
          ∷ codes "cpu0 1 2 3 4 5 6 7 8"
          ∷ [])
        none)
    ≡ ok after
unfolding cpu cpu_from cpu_times is_cpu_line fields words_of parse_uint parse_digits is_digit
    is_space text_eq
cpu_line_read = refl

interfaces_summed :
    (network (
      scanned
        (codes "  lo: 9 0 0 0 0 0 0 0 9"
          ∷ codes "eth0: 5 0 0 0 0 0 0 0 7"
          ∷ codes " br-1: 3 0 0 0 0 0 0 0 3"
          ∷ codes "wlan0: 18446744073709551615 0 0 0 0 0 0 0 99999999999999999999x"
          ∷ [])
        none)).0
    ≡ record { rx_bytes = 4; tx_bytes = 6 }
unfolding network add_interfaces add_interface is_virtual_interface add_counters fields words_of
    parse_uint parse_digits is_digit is_space cut has_prefix trim_space trim_left trim_both any_of
interfaces_summed = refl

memory_read :
    memory (
      scanned
        (codes "MemTotal:  16 kB"
          ∷ codes "MemFree: 1 kB"
          ∷ codes "MemAvailable: x kB"
          ∷ codes "SwapFree: 2"
          ∷ [])
        none)
    ≡ ok (record { total = 16384; available = 0; swap_total = 0; swap_free = 2048 })
unfolding memory memory_from set_line set_fields set_amount with_total fields words_of parse_uint
    parse_digits is_digit is_space cut text_eq
memory_read = refl

abbrev thousands : Text → Option ℕ
thousands t =
    if text_eq t (codes "41000")
    then some 41_000
    else if text_eq t (codes "52500")
    then some 52_500
    else none

-- The processor's own sensor is taken, though another comes first.
cpu_sensor_taken :
    cpu_temperature whole thousands (
      some (
        record { name = some (codes "nvme"); temp1_input = some (codes "41000") }
        ∷ record { name = none; temp1_input = some (codes "41000") }
        ∷ record { name = some (codes "k10temp "); temp1_input = some (codes "52500") }
        ∷ []))
    ≡ some 52
unfolding cpu_temperature temperature_from reading text_eq trim_space trim_left trim_both is_space
    any_of
cpu_sensor_taken = refl

host_cpu_percent_bounds_example : (host_cpu_percent whole before after ≡ some 0) ↔ (
    (0 < sum_of before)
    × (sum_of before < sum_of after)
    × (busy_of before ≤ busy_of after)
    × (busy_of after - busy_of before ≤ sum_of after - sum_of before)
    × (share_percent whole (busy_of after - busy_of before) (sum_of after - sum_of before) ≡ 0))
host_cpu_percent_bounds_example =
    host_cpu_percent_bounds whole before after 0 (omega arith) (omega arith) (omega arith)
