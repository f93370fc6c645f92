-- ===== src/Host/Percent.antt =====
-- internal/host/host.go: the share of busy time that CPUPercent gives.
use homelab_dashboard.Prelude.{◌↔◌, ℕ, ◌+◌, ◌-◌, ◌^◌, ◌≤◌, ◌<◌, ◌≡◌, some, arith}
use homelab_dashboard.Prelude.Float.{Float}
use homelab_dashboard.Host.{CpuTimes, sum_of, total, busy, host_cpu_percent}

abbrev pub idle_of : CpuTimes → ℕ
idle_of c = c.idle + c.iowait

-- The time of a read that was not idle, without wrap-around.
abbrev pub busy_of : CpuTimes → ℕ
busy_of c = sum_of c - idle_of c

total-exact : (c : CpuTimes) → sum_of c < 2 ^ 64 → total c ≡ sum_of c
unfolding total
total-exact c h = omega arith

busy-exact : (c : CpuTimes) → sum_of c < 2 ^ 64 → busy c ≡ busy_of c
unfolding busy total
busy-exact c h = omega arith

module _ {F : Type 0} (fl : Float F) where
  abbrev pub share_percent : ℕ → ℕ → F
  share_percent part whole = fl.mul (fl.div (fl.of_nat part) (fl.of_nat whole)) (fl.of_nat 100)

  -- On times whose sums are uint64, and of which the idle part did not go back, CPUPercent is ok exactly
  -- if the earlier times are not all 0, the total advanced and the busy time did not go back; and then
  -- it gives the percentage of the exact differences, whose part is at most the whole: no addition or
  -- subtraction wraps, and no divisor is 0.
  pub host_cpu_percent_bounds :
      (prev cur : CpuTimes) (p : F)
      → sum_of prev < 2 ^ 64
      → sum_of cur < 2 ^ 64
      → idle_of prev ≤ idle_of cur
      → (host_cpu_percent fl prev cur ≡ some p) ↔ (
          (0 < sum_of prev)
          × (sum_of prev < sum_of cur)
          × (busy_of prev ≤ busy_of cur)
          × (busy_of cur - busy_of prev ≤ sum_of cur - sum_of prev)
          × (share_percent (busy_of cur - busy_of prev) (sum_of cur - sum_of prev) ≡ p))
  unfolding host_cpu_percent
  host_cpu_percent_bounds prev cur p hp hc idle = rw (total-exact prev hp) (
      rw (total-exact cur hc) (
        rw (busy-exact prev hp) (
          rw (busy-exact cur hc)
            (λ given. ground arith, λ (some_before, more, busier, part, same). ground arith))))
