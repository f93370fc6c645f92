-- ===== src/Docker/Stats/Cpu.antt =====
-- internal/docker/stats.go: what CPUPercent and MemoryUsed give.
use homelab_dashboard.Prelude.{ℕ, ◌+◌, ◌-◌, ◌^◌, ◌≤◌, ◌<◌, ◌≡◌, ◌⊎◌, false, none, some, arith}
use homelab_dashboard.Prelude.Float.{Float}
use homelab_dashboard.Docker.Stats.{CpuSnapshot, sub64, cpu_percent}

pub sub64-exact : (a b : ℕ) → a < 2 ^ 64 → b ≤ a → sub64 a b ≡ a - b
sub64-exact a b h le = omega arith

module _ {F : Type 0} (fl : Float F) where
  open fl use {of_nat, mul, div}

  -- The share of the processors' time between two reads, times the processors, in percent.
  abbrev pub share : ℕ → ℕ → ℕ → F
  share cpu sys cpus = mul (mul (div (of_nat cpu) (of_nat sys)) (of_nat cpus)) (of_nat 100)

  share-sign : (cpu sys cpus : ℕ) → 0 < sys → fl.less (share cpu sys cpus) (of_nat 0) ≡ false
  share-sign cpu sys cpus h =
      fl.mul-sign _ _
        (fl.mul-sign _ _ (fl.div-sign _ _ (fl.of_nat-sign cpu) (fl.of_nat-positive sys h))
          (fl.of_nat-sign cpus))
        (fl.of_nat-sign 100)

  -- What CPUPercent gives, on counters that are uint64. It is not ok if the earlier snapshot is empty,
  -- if the total went back, or if the system time did not advance; else it is ok with the share of the
  -- exact differences: no subtraction wraps, no divisor is 0, and the clamp at 0 changes nothing.
  pub cpu_percent-exact :
      (prev cur : CpuSnapshot)
      → cur.total < 2 ^ 64
      → cur.system < 2 ^ 64
      → ((prev.total ≡ 0) × (prev.system ≡ 0) ⊎ cur.total < prev.total ⊎ cur.system ≤ prev.system
          → cpu_percent fl prev cur ≡ none)
        × (0 < prev.total + prev.system
            → prev.total ≤ cur.total
            → prev.system < cur.system
            → cpu_percent fl prev cur
              ≡ some (share (cur.total - prev.total) (cur.system - prev.system) cur.cpus))
  unfolding cpu_percent
  cpu_percent-exact prev cur ht hs = (
    λ why. ground arith,
    λ some_before total system.
        rw
          (
            sub64-exact cur.total prev.total ht total,
            sub64-exact cur.system prev.system hs (omega arith),
            fl.of_nat-positive (cur.system - prev.system) (omega arith),
            share-sign (cur.total - prev.total) (cur.system - prev.system) cur.cpus (omega arith),
          )
          (ground arith),
  )
