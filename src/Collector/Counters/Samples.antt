-- ===== src/Collector/Counters/Samples.antt =====
-- internal/collector/stats.go: the sample of two reads, written out from their fields.
use homelab_dashboard.Prelude.{
  ℕ, ◌+◌, ◌-◌, ◌/◌, ◌%◌, ◌^◌, ◌<◌, ◌≤◌, ◌≡◌, refl, ap, ◌∙◌, leb, ltb, length, if◌then◌else◌, some,
  none, arith, Text,
}
use homelab_dashboard.Prelude.Float.{Float}
use homelab_dashboard.Docker.Stats.{
  Stats, snapshot_cpu, cpu_percent, extract_usage, usage_of, pct_or, cpus_of, is_read, is_write,
  memory_used,
}
use homelab_dashboard.Docker.Stats.Cpu.{share, cpu_percent-exact}
use homelab_dashboard.Docker.Stats.Totals.{column_sum, op_sum, network_totals_lem, block_totals_lem}
use homelab_dashboard.Store.Samples.{Sample}
use homelab_dashboard.Collector.Counters.{
  CounterSnapshot, counters_of, rate_set, delta, seconds, sample_of,
}

module _ {F : Type 0} (fl : Float F) where
  -- The counters of a read, whatever its CPU share is.
  abbrev pub read_counters : ℕ → Stats → CounterSnapshot
  read_counters now s = counters_of fl now (extract_usage fl none s).0

  -- The bytes per second from one value of a counter to another in a time, 0 if it went back.
  abbrev pub per_second : ℕ → ℕ → ℕ → ℕ
  per_second time before after =
      let nanos = fl.of_nat 1_000_000_000 in
      let parts = fl.div (fl.of_nat (time % 1_000_000_000)) nanos in
      let secs = fl.add (fl.of_nat (time / 1_000_000_000)) parts in
      if leb before after then fl.to_nat (fl.div (fl.of_nat (after - before)) secs) else 0

  -- The sample of a second read after a first one, with the CPU share of the two: the memory of the
  -- second, and the rates of each total between them.
  abbrev pub second_sample : Text → ℕ → ℕ → F → Stats → Stats → Sample F
  second_sample id t₁ t₂ pct s₁ s₂ =
      let rx : Stats → ℕ = λ s. column_sum (λ n. n.rx_bytes) s.networks % 2 ^ 64 in
      let tx : Stats → ℕ = λ s. column_sum (λ n. n.tx_bytes) s.networks % 2 ^ 64 in
      let read : Stats → ℕ = λ s. op_sum is_read s.blkio_entries % 2 ^ 64 in
      let write : Stats → ℕ = λ s. op_sum is_write s.blkio_entries % 2 ^ 64 in
      record {
        container_id = id;
        ts = t₂;
        cpu_pct = pct;
        mem_bytes = memory_used s₂.memory_stats;
        mem_limit = s₂.memory_stats.limit;
        net_rx = per_second (t₂ - t₁) (rx s₁) (rx s₂);
        net_tx = per_second (t₂ - t₁) (tx s₁) (tx s₂);
        blk_read = per_second (t₂ - t₁) (read s₁) (read s₂);
        blk_write = per_second (t₂ - t₁) (write s₁) (write s₂);
      }

  delta-per_second : (t a b : ℕ) → delta fl (seconds fl t) a b ≡ per_second t a b
  unfolding delta seconds
  delta-per_second t a b = ground arith

  -- The sample that the code builds of two reads is the one described.
  pub built-second_sample :
      (id : Text) (t₁ t₂ : ℕ) (pct : F) (s₁ s₂ : Stats)
      → cpu_percent fl (snapshot_cpu s₁) (snapshot_cpu s₂) ≡ some pct
      → sample_of fl id t₂
          (extract_usage fl (some (snapshot_cpu s₁)) s₂).0
          (rate_set fl (seconds fl (t₂ - t₁)) (read_counters t₁ s₁) (read_counters t₂ s₂))
        ≡ second_sample id t₁ t₂ pct s₁ s₂
  unfolding sample_of extract_usage usage_of pct_or rate_set counters_of
  built-second_sample id t₁ t₂ pct s₁ s₂ e =
      rw
        (
          e,
          network_totals_lem s₁,
          network_totals_lem s₂,
          block_totals_lem s₁,
          block_totals_lem s₂,
          delta-per_second (t₂ - t₁) (column_sum (λ n. n.rx_bytes) s₁.networks % 2 ^ 64),
          delta-per_second (t₂ - t₁) (column_sum (λ n. n.tx_bytes) s₁.networks % 2 ^ 64),
          delta-per_second (t₂ - t₁) (op_sum is_read s₁.blkio_entries % 2 ^ 64),
          delta-per_second (t₂ - t₁) (op_sum is_write s₁.blkio_entries % 2 ^ 64),
        )
        refl

  -- The processors of a read: those online, else those listed, and at least one.
  abbrev pub processors : Stats → ℕ
  processors s =
      let online = s.cpu_stats.online_cpus in
      let listed = length s.cpu_stats.cpu_usage.percpu_usage % 2 ^ 32 in
      if ltb 0 online then online else if ltb 0 listed then listed else 1

  -- The share of the processors' time between two reads, in percent.
  abbrev pub share_between : Stats → Stats → F
  share_between s₁ s₂ =
      let used : Stats → ℕ = λ s. s.cpu_stats.cpu_usage.total_usage in
      let all : Stats → ℕ = λ s. s.cpu_stats.system_cpu_usage in
      share fl (used s₂ - used s₁) (all s₂ - all s₁) (processors s₂)

  cpus_of-processors : (s : Stats) → cpus_of s.cpu_stats ≡ processors s
  unfolding cpus_of
  cpus_of-processors s = ground arith

  pub cpu_percent-share_between :
      (s₁ s₂ : Stats)
      → let used : Stats → ℕ = λ s. s.cpu_stats.cpu_usage.total_usage in
        let all : Stats → ℕ = λ s. s.cpu_stats.system_cpu_usage in
        used s₂ < 2 ^ 64
        → all s₂ < 2 ^ 64
        → 0 < used s₁ + all s₁
        → used s₁ ≤ used s₂
        → all s₁ < all s₂
        → cpu_percent fl (snapshot_cpu s₁) (snapshot_cpu s₂) ≡ some (share_between s₁ s₂)
  unfolding snapshot_cpu
  cpu_percent-share_between s₁ s₂ hu ha some_before more advanced =
      let used : Stats → ℕ = λ s. s.cpu_stats.cpu_usage.total_usage in
      let all : Stats → ℕ = λ s. s.cpu_stats.system_cpu_usage in
      (cpu_percent-exact fl (snapshot_cpu s₁) (snapshot_cpu s₂) hu ha).1 some_before more advanced
      ∙ ap (λ n. some (share fl (used s₂ - used s₁) (all s₂ - all s₁) n)) (cpus_of-processors s₂)
