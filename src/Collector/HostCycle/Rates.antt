-- ===== src/Collector/HostCycle/Rates.antt =====
-- internal/collector/hostcycle.go: two cycles of collectHost, one after the other.
use homelab_dashboard.Prelude.{ℕ, ◌-◌, ◌<◌, ◌≡◌, refl, true, false, none, some, leb, arith}
use homelab_dashboard.Prelude.Float.{Float}
use homelab_dashboard.Collector.Counters.{seconds, delta}
use homelab_dashboard.Host.{CpuTimes, ok, host_cpu_percent}
use homelab_dashboard.Host.Readers.{NetCounters}
use homelab_dashboard.Store.Samples.{HostSample}
use homelab_dashboard.Collector.HostCycle.{
  Reads, HostWatch, HostSnapshot, collect_host, host_snapshot, host_state, host_sample, net_rate,
  cpu_share, mount_samples, or_else, zero_float,
}

later : (a b : ℕ) → a < b → leb b a ≡ false
later a b h = ground arith

-- The snapshot of a cycle whose two reads work.
abbrev ready : ℕ → CpuTimes → NetCounters → HostSnapshot
ready now c n = record { ts = now; cpu = c; net = n; ok = true }

host_snapshot-ready :
    {F : Type 0} (now : ℕ) (r : Reads F) (c : CpuTimes) (n : NetCounters)
    → r.cpu ≡ ok c
    → r.net ≡ (n, none)
    → host_snapshot now r ≡ ready now c n
unfolding host_snapshot
host_snapshot-ready now r c n he hn = rw (he, hn) refl

module _ {F : Type 0} (fl : Float F) where
  sample_after :
      (now now' : ℕ) (r' : Reads F) (c : HostWatch F) (t t' : CpuTimes) (n n' : NetCounters)
      → c.host_prev ≡ ready now t n
      → r'.cpu ≡ ok t'
      → r'.net ≡ (n', none)
      → now < now'
      → (s : HostSample F) × ((collect_host fl now' r' c).1 ≡ some s)
        × (s.values.ts ≡ now')
        × (s.values.cpu_pct ≡ or_else (zero_float fl) (host_cpu_percent fl t t'))
        × (s.values.net_rx ≡ delta fl (seconds fl (now' - now)) n.rx_bytes n'.rx_bytes)
        × (s.values.net_tx ≡ delta fl (seconds fl (now' - now)) n.tx_bytes n'.tx_bytes)
        × (s.mounts ≡ mount_samples r'.mounts.0)
  unfolding collect_host host_state host_sample net_rate cpu_share
  sample_after now now' r' c t t' n n' e hc hn lt = (
    host_sample fl now' (host_state fl now' r' c),
    rw e refl,
    refl,
    rw (e, hc) refl,
    rw (e, hn, later now now' lt) refl,
    rw (e, hn, later now now' lt) refl,
    refl,
  )

  -- If the processor and the network read in two cycles, the second later than the first, then the
  -- second stores a sample, whatever the state before the first and whatever the other readers give. The
  -- sample has the processor's share between the two cycles, 0 where it is not ok, the rates of the
  -- network between them, and the mounts of the second.
  pub two_cycles-sample :
      (now now' : ℕ) (r r' : Reads F) (c : HostWatch F) (t t' : CpuTimes) (n n' : NetCounters)
      → r.cpu ≡ ok t
      → r.net ≡ (n, none)
      → r'.cpu ≡ ok t'
      → r'.net ≡ (n', none)
      → now < now'
      → (s : HostSample F) × ((collect_host fl now' r' (collect_host fl now r c).0).1 ≡ some s)
        × (s.values.ts ≡ now')
        × (s.values.cpu_pct ≡ or_else (zero_float fl) (host_cpu_percent fl t t'))
        × (s.values.net_rx ≡ delta fl (seconds fl (now' - now)) n.rx_bytes n'.rx_bytes)
        × (s.values.net_tx ≡ delta fl (seconds fl (now' - now)) n.tx_bytes n'.tx_bytes)
        × (s.mounts ≡ mount_samples r'.mounts.0)
  unfolding collect_host
  two_cycles-sample now now' r r' c t t' n n' hc hn hc' hn' lt =
      sample_after now now' r' (collect_host fl now r c).0 t t' n n'
        (host_snapshot-ready now r t n hc hn) hc' hn' lt
