-- ===== src/Collector/Counters/Absorb.antt =====
-- internal/collector/stats.go: the counters that the results of a cycle leave, and when a container
-- gets a sample.
use homelab_dashboard.Prelude.{
  ℕ, ◌+◌, ◌-◌, ◌^◌, ◌≤◌, ◌<◌, ◌≡◌, ◌↔◌, ◌⊎◌, refl, sym, ◌∙◌, ap, ap₂, subst, Bool, true, false,
  Option, none, some, List, [], ◌∷◌, ◌++◌, ◌==◌, arith, Bool-cases, inl, inr, Text, text_eq_refl,
  count_if,
}
use homelab_dashboard.Prelude.Assoc.{Map, lookup, insert, lookup-insert, lookup-delete}
use homelab_dashboard.Prelude.Float.{Float}
use homelab_dashboard.Docker.Stats.{
  Stats, CpuSnapshot, Usage, snapshot_cpu, cpu_percent, extract_usage, is_ok,
}
use homelab_dashboard.Docker.Stats.Cpu.{cpu_percent-exact}
use homelab_dashboard.Store.Samples.{Sample}
use homelab_dashboard.Collector.Counters.Samples.{
  read_counters, second_sample, share_between, built-second_sample, cpu_percent-share_between,
}
use homelab_dashboard.Collector.Counters.{
  Counters, CounterSnapshot, RateSet, Reply, failed, not_found, got, Cycle, Gauge, reset_counters,
  counters_of, rate_set, seconds, rates_since, rates, keep_sample, sample_of, absorb, absorb_all,
  collect_stats,
}

-- A container has a snapshot of its processor exactly if it has one of its counters.
abbrev pub Paired : Counters → Type 0
Paired c = (id : Text) → (lookup id c.cpu_prev ≡ none) ↔ (lookup id c.counters ≡ none)

reset_counters-Paired : (id : Text) (c : Counters) → Paired c → Paired (reset_counters id c)
unfolding reset_counters
reset_counters-Paired id c h =
    λ j. ground (arith, h j, lookup-delete id j c.cpu_prev, lookup-delete id j c.counters)

insert-Paired :
    (id : Text) (s : CpuSnapshot) (n : CounterSnapshot) (c : Counters)
    → Paired c
    → Paired (record { cpu_prev = insert id s c.cpu_prev; counters = insert id n c.counters })
insert-Paired id s n c h =
    λ j. ground (arith, h j, lookup-insert id j s c.cpu_prev, lookup-insert id j n c.counters)

abbrev pub is_error : Text × Reply → Bool
is_error (id, failed) = true
is_error (id, not_found) = true
is_error (id, got s) = false

reset-cpu_prev : (id : Text) (c : Counters) → lookup id (reset_counters id c).cpu_prev ≡ none
unfolding reset_counters
reset-cpu_prev id c = ground (arith, lookup-delete id id c.cpu_prev, text_eq_refl id)

reset-counters : (id : Text) (c : Counters) → lookup id (reset_counters id c).counters ≡ none
unfolding reset_counters
reset-counters id c = ground (arith, lookup-delete id id c.counters, text_eq_refl id)

found : {V : Type 0} (id : Text) (v : V) (m : Map V) → lookup id (insert id v m) ≡ some v
found id v m = ground (arith, lookup-insert id id v m, text_eq_refl id)

module _ {F : Type 0} (fl : Float F) where
  keep_sample-last :
      (id : Text) (now : ℕ) (u : Usage F) (ok : Bool) (r : Option RateSet) (c : Cycle F)
      → ((keep_sample fl id now u ok r c).last ≡ c.last)
        × ((keep_sample fl id now u ok r c).failures ≡ c.failures)
  unfolding keep_sample
  keep_sample-last id now u ok none c = (refl, refl)
  keep_sample-last id now u true (some r) c = (refl, refl)
  keep_sample-last id now u false (some r) c = (refl, refl)

  extract_usage-snapshot :
      (now : ℕ) (prev : Option CpuSnapshot) (s : Stats)
      → ((extract_usage fl prev s).1 ≡ snapshot_cpu s)
        × (counters_of fl now (extract_usage fl prev s).0 ≡ read_counters fl now s)
  unfolding extract_usage counters_of
  extract_usage-snapshot now none s = (refl, refl)
  extract_usage-snapshot now (some p) s = (refl, refl)

  abbrev after_read : ℕ → Text → Stats → Counters → Counters
  after_read now id s c = record {
    cpu_prev = insert id (snapshot_cpu s) c.cpu_prev;
    counters = insert id (read_counters fl now s) c.counters;
  }

  absorb-got :
      (now : ℕ) (id : Text) (s : Stats) (c : Cycle F)
      → ((absorb fl now id (got s) c).last ≡ after_read now id s c.last)
        × ((absorb fl now id (got s) c).failures ≡ c.failures)
  unfolding absorb rates
  absorb-got now id s c =
      let (snap, counters) = extract_usage-snapshot now (lookup id c.last.cpu_prev) s in
      let (last, failures) = keep_sample-last id now _ _ _ _ in
      (
        last
            ∙ ap₂
                (λ (p : CpuSnapshot) (n : CounterSnapshot). record {
                  cpu_prev = insert id p c.last.cpu_prev;
                  counters = insert id n c.last.counters;
                })
                snap counters,
        failures,
      )

  absorb-Paired :
      (now : ℕ) (id : Text) (r : Reply) (c : Cycle F)
      → Paired c.last
      → Paired (absorb fl now id r c).last
  unfolding absorb
  absorb-Paired now id failed c h = h
  absorb-Paired now id not_found c h = reset_counters-Paired id c.last h
  absorb-Paired now id (got s) c h =
      subst Paired (sym (absorb-got now id s c).0)
        (insert-Paired id (snapshot_cpu s) (read_counters fl now s) c.last h)

  absorb-failures :
      (now : ℕ) (id : Text) (r : Reply) (c : Cycle F)
      → (absorb fl now id r c).failures ≡ c.failures + count_if is_error ((id, r) ∷ [])
  unfolding absorb count_if
  absorb-failures now id failed c = refl
  absorb-failures now id not_found c = refl
  absorb-failures now id (got s) c = (absorb-got now id s c).1 ∙ omega arith

  absorb_all-lem :
      (now : ℕ) (rs : List (Text × Reply)) (c : Cycle F)
      → Paired c.last
      → Paired (absorb_all fl now rs c).last
        × ((absorb_all fl now rs c).failures ≡ c.failures + count_if is_error rs)
  unfolding absorb_all count_if
  absorb_all-lem now [] c h = (h, omega arith)
  absorb_all-lem now ((id, r) ∷ rs) c h =
      let (paired, failures) =
        absorb_all-lem now rs (absorb fl now id r c) (absorb-Paired now id r c h) in
      (paired, ground (arith, failures, absorb-failures now id r c))

  -- A cycle keeps the two records of a container together, and marks the Docker source as failed
  -- exactly if some container was asked and as many results are errors as containers were asked.
  pub collect_stats-Paired :
      (asked now : ℕ) (rs : List (Text × Reply)) (last : Counters) (gauges : Map (Gauge F))
      → Paired last
      → let o = collect_stats fl asked now rs last gauges in
        Paired o.last × ((o.source_failed ≡ true) ↔ ((0 < asked) × (count_if is_error rs ≡ asked)))
  unfolding collect_stats
  collect_stats-Paired asked now rs last gauges h = elim (Bool-cases (asked == 0)) [
    | inl none_asked ↦ rw none_asked (h, ground arith)
    | inr some_asked ↦
        let (paired, failures) =
          absorb_all-lem now rs (record { last = last; live = []; samples = []; failures = 0 }) h in
        rw some_asked (paired, ground (arith, failures))
  ]

  -- What a second read adds after a first one, on a container that had no counters.
  abbrev pub two_reads : Text → ℕ → ℕ → Stats → Stats → Cycle F → Cycle F
  two_reads id t₁ t₂ s₁ s₂ c =
      absorb fl t₂ id (got s₂)
        (absorb fl t₁ id (got s₁) (record c { last = reset_counters id c.last }))

  first_read :
      (id : Text) (t : ℕ) (s : Stats) (c : Cycle F)
      → lookup id c.last.cpu_prev ≡ none
      → lookup id c.last.counters ≡ none
      → (absorb fl t id (got s) c).samples ≡ c.samples
  unfolding absorb rates rates_since keep_sample
  first_read id t s c new new' = rw (new, new') refl

  keep_sample-drops :
      (id : Text) (now : ℕ) (u : Usage F) (ok : Bool) (r : Option RateSet) (c : Cycle F)
      → ok ≡ false ⊎ r ≡ none
      → (keep_sample fl id now u ok r c).samples ≡ c.samples
  unfolding keep_sample
  keep_sample-drops id now u ok none c h = refl
  keep_sample-drops id now u true (some r) c h = absurd (ground arith)
  keep_sample-drops id now u false (some r) c h = refl

  keep_sample-adds :
      (id : Text) (now : ℕ) (u : Usage F) (ok : Bool) (r : Option RateSet) (x : RateSet)
      (c : Cycle F)
      → ok ≡ true
      → r ≡ some x
      → (keep_sample fl id now u ok r c).samples ≡ c.samples ++ sample_of fl id now u x ∷ []
  unfolding keep_sample
  keep_sample-adds id now u ok r x c fine here = rw (fine, here) refl

  rates_since-late :
      (t₂ : ℕ) (prev cur : CounterSnapshot)
      → prev.ts < t₂
      → rates_since fl t₂ (some prev) cur ≡ some (rate_set fl (seconds fl (t₂ - prev.ts)) prev cur)
  unfolding rates_since
  rates_since-late t₂ prev cur h = ground arith

  rates_since-early :
      (t₂ : ℕ) (prev cur : CounterSnapshot)
      → t₂ ≤ prev.ts
      → rates_since fl t₂ (some prev) cur ≡ none
  unfolding rates_since
  rates_since-early t₂ prev cur h = ground arith

  next_read :
      (id : Text) (t₁ t₂ : ℕ) (s₁ s₂ : Stats) (c : Cycle F)
      → lookup id c.last.cpu_prev ≡ some (snapshot_cpu s₁)
      → lookup id c.last.counters ≡ some (read_counters fl t₁ s₁)
      → (cpu_percent fl (snapshot_cpu s₁) (snapshot_cpu s₂) ≡ none ⊎ t₂ ≤ t₁
          → (absorb fl t₂ id (got s₂) c).samples ≡ c.samples)
        × ((pct : F)
            → cpu_percent fl (snapshot_cpu s₁) (snapshot_cpu s₂) ≡ some pct
            → t₁ < t₂
            → (absorb fl t₂ id (got s₂) c).samples
              ≡ c.samples ++ second_sample fl id t₁ t₂ pct s₁ s₂ ∷ [])
  unfolding absorb rates extract_usage counters_of
  next_read id t₁ t₂ s₁ s₂ c cpu count = (
    λ why.
        rw (cpu, count)
          (keep_sample-drops id t₂ _ _ _ _ (elim why [
            | inl bad ↦ inl (rw (bad, is_ok) refl)
            | inr early ↦ inr (rates_since-early t₂ (read_counters fl t₁ s₁) _ early)
          ])),
    λ pct ok late.
        rw (cpu, count)
          (keep_sample-adds id t₂ _ _ _ _ _ (rw (ok, is_ok) refl)
            (rates_since-late t₂ (read_counters fl t₁ s₁) (read_counters fl t₂ s₂) late))
        ∙ ap (λ (x : Sample F). c.samples ++ x ∷ []) (built-second_sample fl id t₁ t₂ pct s₁ s₂ ok),
  )

  reads_of_two :
      (id : Text) (t₁ t₂ : ℕ) (s₁ s₂ : Stats) (c : Cycle F)
      → (cpu_percent fl (snapshot_cpu s₁) (snapshot_cpu s₂) ≡ none ⊎ t₂ ≤ t₁
          → (two_reads id t₁ t₂ s₁ s₂ c).samples ≡ c.samples)
        × ((pct : F)
            → cpu_percent fl (snapshot_cpu s₁) (snapshot_cpu s₂) ≡ some pct
            → t₁ < t₂
            → (two_reads id t₁ t₂ s₁ s₂ c).samples
              ≡ c.samples ++ second_sample fl id t₁ t₂ pct s₁ s₂ ∷ [])
  reads_of_two id t₁ t₂ s₁ s₂ c =
      let c₀ : Cycle F = record c { last = reset_counters id c.last } in
      let c₁ = absorb fl t₁ id (got s₁) c₀ in
      let last = (absorb-got t₁ id s₁ c₀).0 in
      let first = first_read id t₁ s₁ c₀ (reset-cpu_prev id c.last) (reset-counters id c.last) in
      let (drops, adds) =
        next_read id t₁ t₂ s₁ s₂ c₁
          (ap (λ (n : Counters). lookup id n.cpu_prev) last ∙ found id (snapshot_cpu s₁) _)
          (ap (λ (n : Counters). lookup id n.counters) last
            ∙ found id (read_counters fl t₁ s₁) _) in
      (
        λ why. drops why ∙ first,
        λ pct ok late. adds pct ok late ∙ ap (λ (l : List (Sample F)). l ++ _) first,
      )

  -- A container that has no counters, as after ResetCounters, gets no sample from its first read. On
  -- counters of processor time that are uint64, it gets none from the read after it if the first read
  -- had no such time, the processor time of the container went back, that of the system did not
  -- advance, or the clock did not; else it gets one, with the share of the processors between the two
  -- reads, the memory of the second, and the bytes per second of each total between them, 0 for a total
  -- that went back.
  pub two_reads-sample :
      (id : Text) (t₁ t₂ : ℕ) (s₁ s₂ : Stats) (c : Cycle F)
      → let used : Stats → ℕ = λ s. s.cpu_stats.cpu_usage.total_usage in
        let all : Stats → ℕ = λ s. s.cpu_stats.system_cpu_usage in
        used s₂ < 2 ^ 64
        → all s₂ < 2 ^ 64
        → ((used s₁ ≡ 0) × (all s₁ ≡ 0) ⊎ used s₂ < used s₁ ⊎ all s₂ ≤ all s₁ ⊎ t₂ ≤ t₁
            → (two_reads id t₁ t₂ s₁ s₂ c).samples ≡ c.samples)
          × (0 < used s₁ + all s₁
              → used s₁ ≤ used s₂
              → all s₁ < all s₂
              → t₁ < t₂
              → (two_reads id t₁ t₂ s₁ s₂ c).samples
                ≡ c.samples ++ second_sample fl id t₁ t₂ (share_between fl s₁ s₂) s₁ s₂ ∷ [])
  unfolding snapshot_cpu
  two_reads-sample id t₁ t₂ s₁ s₂ c hu ha =
      let (drops, adds) = reads_of_two id t₁ t₂ s₁ s₂ c in
      let bad = (cpu_percent-exact fl (snapshot_cpu s₁) (snapshot_cpu s₂) hu ha).0 in
      (
        λ why. drops (elim why [
          | inl empty ↦ inl (bad (inl empty))
          | inr (inl back) ↦ inl (bad (inr (inl back)))
          | inr (inr (inl still)) ↦ inl (bad (inr (inr still)))
          | inr (inr (inr early)) ↦ inr early
        ]),
        λ some_before more advanced late.
            adds (share_between fl s₁ s₂)
              (cpu_percent-share_between fl s₁ s₂ hu ha some_before more advanced) late,
      )
