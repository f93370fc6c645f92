-- ===== src/Collector/Stacks/Counts.antt =====
-- internal/collector/state.go: the numbers of a stack's summary are those of its containers.
use homelab_dashboard.Prelude.{
  ℕ, ◌+◌, ◌≤◌, ◌≡◌, ◌↔◌, refl, sym, ◌∙◌, ap, Bool, ◌&&◌, Option, none, some, List, [], ◌∷◌, Text,
  codes, text_eq, text_eq_iff, if◌then◌else◌, count_if, arith, Bool-cases, Option-cases, inl, inr,
}
use homelab_dashboard.Prelude.Assoc.{Map, lookup, lookup-insert}
use homelab_dashboard.Prelude.Float.{Float}
use homelab_dashboard.Collector.Counters.{Live}
use homelab_dashboard.Collector.State.{Container, running}
use homelab_dashboard.Collector.Stacks.{
  StackMeta, StackSummary, is_unhealthy, health_of, new_summary, summary_or_new, with_meta,
  add_live, add_container, count_in, by_name,
}

-- The containers of a stack, those of them that run, and those that are unhealthy.
abbrev pub in_stack : {F : Type 0} → Text → Container F → Bool
in_stack k c = text_eq c.stack k

abbrev pub Numbers : Type 0
Numbers = ℕ × ℕ × ℕ

abbrev pub numbers_in : {F : Type 0} → Option (StackSummary F) → Numbers
numbers_in none = (0, 0, 0)
numbers_in (some s) = (s.total, s.running, s.unhealthy)

abbrev pub numbers_of : {F : Type 0} → Text → List (Container F) → Numbers
numbers_of k cs = (
  count_if (in_stack k) cs,
  count_if (λ c. in_stack k c && running c) cs,
  count_if (λ c. in_stack k c && is_unhealthy c) cs,
)

triple : {a b c a' b' c' : ℕ} → a ≡ a' → b ≡ b' → c ≡ c' → Path Numbers (a, b, c) (a', b', c')
triple p q r = cc

module _ {F : Type 0} (fl : Float F) (meta : Map StackMeta) where
  new_summary-numbers : (c : Container F) → numbers_in (some (new_summary fl meta c)) ≡ (0, 0, 0)
  unfolding new_summary with_meta
  new_summary-numbers c = elim (Option-cases (lookup c.stack meta)) [
    | inl new ↦ rw new refl
    | inr (m, old) ↦ rw old refl
  ]

  summary_or_new-numbers :
      (c : Container F) (o : Option (StackSummary F))
      → numbers_in (some (summary_or_new fl meta c o)) ≡ numbers_in o
  unfolding summary_or_new
  summary_or_new-numbers c none = new_summary-numbers c
  summary_or_new-numbers c (some s) = refl

  add_live-numbers :
      (o : Option (Live F)) (s : StackSummary F)
      → ((add_live fl meta o s).total ≡ s.total)
        × ((add_live fl meta o s).running ≡ s.running)
        × ((add_live fl meta o s).unhealthy ≡ s.unhealthy)
  unfolding add_live
  add_live-numbers none s = (refl, refl, refl)
  add_live-numbers (some l) s = (refl, refl, refl)

  add_container-numbers :
      (c : Container F) (s : StackSummary F)
      → let s' = add_container fl meta c s in
        (s'.total ≡ s.total + 1)
        × (s'.running ≡ (if running c then s.running + 1 else s.running))
        × (s'.unhealthy ≡ (if is_unhealthy c then s.unhealthy + 1 else s.unhealthy))
  unfolding add_container
  add_container-numbers c s = elim (Bool-cases (running c)) [
    | inl up ↦ rw up (add_live-numbers c.live _)
    | inr down ↦ rw down (refl, refl, refl)
  ]

  -- One container counts in the summary of its stack and in no other.
  count_in-numbers :
      (k : Text) (c : Container F) (m : Map (StackSummary F))
      → let n = numbers_in (lookup k m) in
        let n' = numbers_in (lookup k (count_in fl meta c m)) in
        (n'.0 ≡ (if in_stack k c then n.0 + 1 else n.0))
        × (n'.1 ≡ (if in_stack k c && running c then n.1 + 1 else n.1))
        × (n'.2 ≡ (if in_stack k c && is_unhealthy c then n.2 + 1 else n.2))
  unfolding count_in
  count_in-numbers k c m =
      let s = summary_or_new fl meta c (lookup c.stack m) in
      let same = summary_or_new-numbers c (lookup c.stack m) in
      let (total, up, bad) = add_container-numbers c s in
      elim (Bool-cases (text_eq c.stack k)) [
        | inl here ↦
            rw (lookup-insert c.stack k (add_container fl meta c s) m, here)
              (rw (← (text_eq_iff c.stack k).0 here) (
                ground (
                  arith,
                  total,
                  up,
                  bad,
                  ap (λ (n : Numbers). n.0) same,
                  ap (λ (n : Numbers). n.1) same,
                  ap (λ (n : Numbers). n.2) same,
                )))
        | inr away ↦
            rw (lookup-insert c.stack k (add_container fl meta c s) m, away) (refl, refl, refl)
      ]

  by_name-from :
      (k : Text) (cs : List (Container F)) (m : Map (StackSummary F))
      → let n = numbers_in (lookup k m) in
        let n' = numbers_in (lookup k (by_name fl meta cs m)) in
        (n'.0 ≡ n.0 + (numbers_of k cs).0)
        × (n'.1 ≡ n.1 + (numbers_of k cs).1)
        × (n'.2 ≡ n.2 + (numbers_of k cs).2)
  unfolding by_name count_if
  by_name-from k [] m = (omega arith, omega arith, omega arith)
  by_name-from k (c ∷ cs) m =
      let (total, up, bad) = count_in-numbers k c m in
      let (total', up', bad') = by_name-from k cs (count_in fl meta c m) in
      (ground (arith, total, total'), ground (arith, up, up'), ground (arith, bad, bad'))

  count_both :
      (p q : Container F → Bool) (cs : List (Container F))
      → count_if (λ c. p c && q c) cs ≤ count_if p cs
  unfolding count_if
  count_both p q [] = omega arith
  count_both p q (c ∷ cs) = ground (arith, count_both p q cs)

  healthy_iff :
      (s : StackSummary F)
      → s.running ≤ s.total
      → (health_of s ≡ codes "healthy") ↔ ((s.unhealthy ≡ 0) × (s.running ≡ s.total))
  unfolding health_of
  healthy_iff s le = (λ h. ground arith, λ h. ground arith)

  from_nothing :
      (k : Text) (cs : List (Container F))
      → numbers_in (lookup k (by_name fl meta cs [])) ≡ numbers_of k cs
  unfolding lookup
  from_nothing k cs =
      let (total, up, bad) = by_name-from k cs [] in
      triple (total ∙ omega arith) (up ∙ omega arith) (bad ∙ omega arith)

  -- The summary of each stack counts its containers, those of them that run, and those of them that are
  -- unhealthy, and a stack without containers has none; and a stack is called healthy exactly if none
  -- of its containers is unhealthy and all of them run.
  pub by_name-numbers :
      (k : Text) (cs : List (Container F))
      → let o = lookup k (by_name fl meta cs []) in
        (numbers_in o ≡ numbers_of k cs)
        × ((s : StackSummary F)
            → o ≡ some s
            → (health_of s ≡ codes "healthy")
              ↔ (((numbers_of k cs).2 ≡ 0) × ((numbers_of k cs).1 ≡ (numbers_of k cs).0)))
  by_name-numbers k cs = (
    from_nothing k cs,
    λ s e.
        let same = sym (ap numbers_in e) ∙ from_nothing k cs in
        let total = ap (λ (n : Numbers). n.0) same in
        let up = ap (λ (n : Numbers). n.1) same in
        let bad = ap (λ (n : Numbers). n.2) same in
        let (there, back) = healthy_iff s (rw (total, up) (count_both (in_stack k) running cs)) in
        (
          λ h. (sym bad ∙ (there h).0, sym up ∙ (there h).1 ∙ total),
          λ h. back (bad ∙ h.0, up ∙ h.1 ∙ sym total),
        ),
  )
