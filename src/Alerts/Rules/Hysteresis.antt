-- ===== src/Alerts/Rules/Hysteresis.antt =====
-- internal/alerts/rules.go: an alert that fires never takes a condition away.
use homelab_dashboard.Prelude.{
  ℕ, ◌+◌, ◌≡◌, inl, inr, refl, Bool, true, false, ◌&&◌, Option, none, some, List, [], ◌∷◌, ◌++◌,
  map, Text, codes, leb, if◌then◌else◌, All, All-append, All-imp, In, arith, Bool-cases,
}
use homelab_dashboard.Prelude.Assoc.{lookup}
use homelab_dashboard.Prelude.Float.{Float}
use homelab_dashboard.Disks.Health.{Disk}
use homelab_dashboard.Collector.Counters.{Live}
use homelab_dashboard.Alerts.Engine.{Condition}
use homelab_dashboard.Collector.State.{
  Container, MountUsage, HostState, SourceStatus, Snapshot, running,
}
use homelab_dashboard.Alerts.Rules.{
  Formats, Inputs, lowered, when, down_rule, restart_rule, health_rule, cpu_rule, memory_rule,
  live_rules, container_rules, host_rules, mount_rule, smart_rule, temperature_rule, disk_rules,
  array_rule, source_rule, size_rule, for_each, conditions,
}

-- The rule and the target of a condition, which make its key.
abbrev pub about : Condition → Text × Text
about c = (c.rule, c.target)

-- Each condition of the first list has one for the same rule and target in the second.
abbrev pub Covered : List Condition → List Condition → Type 0
Covered xs ys = All (λ c. In (about c) (map about ys)) xs

In-left :
    (a : Text × Text) (xs ys : List Condition) → In a (map about xs) → In a (map about (xs ++ ys))
In-left a [] ys h = absurd h
In-left a (x ∷ xs) ys (inl e) = inl e
In-left a (x ∷ xs) ys (inr h) = inr (In-left a xs ys h)

In-right :
    (a : Text × Text) (xs ys : List Condition) → In a (map about ys) → In a (map about (xs ++ ys))
In-right a [] ys h = h
In-right a (x ∷ xs) ys h = inr (In-right a xs ys h)

Covered-append :
    (xs ys xs' ys' : List Condition)
    → Covered xs xs'
    → Covered ys ys'
    → Covered (xs ++ ys) (xs' ++ ys')
Covered-append xs ys xs' ys' h k =
    All-append (λ c. In (about c) (map about (xs' ++ ys'))) xs ys
      (All-imp xs (λ c. In-left (about c) xs' ys') h)
      (All-imp ys (λ c. In-right (about c) xs' ys') k)

Covered-refl : (xs : List Condition) → Covered xs xs
Covered-refl [] = tt
Covered-refl (x ∷ xs) = (inl refl, All-imp xs (λ c h. inr h) (Covered-refl xs))

and_imp : (p q q' : Bool) → (q ≡ true → q' ≡ true) → (p && q) ≡ true → (p && q') ≡ true
and_imp true q q' h e = h e
and_imp false q q' h e = e

module _ {F : Type 0} (fl : Float F) (show : Formats F) where
  Covered-when :
      (b b' : Bool) (c c' : Condition)
      → (b ≡ true → b' ≡ true)
      → about c ≡ about c'
      → Covered (when fl show b c) (when fl show b' c')
  unfolding when
  Covered-when true true c c' h e = (inl e, tt)
  Covered-when true false c c' h e = absurd (ground (arith, h refl))
  Covered-when false b' c c' h e = tt

  Covered-for_each :
      {A : Type 0} (f g : A → List Condition) (xs : List A)
      → ((x : A) → Covered (f x) (g x))
      → Covered (for_each fl show f xs) (for_each fl show g xs)
  unfolding for_each
  Covered-for_each f g [] h = tt
  Covered-for_each f g (x ∷ xs) h =
      Covered-append (f x) (for_each fl show f xs) (g x) (for_each fl show g xs) (h x)
        (Covered-for_each f g xs h)

  lowered_imp :
      (b b' : Bool) (limit x : F)
      → (b ≡ true → b' ≡ true)
      → fl.at_most (lowered fl show b limit) x ≡ true
      → fl.at_most (lowered fl show b' limit) x ≡ true
  unfolding lowered
  lowered_imp true true limit x h e = e
  lowered_imp true false limit x h e = absurd (ground (arith, h refl))
  lowered_imp false true limit x h e = fl.sub-lowers 5 limit x e
  lowered_imp false false limit x h e = e

  raised_imp :
      (b b' : Bool) (limit n : ℕ)
      → (b ≡ true → b' ≡ true)
      → leb limit (n + (if b then 3 else 0)) ≡ true
      → leb limit (n + (if b' then 3 else 0)) ≡ true
  raised_imp true true limit n h e = e
  raised_imp true false limit n h e = absurd (ground (arith, h refl))
  raised_imp false b' limit n h e = ground arith

  module _ (i : Inputs fl show) (fires : Text → Text → Bool)
      (more : (r t : Text) → i.is_firing r t ≡ true → fires r t ≡ true) where
    abbrev fired : Inputs fl show
    fired = record i { is_firing = fires }

    cpu_rule-Covered :
        (h : HostState F) (c : Container F) (l : Live F)
        → Covered (cpu_rule fl show i h c l) (cpu_rule fl show fired h c l)
    unfolding cpu_rule
    cpu_rule-Covered h c l =
        Covered-when _ _ _ _ (lowered_imp _ _ i.t.cpu_percent _ (more (codes "cpu_high") c.id)) refl

    memory_rule-Covered :
        (c : Container F) (l : Live F)
        → Covered (memory_rule fl show i c l) (memory_rule fl show fired c l)
    unfolding memory_rule
    memory_rule-Covered c l =
        Covered-when _ _ _ _
          (and_imp _ _ _ (lowered_imp _ _ i.t.memory_percent _ (more (codes "memory_high") c.id)))
          refl

    live_rules-Covered :
        (h : HostState F) (c : Container F) (o : Option (Live F))
        → Covered (live_rules fl show i h c o) (live_rules fl show fired h c o)
    unfolding live_rules
    live_rules-Covered h c none = tt
    live_rules-Covered h c (some l) = elim (Bool-cases (running c)) [
      | inl up ↦ rw up (Covered-append _ _ _ _ (cpu_rule-Covered h c l) (memory_rule-Covered c l))
      | inr down ↦ rw down tt
    ]

    host_rules-Covered :
        (h : HostState F) → Covered (host_rules fl show i h) (host_rules fl show fired h)
    unfolding host_rules
    host_rules-Covered h =
        Covered-append _ _ _ _
          (Covered-when _ _ _ _
            (and_imp _ _ _ (
              lowered_imp _ _ i.t.memory_percent _
                (more (codes "host_memory_high") (codes "host"))))
            refl)
          (Covered-when _ _ _ _
            (and_imp _ _ _
              (lowered_imp _ _ i.t.cpu_percent _ (more (codes "host_cpu_high") (codes "host"))))
            refl)

    mount_rule-Covered :
        (m : MountUsage) → Covered (mount_rule fl show i m) (mount_rule fl show fired m)
    unfolding mount_rule
    mount_rule-Covered m =
        Covered-when _ _ _ _
          (and_imp _ _ _ (lowered_imp _ _ i.t.disk_percent _ (more (codes "disk_high") m.mount)))
          refl

    temperature_rule-Covered :
        (d : Disk) → Covered (temperature_rule fl show i d) (temperature_rule fl show fired d)
    unfolding temperature_rule
    temperature_rule-Covered d =
        Covered-when _ _ _ _
          (and_imp _ _ _ (
            raised_imp _ _ i.t.disk_temp_celsius d.temperature
              (more (codes "disk_temp_high") d.device)))
          refl

    container_rules-Covered :
        (h : HostState F) (c : Container F)
        → Covered (container_rules fl show i h c) (container_rules fl show fired h c)
    unfolding container_rules down_rule restart_rule health_rule
    container_rules-Covered h c = Covered-append _ _ _ _ (Covered-refl (down_rule fl show i c)) (
        Covered-append _ _ _ _ (Covered-refl (restart_rule fl show i c)) (
          Covered-append _ _ _ _ (Covered-refl (health_rule fl show i c))
            (live_rules-Covered h c c.live)))

    disk_rules-Covered : (d : Disk) → Covered (disk_rules fl show i d) (disk_rules fl show fired d)
    unfolding disk_rules
    disk_rules-Covered d =
        Covered-append _ _ _ _ (Covered-refl (smart_rule fl show d)) (temperature_rule-Covered d)

    same_sources :
        (name : Text) (o : Option SourceStatus)
        → Covered (source_rule fl show i name o) (source_rule fl show fired name o)
    unfolding source_rule
    same_sources name none = tt
    same_sources name (some src) = Covered-when _ _ _ _ (λ e. e) refl

    same_size : (n : ℕ) → Covered (size_rule fl show i n) (size_rule fl show fired n)
    unfolding size_rule
    same_size n = Covered-when _ _ _ _ (λ e. e) refl

    -- Hysteresis never hides a condition. On one snapshot, with the same thresholds, time and counts, an
    -- engine in which at least the same alerts fire finds a condition for every rule and target for which
    -- the other one finds one.
    pub conditions-Covered :
        (snap : Snapshot F) → Covered (conditions fl show i snap) (conditions fl show fired snap)
    unfolding conditions
    conditions-Covered snap =
        Covered-append _ _ _ _
          (Covered-for_each _ _ snap.containers (container_rules-Covered snap.host))
          (Covered-append _ _ _ _ (host_rules-Covered snap.host) (
            Covered-append _ _ _ _ (Covered-for_each _ _ snap.host.mounts mount_rule-Covered) (
              Covered-append _ _ _ _ (Covered-for_each _ _ snap.disks disk_rules-Covered) (
                Covered-append _ _ _ _
                  (Covered-refl (for_each fl show (array_rule fl show) snap.arrays))
                  (Covered-append _ _ _ _
                    (same_sources (codes "docker") (lookup (codes "docker") snap.sources))
                    (Covered-append _ _ _ _
                      (same_sources (codes "portainer") (lookup (codes "portainer") snap.sources))
                      (same_size snap.db_bytes)))))))
