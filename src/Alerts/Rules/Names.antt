-- ===== src/Alerts/Rules/Names.antt =====
-- internal/alerts/rules.go and internal/alerts/engine.go: the names of the rules have no bar, so the
-- key of each condition splits into its rule and its target.
use homelab_dashboard.Prelude.{
  ℕ, ◌≡◌, inl, inr, refl, Bool, true, false, ◌&&◌, not, Option, none, some, List, [], ◌∷◌, Text,
  codes, ◌==◌, All, All-append, All-imp, arith, Bool-cases,
}
use homelab_dashboard.Prelude.Assoc.{lookup}
use homelab_dashboard.Prelude.Float.{Float}
use homelab_dashboard.Disks.Health.{Disk, Array}
use homelab_dashboard.Collector.Counters.{Live}
use homelab_dashboard.Alerts.Format.{key, split_key}
use homelab_dashboard.Alerts.Format.Escape.{NoBar, split_key-key}
use homelab_dashboard.Alerts.Engine.{Condition}
use homelab_dashboard.Collector.State.{
  Container, MountUsage, HostState, SourceStatus, Snapshot, running,
}
use homelab_dashboard.Alerts.Rules.{
  Formats, Inputs, when, down_rule, restart_rule, health_rule, cpu_rule, memory_rule, live_rules,
  container_rules, host_rules, mount_rule, smart_rule, temperature_rule, disk_rules, array_rule,
  source_rule, size_rule, for_each, conditions,
}

no_bar : Text → Bool
no_bar [] = true
no_bar (c ∷ s) = not (c == b'|') && no_bar s

NoBar_lem : (s : Text) → no_bar s ≡ true → NoBar s
unfolding no_bar
NoBar_lem [] h = tt
NoBar_lem (c ∷ s) h = (λ e. ground arith, NoBar_lem s (ground arith))

abbrev Named : List Condition → Type 0
Named = All (λ c. NoBar c.rule)

module _ {F : Type 0} (fl : Float F) (show : Formats F) where
  Named-when : (b : Bool) (c : Condition) → no_bar c.rule ≡ true → Named (when fl show b c)
  unfolding when
  Named-when true c h = (NoBar_lem c.rule h, tt)
  Named-when false c h = tt

  Named-for_each :
      {A : Type 0} (f : A → List Condition) (xs : List A)
      → ((x : A) → Named (f x))
      → Named (for_each fl show f xs)
  unfolding for_each
  Named-for_each f [] h = tt
  Named-for_each f (x ∷ xs) h =
      All-append _ (f x) (for_each fl show f xs) (h x) (Named-for_each f xs h)

  module _ (i : Inputs fl show) where
    live_rules-Named :
        (h : HostState F) (c : Container F) (o : Option (Live F))
        → Named (live_rules fl show i h c o)
    unfolding live_rules cpu_rule memory_rule no_bar
    live_rules-Named h c none = tt
    live_rules-Named h c (some l) = elim (Bool-cases (running c)) [
      | inl up ↦ rw up (All-append _ _ _ (Named-when _ _ refl) (Named-when _ _ refl))
      | inr down ↦ rw down tt
    ]

    container_rules-Named :
        (h : HostState F) (c : Container F) → Named (container_rules fl show i h c)
    unfolding container_rules down_rule restart_rule health_rule no_bar
    container_rules-Named h c = All-append _ _ _ (Named-when _ _ refl) (
        All-append _ _ _ (Named-when _ _ refl)
          (All-append _ _ _ (Named-when _ _ refl) (live_rules-Named h c c.live)))

    host_rules-Named : (h : HostState F) → Named (host_rules fl show i h)
    unfolding host_rules no_bar
    host_rules-Named h = All-append _ _ _ (Named-when _ _ refl) (Named-when _ _ refl)

    mount_rule-Named : (m : MountUsage) → Named (mount_rule fl show i m)
    unfolding mount_rule no_bar
    mount_rule-Named m = Named-when _ _ refl

    disk_rules-Named : (d : Disk) → Named (disk_rules fl show i d)
    unfolding disk_rules smart_rule temperature_rule no_bar
    disk_rules-Named d = All-append _ _ _ (Named-when _ _ refl) (Named-when _ _ refl)

    array_rule-Named : (a : Array F) → Named (array_rule fl show a)
    unfolding array_rule no_bar
    array_rule-Named a = Named-when _ _ refl

    source_rule-Named :
        (name : Text) (o : Option SourceStatus) → Named (source_rule fl show i name o)
    unfolding source_rule no_bar
    source_rule-Named name none = tt
    source_rule-Named name (some src) = Named-when _ _ refl

    size_rule-Named : (n : ℕ) → Named (size_rule fl show i n)
    unfolding size_rule no_bar
    size_rule-Named n = Named-when _ _ refl

    conditions-Named : (snap : Snapshot F) → Named (conditions fl show i snap)
    unfolding conditions
    conditions-Named snap =
        All-append _ _ _ (Named-for_each _ snap.containers (container_rules-Named snap.host)) (
          All-append _ _ _ (host_rules-Named snap.host) (
            All-append _ _ _ (Named-for_each _ snap.host.mounts mount_rule-Named) (
              All-append _ _ _ (Named-for_each _ snap.disks disk_rules-Named) (
                All-append _ _ _ (Named-for_each _ snap.arrays array_rule-Named) (
                  All-append _ _ _
                    (source_rule-Named (codes "docker") (lookup (codes "docker") snap.sources))
                    (All-append _ _ _
                      (source_rule-Named (codes "portainer")
                        (lookup (codes "portainer") snap.sources))
                      (size_rule-Named snap.db_bytes)))))))

    -- The key of every condition that the rules find splits into the rule and the target of the condition,
    -- whatever bytes the target has: what resolve tells of a key is what fire was given.
    pub conditions-split_key :
        (snap : Snapshot F)
        → All
            (λ c. split_key (key c.rule c.target) ≡ (c.rule, c.target))
            (conditions fl show i snap)
    conditions-split_key snap =
        All-imp (conditions fl show i snap) (λ c. split_key-key c.rule c.target)
          (conditions-Named snap)
