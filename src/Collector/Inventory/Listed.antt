-- ===== src/Collector/Inventory/Listed.antt =====
-- internal/collector/inventory.go: which containers the state has after refreshInventory.
use homelab_dashboard.Prelude.{
  ℕ, ◌≡◌, refl, ◌∙◌, inl, inr, Bool, true, false, not, ◌&&◌, ◌||◌, Option, none, some, List, [],
  ◌∷◌, Text, text_eq, text_eq_iff, any_of, if◌then◌else◌, arith, Bool-cases,
}
use homelab_dashboard.Prelude.Assoc.{Map, lookup, insert, lookup-insert, lookup-delete}
use homelab_dashboard.Prelude.Float.{Float}
use homelab_dashboard.Docker.Stats.{CpuSnapshot}
use homelab_dashboard.Collector.Counters.{Counters}
use homelab_dashboard.Collector.State.{Container}
use homelab_dashboard.Collector.Inspect.{ContainerInspect, apply_inspect}
use homelab_dashboard.Collector.Inventory.{
  ContainerSummary, PortainerState, Inventory, Listing, name_of, label, label_compose_project, see,
  see_one, see_all, is_seen, keep_seen, forget_one, forget, inspected, inspect, inspect_all,
  after_listing, refresh_inventory,
}

module _ {V : Type 0} where
  is_some : Option V → Bool
  is_some none = false
  is_some (some v) = true

  -- The map has the key.
  unfoldable pub has : Text → Map V → Bool
  unfolding is_some lookup
  has k m = is_some (lookup k m)

  has-insert : (j k : Text) (v : V) (m : Map V) → has k (insert j v m) ≡ (text_eq j k || has k m)
  unfolding has is_some
  has-insert j k v m =
      rw (lookup-insert j k v m)
        elim (Bool-cases (text_eq j k)) [ inl e ↦ rw e refl | inr e ↦ rw e refl ]

  lookup-keep_seen :
      (k : Text) (seen : List Text) (m : Map V)
      → lookup k (keep_seen seen m) ≡ (if is_seen seen k then lookup k m else none)
  unfolding keep_seen lookup
  lookup-keep_seen k seen [] = ground arith
  lookup-keep_seen k seen ((j, v) ∷ m) = ground (arith, text_eq_iff j k, lookup-keep_seen k seen m)

  has-keep_seen :
      (k : Text) (seen : List Text) (m : Map V)
      → has k (keep_seen seen m) ≡ (is_seen seen k && has k m)
  unfolding has is_some
  has-keep_seen k seen m =
      rw (lookup-keep_seen k seen m)
        elim (Bool-cases (is_seen seen k)) [ inl e ↦ rw e refl | inr e ↦ rw e refl ]

module _ {F : Type 0} (fl : Float F) (skip : Text → Text → Bool) (portainer : PortainerState)
    (now : ℕ) where
  -- The summary is one of the container, and is not left out.
  unfoldable pub is_listed : Text → ContainerSummary → Bool
  unfolding name_of label
  is_listed k s =
      not (skip (name_of s.id s.names) (label label_compose_project s.labels)) && text_eq s.id k

  see_seen :
      (k : Text) (s : ContainerSummary) (o : Option (Container F)) (l : Listing F)
      → is_seen (see fl skip portainer now s o l).seen k ≡ (text_eq s.id k || is_seen l.seen k)
  unfolding see is_seen any_of
  see_seen k s none l = ground arith
  see_seen k s (some c) l = ground arith

  has-see :
      (k : Text) (s : ContainerSummary) (o : Option (Container F)) (l : Listing F)
      → has k (see fl skip portainer now s o l).containers ≡ (text_eq s.id k || has k l.containers)
  unfolding see
  has-see k s none l = has-insert s.id k _ l.containers
  has-see k s (some c) l = has-insert s.id k _ l.containers

  see_one_seen :
      (k : Text) (s : ContainerSummary) (l : Listing F)
      → is_seen (see_one fl skip portainer now s l).seen k ≡ (is_listed k s || is_seen l.seen k)
  unfolding see_one is_listed
  see_one_seen k s l =
      elim (Bool-cases (skip (name_of s.id s.names) (label label_compose_project s.labels))) [
        | inl e ↦ rw e refl
        | inr e ↦ rw e (see_seen k s (lookup s.id l.containers) l)
      ]

  has-see_one :
      (k : Text) (s : ContainerSummary) (l : Listing F)
      → has k (see_one fl skip portainer now s l).containers ≡ (is_listed k s || has k l.containers)
  unfolding see_one is_listed
  has-see_one k s l =
      elim (Bool-cases (skip (name_of s.id s.names) (label label_compose_project s.labels))) [
        | inl e ↦ rw e refl
        | inr e ↦ rw e (has-see k s (lookup s.id l.containers) l)
      ]

  -- The ids that are seen are those before and those of the listing.
  see_all_seen :
      (k : Text) (ss : List ContainerSummary) (l : Listing F)
      → is_seen (see_all fl skip portainer now ss l).seen k
        ≡ (is_seen l.seen k || any_of (is_listed k) ss)
  unfolding see_all any_of
  see_all_seen k [] l = ground arith
  see_all_seen k (s ∷ ss) l =
      ground (arith, see_all_seen k ss (see_one fl skip portainer now s l), see_one_seen k s l)

  -- What is seen is there.
  see_all-has :
      (k : Text) (ss : List ContainerSummary) (l : Listing F)
      → (is_seen l.seen k ≡ true → has k l.containers ≡ true)
      → is_seen (see_all fl skip portainer now ss l).seen k ≡ true
      → has k (see_all fl skip portainer now ss l).containers ≡ true
  unfolding see_all
  see_all-has k [] l before = before
  see_all-has k (s ∷ ss) l before =
      see_all-has k ss (see_one fl skip portainer now s l)
        (λ h. ground (arith, see_one_seen k s l, has-see_one k s l, before))

none_seen : {P : Type 0} (k : Text) → is_seen [] k ≡ true → P
unfolding is_seen any_of
none_seen k h = let no : ⊥ = cc in elim no [ ]

module _ {F : Type 0} (fl : Float F) (parse_time : Text → Option ℕ) (atoi : Text → ℕ) where
  found_has :
      (k id : Text) (m : Map (Container F)) (c : Container F)
      → lookup id m ≡ some c
      → text_eq id k ≡ true
      → has k m ≡ true
  unfolding has is_some
  found_has k id m c found e = rw⁻¹ ((text_eq_iff id k).0 e) (rw found refl)

  has-inspected :
      (now : ℕ) (k id : Text) (info : ContainerInspect) (m : Map (Container F))
      (o : Option (Container F))
      → lookup id m ≡ o
      → has k (inspected fl parse_time atoi now id info o m) ≡ has k m
  unfolding inspected
  has-inspected now k id info m none found = refl
  has-inspected now k id info m (some c) found = ground (
    arith,
    has-insert id k (record (apply_inspect fl parse_time atoi info c) { last_inspected = some now })
        m,
    found_has k id m c found,
  )

  has-inspect :
      (now : ℕ) (k id : Text) (o : Option ContainerInspect) (m : Map (Container F))
      → has k (inspect fl parse_time atoi now id o m) ≡ has k m
  unfolding inspect
  has-inspect now k id none m = refl
  has-inspect now k id (some info) m = has-inspected now k id info m (lookup id m) refl

  has-inspect_all :
      (now : ℕ) (answer : Text → Option ContainerInspect) (k : Text) (ids : List Text)
      (m : Map (Container F))
      → has k (inspect_all fl parse_time atoi now answer ids m) ≡ has k m
  unfolding inspect_all
  has-inspect_all now answer k [] m = refl
  has-inspect_all now answer k (id ∷ ids) m =
      has-inspect_all now answer k ids _ ∙ has-inspect now k id (answer id) m

  -- After a refresh whose listing works, the state has exactly the containers that Docker lists
  -- and that are not left out, whatever it had before and whatever the inspections answer.
  pub has-refresh_inventory :
      (skip : Text → Text → Bool) (now : ℕ) (answer : Text → Option ContainerInspect)
      (list : List ContainerSummary) (inv : Inventory F) (k : Text)
      → has k (refresh_inventory fl parse_time atoi skip now answer (inr list) inv).0.containers
        ≡ any_of (is_listed fl skip inv.portainer now k) list
  unfolding refresh_inventory after_listing
  has-refresh_inventory skip now answer list inv k =
      let start : Listing F = record {
        containers = inv.containers;
        seen = [];
        to_inspect = [];
        changed = false;
      } in
      let l = see_all fl skip inv.portainer now list start in
      has-inspect_all now answer k l.to_inspect (keep_seen l.seen l.containers)
      ∙ has-keep_seen k l.seen l.containers
      ∙ ground (
        arith,
        see_all_seen fl skip inv.portainer now k list start,
        see_all-has fl skip inv.portainer now k list start (λ h. none_seen k h),
      )

-- What is not seen is deleted from a map where it is one of the ids of the loop.
lookup-forget_one :
    (k j : Text) (seen : List Text) (maps : Counters × Map ℕ)
    → lookup k (forget_one seen j maps).0.cpu_prev
      ≡ (if text_eq j k && not (is_seen seen k) then none else lookup k maps.0.cpu_prev)
unfolding forget_one
lookup-forget_one k j seen (kept, cursor) = elim (Bool-cases (is_seen seen j)) [
  | inl e ↦ rw e (ground (arith, text_eq_iff j k))
  | inr e ↦ rw e (ground (arith, text_eq_iff j k, lookup-delete j k kept.cpu_prev))
]

lookup-forget :
    (k : Text) (seen : List Text) (m : Map CpuSnapshot) (maps : Counters × Map ℕ)
    → lookup k (forget seen m maps).0.cpu_prev
      ≡ (if has k m && not (is_seen seen k) then none else lookup k maps.0.cpu_prev)
unfolding forget has is_some lookup
lookup-forget k seen [] maps = refl
lookup-forget k seen ((j, v) ∷ m) maps =
    lookup-forget k seen m (forget_one seen j maps) ∙ elim (Bool-cases (text_eq j k)) [
      | inl e ↦ rw (lookup-forget_one k j seen maps, e) (ground arith)
      | inr e ↦ rw (lookup-forget_one k j seen maps, e) refl
    ]

none_seen_false : (k : Text) → is_seen [] k ≡ false
unfolding is_seen any_of
none_seen_false k = refl

gone_is_some : (o : Option CpuSnapshot) → is_some (if is_some o && true then none else o) ≡ false
unfolding is_some
gone_is_some none = refl
gone_is_some (some s) = refl

kept_snapshot :
    (k : Text) (seen : List Text) (m : Map CpuSnapshot) (maps : Counters × Map ℕ)
    → maps.0.cpu_prev ≡ m
    → has k (forget seen m maps).0.cpu_prev ≡ (is_seen seen k && has k m)
unfolding has is_some
kept_snapshot k seen m maps e =
    rw (lookup-forget k seen m maps, e)
      elim (Bool-cases (is_seen seen k)) [
        | inl s ↦ rw s (ground arith)
        | inr n ↦ rw n (gone_is_some (lookup k m))
      ]

module _ {F : Type 0} (fl : Float F) (parse_time : Text → Option ℕ) (atoi : Text → ℕ) where
  -- After a refresh whose listing works, there is a CPU snapshot of a container exactly if there
  -- was one, and Docker lists the container and it is not left out.
  pub refresh_inventory_snapshots :
      (skip : Text → Text → Bool) (now : ℕ) (answer : Text → Option ContainerInspect)
      (list : List ContainerSummary) (inv : Inventory F) (k : Text)
      → has k
          (refresh_inventory fl parse_time atoi skip now answer (inr list) inv).0.counters.cpu_prev
        ≡ (any_of (is_listed fl skip inv.portainer now k) list && has k inv.counters.cpu_prev)
  unfolding refresh_inventory after_listing
  refresh_inventory_snapshots skip now answer list inv k =
      let start : Listing F = record {
        containers = inv.containers;
        seen = [];
        to_inspect = [];
        changed = false;
      } in
      let l = see_all fl skip inv.portainer now list start in
      kept_snapshot k l.seen inv.counters.cpu_prev (inv.counters, inv.log_cursor) refl
      ∙ ground (arith, see_all_seen fl skip inv.portainer now k list start, none_seen_false k)
