-- ===== src/Collector/Counters/Sparkline.antt =====
-- internal/collector/stats.go: a sparkline has at most 120 points, the latest ones.
use homelab_dashboard.Prelude.{
  ℕ, zero, suc, ◌+◌, ◌-◌, ◌≤◌, ◌<◌, ◌≡◌, refl, ap, Option, none, some, List, [], ◌∷◌, ◌++◌, length,
  take, drop, ltb, ◌==◌, arith, Bool-cases, inl, inr, Text,
}
use homelab_dashboard.Prelude.Assoc.{Map, lookup, insert, lookup-insert}
use homelab_dashboard.Prelude.Float.{Float}
use homelab_dashboard.Collector.Counters.{
  append_sparkline, Gauge, Live, show_live, collect_stats, Counters, Reply, show_gauge, show_one,
}

length-append : {A : Type 0} (xs ys : List A) → length (xs ++ ys) ≡ length xs + length ys
length-append [] ys = omega arith
length-append (x ∷ xs) ys = ground (arith, length-append xs ys)

length-drop : {A : Type 0} (n : ℕ) (xs : List A) → length (drop n xs) ≡ length xs - n
length-drop zero xs = omega arith
length-drop (suc n) [] = omega arith
length-drop (suc n) (x ∷ xs) = ground (arith, length-drop n xs)

take-drop : {A : Type 0} (n : ℕ) (xs : List A) → xs ≡ take n xs ++ drop n xs
take-drop zero xs = refl
take-drop (suc n) [] = refl
take-drop (suc n) (x ∷ xs) = ap (λ ys. x ∷ ys) (take-drop n xs)

-- A sparkline grows by the new point at its end and loses points only at its start. With the new
-- point it is a list of points that are dropped followed by the result; the result has at most 120
-- points, and if any are dropped it has exactly 120.
pub append_sparkline_lem :
    {F : Type 0} (existing : List F) (v : F)
    → let result = append_sparkline existing v in
      (old : List F) × (existing ++ v ∷ [] ≡ old ++ result)
      × (length result ≤ 120)
      × (0 < length old → length result ≡ 120)
unfolding append_sparkline
append_sparkline_lem existing v =
    let added = existing ++ v ∷ [] in
    elim (Bool-cases (ltb 120 (length added))) [
      | inl long ↦ rw long (
        take (length added - 120) added,
        take-drop (length added - 120) added,
        ground (arith, length-drop (length added - 120) added),
        λ h. ground (arith, length-drop (length added - 120) added),
      )
      | inr short ↦ rw short ([], refl, ground arith, λ h. absurd (omega arith))
    ]

-- Every sparkline has at most 120 points.
abbrev pub Short : {F : Type 0} → Map (Gauge F) → Type 0
Short {F} gauges = (id : Text) (g : Gauge F) → lookup id gauges ≡ some g → length g.sparkline ≤ 120

module _ {F : Type 0} (fl : Float F) where
  show_gauge-bound : (l : Live F) (g : Gauge F) → length (show_gauge fl l g).sparkline ≤ 120
  unfolding show_gauge
  show_gauge-bound l g = (append_sparkline_lem g.sparkline l.cpu_percent).2

  insert-Short :
      (id : Text) (g : Gauge F) (gauges : Map (Gauge F))
      → length g.sparkline ≤ 120
      → Short gauges
      → Short (insert id g gauges)
  insert-Short id g gauges h short =
      λ j v here. ground (arith, lookup-insert id j g gauges, short j v)

  show_one-Short :
      (id : Text) (l : Live F) (o : Option (Gauge F)) (gauges : Map (Gauge F))
      → Short gauges
      → Short (show_one fl id l o gauges)
  unfolding show_one
  show_one-Short id l none gauges h = h
  show_one-Short id l (some g) gauges h =
      insert-Short id (show_gauge fl l g) gauges (show_gauge-bound l g) h

  show_live-Short :
      (live : Map (Live F)) (gauges : Map (Gauge F))
      → Short gauges
      → Short (show_live fl live gauges)
  unfolding show_live
  show_live-Short [] gauges h = h
  show_live-Short ((id, l) ∷ rest) gauges h =
      show_live-Short rest (show_one fl id l (lookup id gauges) gauges)
        (show_one-Short id l (lookup id gauges) gauges h)

  -- A cycle keeps every sparkline at no more than 120 points.
  pub collect_stats-Short :
      (asked now : ℕ) (rs : List (Text × Reply)) (last : Counters) (gauges : Map (Gauge F))
      → Short gauges
      → Short (collect_stats fl asked now rs last gauges).gauges
  unfolding collect_stats
  collect_stats-Short asked now rs last gauges h = elim (Bool-cases (asked == 0)) [
    | inl idle ↦ rw idle h
    | inr busy ↦ rw busy (show_live-Short _ gauges h)
  ]
