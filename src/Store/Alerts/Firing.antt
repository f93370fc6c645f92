-- ===== src/Store/Alerts/Firing.antt =====
-- internal/store/records.go: FiringAlerts returns the firing rows, each once and none missed.
use homelab_dashboard.Prelude.{
  ℕ, ◌≡◌, refl, ◌∙◌, inl, inr, Bool, true, some, List, [], ◌∷◌, Text, text_eq, text_eq_iff,
  text_eq_refl, if◌then◌else◌, leb, arith, Bool-cases, All, keep_if, any_of,
}
use homelab_dashboard.Store.Alerts.{
  AlertRecord, AlertsDb, attempt, is_firing, insert_by_age, newest_first, firing_alerts,
}
use homelab_dashboard.Store.Alerts.Rows.{find_row, firing_key}
use homelab_dashboard.Alerts.Format.{key}

abbrev pub row_key : AlertRecord → Text
row_key r = key r.rule r.target

abbrev pub has_key : Text → AlertRecord → Bool
has_key k r = text_eq (row_key r) k

-- The list that FiringAlerts returns.
unfoldable pub firing_rows : List AlertRecord → List AlertRecord
unfolding newest_first
firing_rows rows = newest_first (keep_if (λ r. is_firing r.state) rows)

All-keep_if :
    (P : AlertRecord → Type 0) (p : AlertRecord → Bool) (rs : List AlertRecord)
    → All (λ r. p r ≡ true → P r) rs
    → All P (keep_if p rs)
unfolding keep_if
All-keep_if P p [] all = tt
All-keep_if P p (r ∷ rs) (h, all) = elim (Bool-cases (p r)) [
  | inl yes' ↦ rw yes' (h yes', All-keep_if P p rs all)
  | inr no' ↦ rw no' (All-keep_if P p rs all)
]

All-insert_by_age :
    (P : AlertRecord → Type 0) (a : AlertRecord) (rs : List AlertRecord)
    → P a
    → All P rs
    → All P (insert_by_age a rs)
unfolding insert_by_age
All-insert_by_age P a [] h all = (h, tt)
All-insert_by_age P a (b ∷ rs) h (hb, all) = elim (Bool-cases (leb b.fired_at a.fired_at)) [
  | inl e ↦ rw e (h, (hb, all))
  | inr e ↦ rw e (hb, All-insert_by_age P a rs h all)
]

All-newest_first :
    (P : AlertRecord → Type 0) (rs : List AlertRecord) → All P rs → All P (newest_first rs)
unfolding newest_first
All-newest_first P [] all = tt
All-newest_first P (r ∷ rs) (h, all) =
    All-insert_by_age P r (newest_first rs) h (All-newest_first P rs all)

any_of-insert_by_age :
    (p : AlertRecord → Bool) (a : AlertRecord) (rs : List AlertRecord)
    → any_of p (insert_by_age a rs) ≡ (if p a then true else any_of p rs)
unfolding insert_by_age any_of
any_of-insert_by_age p a [] = refl
any_of-insert_by_age p a (b ∷ rs) = ground (arith, any_of-insert_by_age p a rs)

any_of-newest_first :
    (p : AlertRecord → Bool) (rs : List AlertRecord) → any_of p (newest_first rs) ≡ any_of p rs
unfolding newest_first any_of
any_of-newest_first p [] = refl
any_of-newest_first p (r ∷ rs) =
    any_of-insert_by_age p r (newest_first rs) ∙ ground (arith, any_of-newest_first p rs)

-- A firing row is found by its key among the firing ones.
any_of-firing :
    (i : ℕ) (k : Text) (rs : List AlertRecord)
    → firing_key i rs ≡ some k
    → any_of (has_key k) (keep_if (λ r. is_firing r.state) rs) ≡ true
unfolding firing_key find_row any_of keep_if
any_of-firing i k [] h = cc
any_of-firing i k (r ∷ rs) h =
    ground (arith, text_eq_refl k, text_eq_iff (row_key r) k, any_of-firing i k rs)

-- What holds of each firing row of the table holds of each row that FiringAlerts returns.
pub All-firing_rows :
    (P : AlertRecord → Type 0) (rs : List AlertRecord)
    → All (λ r. is_firing r.state ≡ true → P r) rs
    → All P (firing_rows rs)
unfolding firing_rows
All-firing_rows P rs all = All-newest_first P _ (All-keep_if P (λ r. is_firing r.state) rs all)

-- FiringAlerts misses no key.
pub any_of-firing_rows :
    (i : ℕ) (k : Text) (rs : List AlertRecord)
    → firing_key i rs ≡ some k
    → any_of (has_key k) (firing_rows rs) ≡ true
unfolding firing_rows
any_of-firing_rows i k rs h =
    any_of-newest_first (has_key k) (keep_if (λ r. is_firing r.state) rs) ∙ any_of-firing i k rs h

pub firing_alerts-some :
    (db : AlertsDb) (rs : List AlertRecord)
    → (firing_alerts db).0 ≡ some rs
    → (rs ≡ firing_rows db.rows)
      × ((firing_alerts db).1.rows ≡ db.rows)
      × ((firing_alerts db).1.last_id ≡ db.last_id)
unfolding firing_alerts attempt firing_rows
firing_alerts-some db rs h = ground arith
