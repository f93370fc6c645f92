-- ===== src/Alerts/Engine/Restore.antt =====
-- internal/alerts/engine.go: Restore after a restart of the program.
use homelab_dashboard.Prelude.{
  ℕ, ◌≡◌, refl, ◌∙◌, inl, inr, true, some, List, [], ◌∷◌, Text, text_eq_iff, if◌then◌else◌, arith,
  Option-cases, All, All-imp, any_of, ap,
}
use homelab_dashboard.Prelude.Assoc.{Map, lookup, insert}
use homelab_dashboard.Store.Alerts.{AlertRecord, is_firing, firing_alerts}
use homelab_dashboard.Store.Alerts.Rows.{find_row, firing_key}
use homelab_dashboard.Store.Alerts.Firing.{
  row_key, has_key, firing_rows, All-firing_rows, any_of-firing_rows, firing_alerts-some,
}
use homelab_dashboard.Alerts.Engine.{Track, Engine, restored_track, restore_all, restore}
use homelab_dashboard.Alerts.Engine.Effects.{quiet, id_at, id_at-insert}
use homelab_dashboard.Alerts.Engine.Consistency.{Consistent, Effect-Consistent}

-- The engine of a new process over the table that the old one left.
abbrev pub restarted : Engine → Engine
restarted e = record { tracks = []; queue = []; published = []; db = e.db }

module _ (ids : Text → ℕ) where
  restore_all-id :
      (k : Text) (rs : List AlertRecord) (tracks : Map Track)
      → All (λ (r : AlertRecord). ids (row_key r) ≡ r.id) rs
      → id_at k (restore_all rs tracks) ≡ (if any_of (has_key k) rs then ids k else id_at k tracks)
  unfolding restore_all any_of restored_track
  restore_all-id k [] tracks all = refl
  restore_all-id k (r ∷ rs) tracks (h, all) =
      restore_all-id k rs (insert (row_key r) (restored_track r) tracks) all
      ∙ ground (
        arith,
        id_at-insert (row_key r) k (restored_track r) tracks,
        text_eq_iff (row_key r) k,
        h,
      )

firing_key_found :
    (rs : List AlertRecord) (r : AlertRecord)
    → find_row r.id rs ≡ some r
    → is_firing r.state ≡ true
    → firing_key r.id rs ≡ some (row_key r)
unfolding firing_key
firing_key_found rs r found live = rw (found) (ground arith)

restore-true :
    (e : Engine)
    → (restore e).0 ≡ true
    → ((restore e).1.tracks ≡ restore_all (firing_rows e.db.rows) e.tracks)
      × ((restore e).1.db.rows ≡ e.db.rows)
      × ((restore e).1.db.last_id ≡ e.db.last_id)
unfolding restore
restore-true e h = elim (Option-cases (firing_alerts e.db).0) [
  | inl failed ↦ ground arith
  | inr (rs, found) ↦
      let (these, rows, last) = firing_alerts-some e.db rs found in
      ground (arith, these, rows, last)
]

module _ (e : Engine) (h : Consistent e) where
  tracked_row :
      (r : AlertRecord)
      → find_row r.id e.db.rows ≡ some r
      → is_firing r.state ≡ true
      → id_at (row_key r) e.tracks ≡ r.id
  tracked_row r found live = h.tracked r.id (row_key r) (firing_key_found e.db.rows r found live)

  restored_id : (k : Text) → id_at k (restore_all (firing_rows e.db.rows) []) ≡ id_at k e.tracks
  unfolding id_at lookup
  restored_id k =
      restore_all-id (λ j. id_at j e.tracks) k (firing_rows e.db.rows) []
        (All-firing_rows (λ r. id_at (row_key r) e.tracks ≡ r.id) e.db.rows
          (All-imp e.db.rows tracked_row h.numbered.findable))
      ∙ ground (arith, h.backed k, any_of-firing_rows (id_at k e.tracks) k e.db.rows)

-- After a restart every key has the alert that it had. If the engine and its table agreed and the
-- query of Restore succeeds, then each key's track has the same alert id as before, 0 included, and
-- the restored engine and the table agree.
pub restore_keeps_alerts :
    (e : Engine)
    → Consistent e
    → (restore (restarted e)).0 ≡ true
    → ((k : Text) → id_at k (restore (restarted e)).1.tracks ≡ id_at k e.tracks)
      × Consistent (restore (restarted e)).1
restore_keeps_alerts e h worked =
    let (tracks, rows, last) = restore-true (restarted e) worked in
    let same = λ (k : Text). ap (id_at k) tracks ∙ restored_id e h k in
    (same, Effect-Consistent (quiet same rows last) h)
