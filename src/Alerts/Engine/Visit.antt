-- ===== src/Alerts/Engine/Visit.antt =====
-- internal/alerts/engine.go: what one visit of the first loop of Evaluate, and one sweep of the
-- second, do to the track of their own key, branch by branch.
use homelab_dashboard.Prelude.{
  ℕ, ◌+◌, ◌<◌, ◌≤◌, ◌≡◌, refl, ◌⊎◌, inl, inr, Bool, true, false, Option, none, some, Text,
  text_eq_refl, ltb, ◌==◌, if◌then◌else◌, arith, Bool-cases, Option-cases,
}
use homelab_dashboard.Prelude.Assoc.{Map, lookup, insert, delete, lookup-insert, lookup-delete}
use homelab_dashboard.Store.Alerts.{open_alert, resolve_alert}
use homelab_dashboard.Store.Alerts.Rows.{open_alert-some}
use homelab_dashboard.Alerts.Engine.{
  Condition, Track, Settings, Engine, unix, set_track, alert_of, fired_track, fire, resolve,
  time_or, too_soon, seen, waiting, clearing, visit, clear_track, clear_found, sweep,
}
use homelab_dashboard.Alerts.Engine.Effects.{fire-none, fire-some, resolve-true, resolve-false}
use homelab_dashboard.Alerts.Engine.Locality.{track_at}

pub lookup-insert_self :
    {V : Type 0} (k : Text) (v : V) (m : Map V) → lookup k (insert k v m) ≡ some v
lookup-insert_self k v m = ground (arith, lookup-insert k k v m, text_eq_refl k)

pub lookup-delete_self : {V : Type 0} (k : Text) (m : Map V) → lookup k (delete k m) ≡ none
lookup-delete_self k m = ground (arith, lookup-delete k k m, text_eq_refl k)

-- The branches of a visit. `o` is the key's track before it and `after` the one after it.
pub data Visited (s : Settings) (now : ℕ) (c : Condition) (e : Engine) (o after : Option Track)
    : Type 0 where
  already_firing :
      0 < (seen c o).alert_id
      → after ≡ some (record (seen c o) { message = c.message })
      → Visited s now c e o after
  held_back :
      (seen c o).alert_id ≡ 0
      → (now < time_or (seen c o).pending_since now + c.hold_for)
        ⊎ (too_soon s now (seen c o).last_transition ≡ true)
      → after ≡ some (waiting now (seen c o))
      → Visited s now c e o after
  refused :
      (seen c o).alert_id ≡ 0
      → (open_alert (alert_of now c) e.db).0 ≡ none
      → after ≡ some (waiting now (seen c o))
      → Visited s now c e o after
  fired :
      (i : ℕ)
      → (seen c o).alert_id ≡ 0
      → time_or (seen c o).pending_since now + c.hold_for ≤ now
      → too_soon s now (seen c o).last_transition ≡ false
      → i ≡ e.db.last_id + 1
      → after ≡ some (fired_track now c i (waiting now (seen c o)))
      → Visited s now c e o after

set_track_self : (k : Text) (t : Track) (e : Engine) → track_at k (set_track k t e) ≡ some t
unfolding set_track
set_track_self k t e = lookup-insert_self k t e.tracks

fire-Visited :
    (s : Settings) (now : ℕ) (k : Text) (c : Condition) (e : Engine)
    → let t = seen c (track_at k e) in
      t.alert_id ≡ 0
      → time_or t.pending_since now + c.hold_for ≤ now
      → too_soon s now t.last_transition ≡ false
      → Visited s now c e (track_at k e) (track_at k (fire s now k c (waiting now t) e))
unfolding set_track
fire-Visited s now k c e zero_id held clear =
    let t = waiting now (seen c (track_at k e)) in
    elim (Option-cases (open_alert (alert_of now c) e.db).0) [
      | inl failed ↦
          refused zero_id failed
            (rw (fire-none s now k c t e failed) (lookup-insert_self k t e.tracks))
      | inr (i, opened) ↦
          fired i zero_id held clear (open_alert-some (alert_of now c) e.db opened).0 (
            rw (fire-some s now k c t e i opened).0
              (lookup-insert_self k (fired_track now c i t) e.tracks))
    ]

Visited-if :
    {s : Settings} {now : ℕ} {c : Condition} {e : Engine} {o : Option Track} (k : Text) (b : Bool)
    (x y : Engine)
    → (b ≡ true → Visited s now c e o (track_at k x))
    → (b ≡ false → Visited s now c e o (track_at k y))
    → Visited s now c e o (track_at k (if b then x else y))
Visited-if k true x y f g = f refl
Visited-if k false x y f g = g refl

-- A visit takes one of the four branches.
pub visit-Visited :
    (s : Settings) (now : ℕ) (k : Text) (c : Condition) (e : Engine)
    → Visited s now c e (track_at k e) (track_at k (visit s now k c e))
unfolding visit
visit-Visited s now k c e =
    let t = seen c (track_at k e) in
    let wait = set_track_self k (waiting now t) e in
    Visited-if k (ltb 0 t.alert_id) _ _
      (λ live.
        already_firing (ground arith) (set_track_self k (record t { message = c.message }) e))
      λ dead.
        Visited-if k (ltb now (time_or t.pending_since now + c.hold_for)) _ _
          (λ early. held_back (ground arith) (inl (ground arith)) wait)
          λ late.
            Visited-if k (too_soon s now t.last_transition) _ _
              (λ soon. held_back (ground arith) (inr soon) wait)
              λ clear. fire-Visited s now k c e (ground arith) (ground arith) clear

abbrev pub pending_in : Option Track → Option ℕ
pending_in none = none
pending_in (some t) = t.pending_since

-- The branches of a sweep of a key that is not active. `t` is its track before the sweep.
pub data Swept (s : Settings) (now : ℕ) (e : Engine) (t : Track) (after : Option Track)
    : Type 0 where
  forgotten : t.alert_id ≡ 0 → after ≡ none → Swept s now e t after
  kept :
      0 < t.alert_id
      → (now < time_or t.clear_since now + s.debounce)
        ⊎ ((resolve_alert t.alert_id (unix now) e.db).0 ≡ false)
      → after ≡ some (clearing now t)
      → Swept s now e t after
  closed :
      0 < t.alert_id
      → time_or t.clear_since now + s.debounce ≤ now
      → after ≡ none
      → Swept s now e t after

resolve-Swept :
    (s : Settings) (now : ℕ) (k : Text) (t : Track) (e : Engine)
    → 0 < t.alert_id
    → time_or t.clear_since now + s.debounce ≤ now
    → Swept s now e t (track_at k (resolve s now k (clearing now t) e))
unfolding set_track
resolve-Swept s now k t e live late =
    let c = clearing now t in
    elim (Bool-cases (resolve_alert t.alert_id (unix now) e.db).0) [
      | inl done ↦
          closed live late (rw (resolve-true s now k c e done).0 (lookup-delete_self k e.tracks))
      | inr failed ↦
          kept live (inr failed)
            (rw (resolve-false s now k c e failed) (lookup-insert_self k c e.tracks))
    ]

Swept-if :
    {s : Settings} {now : ℕ} {e : Engine} {t : Track} (k : Text) (b : Bool) (x y : Engine)
    → (b ≡ true → Swept s now e t (track_at k x))
    → (b ≡ false → Swept s now e t (track_at k y))
    → Swept s now e t (track_at k (if b then x else y))
Swept-if k true x y f g = f refl
Swept-if k false x y f g = g refl

-- A sweep takes one of the three branches.
pub clear_track-Swept :
    (s : Settings) (now : ℕ) (k : Text) (t : Track) (e : Engine)
    → Swept s now e t (track_at k (clear_track s now k t e))
unfolding clear_track
clear_track-Swept s now k t e =
    Swept-if k (t.alert_id == 0) _ _ (λ z. forgotten (ground arith) (lookup-delete_self k e.tracks))
      λ nz.
        Swept-if k (ltb now (time_or t.clear_since now + s.debounce)) _ _
          (λ early. kept (ground arith) (inl (ground arith)) (set_track_self k (clearing now t) e))
          λ late. resolve-Swept s now k t e (ground arith) (ground arith)

pub sweep_away :
    (s : Settings) (now : ℕ) (active : Map Condition) (k : Text) (e : Engine)
    → lookup k active ≡ none
    → sweep s now active k e ≡ clear_found s now k (track_at k e) e
unfolding sweep
sweep_away s now active k e h = rw (h, sweep)

clear_found-pending :
    (s : Settings) (now : ℕ) (k : Text) (o : Option Track) (e : Engine)
    → track_at k e ≡ o
    → pending_in (track_at k (clear_found s now k o e)) ≡ none
unfolding clear_found
clear_found-pending s now k none e h = rw h
clear_found-pending s now k (some t) e h = elim (clear_track-Swept s now k t e) [
  | forgotten z gone ↦ rw gone
  | kept live why stays ↦ rw stays
  | closed live late gone ↦ rw gone
]

-- A sweep of a key that is not active leaves it no pending time.
pub sweep-pending :
    (s : Settings) (now : ℕ) (active : Map Condition) (k : Text) (e : Engine)
    → lookup k active ≡ none
    → pending_in (track_at k (sweep s now active k e)) ≡ none
sweep-pending s now active k e h =
    rw (sweep_away s now active k e h) (clear_found-pending s now k (track_at k e) e refl)
