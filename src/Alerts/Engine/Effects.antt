-- ===== src/Alerts/Engine/Effects.antt =====
-- internal/alerts/engine.go, one turn of a loop of Evaluate seen from outside: it leaves every alert
-- alone, opens one, or closes one.
use homelab_dashboard.Prelude.{
  ℕ, ◌+◌, ◌<◌, ◌≡◌, refl, inl, inr, Bool, true, false, Option, none, some, Text, text_eq,
  text_eq_iff, ltb, ◌==◌, if◌then◌else◌, arith, Bool-cases, Option-cases,
}
use homelab_dashboard.Prelude.Assoc.{Map, lookup, insert, delete, lookup-insert, lookup-delete}
use homelab_dashboard.Store.Alerts.{AlertRecord, open_alert, resolve_alert}
use homelab_dashboard.Store.Alerts.Rows.{open_alert-none, resolve_alert-false}
use homelab_dashboard.Alerts.Format.{key}
use homelab_dashboard.Alerts.Engine.{
  Condition, Track, Notification, Settings, Engine, unix, set_track, enqueue, alert_of, fired_track,
  fire, resolve, track_or_new, seen, waiting, clearing, time_or, too_soon, visit, clear_track,
  clear_found, sweep,
}

abbrev pub id_in : Option Track → ℕ
id_in none = 0
id_in (some tr) = tr.alert_id

-- The alert id that a key's track has, and 0 with no track: `isFiring` is `0 < id_at k tracks`.
unfoldable pub id_at : Text → Map Track → ℕ
id_at k tracks = id_in (lookup k tracks)

pub data Effect (e e' : Engine) : Type 0 where
  quiet :
      ((j : Text) → id_at j e'.tracks ≡ id_at j e.tracks)
      → e'.db.rows ≡ e.db.rows
      → e'.db.last_id ≡ e.db.last_id
      → Effect e e'
  opens :
      (a : AlertRecord) (i : ℕ)
      → id_at (key a.rule a.target) e.tracks ≡ 0
      → (open_alert a e.db).0 ≡ some i
      → e'.db ≡ (open_alert a e.db).1
      → ((j : Text)
          → id_at j e'.tracks ≡ (if text_eq (key a.rule a.target) j then i else id_at j e.tracks))
      → Effect e e'
  closes :
      (k : Text) (at : ℕ)
      → 0 < id_at k e.tracks
      → (resolve_alert (id_at k e.tracks) at e.db).0 ≡ true
      → e'.db ≡ (resolve_alert (id_at k e.tracks) at e.db).1
      → ((j : Text) → id_at j e'.tracks ≡ (if text_eq k j then 0 else id_at j e.tracks))
      → Effect e e'

pub id_at-insert :
    (k j : Text) (tr : Track) (m : Map Track)
    → id_at j (insert k tr m) ≡ (if text_eq k j then tr.alert_id else id_at j m)
unfolding id_at
id_at-insert k j tr m = ground (arith, lookup-insert k j tr m)

pub id_at-delete :
    (k j : Text) (m : Map Track) → id_at j (delete k m) ≡ (if text_eq k j then 0 else id_at j m)
unfolding id_at
id_at-delete k j m = ground (arith, lookup-delete k j m)

-- A write that keeps the key's id changes no id.
insert_same :
    (k j : Text) (tr : Track) (m : Map Track)
    → tr.alert_id ≡ id_at k m
    → id_at j (insert k tr m) ≡ id_at j m
insert_same k j tr m same = elim (Bool-cases (text_eq k j)) [
  | inl e ↦ ground (arith, id_at-insert k j tr m, text_eq_iff k j)
  | inr e ↦ ground (arith, id_at-insert k j tr m)
]

delete_zero : (k j : Text) (m : Map Track) → id_at k m ≡ 0 → id_at j (delete k m) ≡ id_at j m
delete_zero k j m z = ground (arith, id_at-delete k j m, text_eq_iff k j)

set_track-quiet :
    (k : Text) (tr : Track) (e : Engine)
    → tr.alert_id ≡ id_at k e.tracks
    → Effect e (set_track k tr e)
unfolding set_track
set_track-quiet k tr e same = quiet (λ j. insert_same k j tr e.tracks same) refl refl

-- `enqueue` touches the channel alone.
pub enqueue-tracks :
    (s : Settings) (n : Notification) (e : Engine)
    → ((enqueue s n e).tracks ≡ e.tracks) × ((enqueue s n e).db ≡ e.db)
unfolding enqueue
enqueue-tracks s n e = ground arith

pub fire-none :
    (s : Settings) (now : ℕ) (k : Text) (c : Condition) (tr : Track) (e : Engine)
    → (open_alert (alert_of now c) e.db).0 ≡ none
    → fire s now k c tr e ≡ set_track k tr (record e { db = (open_alert (alert_of now c) e.db).1 })
unfolding fire
fire-none s now k c tr e h = ground arith

pub fire-some :
    (s : Settings) (now : ℕ) (k : Text) (c : Condition) (tr : Track) (e : Engine) (i : ℕ)
    → (open_alert (alert_of now c) e.db).0 ≡ some i
    → ((fire s now k c tr e).tracks ≡ insert k (fired_track now c i tr) e.tracks)
      × ((fire s now k c tr e).db ≡ (open_alert (alert_of now c) e.db).1)
unfolding fire enqueue
fire-some s now k c tr e i h = ground arith

fire-Effect :
    (s : Settings) (now : ℕ) (c : Condition) (tr : Track) (e : Engine)
    → tr.alert_id ≡ 0
    → id_at (key c.rule c.target) e.tracks ≡ 0
    → Effect e (fire s now (key c.rule c.target) c tr e)
unfolding alert_of fired_track set_track
fire-Effect s now c tr e zero_id free =
    let k = key c.rule c.target in
    let a = alert_of now c in
    elim (Option-cases (open_alert a e.db).0) [
      | inl failed ↦
          let (rows, last) = open_alert-none a e.db failed in
          rw (fire-none s now k c tr e failed)
            (quiet (λ j. insert_same k j tr e.tracks (ground arith)) rows last)
      | inr (i, opened) ↦
          let (tracks, db) = fire-some s now k c tr e i opened in
          opens a i free opened db
            (λ j. rw tracks (id_at-insert k j (fired_track now c i tr) e.tracks))
    ]

pub resolve-false :
    (s : Settings) (now : ℕ) (k : Text) (tr : Track) (e : Engine)
    → (resolve_alert tr.alert_id (unix now) e.db).0 ≡ false
    → resolve s now k tr e
      ≡ set_track k tr (record e { db = (resolve_alert tr.alert_id (unix now) e.db).1 })
unfolding resolve
resolve-false s now k tr e h = ground arith

pub resolve-true :
    (s : Settings) (now : ℕ) (k : Text) (tr : Track) (e : Engine)
    → (resolve_alert tr.alert_id (unix now) e.db).0 ≡ true
    → ((resolve s now k tr e).tracks ≡ delete k e.tracks)
      × ((resolve s now k tr e).db ≡ (resolve_alert tr.alert_id (unix now) e.db).1)
unfolding resolve enqueue
resolve-true s now k tr e h = ground arith

resolve-Effect :
    (s : Settings) (now : ℕ) (k : Text) (tr : Track) (e : Engine)
    → tr.alert_id ≡ id_at k e.tracks
    → 0 < id_at k e.tracks
    → Effect e (resolve s now k tr e)
unfolding set_track
resolve-Effect s now k tr e same live =
    elim (Bool-cases (resolve_alert tr.alert_id (unix now) e.db).0) [
      | inl done ↦
          let (tracks, db) = resolve-true s now k tr e done in
          closes k (unix now) live (rw (← same) done) (rw (← same) db)
            (λ j. rw tracks (id_at-delete k j e.tracks))
      | inr failed ↦
          let (rows, last) = resolve_alert-false tr.alert_id (unix now) e.db failed in
          rw (resolve-false s now k tr e failed)
            (quiet (λ j. insert_same k j tr e.tracks same) rows last)
    ]

Effect-if :
    {e : Engine} (b : Bool) (x y : Engine)
    → (b ≡ true → Effect e x)
    → (b ≡ false → Effect e y)
    → Effect e (if b then x else y)
Effect-if true x y f g = f refl
Effect-if false x y f g = g refl

pub track_or_new_id : (k : Text) (m : Map Track) → (track_or_new (lookup k m)).alert_id ≡ id_at k m
unfolding id_at
track_or_new_id k m = ground arith

-- A turn of the first loop, at the key of its condition.
pub visit-Effect :
    (s : Settings) (now : ℕ) (c : Condition) (e : Engine)
    → Effect e (visit s now (key c.rule c.target) c e)
unfolding visit
visit-Effect s now c e =
    let k = key c.rule c.target in
    let tr = seen c (lookup k e.tracks) in
    let same = track_or_new_id k e.tracks in
    let wait = set_track-quiet k (waiting now tr) e same in
    Effect-if (ltb 0 tr.alert_id) _ _
      (λ _. set_track-quiet k (record tr { message = c.message }) e same)
      λ unfired.
        Effect-if (ltb now (time_or tr.pending_since now + c.hold_for)) _ _ (λ _. wait)
          λ _.
            Effect-if (too_soon s now tr.last_transition) _ _ (λ _. wait)
              λ _. fire-Effect s now c (waiting now tr) e (ground arith) (ground (arith, same))

clear_track-Effect :
    (s : Settings) (now : ℕ) (k : Text) (tr : Track) (e : Engine)
    → tr.alert_id ≡ id_at k e.tracks
    → Effect e (clear_track s now k tr e)
unfolding clear_track
clear_track-Effect s now k tr e same =
    Effect-if (tr.alert_id == 0) _ _
      (λ z. quiet (λ j. delete_zero k j e.tracks (ground arith)) refl refl)
      λ nz.
        Effect-if (ltb now (time_or tr.clear_since now + s.debounce)) _ _
          (λ _. set_track-quiet k (clearing now tr) e same)
          λ _. resolve-Effect s now k (clearing now tr) e same (ground arith)

clear_found-Effect :
    (s : Settings) (now : ℕ) (k : Text) (o : Option Track) (e : Engine)
    → id_in o ≡ id_at k e.tracks
    → Effect e (clear_found s now k o e)
unfolding clear_found
clear_found-Effect s now k none e same = quiet (λ j. refl) refl refl
clear_found-Effect s now k (some tr) e same = clear_track-Effect s now k tr e same

-- A turn of the second loop.
pub sweep-Effect :
    (s : Settings) (now : ℕ) (active : Map Condition) (k : Text) (e : Engine)
    → Effect e (sweep s now active k e)
unfolding sweep id_at
sweep-Effect s now active k e = elim (Option-cases (lookup k active)) [
  | inl away ↦ rw (away, sweep) (clear_found-Effect s now k (lookup k e.tracks) e refl)
  | inr (c, there) ↦ rw (there, sweep) (quiet (λ j. refl) refl refl)
]
