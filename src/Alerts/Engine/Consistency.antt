-- ===== src/Alerts/Engine/Consistency.antt =====
-- internal/alerts/engine.go against the alerts table: the tracks and the firing rows agree.
use homelab_dashboard.Prelude.{
  ℕ, ◌<◌, ◌≡◌, refl, inl, inr, none, some, List, [], ◌∷◌, Text, text_eq, text_eq_iff, arith,
  Bool-cases, All,
}
use homelab_dashboard.Prelude.Assoc.{Map, insert}
use homelab_dashboard.Store.Alerts.{AlertRecord, AlertsDb}
use homelab_dashboard.Store.Alerts.Rows.{
  Numbered, Numbered-open, Numbered-resolve, firing_key, firing_key-open, firing_key-resolve,
  find_row, open_alert-some,
}
use homelab_dashboard.Alerts.Format.{key}
use homelab_dashboard.Alerts.Engine.{
  Condition, Track, Settings, Engine, visit, visit_all, sweep, sweep_all, collect, evaluate_at,
}
use homelab_dashboard.Alerts.Engine.Effects.{
  id_at, Effect, quiet, opens, closes, visit-Effect, sweep-Effect,
}

-- The row of a key's alert is firing under that key, and the firing row of a key is its track's.
pub record Consistent (e : Engine) : Type 0 where
  pub numbered : Numbered e.db
  pub backed : (k : Text) → 0 < id_at k e.tracks → firing_key (id_at k e.tracks) e.db.rows ≡ some k
  pub tracked : (i : ℕ) (k : Text) → firing_key i e.db.rows ≡ some k → id_at k e.tracks ≡ i

Numbered-same :
    {d d' : AlertsDb} → d'.rows ≡ d.rows → d'.last_id ≡ d.last_id → Numbered d → Numbered d'
Numbered-same rows last n = record {
  findable = rw rows n.findable;
  fresh = λ i lt. rw rows (n.fresh i (rw last at lt));
  no_zero = rw rows n.no_zero;
}

-- An id above the counter has no row.
fresh-firing_key : (i : ℕ) (rs : List AlertRecord) → find_row i rs ≡ none → firing_key i rs ≡ none
unfolding firing_key
fresh-firing_key i rs h = rw h

-- Whatever a turn of a loop does, the tracks and the table agree after it.
pub Effect-Consistent : {e e' : Engine} → Effect e e' → Consistent e → Consistent e'
Effect-Consistent (quiet ids rows last) h = record {
  numbered = Numbered-same rows last h.numbered;
  backed = λ k. rw (ids k, rows) (h.backed k);
  tracked = λ i k. rw (ids k, rows) (h.tracked i k);
}
Effect-Consistent {e} {e'} (opens a i free opened db ids) h =
    let next = (open_alert-some a e.db opened).0 in
    let kk = key a.rule a.target in
    let unused = fresh-firing_key i e.db.rows (h.numbered.fresh i (omega arith)) in
    let zero_free = fresh-firing_key 0 e.db.rows h.numbered.no_zero in
    record {
      numbered = rw db (Numbered-open a e.db h.numbered opened);
      backed = λ k live.
          rw (db, firing_key-open a e.db (id_at k e'.tracks) h.numbered opened)
            (ground (arith, ids k, h.backed k, unused, text_eq_iff kk k));
      tracked = λ j k found. ground (
        arith,
        ids k,
        h.tracked j k,
        zero_free,
        text_eq_iff kk k,
        free,
        rw (db, firing_key-open a e.db j h.numbered opened) at found,
      );
    }
Effect-Consistent {e} {e'} (closes k at live done db ids) h = record {
  numbered = rw db (Numbered-resolve (id_at k e.tracks) at e.db h.numbered);
  backed = λ j live'.
      rw (db, firing_key-resolve (id_at k e.tracks) at e.db (id_at j e'.tracks) done)
        (ground (arith, ids j, h.backed j, h.backed k, text_eq_iff k j));
  tracked = λ i j found. ground (
    arith,
    ids j,
    h.tracked i j,
    text_eq_iff k j,
    rw (db, firing_key-resolve (id_at k e.tracks) at e.db i done) at found,
  );
}

-- Each entry stands under the key of its own condition.
abbrev Keyed : Text × Condition → Type 0
Keyed (k, c) = k ≡ key c.rule c.target

insert-Keyed :
    (k : Text) (c : Condition) (m : Map Condition)
    → k ≡ key c.rule c.target
    → All Keyed m
    → All Keyed (insert k c m)
unfolding insert
insert-Keyed k c [] h all = (h, tt)
insert-Keyed k c ((j, d) ∷ m) h (p, all) = elim (Bool-cases (text_eq j k)) [
  | inl e ↦ rw e (h, all)
  | inr e ↦ rw e (p, insert-Keyed k c m h all)
]

collect-Keyed : (cs : List Condition) (m : Map Condition) → All Keyed m → All Keyed (collect cs m)
unfolding collect
collect-Keyed [] m all = all
collect-Keyed (c ∷ cs) m all =
    collect-Keyed cs (insert (key c.rule c.target) c m)
      (insert-Keyed (key c.rule c.target) c m refl all)

visit_all-Consistent :
    (s : Settings) (now : ℕ) (m : Map Condition) (e : Engine)
    → All Keyed m
    → Consistent e
    → Consistent (visit_all s now m e)
unfolding visit_all
visit_all-Consistent s now [] e all h = h
visit_all-Consistent s now ((k, c) ∷ m) e (p, all) h =
    visit_all-Consistent s now m (visit s now k c e) all
      (rw p (Effect-Consistent (visit-Effect s now c e) h))

sweep_all-Consistent :
    (s : Settings) (now : ℕ) (active : Map Condition) (m : Map Track) (e : Engine)
    → Consistent e
    → Consistent (sweep_all s now active m e)
unfolding sweep_all
sweep_all-Consistent s now active [] e h = h
sweep_all-Consistent s now active ((k, t) ∷ m) e h =
    sweep_all-Consistent s now active m (sweep s now active k e)
      (Effect-Consistent (sweep-Effect s now active k e) h)

-- An evaluation, whatever the conditions and whichever statements fail, leaves the engine and the
-- table in agreement: the track of each key that has an alert id is backed by a firing row of that
-- id and key, every firing row is the one of its key's track, and ids run from 1 to the counter.
pub evaluate_at-Consistent :
    (s : Settings) (now : ℕ) (conds : List Condition) (e : Engine)
    → Consistent e
    → Consistent (evaluate_at s now conds e)
unfolding evaluate_at
evaluate_at-Consistent s now conds e h =
    let active = collect conds [] in
    let visited = visit_all s now active e in
    sweep_all-Consistent s now active visited.tracks visited
      (visit_all-Consistent s now active e (collect-Keyed conds [] tt) h)
