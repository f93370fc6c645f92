-- ===== src/Alerts/Engine/Locality.antt =====
-- internal/alerts/engine.go: a turn of a loop of Evaluate touches the track of its own key alone, so
-- Evaluate treats each key as if it were the only one.
use homelab_dashboard.Prelude.{
  ℕ, ◌+◌, ◌≡◌, refl, sym, ◌∙◌, inl, inr, Bool, true, false, Option, none, some, List, [], ◌∷◌, Text,
  text_eq, text_eq_iff, ltb, ◌==◌, if◌then◌else◌, arith, Bool-cases, Option-cases, subst,
}
use homelab_dashboard.Prelude.Assoc.{
  Distinct, insert-Distinct, Map, lookup, insert, delete, lookup-insert, lookup-delete,
}
use homelab_dashboard.Store.Alerts.{AlertRecord, AlertsDb, attempt, open_alert, resolve_alert}
use homelab_dashboard.Alerts.Format.{key}
use homelab_dashboard.Alerts.Engine.{
  Condition, Track, Settings, Engine, unix, set_track, alert_of, fired_track, fire, resolve,
  time_or, too_soon, seen, waiting, clearing, visit, visit_all, clear_track, clear_found, sweep,
  sweep_all, collect, evaluate_at,
}
use homelab_dashboard.Alerts.Engine.Effects.{fire-none, fire-some, resolve-true, resolve-false}

-- The track of a key.
abbrev pub track_at : Text → Engine → Option Track
track_at k e = lookup k e.tracks

pub if_holds : (P : Engine → Type 0) (b : Bool) (x y : Engine) → P x → P y → P (if b then x else y)
if_holds P true x y p q = p
if_holds P false x y p q = q

module _ (k j : Text) (other : text_eq j k ≡ false) where
  set_track-other : (t : Track) (e : Engine) → track_at k (set_track j t e) ≡ track_at k e
  unfolding set_track
  set_track-other t e = ground (arith, lookup-insert j k t e.tracks)

  delete-other : (m : Map Track) → lookup k (delete j m) ≡ lookup k m
  delete-other m = ground (arith, lookup-delete j k m)

  fire-other :
      (s : Settings) (now : ℕ) (c : Condition) (t : Track) (e : Engine)
      → track_at k (fire s now j c t e) ≡ track_at k e
  unfolding set_track
  fire-other s now c t e = elim (Option-cases (open_alert (alert_of now c) e.db).0) [
    | inl failed ↦ rw (fire-none s now j c t e failed) (set_track-other t e)
    | inr (i, opened) ↦
        rw (fire-some s now j c t e i opened).0 (set_track-other (fired_track now c i t) e)
  ]

  resolve-other :
      (s : Settings) (now : ℕ) (t : Track) (e : Engine)
      → track_at k (resolve s now j t e) ≡ track_at k e
  unfolding set_track
  resolve-other s now t e = elim (Bool-cases (resolve_alert t.alert_id (unix now) e.db).0) [
    | inl done ↦ rw (resolve-true s now j t e done).0 (delete-other e.tracks)
    | inr failed ↦ rw (resolve-false s now j t e failed) (set_track-other t e)
  ]

  visit-other :
      (s : Settings) (now : ℕ) (c : Condition) (e : Engine)
      → track_at k (visit s now j c e) ≡ track_at k e
  unfolding visit
  visit-other s now c e =
      let t = seen c (lookup j e.tracks) in
      let P = λ (e' : Engine). track_at k e' ≡ track_at k e in
      let wait = set_track-other (waiting now t) e in
      if_holds P (ltb 0 t.alert_id) _ _ (set_track-other (record t { message = c.message }) e) (
        if_holds P (ltb now (time_or t.pending_since now + c.hold_for)) _ _ wait (
          if_holds P (too_soon s now t.last_transition) _ _ wait
            (fire-other s now c (waiting now t) e)))

  clear_found-other :
      (s : Settings) (now : ℕ) (o : Option Track) (e : Engine)
      → track_at k (clear_found s now j o e) ≡ track_at k e
  unfolding clear_found clear_track
  clear_found-other s now none e = refl
  clear_found-other s now (some t) e =
      let P = λ (e' : Engine). track_at k e' ≡ track_at k e in
      if_holds P (t.alert_id == 0) _ _ (delete-other e.tracks) (
        if_holds P (ltb now (time_or t.clear_since now + s.debounce)) _ _
          (set_track-other (clearing now t) e) (resolve-other s now (clearing now t) e))

  pub sweep-other :
      (s : Settings) (now : ℕ) (active : Map Condition) (e : Engine)
      → track_at k (sweep s now active j e) ≡ track_at k e
  unfolding sweep
  sweep-other s now active e = elim (Option-cases (lookup j active)) [
    | inl away ↦ rw (away, sweep) (clear_found-other s now (lookup j e.tracks) e)
    | inr (c, there) ↦ rw (there, sweep)
  ]

pub collect-Distinct :
    (cs : List Condition) (m : Map Condition) → Distinct m → Distinct (collect cs m)
unfolding collect
collect-Distinct [] m d = d
collect-Distinct (c ∷ cs) m d =
    collect-Distinct cs (insert (key c.rule c.target) c m)
      (insert-Distinct (key c.rule c.target) c m d)

-- The first loop leaves the track of a key that is not active.
pub visit_all-away :
    (s : Settings) (now : ℕ) (k : Text) (m : Map Condition) (e : Engine)
    → lookup k m ≡ none
    → track_at k (visit_all s now m e) ≡ track_at k e
unfolding visit_all lookup
visit_all-away s now k [] e h = refl
visit_all-away s now k ((j, c) ∷ m) e h = elim (Bool-cases (text_eq j k)) [
  | inl same ↦ ground arith
  | inr other ↦
      visit_all-away s now k m (visit s now j c e) (ground arith) ∙ visit-other k j other s now c e
]

-- No statement is refused from now on.
abbrev pub Healthy : Engine → Type 0
Healthy e = e.db.faults ≡ []

open_alert-faults :
    (a : AlertRecord) (db : AlertsDb) → db.faults ≡ [] → (open_alert a db).1.faults ≡ []
unfolding open_alert attempt
open_alert-faults a db h = ground arith

fire-Healthy :
    (s : Settings) (now : ℕ) (k : Text) (c : Condition) (t : Track) (e : Engine)
    → Healthy e
    → Healthy (fire s now k c t e)
unfolding set_track
fire-Healthy s now k c t e h = elim (Option-cases (open_alert (alert_of now c) e.db).0) [
  | inl failed ↦ rw (fire-none s now k c t e failed) (open_alert-faults (alert_of now c) e.db h)
  | inr (i, opened) ↦
      rw (fire-some s now k c t e i opened).1 (open_alert-faults (alert_of now c) e.db h)
]

visit-Healthy :
    (s : Settings) (now : ℕ) (k : Text) (c : Condition) (e : Engine)
    → Healthy e
    → Healthy (visit s now k c e)
unfolding visit
visit-Healthy s now k c e h =
    let t = seen c (lookup k e.tracks) in
    if_holds Healthy (ltb 0 t.alert_id) _ _ h (
      if_holds Healthy (ltb now (time_or t.pending_since now + c.hold_for)) _ _ h (
        if_holds Healthy (too_soon s now t.last_transition) _ _ h
          (fire-Healthy s now k c (waiting now t) e h)))

resolve_alert-faults :
    (i at : ℕ) (db : AlertsDb) → db.faults ≡ [] → (resolve_alert i at db).1.faults ≡ []
unfolding resolve_alert attempt
resolve_alert-faults i at db h = ground arith

resolve-Healthy :
    (s : Settings) (now : ℕ) (k : Text) (t : Track) (e : Engine)
    → Healthy e
    → Healthy (resolve s now k t e)
unfolding set_track
resolve-Healthy s now k t e h = elim (Bool-cases (resolve_alert t.alert_id (unix now) e.db).0) [
  | inl done ↦
      rw (resolve-true s now k t e done).1 (resolve_alert-faults t.alert_id (unix now) e.db h)
  | inr failed ↦
      rw (resolve-false s now k t e failed) (resolve_alert-faults t.alert_id (unix now) e.db h)
]

clear_found-Healthy :
    (s : Settings) (now : ℕ) (k : Text) (o : Option Track) (e : Engine)
    → Healthy e
    → Healthy (clear_found s now k o e)
unfolding clear_found clear_track
clear_found-Healthy s now k none e h = h
clear_found-Healthy s now k (some t) e h = if_holds Healthy (t.alert_id == 0) _ _ h (
    if_holds Healthy (ltb now (time_or t.clear_since now + s.debounce)) _ _ h
      (resolve-Healthy s now k (clearing now t) e h))

pub sweep-Healthy :
    (s : Settings) (now : ℕ) (active : Map Condition) (k : Text) (e : Engine)
    → Healthy e
    → Healthy (sweep s now active k e)
unfolding sweep
sweep-Healthy s now active k e h = elim (Option-cases (lookup k active)) [
  | inl away ↦ rw (away, sweep) (clear_found-Healthy s now k (lookup k e.tracks) e h)
  | inr (c, there) ↦ rw (there, sweep) h
]

pub visit_all-Healthy :
    (s : Settings) (now : ℕ) (m : Map Condition) (e : Engine)
    → Healthy e
    → Healthy (visit_all s now m e)
unfolding visit_all
visit_all-Healthy s now [] e h = h
visit_all-Healthy s now ((k, c) ∷ m) e h =
    visit_all-Healthy s now m (visit s now k c e) (visit-Healthy s now k c e h)

sweep_all-Healthy :
    (s : Settings) (now : ℕ) (active : Map Condition) (m : Map Track) (e : Engine)
    → Healthy e
    → Healthy (sweep_all s now active m e)
unfolding sweep_all
sweep_all-Healthy s now active [] e h = h
sweep_all-Healthy s now active ((k, t) ∷ m) e h =
    sweep_all-Healthy s now active m (sweep s now active k e) (sweep-Healthy s now active k e h)

pub evaluate_at-Healthy :
    (s : Settings) (now : ℕ) (conds : List Condition) (e : Engine)
    → Healthy e
    → Healthy (evaluate_at s now conds e)
unfolding evaluate_at
evaluate_at-Healthy s now conds e h =
    let active = collect conds [] in
    let visited = visit_all s now active e in
    sweep_all-Healthy s now active visited.tracks visited (visit_all-Healthy s now active e h)

-- The first loop treats the track of an active key as one visit does, from an engine that has the
-- same track for it.
pub visit_all-at :
    (s : Settings) (now : ℕ) (k : Text) (c : Condition) (m : Map Condition) (e : Engine)
    → Distinct m
    → lookup k m ≡ some c
    → (e₁ : Engine) × (track_at k e₁ ≡ track_at k e)
      × (track_at k (visit_all s now m e) ≡ track_at k (visit s now k c e₁))
      × (Healthy e → Healthy e₁)
unfolding visit_all lookup
visit_all-at s now k c [] e d h = cc
visit_all-at s now k c ((j, c') ∷ m) e (absent, d) h = elim (Bool-cases (text_eq j k)) [
  | inl same ↦
      let jk = (text_eq_iff j k).0 same in
      let first : c' ≡ c = ground arith in
      (
        e,
        refl,
        visit_all-away s now k m (visit s now j c' e)
              (subst (λ (i : Text). lookup i m ≡ none) jk absent)
            ∙ (λ i. track_at k (visit s now (jk i) (first i) e)),
        λ healthy. healthy,
      )
  | inr other ↦
      let (e₁, before, after, healthy) =
        visit_all-at s now k c m (visit s now j c' e) d (ground arith) in
      (
        e₁,
        before ∙ visit-other k j other s now c' e,
        after,
        λ h'. healthy (visit-Healthy s now j c' e h'),
      )
]

-- The second loop leaves the track of an active key.
pub sweep_all-active :
    (s : Settings) (now : ℕ) (k : Text) (c : Condition) (active : Map Condition) (m : Map Track)
    (e : Engine)
    → lookup k active ≡ some c
    → track_at k (sweep_all s now active m e) ≡ track_at k e
unfolding sweep_all sweep
sweep_all-active s now k c active [] e h = refl
sweep_all-active s now k c active ((j, t) ∷ m) e h =
    sweep_all-active s now k c active m (sweep s now active j e) h
    ∙ elim (Bool-cases (text_eq j k)) [
      | inl same ↦
          let here =
            subst (λ (i : Text). lookup i active ≡ some c) (sym ((text_eq_iff j k).0 same)) h in
          rw (here, sweep)
      | inr other ↦ sweep-other k j other s now active e
    ]

-- Evaluate treats the track of an active key as one visit does.
pub evaluate_at-active :
    (s : Settings) (now : ℕ) (conds : List Condition) (e : Engine) (k : Text) (c : Condition)
    → lookup k (collect conds []) ≡ some c
    → (e₁ : Engine) × (track_at k e₁ ≡ track_at k e)
      × (track_at k (evaluate_at s now conds e) ≡ track_at k (visit s now k c e₁))
      × (Healthy e → Healthy e₁)
unfolding evaluate_at
evaluate_at-active s now conds e k c h =
    let active = collect conds [] in
    let visited = visit_all s now active e in
    let (e₁, before, after, healthy) =
      visit_all-at s now k c active e (collect-Distinct conds [] tt) h in
    (e₁, before, sweep_all-active s now k c active visited.tracks visited h ∙ after, healthy)
