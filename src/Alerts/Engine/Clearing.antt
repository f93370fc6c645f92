-- ===== src/Alerts/Engine/Clearing.antt =====
-- internal/alerts/engine.go: while the table works, an alert whose condition has been away for the
-- debounce time is closed by the next call of Evaluate, and its track is gone.
use homelab_dashboard.Prelude.{
  ℕ, ◌+◌, ◌<◌, ◌≤◌, ◌≡◌, refl, ◌∙◌, ◌⊎◌, inl, inr, false, Option, none, some, List, [], ◌∷◌, Text,
  text_eq, text_eq_iff, arith, Bool-cases, subst,
}
use homelab_dashboard.Prelude.Assoc.{Map, lookup}
use homelab_dashboard.Store.Alerts.{AlertsDb, attempt, resolve_alert}
use homelab_dashboard.Alerts.Engine.{
  Condition, Track, Settings, Engine, unix, time_or, clearing, clear_found, sweep, sweep_all,
  collect, visit_all, evaluate_at,
}
use homelab_dashboard.Alerts.Engine.Locality.{
  track_at, Healthy, sweep-other, sweep-Healthy, visit_all-away, visit_all-Healthy,
}
use homelab_dashboard.Alerts.Engine.Visit.{forgotten, kept, closed, clear_track-Swept, sweep_away}
use homelab_dashboard.Alerts.Engine.Timing.{Turn, run, active_at}
use homelab_dashboard.Alerts.Engine.Opening.{run-Healthy}
use homelab_dashboard.Alerts.Engine.Closing.{
  Cleared, same, waits, gone, sweep_all-Cleared, evaluate_at-Cleared,
}

-- No turn of the block had a condition for the key, and the oldest was at the time `p`.
abbrev pub AwayThrough : Text → ℕ → List Turn → Type 0
AwayThrough k p [] = ⊥
AwayThrough k p (t ∷ []) = (active_at k t ≡ none) × (t.now ≡ p)
AwayThrough k p (t ∷ u ∷ past) = (active_at k t ≡ none) × AwayThrough k p (u ∷ past)

resolve_alert_works :
    (i at : ℕ) (db : AlertsDb) → db.faults ≡ [] → (resolve_alert i at db).0 ≡ false → ⊥
unfolding resolve_alert attempt
resolve_alert_works i at db h n = ground arith

Cleared-none :
    {s : Settings} {now : ℕ} (after : Option Track) → Cleared s now none after → after ≡ none
Cleared-none after (same a) = a
Cleared-none after (waits t q live a) = cc
Cleared-none after (gone late a) = a

module _ (s : Settings) (now : ℕ) (k : Text) (active : Map Condition)
    (away : lookup k active ≡ none) where
  clear_found-closes :
      (t : Track) (e : Engine)
      → Healthy e
      → 0 < t.alert_id
      → time_or t.clear_since now + s.debounce ≤ now
      → track_at k (clear_found s now k (some t) e) ≡ none
  unfolding clear_found
  clear_found-closes t e h live late = elim (clear_track-Swept s now k t e) [
    | forgotten z a ↦ a
    | kept _ (inl early) a ↦ absurd (omega arith)
    | kept _ (inr failed) a ↦ absurd (resolve_alert_works t.alert_id (unix now) e.db h failed)
    | closed _ _ a ↦ a
  ]

  sweep_all-closes :
      (t u : Track) (m : Map Track) (e : Engine)
      → Healthy e
      → 0 < t.alert_id
      → time_or t.clear_since now + s.debounce ≤ now
      → track_at k e ≡ some t
      → lookup k m ≡ some u
      → track_at k (sweep_all s now active m e) ≡ none
  unfolding sweep_all lookup
  sweep_all-closes t u [] e h live late here hit = cc
  sweep_all-closes t u ((j, v) ∷ m) e h live late here hit =
      let e' = sweep s now active j e in
      elim (Bool-cases (text_eq j k)) [
        | inl found ↦
            let closes : track_at k e' ≡ none =
              rw ((text_eq_iff j k).0 found, sweep_away s now active k e away, here)
                (clear_found-closes t e h live late) in
            Cleared-none _ (sweep_all-Cleared s now k active away none m e' (same closes))
        | inr other ↦
            sweep_all-closes t u m e' (sweep-Healthy s now active j e h) live late
              (sweep-other k j other s now active e ∙ here) (ground arith)
      ]

evaluate_at-closes :
    (s : Settings) (t : Turn) (e : Engine) (k : Text) (u : Track)
    → Healthy e
    → active_at k t ≡ none
    → track_at k e ≡ some u
    → 0 < u.alert_id
    → time_or u.clear_since t.now + s.debounce ≤ t.now
    → track_at k (evaluate_at s t.now t.conds e) ≡ none
unfolding evaluate_at
evaluate_at-closes s t e k u h away here live late =
    let active = collect t.conds [] in
    let visited = visit_all s t.now active e in
    let still = visit_all-away s t.now k active e away ∙ here in
    sweep_all-closes s t.now k active away u u visited.tracks visited
      (visit_all-Healthy s t.now active e h) live late still still

-- The track is gone, or its alert waits since the time `p` to be closed.
abbrev ClearSince : ℕ → Option Track → Type 0
ClearSince p o =
    (o ≡ none) ⊎ ((u : Track) × (o ≡ some u) × (0 < u.alert_id) × (u.clear_since ≡ some p))

Cleared-ClearSince :
    {s : Settings} {now : ℕ} (p : ℕ) (o after : Option Track)
    → Cleared s now o after
    → ClearSince p o
    → ClearSince p after
Cleared-ClearSince p o after c (inl z) = inl (Cleared-none after (rw z at c))
Cleared-ClearSince p o after (same a) (inr w) = rw a (inr w)
Cleared-ClearSince {now = now} p o after (waits t q live a) (inr (u, here, l, since)) =
    inr (clearing now t, a, live, ground arith)
Cleared-ClearSince p o after (gone late a) (inr w) = inl a

module _ (s : Settings) (now : ℕ) (k : Text) (active : Map Condition)
    (away : lookup k active ≡ none) where
  clear_found-marks :
      (t : Track) (e : Engine)
      → 0 < t.alert_id
      → ClearSince (time_or t.clear_since now) (track_at k (clear_found s now k (some t) e))
  unfolding clear_found
  clear_found-marks t e live = elim (clear_track-Swept s now k t e) [
    | forgotten z a ↦ inl a
    | kept l why a ↦ inr (clearing now t, a, live, refl)
    | closed l late a ↦ inl a
  ]

  sweep_all-marks :
      (t u : Track) (m : Map Track) (e : Engine)
      → 0 < t.alert_id
      → track_at k e ≡ some t
      → lookup k m ≡ some u
      → ClearSince (time_or t.clear_since now) (track_at k (sweep_all s now active m e))
  unfolding sweep_all lookup
  sweep_all-marks t u [] e live here hit = absurd (cc)
  sweep_all-marks t u ((j, v) ∷ m) e live here hit =
      let e' = sweep s now active j e in
      elim (Bool-cases (text_eq j k)) [
        | inl found ↦
            let marked : ClearSince (time_or t.clear_since now) (track_at k e') =
              rw ((text_eq_iff j k).0 found, sweep_away s now active k e away, here)
                (clear_found-marks t e live) in
            Cleared-ClearSince _ (track_at k e') _
              (sweep_all-Cleared s now k active away (track_at k e') m e' (same refl)) marked
        | inr other ↦
            sweep_all-marks t u m e' live (sweep-other k j other s now active e ∙ here)
              (ground arith)
      ]

evaluate_at-marks :
    (s : Settings) (t : Turn) (e : Engine) (k : Text) (u : Track)
    → active_at k t ≡ none
    → track_at k e ≡ some u
    → 0 < u.alert_id
    → ClearSince (time_or u.clear_since t.now) (track_at k (evaluate_at s t.now t.conds e))
unfolding evaluate_at
evaluate_at-marks s t e k u away here live =
    let active = collect t.conds [] in
    let visited = visit_all s t.now active e in
    let still = visit_all-away s t.now k active e away ∙ here in
    sweep_all-marks s t.now k active away u u visited.tracks visited live still still

run-ClearSince :
    (s : Settings) (block : List Turn) (e : Engine) (k : Text) (p : ℕ) (u : Track)
    → track_at k e ≡ some u
    → 0 < u.alert_id
    → u.clear_since ≡ none
    → AwayThrough k p block
    → ClearSince p (track_at k (run s block e))
unfolding run
run-ClearSince s [] e k p u here live fresh h = absurd h
run-ClearSince s (t ∷ []) e k p u here live fresh (away, first) =
    subst (λ (q : ℕ). ClearSince q (track_at k (evaluate_at s t.now t.conds e))) (ground arith)
      (evaluate_at-marks s t e k u away here live)
run-ClearSince s (t ∷ v ∷ past) e k p u here live fresh (away, rest) =
    let e' = run s (v ∷ past) e in
    Cleared-ClearSince p (track_at k e') _ (evaluate_at-Cleared s t e' k away)
      (run-ClearSince s (v ∷ past) e k p u here live fresh rest)

-- A condition that stays away closes its alert. If the key's track has an open alert that is not yet
-- clear, no turn of a block has a condition for the key, the first turn is at the time `p`, and no
-- statement fails, then one more turn without a condition, the debounce time after `p` or later,
-- leaves the key no track.
pub away_closes :
    (s : Settings) (block : List Turn) (t : Turn) (e : Engine) (k : Text) (p : ℕ) (u : Track)
    → Healthy e
    → track_at k e ≡ some u
    → 0 < u.alert_id
    → u.clear_since ≡ none
    → AwayThrough k p block
    → active_at k t ≡ none
    → p + s.debounce ≤ t.now
    → track_at k (run s (t ∷ block) e) ≡ none
unfolding run
away_closes s block t e k p u healthy here live fresh held away late =
    let e' = run s block e in
    elim (run-ClearSince s block e k p u here live fresh held) [
      | inl z ↦ Cleared-none _ (rw z at (evaluate_at-Cleared s t e' k away))
      | inr (v, there, l, since) ↦
          evaluate_at-closes s t e' k v (run-Healthy s block e healthy) away there l (rw since late)
    ]
