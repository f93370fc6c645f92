-- ===== src/Alerts/Engine/Opening.antt =====
-- internal/alerts/engine.go: while the table works, a condition that has held for its time opens an
-- alert at the next call of Evaluate.
use homelab_dashboard.Prelude.{
  ℕ, ◌+◌, ◌<◌, ◌≤◌, ◌≡◌, ◌∙◌, ◌⊎◌, inl, inr, Option, none, some, List, [], ◌∷◌, Text, arith,
}
use homelab_dashboard.Store.Alerts.{AlertRecord, AlertsDb, attempt, open_alert}
use homelab_dashboard.Alerts.Engine.{
  Condition, Track, Settings, Engine, alert_of, too_soon, fired_track,
}
use homelab_dashboard.Alerts.Engine.Effects.{id_in}
use homelab_dashboard.Alerts.Engine.Locality.{
  track_at, Healthy, evaluate_at-Healthy, evaluate_at-active,
}
use homelab_dashboard.Alerts.Engine.Visit.{
  Visited, already_firing, held_back, refused, fired, visit-Visited, pending_in,
}
use homelab_dashboard.Alerts.Engine.Timing.{Turn, run, active_at}

abbrev last_in : Option Track → Option ℕ
last_in none = none
last_in (some t) = t.last_transition

-- The key's alert is open, or its track waits since the time `p` and has never fired.
abbrev WaitsSince : ℕ → Option Track → Type 0
WaitsSince p o = (0 < id_in o) ⊎ ((pending_in o ≡ some p) × (last_in o ≡ none))

-- Every turn of the block had a condition for the key, and the oldest was at the time `p`.
abbrev pub HeldThrough : Text → ℕ → List Turn → Type 0
HeldThrough k p [] = ⊥
HeldThrough k p (t ∷ []) = ((c : Condition) × (active_at k t ≡ some c)) × (t.now ≡ p)
HeldThrough k p (t ∷ u ∷ past) =
    ((c : Condition) × (active_at k t ≡ some c)) × HeldThrough k p (u ∷ past)

open_alert_works :
    (a : AlertRecord) (db : AlertsDb) → db.faults ≡ [] → (open_alert a db).0 ≡ none → ⊥
unfolding open_alert attempt
open_alert_works a db h n = ground arith

Visited-starts :
    {s : Settings} {now : ℕ} {c : Condition} {e : Engine} (o after : Option Track)
    → Visited s now c e o after
    → o ≡ none
    → WaitsSince now after
unfolding fired_track
Visited-starts o after (already_firing live a) z = ground arith
Visited-starts o after (held_back dead why a) z = inr (ground arith, ground arith)
Visited-starts o after (refused dead failed a) z = inr (ground arith, ground arith)
Visited-starts o after (fired i dead held clear next a) z = inl (ground arith)

Visited-waits :
    {s : Settings} {now : ℕ} {c : Condition} {e : Engine} (o after : Option Track) (p : ℕ)
    → Visited s now c e o after
    → WaitsSince p o
    → WaitsSince p after
unfolding fired_track
Visited-waits o after p (already_firing live a) w = inl (ground arith)
Visited-waits o after p (held_back dead why a) w = inr (ground arith, ground arith)
Visited-waits o after p (refused dead failed a) w = inr (ground arith, ground arith)
Visited-waits o after p (fired i dead held clear next a) w = inl (ground arith)

Visited-fires :
    {s : Settings} {now : ℕ} {c : Condition} {e : Engine} (o after : Option Track) (p : ℕ)
    → Visited s now c e o after
    → Healthy e
    → WaitsSince p o
    → p + c.hold_for ≤ now
    → 0 < id_in after
unfolding fired_track too_soon
Visited-fires o after p (already_firing live a) h w late = ground arith
Visited-fires o after p (held_back dead why a) h w late = ground arith
Visited-fires {now = now} {c = c} {e = e} o after p (refused dead failed a) h w late =
    absurd (open_alert_works (alert_of now c) e.db h failed)
Visited-fires o after p (fired i dead held clear next a) h w late = ground arith

pub run-Healthy :
    (s : Settings) (past : List Turn) (e : Engine) → Healthy e → Healthy (run s past e)
unfolding run
run-Healthy s [] e h = h
run-Healthy s (t ∷ past) e h =
    evaluate_at-Healthy s t.now t.conds (run s past e) (run-Healthy s past e h)

run-waits :
    (s : Settings) (block : List Turn) (e : Engine) (k : Text) (p : ℕ)
    → track_at k e ≡ none
    → HeldThrough k p block
    → WaitsSince p (track_at k (run s block e))
unfolding run
run-waits s [] e k p new h = absurd h
run-waits s (t ∷ []) e k p new ((c, here), first) =
    let (e₁, before, after, _) = evaluate_at-active s t.now t.conds e k c here in
    rw (after, ← first)
      (Visited-starts (track_at k e₁) _ (visit-Visited s t.now k c e₁) (before ∙ new))
run-waits s (t ∷ u ∷ past) e k p new ((c, here), rest) =
    let e' = run s (u ∷ past) e in
    let (e₁, before, after, _) = evaluate_at-active s t.now t.conds e' k c here in
    rw after (
      Visited-waits (track_at k e₁) _ p (visit-Visited s t.now k c e₁)
        (rw before (run-waits s (u ∷ past) e k p new rest)))

-- A condition that lasts opens an alert. If the key has no track, then every turn of a block has a
-- condition for it, the first at the time `p`, and no statement fails, then one more turn with a
-- condition whose hold time has passed since `p` leaves the key with an open alert.
pub held_opens :
    (s : Settings) (block : List Turn) (t : Turn) (e : Engine) (k : Text) (p : ℕ) (c : Condition)
    → Healthy e
    → track_at k e ≡ none
    → HeldThrough k p block
    → active_at k t ≡ some c
    → p + c.hold_for ≤ t.now
    → 0 < id_in (track_at k (run s (t ∷ block) e))
unfolding run
held_opens s block t e k p c healthy new held here late =
    let e' = run s block e in
    let (e₁, before, after, works) = evaluate_at-active s t.now t.conds e' k c here in
    rw after (
      Visited-fires (track_at k e₁) _ p (visit-Visited s t.now k c e₁)
        (works (run-Healthy s block e healthy)) (rw before (run-waits s block e k p new held)) late)
