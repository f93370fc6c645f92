-- ===== src/Alerts/Engine/Reopening.antt =====
-- internal/alerts/engine.go: the test of lastTransition in Evaluate never holds an alert back.
use homelab_dashboard.Prelude.{
  ℕ, ◌≡◌, inl, inr, false, Option, none, some, List, [], ◌∷◌, Text, arith, Option-cases,
}
use homelab_dashboard.Alerts.Engine.{
  Condition, Track, Settings, Engine, too_soon, fired_track, visit,
}
use homelab_dashboard.Alerts.Engine.Effects.{id_in}
use homelab_dashboard.Alerts.Engine.Locality.{track_at, evaluate_at-active}
use homelab_dashboard.Alerts.Engine.Visit.{
  Visited, already_firing, held_back, refused, fired, visit-Visited,
}
use homelab_dashboard.Alerts.Engine.Timing.{Turn, run, active_at}
use homelab_dashboard.Alerts.Engine.Closing.{Cleared, same, waits, gone, evaluate_at-Cleared}

abbrev pub last_in : Option Track → Option ℕ
last_in none = none
last_in (some t) = t.last_transition

-- A track with no alert has no last transition.
abbrev pub NeverFired : Option Track → Type 0
NeverFired o = id_in o ≡ 0 → last_in o ≡ none

Visited-NeverFired :
    {s : Settings} {now : ℕ} {c : Condition} {e : Engine} (o after : Option Track)
    → Visited s now c e o after
    → NeverFired o
    → NeverFired after
unfolding fired_track
Visited-NeverFired o after (already_firing live a) h = λ z. ground arith
Visited-NeverFired o after (held_back dead why a) h = λ z. ground arith
Visited-NeverFired o after (refused dead failed a) h = λ z. ground arith
Visited-NeverFired o after (fired i dead held clear next a) h = λ z. ground arith

Cleared-NeverFired :
    {s : Settings} {now : ℕ} (o after : Option Track)
    → Cleared s now o after
    → NeverFired o
    → NeverFired after
Cleared-NeverFired o after (same a) h = λ z. ground arith
Cleared-NeverFired o after (waits t q live a) h = λ z. ground arith
Cleared-NeverFired o after (gone late a) h = λ z. ground arith

run-NeverFired :
    (s : Settings) (past : List Turn) (start : Engine) (k : Text)
    → NeverFired (track_at k start)
    → NeverFired (track_at k (run s past start))
unfolding run
run-NeverFired s [] start k h = h
run-NeverFired s (t ∷ past) start k h =
    let e = run s past start in
    let before = run-NeverFired s past start k h in
    elim (Option-cases (active_at k t)) [
      | inr (c, here) ↦
          let (e₁, same_track, after, _) = evaluate_at-active s t.now t.conds e k c here in
          rw after (
            Visited-NeverFired (track_at k e₁) (track_at k (visit s t.now k c e₁))
              (visit-Visited s t.now k c e₁) (rw same_track before))
      | inl away ↦ Cleared-NeverFired (track_at k e) _ (evaluate_at-Cleared s t e k away) before
    ]

-- Whenever a key has no alert, the debounce on its last transition does not hold it back: after any
-- history from an engine whose tracks without an alert have no last transition, the test passes at
-- every time, whatever the debounce is.
pub debounce_never_delays :
    (s : Settings) (past : List Turn) (start : Engine) (k : Text) (now : ℕ)
    → NeverFired (track_at k start)
    → id_in (track_at k (run s past start)) ≡ 0
    → too_soon s now (last_in (track_at k (run s past start))) ≡ false
unfolding too_soon
debounce_never_delays s past start k now h shut =
    ground (arith, run-NeverFired s past start k h shut)
