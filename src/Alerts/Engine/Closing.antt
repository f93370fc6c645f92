-- ===== src/Alerts/Engine/Closing.antt =====
-- internal/alerts/engine.go over many evaluations: an alert closes after its condition has been away
-- for the debounce time, and then, while the table works, it does close.
use homelab_dashboard.Prelude.{
  ℕ, ◌+◌, ◌<◌, ◌≤◌, ◌≡◌, refl, sym, ◌⊎◌, inl, inr, Option, none, some, List, [], ◌∷◌, Text, text_eq,
  text_eq_iff, arith, Bool-cases, Option-cases,
}
use homelab_dashboard.Prelude.Assoc.{Map, lookup}
use homelab_dashboard.Alerts.Engine.{
  Condition, Track, Settings, Engine, time_or, clearing, clear_found, sweep, sweep_all, collect,
  fired_track, visit, visit_all, evaluate_at,
}
use homelab_dashboard.Alerts.Engine.Effects.{id_in}
use homelab_dashboard.Alerts.Engine.Locality.{
  track_at, evaluate_at-active, sweep-other, visit_all-away,
}
use homelab_dashboard.Alerts.Engine.Visit.{
  Visited, already_firing, held_back, refused, fired, visit-Visited, forgotten, kept, closed,
  clear_track-Swept, sweep_away,
}
use homelab_dashboard.Alerts.Engine.Timing.{Turn, run, active_at}

abbrev pub clear_in : Option Track → Option ℕ
clear_in none = none
clear_in (some t) = t.clear_since

-- What the second loop has done so far to a key that is not active, from its track `o`.
pub data Cleared (s : Settings) (now : ℕ) (o after : Option Track) : Type 0 where
  same : after ≡ o → Cleared s now o after
  waits :
      (t : Track)
      → o ≡ some t
      → 0 < t.alert_id
      → after ≡ some (clearing now t)
      → Cleared s now o after
  gone :
      (0 < id_in o → time_or (clear_in o) now + s.debounce ≤ now)
      → after ≡ none
      → Cleared s now o after

module _ (s : Settings) (now : ℕ) (k : Text) where
  clear_found-Cleared :
      (o m : Option Track) (e : Engine)
      → track_at k e ≡ m
      → Cleared s now o m
      → Cleared s now o (track_at k (clear_found s now k m e))
  unfolding clear_found
  clear_found-Cleared o none e h c = rw h c
  clear_found-Cleared o (some t) e h (same p) = elim (clear_track-Swept s now k t e) [
    | forgotten z a ↦ gone (ground arith) a
    | kept live why a ↦ waits t (sym p) live a
    | closed live late a ↦ gone (ground arith) a
  ]
  clear_found-Cleared o (some t) e h (waits u p l q) = elim (clear_track-Swept s now k t e) [
    | forgotten z a ↦ gone (ground arith) a
    | kept live why a ↦ waits u p l (ground arith)
    | closed live late a ↦ gone (ground arith) a
  ]
  clear_found-Cleared o (some t) e h (gone late q) = absurd (cc)

  module _ (active : Map Condition) (away : lookup k active ≡ none) where
    sweep-Cleared :
        (o : Option Track) (j : Text) (e : Engine)
        → Cleared s now o (track_at k e)
        → Cleared s now o (track_at k (sweep s now active j e))
    sweep-Cleared o j e c = elim (Bool-cases (text_eq j k)) [
      | inl hit ↦
          rw ((text_eq_iff j k).0 hit, sweep_away s now active k e away)
            (clear_found-Cleared o (track_at k e) e refl c)
      | inr other ↦ rw (sweep-other k j other s now active e) c
    ]

    pub sweep_all-Cleared :
        (o : Option Track) (m : Map Track) (e : Engine)
        → Cleared s now o (track_at k e)
        → Cleared s now o (track_at k (sweep_all s now active m e))
    unfolding sweep_all
    sweep_all-Cleared o [] e c = c
    sweep_all-Cleared o ((j, t) ∷ m) e c =
        sweep_all-Cleared o m (sweep s now active j e) (sweep-Cleared o j e c)

pub evaluate_at-Cleared :
    (s : Settings) (t : Turn) (e : Engine) (k : Text)
    → active_at k t ≡ none
    → Cleared s t.now (track_at k e) (track_at k (evaluate_at s t.now t.conds e))
unfolding evaluate_at
evaluate_at-Cleared s t e k away =
    let active = collect t.conds [] in
    let visited = visit_all s t.now active e in
    sweep_all-Cleared s t.now k active away (track_at k e) visited.tracks visited
      (same (visit_all-away s t.now k active e away))

-- Every turn of the history from one at the time `p` up to the newest had no condition for the key.
abbrev pub AwaySince : Text → ℕ → List Turn → Type 0
AwaySince k p [] = ⊥
AwaySince k p (t ∷ past) = (active_at k t ≡ none) × ((t.now ≡ p) ⊎ AwaySince k p past)

Visited-clear :
    {s : Settings} {now : ℕ} {c : Condition} {e : Engine} (o after : Option Track)
    → Visited s now c e o after
    → (clear_in after ≡ none) × (0 < id_in o → 0 < id_in after)
unfolding fired_track
Visited-clear o after (already_firing live a) = (ground arith, λ was. ground arith)
Visited-clear o after (held_back dead why a) = (ground arith, λ was. ground arith)
Visited-clear o after (refused dead failed a) = (ground arith, λ was. ground arith)
Visited-clear o after (fired i dead held clear next a) = (ground arith, λ was. ground arith)

Cleared-clear :
    {s : Settings} {now : ℕ} (o after : Option Track) (p : ℕ)
    → Cleared s now o after
    → clear_in after ≡ some p
    → time_or (clear_in o) now ≡ p
Cleared-clear o after p (same a) h = ground arith
Cleared-clear o after p (waits t q live a) h = ground arith
Cleared-clear o after p (gone late a) h = ground arith

-- The time since which a track is clear is one since which its condition was away without a break.
clear_since_away :
    (s : Settings) (past : List Turn) (start : Engine) (k : Text) (p : ℕ)
    → ((j : Text) → clear_in (track_at j start) ≡ none)
    → clear_in (track_at k (run s past start)) ≡ some p
    → AwaySince k p past
unfolding run
clear_since_away s [] start k p clean h = cc (clean k)
clear_since_away s (t ∷ past) start k p clean h =
    let e = run s past start in
    elim (Option-cases (active_at k t)) [
      | inr (c, here) ↦
          let (e₁, before, after, _) = evaluate_at-active s t.now t.conds e k c here in
          let none_left =
            (Visited-clear (track_at k e₁) (track_at k (visit s t.now k c e₁))
              (visit-Visited s t.now k c e₁)).0 in
          absurd (cc)
      | inl away ↦
          let began =
            Cleared-clear (track_at k e) (track_at k (evaluate_at s t.now t.conds e)) p
              (evaluate_at-Cleared s t e k away) h in
          (
            away,
            elim (Option-cases (clear_in (track_at k e))) [
              | inl new ↦ inl (ground arith)
              | inr (q, old) ↦ inr (clear_since_away s past start k p clean (ground arith))
            ],
          )
    ]

Cleared-closes :
    {s : Settings} {now : ℕ} (o after : Option Track)
    → Cleared s now o after
    → 0 < id_in o
    → id_in after ≡ 0
    → time_or (clear_in o) now + s.debounce ≤ now
Cleared-closes o after (same a) live z = ground arith
Cleared-closes o after (waits t q l a) live z = ground arith
Cleared-closes o after (gone late a) live z = late live

-- An alert closes only after its condition has been away. If the key has an alert after a history
-- that started with no clear times, and has none after one more turn, then that turn has no condition
-- for the key, and no turn since some time `p` had one, with `p` at least the debounce time before now.
pub closes_after_debounce :
    (s : Settings) (past : List Turn) (t : Turn) (start : Engine) (k : Text)
    → ((j : Text) → clear_in (track_at j start) ≡ none)
    → 0 < id_in (track_at k (run s past start))
    → id_in (track_at k (run s (t ∷ past) start)) ≡ 0
    → (p : ℕ) × AwaySince k p (t ∷ past) × (p + s.debounce ≤ t.now)
unfolding run
closes_after_debounce s past t start k clean live shut =
    let e = run s past start in
    elim (Option-cases (active_at k t)) [
      | inr (c, here) ↦
          let (e₁, before, after, _) = evaluate_at-active s t.now t.conds e k c here in
          let still =
            (Visited-clear (track_at k e₁) (track_at k (visit s t.now k c e₁))
                (visit-Visited s t.now k c e₁)).1
              (rw before live) in
          absurd (omega (arith, rw (← after) at still))
      | inl away ↦
          let late =
            Cleared-closes (track_at k e) (track_at k (evaluate_at s t.now t.conds e))
              (evaluate_at-Cleared s t e k away) live shut in
          elim (Option-cases (clear_in (track_at k e))) [
            | inl new ↦ (t.now, (away, inl refl), ground arith)
            | inr (q, old) ↦
                (q, (away, inr (clear_since_away s past start k q clean old)), ground arith)
          ]
    ]
