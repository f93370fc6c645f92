-- ===== src/Alerts/Engine/Timing.antt =====
-- internal/alerts/engine.go over many evaluations: an alert opens after its condition has held for
-- its time, and then it does open.
use homelab_dashboard.Prelude.{
  ℕ, ◌+◌, ◌<◌, ◌≤◌, ◌≡◌, refl, ◌⊎◌, inl, inr, Option, none, some, List, [], ◌∷◌, Text, text_eq,
  text_eq_iff, arith, Bool-cases, Option-cases,
}
use homelab_dashboard.Prelude.Assoc.{Map, lookup}
use homelab_dashboard.Alerts.Engine.{
  Condition, Track, Settings, Engine, time_or, visit, clear_found, sweep_all, sweep, collect,
  visit_all, evaluate_at, fired_track,
}
use homelab_dashboard.Alerts.Engine.Effects.{id_in}
use homelab_dashboard.Alerts.Engine.Locality.{
  track_at, sweep-other, visit_all-away, evaluate_at-active,
}
use homelab_dashboard.Alerts.Engine.Visit.{
  Visited, already_firing, held_back, refused, fired, visit-Visited, pending_in, forgotten, kept,
  closed, clear_track-Swept, sweep_away, sweep-pending,
}

-- One call of Evaluate: its time, and the conditions that its rules found.
pub record Turn : Type 0 where
  pub now : ℕ
  pub conds : List Condition

-- The engine after the turns of a history, the newest turn first.
unfoldable pub run : Settings → List Turn → Engine → Engine
run s [] e = e
run s (t ∷ past) e = evaluate_at s t.now t.conds (run s past e)

-- The condition that a turn has for a key.
abbrev pub active_at : Text → Turn → Option Condition
active_at k t = lookup k (collect t.conds [])

-- Every turn of the history from one at the time `p` up to the newest had a condition for the key.
abbrev pub HeldSince : Text → ℕ → List Turn → Type 0
HeldSince k p [] = ⊥
HeldSince k p (t ∷ past) =
    ((c : Condition) × (active_at k t ≡ some c)) × ((t.now ≡ p) ⊎ HeldSince k p past)

module _ (s : Settings) (now : ℕ) (active : Map Condition) (k : Text)
    (away : lookup k active ≡ none) where
  sweep_all-pending_none :
      (m : Map Track) (e : Engine)
      → pending_in (track_at k e) ≡ none
      → pending_in (track_at k (sweep_all s now active m e)) ≡ none
  unfolding sweep_all
  sweep_all-pending_none [] e h = h
  sweep_all-pending_none ((j, t) ∷ m) e h =
      sweep_all-pending_none m (sweep s now active j e) (elim (Bool-cases (text_eq j k)) [
        | inl same ↦ rw ((text_eq_iff j k).0 same) (sweep-pending s now active k e away)
        | inr other ↦ rw (sweep-other k j other s now active e) h
      ])

  sweep_all-pending :
      (m : Map Track) (e : Engine)
      → lookup k m ≡ track_at k e
      → pending_in (track_at k (sweep_all s now active m e)) ≡ none
  unfolding sweep_all lookup
  sweep_all-pending [] e h = rw (← h)
  sweep_all-pending ((j, t) ∷ m) e h = elim (Bool-cases (text_eq j k)) [
    | inl same ↦
        sweep_all-pending_none m (sweep s now active j e)
          (rw ((text_eq_iff j k).0 same) (sweep-pending s now active k e away))
    | inr other ↦
        sweep_all-pending m (sweep s now active j e)
          (ground (arith, sweep-other k j other s now active e))
  ]

  clear_found-id :
      (o : Option Track) (e : Engine)
      → track_at k e ≡ o
      → 0 < id_in (track_at k (clear_found s now k o e))
      → 0 < id_in o
  unfolding clear_found
  clear_found-id none e h live = ground arith
  clear_found-id (some t) e h live = elim (clear_track-Swept s now k t e) [
    | forgotten z gone ↦ ground arith
    | kept id why stays ↦ id
    | closed id late gone ↦ id
  ]

  sweep_all-id :
      (m : Map Track) (e : Engine)
      → 0 < id_in (track_at k (sweep_all s now active m e))
      → 0 < id_in (track_at k e)
  unfolding sweep_all
  sweep_all-id [] e h = h
  sweep_all-id ((j, t) ∷ m) e h =
      let later = sweep_all-id m (sweep s now active j e) h in
      elim (Bool-cases (text_eq j k)) [
        | inl same ↦
            clear_found-id (track_at k e) e refl
              (rw ((text_eq_iff j k).0 same, sweep_away s now active k e away) at later)
        | inr other ↦ rw (sweep-other k j other s now active e) at later
      ]

-- An evaluation without a condition for the key leaves the key no pending time.
evaluate_at-pending_away :
    (s : Settings) (t : Turn) (e : Engine) (k : Text)
    → active_at k t ≡ none
    → pending_in (track_at k (evaluate_at s t.now t.conds e)) ≡ none
unfolding evaluate_at
evaluate_at-pending_away s t e k away =
    let active = collect t.conds [] in
    let visited = visit_all s t.now active e in
    sweep_all-pending s t.now active k away visited.tracks visited refl

-- An evaluation without a condition for the key opens no alert for it.
evaluate_at-id_away :
    (s : Settings) (t : Turn) (e : Engine) (k : Text)
    → active_at k t ≡ none
    → 0 < id_in (track_at k (evaluate_at s t.now t.conds e))
    → 0 < id_in (track_at k e)
unfolding evaluate_at
evaluate_at-id_away s t e k away live =
    let active = collect t.conds [] in
    let visited = visit_all s t.now active e in
    rw (visit_all-away s t.now k active e away) at
      (sweep_all-id s t.now active k away visited.tracks visited live)

Visited-pending :
    {s : Settings} {now : ℕ} {c : Condition} {e : Engine} (o after : Option Track) (p : ℕ)
    → Visited s now c e o after
    → pending_in after ≡ some p
    → time_or (pending_in o) now ≡ p
unfolding fired_track
Visited-pending o after p (already_firing live a) h = ground arith
Visited-pending o after p (held_back dead why a) h = ground arith
Visited-pending o after p (refused dead failed a) h = ground arith
Visited-pending o after p (fired i dead held clear next a) h = ground arith

Visited-opens :
    {s : Settings} {now : ℕ} {c : Condition} {e : Engine} (o after : Option Track)
    → Visited s now c e o after
    → id_in o ≡ 0
    → 0 < id_in after
    → time_or (pending_in o) now + c.hold_for ≤ now
Visited-opens o after (already_firing live a) z h = ground arith
Visited-opens o after (held_back dead why a) z h = ground arith
Visited-opens o after (refused dead failed a) z h = ground arith
Visited-opens o after (fired i dead held clear next a) z h = ground arith

-- The time at which an unfired condition began is the time since which it held without a break.
pending_since_held :
    (s : Settings) (past : List Turn) (start : Engine) (k : Text) (p : ℕ)
    → ((j : Text) → pending_in (track_at j start) ≡ none)
    → pending_in (track_at k (run s past start)) ≡ some p
    → HeldSince k p past
unfolding run
pending_since_held s [] start k p clean h = cc (clean k)
pending_since_held s (t ∷ past) start k p clean h =
    let e = run s past start in
    elim (Option-cases (active_at k t)) [
      | inl away ↦ absurd (cc (evaluate_at-pending_away s t e k away))
      | inr (c, here) ↦
          let (e₁, before, after, _) = evaluate_at-active s t.now t.conds e k c here in
          let began =
            Visited-pending (track_at k e₁) (track_at k (visit s t.now k c e₁)) p
              (visit-Visited s t.now k c e₁) (rw (← after) h) in
          (
            (c, here),
            elim (Option-cases (pending_in (track_at k e))) [
              | inl new ↦ inl (ground arith)
              | inr (q, old) ↦ inr (pending_since_held s past start k p clean (ground arith))
            ],
          )
    ]

-- An alert opens only after its condition has held. If the key has no alert after a history that
-- started with no pending times, and has one after one more turn, then that turn has a condition for
-- the key, and every turn since some time `p` had one, with `p` at least the hold time before now.
pub opens_after_hold :
    (s : Settings) (past : List Turn) (t : Turn) (start : Engine) (k : Text)
    → ((j : Text) → pending_in (track_at j start) ≡ none)
    → id_in (track_at k (run s past start)) ≡ 0
    → 0 < id_in (track_at k (run s (t ∷ past) start))
    → (c : Condition) × (p : ℕ) × (active_at k t ≡ some c)
      × HeldSince k p (t ∷ past)
      × (p + c.hold_for ≤ t.now)
unfolding run
opens_after_hold s past t start k clean shut opened =
    let e = run s past start in
    elim (Option-cases (active_at k t)) [
      | inl away ↦ absurd (omega (arith, evaluate_at-id_away s t e k away opened))
      | inr (c, here) ↦
          let (e₁, before, after, _) = evaluate_at-active s t.now t.conds e k c here in
          let late =
            Visited-opens (track_at k e₁) (track_at k (visit s t.now k c e₁))
              (visit-Visited s t.now k c e₁) (rw before shut) (rw (← after) opened) in
          elim (Option-cases (pending_in (track_at k e))) [
            | inl new ↦ (c, t.now, here, ((c, here), inl refl), ground arith)
            | inr (q, old) ↦ (
              c,
              q,
              here,
              ((c, here), inr (pending_since_held s past start k q clean old)),
              ground arith,
            )
          ]
    ]
