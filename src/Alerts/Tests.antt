-- ===== src/Alerts/Tests.antt =====
-- Runs of the alert engine on concrete turns, and the theorems at them.
use homelab_dashboard.Prelude.{
  ℕ, zero, suc, ◌+◌, ◌<◌, ◌≤◌, ◌≡◌, refl, true, false, none, some, List, [], ◌∷◌, Text, codes,
  text_eq, arith, All,
}
use homelab_dashboard.Prelude.Assoc.{lookup, insert, delete}
use homelab_dashboard.Store.Alerts.{
  critical, AlertRecord, attempt, open_alert, resolve_alert, resolve_row, firing_alerts,
}
use homelab_dashboard.Store.Alerts.Rows.{find_row, firing_key, opened_row}
use homelab_dashboard.Alerts.Format.{key, escape}
use homelab_dashboard.Alerts.Format.Escape.{NoBar, NoAngle, escape_safe}
use homelab_dashboard.Alerts.Engine.{
  Condition, Track, Notification, Settings, Engine, evaluate_at, visit_all, visit, fire, enqueue,
  set_track, collect, sweep_all, sweep, clear_track, resolve, alert_of, too_soon, restore,
  new_track,
}
use homelab_dashboard.Alerts.Engine.Effects.{id_at, id_in}
use homelab_dashboard.Alerts.Engine.Locality.{track_at}
use homelab_dashboard.Alerts.Engine.Consistency.{Consistent, evaluate_at-Consistent}
use homelab_dashboard.Alerts.Engine.Timing.{Turn, run, active_at, HeldSince, opens_after_hold}
use homelab_dashboard.Alerts.Engine.Opening.{held_opens}
use homelab_dashboard.Alerts.Engine.Closing.{AwaySince, closes_after_debounce}
use homelab_dashboard.Alerts.Engine.Clearing.{away_closes}
use homelab_dashboard.Alerts.Engine.Reopening.{debounce_never_delays, last_in}
use homelab_dashboard.Alerts.Engine.Restore.{restarted, restore_keeps_alerts}
use homelab_dashboard.Alerts.Deliver.{Attempt, sent, refused}

abbrev settings : Settings
settings = record { debounce = 10; has_notifier = true; stamp = λ t. [] }

abbrev start : Engine
start = record {
  tracks = [];
  queue = [];
  published = [];
  db = record { rows = []; last_id = 0; faults = [] };
}

abbrev down : Condition
down = record {
  rule = codes "r";
  target = codes "t";
  target_name = codes "n";
  severity = critical;
  message = codes "m";
  hold_for = 5;
}

abbrev k : Text
k = codes "r|t"

abbrev seen_at : ℕ → Turn
seen_at now = record { now = now; conds = down ∷ [] }

abbrev quiet_at : ℕ → Turn
quiet_at now = record { now = now; conds = [] }

start-Consistent : Consistent start
unfolding find_row firing_key id_at lookup
start-Consistent = record {
  numbered = record { findable = tt; fresh = λ i lt. refl; no_zero = refl };
  backed = λ j live. absurd (omega arith);
  tracked = λ i j h. cc;
}

evaluate_at-Consistent_example : Consistent (evaluate_at settings 3 (down ∷ []) start)
evaluate_at-Consistent_example =
    evaluate_at-Consistent settings 3 (down ∷ []) start start-Consistent

-- The alert that the turns at 3 and 8 open.
abbrev opened : List Turn
opened = seen_at 8 ∷ seen_at 3 ∷ []

opened_id : id_in (track_at k (run settings opened start)) ≡ 1
unfolding run evaluate_at visit_all visit fire enqueue collect sweep_all sweep text_eq key lookup
    insert attempt open_alert too_soon set_track alert_of
opened_id = refl

-- What a run of turns unfolds.
run_opens : ℕ
unfolding run evaluate_at visit_all visit fire enqueue collect sweep_all sweep clear_track resolve
    text_eq key lookup insert delete attempt open_alert resolve_alert resolve_row too_soon set_track
    alert_of find_row firing_key id_at
run_opens = 0

opens_after_hold_example :
    (c : Condition) × (p : ℕ) × (active_at k (seen_at 8) ≡ some c)
    × HeldSince k p opened
    × (p + c.hold_for ≤ 8)
unfolding run_opens
opens_after_hold_example =
    opens_after_hold settings (seen_at 3 ∷ []) (seen_at 8) start k (λ j. refl) refl (omega arith)

held_opens_example : 0 < id_in (track_at k (run settings opened start))
unfolding run_opens
held_opens_example =
    held_opens settings (seen_at 3 ∷ []) (seen_at 8) start k 3 down refl refl ((down, refl), refl)
      refl (omega arith)

closes_after_debounce_example :
    (p : ℕ) × AwaySince k p (quiet_at 30 ∷ quiet_at 20 ∷ opened) × (p + 10 ≤ 30)
unfolding run_opens
closes_after_debounce_example =
    closes_after_debounce settings (quiet_at 20 ∷ opened) (quiet_at 30) start k (λ j. refl)
      (omega arith) refl

abbrev open_track : Track
open_track = record new_track {
  alert_id = 1;
  last_transition = some 8;
  message = codes "m";
  target_name = codes "n";
  severity = critical;
}

away_closes_example :
    track_at k (run settings (quiet_at 30 ∷ quiet_at 20 ∷ []) (run settings opened start)) ≡ none
unfolding run_opens
away_closes_example =
    away_closes settings (quiet_at 20 ∷ []) (quiet_at 30) (run settings opened start) k 20
      open_track refl refl (omega arith) refl (refl, refl) refl (omega arith)

-- One nanosecond after its alert closed the key may open another, with a debounce of 10.
debounce_never_delays_example :
    too_soon settings 31
      (last_in (track_at k (run settings (quiet_at 30 ∷ quiet_at 20 ∷ opened) start)))
    ≡ false
unfolding run_opens
debounce_never_delays_example =
    debounce_never_delays settings (quiet_at 30 ∷ quiet_at 20 ∷ opened) start k 31 (λ z. refl) refl

restore_keeps_alerts_example :
    ((j : Text)
      → id_at j (restore (restarted (evaluate_at settings 3 (down ∷ []) start))).1.tracks
        ≡ id_at j (evaluate_at settings 3 (down ∷ []) start).tracks)
    × Consistent (restore (restarted (evaluate_at settings 3 (down ∷ []) start))).1
unfolding run_opens restore firing_alerts
restore_keeps_alerts_example =
    restore_keeps_alerts (evaluate_at settings 3 (down ∷ []) start) evaluate_at-Consistent_example
      refl

abbrev open_row : AlertRecord
open_row = opened_row (record (alert_of 8 down) { fired_at = 0 }) 1

r-NoBar : NoBar (codes "r")
r-NoBar = (omega arith, tt)

-- The first attempt is refused and the second is sent.
abbrev second : ℕ → Attempt
second zero = refused
second (suc i) = sent

abbrev note : Notification
note = record { text = codes "x"; alert_id = 1 }

escape_safe_example :
    All NoAngle (escape (codes "<b>&"))
    × (escape (codes "<b>&") ≡ escape (codes "&lt;") → codes "<b>&" ≡ codes "&lt;")
escape_safe_example = escape_safe (codes "<b>&") (codes "&lt;")
