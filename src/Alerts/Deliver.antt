-- ===== src/Alerts/Deliver.antt =====
-- internal/alerts/engine.go: deliver, the retries of one notification. The environment chooses how
-- each attempt ends; times are seconds.
use homelab_dashboard.Prelude.{
  ℕ, zero, suc, ◌+◌, ◌≤◌, ◌≡◌, Bool, true, false, List, [], ◌∷◌, ltb, if◌then◌else◌, arith,
}
use homelab_dashboard.Store.Alerts.{AlertsDb, mark_alert_notified}
use homelab_dashboard.Alerts.Engine.{Notification, unix}

-- How an attempt ends: sent, refused, or refused with the context cancelled during the wait after it.
pub data Attempt : Type 0 where
  sent : Attempt
  refused : Attempt
  cancelled : Attempt

-- The attempts made, the seconds waited, whether the notification was sent, and the table.
pub record Delivery : Type 0 where
  pub attempts : ℕ
  pub waited : ℕ
  pub delivered : Bool
  pub db : AlertsDb

abbrev pub delays : List ℕ
delays = 2 ∷ 8 ∷ 32 ∷ 120 ∷ 300 ∷ []

-- The mark that a sent notification leaves, when it is one of a firing alert.
unfoldable pub mark_sent : ℕ → Notification → AlertsDb → AlertsDb
mark_sent now n db =
    if ltb 0 n.alert_id then (mark_alert_notified n.alert_id (unix now) db).1 else db

-- The attempts from number `i` on, with the delays that are left.
unfoldable pub deliver_from : (ℕ → Attempt) → ℕ → Notification → List ℕ → ℕ → Delivery → Delivery
deliver_from outcome now n [] i d =
    let tried = record d { attempts = d.attempts + 1 } in
    elim (outcome i) [
      | sent ↦ record tried { delivered = true; db = mark_sent now n d.db }
      | refused ↦ tried
      | cancelled ↦ tried
    ]
deliver_from outcome now n (w ∷ ws) i d =
    let tried = record d { attempts = d.attempts + 1 } in
    let retried = deliver_from outcome now n ws (suc i) (record tried { waited = d.waited + w }) in
    elim (outcome i) [
      | sent ↦ record tried { delivered = true; db = mark_sent now n d.db }
      | refused ↦ retried
      | cancelled ↦ tried
    ]

unfoldable pub deliver : (ℕ → Attempt) → ℕ → Notification → AlertsDb → Delivery
unfolding deliver_from
deliver outcome now n db =
    deliver_from outcome now n delays 0
      (record { attempts = 0; waited = 0; delivered = false; db = db })

-- A notification is tried at least once and at most six times, with at most 462 seconds of waiting;
-- and if it is not sent, the table is untouched.
pub deliver_bounds :
    (outcome : ℕ → Attempt) (now : ℕ) (n : Notification) (db : AlertsDb)
    → let d = deliver outcome now n db in
      (1 ≤ d.attempts) × (d.attempts ≤ 6) × (d.waited ≤ 462) × (d.delivered ≡ false → d.db ≡ db)
unfolding deliver
deliver_bounds outcome now n db = ground arith

-- The attempts before number `i` were refused with no cancellation.
abbrev pub AllRefused : (ℕ → Attempt) → ℕ → Type 0
AllRefused outcome zero = Unit
AllRefused outcome (suc i) = (outcome i ≡ refused) × AllRefused outcome i

-- A notification whose attempts before number `i` are refused, with `i` at most 5, and whose attempt
-- number `i` is sent, is delivered after `i + 1` attempts, and the table is then the one that a single
-- mark_sent makes of the table before.
pub deliver_at :
    (outcome : ℕ → Attempt) (now : ℕ) (n : Notification) (db : AlertsDb) (i : ℕ)
    → i ≤ 5
    → AllRefused outcome i
    → outcome i ≡ sent
    → let d = deliver outcome now n db in
      (d.attempts ≡ i + 1) × (d.delivered ≡ true) × (d.db ≡ mark_sent now n db)
unfolding deliver
deliver_at outcome now n db zero h before here = ground arith
deliver_at outcome now n db (suc zero) h before here = ground arith
deliver_at outcome now n db (suc (suc zero)) h before here = ground arith
deliver_at outcome now n db (suc (suc (suc zero))) h before here = ground arith
deliver_at outcome now n db (suc (suc (suc (suc zero)))) h before here = ground arith
deliver_at outcome now n db (suc (suc (suc (suc (suc zero))))) h before here = ground arith
deliver_at outcome now n db (suc (suc (suc (suc (suc (suc i)))))) h before here =
    absurd (omega arith)
