-- ===== src/Store/Alerts.antt =====
-- internal/store/records.go, the alerts table: OpenAlert, ResolveAlert, MarkAlertNotified, AckAlert,
-- FiringAlerts and Alerts, with the table of internal/store/schema.go. A statement that the driver
-- refuses is an element `true` of `faults`, which the environment chooses, one for each statement.
pub mod Rows
pub mod Firing
use homelab_dashboard.Prelude.{
  ℕ, zero, suc, ◌+◌, ◌<◌, ◌≤◌, ◌≡◌, Bool, true, false, ◌&&◌, Option, none, some, List, [], ◌∷◌,
  ◌++◌, map, Text, ltb, leb, ◌==◌, if◌then◌else◌, keep_if, count_if, take,
}

-- The severities that the rules use; `unset` is the empty string of a zero value.
pub data Severity : Type 0 where
  unset critical warning : Severity

-- The column `state`.
pub data AlertState : Type 0 where
  firing resolved : AlertState

pub record AlertRecord : Type 0 where
  pub id : ℕ
  pub rule : Text
  pub target : Text
  pub target_name : Text
  pub severity : Severity
  pub message : Text
  pub state : AlertState
  pub fired_at : ℕ
  pub resolved_at : ℕ
  pub notified_at : ℕ
  pub acked_at : ℕ

-- The table, its AUTOINCREMENT counter and the outcomes of the statements to come.
pub record AlertsDb : Type 0 where
  pub rows : List AlertRecord
  pub last_id : ℕ
  pub faults : List Bool

abbrev pub is_firing : AlertState → Bool
is_firing firing = true
is_firing resolved = false

-- Whether the next statement fails, and the table with that outcome used up.
unfoldable pub attempt : AlertsDb → Bool × AlertsDb
attempt db = elim db.faults [ [] ↦ (false, db) | f ∷ fs ↦ (f, record db { faults = fs }) ]

insert_row : AlertRecord → AlertsDb → Option ℕ × AlertsDb
insert_row a db =
    let id = db.last_id + 1 in
    let row = record a {
      id = id;
      state = firing;
      resolved_at = 0;
      notified_at = 0;
      acked_at = 0;
    } in
    (some id, record db { rows = db.rows ++ row ∷ []; last_id = id })

-- INSERT INTO alerts, and LastInsertId.
unfoldable pub open_alert : AlertRecord → AlertsDb → Option ℕ × AlertsDb
unfolding insert_row
open_alert a db = let (failed, db') = attempt db in if failed then (none, db') else insert_row a db'

unfoldable pub resolve_row : ℕ → ℕ → AlertRecord → AlertRecord
resolve_row id at r =
    if r.id == id && is_firing r.state then record r { state = resolved; resolved_at = at } else r

-- UPDATE alerts SET state = 'resolved' WHERE id = ? AND state = 'firing'; `true` is no error.
unfoldable pub resolve_alert : ℕ → ℕ → AlertsDb → Bool × AlertsDb
unfolding resolve_row
resolve_alert id at db =
    let (failed, db') = attempt db in
    if failed then (false, db') else (true, record db' { rows = map (resolve_row id at) db'.rows })

notify_row : ℕ → ℕ → AlertRecord → AlertRecord
notify_row id at r = if r.id == id then record r { notified_at = at } else r

-- UPDATE alerts SET notified_at = ? WHERE id = ?
unfoldable pub mark_alert_notified : ℕ → ℕ → AlertsDb → Bool × AlertsDb
unfolding notify_row
mark_alert_notified id at db =
    let (failed, db') = attempt db in
    if failed then (false, db') else (true, record db' { rows = map (notify_row id at) db'.rows })

ack_hits : ℕ → AlertRecord → Bool
ack_hits id r = r.id == id && r.acked_at == 0

ack_row : ℕ → ℕ → AlertRecord → AlertRecord
unfolding ack_hits
ack_row id at r = if ack_hits id r then record r { acked_at = at } else r

-- UPDATE alerts SET acked_at = ? WHERE id = ? AND acked_at = 0; whether a row was changed.
unfoldable pub ack_alert : ℕ → ℕ → AlertsDb → Option Bool × AlertsDb
unfolding ack_row ack_hits
ack_alert id at db =
    let (failed, db') = attempt db in
    if failed then (none, db') else (
      some (ltb 0 (count_if (ack_hits id) db'.rows)),
      record db' { rows = map (ack_row id at) db'.rows },
    )

-- ORDER BY fired_at DESC.
insert_by_age : AlertRecord → List AlertRecord → List AlertRecord
insert_by_age a [] = a ∷ []
insert_by_age a (b ∷ rs) =
    let rest = insert_by_age a rs in if leb b.fired_at a.fired_at then a ∷ b ∷ rs else b ∷ rest

newest_first : List AlertRecord → List AlertRecord
unfolding insert_by_age
newest_first [] = []
newest_first (a ∷ rs) = insert_by_age a (newest_first rs)

-- SELECT ... WHERE state = 'firing' ORDER BY fired_at DESC
unfoldable pub firing_alerts : AlertsDb → Option (List AlertRecord) × AlertsDb
unfolding newest_first
firing_alerts db =
    let (failed, db') = attempt db in
    if failed
    then (none, db')
    else (some (newest_first (keep_if (λ r. is_firing r.state) db'.rows)), db')

-- SELECT ... ORDER BY CASE state WHEN 'firing' THEN 0 ELSE 1 END, fired_at DESC LIMIT ?
unfoldable pub alerts : ℕ → AlertsDb → Option (List AlertRecord) × AlertsDb
unfolding newest_first
alerts limit db =
    let (failed, db') = attempt db in
    let live = newest_first (keep_if (λ r. is_firing r.state) db'.rows) in
    let closed = newest_first (keep_if (λ r. if is_firing r.state then false else true) db'.rows) in
    if failed then (none, db') else (some (take limit (live ++ closed)), db')
