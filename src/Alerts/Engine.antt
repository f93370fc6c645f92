-- ===== src/Alerts/Engine.antt =====
-- internal/alerts/engine.go: the tracks, Restore, enqueue, Evaluate, fire and resolve. Times are
-- nanoseconds; the zero time.Time is `none`. `a.Sub(b) < d` is `a < b + d`, which is exact also when
-- the clock steps back.
pub mod Effects
pub mod Consistency
pub mod Locality
pub mod Visit
pub mod Timing
pub mod Opening
pub mod Closing
pub mod Reopening
pub mod Clearing
pub mod Restore
pub mod Uniqueness
use homelab_dashboard.Prelude.{
  ℕ, ◌+◌, ◌*◌, ◌/◌, ◌<◌, ◌≡◌, Bool, true, false, Option, none, some, List, [], ◌∷◌, ◌++◌, map, Text,
  length, ltb, leb, ◌==◌, if◌then◌else◌, ap,
}
use homelab_dashboard.Prelude.Assoc.{Map, lookup, insert, delete}
use homelab_dashboard.Store.Alerts.{
  Severity, unset, AlertState, firing, resolved, AlertRecord, AlertsDb, open_alert, resolve_alert,
  firing_alerts,
}
use homelab_dashboard.Alerts.Format.{key, split_key, format}

pub record Condition : Type 0 where
  pub rule : Text
  pub target : Text
  pub target_name : Text
  pub severity : Severity
  pub message : Text
  pub hold_for : ℕ

pub record Track : Type 0 where
  pub pending_since : Option ℕ
  pub clear_since : Option ℕ
  pub alert_id : ℕ
  pub last_transition : Option ℕ
  pub message : Text
  pub target_name : Text
  pub severity : Severity

pub record Notification : Type 0 where
  pub text : Text
  pub alert_id : ℕ

-- What `Evaluate` reads of the engine and does not change.
pub record Settings : Type 0 where
  pub debounce : ℕ
  pub has_notifier : Bool
  pub stamp : ℕ → Text

-- What it changes: the tracks, the channel, the messages handed to the bus, and the table.
pub record Engine : Type 0 where
  pub tracks : Map Track
  pub queue : List Notification
  pub published : List AlertRecord
  pub db : AlertsDb

-- The zero value that `&track{}` gives.
abbrev pub new_track : Track
new_track = record {
  pending_since = none;
  clear_since = none;
  alert_id = 0;
  last_transition = none;
  message = [];
  target_name = [];
  severity = unset;
}

abbrev pub queue_size : ℕ
queue_size = 256

abbrev pub nanos : ℕ
nanos = 1_000_000_000

-- t.Unix()
abbrev pub unix : ℕ → ℕ
unix t = t / nanos

unfoldable pub enqueue : Settings → Notification → Engine → Engine
enqueue s n e =
    if s.has_notifier
    then (if ltb (length e.queue) queue_size then record e { queue = e.queue ++ n ∷ [] } else e)
    else e

unfoldable pub set_track : Text → Track → Engine → Engine
set_track k tr e = record e { tracks = insert k tr e.tracks }

-- The fields that `fire` gives to OpenAlert; the others are zero.
unfoldable pub alert_of : ℕ → Condition → AlertRecord
alert_of now c = record {
  id = 0;
  rule = c.rule;
  target = c.target;
  target_name = c.target_name;
  severity = c.severity;
  message = c.message;
  state = firing;
  fired_at = unix now;
  resolved_at = 0;
  notified_at = 0;
  acked_at = 0;
}

pub fired_track : ℕ → Condition → ℕ → Track → Track
fired_track now c id tr = record tr {
  alert_id = id;
  last_transition = some now;
  message = c.message;
  pending_since = none;
}

announce : Settings → ℕ → Condition → ℕ → Engine → Engine
unfolding alert_of enqueue
announce s now c id e =
    enqueue s
      (record {
        alert_id = id;
        text = format s.stamp firing c.severity c.rule c.target_name c.message now;
      })
      (record e { published = e.published ++ record (alert_of now c) { id = id } ∷ [] })

-- `fire`: with an error the track stays as the caller left it.
unfoldable pub fire : Settings → ℕ → Text → Condition → Track → Engine → Engine
unfolding set_track fired_track announce
fire s now k c tr e =
    let (opened, db') = open_alert (alert_of now c) e.db in
    elim opened [
      | none ↦ set_track k tr (record e { db = db' })
      | some id ↦
          announce s now c id (set_track k (fired_track now c id tr) (record e { db = db' }))
    ]

resolved_record : ℕ → Text → Track → AlertRecord
resolved_record now rule tr = record {
  id = tr.alert_id;
  rule = rule;
  target = [];
  target_name = tr.target_name;
  severity = tr.severity;
  message = tr.message;
  state = resolved;
  fired_at = 0;
  resolved_at = unix now;
  notified_at = 0;
  acked_at = 0;
}

retire : Settings → ℕ → Text → Track → Engine → Engine
unfolding enqueue resolved_record
retire s now k tr e =
    let (rule, target) = split_key k in
    let told = record e { published = e.published ++ resolved_record now rule tr ∷ [] } in
    let sent =
      enqueue s
        (record {
          alert_id = 0;
          text = format s.stamp resolved tr.severity rule tr.target_name tr.message now;
        })
        told in
    record sent { tracks = delete k sent.tracks }

-- `resolve`
unfoldable pub resolve : Settings → ℕ → Text → Track → Engine → Engine
unfolding set_track retire
resolve s now k tr e =
    let (done, db') = resolve_alert tr.alert_id (unix now) e.db in
    if done
    then retire s now k tr (record e { db = db' })
    else set_track k tr (record e { db = db' })

abbrev pub track_or_new : Option Track → Track
track_or_new none = new_track
track_or_new (some tr) = tr

abbrev pub time_or : Option ℕ → ℕ → ℕ
time_or none now = now
time_or (some t) now = t

-- !tr.lastTransition.IsZero() && now.Sub(tr.lastTransition) < e.thresholds.Debounce
unfoldable pub too_soon : Settings → ℕ → Option ℕ → Bool
too_soon s now none = false
too_soon s now (some t) = ltb now (t + s.debounce)

-- The track of an active condition.
abbrev pub seen : Condition → Option Track → Track
seen c o = record (track_or_new o) {
  clear_since = none;
  target_name = c.target_name;
  severity = c.severity;
}

abbrev pub waiting : ℕ → Track → Track
waiting now tr = record tr { pending_since = some (time_or tr.pending_since now) }

-- The body of the loop over the active conditions.
unfoldable pub visit : Settings → ℕ → Text → Condition → Engine → Engine
unfolding set_track
visit s now k c e =
    let tr = seen c (lookup k e.tracks) in
    if ltb 0 tr.alert_id
    then set_track k (record tr { message = c.message }) e
    else if ltb now (time_or tr.pending_since now + c.hold_for)
    then set_track k (waiting now tr) e
    else if too_soon s now tr.last_transition
    then set_track k (waiting now tr) e
    else fire s now k c (waiting now tr) e

unfoldable pub visit_all : Settings → ℕ → Map Condition → Engine → Engine
visit_all s now [] e = e
visit_all s now ((k, c) ∷ rest) e = visit_all s now rest (visit s now k c e)

abbrev pub clearing : ℕ → Track → Track
clearing now tr = record tr {
  pending_since = none;
  clear_since = some (time_or tr.clear_since now);
}

-- A track whose condition is not active.
unfoldable pub clear_track : Settings → ℕ → Text → Track → Engine → Engine
unfolding set_track
clear_track s now k tr e =
    if tr.alert_id == 0
    then record e { tracks = delete k e.tracks }
    else if ltb now (time_or tr.clear_since now + s.debounce)
    then set_track k (clearing now tr) e
    else resolve s now k (clearing now tr) e

pub clear_found : Settings → ℕ → Text → Option Track → Engine → Engine
clear_found s now k none e = e
clear_found s now k (some tr) e = clear_track s now k tr e

-- The body of the loop over the tracks, at a key that the loop meets.
unfoldable pub sweep : Settings → ℕ → Map Condition → Text → Engine → Engine
unfolding clear_found
sweep s now active k e = elim (lookup k active) [
  | some c ↦ e
  | none ↦ clear_found s now k (lookup k e.tracks) e
]

unfoldable pub sweep_all : Settings → ℕ → Map Condition → Map Track → Engine → Engine
sweep_all s now active [] e = e
sweep_all s now active ((k, tr) ∷ rest) e = sweep_all s now active rest (sweep s now active k e)

unfoldable pub collect : List Condition → Map Condition → Map Condition
collect [] active = active
collect (c ∷ cs) active = collect cs (insert (key c.rule c.target) c active)

-- The two loops of `Evaluate`, on the conditions that the rules found at the time `now`.
unfoldable pub evaluate_at : Settings → ℕ → List Condition → Engine → Engine
evaluate_at s now conds e =
    let active = collect conds [] in
    let visited = visit_all s now active e in sweep_all s now active visited.tracks visited

restored_track : AlertRecord → Track
restored_track a = record {
  pending_since = none;
  clear_since = none;
  alert_id = a.id;
  last_transition = some (a.fired_at * nanos);
  message = a.message;
  target_name = a.target_name;
  severity = a.severity;
}

unfoldable pub restore_all : List AlertRecord → Map Track → Map Track
unfolding restored_track
restore_all [] tracks = tracks
restore_all (a ∷ rest) tracks =
    restore_all rest (insert (key a.rule a.target) (restored_track a) tracks)

-- `Restore`; `false` is the error of the query.
unfoldable pub restore : Engine → Bool × Engine
restore e =
    let (found, db') = firing_alerts e.db in
    elim found [
      | none ↦ (false, record e { db = db' })
      | some rows ↦ (true, record e { db = db'; tracks = restore_all rows e.tracks })
    ]
