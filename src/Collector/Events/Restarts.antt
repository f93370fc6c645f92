-- ===== src/Collector/Events/Restarts.antt =====
-- internal/collector/events.go: which events handleEvent stores, and how RestartCounts sees them.
use homelab_dashboard.Prelude.{
  ℕ, ◌+◌, ◌≡◌, refl, sym, ap, ◌∙◌, inl, inr, ◌⊎◌, Bool, true, false, not, ◌&&◌, ◌||◌, Option, none,
  some, List, [], ◌∷◌, ◌++◌, Text, codes, text_eq, text_eq_iff, any_of, ltb, ◌==◌, ◌/◌, subst,
  count_if, if◌then◌else◌, arith, Bool-cases,
}
use homelab_dashboard.Prelude.Assoc.{Map}
use homelab_dashboard.Prelude.Strings.{has_prefix}
use homelab_dashboard.Store.Events.{
  EventRecord, EventTable, LogErrorRecord, LogTable, InsertFault, count_of, restart_counts,
  insert_event, insert_log_errors,
}
use homelab_dashboard.Store.Events.Counts.{counts_for, restart_types, restart_counts_exact}
use homelab_dashboard.Collector.Inventory.{
  Inventory, refresh_inventory, label, label_compose_project,
}
use homelab_dashboard.Collector.Events.{
  Event, Handled, Handler, interesting_actions, ts_of, action_of, event_record, error_line,
  published_line, record_error_line, exit_line, note_action, reset, after_refresh, refresh,
  look_again, is_known, follow, destroyed, publish_message, evaluate_once, event_message, with_row,
  finish_event, stored_event, handle_action, handle_event,
}

recorded : Event → Option (Text × Text) → Option EventRecord
unfolding event_record
recorded ev none = none
recorded ev (some (action, detail)) = some (event_record ev action detail)

-- The table after an event, with its record if there is one.
appended : Option EventRecord → EventTable → EventTable
unfolding insert_event
appended none events = events
appended (some r) events = (insert_event none r events).1

count_if-snoc :
    (p : EventRecord → Bool) (es : List EventRecord) (e : EventRecord)
    → count_if p (es ++ e ∷ []) ≡ count_if p es + (if p e then 1 else 0)
unfolding count_if
count_if-snoc p [] e = ground arith
count_if-snoc p (x ∷ es) e = ground (arith, count_if-snoc p es e)

-- The number of restarts that a record counts for a container.
counted : ℕ → Text → Option EventRecord → ℕ
counted since id none = 0
counted since id (some r) = if counts_for since id r then 1 else 0

appended_counts :
    (since : ℕ) (id : Text) (o : Option EventRecord) (events : EventTable)
    → count_of id (restart_counts since (appended o events))
      ≡ count_of id (restart_counts since events) + counted since id o
unfolding appended counted insert_event
appended_counts since id none events = ground arith
appended_counts since id (some r) events =
    restart_counts_exact since _ id
    ∙ count_if-snoc (counts_for since id) events.rows (record r { id = events.last_id + 1 })
    ∙ ap (λ n. n + counted since id (some r)) (sym (restart_counts_exact since events id))

-- The action is of an event that counts as a restart.
abbrev restarts : Text → Bool
restarts action = any_of (text_eq action) restart_types

-- An action is one of the types, or none of them.
restarts-cases :
    (a : Text)
    → (a ≡ codes "restart") ⊎ (a ≡ codes "die") ⊎ (a ≡ codes "oom") ⊎ (restarts a ≡ false)
unfolding any_of
restarts-cases a = ground (
  arith,
  text_eq_iff a (codes "restart"),
  text_eq_iff a (codes "die"),
  text_eq_iff a (codes "oom"),
)

-- Of the record that an action leaves, the type counts exactly if the action does.
abbrev SameRestart : Text → Option (Text × Text) → Type 0
SameRestart a none = restarts a ≡ false
SameRestart a (some (b, detail)) = restarts b ≡ restarts a

other_action : (a : Text) → restarts a ≡ false → SameRestart a (action_of a)
unfolding action_of any_of text_eq
other_action a other = elim (Bool-cases (has_prefix a (codes "health_status"))) [
  | inl health ↦ rw health (sym other)
  | inr n ↦ elim (Bool-cases (has_prefix a (codes "exec_"))) [
    | inl exec ↦ rw (n, exec) other
    | inr m ↦ elim (Bool-cases (any_of (text_eq a) interesting_actions)) [
      | inl known ↦ rw (n, m, known) refl
      | inr unknown ↦ rw (n, m, unknown) other
    ]
  ]
]

action_of-SameRestart : (a : Text) → SameRestart a (action_of a)
unfolding action_of any_of text_eq has_prefix
action_of-SameRestart a = elim (restarts-cases a) [
  | inl e ↦ subst (λ t. SameRestart t (action_of t)) (sym e) refl
  | inr (inl e) ↦ subst (λ t. SameRestart t (action_of t)) (sym e) refl
  | inr (inr (inl e)) ↦ subst (λ t. SameRestart t (action_of t)) (sym e) refl
  | inr (inr (inr other)) ↦ other_action a other
]

-- The second of an event: that of its nanoseconds, where Docker gives them.
abbrev pub second_of : Event → ℕ
second_of ev = if ev.time_nano == 0 then ev.time else ev.time_nano / 1_000_000_000

recorded_counts :
    (since : ℕ) (id : Text) (ev : Event) (o : Option (Text × Text))
    → SameRestart ev.action o
    → counted since id (recorded ev o) ≡ (
        if not (ltb (second_of ev) since) && (restarts ev.action && text_eq ev.id id) then 1 else 0)
unfolding counted recorded event_record ts_of
recorded_counts since id ev none h = ground arith
recorded_counts since id ev (some (action, detail)) h = ground arith

module _ {F : Type 0} where
  published_line_events :
      (r : LogErrorRecord) (o : (ℕ × Option Text) × LogTable) (st : Handled F)
      → (published_line r o st).events ≡ st.events
  unfolding published_line
  published_line_events r ((n, some e), lines) st = refl
  published_line_events r ((n, none), lines) st = refl

  record_error_line_events :
      (fault : Option InsertFault) (r : LogErrorRecord) (st : Handled F)
      → (record_error_line fault r st).events ≡ st.events
  unfolding record_error_line
  record_error_line_events fault r st =
      published_line_events r (insert_log_errors fault (r ∷ []) st.lines) st

  exit_line_events :
      (fault : Option InsertFault) (r : EventRecord) (o : Option Text) (st : Handled F)
      → (exit_line fault r o st).events ≡ st.events
  unfolding exit_line
  exit_line_events fault r none st = refl
  exit_line_events fault r (some code) st = record_error_line_events fault _ st

  if_events :
      (b : Bool) (x y : Handled F) (es : EventTable)
      → x.events ≡ es
      → y.events ≡ es
      → (if b then x else y).events ≡ es
  if_events true x y es hx hy = hx
  if_events false x y es hx hy = hy

  -- The switch on the action leaves the stored events alone.
  note_action_events :
      (exit_text : Text → Option Text) (fault : Option InsertFault) (attributes : Map Text)
      (r : EventRecord) (st : Handled F)
      → (note_action exit_text fault attributes r st).events ≡ st.events
  unfolding note_action reset
  note_action_events exit_text fault attributes r st =
      let is : Text → Bool = λ t. text_eq r.type t in
      let code = exit_text (label (codes "exitCode") attributes) in
      let oom = error_line r (codes "oom") (codes "container killed by the OOM killer") in
      let health = error_line r (codes "health") (codes "health check failing") in
      let died : Handled F = reset r.container_id (exit_line fault r code st) in
      let killed : Handled F = record_error_line fault oom st in
      let failing : Handled F = record_error_line fault health st in
      let again : Handled F = reset r.container_id st in
      let restarted : Handled F =
        if is (codes "start") || is (codes "restart") then again else st in
      let unhealthy : Handled F = if text_eq r.detail (codes "unhealthy") then failing else st in
      let checked : Handled F = if is (codes "health_status") then unhealthy else restarted in
      let rest : Handled F = if is (codes "oom") then killed else checked in
      if_events (is (codes "die")) died rest st.events (exit_line_events fault r code st) (
        if_events (is (codes "oom")) killed checked st.events
          (record_error_line_events fault oom st)
          (if_events (is (codes "health_status")) unhealthy restarted st.events
            (if_events (text_eq r.detail (codes "unhealthy")) failing st st.events
              (record_error_line_events fault health st) refl)
            (if_events (is (codes "start") || is (codes "restart")) again st st.events refl refl)))

module _ {F : Type 0} (h : Handler F) where
  after_refresh_events :
      (p : Inventory F × Bool) (st : Handled F) → (after_refresh h p st).events ≡ st.events
  unfolding after_refresh publish_message
  after_refresh_events (inventory, true) st = refl
  after_refresh_events (inventory, false) st = refl

  follow_events : (r : EventRecord) (st : Handled F) → (follow h r st).events ≡ st.events
  unfolding follow refresh look_again publish_message
  follow_events r st =
      let known = is_known h r.container_id st in
      let start = text_eq r.type (codes "start") in
      let again : Handled F = look_again h r.container_id st in
      let seen : Handled F = if known then again else refresh h st in
      let rest : Handled F = if known || start then seen else st in
      let fresh =
        after_refresh_events
          (refresh_inventory h.fl h.parse_time h.atoi h.skip h.now h.answer h.listing st.inventory)
          st in
      if_events (not known && text_eq r.type (codes "create")) (refresh h st) rest st.events fresh (
        if_events (known || start) seen st st.events
          (if_events known again (refresh h st) st.events refl fresh) refl)

  finish_event_events :
      (r : EventRecord) (st : Handled F) → (finish_event h r st).events ≡ st.events
  unfolding finish_event destroyed evaluate_once publish_message
  finish_event_events r st =
      let left : Handled F = destroyed h r st in
      let followed : Handled F =
        evaluate_once h (publish_message h (event_message r) (follow h r st)) in
      if_events (text_eq r.type (codes "destroy")) left followed st.events refl (follow_events r st)

  stored_event_events :
      (attributes : Map Text) (r : EventRecord) (p : (Text ⊎ ℕ) × EventTable) (st : Handled F)
      → (stored_event h attributes r p st).events ≡ p.1
  unfolding stored_event
  stored_event_events attributes r (id, events) st =
      let row = with_row id r in
      let now_stored : Handled F = record st { events = events } in
      finish_event_events row (note_action h.exit_text h.line_fault attributes row now_stored)
      ∙ note_action_events h.exit_text h.line_fault attributes row now_stored

  -- The record that an event leaves, if it is of a container, of interest and not left out.
  record_of_event : Event → Option EventRecord
  unfolding action_of event_record label
  record_of_event ev =
      let left_out =
        h.skip (label (codes "name") ev.attributes) (label label_compose_project ev.attributes) in
      let of_action = if left_out then none else recorded ev (action_of ev.action) in
      if text_eq ev.type (codes "container") then of_action else none

  handle_action_events :
      (ev : Event) (o : Option (Text × Text)) (st : Handled F)
      → h.event_fault ≡ none
      → (handle_action h ev o st).events
        ≡ appended
            (if h.skip
                (label (codes "name") ev.attributes)
                (label label_compose_project ev.attributes)
              then none
              else recorded ev o)
            st.events
  unfolding handle_action appended recorded
  handle_action_events ev none st ok =
      elim (Bool-cases
        (h.skip (label (codes "name") ev.attributes) (label label_compose_project ev.attributes))) [
          | inl e ↦ rw e refl
          | inr e ↦ rw e refl
        ]
  handle_action_events ev (some (action, detail)) st ok =
      elim (Bool-cases
        (h.skip (label (codes "name") ev.attributes) (label label_compose_project ev.attributes))) [
          | inl e ↦ rw e refl
          | inr e ↦ rw e (
              stored_event_events ev.attributes (event_record ev action detail) _ st
              ∙ ap
                  (λ (f : Option Text).
                    (insert_event f (event_record ev action detail) st.events).1)
                  ok)
        ]

  handle_event_events :
      (ev : Event) (st : Handled F)
      → h.event_fault ≡ none
      → (handle_event h ev st).events ≡ appended (record_of_event ev) st.events
  unfolding handle_event record_of_event appended
  handle_event_events ev st ok = elim (Bool-cases (text_eq ev.type (codes "container"))) [
    | inl e ↦ rw e (handle_action_events ev (action_of ev.action) st ok)
    | inr e ↦ rw e refl
  ]

  -- The number of restarts of a container since a time that an event adds.
  abbrev pub adds : ℕ → Text → Event → ℕ
  adds since id ev =
      let name = label (codes "name") ev.attributes in
      let project = label (codes "com.docker.compose.project") ev.attributes in
      if text_eq ev.type (codes "container")
        && (not (h.skip name project)
            && (not (ltb (second_of ev) since)
                && (any_of (text_eq ev.action) restart_types && text_eq ev.id id)))
      then 1
      else 0

  record_of_event_counts :
      (since : ℕ) (id : Text) (ev : Event)
      → counted since id (record_of_event ev) ≡ adds since id ev
  unfolding record_of_event counted label
  record_of_event_counts since id ev =
      ground
        (arith, recorded_counts since id ev (action_of ev.action) (action_of-SameRestart ev.action))

  -- An event whose row is stored adds to the restarts of its container since a time exactly if it
  -- is of a container, its action is restart, die or oom, it is not left out, and it is not before the
  -- time; no other event changes the count of any container.
  pub handle_event-restart_counts :
      (ev : Event) (st : Handled F) (since : ℕ) (id : Text)
      → h.event_fault ≡ none
      → count_of id (restart_counts since (handle_event h ev st).events)
        ≡ count_of id (restart_counts since st.events) + adds since id ev
  handle_event-restart_counts ev st since id ok =
      ap (λ t. count_of id (restart_counts since t)) (handle_event_events ev st ok)
      ∙ appended_counts since id (record_of_event ev) st.events
      ∙ ap (λ n. count_of id (restart_counts since st.events) + n)
          (record_of_event_counts since id ev)
