-- ===== src/Collector/Events.antt =====
-- internal/collector/events.go: handleEvent and recordErrorLine. The state is that of the inventory, the
-- two tables that the handler writes and the messages of the bus; strconv.Itoa of Atoi's value is
-- the parameter `exit_text`, `none` for 0.
pub mod Restarts
use homelab_dashboard.Prelude.{
  ℕ, ◌+◌, ◌/◌, Bool, true, false, not, ◌&&◌, ◌||◌, Option, none, some, List, [], ◌∷◌, ◌++◌, ◌⊎◌,
  inl, inr, drop, Text, codes, text_eq, ltb, if◌then◌else◌, any_of,
}
use homelab_dashboard.Prelude.Assoc.{Map, lookup, delete}
use homelab_dashboard.Prelude.Strings.{has_prefix}
use homelab_dashboard.Prelude.Float.{Float}
use homelab_dashboard.Store.Events.{
  EventRecord, EventTable, LogErrorRecord, LogTable, InsertFault, insert_event, insert_log_errors,
}
use homelab_dashboard.Collector.Counters.{reset_counters}
use homelab_dashboard.Collector.Inspect.{ContainerInspect}
use homelab_dashboard.Collector.Inventory.{
  ContainerSummary, Inventory, label, label_compose_project, inspect, refresh_inventory,
}

pub record Event : Type 0 where
  pub type : Text
  pub action : Text
  pub id : Text
  pub attributes : Map Text
  pub time : ℕ
  pub time_nano : ℕ

pub data Message : Type 0 where
  event_message : EventRecord → Message
  error_message : LogErrorRecord → Message
  containers_message : Message

pub record Handled (F : Type 0) : Type 0 where
  pub inventory : Inventory F
  pub events : EventTable
  pub lines : LogTable
  pub messages : List Message
  pub evaluations : ℕ

abbrev pub interesting_actions : List Text
interesting_actions =
    codes "start"
    ∷ codes "stop"
    ∷ codes "die"
    ∷ codes "kill"
    ∷ codes "restart"
    ∷ codes "oom"
    ∷ codes "pause"
    ∷ codes "unpause"
    ∷ codes "create"
    ∷ codes "destroy"
    ∷ codes "rename"
    ∷ codes "update"
    ∷ []

-- The text after the first colon and space, empty where there is none.
unfoldable pub after_colon : Text → Text
unfolding has_prefix
after_colon [] = []
after_colon (c ∷ s) =
    let rest = after_colon s in if has_prefix (c ∷ s) (codes ": ") then drop 1 s else rest

-- The action and the detail to store, `none` for an action of no interest.
unfoldable pub action_of : Text → Option (Text × Text)
unfolding has_prefix after_colon any_of
action_of action =
    if has_prefix action (codes "health_status")
    then some (codes "health_status", after_colon action)
    else if has_prefix action (codes "exec_")
    then none
    else if any_of (text_eq action) interesting_actions
    then some (action, [])
    else none

unfoldable pub exit_detail : Text → Option Text → Text
exit_detail detail none = detail
exit_detail detail (some code) = codes "exit " ++ code

unfoldable pub detail_of : Text → Text → Map Text → Text
unfolding exit_detail lookup
detail_of action detail attributes =
    let of_exit = exit_detail detail (lookup (codes "exitCode") attributes) in
    if text_eq action (codes "die")
    then of_exit
    else if text_eq action (codes "oom")
    then codes "out of memory"
    else detail

unfoldable pub ts_of : Event → ℕ
ts_of ev = if ltb 0 ev.time_nano then ev.time_nano / 1_000_000_000 else ev.time

unfoldable pub event_record : Event → Text → Text → EventRecord
unfolding detail_of ts_of label
event_record ev action detail = record {
  id = 0;
  ts = ts_of ev;
  container_id = ev.id;
  container_name = label (codes "name") ev.attributes;
  type = action;
  detail = detail_of action detail ev.attributes;
}

-- The id of the stored row, 0 where the statement failed.
unfoldable pub with_row : Text ⊎ ℕ → EventRecord → EventRecord
with_row (inl e) r = record r { id = 0 }
with_row (inr id) r = record r { id = id }

unfoldable pub error_line : EventRecord → Text → Text → LogErrorRecord
error_line r kind line = record {
  id = 0;
  ts = r.ts;
  container_id = r.container_id;
  container_name = r.container_name;
  kind = kind;
  stream = codes "event";
  line = line;
}

module _ {F : Type 0} where
  unfoldable pub published_line :
      LogErrorRecord → (ℕ × Option Text) × LogTable → Handled F → Handled F
  published_line r ((n, some e), lines) st = record st { lines = lines }
  published_line r ((n, none), lines) st = record st {
    lines = lines;
    messages = st.messages ++ error_message r ∷ [];
  }

  -- `recordErrorLine`
  unfoldable pub record_error_line : Option InsertFault → LogErrorRecord → Handled F → Handled F
  unfolding published_line insert_log_errors
  record_error_line fault r st = published_line r (insert_log_errors fault (r ∷ []) st.lines) st

  unfoldable pub reset : Text → Handled F → Handled F
  unfolding reset_counters
  reset id st = record st {
    inventory = record st.inventory { counters = reset_counters id st.inventory.counters };
  }

  unfoldable pub exit_line : Option InsertFault → EventRecord → Option Text → Handled F → Handled F
  unfolding record_error_line error_line
  exit_line fault r none st = st
  exit_line fault r (some code) st =
      record_error_line fault
        (error_line r (codes "exit") (codes "container exited with code " ++ code)) st

  -- The switch on the action, but for its last case.
  unfoldable pub note_action :
      (Text → Option Text) → Option InsertFault → Map Text → EventRecord → Handled F → Handled F
  unfolding exit_line record_error_line error_line reset label
  note_action exit_text fault attributes r st =
      let is : Text → Bool = λ t. text_eq r.type t in
      let died =
        reset r.container_id
          (exit_line fault r (exit_text (label (codes "exitCode") attributes)) st) in
      let killed =
        record_error_line fault
          (error_line r (codes "oom") (codes "container killed by the OOM killer")) st in
      let failing =
        record_error_line fault (error_line r (codes "health") (codes "health check failing")) st in
      if is (codes "die")
      then died
      else if is (codes "oom")
      then killed
      else if is (codes "health_status")
      then (if text_eq r.detail (codes "unhealthy") then failing else st)
      else if is (codes "start") || is (codes "restart")
      then reset r.container_id st
      else st

-- What the handler calls: Docker's answers, the parsers and the faults of the writes.
pub record Handler (F : Type 0) : Type 0 where
  pub fl : Float F
  pub parse_time : Text → Option ℕ
  pub atoi : Text → ℕ
  pub exit_text : Text → Option Text
  pub skip : Text → Text → Bool
  pub now : ℕ
  pub answer : Text → Option ContainerInspect
  pub listing : Text ⊎ List ContainerSummary
  pub event_fault : Option Text
  pub line_fault : Option InsertFault

module _ {F : Type 0} (h : Handler F) where
  open h use {fl, parse_time, atoi, exit_text, skip, now, answer, listing, event_fault, line_fault}

  unfoldable pub publish_message : Message → Handled F → Handled F
  publish_message m st = record st { messages = st.messages ++ m ∷ [] }

  unfoldable pub after_refresh : Inventory F × Bool → Handled F → Handled F
  unfolding publish_message
  after_refresh (inventory, changed) st =
      let refreshed = record st { inventory = inventory } in
      if changed then publish_message containers_message refreshed else refreshed

  unfoldable pub refresh : Handled F → Handled F
  unfolding after_refresh refresh_inventory
  refresh st =
      after_refresh (refresh_inventory fl parse_time atoi skip now answer listing st.inventory) st

  unfoldable pub look_again : Text → Handled F → Handled F
  unfolding publish_message inspect
  look_again id st =
      let containers = inspect fl parse_time atoi now id (answer id) st.inventory.containers in
      publish_message containers_message
        (record st { inventory = record st.inventory { containers = containers } })

  unfoldable pub is_known : Text → Handled F → Bool
  unfolding lookup
  is_known id st = elim (lookup id st.inventory.containers) [ some c ↦ true | none ↦ false ]

  -- The refresh or inspection that the action asks for.
  unfoldable pub follow : EventRecord → Handled F → Handled F
  unfolding refresh look_again is_known
  follow r st =
      let known = is_known r.container_id st in
      let create = text_eq r.type (codes "create") in
      let start = text_eq r.type (codes "start") in
      if not known && create
      then refresh st
      else if known || start
      then (if known then look_again r.container_id st else refresh st)
      else st

  unfoldable pub destroyed : EventRecord → Handled F → Handled F
  unfolding publish_message delete
  destroyed r st =
      let left = record st.inventory {
        containers = delete r.container_id st.inventory.containers;
      } in
      publish_message (event_message r)
        (publish_message containers_message (record st { inventory = left }))

  unfoldable pub evaluate_once : Handled F → Handled F
  evaluate_once st = record st { evaluations = st.evaluations + 1 }

  unfoldable pub finish_event : EventRecord → Handled F → Handled F
  unfolding destroyed evaluate_once publish_message follow
  finish_event r st =
      if text_eq r.type (codes "destroy")
      then destroyed r st
      else evaluate_once (publish_message (event_message r) (follow r st))

  -- The event as it is stored, and what follows from it.
  unfoldable pub stored_event :
      Map Text → EventRecord → (Text ⊎ ℕ) × EventTable → Handled F → Handled F
  unfolding finish_event note_action with_row
  stored_event attributes r (id, events) st =
      let row = with_row id r in
      finish_event row
        (note_action exit_text line_fault attributes row (record st { events = events }))

  unfoldable pub handle_action : Event → Option (Text × Text) → Handled F → Handled F
  unfolding stored_event event_record insert_event label
  handle_action ev none st = st
  handle_action ev (some (action, detail)) st =
      let r = event_record ev action detail in
      let handled = stored_event ev.attributes r (insert_event event_fault r st.events) st in
      if skip (label (codes "name") ev.attributes) (label label_compose_project ev.attributes)
      then st
      else handled

  -- `handleEvent`
  unfoldable pub handle_event : Event → Handled F → Handled F
  unfolding handle_action action_of
  handle_event ev st =
      if text_eq ev.type (codes "container") then handle_action ev (action_of ev.action) st else st
