-- ===== src/Store/Events.antt =====
-- internal/store/records.go, the tables events and log_errors: InsertEvent, Events, RestartCounts,
-- InsertLogErrors, LogErrors and LastLogScan. Rows stand in the order of their ids; the argument
-- `fault` is the error of the statement or transaction, if it has one.
pub mod Counts
pub mod Lines
use homelab_dashboard.Prelude.{
  ℕ, ◌+◌, Bool, true, false, not, ◌&&◌, ◌||◌, Option, none, some, List, [], ◌∷◌, ◌++◌, ◌⊎◌, inl,
  inr, Text, codes, text_eq, ltb, leb, ◌==◌, if◌then◌else◌, keep_if, any_of, length, take,
}
use homelab_dashboard.Prelude.Assoc.{Map, lookup, insert}
use homelab_dashboard.Prelude.Sorting.{sort_with}

pub record EventRecord : Type 0 where
  pub id : ℕ
  pub ts : ℕ
  pub container_id : Text
  pub container_name : Text
  pub type : Text
  pub detail : Text

-- A table and its AUTOINCREMENT counter.
pub record EventTable : Type 0 where
  pub rows : List EventRecord
  pub last_id : ℕ

unfoldable pub insert_event : Option Text → EventRecord → EventTable → (Text ⊎ ℕ) × EventTable
insert_event (some e) event table = (inl e, table)
insert_event none event table =
    let id = table.last_id + 1 in
    (inr id, record { rows = table.rows ++ record event { id = id } ∷ []; last_id = id })

-- The condition on the container, where there is one.
unfoldable pub for_container : Text → Text → Bool
for_container [] id = true
for_container (c ∷ cs) id = text_eq id (c ∷ cs)

-- ORDER BY ts DESC, id DESC
unfoldable pub later : ℕ × ℕ → ℕ × ℕ → Bool
later (ts, id) (ts₂, id₂) = if ts == ts₂ then ltb id₂ id else ltb ts₂ ts

unfoldable pub newer_event : EventRecord → EventRecord → Bool
unfolding later
newer_event a b = later (a.ts, a.id) (b.ts, b.id)

unfoldable pub events : ℕ → Text → ℕ → EventTable → List EventRecord
unfolding newer_event for_container sort_with keep_if
events since container_id limit table = take limit (
    sort_with newer_event
      (keep_if (λ e. leb since e.ts && for_container container_id e.container_id) table.rows))

unfoldable pub is_restart : ℕ → EventRecord → Bool
is_restart since e =
    leb since e.ts
    && (text_eq e.type (codes "restart")
        || (text_eq e.type (codes "die") || text_eq e.type (codes "oom")))

unfoldable pub or_zero : Option ℕ → ℕ
or_zero none = 0
or_zero (some n) = n

-- The count in the row of an id, or in the result; 0 where there is none.
unfoldable pub count_of : Text → Map ℕ → ℕ
unfolding or_zero lookup
count_of id out = or_zero (lookup id out)

-- SELECT container_id, count(*) ... GROUP BY container_id
unfoldable pub group_counts : List EventRecord → Map ℕ → Map ℕ
unfolding count_of insert
group_counts [] out = out
group_counts (e ∷ es) out =
    group_counts es (insert e.container_id (count_of e.container_id out + 1) out)

unfoldable pub restart_counts : ℕ → EventTable → Map ℕ
unfolding group_counts is_restart keep_if
restart_counts since table = group_counts (keep_if (is_restart since) table.rows) []

pub record LogErrorRecord : Type 0 where
  pub id : ℕ
  pub ts : ℕ
  pub container_id : Text
  pub container_name : Text
  pub kind : Text
  pub stream : Text
  pub line : Text

pub record LogTable : Type 0 where
  pub rows : List LogErrorRecord
  pub last_id : ℕ

-- UNIQUE (container_id, ts, line)
unfoldable pub same_line : LogErrorRecord → LogErrorRecord → Bool
same_line a b = text_eq a.container_id b.container_id && (a.ts == b.ts && text_eq a.line b.line)

-- INSERT OR IGNORE, and the number of rows that it adds.
unfoldable pub insert_line : LogErrorRecord → LogTable → ℕ × LogTable
unfolding same_line any_of
insert_line r table =
    let id = table.last_id + 1 in
    let row = record r { id = id } in
    if any_of (same_line r) table.rows
    then (0, table)
    else (1, record { rows = table.rows ++ row ∷ []; last_id = id })

unfoldable pub insert_lines : List LogErrorRecord → LogTable → ℕ × LogTable
unfolding insert_line
insert_lines [] table = (0, table)
insert_lines (r ∷ rs) table =
    let (n, next) = insert_line r table in let (m, last) = insert_lines rs next in (n + m, last)

-- How the transaction fails: at its begin or its statement, at the insert of a record, or at commit.
pub data InsertFault : Type 0 where
  begin_fails : Text → InsertFault
  insert_fails : ℕ → Text → InsertFault
  commit_fails : Text → InsertFault

-- The inserts before the record that fails; without such a record all are made.
unfoldable pub insert_until :
    ℕ → Text → List LogErrorRecord → LogTable → (ℕ × Option Text) × LogTable
unfolding insert_lines
insert_until k e rs table =
    let (n, after) = insert_lines rs table in
    if ltb k (length rs)
    then (((insert_lines (take k rs) table).0, some e), table)
    else ((n, none), after)

-- `InsertLogErrors`: the number of rows and the error. A transaction that fails is rolled back,
-- though the number is that of the inserts before.
unfoldable pub insert_log_errors :
    Option InsertFault → List LogErrorRecord → LogTable → (ℕ × Option Text) × LogTable
unfolding insert_lines insert_until
insert_log_errors fault [] table = ((0, none), table)
insert_log_errors (some (begin_fails e)) (r ∷ rs) table = ((0, some e), table)
insert_log_errors (some (insert_fails k e)) (r ∷ rs) table = insert_until k e (r ∷ rs) table
insert_log_errors (some (commit_fails e)) (r ∷ rs) table =
    (((insert_lines (r ∷ rs) table).0, some e), table)
insert_log_errors none (r ∷ rs) table =
    let (n, after) = insert_lines (r ∷ rs) table in ((n, none), after)

unfoldable pub newer_line : LogErrorRecord → LogErrorRecord → Bool
unfolding later
newer_line a b = later (a.ts, a.id) (b.ts, b.id)

unfoldable pub log_errors : ℕ → Text → ℕ → LogTable → List LogErrorRecord
unfolding newer_line for_container sort_with keep_if
log_errors since container_id limit table = take limit (
    sort_with newer_line
      (keep_if (λ r. leb since r.ts && for_container container_id r.container_id) table.rows))

unfoldable pub later_of : ℕ → Option ℕ → ℕ
later_of ts none = ts
later_of ts (some other) = if ltb ts other then other else ts

-- SELECT max(ts), NULL where the container has no row
unfoldable pub last_scan : Text → List LogErrorRecord → Option ℕ
unfolding later_of
last_scan container_id [] = none
last_scan container_id (r ∷ rs) =
    let rest = last_scan container_id rs in
    if text_eq r.container_id container_id then some (later_of r.ts rest) else rest

unfoldable pub last_log_scan : Text → LogTable → Option ℕ
unfolding last_scan
last_log_scan container_id table = last_scan container_id table.rows
