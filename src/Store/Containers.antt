-- ===== src/Store/Containers.antt =====
-- internal/store/records.go, the table containers: UpsertContainers and Containers. The rows stand
-- under their primary key; the times are seconds. A transaction that fails is rolled back.
pub mod Present
use homelab_dashboard.Prelude.{
  ℕ, Bool, true, false, not, ◌&&◌, Option, none, some, List, [], ◌∷◌, map, Text, if◌then◌else◌,
  keep_if,
}
use homelab_dashboard.Prelude.Assoc.{Map, lookup, insert}
use homelab_dashboard.Prelude.Sorting.{sort_by}
use homelab_dashboard.Store.Images.{is_member}

pub record ContainerRecord : Type 0 where
  pub id : Text
  pub name : Text
  pub image : Text
  pub image_id : Text
  pub image_digest : Text
  pub stack : Text
  pub service : Text
  pub endpoint_id : ℕ
  pub state : Text
  pub health : Text
  pub restart_count : ℕ
  pub created : ℕ
  pub started_at : ℕ
  pub exit_code : ℕ
  pub first_seen : ℕ
  pub last_seen : ℕ
  pub present : Bool

abbrev pub ContainerTable : Type 0
ContainerTable = Map ContainerRecord

-- The row after the upsert: on a conflict it keeps `created` and `first_seen`.
unfoldable pub merge_container : ℕ → ContainerRecord → Option ContainerRecord → ContainerRecord
merge_container ts r none = record r { first_seen = ts; last_seen = ts; present = true }
merge_container ts r (some old) = record r {
  created = old.created;
  first_seen = old.first_seen;
  last_seen = ts;
  present = true;
}

unfoldable pub upsert_each : ℕ → List ContainerRecord → ContainerTable → ContainerTable
unfolding merge_container lookup insert
upsert_each ts [] table = table
upsert_each ts (r ∷ rs) table =
    upsert_each ts rs (insert r.id (merge_container ts r (lookup r.id table)) table)

-- UPDATE containers SET present = 0 WHERE present = 1 AND id NOT IN (ids)
unfoldable pub mark_gone : List Text → ContainerTable → ContainerTable
unfolding is_member
mark_gone ids [] = []
mark_gone ids ((k, r) ∷ table) =
    let rest = mark_gone ids table in
    (k, if r.present && not (is_member k ids) then record r { present = false } else r) ∷ rest

-- UPDATE containers SET present = 0 WHERE present = 1
unfoldable pub mark_all_gone : ContainerTable → ContainerTable
mark_all_gone [] = []
mark_all_gone ((k, r) ∷ table) =
    let rest = mark_all_gone table in
    (k, if r.present then record r { present = false } else r) ∷ rest

unfoldable pub mark_missing : List Text → ContainerTable → ContainerTable
unfolding mark_gone mark_all_gone
mark_missing [] table = mark_all_gone table
mark_missing (id ∷ ids) table = mark_gone (id ∷ ids) table

unfoldable pub upsert_containers :
    Option Text → ℕ → List ContainerRecord → ContainerTable → Option Text × ContainerTable
unfolding mark_missing upsert_each
upsert_containers (some e) ts records table = (some e, table)
upsert_containers none ts records table =
    (none, mark_missing (map (λ r. r.id) records) (upsert_each ts records table))

container_rows : ContainerTable → List ContainerRecord
container_rows [] = []
container_rows ((k, r) ∷ table) = r ∷ container_rows table

-- SELECT ... ORDER BY stack, name
unfoldable pub containers : Bool → ContainerTable → List ContainerRecord
unfolding container_rows sort_by keep_if
containers include_gone table =
    let rows = container_rows table in
    sort_by (λ r. r.stack)
      (sort_by (λ r. r.name) (if include_gone then rows else keep_if (λ r. r.present) rows))
