-- ===== src/Store/RecordTests.antt =====
-- The theorems on the tables of containers, events, log errors and disks, at sample rows.
use homelab_dashboard.Prelude.{
  ◌+◌, ◌≡◌, ◌↔◌, refl, true, false, Option, none, some, [], ◌∷◌, length, codes, text_eq, count_if,
  any_of, In,
}
use homelab_dashboard.Prelude.Assoc.{lookup}
use homelab_dashboard.Store.Containers.{ContainerRecord, ContainerTable, upsert_containers}
use homelab_dashboard.Store.Containers.Present.{
  is_present, upsert_containers_present, upsert_containers-SameBirth,
}
use homelab_dashboard.Store.Events.{
  EventRecord, EventTable, LogErrorRecord, LogTable, count_of, restart_counts, InsertFault,
  insert_fails, insert_log_errors, insert_until, insert_line, insert_lines, same_line, insert_lines,
}
use homelab_dashboard.Store.Events.Counts.{counts_for, restart_counts_exact}
use homelab_dashboard.Store.Events.Lines.{insert_log_errors-IsUnique, IsUnique, rows_added, Stored}
use homelab_dashboard.Store.Disks.{DiskRecord, DiskTables, upsert_disks}
use homelab_dashboard.Store.Disks.Smart.{smart_in, last_awake, upsert_disks_smart}

abbrev web : ContainerRecord
web = record {
  id = codes "c1";
  name = codes "web";
  image = codes "nginx:1";
  image_id = codes "i1";
  image_digest = [];
  stack = codes "front";
  service = codes "web";
  endpoint_id = 1;
  state = codes "running";
  health = [];
  restart_count = 0;
  created = 5;
  started_at = 6;
  exit_code = 0;
  first_seen = 7;
  last_seen = 7;
  present = true;
}

abbrev with_web : ContainerTable
with_web = (codes "c1", web) ∷ []

abbrev job : ContainerRecord
job = record web { id = codes "c2"; name = codes "job" }

upsert_containers_present_example :
    (is_present (codes "c2") (upsert_containers none 9 (job ∷ []) with_web).1 ≡ true)
    ↔ In (codes "c2") (codes "c2" ∷ [])
upsert_containers_present_example = upsert_containers_present 9 (job ∷ []) with_web (codes "c2")

upsert_containers-SameBirth_example :
    (r : ContainerRecord) × (lookup (codes "c1") (upsert_containers none 9 (job ∷ []) with_web).1
      ≡ some r)
    × (r.first_seen ≡ 7)
    × (r.created ≡ 5)
unfolding lookup text_eq
upsert_containers-SameBirth_example =
    upsert_containers-SameBirth 9 (job ∷ []) with_web (codes "c1") web refl

abbrev died : EventRecord
died = record {
  id = 3;
  ts = 20;
  container_id = codes "c1";
  container_name = codes "web";
  type = codes "die";
  detail = [];
}

abbrev event_table : EventTable
event_table = record { rows = died ∷ []; last_id = 3 }

restart_counts_exact_example :
    count_of (codes "c1") (restart_counts 10 event_table)
    ≡ count_if (counts_for 10 (codes "c1")) event_table.rows
restart_counts_exact_example = restart_counts_exact 10 event_table (codes "c1")

one_restart : count_of (codes "c1") (restart_counts 10 event_table) ≡ 1
unfolding count_of restart_counts text_eq
one_restart = refl

abbrev failure : LogErrorRecord
failure = record {
  id = 0;
  ts = 4;
  container_id = codes "c1";
  container_name = codes "web";
  kind = codes "log";
  stream = codes "stderr";
  line = codes "panic";
}

abbrev log_table : LogTable
log_table = record { rows = []; last_id = 0 }

-- The second insert fails, after one line.
abbrev second_fails : Option InsertFault
second_fails = some (insert_fails 1 (codes "disk full"))

insert_log_errors-IsUnique_example :
    let o = insert_log_errors second_fails (failure ∷ failure ∷ []) log_table in
    IsUnique o.1.rows
    × (length o.1.rows ≡ 0 + rows_added o.0)
    × Stored o.0.1 (failure ∷ failure ∷ []) log_table o.1
    × ((insert_log_errors none (failure ∷ failure ∷ []) log_table).0.1 ≡ none)
unfolding IsUnique
insert_log_errors-IsUnique_example =
    insert_log_errors-IsUnique second_fails (failure ∷ failure ∷ []) log_table tt

counts_rolled_back :
    insert_log_errors second_fails (failure ∷ failure ∷ []) log_table
    ≡ ((1, some (codes "disk full")), log_table)
unfolding insert_log_errors insert_until insert_lines insert_line same_line any_of text_eq
counts_rolled_back = refl

abbrev disk : DiskRecord
disk = record {
  device = codes "sda";
  model = codes "m";
  serial = codes "s";
  firmware = codes "f";
  capacity = 100;
  rotation = 7200;
  transport = codes "sata";
  temp = 35;
  power_on_hours = 10;
  power_cycles = 2;
  reallocated = 0;
  pending = 0;
  uncorrectable = 0;
  crc_errors = 0;
  smart_status = codes "passed";
  standby = false;
  percent_used = 0;
  last_seen = 0;
}

abbrev asleep : DiskRecord
asleep = record disk { temp = 0; power_on_hours = 0; smart_status = []; standby = true }

abbrev disk_tables : DiskTables
disk_tables = record { disks = []; temps = [] }

upsert_disks_smart_example :
    smart_in (lookup (codes "sda") (upsert_disks none 9 (disk ∷ asleep ∷ []) disk_tables).1.disks)
    ≡ last_awake (codes "sda") (disk ∷ asleep ∷ []) (smart_in (lookup (codes "sda") []))
upsert_disks_smart_example = upsert_disks_smart 9 (disk ∷ asleep ∷ []) disk_tables (codes "sda")

keeps_awake : last_awake (codes "sda") (disk ∷ asleep ∷ []) none ≡ smart_in (some disk)
unfolding last_awake smart_in text_eq
keeps_awake = refl
