-- ===== src/Store/Disks.antt =====
-- internal/store/records.go, the tables disks and disk_temps: UpsertDisks and Disks. The rows of
-- disks stand under their primary key; a transaction that fails is rolled back.
pub mod Smart
use homelab_dashboard.Prelude.{
  ℕ, Bool, true, false, not, ◌&&◌, Option, none, some, List, [], ◌∷◌, Text, text_eq, ltb, ◌==◌,
  if◌then◌else◌, keep_if,
}
use homelab_dashboard.Prelude.Assoc.{Map, lookup, insert}
use homelab_dashboard.Prelude.Sorting.{sort_by}

pub record DiskRecord : Type 0 where
  pub device : Text
  pub model : Text
  pub serial : Text
  pub firmware : Text
  pub capacity : ℕ
  pub rotation : ℕ
  pub transport : Text
  pub temp : ℕ
  pub power_on_hours : ℕ
  pub power_cycles : ℕ
  pub reallocated : ℕ
  pub pending : ℕ
  pub uncorrectable : ℕ
  pub crc_errors : ℕ
  pub smart_status : Text
  pub standby : Bool
  pub percent_used : ℕ
  pub last_seen : ℕ

-- A row of disk_temps, whose primary key is the device and the time.
pub record TempRow : Type 0 where
  pub device : Text
  pub ts : ℕ
  pub temp : ℕ

pub record DiskTables : Type 0 where
  pub disks : Map DiskRecord
  pub temps : List TempRow

-- CASE WHEN excluded.x = '' THEN disks.x ELSE excluded.x END, and with 0.
unfoldable pub text_or_old : Text → Text → Text
text_or_old [] old = old
text_or_old (c ∷ cs) old = c ∷ cs

unfoldable pub number_or_old : ℕ → ℕ → ℕ
number_or_old n old = if n == 0 then old else n

-- CASE WHEN excluded.standby = 1 THEN disks.x ELSE excluded.x END
unfoldable pub unless_standby : {A : Type 0} → Bool → A → A → A
unless_standby standby new old = if standby then old else new

unfoldable pub merge_disk : ℕ → DiskRecord → Option DiskRecord → DiskRecord
unfolding text_or_old number_or_old unless_standby
merge_disk ts d none = record d { last_seen = ts }
merge_disk ts d (some old) = record {
  device = d.device;
  model = text_or_old d.model old.model;
  serial = text_or_old d.serial old.serial;
  firmware = text_or_old d.firmware old.firmware;
  capacity = number_or_old d.capacity old.capacity;
  rotation = number_or_old d.rotation old.rotation;
  transport = text_or_old d.transport old.transport;
  temp = unless_standby d.standby d.temp old.temp;
  power_on_hours = unless_standby d.standby d.power_on_hours old.power_on_hours;
  power_cycles = unless_standby d.standby d.power_cycles old.power_cycles;
  reallocated = unless_standby d.standby d.reallocated old.reallocated;
  pending = unless_standby d.standby d.pending old.pending;
  uncorrectable = unless_standby d.standby d.uncorrectable old.uncorrectable;
  crc_errors = unless_standby d.standby d.crc_errors old.crc_errors;
  smart_status = unless_standby d.standby d.smart_status old.smart_status;
  standby = d.standby;
  percent_used = unless_standby d.standby d.percent_used old.percent_used;
  last_seen = ts;
}

-- INSERT OR REPLACE INTO disk_temps
unfoldable pub insert_temp : TempRow → List TempRow → List TempRow
unfolding keep_if
insert_temp row temps =
    row ∷ keep_if (λ r. not (text_eq r.device row.device && r.ts == row.ts)) temps

unfoldable pub upsert_disk : ℕ → DiskRecord → DiskTables → DiskTables
unfolding merge_disk insert_temp lookup insert
upsert_disk ts d t =
    let row : TempRow = record { device = d.device; ts = ts; temp = d.temp } in
    record {
      disks = insert d.device (merge_disk ts d (lookup d.device t.disks)) t.disks;
      temps = if not d.standby && ltb 0 d.temp then insert_temp row t.temps else t.temps;
    }

unfoldable pub upsert_all : ℕ → List DiskRecord → DiskTables → DiskTables
unfolding upsert_disk
upsert_all ts [] t = t
upsert_all ts (d ∷ ds) t = upsert_all ts ds (upsert_disk ts d t)

unfoldable pub upsert_disks :
    Option Text → ℕ → List DiskRecord → DiskTables → Option Text × DiskTables
unfolding upsert_all
upsert_disks (some e) ts disks t = (some e, t)
upsert_disks none ts disks t = (none, upsert_all ts disks t)

disk_rows : Map DiskRecord → List DiskRecord
disk_rows [] = []
disk_rows ((k, d) ∷ m) = d ∷ disk_rows m

-- SELECT ... ORDER BY device
unfoldable pub disks : DiskTables → List DiskRecord
unfolding disk_rows sort_by
disks t = sort_by (λ d. d.device) (disk_rows t.disks)
