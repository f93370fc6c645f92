-- ===== src/Store/Disks/Smart.antt =====
-- internal/store/records.go: which report the SMART values of a disk come from after UpsertDisks.
use homelab_dashboard.Prelude.{
  ℕ, ◌≡◌, refl, ap, ◌∙◌, inl, inr, Option, none, some, List, [], ◌∷◌, Text, text_eq, text_eq_iff,
  Bool-cases, if◌then◌else◌,
}
use homelab_dashboard.Prelude.Assoc.{lookup, lookup-insert}
use homelab_dashboard.Store.Disks.{
  DiskRecord, DiskTables, merge_disk, unless_standby, upsert_disk, upsert_all, upsert_disks,
}

-- The values that only a disk that is awake reports.
pub record Smart : Type 0 where
  pub temp : ℕ
  pub power_on_hours : ℕ
  pub power_cycles : ℕ
  pub reallocated : ℕ
  pub pending : ℕ
  pub uncorrectable : ℕ
  pub crc_errors : ℕ
  pub smart_status : Text
  pub percent_used : ℕ

unfoldable pub smart : DiskRecord → Smart
smart d = record {
  temp = d.temp;
  power_on_hours = d.power_on_hours;
  power_cycles = d.power_cycles;
  reallocated = d.reallocated;
  pending = d.pending;
  uncorrectable = d.uncorrectable;
  crc_errors = d.crc_errors;
  smart_status = d.smart_status;
  percent_used = d.percent_used;
}

unfoldable pub smart_in : Option DiskRecord → Option Smart
unfolding smart
smart_in none = none
smart_in (some d) = some (smart d)

-- The values after one more report: a disk that sleeps reports none, unless it is new.
unfoldable pub after_report : DiskRecord → Option Smart → Option Smart
unfolding smart
after_report d none = some (smart d)
after_report d (some s) = some (if d.standby then s else smart d)

-- The values after the reports of the device.
unfoldable pub last_awake : Text → List DiskRecord → Option Smart → Option Smart
unfolding after_report
last_awake k [] s = s
last_awake k (d ∷ ds) s = last_awake k ds (if text_eq d.device k then after_report d s else s)

merge_disk_smart :
    (ts : ℕ) (d : DiskRecord) (o : Option DiskRecord)
    → smart_in (some (merge_disk ts d o)) ≡ after_report d (smart_in o)
unfolding merge_disk smart_in after_report unless_standby smart
merge_disk_smart ts d none = refl
merge_disk_smart ts d (some old) = elim (Bool-cases d.standby) [
  | inl e ↦ rw e refl
  | inr e ↦ rw e refl
]

upsert_disk_smart :
    (ts : ℕ) (k : Text) (d : DiskRecord) (t : DiskTables)
    → smart_in (lookup k (upsert_disk ts d t).disks) ≡ (
        if text_eq d.device k
        then after_report d (smart_in (lookup k t.disks))
        else smart_in (lookup k t.disks))
unfolding upsert_disk
upsert_disk_smart ts k d t =
    rw (lookup-insert d.device k (merge_disk ts d (lookup d.device t.disks)) t.disks)
      elim (Bool-cases (text_eq d.device k)) [
        | inl e ↦
            rw (e, (text_eq_iff d.device k).0 e)
              (merge_disk_smart ts (record d { device = k }) (lookup k t.disks))
        | inr e ↦ rw e refl
      ]

-- After UpsertDisks the SMART values of a device are those of its last report in the batch that
-- was awake, or those of its row before; a report from standby gives them only for a new device.
pub upsert_disks_smart :
    (ts : ℕ) (ds : List DiskRecord) (t : DiskTables) (k : Text)
    → smart_in (lookup k (upsert_disks none ts ds t).1.disks)
      ≡ last_awake k ds (smart_in (lookup k t.disks))
unfolding upsert_disks upsert_all last_awake
upsert_disks_smart ts [] t k = refl
upsert_disks_smart ts (d ∷ ds) t k =
    upsert_disks_smart ts ds (upsert_disk ts d t) k
    ∙ ap (last_awake k ds) (upsert_disk_smart ts k d t)
