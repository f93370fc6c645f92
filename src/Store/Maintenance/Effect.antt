-- ===== src/Store/Maintenance/Effect.antt =====
-- internal/store/rollup.go: a committed Rollup is one maintenance of each pair of tables, a failed one
-- changes nothing, and alerts that fire stay.
use homelab_dashboard.Prelude.{
  ℕ, ◌-◌, ◌≡◌, refl, sym, ◌∙◌, ap, ap₂, true, false, List, [], ◌∷◌, Text, ltb, if◌then◌else◌,
  keep_if, arith, Bool-cases, inl, inr,
}
use homelab_dashboard.Store.Alerts.{AlertRecord, is_firing}
use homelab_dashboard.Store.Rollup.{
  Table, bucket, roll, prune_raw, prune_rolled, raw_cutoff, maintain,
}
use homelab_dashboard.Store.Rollup.Complete.{Step, maintained, History, history, step, max}
use homelab_dashboard.Store.Samples.{
  Sql, RawSample, RawHost, RawMount, SampleSum, HostSum, MountSum, sum_samples, sum_hosts,
  sum_mounts,
}
use homelab_dashboard.Store.Maintenance.{
  Db, Outcome, mark_or_zero, watermark_read, prune_alerts, roll_tables, prune_raws, prune_rollups,
  prune_rest, transaction, rollup,
}

module _ {Row : Type 0} {Sum : Type 0} (row_key : Row → Text) (row_ts : Row → ℕ)
    (sum_up : List Row → Sum) where
  maintain-new :
      (from now retention : ℕ) (t : Table Row Sum)
      → ltb from (bucket now) ≡ true
      → maintain row_key row_ts sum_up from now retention t
        ≡ (prune_rolled row_key row_ts sum_up
            (now - retention)
            (prune_raw row_key row_ts sum_up
              (raw_cutoff now (bucket now))
              (roll row_key row_ts sum_up from (bucket now) t).0).0).0
  unfolding maintain prune_rolled
  maintain-new from now retention t h = rw h refl

  maintain-old :
      (from now retention : ℕ) (t : Table Row Sum)
      → ltb from (bucket now) ≡ false
      → maintain row_key row_ts sum_up from now retention t
        ≡ (prune_rolled row_key row_ts sum_up
            (now - retention)
            (prune_raw row_key row_ts sum_up (raw_cutoff now (bucket now)) t).0).0
  unfolding maintain prune_rolled
  maintain-old from now retention t h = rw h refl

prune_alerts-firing :
    (cutoff : ℕ) (rows : List AlertRecord)
    → keep_if (λ r. is_firing r.state) (prune_alerts cutoff rows)
      ≡ keep_if (λ r. is_firing r.state) rows
unfolding prune_alerts keep_if
prune_alerts-firing cutoff [] = refl
prune_alerts-firing cutoff (r ∷ rows) = ground (arith, prune_alerts-firing cutoff rows)

module _ {F : Type 0} (sql : Sql F) where
  abbrev pub samples_history : List (Step (RawSample F)) → History (RawSample F) (SampleSum F)
  samples_history = history (λ r. r.container_id) (λ r. r.ts) (sum_samples sql)

  abbrev pub hosts_history : List (Step (RawHost F)) → History (RawHost F) (HostSum F)
  hosts_history = history (λ r. []) (λ r. r.ts) (sum_hosts sql)

  abbrev pub mounts_history : List (Step RawMount) → History RawMount MountSum
  mounts_history = history (λ r. r.mount) (λ r. r.ts) (sum_mounts sql)

  -- The tables are those that three histories leave, and the watermark is that of each of them.
  pub record Represents (db : Db F) (ps : List (Step (RawSample F))) (ph : List (Step (RawHost F)))
      (pm : List (Step RawMount)) : Type 0 where
    pub samples : db.samples ≡ (samples_history ps).table
    pub hosts : db.hosts ≡ (hosts_history ph).table
    pub mounts : db.mounts ≡ (mounts_history pm).table
    pub samples_mark : mark_or_zero db.watermark ≡ (samples_history ps).watermark
    pub hosts_mark : mark_or_zero db.watermark ≡ (hosts_history ph).watermark
    pub mounts_mark : mark_or_zero db.watermark ≡ (mounts_history pm).watermark

  -- A transaction on each pair of tables, and on the watermark.
  transaction-tables :
      (from now retention : ℕ) (db : Db F)
      → from ≡ mark_or_zero db.watermark
      → let db' = (transaction sql from now retention db).1 in
        (db'.samples
          ≡ maintain
              (λ r. r.container_id)
              (λ r. r.ts)
              (sum_samples sql)
              from
              now
              retention
              db.samples)
        × (db'.hosts ≡ maintain (λ r. []) (λ r. r.ts) (sum_hosts sql) from now retention db.hosts)
        × (db'.mounts
            ≡ maintain (λ r. r.mount) (λ r. r.ts) (sum_mounts sql) from now retention db.mounts)
        × (mark_or_zero db'.watermark ≡ max from (bucket now))
  unfolding transaction roll_tables prune_raws prune_rollups prune_rest
  transaction-tables from now retention db e = elim (Bool-cases (ltb from (bucket now))) [
    | inl h ↦ rw h (
      sym (maintain-new _ _ _ from now retention db.samples h),
      sym (maintain-new _ _ _ from now retention db.hosts h),
      sym (maintain-new _ _ _ from now retention db.mounts h),
      refl,
    )
    | inr h ↦ rw h (
      sym (maintain-old _ _ _ from now retention db.samples h),
      sym (maintain-old _ _ _ from now retention db.hosts h),
      sym (maintain-old _ _ _ from now retention db.mounts h),
      sym e,
    )
  ]

  -- The histories after a call of Rollup.
  abbrev pub after : {Row : Type 0} → Outcome → ℕ → ℕ → List (Step Row) → List (Step Row)
  after o now retention past = if o.rest_ok then maintained now retention ∷ past else past

  committed :
      (from now retention : ℕ) (db : Db F) (ps : List (Step (RawSample F)))
      (ph : List (Step (RawHost F))) (pm : List (Step RawMount))
      → from ≡ mark_or_zero db.watermark
      → Represents db ps ph pm
      → Represents
          (transaction sql from now retention db).1
          (maintained now retention ∷ ps)
          (maintained now retention ∷ ph)
          (maintained now retention ∷ pm)
  unfolding history step
  committed from now retention db ps ph pm e r =
      let (samples, hosts, mounts, mark) = transaction-tables from now retention db e in
      let moved = λ (w : ℕ) (h : mark_or_zero db.watermark ≡ w).
        mark ∙ ap (λ (f : ℕ). max f (bucket now)) (e ∙ h) in
      record {
        samples =
            samples
            ∙ ap₂
                (λ f t.
                  maintain (λ (r : RawSample F). r.container_id) (λ r. r.ts) (sum_samples sql) f now
                    retention t)
                (e ∙ r.samples_mark) r.samples;
        hosts =
            hosts
            ∙ ap₂
                (λ f t.
                  maintain (λ (r : RawHost F). []) (λ r. r.ts) (sum_hosts sql) f now retention t)
                (e ∙ r.hosts_mark) r.hosts;
        mounts =
            mounts
            ∙ ap₂
                (λ f t.
                  maintain (λ (r : RawMount). r.mount) (λ r. r.ts) (sum_mounts sql) f now retention
                    t)
                (e ∙ r.mounts_mark) r.mounts;
        samples_mark = moved _ r.samples_mark;
        hosts_mark = moved _ r.hosts_mark;
        mounts_mark = moved _ r.mounts_mark;
      }

  -- Rollup refines the histories of the three pairs of tables. If they represent the database and the
  -- read of the watermark works, then after Rollup the database is represented by the histories with
  -- one maintenance more if the other statements work, and by the same histories if one fails.
  pub rollup-Represents :
      (o : Outcome) (now retention : ℕ) (db : Db F) (ps : List (Step (RawSample F)))
      (ph : List (Step (RawHost F))) (pm : List (Step RawMount))
      → o.read_ok ≡ true
      → Represents db ps ph pm
      → Represents
          (rollup sql o now retention db).1
          (after o now retention ps)
          (after o now retention ph)
          (after o now retention pm)
  unfolding rollup watermark_read
  rollup-Represents o now retention db ps ph pm read r = elim (Bool-cases o.rest_ok) [
    | inl h ↦ rw (h, read) (committed (mark_or_zero db.watermark) now retention db ps ph pm refl r)
    | inr h ↦ rw h r
  ]

  transaction-alerts :
      (from now retention : ℕ) (db : Db F)
      → (transaction sql from now retention db).1.alerts ≡ prune_alerts (now - retention) db.alerts
  unfolding transaction roll_tables prune_raws prune_rollups prune_rest
  transaction-alerts from now retention db = elim (Bool-cases (ltb from (bucket now))) [
    | inl h ↦ rw h refl
    | inr h ↦ rw h refl
  ]

  -- Rollup removes no alert that fires, whatever the time, the retention and the outcome.
  pub rollup_keeps_firing :
      (o : Outcome) (now retention : ℕ) (db : Db F)
      → keep_if (λ r. is_firing r.state) (rollup sql o now retention db).1.alerts
        ≡ keep_if (λ r. is_firing r.state) db.alerts
  unfolding rollup watermark_read
  rollup_keeps_firing o now retention db = elim (Bool-cases o.rest_ok) [
    | inl h ↦ rw h (
        ap (keep_if (λ (r : AlertRecord). is_firing r.state))
          (transaction-alerts (watermark_read o db.watermark) now retention db)
        ∙ prune_alerts-firing (now - retention) db.alerts)
    | inr h ↦ rw h refl
  ]
