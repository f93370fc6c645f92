-- ===== src/Store/Rollup.antt =====
-- internal/store/rollup.go: the statements of Rollup on one pair of tables, raw rows and 5-minute
-- rows. Times are Unix seconds. The columns that a statement only copies or aggregates are the
-- parameter `Sum`: `sum_up` gives them from the rows of a group.
pub mod Groups
pub mod Complete
use homelab_dashboard.Prelude.{
  ℕ, ◌+◌, ◌-◌, ◌*◌, ◌/◌, Bool, true, false, ◌&&◌, Option, none, some, List, [], ◌∷◌, Text, text_eq,
  length, ltb, leb, ◌==◌, if◌then◌else◌, keep_if,
}

abbrev pub bucket_size : ℕ
bucket_size = 300

-- (ts / 300) * 300, and the seconds of now.Truncate(bucketSize)
abbrev pub bucket : ℕ → ℕ
bucket ts = ts / bucket_size * bucket_size

-- now.Add(-rawWindow); before the first day no row is old.
abbrev pub raw_window : ℕ
raw_window = 86_400

-- unix(now.Add(-rawWindow)), but not above `to`
unfoldable pub raw_cutoff : ℕ → ℕ → ℕ
raw_cutoff now to = if ltb to (now - raw_window) then to else now - raw_window

-- A row of a 5-minute table; its key and time are the primary key.
pub record Rolled (Sum : Type 0) : Type 0 where
  pub key : Text
  pub ts : ℕ
  pub sum : Sum

pub record Table (Row : Type 0) (Sum : Type 0) : Type 0 where
  pub raw : List Row
  pub rolled : List (Rolled Sum)

module _ {Sum : Type 0} where
  -- INSERT OR REPLACE of one row
  unfoldable pub put : Rolled Sum → List (Rolled Sum) → List (Rolled Sum)
  put new [] = new ∷ []
  put new (r ∷ rs) =
      let rest = put new rs in
      if text_eq r.key new.key && (r.ts == new.ts) then new ∷ rs else r ∷ rest

  unfoldable pub find : Text → ℕ → List (Rolled Sum) → Option Sum
  find k b [] = none
  find k b (r ∷ rs) = if text_eq r.key k && (r.ts == b) then some r.sum else find k b rs

pub add_group : Text → ℕ → List (Text × ℕ) → List (Text × ℕ)
add_group k b [] = (k, b) ∷ []
add_group k b ((j, a) ∷ gs) =
    let rest = add_group k b gs in if text_eq j k && (a == b) then (j, a) ∷ gs else (j, a) ∷ rest

module _ {Row : Type 0} {Sum : Type 0} (row_key : Row → Text) (row_ts : Row → ℕ)
    (sum_up : List Row → Sum) where
  -- WHERE ts >= from AND ts < to
  unfoldable pub selected : ℕ → ℕ → List Row → List Row
  selected from to rows = keep_if (λ r. leb from (row_ts r) && ltb (row_ts r) to) rows

  -- The rows of one group.
  unfoldable pub group : Text → ℕ → List Row → List Row
  group k b rows = keep_if (λ r. text_eq (row_key r) k && (bucket (row_ts r) == b)) rows

  -- GROUP BY key, (ts / 300) * 300
  unfoldable pub groups : List Row → List (Text × ℕ)
  unfolding add_group
  groups [] = []
  groups (r ∷ rows) = add_group (row_key r) (bucket (row_ts r)) (groups rows)

  pub put_groups : List Row → List (Text × ℕ) → List (Rolled Sum) → List (Rolled Sum)
  put_groups rows [] rs = rs
  put_groups rows ((k, b) ∷ gs) rs =
      put_groups rows gs (put (record { key = k; ts = b; sum = sum_up (group k b rows) }) rs)

  -- The INSERT OR REPLACE … SELECT … GROUP BY, with the number of rows that it writes.
  unfoldable pub roll : ℕ → ℕ → Table Row Sum → Table Row Sum × ℕ
  unfolding put_groups
  roll from to t =
      let rows = selected from to t.raw in
      let gs = groups rows in (record t { rolled = put_groups rows gs t.rolled }, length gs)

  -- DELETE … WHERE ts < cutoff, on either table, with the number of rows that it removes.
  unfoldable pub prune_raw : ℕ → Table Row Sum → Table Row Sum × ℕ
  prune_raw cutoff t =
      let kept = keep_if (λ r. leb cutoff (row_ts r)) t.raw in
      (record t { raw = kept }, length t.raw - length kept)

  unfoldable pub prune_rolled : ℕ → Table Row Sum → Table Row Sum × ℕ
  prune_rolled cutoff t =
      let kept = keep_if (λ (r : Rolled Sum). leb cutoff r.ts) t.rolled in
      (record t { rolled = kept }, length t.rolled - length kept)

  -- What a transaction that commits does to the table, and the watermark that it leaves.
  unfoldable pub maintain : ℕ → ℕ → ℕ → Table Row Sum → Table Row Sum
  maintain watermark now retention t =
      let to = bucket now in
      let t₁ = if ltb watermark to then (roll watermark to t).0 else t in
      let t₂ = (prune_raw (raw_cutoff now to) t₁).0 in (prune_rolled (now - retention) t₂).0
