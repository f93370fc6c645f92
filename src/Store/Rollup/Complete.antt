-- ===== src/Store/Rollup/Complete.antt =====
-- internal/store/rollup.go: over any history of inserts and maintenance, each 5-minute row sums up
-- every row that was ever inserted for its key and its five minutes.
use homelab_dashboard.Prelude.{
  ℕ, ◌-◌, ◌*◌, ◌/◌, ◌≤◌, ◌<◌, ◌≡◌, inl, inr, refl, sym, ◌∙◌, ap, ap₂, false, ◌&&◌, none, List, [],
  ◌∷◌, ◌++◌, Text, ltb, leb, if◌then◌else◌, keep_if, arith, Bool-cases, All,
}
use homelab_dashboard.Store.Rollup.{
  Table, find, bucket, group, roll, prune_raw, prune_rolled, raw_cutoff, maintain,
}
use homelab_dashboard.Store.Rollup.Groups.{
  summary, find-roll, find-prune, find-prune-none, group-selected, group-prune, group-append,
}

-- What happens to a pair of tables: rows are inserted, or a maintenance transaction commits.
pub data Step (Row : Type 0) : Type 0 where
  inserted : List Row → Step Row
  maintained : ℕ → ℕ → Step Row

-- The tables, the watermark, all rows ever inserted, and the latest retention cutoff.
pub record History (Row : Type 0) (Sum : Type 0) : Type 0 where
  pub table : Table Row Sum
  pub watermark : ℕ
  pub all : List Row
  pub forgotten : ℕ

abbrev pub max : ℕ → ℕ → ℕ
max a b = if ltb a b then b else a

find_nothing : {Sum : Type 0} (k : Text) (b : ℕ) → find {Sum = Sum} k b [] ≡ none
unfolding find
find_nothing k b = refl

not_within : (w b t : ℕ) → t ≤ b → (leb w b && ltb b t) ≡ false
not_within w b t h = ground arith

module _ {Row : Type 0} {Sum : Type 0} (row_key : Row → Text) (row_ts : Row → ℕ)
    (sum_up : List Row → Sum) where
  unfoldable pub step : Step Row → History Row Sum → History Row Sum
  step (inserted rows) h = record h {
    table = record h.table { raw = h.table.raw ++ rows };
    all = h.all ++ rows;
  }
  step (maintained now retention) h = record h {
    table = maintain row_key row_ts sum_up h.watermark now retention h.table;
    watermark = max h.watermark (bucket now);
    forgotten = max h.forgotten (now - retention);
  }

  -- The steps are listed newest first.
  unfoldable pub history : List (Step Row) → History Row Sum
  history [] = record {
    table = record { raw = []; rolled = [] };
    watermark = 0;
    all = [];
    forgotten = 0;
  }
  history (s ∷ past) = step s (history past)

  -- No row comes after its five minutes were summed up.
  abbrev pub InTime : List (Step Row) → Type 0
  InTime [] = Unit
  InTime (inserted rows ∷ past) = All (λ r. (history past).watermark ≤ row_ts r) rows × InTime past
  InTime (maintained now retention ∷ past) = InTime past

  -- The 5-minute rows below the watermark are the sums of all rows, the raw rows above it are all
  -- there, and there is no 5-minute row above it.
  pub record Complete (h : History Row Sum) : Type 0 where
    pub whole : (q : ℕ) × (h.watermark ≡ q * 300)
    pub raw_kept :
        (k : Text) (b : ℕ)
        → h.watermark ≤ b
        → group row_key row_ts sum_up k b h.table.raw ≡ group row_key row_ts sum_up k b h.all
    pub summed :
        (k : Text) (b : ℕ)
        → b < h.watermark
        → h.forgotten ≤ b
        → find k b h.table.rolled
          ≡ summary row_key row_ts sum_up (group row_key row_ts sum_up k b h.all) none
    pub unsummed : (k : Text) (b : ℕ) → h.watermark ≤ b → find k b h.table.rolled ≡ none

  late_group :
      (k : Text) (b w : ℕ) (rows : List Row)
      → All (λ r. w ≤ row_ts r) rows
      → (q : ℕ) × (w ≡ q * 300)
      → b < w
      → group row_key row_ts sum_up k b rows ≡ []
  unfolding group keep_if
  late_group k b w [] all aligned h = refl
  late_group k b w (r ∷ rows) (le, all) (q, e) h =
      ground (arith, late_group k b w rows all (q, e) h)

  append-nil : (xs : List Row) → xs ++ [] ≡ xs
  append-nil [] = refl
  append-nil (x ∷ xs) = ap (λ ys. x ∷ ys) (append-nil xs)

  inserted-Complete :
      (rows : List Row) (h : History Row Sum)
      → All (λ r. h.watermark ≤ row_ts r) rows
      → Complete h
      → Complete (step (inserted rows) h)
  unfolding step
  inserted-Complete rows h late c = record {
    whole = c.whole;
    raw_kept = λ k b le.
        group-append row_key row_ts sum_up k b h.table.raw rows
        ∙ ap (λ (g : List Row). g ++ group row_key row_ts sum_up k b rows) (c.raw_kept k b le)
        ∙ sym (group-append row_key row_ts sum_up k b h.all rows);
    summed = λ k b lt le.
        c.summed k b lt le
        ∙ ap (λ (g : List Row). summary row_key row_ts sum_up g none)
            (sym (
              group-append row_key row_ts sum_up k b h.all rows
              ∙ ap (λ (g : List Row). group row_key row_ts sum_up k b h.all ++ g)
                  (late_group k b h.watermark rows late c.whole lt)
              ∙ append-nil _));
    unsummed = c.unsummed;
  }

  maybe_roll : ℕ → ℕ → Table Row Sum → Table Row Sum
  maybe_roll from to t = if ltb from to then (roll row_key row_ts sum_up from to t).0 else t

  maybe_roll-raw : (from to : ℕ) (t : Table Row Sum) → (maybe_roll from to t).raw ≡ t.raw
  unfolding maybe_roll roll
  maybe_roll-raw from to t = elim (Bool-cases (ltb from to)) [
    | inl h ↦ rw h refl
    | inr h ↦ rw h refl
  ]

  maybe_roll-find :
      (k : Text) (b p q : ℕ) (t : Table Row Sum)
      → find k b (maybe_roll (p * 300) (q * 300) t).rolled ≡ (
          if leb (p * 300) b && ltb b (q * 300)
          then summary row_key row_ts sum_up
              (group row_key row_ts sum_up k b t.raw)
              (find k b t.rolled)
          else find k b t.rolled)
  unfolding maybe_roll
  maybe_roll-find k b p q t = elim (Bool-cases (ltb (p * 300) (q * 300))) [
    | inl h ↦ rw h (
        find-roll row_key row_ts sum_up k b (p * 300) (q * 300) t
        ∙ ap (λ (g : List Row). summary row_key row_ts sum_up g (find k b t.rolled))
            (group-selected row_key row_ts sum_up k b p q t.raw)
        ∙ elim (Bool-cases (leb (p * 300) b && ltb b (q * 300))) [
          | inl within ↦ rw within refl
          | inr outside ↦ rw outside refl
        ])
    | inr h ↦ rw h (ground arith)
  ]

  maintain-raw :
      (k : Text) (b from now retention : ℕ) (t : Table Row Sum)
      → bucket now ≤ b
      → group row_key row_ts sum_up k b (maintain row_key row_ts sum_up from now retention t).raw
        ≡ group row_key row_ts sum_up k b t.raw
  unfolding maintain prune_raw prune_rolled maybe_roll raw_cutoff
  maintain-raw k b from now retention t h =
      group-prune row_key row_ts sum_up k b _ (maybe_roll from (bucket now) t).raw (ground arith)
      ∙ ap (group row_key row_ts sum_up k b) (maybe_roll-raw from (bucket now) t)

  maintain-find :
      (k : Text) (b p now retention : ℕ) (t : Table Row Sum)
      → now - retention ≤ b
      → find k b (maintain row_key row_ts sum_up (p * 300) now retention t).rolled ≡ (
          if leb (p * 300) b && ltb b (bucket now)
          then summary row_key row_ts sum_up
              (group row_key row_ts sum_up k b t.raw)
              (find k b t.rolled)
          else find k b t.rolled)
  unfolding maintain prune_raw prune_rolled maybe_roll
  maintain-find k b p now retention t h =
      find-prune k b (now - retention) (maybe_roll (p * 300) (bucket now) t).rolled h
      ∙ maybe_roll-find k b p (now / 300) t

  maintain-at :
      (k : Text) (b from now retention : ℕ) (t : Table Row Sum)
      → (p : ℕ) × (from ≡ p * 300)
      → now - retention ≤ b
      → find k b (maintain row_key row_ts sum_up from now retention t).rolled ≡ (
          if leb from b && ltb b (bucket now)
          then summary row_key row_ts sum_up
              (group row_key row_ts sum_up k b t.raw)
              (find k b t.rolled)
          else find k b t.rolled)
  maintain-at k b from now retention t (p, e) h = rw e (maintain-find k b p now retention t h)

  -- A 5-minute row after a maintenance, where the table was complete before it.
  maintained_row :
      (k : Text) (b now retention : ℕ) (h : History Row Sum)
      → Complete h
      → max h.forgotten (now - retention) ≤ b
      → b < max h.watermark (bucket now)
      → find k b (maintain row_key row_ts sum_up h.watermark now retention h.table).rolled
        ≡ summary row_key row_ts sum_up (group row_key row_ts sum_up k b h.all) none
  maintained_row k b now retention h c le lt =
      maintain-at k b h.watermark now retention h.table c.whole (ground arith)
      ∙ elim (Bool-cases (leb h.watermark b && ltb b (bucket now))) [
        | inl new ↦ rw new (
            ap₂ (summary row_key row_ts sum_up) (c.raw_kept k b (ground arith))
              (c.unsummed k b (ground arith)))
        | inr old ↦ rw old (c.summed k b (ground arith) (ground arith))
      ]

  absent_row :
      (k : Text) (b now retention : ℕ) (h : History Row Sum)
      → Complete h
      → max h.watermark (bucket now) ≤ b
      → find k b (maintain row_key row_ts sum_up h.watermark now retention h.table).rolled ≡ none
  unfolding maintain prune_raw prune_rolled maybe_roll
  absent_row k b now retention h c le =
      let (p, e) = c.whole in
      find-prune-none k b (now - retention) (maybe_roll h.watermark (bucket now) h.table).rolled (
        ap (λ (w : ℕ). find k b (maybe_roll w (bucket now) h.table).rolled) e
        ∙ maybe_roll-find k b p (now / 300) h.table
        ∙ rw (not_within (p * 300) b (bucket now) (ground arith)) (c.unsummed k b (ground arith)))

  maintained-Complete :
      (now retention : ℕ) (h : History Row Sum)
      → Complete h
      → Complete (step (maintained now retention) h)
  unfolding step
  maintained-Complete now retention h c = record {
    whole = elim (Bool-cases (ltb h.watermark (bucket now))) [
      | inl later ↦ rw later (now / 300, refl)
      | inr same ↦ rw same c.whole
    ];
    raw_kept = λ k b le.
        maintain-raw k b h.watermark now retention h.table (ground arith)
        ∙ c.raw_kept k b (ground arith);
    summed = λ k b lt le. maintained_row k b now retention h c le lt;
    unsummed = λ k b le. absent_row k b now retention h c le;
  }

  -- Over any history of inserts, of rows that come before their five minutes are summed up, and of
  -- maintenance transactions at any times with any retention: the watermark is a multiple of 300; for
  -- each key, the raw rows of every bucket from the watermark on are all there; the 5-minute row of
  -- every bucket below the watermark, and not before the latest retention cutoff, sums up all rows
  -- that were ever inserted for it, and is missing if there were none; no later bucket has a row.
  pub history-Complete : (past : List (Step Row)) → InTime past → Complete (history past)
  unfolding history
  history-Complete [] ok = record {
    whole = (0, refl);
    raw_kept = λ k b le. refl;
    summed = λ k b lt le. absurd (omega arith);
    unsummed = λ k b le. find_nothing k b;
  }
  history-Complete (inserted rows ∷ past) (late, ok) =
      inserted-Complete rows (history past) late (history-Complete past ok)
  history-Complete (maintained now retention ∷ past) ok =
      maintained-Complete now retention (history past) (history-Complete past ok)
