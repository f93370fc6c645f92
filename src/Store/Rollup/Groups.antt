-- ===== src/Store/Rollup/Groups.antt =====
-- internal/store/rollup.go: what one roll-up and the two deletions do to the row of a group.
use homelab_dashboard.Prelude.{
  ℕ, ◌*◌, ◌≤◌, ◌≡◌, inl, inr, refl, ◌∙◌, ap, Bool, true, false, ◌&&◌, Option, none, some, List, [],
  ◌∷◌, ◌++◌, Text, text_eq, text_eq_iff, ltb, leb, ◌==◌, if◌then◌else◌, keep_if, arith, Bool-cases,
}
use homelab_dashboard.Store.Rollup.{
  Rolled, Table, put, find, add_group, bucket, selected, group, groups, put_groups, roll,
}

pub find-put :
    {Sum : Type 0} (k : Text) (b : ℕ) (new : Rolled Sum) (rs : List (Rolled Sum))
    → find k b (put new rs)
      ≡ (if text_eq new.key k && (new.ts == b) then some new.sum else find k b rs)
unfolding find put
find-put k b new [] = refl
find-put k b new (r ∷ rs) = ground (
  arith,
  text_eq_iff new.key k,
  text_eq_iff r.key new.key,
  text_eq_iff r.key k,
  find-put k b new rs,
)

pub find-prune :
    {Sum : Type 0} (k : Text) (b c : ℕ) (rs : List (Rolled Sum))
    → c ≤ b
    → find k b (keep_if (λ (r : Rolled Sum). leb c r.ts) rs) ≡ find k b rs
unfolding find keep_if
find-prune k b c [] h = refl
find-prune k b c (r ∷ rs) h = ground (arith, find-prune k b c rs h)

pub find-prune-none :
    {Sum : Type 0} (k : Text) (b c : ℕ) (rs : List (Rolled Sum))
    → find k b rs ≡ none
    → find k b (keep_if (λ (r : Rolled Sum). leb c r.ts) rs) ≡ none
unfolding find keep_if
find-prune-none k b c [] h = refl
find-prune-none k b c (r ∷ rs) h = ground (arith, find-prune-none k b c rs)

has_group : Text → ℕ → List (Text × ℕ) → Bool
has_group k b [] = false
has_group k b ((j, a) ∷ gs) = if text_eq j k && (a == b) then true else has_group k b gs

has_group-add :
    (k j : Text) (b a : ℕ) (gs : List (Text × ℕ))
    → has_group k b (add_group j a gs)
      ≡ (if text_eq j k && (a == b) then true else has_group k b gs)
unfolding has_group add_group
has_group-add k j b a [] = refl
has_group-add k j b a ((i, c) ∷ gs) =
    ground (arith, text_eq_iff j k, text_eq_iff i j, text_eq_iff i k, has_group-add k j b a gs)

module _ {Row : Type 0} {Sum : Type 0} (row_key : Row → Text) (row_ts : Row → ℕ)
    (sum_up : List Row → Sum) where
  -- The row that a group gets: none for an empty group, which leaves the row that was there.
  abbrev pub summary : List Row → Option Sum → Option Sum
  summary [] old = old
  summary (r ∷ rs) old = some (sum_up (r ∷ rs))

  is_empty : List Row → Bool
  is_empty [] = true
  is_empty (r ∷ rs) = false

  has_group-groups :
      (k : Text) (b : ℕ) (rows : List Row)
      → has_group k b (groups row_key row_ts sum_up rows)
        ≡ (if is_empty (group row_key row_ts sum_up k b rows) then false else true)
  unfolding has_group groups group keep_if is_empty
  has_group-groups k b [] = refl
  has_group-groups k b (r ∷ rows) = ground (
    arith,
    has_group-add k (row_key r) b (bucket (row_ts r)) (groups row_key row_ts sum_up rows),
    has_group-groups k b rows,
  )

  put_groups-find :
      (k : Text) (b : ℕ) (rows : List Row) (gs : List (Text × ℕ)) (rs : List (Rolled Sum))
      → find k b (put_groups row_key row_ts sum_up rows gs rs) ≡ (
          if has_group k b gs
          then some (sum_up (group row_key row_ts sum_up k b rows))
          else find k b rs)
  unfolding put_groups has_group
  put_groups-find k b rows [] rs = refl
  put_groups-find k b rows ((j, a) ∷ gs) rs =
      let new : Rolled Sum = record {
        key = j;
        ts = a;
        sum = sum_up (group row_key row_ts sum_up j a rows);
      } in
      put_groups-find k b rows gs (put new rs) ∙ elim (Bool-cases (has_group k b gs)) [
        | inl more ↦ ground (arith, text_eq_iff j k)
        | inr last ↦ ground (arith, text_eq_iff j k, find-put k b new rs)
      ]

  summary_of :
      (k : Text) (b : ℕ) (rows : List Row) (old : Option Sum)
      → (if (if is_empty (group row_key row_ts sum_up k b rows) then false else true)
          then some (sum_up (group row_key row_ts sum_up k b rows))
          else old)
        ≡ summary (group row_key row_ts sum_up k b rows) old
  unfolding is_empty
  summary_of k b rows old = ground arith

  pub find-roll :
      (k : Text) (b from to : ℕ) (t : Table Row Sum)
      → find k b (roll row_key row_ts sum_up from to t).0.rolled
        ≡ summary
            (group row_key row_ts sum_up k b (selected row_key row_ts sum_up from to t.raw))
            (find k b t.rolled)
  unfolding roll
  find-roll k b from to t =
      let rows = selected row_key row_ts sum_up from to t.raw in
      put_groups-find k b rows (groups row_key row_ts sum_up rows) t.rolled
      ∙ ap
          (λ (h : Bool).
            if h then some (sum_up (group row_key row_ts sum_up k b rows)) else find k b t.rolled)
          (has_group-groups k b rows)
      ∙ summary_of k b rows (find k b t.rolled)

  -- Both bounds of a roll-up are multiples of the bucket size, so it takes whole buckets.
  pub group-selected :
      (k : Text) (b p q : ℕ) (rows : List Row)
      → group row_key row_ts sum_up k b (selected row_key row_ts sum_up (p * 300) (q * 300) rows)
        ≡ (if leb (p * 300) b && ltb b (q * 300) then group row_key row_ts sum_up k b rows else [])
  unfolding group selected keep_if
  group-selected k b p q [] = ground arith
  group-selected k b p q (r ∷ rows) = ground (arith, group-selected k b p q rows)

  pub group-prune :
      (k : Text) (b c : ℕ) (rows : List Row)
      → c ≤ b
      → group row_key row_ts sum_up k b (keep_if (λ r. leb c (row_ts r)) rows)
        ≡ group row_key row_ts sum_up k b rows
  unfolding group keep_if
  group-prune k b c [] h = refl
  group-prune k b c (r ∷ rows) h = ground (arith, group-prune k b c rows h)

  pub group-append :
      (k : Text) (b : ℕ) (xs ys : List Row)
      → group row_key row_ts sum_up k b (xs ++ ys)
        ≡ group row_key row_ts sum_up k b xs ++ group row_key row_ts sum_up k b ys
  unfolding group keep_if
  group-append k b [] ys = refl
  group-append k b (x ∷ xs) ys = ground (arith, group-append k b xs ys)
