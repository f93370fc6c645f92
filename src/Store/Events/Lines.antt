-- ===== src/Store/Events/Lines.antt =====
-- internal/store/records.go: InsertLogErrors keeps the lines apart, and stores none of them twice.
use homelab_dashboard.Prelude.{
  ℕ, ◌+◌, ◌≡◌, refl, ap, ◌∙◌, inl, inr, Bool, true, false, ◌||◌, Option, none, some, Text, List, [],
  ◌∷◌, ◌++◌, length, ltb, text_eq_iff, text_eq_refl, any_of, arith, Bool-cases, All,
}
use homelab_dashboard.Store.Events.{
  LogErrorRecord, LogTable, InsertFault, begin_fails, insert_fails, commit_fails, insert_until,
  same_line, insert_line, insert_lines, insert_log_errors,
}

any_of-append :
    (p : LogErrorRecord → Bool) (xs ys : List LogErrorRecord)
    → any_of p (xs ++ ys) ≡ (any_of p xs || any_of p ys)
unfolding any_of
any_of-append p [] ys = refl
any_of-append p (x ∷ xs) ys = ground (arith, any_of-append p xs ys)

same_line_sym : (a b : LogErrorRecord) → same_line a b ≡ same_line b a
unfolding same_line
same_line_sym a b = ground (
  arith,
  text_eq_iff a.container_id b.container_id,
  text_eq_iff b.container_id a.container_id,
  text_eq_iff a.line b.line,
  text_eq_iff b.line a.line,
)

same_line_refl : (a : LogErrorRecord) (id : ℕ) → same_line a (record a { id = id }) ≡ true
unfolding same_line
same_line_refl a id = ground (arith, text_eq_refl a.container_id, text_eq_refl a.line)

-- The line is in the table.
unfoldable pub is_stored : LogTable → LogErrorRecord → Bool
unfolding any_of same_line
is_stored table r = any_of (same_line r) table.rows

insert_line_stored :
    (r : LogErrorRecord) (table : LogTable) → is_stored (insert_line r table).1 r ≡ true
unfolding is_stored insert_line
insert_line_stored r table = elim (Bool-cases (any_of (same_line r) table.rows)) [
  | inl e ↦ rw e e
  | inr e ↦
      rw e (
        any_of-append (same_line r) table.rows _
        ∙ rw (e, same_line_refl r (table.last_id + 1)) refl)
]

insert_line_keeps :
    (r s : LogErrorRecord) (table : LogTable)
    → is_stored table s ≡ true
    → is_stored (insert_line r table).1 s ≡ true
unfolding is_stored insert_line
insert_line_keeps r s table h = elim (Bool-cases (any_of (same_line r) table.rows)) [
  | inl e ↦ rw e h
  | inr e ↦ rw e (any_of-append (same_line s) table.rows _ ∙ rw h refl)
]

insert_lines_keeps :
    (rs : List LogErrorRecord) (s : LogErrorRecord) (table : LogTable)
    → is_stored table s ≡ true
    → is_stored (insert_lines rs table).1 s ≡ true
unfolding insert_lines
insert_lines_keeps [] s table h = h
insert_lines_keeps (r ∷ rs) s table h =
    insert_lines_keeps rs s (insert_line r table).1 (insert_line_keeps r s table h)

pub insert_lines_stored :
    (rs : List LogErrorRecord) (table : LogTable)
    → All (λ r. is_stored (insert_lines rs table).1 r ≡ true) rs
unfolding insert_lines
insert_lines_stored [] table = tt
insert_lines_stored (r ∷ rs) table = (
  insert_lines_keeps rs r (insert_line r table).1 (insert_line_stored r table),
  insert_lines_stored rs (insert_line r table).1,
)

insert_lines_again :
    (rs : List LogErrorRecord) (table : LogTable)
    → All (λ r. is_stored table r ≡ true) rs
    → insert_lines rs table ≡ (0, table)
unfolding insert_lines insert_line is_stored
insert_lines_again [] table h = refl
insert_lines_again (r ∷ rs) table (e, h) = rw e (rw (insert_lines_again rs table h) refl)

-- After lines are stored, storing them again adds nothing, and leaves the table as it is.
pub insert_log_errors_again :
    (rs : List LogErrorRecord) (table : LogTable)
    → let after = (insert_log_errors none rs table).1 in
      insert_log_errors none rs after ≡ ((0, none), after)
unfolding insert_log_errors
insert_log_errors_again [] table = refl
insert_log_errors_again (r ∷ rs) table =
    ap (λ (p : ℕ × LogTable). ((p.0, none), p.1))
      (insert_lines_again (r ∷ rs) _ (insert_lines_stored (r ∷ rs) table))

-- No two rows have the same container, time and line.
unfoldable pub IsUnique : List LogErrorRecord → Type 0
IsUnique [] = Unit
IsUnique (r ∷ rs) = (any_of (same_line r) rs ≡ false) × IsUnique rs

snoc-IsUnique :
    (r : LogErrorRecord) (rs : List LogErrorRecord)
    → IsUnique rs
    → any_of (same_line r) rs ≡ false
    → IsUnique (rs ++ r ∷ [])
unfolding IsUnique any_of
snoc-IsUnique r [] u h = (refl, tt)
snoc-IsUnique r (x ∷ rs) (apart, u) h = (
  any_of-append (same_line x) rs (r ∷ []) ∙ ground (arith, same_line_sym x r),
  snoc-IsUnique r rs u (ground arith),
)

insert_line-IsUnique :
    (r : LogErrorRecord) (table : LogTable)
    → IsUnique table.rows
    → IsUnique (insert_line r table).1.rows
unfolding insert_line same_line
insert_line-IsUnique r table u = elim (Bool-cases (any_of (same_line r) table.rows)) [
  | inl e ↦ rw e u
  | inr e ↦ rw e (snoc-IsUnique _ table.rows u e)
]

length-snoc :
    (rs : List LogErrorRecord) (r : LogErrorRecord) → length (rs ++ r ∷ []) ≡ length rs + 1
length-snoc [] r = ground arith
length-snoc (x ∷ rs) r = ground (arith, length-snoc rs r)

insert_line_grows :
    (r : LogErrorRecord) (table : LogTable)
    → length (insert_line r table).1.rows ≡ length table.rows + (insert_line r table).0
unfolding insert_line
insert_line_grows r table = elim (Bool-cases (any_of (same_line r) table.rows)) [
  | inl e ↦ rw e (ground arith)
  | inr e ↦ rw e (length-snoc table.rows _)
]

insert_lines_apart :
    (rs : List LogErrorRecord) (table : LogTable)
    → IsUnique table.rows
    → IsUnique (insert_lines rs table).1.rows
      × (length (insert_lines rs table).1.rows ≡ length table.rows + (insert_lines rs table).0)
unfolding insert_lines
insert_lines_apart [] table u = (u, ground arith)
insert_lines_apart (r ∷ rs) table u =
    let (unique, grown) =
      insert_lines_apart rs (insert_line r table).1 (insert_line-IsUnique r table u) in
    (unique, grown ∙ ground (arith, insert_line_grows r table))

-- The number of rows that a result says are added: none where there is an error.
abbrev pub rows_added : ℕ × Option Text → ℕ
rows_added (n, none) = n
rows_added (n, some e) = 0

-- What InsertLogErrors leaves: every line is stored, or there is an error and the table is as before.
abbrev pub Stored : Option Text → List LogErrorRecord → LogTable → LogTable → Type 0
Stored none rs before after = All (λ r. is_stored after r ≡ true) rs
Stored (some e) rs before after = after ≡ before

-- However the transaction fails, or if it does not, InsertLogErrors keeps the rows apart by container,
-- time and line. Without an error, its number is that of the rows that it adds, and every line is
-- stored; with an error, whatever its number is, the table is as before. If nothing fails, there is no
-- error.
pub insert_log_errors-IsUnique :
    (fault : Option InsertFault) (rs : List LogErrorRecord) (table : LogTable)
    → IsUnique table.rows
    → let o = insert_log_errors fault rs table in
      IsUnique o.1.rows
      × (length o.1.rows ≡ length table.rows + rows_added o.0)
      × Stored o.0.1 rs table o.1
      × ((insert_log_errors none rs table).0.1 ≡ none)
unfolding insert_log_errors insert_until
insert_log_errors-IsUnique fault [] table u = (u, omega arith, tt, refl)
insert_log_errors-IsUnique none (r ∷ rs) table u =
    let (apart, grown) = insert_lines_apart (r ∷ rs) table u in
    (apart, grown, insert_lines_stored (r ∷ rs) table, refl)
insert_log_errors-IsUnique (some (begin_fails e)) (r ∷ rs) table u = (u, omega arith, refl, refl)
insert_log_errors-IsUnique (some (commit_fails e)) (r ∷ rs) table u = (u, omega arith, refl, refl)
insert_log_errors-IsUnique (some (insert_fails k e)) (r ∷ rs) table u =
    let (apart, grown) = insert_lines_apart (r ∷ rs) table u in
    elim (Bool-cases (ltb k (length (r ∷ rs)))) [
      | inl fails ↦ rw fails (u, omega arith, refl, refl)
      | inr works ↦ rw works (apart, grown, insert_lines_stored (r ∷ rs) table, refl)
    ]
