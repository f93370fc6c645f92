-- ===== src/Store/Alerts/Rows.antt =====
-- What a statement of internal/store/records.go does to the row of each id.
use homelab_dashboard.Prelude.{
  ℕ, ◌+◌, ◌<◌, ◌≡◌, refl, true, false, Option, none, some, List, [], ◌∷◌, ◌++◌, map, Text, ◌==◌,
  if◌then◌else◌, arith, All, All-imp, All-append, All-map, Bool-cases, inl, inr, ap, ◌∙◌,
}
use homelab_dashboard.Store.Alerts.{
  AlertRecord, AlertsDb, firing, attempt, open_alert, resolve_row, resolve_alert, is_firing,
}
use homelab_dashboard.Alerts.Format.{key}

-- The row with an id.
unfoldable pub find_row : ℕ → List AlertRecord → Option AlertRecord
find_row i [] = none
find_row i (r ∷ rs) = if r.id == i then some r else find_row i rs

abbrev first_of_two : Option AlertRecord → Option AlertRecord → Option AlertRecord
first_of_two (some r) o = some r
first_of_two none o = o

find_row-append :
    (i : ℕ) (rs qs : List AlertRecord)
    → find_row i (rs ++ qs) ≡ first_of_two (find_row i rs) (find_row i qs)
unfolding find_row
find_row-append i [] qs = refl
find_row-append i (r ∷ rs) qs = ground (arith, find_row-append i rs qs)

abbrev resolved_if : ℕ → ℕ → Option AlertRecord → Option AlertRecord
resolved_if id at none = none
resolved_if id at (some r) = some (resolve_row id at r)

find_row-resolve :
    (id at j : ℕ) (rs : List AlertRecord)
    → find_row j (map (resolve_row id at) rs) ≡ resolved_if id at (find_row j rs)
unfolding find_row resolve_row
find_row-resolve id at j [] = refl
find_row-resolve id at j (r ∷ rs) = ground (arith, find_row-resolve id at j rs)

find_row_id : (i : ℕ) (rs : List AlertRecord) (r : AlertRecord) → find_row i rs ≡ some r → r.id ≡ i
unfolding find_row
find_row_id i [] q h = cc
find_row_id i (r ∷ rs) q h = ground (arith, find_row_id i rs q)

abbrev key_if_firing : Option AlertRecord → Option Text
key_if_firing none = none
key_if_firing (some r) = if is_firing r.state then some (key r.rule r.target) else none

-- The key of the firing alert with an id.
unfoldable pub firing_key : ℕ → List AlertRecord → Option Text
firing_key i rs = key_if_firing (find_row i rs)

-- The row that OpenAlert inserts.
abbrev pub opened_row : AlertRecord → ℕ → AlertRecord
opened_row a i = record a { id = i; state = firing; resolved_at = 0; notified_at = 0; acked_at = 0 }

-- A refused insert leaves the rows and the counter.
pub open_alert-none :
    (a : AlertRecord) (db : AlertsDb)
    → (open_alert a db).0 ≡ none
    → ((open_alert a db).1.rows ≡ db.rows) × ((open_alert a db).1.last_id ≡ db.last_id)
unfolding open_alert attempt
open_alert-none a db h = ground arith

-- An insert takes the next id.
pub open_alert-some :
    (a : AlertRecord) (db : AlertsDb) {i : ℕ}
    → (open_alert a db).0 ≡ some i
    → (i ≡ db.last_id + 1)
      × ((open_alert a db).1.rows ≡ db.rows ++ opened_row a i ∷ [])
      × ((open_alert a db).1.last_id ≡ i)
unfolding open_alert attempt
open_alert-some a db h = ground arith

-- The rows have ids from 1 to the counter, each its own.
pub record Numbered (db : AlertsDb) : Type 0 where
  pub findable : All (λ (r : AlertRecord). find_row r.id db.rows ≡ some r) db.rows
  pub fresh : (i : ℕ) → db.last_id < i → find_row i db.rows ≡ none
  pub no_zero : find_row 0 db.rows ≡ none

-- The firing key of each id after an insert.
pub firing_key-open :
    (a : AlertRecord) (db : AlertsDb) {i : ℕ} (j : ℕ)
    → Numbered db
    → (open_alert a db).0 ≡ some i
    → firing_key j (open_alert a db).1.rows
      ≡ (if i == j then some (key a.rule a.target) else firing_key j db.rows)
unfolding firing_key find_row
firing_key-open a db {i} j n h =
    let (next, rows, last) = open_alert-some a db h in
    rw rows (rw find_row-append (ground (arith, next, n.fresh (db.last_id + 1))))

findable-append :
    (rs : List AlertRecord) (q : AlertRecord)
    → All (λ (r : AlertRecord). find_row r.id rs ≡ some r) rs
    → find_row q.id rs ≡ none
    → All (λ (r : AlertRecord). find_row r.id (rs ++ q ∷ []) ≡ some r) (rs ++ q ∷ [])
unfolding find_row
findable-append rs q all new =
    All-append _ rs (q ∷ [])
      (All-imp rs
        (λ r (h : find_row r.id rs ≡ some r). rw (find_row-append r.id rs (q ∷ [])) (rw h)) all)
      (rw (find_row-append q.id rs (q ∷ []), new) (ground arith), tt)

pub Numbered-open :
    (a : AlertRecord) (db : AlertsDb) {i : ℕ}
    → Numbered db
    → (open_alert a db).0 ≡ some i
    → Numbered (open_alert a db).1
unfolding find_row
Numbered-open a db {i} n h =
    let (next, rows, last) = open_alert-some a db h in
    record {
      findable = rw rows (
          findable-append db.rows (opened_row a i) n.findable
            (rw next (n.fresh (db.last_id + 1) (omega arith))));
      fresh = λ j lt. rw rows (rw find_row-append (ground (arith, next, last, n.fresh j)));
      no_zero = rw rows (rw find_row-append (ground (arith, next, n.no_zero)));
    }

resolve_alert-true :
    (id at : ℕ) (db : AlertsDb)
    → (resolve_alert id at db).0 ≡ true
    → ((resolve_alert id at db).1.rows ≡ map (resolve_row id at) db.rows)
      × ((resolve_alert id at db).1.last_id ≡ db.last_id)
unfolding resolve_alert attempt
resolve_alert-true id at db h = ground arith

firing-resolved_if :
    (id at j : ℕ) (o : Option AlertRecord)
    → ((r : AlertRecord) → o ≡ some r → r.id ≡ j)
    → key_if_firing (resolved_if id at o) ≡ (if id == j then none else key_if_firing o)
unfolding resolve_row
firing-resolved_if id at j none h = ground arith
firing-resolved_if id at j (some r) h = ground (arith, h r refl)

-- The firing key of each id after ResolveAlert.
pub firing_key-resolve :
    (id at : ℕ) (db : AlertsDb) (j : ℕ)
    → (resolve_alert id at db).0 ≡ true
    → firing_key j (resolve_alert id at db).1.rows
      ≡ (if id == j then none else firing_key j db.rows)
unfolding firing_key
firing_key-resolve id at db j h =
    rw ((resolve_alert-true id at db h).0, find_row-resolve id at j db.rows)
      (firing-resolved_if id at j (find_row j db.rows) (find_row_id j db.rows))

pub resolve_alert-false :
    (id at : ℕ) (db : AlertsDb)
    → (resolve_alert id at db).0 ≡ false
    → ((resolve_alert id at db).1.rows ≡ db.rows)
      × ((resolve_alert id at db).1.last_id ≡ db.last_id)
unfolding resolve_alert attempt
resolve_alert-false id at db h = ground arith

resolve_row_id : (id at : ℕ) (r : AlertRecord) → (resolve_row id at r).id ≡ r.id
unfolding resolve_row
resolve_row_id id at r = ground arith

findable-resolve :
    (id at : ℕ) (rs : List AlertRecord)
    → All (λ (r : AlertRecord). find_row r.id rs ≡ some r) rs
    → All
        (λ (r : AlertRecord). find_row r.id (map (resolve_row id at) rs) ≡ some r)
        (map (resolve_row id at) rs)
findable-resolve id at rs all = All-map _ (resolve_row id at) rs (
    All-imp rs
      (λ r (h : find_row r.id rs ≡ some r).
        ap (λ i. find_row i (map (resolve_row id at) rs)) (resolve_row_id id at r)
        ∙ find_row-resolve id at r.id rs
        ∙ ap (resolved_if id at) h)
      all)

pub Numbered-resolve :
    (id at : ℕ) (db : AlertsDb) → Numbered db → Numbered (resolve_alert id at db).1
Numbered-resolve id at db n = record {
  findable = elim (Bool-cases (resolve_alert id at db).0) [
    | inl done ↦ rw (resolve_alert-true id at db done).0 (findable-resolve id at db.rows n.findable)
    | inr failed ↦ rw (resolve_alert-false id at db failed).0 n.findable
  ];
  fresh = λ j lt. elim (Bool-cases (resolve_alert id at db).0) [
    | inl done ↦
        let (rows, last) = resolve_alert-true id at db done in
        ground (arith, rows, last, find_row-resolve id at j db.rows, n.fresh j)
    | inr failed ↦
        let (rows, last) = resolve_alert-false id at db failed in
        ground (arith, rows, last, n.fresh j)
  ];
  no_zero = elim (Bool-cases (resolve_alert id at db).0) [
    | inl done ↦
        rw (resolve_alert-true id at db done).0
          (ground (arith, find_row-resolve id at 0 db.rows, n.no_zero))
    | inr failed ↦ rw (resolve_alert-false id at db failed).0 n.no_zero
  ];
}
