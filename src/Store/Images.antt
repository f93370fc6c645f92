-- ===== src/Store/Images.antt =====
-- internal/store/records.go, the table image_updates: UpsertImageUpdates, ImageUpdates and
-- PruneImageUpdates, with its primary key in internal/store/schema.go. The argument `fault` is the
-- error of the transaction or statement, if it has one; a transaction that fails is rolled back.
use homelab_dashboard.Prelude.{
  ℕ, ◌≡◌, refl, Bool, true, Option, none, some, List, [], ◌∷◌, map, Text, text_eq, text_eq_iff,
  if◌then◌else◌, any_of, In, inl, inr, ◌↔◌, arith, Bool-cases, ◌⊎◌, sym, ◌∙◌, ap,
}
use homelab_dashboard.Prelude.Assoc.{Map, lookup, insert, lookup-insert}
use homelab_dashboard.Prelude.Sorting.{sort_by}

pub record ImageUpdateRecord : Type 0 where
  pub image : Text
  pub local_digest : Text
  pub remote_digest : Text
  pub update_available : Bool
  pub checked_at : ℕ
  pub error : Text

-- The rows, by their primary key.
abbrev pub ImageTable : Type 0
ImageTable = Map ImageUpdateRecord

unfoldable pub upsert_rows : List ImageUpdateRecord → ImageTable → ImageTable
unfolding insert
upsert_rows [] table = table
upsert_rows (r ∷ rs) table = upsert_rows rs (insert r.image r table)

unfoldable pub upsert_image_updates :
    Option Text → List ImageUpdateRecord → ImageTable → Option Text × ImageTable
unfolding upsert_rows
upsert_image_updates none records table = (none, upsert_rows records table)
upsert_image_updates (some e) records table = (some e, table)

unfoldable pub is_member : Text → List Text → Bool
is_member k keep = any_of (λ i. text_eq i k) keep

-- DELETE ... WHERE image NOT IN (keep)
unfoldable pub keep_rows : List Text → ImageTable → ImageTable
unfolding is_member
keep_rows keep [] = []
keep_rows keep ((k, r) ∷ table) =
    let rest = keep_rows keep table in if is_member k keep then (k, r) ∷ rest else rest

unfoldable pub prune_image_updates : Option Text → List Text → ImageTable → Option Text × ImageTable
unfolding keep_rows
prune_image_updates (some e) keep table = (some e, table)
prune_image_updates none [] table = (none, [])
prune_image_updates none (k ∷ keep) table = (none, keep_rows (k ∷ keep) table)

rows_of : ImageTable → List ImageUpdateRecord
rows_of [] = []
rows_of ((k, r) ∷ table) = r ∷ rows_of table

-- SELECT ... ORDER BY image
unfoldable pub image_updates : ImageTable → List ImageUpdateRecord
unfolding sort_by rows_of
image_updates table = sort_by (λ r. r.image) (rows_of table)

keep_rows_none : (table : ImageTable) → keep_rows [] table ≡ []
unfolding keep_rows any_of
keep_rows_none [] = refl
keep_rows_none ((k, r) ∷ table) = keep_rows_none table

-- A pruning keeps the rows with the names, also where there are none.
pub prune_image_updates_rows :
    (keep : List Text) (table : ImageTable)
    → prune_image_updates none keep table ≡ (none, keep_rows keep table)
unfolding prune_image_updates
prune_image_updates_rows [] table = ap (λ t. (none, t)) (sym (keep_rows_none table))
prune_image_updates_rows (k ∷ keep) table = refl

pub is_member-In : (k : Text) (keep : List Text) → (is_member k keep ≡ true) ↔ In k keep
unfolding is_member any_of
is_member-In k [] = ground arith
is_member-In k (i ∷ keep) = elim (Bool-cases (text_eq i k)) [
  | inl e ↦ rw e (λ h. inl (sym ((text_eq_iff i k).0 e)), λ i. refl)
  | inr e ↦ rw e (ground (arith, text_eq_iff i k, is_member-In k keep))
]

-- After a pruning the rows with the names to keep are there as before, and no others.
pub lookup-keep_rows :
    (k : Text) (keep : List Text) (table : ImageTable)
    → lookup k (keep_rows keep table) ≡ (if is_member k keep then lookup k table else none)
unfolding keep_rows lookup
lookup-keep_rows k keep [] = ground arith
lookup-keep_rows k keep ((j, r) ∷ table) =
    ground (arith, text_eq_iff j k, lookup-keep_rows k keep table)

-- The row that the table has for a name, if the last upserts have one.
unfoldable pub FoundIn : (ImageUpdateRecord → Type 0) → Text → ImageTable → Type 0
FoundIn P k table = (r : ImageUpdateRecord) × P r × (r.image ≡ k) × (lookup k table ≡ some r)

upsert_rows-kept :
    (k : Text) (rs : List ImageUpdateRecord) (table : ImageTable) (old : ImageUpdateRecord)
    → lookup k table ≡ some old
    → old.image ≡ k
    → FoundIn (λ r. (r ≡ old) ⊎ In r rs) k (upsert_rows rs table)
unfolding upsert_rows FoundIn
upsert_rows-kept k [] table old found named = (old, inl refl, named, found)
upsert_rows-kept k (r ∷ rs) table old found named = elim (Bool-cases (text_eq r.image k)) [
  | inl e ↦
      let (s, from, at, here) =
        upsert_rows-kept k rs (insert r.image r table) r
          (lookup-insert r.image k r table ∙ rw e refl) ((text_eq_iff r.image k).0 e) in
      (s, inr from, at, here)
  | inr e ↦
      let (s, from, at, here) =
        upsert_rows-kept k rs (insert r.image r table) old
          (lookup-insert r.image k r table ∙ rw e found) named in
      (s, ground arith, at, here)
]

-- Each name of the upserts has one of their rows.
pub upsert_rows-FoundIn :
    (k : Text) (rs : List ImageUpdateRecord) (table : ImageTable)
    → In k (map (λ r. r.image) rs)
    → FoundIn (λ r. In r rs) k (upsert_rows rs table)
unfolding upsert_rows FoundIn
upsert_rows-FoundIn k [] table i = elim i [ ]
upsert_rows-FoundIn k (r ∷ rs) table (inl e) =
    upsert_rows-kept k rs (insert r.image r table) r
      (lookup-insert r.image k r table ∙ rw ((text_eq_iff r.image k).1 (sym e)) refl) (sym e)
upsert_rows-FoundIn k (r ∷ rs) table (inr i) =
    let (s, from, at, here) = upsert_rows-FoundIn k rs (insert r.image r table) i in
    (s, inr from, at, here)
