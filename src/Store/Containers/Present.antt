-- ===== src/Store/Containers/Present.antt =====
-- internal/store/records.go: what UpsertContainers leaves in the row of each container.
use homelab_dashboard.Prelude.{
  ℕ, ◌≡◌, ◌↔◌, ◌⊎◌, inl, inr, refl, sym, subst, ap, ap₂, ◌∙◌, Bool, true, false, not, ◌&&◌, Option,
  none, some, List, [], ◌∷◌, map, Text, text_eq, text_eq_iff, In, arith, any_of, Bool-cases,
  if◌then◌else◌,
}
use homelab_dashboard.Prelude.Assoc.{lookup, insert, lookup-insert}
use homelab_dashboard.Store.Images.{is_member, is_member-In}
use homelab_dashboard.Store.Containers.{
  ContainerRecord, ContainerTable, merge_container, upsert_each, mark_gone, mark_all_gone,
  mark_missing, upsert_containers,
}

-- The row of the container that was there is kept, with `present` set.
marked : List Text → Text → Option ContainerRecord → Option ContainerRecord
marked ids k none = none
marked ids k (some r) =
    some (if r.present && not (is_member k ids) then record r { present = false } else r)

lookup-mark_gone :
    (k : Text) (ids : List Text) (table : ContainerTable)
    → lookup k (mark_gone ids table) ≡ marked ids k (lookup k table)
unfolding mark_gone lookup marked
lookup-mark_gone k ids [] = refl
lookup-mark_gone k ids ((j, r) ∷ table) = elim (Bool-cases (text_eq j k)) [
  | inl e ↦ rw (e, (text_eq_iff j k).0 e) refl
  | inr e ↦ rw e (lookup-mark_gone k ids table)
]

and_true :
    (r : ContainerRecord)
    → (if r.present then record r { present = false } else r)
      ≡ (if r.present && true then record r { present = false } else r)
and_true r = elim (Bool-cases r.present) [ inl e ↦ rw e refl | inr e ↦ rw e refl ]

mark_all_gone_lem : (table : ContainerTable) → mark_all_gone table ≡ mark_gone [] table
unfolding mark_all_gone mark_gone is_member any_of
mark_all_gone_lem [] = refl
mark_all_gone_lem ((k, r) ∷ table) =
    let kept : (if r.present then record r { present = false } else r)
        ≡ (if r.present && true then record r { present = false } else r) =
      and_true r in
    ap₂ (λ x t. (k, x) ∷ t) kept (mark_all_gone_lem table)

mark_missing_lem :
    (ids : List Text) (table : ContainerTable) → mark_missing ids table ≡ mark_gone ids table
unfolding mark_missing
mark_missing_lem [] table = mark_all_gone_lem table
mark_missing_lem (id ∷ ids) table = refl

present_in : Option ContainerRecord → Bool
present_in none = false
present_in (some r) = r.present

-- The table has the container as one that is there.
pub is_present : Text → ContainerTable → Bool
unfolding present_in
is_present k table = present_in (lookup k table)

merge_container_present :
    (ts : ℕ) (r : ContainerRecord) (old : Option ContainerRecord)
    → (merge_container ts r old).present ≡ true
unfolding merge_container
merge_container_present ts r none = refl
merge_container_present ts r (some old) = refl

is_present-insert :
    (ts : ℕ) (k : Text) (r : ContainerRecord) (table : ContainerTable)
    (old : Option ContainerRecord)
    → is_present k (insert r.id (merge_container ts r old) table)
      ≡ (if text_eq r.id k then true else is_present k table)
unfolding is_present present_in
is_present-insert ts k r table old =
    rw (lookup-insert r.id k (merge_container ts r old) table) elim (Bool-cases (text_eq r.id k)) [
      | inl e ↦ rw e (merge_container_present ts r old)
      | inr e ↦ rw e refl
    ]

upsert_each_present :
    (ts : ℕ) (k : Text) (rs : List ContainerRecord) (table : ContainerTable)
    → is_present k (upsert_each ts rs table)
      ≡ (if is_member k (map (λ r. r.id) rs) then true else is_present k table)
unfolding upsert_each is_member any_of
upsert_each_present ts k [] table = refl
upsert_each_present ts k (r ∷ rs) table =
    upsert_each_present ts k rs _
    ∙ rw (is_present-insert ts k r table (lookup r.id table))
        elim (Bool-cases (text_eq r.id k)) [ inl e ↦ rw e (ground arith) | inr e ↦ rw e refl ]

marked_present :
    (k : Text) (ids : List Text) (o : Option ContainerRecord)
    → present_in (marked ids k o) ≡ (is_member k ids && present_in o)
unfolding marked present_in
marked_present k ids none = ground arith
marked_present k ids (some r) = elim (Bool-cases r.present) [
  | inl e ↦ elim (Bool-cases (is_member k ids)) [ inl m ↦ rw (e, m) refl | inr m ↦ rw (e, m) refl ]
  | inr e ↦ rw e (ground arith)
]

-- After an upsert that succeeds, the containers that the table has as present are exactly
-- those of the records.
pub upsert_containers_present :
    (ts : ℕ) (rs : List ContainerRecord) (table : ContainerTable) (k : Text)
    → (is_present k (upsert_containers none ts rs table).1 ≡ true) ↔ In k (map (λ r. r.id) rs)
unfolding upsert_containers is_present
upsert_containers_present ts rs table k =
    rw
      (
        mark_missing_lem (map (λ r. r.id) rs) (upsert_each ts rs table),
        lookup-mark_gone k (map (λ r. r.id) rs) (upsert_each ts rs table),
        marked_present k (map (λ r. r.id) rs) (lookup k (upsert_each ts rs table)),
      )
      (ground (arith, upsert_each_present ts k rs table, is_member-In k (map (λ r. r.id) rs)))

-- The two times that a row keeps.
SameBirth : ContainerRecord → Option ContainerRecord → Type 0
SameBirth old none = ⊥
SameBirth old (some r) = (r.first_seen ≡ old.first_seen) × (r.created ≡ old.created)

merged_birth :
    (ts : ℕ) (old r : ContainerRecord) (o : Option ContainerRecord)
    → SameBirth old o
    → SameBirth old (some (merge_container ts r o))
unfolding merge_container SameBirth
merged_birth ts old r none h = elim h [ ]
merged_birth ts old r (some s) h = h

upsert_each-SameBirth :
    (ts : ℕ) (k : Text) (old : ContainerRecord) (rs : List ContainerRecord) (table : ContainerTable)
    → SameBirth old (lookup k table)
    → SameBirth old (lookup k (upsert_each ts rs table))
unfolding upsert_each
upsert_each-SameBirth ts k old [] table h = h
upsert_each-SameBirth ts k old (r ∷ rs) table h = upsert_each-SameBirth ts k old rs _ (
    subst (SameBirth old) (sym (lookup-insert r.id k _ table))
      (inserted (Bool-cases (text_eq r.id k))))
  where
    inserted :
        (text_eq r.id k ≡ true) ⊎ (text_eq r.id k ≡ false)
        → SameBirth old (
            if text_eq r.id k
            then some (merge_container ts r (lookup r.id table))
            else lookup k table)
    inserted (inl e) = rw e (
        merged_birth ts old r (lookup r.id table)
          (subst (λ i. SameBirth old (lookup i table)) (sym ((text_eq_iff r.id k).0 e)) h))
    inserted (inr e) = rw e h

marked-SameBirth :
    (k : Text) (ids : List Text) (old : ContainerRecord) (o : Option ContainerRecord)
    → SameBirth old o
    → SameBirth old (marked ids k o)
unfolding marked SameBirth
marked-SameBirth k ids old none h = h
marked-SameBirth k ids old (some r) h = elim (Bool-cases (r.present && not (is_member k ids))) [
  | inl e ↦ rw e h
  | inr e ↦ rw e h
]

opened :
    (old : ContainerRecord) (o : Option ContainerRecord)
    → SameBirth old o
    → (r : ContainerRecord) × (o ≡ some r)
      × (r.first_seen ≡ old.first_seen)
      × (r.created ≡ old.created)
unfolding SameBirth
opened old none h = elim h [ ]
opened old (some r) (seen, born) = (r, refl, seen, born)

-- A container that has a row keeps the row, with its creation time and the time at which it was
-- first seen, through every upsert, whether it is among the records or not.
pub upsert_containers-SameBirth :
    (ts : ℕ) (rs : List ContainerRecord) (table : ContainerTable) (k : Text) (old : ContainerRecord)
    → lookup k table ≡ some old
    → (r : ContainerRecord) × (lookup k (upsert_containers none ts rs table).1 ≡ some r)
      × (r.first_seen ≡ old.first_seen)
      × (r.created ≡ old.created)
unfolding upsert_containers SameBirth
upsert_containers-SameBirth ts rs table k old h =
    let ids = map (λ r. r.id) rs in
    let start : SameBirth old (lookup k table) = rw h (refl, refl) in
    let kept = marked-SameBirth k ids old _ (upsert_each-SameBirth ts k old rs table start) in
    opened old _ (
      subst (SameBirth old)
        (sym (
          ap (lookup k) (mark_missing_lem ids (upsert_each ts rs table))
          ∙ lookup-mark_gone k ids (upsert_each ts rs table)))
        kept)
