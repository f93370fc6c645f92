-- ===== src/Store/Events/Counts.antt =====
-- internal/store/records.go: what RestartCounts counts, and the event that Events gives first.
use homelab_dashboard.Prelude.{
  ℕ, suc, ◌+◌, ◌≡◌, ◌≤◌, inl, inr, refl, Bool, true, not, ◌&&◌, none, List, [], ◌∷◌, ◌++◌, Text,
  text_eq, text_eq_iff, codes, any_of, ltb, leb, keep_if, count_if, arith, Bool-cases, All, All-imp,
  if◌then◌else◌, take,
}
use homelab_dashboard.Prelude.Assoc.{Map, lookup, insert, lookup-insert}
use homelab_dashboard.Prelude.Sorting.{sort_with_first}
use homelab_dashboard.Store.Events.{
  EventRecord, EventTable, or_zero, count_of, group_counts, restart_counts, is_restart,
  insert_event, events, newer_event, for_container, later,
}

count_of-insert :
    (k j : Text) (n : ℕ) (m : Map ℕ)
    → count_of j (insert k n m) ≡ (if text_eq k j then n else count_of j m)
unfolding count_of or_zero
count_of-insert k j n m =
    rw (lookup-insert k j n m)
      elim (Bool-cases (text_eq k j)) [ inl e ↦ rw e refl | inr e ↦ rw e refl ]

group_counts_count :
    (id : Text) (es : List EventRecord) (out : Map ℕ)
    → count_of id (group_counts es out)
      ≡ count_of id out + count_if (λ e. text_eq e.container_id id) es
unfolding group_counts count_if
group_counts_count id [] out = ground arith
group_counts_count id (e ∷ es) out = ground (
  arith,
  group_counts_count id es (insert e.container_id (count_of e.container_id out + 1) out),
  count_of-insert e.container_id id (count_of e.container_id out + 1) out,
  text_eq_iff e.container_id id,
)

count_if-keep_if :
    (p q : EventRecord → Bool) (es : List EventRecord)
    → count_if q (keep_if p es) ≡ count_if (λ e. p e && q e) es
unfolding count_if keep_if
count_if-keep_if p q [] = refl
count_if-keep_if p q (e ∷ es) = ground (arith, count_if-keep_if p q es)

count_if-cong :
    (p q : EventRecord → Bool) (es : List EventRecord)
    → ((e : EventRecord) → p e ≡ q e)
    → count_if p es ≡ count_if q es
unfolding count_if
count_if-cong p q [] h = refl
count_if-cong p q (e ∷ es) h = rw (h e, count_if-cong p q es h) refl

-- The types of an event after which a container runs anew.
abbrev pub restart_types : List Text
restart_types = codes "restart" ∷ codes "die" ∷ codes "oom" ∷ []

-- The event is of the container and of one of these types, and not before the time.
abbrev pub counts_for : ℕ → Text → EventRecord → Bool
counts_for since id e =
    not (ltb e.ts since) && (any_of (text_eq e.type) restart_types && text_eq e.container_id id)

is_restart-counts_for :
    (since : ℕ) (id : Text) (e : EventRecord)
    → (is_restart since e && text_eq e.container_id id) ≡ counts_for since id e
unfolding is_restart any_of
is_restart-counts_for since id e = ground arith

-- The count of each container is the number of its events of type restart, die and oom since
-- the given time.
pub restart_counts_exact :
    (since : ℕ) (table : EventTable) (id : Text)
    → count_of id (restart_counts since table) ≡ count_if (counts_for since id) table.rows
unfolding restart_counts count_of or_zero lookup
restart_counts_exact since table id = ground (
  arith,
  group_counts_count id (keep_if (is_restart since) table.rows) [],
  count_if-keep_if (is_restart since) (λ e. text_eq e.container_id id) table.rows,
  count_if-cong (λ e. is_restart since e && text_eq e.container_id id) (counts_for since id)
      table.rows (is_restart-counts_for since id),
)

-- The rows have no later time and no greater id.
unfoldable pub NotAfter : ℕ → ℕ → EventRecord → Type 0
NotAfter ts id e = (e.ts ≤ ts) × (e.id ≤ id)

All-keep_if :
    (P : EventRecord → Type 0) (p : EventRecord → Bool) (es : List EventRecord)
    → All P es
    → All P (keep_if p es)
unfolding keep_if
All-keep_if P p [] h = tt
All-keep_if P p (e ∷ es) (x, h) = elim (Bool-cases (p e)) [
  | inl y ↦ rw y (x, All-keep_if P p es h)
  | inr n ↦ rw n (All-keep_if P p es h)
]

keep_if-snoc :
    (p : EventRecord → Bool) (es : List EventRecord) (e : EventRecord)
    → p e ≡ true
    → keep_if p (es ++ e ∷ []) ≡ keep_if p es ++ e ∷ []
unfolding keep_if
keep_if-snoc p [] e h = rw h refl
keep_if-snoc p (x ∷ es) e h = ground (arith, keep_if-snoc p es e h)

newer-NotAfter :
    (last : ℕ) (e x : EventRecord) → NotAfter e.ts last x → e.id ≡ last + 1 → newer_event e x ≡ true
unfolding NotAfter newer_event later
newer-NotAfter last e x (t, i) h = ground arith

-- An event that InsertEvent stores, and that has no earlier time than the others, is the first
-- that Events gives, for its container or for all, from any time up to its own.
pub insert_event_first :
    (e : EventRecord) (table : EventTable) (since limit : ℕ) (wanted : Text)
    → All (NotAfter e.ts table.last_id) table.rows
    → since ≤ e.ts
    → for_container wanted e.container_id ≡ true
    → let stored = record e { id = table.last_id + 1 } in
      (older : List EventRecord) × (events since wanted (suc limit) (insert_event none e table).1
        ≡ stored ∷ older)
unfolding insert_event events
insert_event_first e table since limit wanted before from mine =
    let stored : EventRecord = record e { id = table.last_id + 1 } in
    let wants : EventRecord → Bool = λ x. leb since x.ts && for_container wanted x.container_id in
    let (older, sorted) = sort_with_first newer_event stored (keep_if wants table.rows) (
      All-imp (keep_if wants table.rows) (λ x h. newer-NotAfter table.last_id stored x h refl)
        (All-keep_if (NotAfter e.ts table.last_id) wants table.rows before)) in
    (take limit older, rw (keep_if-snoc wants table.rows stored (ground arith), sorted) refl)
