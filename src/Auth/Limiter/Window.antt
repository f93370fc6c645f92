-- ===== src/Auth/Limiter/Window.antt =====
-- internal/auth/session.go: the limiter admits a call exactly if fewer than `limit` of the key's
-- admitted calls lie in the window, though it forgets old times and old keys.
use homelab_dashboard.Prelude.{
  ℕ, ◌+◌, ◌≤◌, ◌≡◌, refl, sym, ◌∙◌, inl, inr, Bool, true, false, ◌&&◌, none, List, [], ◌∷◌, ◌++◌,
  Text, text_eq, text_eq_iff, length, ltb, leb, if◌then◌else◌, keep_if, count_if, arith, All,
  All-imp, All-append, Bool-cases, subst,
}
use homelab_dashboard.Prelude.Assoc.{Map, lookup, insert, lookup-insert, Distinct, insert-Distinct}
use homelab_dashboard.Auth.Limiter.{
  Limiter, new_rate_limiter, times_of, alive, stale, purge, purge_above, admit, allow,
}

-- The number of times in the window that ends now.
unfoldable pub recent : ℕ → ℕ → List ℕ → ℕ
recent w now ts = count_if (λ t. ltb now (t + w)) ts

length-alive : (w now : ℕ) (ts : List ℕ) → length (alive w now ts) ≡ recent w now ts
unfolding alive recent keep_if count_if
length-alive w now [] = refl
length-alive w now (t ∷ ts) = ground (arith, length-alive w now ts)

-- What is forgotten does not count later.
recent-alive : (w now n : ℕ) (ts : List ℕ) → now ≤ n → recent w n (alive w now ts) ≡ recent w n ts
unfolding alive recent keep_if count_if
recent-alive w now n [] h = refl
recent-alive w now n (t ∷ ts) h = ground (arith, recent-alive w now n ts h)

recent-append : (w n : ℕ) (ts us : List ℕ) → recent w n (ts ++ us) ≡ recent w n ts + recent w n us
unfolding recent count_if
recent-append w n [] us = omega arith
recent-append w n (t ∷ ts) us = ground (arith, recent-append w n ts us)

pub recent_later : (w now n : ℕ) (ts : List ℕ) → now ≤ n → recent w n ts ≤ recent w now ts
unfolding recent count_if
recent_later w now n [] h = omega arith
recent_later w now n (t ∷ ts) h = ground (arith, recent_later w now n ts h)

-- In time order.
abbrev Sorted : List ℕ → Type 0
Sorted [] = Unit
Sorted (t ∷ ts) = All (λ u. t ≤ u) ts × Sorted ts

All-alive : (P : ℕ → Type 0) (w now : ℕ) (ts : List ℕ) → All P ts → All P (alive w now ts)
unfolding alive keep_if
All-alive P w now [] h = tt
All-alive P w now (t ∷ ts) (p, h) = elim (Bool-cases (ltb now (t + w))) [
  | inl e ↦ rw e (p, All-alive P w now ts h)
  | inr e ↦ rw e (All-alive P w now ts h)
]

alive-Sorted : (w now : ℕ) (ts : List ℕ) → Sorted ts → Sorted (alive w now ts)
unfolding alive keep_if
alive-Sorted w now [] h = tt
alive-Sorted w now (t ∷ ts) (p, h) = elim (Bool-cases (ltb now (t + w))) [
  | inl e ↦ rw e (All-alive (λ u. t ≤ u) w now ts p, alive-Sorted w now ts h)
  | inr e ↦ rw e (alive-Sorted w now ts h)
]

append-Sorted :
    (ts : List ℕ) (now : ℕ) → Sorted ts → All (λ t. t ≤ now) ts → Sorted (ts ++ now ∷ [])
append-Sorted [] now h le = (tt, tt)
append-Sorted (t ∷ ts) now (p, h) (q, le) =
    (All-append (λ u. t ≤ u) ts (now ∷ []) p (q, tt), append-Sorted ts now h le)

-- A stale list has no time in the window, now or later.
recent-stale :
    (w now n : ℕ) (ts : List ℕ) → now ≤ n → Sorted ts → stale w now ts ≡ true → recent w n ts ≡ 0
unfolding stale recent count_if
recent-stale w now n [] h s e = refl
recent-stale w now n (t ∷ []) h s e = ground arith
recent-stale w now n (t ∷ u ∷ ts) h (p, s) e =
    ground (arith, recent-stale w now n (u ∷ ts) h s e, p.0)

lookup-purge :
    (w now : ℕ) (k : Text) (m : Map (List ℕ))
    → Distinct m
    → lookup k (purge w now m) ≡ (if stale w now (times_of k m) then none else lookup k m)
unfolding purge lookup times_of
lookup-purge w now k [] d = ground arith
lookup-purge w now k ((j, ts) ∷ m) (absent, d) = elim (Bool-cases (text_eq j k)) [
  | inl same ↦ ground (
    arith,
    lookup-purge w now k m d,
    subst (λ (i : Text). lookup i m ≡ none) ((text_eq_iff j k).0 same) absent,
  )
  | inr other ↦ ground (arith, lookup-purge w now k m d)
]

purge-Distinct : (w now : ℕ) (m : Map (List ℕ)) → Distinct m → Distinct (purge w now m)
unfolding purge
purge-Distinct w now [] d = tt
purge-Distinct w now ((k, ts) ∷ m) (absent, d) = elim (Bool-cases (stale w now ts)) [
  | inl e ↦ rw e (purge-Distinct w now m d)
  | inr e ↦ rw e (ground (arith, lookup-purge w now k m d), purge-Distinct w now m d)
]

-- A map of attempts as the limiter keeps it up to the time `now`.
pub record Ordered (now : ℕ) (m : Map (List ℕ)) : Type 0 where
  pub distinct : Distinct m
  pub sorted : (k : Text) → Sorted (times_of k m)
  pub past : (k : Text) → All (λ t. t ≤ now) (times_of k m)

times_of-insert :
    (k j : Text) (ts : List ℕ) (m : Map (List ℕ))
    → times_of j (insert k ts m) ≡ (if text_eq k j then ts else times_of j m)
unfolding times_of
times_of-insert k j ts m = ground (arith, lookup-insert k j ts m)

times_of-purge :
    (w now : ℕ) (k : Text) (m : Map (List ℕ))
    → Distinct m
    → times_of k (purge w now m) ≡ (if stale w now (times_of k m) then [] else times_of k m)
unfolding times_of
times_of-purge w now k m d = ground (arith, lookup-purge w now k m d)

if_list : (P : List ℕ → Type 0) (b : Bool) (xs ys : List ℕ) → P xs → P ys → P (if b then xs else ys)
if_list P true xs ys p q = p
if_list P false xs ys p q = q

insert-Ordered :
    (now : ℕ) (k : Text) (ts : List ℕ) (m : Map (List ℕ))
    → Sorted ts
    → All (λ t. t ≤ now) ts
    → Ordered now m
    → Ordered now (insert k ts m)
insert-Ordered now k ts m s le o = record {
  distinct = insert-Distinct k ts m o.distinct;
  sorted = λ j.
      rw (times_of-insert k j ts m) (if_list Sorted (text_eq k j) ts (times_of j m) s (o.sorted j));
  past = λ j.
      rw (times_of-insert k j ts m)
        (if_list (All (λ t. t ≤ now)) (text_eq k j) ts (times_of j m) le (o.past j));
}

purge-Ordered : (w now : ℕ) (m : Map (List ℕ)) → Ordered now m → Ordered now (purge w now m)
purge-Ordered w now m o = record {
  distinct = purge-Distinct w now m o.distinct;
  sorted = λ j.
      rw (times_of-purge w now j m o.distinct)
        (if_list Sorted (stale w now (times_of j m)) [] (times_of j m) tt (o.sorted j));
  past = λ j.
      rw (times_of-purge w now j m o.distinct)
        (if_list (All (λ t. t ≤ now)) (stale w now (times_of j m)) [] (times_of j m) tt (o.past j));
}

recent-purge :
    (w now n : ℕ) (k : Text) (m : Map (List ℕ))
    → now ≤ n
    → Ordered now m
    → recent w n (times_of k (purge w now m)) ≡ recent w n (times_of k m)
unfolding recent count_if
recent-purge w now n k m h o = elim (Bool-cases (stale w now (times_of k m))) [
  | inl e ↦
      rw (times_of-purge w now k m o.distinct, e)
        (sym (recent-stale w now n (times_of k m) h (o.sorted k) e))
  | inr e ↦ rw (times_of-purge w now k m o.distinct, e)
]

pub later-Ordered : {now n : ℕ} {m : Map (List ℕ)} → now ≤ n → Ordered now m → Ordered n m
later-Ordered h o = record {
  distinct = o.distinct;
  sorted = o.sorted;
  past = λ k. All-imp _ (λ t le. omega arith) (o.past k);
}

recent-insert :
    (w n : ℕ) (k j : Text) (ts : List ℕ) (m : Map (List ℕ))
    → recent w n (times_of j (insert k ts m))
      ≡ (if text_eq k j then recent w n ts else recent w n (times_of j m))
recent-insert w n k j ts m = ground (arith, times_of-insert k j ts m)

module _ (w now : ℕ) (k : Text) (m : Map (List ℕ)) (o : Ordered now m) where
  abbrev kept : List ℕ
  kept = alive w now (times_of k m)

  kept-Ordered : Ordered now (insert k kept m)
  kept-Ordered =
      insert-Ordered now k kept m (alive-Sorted w now (times_of k m) (o.sorted k))
        (All-alive (λ t. t ≤ now) w now (times_of k m) (o.past k)) o

  added-Ordered : Ordered now (insert k (kept ++ now ∷ []) m)
  added-Ordered =
      let sorted = alive-Sorted w now (times_of k m) (o.sorted k) in
      let past = All-alive (λ t. t ≤ now) w now (times_of k m) (o.past k) in
      insert-Ordered now k (kept ++ now ∷ []) m (append-Sorted kept now sorted past)
        (All-append (λ t. t ≤ now) kept (now ∷ []) past (omega arith, tt)) o

  admit-Ordered : Ordered now (admit w now k kept m)
  unfolding admit
  admit-Ordered = elim (Bool-cases (ltb purge_above (length (insert k (kept ++ now ∷ []) m)))) [
    | inl many ↦ rw many (purge-Ordered w now _ added-Ordered)
    | inr few ↦ rw few added-Ordered
  ]

  recent-kept :
      (n : ℕ) (j : Text)
      → now ≤ n
      → recent w n (times_of j (insert k kept m)) ≡ recent w n (times_of j m)
  recent-kept n j h =
      ground (
        arith,
        recent-insert w n k j kept m,
        recent-alive w now n (times_of k m) h,
        text_eq_iff k j,
      )

  recent-added :
      (n : ℕ) (j : Text)
      → now ≤ n
      → recent w n (times_of j (insert k (kept ++ now ∷ []) m))
        ≡ recent w n (times_of j m) + (if text_eq k j then recent w n (now ∷ []) else 0)
  recent-added n j h = ground (
    arith,
    recent-insert w n k j (kept ++ now ∷ []) m,
    recent-append w n kept (now ∷ []),
    recent-alive w now n (times_of k m) h,
    text_eq_iff k j,
  )

  recent-admit :
      (n : ℕ) (j : Text)
      → now ≤ n
      → recent w n (times_of j (admit w now k kept m))
        ≡ recent w n (times_of j m) + (if text_eq k j then recent w n (now ∷ []) else 0)
  unfolding admit
  recent-admit n j h =
      elim (Bool-cases (ltb purge_above (length (insert k (kept ++ now ∷ []) m)))) [
        | inl many ↦ rw many (recent-purge w now n j _ h added-Ordered ∙ recent-added n j h)
        | inr few ↦ rw few (recent-added n j h)
      ]

pub allow-Ordered :
    (now : ℕ) (k : Text) (l : Limiter)
    → Ordered now l.attempts
    → Ordered now (allow now k l).1.attempts
unfolding allow
allow-Ordered now k l o =
    elim (Bool-cases (leb l.limit (length (alive l.window now (times_of k l.attempts))))) [
      | inl full ↦ rw full (kept-Ordered l.window now k l.attempts o)
      | inr room ↦ rw room (admit-Ordered l.window now k l.attempts o)
    ]

-- What a call changes of the count of a key: it adds the call to its own key, if it is admitted.
pub recent-allow :
    (now n : ℕ) (k j : Text) (l : Limiter)
    → now ≤ n
    → Ordered now l.attempts
    → recent l.window n (times_of j (allow now k l).1.attempts)
      ≡ recent l.window n (times_of j l.attempts)
        + (if (allow now k l).0 && text_eq k j then recent l.window n (now ∷ []) else 0)
unfolding allow
recent-allow now n k j l h o =
    elim (Bool-cases (leb l.limit (length (alive l.window now (times_of k l.attempts))))) [
      | inl full ↦ rw full (omega (arith, recent-kept l.window now k l.attempts o n j h))
      | inr room ↦ rw room (recent-admit l.window now k l.attempts o n j h)
    ]

-- The answer of a call, by the count of its key.
pub allow-recent :
    (now : ℕ) (k : Text) (l : Limiter)
    → (allow now k l).0 ≡ ltb (recent l.window now (times_of k l.attempts)) l.limit
unfolding allow
allow-recent now k l = ground (arith, length-alive l.window now (times_of k l.attempts))

pub allow_settings :
    (now : ℕ) (k : Text) (l : Limiter)
    → ((allow now k l).1.limit ≡ l.limit) × ((allow now k l).1.window ≡ l.window)
unfolding allow
allow_settings now k l = ground arith

pub new-Ordered : (limit window now : ℕ) → Ordered now (new_rate_limiter limit window).attempts
unfolding new_rate_limiter times_of lookup
new-Ordered limit window now = record { distinct = tt; sorted = λ k. tt; past = λ k. tt }

pub times_of-new :
    (limit window : ℕ) (k : Text) → times_of k (new_rate_limiter limit window).attempts ≡ []
unfolding new_rate_limiter times_of lookup
times_of-new limit window k = refl
