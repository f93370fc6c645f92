-- ===== src/Prelude/Sorting.antt =====
-- Go's order on strings, and sort.Strings and sort.Slice by a string key, which is stable here.
use mathlib.Core.Path.{◌≡◌, refl}
use mathlib.Core.Logic.{◌↔◌, inl, inr}
use mathlib.Core.Bool.{Bool, true, false}
use mathlib.Core.List.{List, [], ◌∷◌, ◌++◌}
use native.Mathlib.Omega.{arith}
use homelab_dashboard.Prelude.Tests.{ltb, ◌==◌, if◌then◌else◌, Bool-cases}
use homelab_dashboard.Prelude.Lists.{All, In}
use homelab_dashboard.Prelude.Bytes.{Text}

-- a < b on strings
unfoldable pub text_less : Text → Text → Bool
text_less [] [] = false
text_less [] (d ∷ b) = true
text_less (c ∷ a) [] = false
text_less (c ∷ a) (d ∷ b) = if c == d then text_less a b else ltb c d

module _ {A : Type 0} (less : A → A → Bool) where
  insert_sorted : A → List A → List A
  insert_sorted a [] = a ∷ []
  insert_sorted a (x ∷ xs) =
      let rest = insert_sorted a xs in if less x a then x ∷ rest else a ∷ x ∷ xs

  -- sort.SliceStable, and the order of a query
  unfoldable pub sort_with : List A → List A
  unfolding insert_sorted
  sort_with [] = []
  sort_with (x ∷ xs) = insert_sorted x (sort_with xs)

  In-insert_sorted : (a b : A) (xs : List A) → In a (insert_sorted b xs) ↔ In a (b ∷ xs)
  unfolding insert_sorted
  In-insert_sorted a b [] = (λ i. i, λ i. i)
  In-insert_sorted a b (x ∷ xs) = elim (Bool-cases (less x b)) [
    | inl e ↦ rw e (ground (arith, In-insert_sorted a b xs))
    | inr e ↦ rw e (λ i. i, λ i. i)
  ]

  -- Sorting keeps the elements.
  pub In-sort_with : (a : A) (xs : List A) → In a (sort_with xs) ↔ In a xs
  unfolding sort_with
  In-sort_with a [] = (λ i. i, λ i. i)
  In-sort_with a (x ∷ xs) = ground (arith, In-insert_sorted a x (sort_with xs), In-sort_with a xs)

  -- A last element that comes before all others is the first of the sorted list.
  pub sort_with_first :
      (a : A) (xs : List A)
      → All (λ x. less a x ≡ true) xs
      → (ys : List A) × (sort_with (xs ++ a ∷ []) ≡ a ∷ ys)
  unfolding sort_with insert_sorted
  sort_with_first a [] h = ([], refl)
  sort_with_first a (x ∷ xs) (e, h) =
      let (ys, sorted) = sort_with_first a xs h in (insert_sorted x ys, rw (sorted, e) refl)

-- sort.Slice by a string, where ties are kept in order
unfoldable pub sort_by : {A : Type 0} → (A → Text) → List A → List A
unfolding sort_with
sort_by key = sort_with (λ x y. text_less (key x) (key y))

-- sort.Strings
unfoldable pub sort_strings : List Text → List Text
unfolding sort_with
sort_strings = sort_with text_less
