-- ===== src/Prelude/Strings.antt =====
-- The functions of Go's package strings that the program calls, on lists of bytes.
use Prim.Native.Nat.{ℕ}
use mathlib.Core.Path.{◌≡◌, refl, ap, ◌∙◌}
use mathlib.Core.Logic.{◌≢◌}
use mathlib.Core.Bool.{Bool, true, false, ◌&&◌, ◌||◌}
use mathlib.Core.Option.{Option, none, some}
use mathlib.Core.List.{List, [], ◌∷◌, ◌++◌, reverse}
use native.Mathlib.Omega.{arith}
use homelab_dashboard.Prelude.Tests.{◌==◌, if◌then◌else◌}
use homelab_dashboard.Prelude.Lists.{All}
use homelab_dashboard.Prelude.Bytes.{Text}

-- strings.HasPrefix
unfoldable pub has_prefix : Text → Text → Bool
has_prefix s [] = true
has_prefix [] (p ∷ ps) = false
has_prefix (c ∷ s) (p ∷ ps) = c == p && has_prefix s ps

-- strings.Contains
unfoldable pub contains : Text → Text → Bool
unfolding has_prefix
contains [] sub = has_prefix [] sub
contains (c ∷ s) sub = has_prefix (c ∷ s) sub || contains s sub

drop_prefix : Text → Text → Option Text
drop_prefix s [] = some s
drop_prefix [] (p ∷ ps) = none
drop_prefix (c ∷ s) (p ∷ ps) = if c == p then drop_prefix s ps else none

drop_prefix-append : (p s : Text) → drop_prefix (p ++ s) p ≡ some s
unfolding drop_prefix
drop_prefix-append [] s = ground arith
drop_prefix-append (c ∷ p) s = ground (arith, drop_prefix-append p s)

drop_prefix_without : (s p : Text) → has_prefix s p ≡ false → drop_prefix s p ≡ none
unfolding drop_prefix has_prefix
drop_prefix_without s [] h = cc
drop_prefix_without [] (c ∷ p) h = refl
drop_prefix_without (b ∷ s) (c ∷ p) h = ground (arith, drop_prefix_without s p)

abbrev pub text_or : Option Text → Text → Text
text_or none s = s
text_or (some t) s = t

-- strings.TrimPrefix
unfoldable pub trim_prefix : Text → Text → Text
unfolding drop_prefix
trim_prefix s p = text_or (drop_prefix s p) s

-- A prefix is taken off, and a text without it stays.
pub trim_prefix-append : (p s : Text) → trim_prefix (p ++ s) p ≡ s
unfolding trim_prefix
trim_prefix-append p s = rw (drop_prefix-append p s) refl

pub trim_prefix_without : (s p : Text) → has_prefix s p ≡ false → trim_prefix s p ≡ s
unfolding trim_prefix
trim_prefix_without s p h = rw (drop_prefix_without s p h) refl

abbrev consed : ℕ → Option (Text × Text) → Option (Text × Text)
consed c none = none
consed c (some (a, b)) = some (c ∷ a, b)

-- strings.Cut and strings.Index at a one-byte separator: the text before and after its first
-- occurrence.
unfoldable pub cut : Text → ℕ → Option (Text × Text)
cut [] sep = none
cut (c ∷ s) sep = let rest = cut s sep in if c == sep then some ([], s) else consed c rest

abbrev pub last_or : ℕ → ℕ → Text → Option (Text × Text) → Option (Text × Text)
last_or c sep s (some (a, b)) = some (c ∷ a, b)
last_or c sep s none = if c == sep then some ([], s) else none

-- strings.LastIndex at a one-byte separator: the text before and after its last occurrence.
unfoldable pub cut_last : Text → ℕ → Option (Text × Text)
cut_last [] sep = none
cut_last (c ∷ s) sep = last_or c sep s (cut_last s sep)

abbrev split_at : Bool → ℕ → Text × List Text → Text × List Text
split_at true c (first, rest) = ([], first ∷ rest)
split_at false c (first, rest) = (c ∷ first, rest)

-- strings.Split at a one-byte separator: the first part and the others.
unfoldable pub split_on : ℕ → Text → Text × List Text
split_on sep [] = ([], [])
split_on sep (c ∷ s) = split_at (c == sep) c (split_on sep s)

-- A space of ASCII, as unicode.IsSpace has it.
unfoldable pub is_space : ℕ → Bool
is_space c = c == 32 || (c == 9 || (c == 10 || (c == 11 || (c == 12 || c == 13))))

unfoldable pub trim_left : (ℕ → Bool) → Text → Text
trim_left p [] = []
trim_left p (c ∷ s) = let rest = trim_left p s in if p c then rest else c ∷ s

-- strings.TrimFunc
unfoldable pub trim_both : (ℕ → Bool) → Text → Text
unfolding trim_left
trim_both p s = reverse (trim_left p (reverse (trim_left p s)))

-- strings.TrimRightFunc
unfoldable pub trim_right : (ℕ → Bool) → Text → Text
unfolding trim_left
trim_right p s = reverse (trim_left p (reverse s))

-- strings.TrimSpace, on ASCII text.
unfoldable pub trim_space : Text → Text
unfolding is_space trim_both
trim_space s = trim_both is_space s

-- The byte does not stand in the text.
abbrev pub Without : ℕ → Text → Type 0
Without sep = All (λ c. c ≢ sep)

-- The first occurrence of a separator is the one after a text without it.
pub cut-append : (a b : Text) (sep : ℕ) → Without sep a → cut (a ++ sep ∷ b) sep ≡ some (a, b)
unfolding cut
cut-append [] b sep h = ground arith
cut-append (c ∷ a) b sep (ne, h) = ground (arith, cut-append a b sep h)

-- A text without the separator is its only part, and is the first part of any longer text.
pub split_on-append :
    (sep : ℕ) (a b : Text)
    → Without sep a
    → split_on sep (a ++ sep ∷ b) ≡ (a, (split_on sep b).0 ∷ (split_on sep b).1)
unfolding split_on
split_on-append sep [] b h = ground arith
split_on-append sep (c ∷ a) b (ne, h) = ground (arith, split_on-append sep a b h)

pub split_on_one : (sep : ℕ) (a : Text) → Without sep a → split_on sep a ≡ (a, [])
unfolding split_on
split_on_one sep [] h = refl
split_on_one sep (c ∷ a) (ne, h) = ground (arith, split_on_one sep a h)

-- strings.Join of the parts with the separator between them.
abbrev pub join_rest : ℕ → List Text → Text
join_rest sep [] = []
join_rest sep (part ∷ parts) = sep ∷ (part ++ join_rest sep parts)

split_at-join :
    (b : Bool) (sep c : ℕ) (parts : Text × List Text)
    → (b ≡ true → c ≡ sep)
    → (split_at b c parts).0 ++ join_rest sep (split_at b c parts).1
      ≡ c ∷ (parts.0 ++ join_rest sep parts.1)
split_at-join true sep c parts h = ground (arith, h refl)
split_at-join false sep c parts h = refl

-- The parts of a text, joined, are the text.
pub split_on_join :
    (sep : ℕ) (s : Text) → (split_on sep s).0 ++ join_rest sep (split_on sep s).1 ≡ s
unfolding split_on
split_on_join sep [] = refl
split_on_join sep (c ∷ s) =
    split_at-join (c == sep) sep c (split_on sep s) (λ e. ground arith)
    ∙ ap (λ t. c ∷ t) (split_on_join sep s)
