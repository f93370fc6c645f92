-- ===== src/Prelude/Runes.antt =====
-- Go's runes: the bytes that a loop over a string and strings.Builder.WriteRune copy, and strings.TrimSpace
-- on text of any bytes.
use Prim.Native.Nat.{ℕ, zero, suc, ◌-◌, ◌≤◌, ◌<◌}
use mathlib.Core.Path.{◌≡◌, refl, sym, subst, ap}
use mathlib.Core.Logic.{inl, inr}
use mathlib.Core.Bool.{Bool, ◌&&◌}
use mathlib.Core.List.{List, [], ◌∷◌, reverse, reverse-cons}
use native.Mathlib.Omega.{arith}
use homelab_dashboard.Prelude.Tests.{ltb, leb, ◌==◌, if◌then◌else◌, Bool-cases}
use homelab_dashboard.Prelude.Lists.{length, All, All-append}
use homelab_dashboard.Prelude.Bytes.{Text}
use homelab_dashboard.Prelude.Strings.{has_prefix, is_space, trim_left, trim_both, trim_space}

between : ℕ → ℕ → ℕ → Bool
between low high c = leb low c && leb c high

-- The second byte of a rune that the first byte leaves open.
second_fits : ℕ → ℕ → Bool
unfolding between
second_fits c d =
    if c == 224
    then between 160 191 d
    else if c == 237
    then between 128 159 d
    else if c == 240
    then between 144 191 d
    else if c == 244
    then between 128 143 d
    else between 128 191 d

two_bytes : ℕ → Text → ℕ
unfolding second_fits
two_bytes c [] = 0
two_bytes c (d ∷ s) = if second_fits c d then 2 else 0

three_bytes : ℕ → Text → ℕ
unfolding second_fits between
three_bytes c (d ∷ e ∷ s) = if second_fits c d && between 128 191 e then 3 else 0
three_bytes c _ = 0

four_bytes : ℕ → Text → ℕ
unfolding second_fits between
four_bytes c (d ∷ e ∷ f ∷ s) =
    if second_fits c d && (between 128 191 e && between 128 191 f) then 4 else 0
four_bytes c _ = 0

-- The number of bytes of the rune that starts with a byte, 0 where the bytes are not UTF-8.
unfoldable pub rune_width : ℕ → Text → ℕ
unfolding two_bytes three_bytes four_bytes between
rune_width c s =
    if ltb c 128
    then 1
    else if between 194 223 c
    then two_bytes c s
    else if between 224 239 c
    then three_bytes c s
    else if between 240 244 c
    then four_bytes c s
    else 0

-- What WriteRune writes of the runes of a text, after the bytes that belong to a rune before: a byte that
-- is no rune becomes U+FFFD.
unfoldable pub write_runes : ℕ → Text → Text
unfolding rune_width
write_runes skip [] = []
write_runes (suc k) (c ∷ s) = c ∷ write_runes k s
write_runes zero (c ∷ s) =
    let width = rune_width c s in
    let rest = write_runes (width - 1) s in if width == 0 then 239 ∷ 191 ∷ 189 ∷ rest else c ∷ rest

-- The spaces of unicode.IsSpace that are not ASCII, and the same from their last byte to the first.
abbrev pub wide_spaces : List Text
wide_spaces =
    (194 ∷ 133 ∷ [])
    ∷ (194 ∷ 160 ∷ [])
    ∷ (225 ∷ 154 ∷ 128 ∷ [])
    ∷ (226 ∷ 128 ∷ 128 ∷ [])
    ∷ (226 ∷ 128 ∷ 129 ∷ [])
    ∷ (226 ∷ 128 ∷ 130 ∷ [])
    ∷ (226 ∷ 128 ∷ 131 ∷ [])
    ∷ (226 ∷ 128 ∷ 132 ∷ [])
    ∷ (226 ∷ 128 ∷ 133 ∷ [])
    ∷ (226 ∷ 128 ∷ 134 ∷ [])
    ∷ (226 ∷ 128 ∷ 135 ∷ [])
    ∷ (226 ∷ 128 ∷ 136 ∷ [])
    ∷ (226 ∷ 128 ∷ 137 ∷ [])
    ∷ (226 ∷ 128 ∷ 138 ∷ [])
    ∷ (226 ∷ 128 ∷ 168 ∷ [])
    ∷ (226 ∷ 128 ∷ 169 ∷ [])
    ∷ (226 ∷ 128 ∷ 175 ∷ [])
    ∷ (226 ∷ 129 ∷ 159 ∷ [])
    ∷ (227 ∷ 128 ∷ 128 ∷ [])
    ∷ []

abbrev pub wide_spaces_back : List Text
wide_spaces_back =
    (133 ∷ 194 ∷ [])
    ∷ (160 ∷ 194 ∷ [])
    ∷ (128 ∷ 154 ∷ 225 ∷ [])
    ∷ (128 ∷ 128 ∷ 226 ∷ [])
    ∷ (129 ∷ 128 ∷ 226 ∷ [])
    ∷ (130 ∷ 128 ∷ 226 ∷ [])
    ∷ (131 ∷ 128 ∷ 226 ∷ [])
    ∷ (132 ∷ 128 ∷ 226 ∷ [])
    ∷ (133 ∷ 128 ∷ 226 ∷ [])
    ∷ (134 ∷ 128 ∷ 226 ∷ [])
    ∷ (135 ∷ 128 ∷ 226 ∷ [])
    ∷ (136 ∷ 128 ∷ 226 ∷ [])
    ∷ (137 ∷ 128 ∷ 226 ∷ [])
    ∷ (138 ∷ 128 ∷ 226 ∷ [])
    ∷ (168 ∷ 128 ∷ 226 ∷ [])
    ∷ (169 ∷ 128 ∷ 226 ∷ [])
    ∷ (175 ∷ 128 ∷ 226 ∷ [])
    ∷ (159 ∷ 129 ∷ 226 ∷ [])
    ∷ (128 ∷ 128 ∷ 227 ∷ [])
    ∷ []

-- The bytes of the wide space at the start, 0 where there is none.
unfoldable pub wide_width : List Text → Text → ℕ
unfolding has_prefix
wide_width [] s = 0
wide_width (sp ∷ sps) s = let rest = wide_width sps s in if has_prefix s sp then length sp else rest

unfoldable pub space_width : List Text → ℕ → Text → ℕ
unfolding wide_width is_space
space_width wide c s = if is_space c then 1 else wide_width wide (c ∷ s)

unfoldable pub trim_spaces : List Text → ℕ → Text → Text
unfolding space_width
trim_spaces wide skip [] = []
trim_spaces wide (suc k) (c ∷ s) = trim_spaces wide k s
trim_spaces wide zero (c ∷ s) =
    let width = space_width wide c s in
    let rest = trim_spaces wide (width - 1) s in if width == 0 then c ∷ s else rest

-- strings.TrimSpace
unfoldable pub trim_unicode : Text → Text
unfolding trim_spaces
trim_unicode s = reverse (trim_spaces wide_spaces_back 0 (reverse (trim_spaces wide_spaces 0 s)))

-- A text of ASCII.
abbrev pub IsAscii : Text → Type 0
IsAscii = All (λ c. c < 128)

-- A loop over a text of ASCII copies it.
pub write_runes-IsAscii : (s : Text) → IsAscii s → write_runes 0 s ≡ s
unfolding write_runes rune_width
write_runes-IsAscii [] h = refl
write_runes-IsAscii (c ∷ s) (small, h) = ground (arith, write_runes-IsAscii s h)

-- The text starts with a byte that is not ASCII.
abbrev IsWide : Text → Type 0
IsWide [] = ⊥
IsWide (d ∷ s) = 128 ≤ d

wide_width-IsAscii :
    (wide : List Text) (c : ℕ) (s : Text) → All IsWide wide → c < 128 → wide_width wide (c ∷ s) ≡ 0
unfolding wide_width has_prefix
wide_width-IsAscii [] c s h small = refl
wide_width-IsAscii ([] ∷ sps) c s (e, h) small = absurd e
wide_width-IsAscii ((d ∷ ds) ∷ sps) c s (large, h) small =
    ground (arith, wide_width-IsAscii sps c s h small)

trim_spaces-IsAscii :
    (wide : List Text) (s : Text)
    → All IsWide wide
    → IsAscii s
    → trim_spaces wide 0 s ≡ trim_left is_space s
unfolding trim_spaces space_width trim_left
trim_spaces-IsAscii wide [] h a = refl
trim_spaces-IsAscii wide (c ∷ s) h (small, a) =
    ground (arith, wide_width-IsAscii wide c s h small, trim_spaces-IsAscii wide s h a)

trim_left-All : (P : ℕ → Type 0) (p : ℕ → Bool) (s : Text) → All P s → All P (trim_left p s)
unfolding trim_left
trim_left-All P p [] h = tt
trim_left-All P p (c ∷ s) (e, h) = elim (Bool-cases (p c)) [
  | inl y ↦ rw y (trim_left-All P p s h)
  | inr n ↦ rw n (e, h)
]

pub reverse-All : (P : ℕ → Type 0) (s : Text) → All P s → All P (reverse s)
reverse-All P [] h = tt
reverse-All P (c ∷ s) (e, h) =
    subst (All P) (sym (reverse-cons c s))
      (All-append P (reverse s) (c ∷ []) (reverse-All P s h) (e, tt))

wide_spaces-IsWide : All IsWide wide_spaces × All IsWide wide_spaces_back
wide_spaces-IsWide = omega arith

-- On ASCII text only the spaces of ASCII are trimmed.
pub trim_unicode-IsAscii : (s : Text) → IsAscii s → trim_unicode s ≡ trim_space s
unfolding trim_unicode trim_space trim_both
trim_unicode-IsAscii s h =
    let (front, back) = wide_spaces-IsWide in
    rw (trim_spaces-IsAscii wide_spaces s front h) (
      ap reverse (
        trim_spaces-IsAscii wide_spaces_back (reverse (trim_left is_space s)) back (
          reverse-All (λ c. c < 128) (trim_left is_space s)
            (trim_left-All (λ c. c < 128) is_space s h))))
