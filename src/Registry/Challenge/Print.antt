-- ===== src/Registry/Challenge/Print.antt =====
-- internal/registry/checker.go: parseChallenge on a header that a registry prints.
use mathlib.Core.List.{append-nil, append_assoc, reverse, reverse-append, reverse-reverse}
use homelab_dashboard.Prelude.{
  ℕ, Bool, true, false, List, [], ◌∷◌, ◌++◌, map, Text, codes, ◌==◌, ◌≡◌, ◌≢◌, ◌<◌, refl, sym, ap,
  ◌∙◌, arith, All, All-append, All-imp,
}
use homelab_dashboard.Prelude.Assoc.{Map, insert}
use homelab_dashboard.Prelude.Strings.{
  Without, is_space, trim_space, trim_both, trim_left, cut, cut-append,
}
use homelab_dashboard.Prelude.Runes.{
  IsAscii, write_runes-IsAscii, trim_unicode, trim_unicode-IsAscii, reverse-All,
}
use homelab_dashboard.Registry.Challenge.{
  split_from, set_param, set_params, parse_trimmed, parse_challenge, to_lower, split_challenge,
}

-- A parameter as a registry prints it: its key, an equals sign and the quoted value.
print_param : Text × Text → Text
print_param (key, value) = key ++ b'=' ∷ b'"' ∷ (value ++ b'"' ∷ [])

-- The other parameters, each after a comma.
print_rest : List (Text × Text) → Text
unfolding print_param
print_rest [] = []
print_rest (p ∷ ps) = b',' ∷ (print_param p ++ print_rest ps)

unfoldable pub print_challenge : Text × Text → List (Text × Text) → Text
unfolding print_rest
print_challenge p ps = codes "Bearer " ++ (print_param p ++ print_rest ps)

-- A key without spaces, quotes, commas and equals signs, and a value without quotes; both are ASCII.
unfoldable pub IsParam : Text × Text → Type 0
IsParam (key, value) =
    All (λ c. is_space c ≡ false) key
    × Without b'=' key
    × All (λ c. (c ≢ b'"') × (c ≢ b',')) key
    × Without b'"' value
    × IsAscii key
    × IsAscii value

-- A text none of whose bytes is trimmed stays.
trim_left_none : (p : ℕ → Bool) (s : Text) → All (λ c. p c ≡ false) s → trim_left p s ≡ s
unfolding trim_left
trim_left_none p [] h = refl
trim_left_none p (c ∷ s) (e, h) = rw e refl

trim_both_none : (p : ℕ → Bool) (s : Text) → All (λ c. p c ≡ false) s → trim_both p s ≡ s
unfolding trim_both
trim_both_none p s h =
    rw (trim_left_none p s h, trim_left_none p (reverse s) (reverse-All (λ c. p c ≡ false) s h))
      (reverse-reverse s)

-- A text whose first and last byte are not trimmed stays.
trim_both_ends :
    (p : ℕ → Bool) (c d : ℕ) (s : Text)
    → p c ≡ false
    → p d ≡ false
    → trim_both p (c ∷ (s ++ d ∷ [])) ≡ c ∷ (s ++ d ∷ [])
unfolding trim_both trim_left
trim_both_ends p c d s ec ed =
    rw (ec, reverse-append (c ∷ s) (d ∷ []), ed)
      (ap reverse (sym (reverse-append (c ∷ s) (d ∷ []))) ∙ reverse-reverse (c ∷ (s ++ d ∷ [])))

-- The quotes around a value go, and the value stays.
trim_quotes : (s : Text) → Without b'"' s → trim_both (λ c. c == b'"') (b'"' ∷ (s ++ b'"' ∷ [])) ≡ s
unfolding trim_both trim_left
trim_quotes [] h = refl
trim_quotes (c ∷ s) (ne, h) =
    let kept : All (λ d. (d == b'"') ≡ false) (c ∷ s) =
      All-imp (c ∷ s) (λ d e. ground arith) (ne, h) in
    rw
      (
        kept.0,
        reverse-append (c ∷ s) (b'"' ∷ []),
        trim_left_none (λ d. d == b'"') (reverse (c ∷ s))
            (reverse-All (λ d. (d == b'"') ≡ false) (c ∷ s) kept),
      )
      (reverse-reverse (c ∷ s))

snoc_append : (cur : Text) (c : ℕ) (s : Text) → (cur ++ c ∷ []) ++ s ≡ cur ++ c ∷ s
snoc_append cur c s = append_assoc cur (c ∷ []) s

-- A text without quotes and commas goes on the part.
split_from_plain :
    (a cur s : Text)
    → All (λ c. (c ≢ b'"') × (c ≢ b',')) a
    → split_from false cur (a ++ s) ≡ split_from false (cur ++ a) s
unfolding split_from
split_from_plain [] cur s h = ap (λ t. split_from false t s) (sym (append-nil cur))
split_from_plain (c ∷ a) cur s ((q, k), h) =
    ground (arith, split_from_plain a (cur ++ c ∷ []) s h, snoc_append cur c a)

-- So does a quoted text, whatever commas it has.
split_from_quoted :
    (a cur s : Text)
    → Without b'"' a
    → split_from true cur (a ++ b'"' ∷ s) ≡ split_from false (cur ++ (a ++ b'"' ∷ [])) s
unfolding split_from
split_from_quoted [] cur s h = refl
split_from_quoted (c ∷ a) cur s (q, h) =
    ground (arith, split_from_quoted a (cur ++ c ∷ []) s h, snoc_append cur c (a ++ b'"' ∷ []))

split_from_last : (a b : Text) (c : ℕ) → split_from false (a ++ c ∷ b) [] ≡ (a ++ c ∷ b) ∷ []
unfolding split_from
split_from_last [] b c = refl
split_from_last (d ∷ a) b c = refl

-- A printed parameter is read whole.
split_from-print_param :
    (p : Text × Text) (s : Text)
    → IsParam p
    → split_from false [] (print_param p ++ s) ≡ split_from false (print_param p) s
unfolding IsParam print_param split_from
split_from-print_param (key, value) s (spaces, equals, plain, quotes, letters, bytes) =
    rw
      (
        append_assoc key (b'=' ∷ b'"' ∷ (value ++ b'"' ∷ [])) s,
        split_from_plain key [] (b'=' ∷ b'"' ∷ ((value ++ b'"' ∷ []) ++ s)) plain,
        snoc_append value b'"' s,
        split_from_quoted value ((key ++ b'=' ∷ []) ++ b'"' ∷ []) s quotes,
        snoc_append (key ++ b'=' ∷ []) b'"' (value ++ b'"' ∷ []),
        snoc_append key b'=' (b'"' ∷ (value ++ b'"' ∷ [])),
      )
      refl

quoted-IsAscii : (value : Text) → IsAscii value → IsAscii (b'"' ∷ (value ++ b'"' ∷ []))
quoted-IsAscii value h =
    (omega arith, All-append (λ c. c < 128) value (b'"' ∷ []) h (omega arith, tt))

print_param-IsAscii : (p : Text × Text) → IsParam p → IsAscii (print_param p)
unfolding print_param IsParam
print_param-IsAscii (key, value) (spaces, equals, plain, quotes, letters, bytes) =
    All-append (λ c. c < 128) key (b'=' ∷ b'"' ∷ (value ++ b'"' ∷ [])) letters
      (omega arith, quoted-IsAscii value bytes)

print_rest-IsAscii : (ps : List (Text × Text)) → All IsParam ps → IsAscii (print_rest ps)
unfolding print_rest
print_rest-IsAscii [] h = tt
print_rest-IsAscii (p ∷ ps) (h, hs) = (
  omega arith,
  All-append (λ c. c < 128) (print_param p) (print_rest ps) (print_param-IsAscii p h)
      (print_rest-IsAscii ps hs),
)

print_all-IsAscii :
    (p : Text × Text) (ps : List (Text × Text))
    → All IsParam (p ∷ ps)
    → IsAscii (print_param p ++ print_rest ps)
print_all-IsAscii p ps (h, hs) =
    All-append (λ c. c < 128) (print_param p) (print_rest ps) (print_param-IsAscii p h)
      (print_rest-IsAscii ps hs)

split_from-print :
    (p : Text × Text) (ps : List (Text × Text))
    → All IsParam (p ∷ ps)
    → split_from false [] (print_param p ++ print_rest ps) ≡ map print_param (p ∷ ps)
unfolding print_rest split_from print_param
split_from-print p [] (h, hs) =
    split_from-print_param p [] h ∙ split_from_last p.0 (b'"' ∷ (p.1 ++ b'"' ∷ [])) b'='
split_from-print p (q ∷ qs) (h, hs) =
    split_from-print_param p (print_rest (q ∷ qs)) h
    ∙ ap (λ t. print_param p ∷ t) (split_from-print q qs hs)

-- The parts of the printed parameters are the parameters, whatever commas their values have.
split_challenge-print :
    (p : Text × Text) (ps : List (Text × Text))
    → All IsParam (p ∷ ps)
    → split_challenge (print_param p ++ print_rest ps) ≡ map print_param (p ∷ ps)
unfolding split_challenge
split_challenge-print p ps h =
    ap (split_from false []) (write_runes-IsAscii _ (print_all-IsAscii p ps h))
    ∙ split_from-print p ps h

set_param-print :
    (p : Text × Text) (m : Map Text)
    → IsParam p
    → set_param (cut (print_param p) b'=') m ≡ insert p.0 p.1 m
unfolding set_param print_param IsParam trim_space
set_param-print (key, value) m (spaces, equals, plain, quotes, letters, bytes) =
    rw
      (
        cut-append key (b'"' ∷ (value ++ b'"' ∷ [])) b'=' equals,
        trim_unicode-IsAscii key letters,
        trim_both_none is_space key spaces,
        trim_unicode-IsAscii (b'"' ∷ (value ++ b'"' ∷ [])) (quoted-IsAscii value bytes),
        trim_both_ends is_space b'"' b'"' value refl refl,
        trim_quotes value quotes,
      )
      refl

-- The parameters, set in their order.
pub insert_all : List (Text × Text) → Map Text → Map Text
insert_all [] m = m
insert_all ((key, value) ∷ ps) m = insert_all ps (insert key value m)

set_params-print :
    (ps : List (Text × Text)) (m : Map Text)
    → All IsParam ps
    → set_params (map print_param ps) m ≡ insert_all ps m
unfolding set_params insert_all
set_params-print [] m h = refl
set_params-print (p ∷ ps) m (h, hs) =
    ap (set_params (map print_param ps)) (set_param-print p m h)
    ∙ (set_params-print ps (insert p.0 p.1 m) hs)

print_ends :
    (p : Text × Text) (ps : List (Text × Text))
    → (t : Text) × (print_param p ++ print_rest ps ≡ t ++ b'"' ∷ [])
unfolding print_param print_rest
print_ends (key, value) [] = (
  key ++ b'=' ∷ b'"' ∷ value,
  append-nil (print_param (key, value)) ∙ sym (append_assoc key (b'=' ∷ b'"' ∷ value) (b'"' ∷ [])),
)
print_ends p (q ∷ qs) =
    let (t, e) = print_ends q qs in
    (
      print_param p ++ b',' ∷ t,
      ap (λ u. print_param p ++ b',' ∷ u) e
          ∙ sym (append_assoc (print_param p) (b',' ∷ t) (b'"' ∷ [])),
    )

trim_unicode-print :
    (p : Text × Text) (ps : List (Text × Text))
    → All IsParam (p ∷ ps)
    → trim_unicode (print_challenge p ps) ≡ print_challenge p ps
unfolding trim_space print_challenge
trim_unicode-print p ps h =
    let (t, e) = print_ends p ps in
    let ascii : IsAscii (print_challenge p ps) =
      All-append (λ c. c < 128) (codes "Bearer ") (print_param p ++ print_rest ps) (omega arith)
        (print_all-IsAscii p ps h) in
    trim_unicode-IsAscii (print_challenge p ps) ascii
    ∙ rw e (trim_both_ends is_space b'B' b'"' (codes "earer " ++ t) refl refl)

-- A challenge of at least one parameter, whose keys have no spaces, quotes, commas or equals
-- signs and whose values have no quotes, all of ASCII, parses to exactly these parameters, set in
-- their order, whatever commas and spaces the values have.
pub parse_challenge-print_challenge :
    (p : Text × Text) (ps : List (Text × Text))
    → All IsParam (p ∷ ps)
    → parse_challenge (print_challenge p ps) ≡ insert_all (p ∷ ps) []
unfolding parse_challenge parse_trimmed to_lower print_challenge insert_all
parse_challenge-print_challenge p ps h =
    rw (trim_unicode-print p ps h, split_challenge-print p ps h) (set_params-print (p ∷ ps) [] h)
