-- ===== src/Registry/Challenge.antt =====
-- internal/registry/checker.go: parseChallenge and splitChallenge, on the bytes of the header. The
-- bytes that they compare are ASCII, which no other rune holds; what the loop copies are the runes.
pub mod Print
use homelab_dashboard.Prelude.{
  ℕ, ◌+◌, Bool, true, false, not, ◌&&◌, Option, none, some, List, [], ◌∷◌, ◌++◌, map, drop, Text,
  codes, leb, ◌==◌, if◌then◌else◌,
}
use homelab_dashboard.Prelude.Assoc.{Map, insert}
use homelab_dashboard.Prelude.Strings.{has_prefix, cut, trim_both}
use homelab_dashboard.Prelude.Runes.{write_runes, trim_unicode}

-- The rest of the header after a byte, which stands in a quoted part or not, and the part so far.
unfoldable pub split_from : Bool → Text → Text → List Text
split_from quoted [] [] = []
split_from quoted (b ∷ cur) [] = (b ∷ cur) ∷ []
split_from quoted cur (c ∷ s) =
    let toggled = split_from (not quoted) (cur ++ c ∷ []) s in
    let parted = cur ∷ split_from quoted [] s in
    let longer = split_from quoted (cur ++ c ∷ []) s in
    if c == b'"' then toggled else if c == b',' && not quoted then parted else longer

unfoldable pub split_challenge : Text → List Text
unfolding split_from write_runes
split_challenge s = split_from false [] (write_runes 0 s)

-- One part of the header: its key and value, where it has an equals sign.
unfoldable pub set_param : Option (Text × Text) → Map Text → Map Text
unfolding insert trim_unicode trim_both
set_param none params = params
set_param (some (key, value)) params =
    insert (trim_unicode key) (trim_both (λ c. c == b'"') (trim_unicode value)) params

unfoldable pub set_params : List Text → Map Text → Map Text
unfolding set_param cut
set_params [] params = params
set_params (part ∷ parts) params = set_params parts (set_param (cut part b'=') params)

-- strings.ToLower on the letters of ASCII; no other rune has one of `bearer` as its lower case.
unfoldable pub to_lower : Text → Text
to_lower s = map (λ c. if leb 65 c && leb c 90 then c + 32 else c) s

unfoldable pub parse_trimmed : Text → Map Text
unfolding set_params split_challenge to_lower has_prefix
parse_trimmed header =
    if has_prefix (to_lower header) (codes "bearer ")
    then set_params (split_challenge (drop 7 header)) []
    else []

unfoldable pub parse_challenge : Text → Map Text
unfolding parse_trimmed trim_unicode
parse_challenge header = parse_trimmed (trim_unicode header)
