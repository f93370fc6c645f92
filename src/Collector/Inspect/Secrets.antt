-- ===== src/Collector/Inspect/Secrets.antt =====
-- internal/collector/inventory.go: what maskEnv lets through of the values of an environment.
use homelab_dashboard.Prelude.{
  ◌≡◌, ◌≢◌, refl, sym, ap, ap₂, ◌∙◌, true, false, List, [], ◌∷◌, ◌++◌, map, Text, text_eq,
}
use homelab_dashboard.Prelude.Strings.{Without, cut-append}
use homelab_dashboard.Prelude.Sorting.{sort_strings}
use homelab_dashboard.Collector.Inspect.{is_secret, mask_cut, mask_line, mask_env, bullets}

unfoldable pub IsSecret : Text → Text → Type 0
IsSecret key value = Without b'=' key × (is_secret key ≡ true) × (value ≢ [])

-- Two lines that are the same, or set the same secret variable to two values.
pub data SameBut : Text → Text → Type 0 where
  same : (kv : Text) → SameBut kv kv
  other_value :
      (key v w : Text)
      → IsSecret key v
      → IsSecret key w
      → SameBut (key ++ b'=' ∷ v) (key ++ b'=' ∷ w)

-- The lines of two environments, one by one.
unfoldable pub SameButSecrets : List Text → List Text → Type 0
SameButSecrets [] [] = Unit
SameButSecrets [] (b ∷ ys) = ⊥
SameButSecrets (a ∷ xs) [] = ⊥
SameButSecrets (a ∷ xs) (b ∷ ys) = SameBut a b × SameButSecrets xs ys

not_empty : (value : Text) → value ≢ [] → text_eq value [] ≡ false
unfolding text_eq
not_empty [] h = elim (h refl) [ ]
not_empty (x ∷ value) h = refl

-- The line of a secret variable is its name and the bullets, whatever the value.
mask_line_secret :
    (key value : Text)
    → IsSecret key value
    → mask_line (key ++ b'=' ∷ value) ≡ key ++ b'=' ∷ bullets
unfolding mask_line mask_cut IsSecret
mask_line_secret key value (at, hinted, set) =
    rw (cut-append key value b'=' at, hinted, not_empty value set) refl

mask_line-SameBut : (a b : Text) → SameBut a b → mask_line a ≡ mask_line b
mask_line-SameBut a b (same kv) = refl
mask_line-SameBut a b (other_value key v w hv hw) =
    mask_line_secret key v hv ∙ sym (mask_line_secret key w hw)

map-SameBut : (xs ys : List Text) → SameButSecrets xs ys → map mask_line xs ≡ map mask_line ys
unfolding SameButSecrets
map-SameBut [] [] h = refl
map-SameBut [] (b ∷ ys) h = elim h [ ]
map-SameBut (a ∷ xs) [] h = elim h [ ]
map-SameBut (a ∷ xs) (b ∷ ys) (s, h) =
    ap₂ (λ c cs. c ∷ cs) (mask_line-SameBut a b s) (map-SameBut xs ys h)

-- The values of secret variables do not reach the masked environment: two environments that
-- differ only in such values, which are not empty, are masked to the same lines.
pub mask_env-SameButSecrets : (xs ys : List Text) → SameButSecrets xs ys → mask_env xs ≡ mask_env ys
unfolding mask_env
mask_env-SameButSecrets xs ys h = ap sort_strings (map-SameBut xs ys h)
