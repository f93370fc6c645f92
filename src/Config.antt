-- ===== src/Config.antt =====
-- internal/config/config.go: the readers of the environment and the parsers of their values.
pub mod Load
pub mod Credentials
mod Tests
use homelab_dashboard.Prelude.{
  ℕ, ◌+◌, ◌-◌, ◌*◌, ◌%◌, ◌^◌, Bool, true, false, not, ◌&&◌, ◌||◌, Option, none, some, List, [], ◌∷◌,
  ◌++◌, ◌⊎◌, inl, inr, map, take, length, Text, codes, text_eq, ltb, leb, ◌==◌, if◌then◌else◌,
  keep_if,
}
use homelab_dashboard.Prelude.Assoc.{Map, lookup, insert}
use homelab_dashboard.Prelude.Decimal.{parse_int, Signed, plus, minus}
use homelab_dashboard.Prelude.Strings.{trim_space, cut, split_on}
use homelab_dashboard.Registry.Tokens.{RegistryCredential}

-- The environment, as os.LookupEnv reads it.
abbrev pub Env : Type 0
Env = Map Text

pub record MountSpec : Type 0 where
  pub path : Text
  pub label : Text

-- A value and the errors that reading it added.
abbrev pub Read : Type 0 → Type 0
Read A = A × List Text

unfoldable pub mount_of : Text → Option (Text × Text) → MountSpec
unfolding trim_space
mount_of entry none = record { path = trim_space entry; label = trim_space entry }
mount_of entry (some (path, label)) =
    let path = trim_space path in
    let label = trim_space label in
    record { path = path; label = if text_eq label [] then path else label }

unfoldable pub parse_mounts : List Text → List MountSpec
unfolding mount_of cut
parse_mounts entries = map (λ e. mount_of e (cut e b'=')) entries

-- The trimmed value of a variable, `none` where it is not set or blank.
unfoldable pub set_value : Option Text → Option Text
unfolding trim_space
set_value none = none
set_value (some v) = let v = trim_space v in if text_eq v [] then none else some v

unfoldable pub text_or_default : Text → Option Text → Text
text_or_default def none = def
text_or_default def (some v) = v

unfoldable pub env_string : Env → Text → Text → Text
unfolding set_value text_or_default lookup
env_string env key def = text_or_default def (set_value (lookup key env))

-- The parts of a list, trimmed, the empty ones left out.
unfoldable pub list_parts : Text → List Text
unfolding split_on trim_space keep_if
list_parts raw =
    let parts = split_on b',' raw in
    keep_if (λ p. not (text_eq p [])) (map trim_space (parts.0 ∷ parts.1))

unfoldable pub env_list : Env → Text → Text → List Text
unfolding env_string list_parts
env_list env key def =
    let raw = env_string env key def in if text_eq raw [] then [] else list_parts raw

-- The value that the variable parses to; the default where it is not set, or with an error.
unfoldable pub parsed_or : {A : Type 0} → Text → A → Option (Option A) → Read A
parsed_or error def none = (def, [])
parsed_or error def (some none) = (def, error ∷ [])
parsed_or error def (some (some v)) = (v, [])

unfoldable pub parse_set : {A : Type 0} → (Text → Option A) → Option Text → Option (Option A)
parse_set parse none = none
parse_set parse (some v) = some (parse v)

module _ (quote : Text → Text) where
  -- The raw value of a variable, as an error quotes it.
  unfoldable pub quoted : Env → Text → Text
  quoted env key = quote (text_or_default [] (lookup key env))

  -- `envInt`, `envFloat`, `envBool` and `envDuration`, with the parser of the type and what the
  -- error says of it.
  unfoldable pub env_value : {A : Type 0} → (Text → Option A) → Text → Env → Text → A → Read A
  unfolding parsed_or parse_set set_value lookup quoted
  env_value parse what env key def =
      parsed_or (key ++ codes " must be " ++ what ++ codes ", got " ++ quoted env key) def
        (parse_set parse (set_value (lookup key env)))

  unfoldable pub env_int : Env → Text → ℕ → Read Signed
  unfolding env_value parse_int
  env_int env key def = env_value parse_int (codes "an integer") env key (plus def)

-- strconv.ParseBool
unfoldable pub parse_bool : Text → Option Bool
parse_bool s =
    let is : Text → Bool = λ t. text_eq s t in
    if is (codes "1")
      || (is (codes "t")
          || (is (codes "T") || (is (codes "true") || (is (codes "TRUE") || is (codes "True")))))
    then some true
    else if is (codes "0")
        || (is (codes "f")
            || (is (codes "F")
                || (is (codes "false") || (is (codes "FALSE") || is (codes "False")))))
    then some false
    else none

unfoldable pub file_value : Text → Text ⊎ Text → Text ⊎ Text
unfolding trim_space
file_value key (inl e) = inl (key ++ codes "_FILE could not be read: " ++ e)
file_value key (inr data_read) = inr (trim_space data_read)

-- The value of a secret: of the variable, else of the file that the other variable names.
unfoldable pub secret_from : (Text → Text ⊎ Text) → Text → Option Text → Option Text → Text ⊎ Text
unfolding file_value
secret_from read_file key (some v) path = inr v
secret_from read_file key none none = inr []
secret_from read_file key none (some path) = file_value key (read_file path)

unfoldable pub secret_value : (Text → Text ⊎ Text) → Env → Text → Text ⊎ Text
unfolding secret_from set_value lookup
secret_value read_file env key =
    secret_from read_file key (set_value (lookup key env))
      (set_value (lookup (key ++ codes "_FILE") env))

unfoldable pub redact : Text → Text
redact s = if leb (length s) 4 then codes "****" else take 4 s ++ codes "****"
