-- ===== src/Alerts/Format/Escape.antt =====
-- internal/alerts/engine.go: splitKey undoes key, and escape leaves no markup and loses nothing.
use homelab_dashboard.Prelude.{ℕ, ◌≡◌, ◌≢◌, refl, ap, [], ◌∷◌, Text, arith, All, All-append}
use homelab_dashboard.Alerts.Format.{key, split_key, escape_byte, escape}

-- The text has no vertical bar.
abbrev pub NoBar : Text → Type 0
NoBar = All (λ c. c ≢ b'|')

-- A key splits into the rule and the target that it was made of, if the rule has no bar; the target
-- may have any bytes.
pub split_key-key : (rule target : Text) → NoBar rule → split_key (key rule target) ≡ (rule, target)
unfolding split_key key
split_key-key [] target all = refl
split_key-key (c ∷ rule) target (h, all) = ground (arith, split_key-key rule target all)

-- Two alerts with one key have the same rule and target, if their rules have no bar.
pub key-injective :
    (r r' t t' : Text) → NoBar r → NoBar r' → key r t ≡ key r' t' → (r ≡ r') × (t ≡ t')
key-injective r r' t t' h h' e =
    ground (arith, split_key-key r t h, split_key-key r' t' h', ap split_key e)

abbrev pub NoAngle : ℕ → Type 0
NoAngle c = (c ≢ b'<') × (c ≢ b'>')

escape_byte-NoAngle : (c : ℕ) → All NoAngle (escape_byte c)
unfolding escape_byte
escape_byte-NoAngle c = ground arith

escape-NoAngle : (s : Text) → All NoAngle (escape s)
unfolding escape
escape-NoAngle [] = tt
escape-NoAngle (c ∷ s) =
    All-append NoAngle (escape_byte c) (escape s) (escape_byte-NoAngle c) (escape-NoAngle s)

escape-injective : (a b : Text) → escape a ≡ escape b → a ≡ b
unfolding escape escape_byte
escape-injective [] [] e = refl
escape-injective [] (d ∷ b) e = ground arith
escape-injective (c ∷ a) [] e = ground arith
escape-injective (c ∷ a) (d ∷ b) e = ground (arith, escape-injective a b)

-- Escaped text has no angle bracket, so none of it is markup, and texts that differ stay different
-- when they are escaped.
pub escape_safe : (a b : Text) → All NoAngle (escape a) × (escape a ≡ escape b → a ≡ b)
escape_safe a b = (escape-NoAngle a, escape-injective a b)
