-- ===== src/Config/Tests.antt =====
-- internal/config/config.go: Load on a sample environment.
use homelab_dashboard.Prelude.{ℕ, ◌≡◌, refl, true, none, some, [], ◌∷◌, inl, inr, codes, text_eq}
use homelab_dashboard.Prelude.Assoc.{lookup}
use homelab_dashboard.Prelude.Decimal.{plus, read_digits}
use homelab_dashboard.Prelude.Strings.{has_prefix}
use homelab_dashboard.Config.{Env}
use homelab_dashboard.Config.Load.{Library, settings, load}
use homelab_dashboard.Config.Load.Bounds.{HasCredentials, IsBounded, HasPaths, load_checked}

-- Floats as whole numbers, no files, and every zone known.
abbrev library : Library ℕ
library = record {
  quote = λ s. s;
  of_nat = λ n. n;
  parse_float = λ s. none;
  parse_duration = λ s. some (plus 6_000_000_000);
  read_file = λ path. inl (codes "no file");
  is_zone = λ zone. true;
}

abbrev environment : Env
environment =
    (codes "PORTAINER_URL", codes "https://portainer/")
    ∷ (codes "PORTAINER_API_KEY", codes "key")
    ∷ (codes "ADMIN_PASSWORD", codes "long enough")
    ∷ (codes "STATS_WORKERS", codes " 16 ")
    ∷ []

loads : load library environment ≡ inr (settings library environment).0
unfolding load text_eq lookup has_prefix read_digits
loads = refl

load_checked_example :
    HasCredentials (settings library environment).0
    × IsBounded (settings library environment).0
    × HasPaths (settings library environment).0
    × (true ≡ true)
load_checked_example = load_checked library environment (settings library environment).0 loads
