-- ===== src/Config/Load/Bounds.antt =====
-- internal/config/config.go: what holds of a configuration that Load returns.
use homelab_dashboard.Prelude.{
  ℕ, ◌≡◌, ◌≢◌, ◌≤◌, ◌*◌, ◌^◌, ◌↔◌, refl, subst, ◌⊎◌, inl, inr, Bool, true, false, not, ◌&&◌, ◌||◌,
  List, [], ◌∷◌, ◌++◌, length, Text, codes, text_eq, text_eq_iff, ltb, All, arith, Bool-cases,
}
use homelab_dashboard.Prelude.Decimal.{Signed, plus, minus}
use homelab_dashboard.Prelude.Strings.{has_prefix}
use homelab_dashboard.Config.{Env, MountSpec}
use homelab_dashboard.Config.Load.{
  Config, Library, below, above, at_least, second, failures, concat_errors, url_checks, key_checks,
  password_checks, telegram_checks, known_level, bound_checks, mount_checks, unless_errors,
  settings, load,
}

append_none : (xs ys : List Text) → xs ++ ys ≡ [] → (xs ≡ []) × (ys ≡ [])
append_none [] ys h = (refl, h)
append_none (x ∷ xs) ys h = cc

concat_errors_none : (ess : List (List Text)) → concat_errors ess ≡ [] → All (λ es. es ≡ []) ess
unfolding concat_errors
concat_errors_none [] h = tt
concat_errors_none (es ∷ ess) h =
    let (first, rest) = append_none es (concat_errors ess) h in (first, concat_errors_none ess rest)

failures_none : (checks : List (Bool × Text)) → failures checks ≡ [] → All (λ c. c.0 ≡ false) checks
unfolding failures
failures_none [] h = tt
failures_none ((bad, message) ∷ checks) h = elim (Bool-cases bad) [
  | inl e ↦ let no : ⊥ = cc in elim no [ ]
  | inr e ↦ (e, failures_none checks (ground arith))
]

unless_errors_none :
    {F : Type 0} (es : List Text) (c d : Config F)
    → unless_errors es c ≡ inr d
    → (es ≡ []) × (c ≡ d)
unfolding unless_errors
unless_errors_none [] c d h = (refl, cc)
unless_errors_none (e ∷ es) c d h = cc

-- The number is not negative, and at least n.
unfoldable pub AtLeast : Signed → ℕ → Type 0
AtLeast v n = (m : ℕ) × (v ≡ plus m) × (n ≤ m)

not_below : (v : Signed) (n : ℕ) → below v n ≡ false → AtLeast v n
unfolding below AtLeast
not_below (plus m) n h = (m, refl, ground arith)
not_below (minus m) n h = cc

not_above : (v : Signed) (n m : ℕ) → above v n ≡ false → v ≡ plus m → m ≤ n
unfolding above
not_above (plus k) n m h e = let same : k ≡ m = cc in ground arith
not_above (minus k) n m h e = cc

-- The text is there.
unfoldable pub HasText : Text → Type 0
HasText s = s ≢ []

HasText-text_eq : (s : Text) → text_eq s [] ≡ false → HasText s
unfolding text_eq HasText
HasText-text_eq [] h = cc
HasText-text_eq (x ∷ s) h = λ e. cc

not-false : (b : Bool) → not b ≡ false → b ≡ true
not-false true h = refl
not-false false h = cc

either_set : (a b : Text) → (text_eq a [] && text_eq b []) ≡ false → HasText a ⊎ HasText b
unfolding text_eq HasText
either_set [] [] h = cc
either_set [] (x ∷ b) h = inr (λ e. cc)
either_set (x ∷ a) b h = inl (λ e. cc)

long_enough :
    (s : Text) → (not (text_eq s []) && ltb (length s) 8) ≡ false → (s ≡ []) ⊎ (8 ≤ length s)
unfolding text_eq
long_enough [] h = inl refl
long_enough (x ∷ s) h = inr (ground arith)

workers_bounded :
    (v : Signed)
    → (below v 1 || above v 64) ≡ false
    → (workers : ℕ) × (v ≡ plus workers) × (1 ≤ workers) × (workers ≤ 64)
unfolding below above
workers_bounded (plus n) h = (n, refl, ground arith, ground arith)
workers_bounded (minus n) h = cc

absolute :
    (quote : Text → Text) (ms : List MountSpec)
    → failures (mount_checks quote ms) ≡ []
    → All (λ m. (has_prefix m.path (codes "/") ≡ true) × (has_prefix m.label (codes "/") ≡ true)) ms
unfolding mount_checks failures
absolute quote [] h = tt
absolute quote (m ∷ ms) h =
    let (first, rest) = failures_none (mount_checks quote (m ∷ ms)) h in
    ((ground arith, ground arith), absolute quote ms (ground arith))

module _ {F : Type 0} where
  -- The two passwords, the token and the chat.
  unfoldable pub HasCredentials : Config F → Type 0
  HasCredentials c =
      HasText c.portainer_api_key
      × (HasText c.admin_password ⊎ HasText c.admin_password_hash)
      × ((c.admin_password ≡ []) ⊎ (8 ≤ length c.admin_password))
      × ((c.telegram_bot_token ≡ []) ↔ (c.telegram_chat_id ≡ []))

  -- The bounds of the numbers.
  unfoldable pub IsBounded : Config F → Type 0
  IsBounded c =
      ((workers : ℕ) × (c.stats_workers ≡ plus workers) × (1 ≤ workers) × (workers ≤ 64))
      × AtLeast c.stats_interval (5 * second)
      × AtLeast c.host_interval (10 * second)
      × (at_least c.stats_timeout c.stats_interval ≡ false)
      × AtLeast c.retention_days 1
      × AtLeast c.db_max_bytes (16 * 2 ^ 20)

  -- The URL, the level and the paths.
  unfoldable pub HasPaths : Config F → Type 0
  HasPaths c =
      (has_prefix c.portainer_url (codes "http://") || has_prefix c.portainer_url (codes "https://")
        ≡ true)
      × (known_level c ≡ true)
      × (has_prefix c.data_dir (codes "/") ≡ true)
      × All (λ m. (has_prefix m.path (codes "/") ≡ true) × (has_prefix m.label (codes "/") ≡ true))
          c.tracked_mounts

  bounded :
      (c : Config F)
      → failures (bound_checks c) ≡ []
      → IsBounded c × (known_level c ≡ true) × (has_prefix c.data_dir (codes "/") ≡ true)
  unfolding bound_checks IsBounded
  bounded c h =
      let (e1, (e2, (e3, (e4, (e5, (e6, (e7, (e8, rest)))))))) = failures_none (bound_checks c) h in
      (
        (
          workers_bounded c.stats_workers e1,
          not_below c.stats_interval _ e2,
          not_below c.host_interval _ e3,
          e4,
          not_below c.retention_days _ e5,
          not_below c.db_max_bytes _ e6,
        ),
        not-false _ e7,
        not-false _ e8,
      )

  credentials :
      (c : Config F)
      → failures (key_checks c) ≡ []
      → failures (password_checks c) ≡ []
      → failures (telegram_checks c) ≡ []
      → HasCredentials c
  unfolding key_checks password_checks telegram_checks HasCredentials
  credentials c key_ok password_ok telegram_ok =
      let (key, more) = failures_none (key_checks c) key_ok in
      let (one, (long, others)) = failures_none (password_checks c) password_ok in
      let (same, none_left) = failures_none (telegram_checks c) telegram_ok in
      (
        HasText-text_eq c.portainer_api_key key,
        either_set c.admin_password c.admin_password_hash one,
        long_enough c.admin_password long,
        ground (arith, text_eq_iff c.telegram_bot_token [], text_eq_iff c.telegram_chat_id []),
      )

  paths :
      (quote : Text → Text) (c : Config F)
      → failures (url_checks c) ≡ []
      → failures (bound_checks c) ≡ []
      → failures (mount_checks quote c.tracked_mounts) ≡ []
      → HasPaths c
  unfolding url_checks HasPaths
  paths quote c url_ok bounds_ok mounts_ok =
      let (set, (prefixed, more)) = failures_none (url_checks c) url_ok in
      let (bounds, level, dir) = bounded c bounds_ok in
      (ground arith, level, dir, absolute quote c.tracked_mounts mounts_ok)

  -- A configuration that Load returns has an API key, a password or its hash, no password of
  -- fewer than eight bytes, and a token exactly if it has a chat; its numbers are in their bounds,
  -- its URL, level and paths are such as the checks want them, and its time zone is known.
  pub load_checked :
      (lib : Library F) (env : Env) (c : Config F)
      → load lib env ≡ inr c
      → HasCredentials c × IsBounded c × HasPaths c × (lib.is_zone c.timezone ≡ true)
  unfolding load settings
  load_checked lib env c h =
      let (clean, same) =
        unless_errors_none (concat_errors (settings lib env).1) (settings lib env).0 c h in
      let (
        e1,
        (
          e2,
          (
            e3,
            (
              e4,
              (
                e5,
                (
                  e6,
                  (
                    e7,
                    (
                      e8,
                      (
                        e9,
                        (
                          e10,
                          (
                            zone,
                            (
                              url,
                              (
                                e11,
                                (
                                  key,
                                  (
                                    e12,
                                    (
                                      e13,
                                      (
                                        password,
                                        (e14, (telegram, (e15, (bounds, (mounts, rest))))),
                                      ),
                                    ),
                                  ),
                                ),
                              ),
                            ),
                          ),
                        ),
                      ),
                    ),
                  ),
                ),
              ),
            ),
          ),
        ),
      ) =
        concat_errors_none (settings lib env).1 clean in
      subst (λ d. HasCredentials d × IsBounded d × HasPaths d × (lib.is_zone d.timezone ≡ true))
        same
        (
          credentials (settings lib env).0 key password telegram,
          (bounded (settings lib env).0 bounds).0,
          paths lib.quote (settings lib env).0 url bounds mounts,
          not-false _
              (failures_none ((not (lib.is_zone (settings lib env).0.timezone), _) ∷ []) zone).0,
        )
