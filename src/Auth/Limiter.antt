-- ===== src/Auth/Limiter.antt =====
-- internal/auth/session.go: rateLimiter and its allow. Times are nanoseconds; `t.After(cutoff)` with
-- `cutoff = now - window` is `now < t + window`, and `t.Before(cutoff)` is `t + window < now`.
pub mod Window
pub mod History
use homelab_dashboard.Prelude.{
  ℕ, ◌+◌, Bool, true, false, Option, none, some, List, [], ◌∷◌, ◌++◌, Text, length, ltb, leb,
  if◌then◌else◌, keep_if,
}
use homelab_dashboard.Prelude.Assoc.{Map, lookup, insert}

pub record Limiter : Type 0 where
  pub limit : ℕ
  pub window : ℕ
  pub attempts : Map (List ℕ)

unfoldable pub new_rate_limiter : ℕ → ℕ → Limiter
new_rate_limiter limit window = record { limit = limit; window = window; attempts = [] }

abbrev pub times_or_none : Option (List ℕ) → List ℕ
times_or_none none = []
times_or_none (some ts) = ts

-- l.attempts[key], which is empty for a missing key.
unfoldable pub times_of : Text → Map (List ℕ) → List ℕ
times_of k m = times_or_none (lookup k m)

-- The times that are after the cutoff.
unfoldable pub alive : ℕ → ℕ → List ℕ → List ℕ
alive window now ts = keep_if (λ t. ltb now (t + window)) ts

-- len(ts) == 0 || ts[len(ts)-1].Before(cutoff)
unfoldable pub stale : ℕ → ℕ → List ℕ → Bool
stale window now [] = true
stale window now (t ∷ []) = ltb (t + window) now
stale window now (t ∷ u ∷ ts) = stale window now (u ∷ ts)

unfoldable pub purge : ℕ → ℕ → Map (List ℕ) → Map (List ℕ)
purge window now [] = []
purge window now ((k, ts) ∷ m) =
    let rest = purge window now m in if stale window now ts then rest else (k, ts) ∷ rest

abbrev pub purge_above : ℕ
purge_above = 10_000

-- l.attempts[key] = append(kept, now), and the removal of stale keys when there are many.
unfoldable pub admit : ℕ → ℕ → Text → List ℕ → Map (List ℕ) → Map (List ℕ)
admit window now k kept m =
    let added = insert k (kept ++ now ∷ []) m in
    if ltb purge_above (length added) then purge window now added else added

unfoldable pub allow : ℕ → Text → Limiter → Bool × Limiter
allow now k l =
    let kept = alive l.window now (times_of k l.attempts) in
    if leb l.limit (length kept)
    then (false, record l { attempts = insert k kept l.attempts })
    else (true, record l { attempts = admit l.window now k kept l.attempts })
