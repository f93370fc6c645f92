-- ===== src/Auth/Limiter/History.antt =====
-- internal/auth/session.go: the limiter over a history of calls of allow.
use homelab_dashboard.Prelude.{
  ℕ, ◌+◌, ◌≤◌, ◌≡◌, refl, ◌∙◌, List, [], ◌∷◌, Text, text_eq, text_eq_iff, ltb, if◌then◌else◌,
  count_if, arith, All, ap,
}
use homelab_dashboard.Auth.Limiter.{Limiter, new_rate_limiter, times_of, allow}
use homelab_dashboard.Auth.Limiter.Window.{
  recent, recent_later, Ordered, later-Ordered, allow-Ordered, recent-allow, allow-recent,
  allow_settings, new-Ordered, times_of-new,
}

-- A call of allow: its time, and the key of its caller.
pub record Call : Type 0 where
  pub now : ℕ
  pub who : Text

-- The calls that were admitted, newest first, and the limiter, after calls given newest first.
unfoldable pub run : Limiter → List Call → List Call × Limiter
run l [] = ([], l)
run l (c ∷ past) =
    let (admitted, l') = run l past in
    let (ok, l'') = allow c.now c.who l' in (if ok then c ∷ admitted else admitted, l'')

-- The times of the calls of one caller.
unfoldable pub times_for : Text → List Call → List ℕ
times_for k [] = []
times_for k (c ∷ calls) =
    let rest = times_for k calls in if text_eq c.who k then c.now ∷ rest else rest

-- No call is later than the time `n`.
abbrev pub Before : ℕ → List Call → Type 0
Before n = All (λ c. c.now ≤ n)

-- The clock does not run backwards.
abbrev pub InOrder : List Call → Type 0
InOrder [] = Unit
InOrder (c ∷ past) = Before c.now past × InOrder past

abbrev fresh : ℕ → ℕ → Limiter
fresh limit window = new_rate_limiter limit window

run_settings :
    (limit window : ℕ) (calls : List Call)
    → ((run (fresh limit window) calls).1.limit ≡ limit)
      × ((run (fresh limit window) calls).1.window ≡ window)
unfolding run new_rate_limiter
run_settings limit window [] = (refl, refl)
run_settings limit window (c ∷ past) =
    let l = (run (fresh limit window) past).1 in
    let (lim, win) = allow_settings c.now c.who l in
    let (lim', win') = run_settings limit window past in (lim ∙ lim', win ∙ win')

recent-cons : (w n t : ℕ) (ts : List ℕ) → recent w n (t ∷ ts) ≡ recent w n ts + recent w n (t ∷ [])
unfolding recent count_if
recent-cons w n t ts = ground arith

-- The limiter's list of a key counts as the key's admitted calls do.
counts_agree :
    (limit window n : ℕ) (calls : List Call)
    → InOrder calls
    → Before n calls
    → Ordered n (run (fresh limit window) calls).1.attempts
      × ((k : Text)
          → recent window n (times_of k (run (fresh limit window) calls).1.attempts)
            ≡ recent window n (times_for k (run (fresh limit window) calls).0))
unfolding run times_for
counts_agree limit window n [] ordered before =
    (new-Ordered limit window n, λ k. ap (recent window n) (times_of-new limit window k))
counts_agree limit window n (c ∷ past) (older, ordered) (le, before) =
    let l = (run (fresh limit window) past).1 in
    let admitted = (run (fresh limit window) past).0 in
    let now_ordered = (counts_agree limit window c.now past ordered older).0 in
    let (_, agree) = counts_agree limit window n past ordered before in
    let win = (run_settings limit window past).1 in
    (
      later-Ordered le (allow-Ordered c.now c.who l now_ordered),
      λ k. ground (
        arith,
        rw win at (recent-allow c.now n c.who k l le now_ordered),
        agree k,
        recent-cons window n c.now (times_for k admitted),
      ),
    )

-- The limiter decides exactly by the calls that it admitted. After any calls in time order, a call at
-- or after the last of them is admitted if and only if fewer than `limit` of the admitted calls of
-- the same key lie in the window before it.
pub allow_exact :
    (limit window : ℕ) (calls : List Call) (now : ℕ) (k : Text)
    → InOrder calls
    → Before now calls
    → (allow now k (run (new_rate_limiter limit window) calls).1).0
      ≡ ltb (recent window now (times_for k (run (new_rate_limiter limit window) calls).0)) limit
allow_exact limit window calls now k ordered before =
    let l = (run (fresh limit window) calls).1 in
    let (lim, win) = run_settings limit window calls in
    let (_, agree) = counts_agree limit window now calls ordered before in
    rw (allow-recent now k l, lim, win, agree k)

recent_one : (w n t : ℕ) → recent w n (t ∷ []) ≤ 1
unfolding recent count_if
recent_one w n t = ground arith

nothing_recent : (w n limit : ℕ) → recent w n [] ≤ limit
unfolding recent count_if
nothing_recent w n limit = omega arith

-- No key ever has more than `limit` admitted calls in a window: after any calls in time order, at
-- the time of the last of them or later.
pub limit_kept :
    (limit window : ℕ) (calls : List Call) (n : ℕ) (k : Text)
    → InOrder calls
    → Before n calls
    → recent window n (times_for k (run (new_rate_limiter limit window) calls).0) ≤ limit
unfolding run times_for
limit_kept limit window [] n k ordered before = nothing_recent window n limit
limit_kept limit window (c ∷ past) n k (older, ordered) (le, before) =
    let admitted = (run (fresh limit window) past).0 in
    let ts = times_for k admitted in
    ground (
      arith,
      allow_exact limit window past c.now c.who ordered older,
      limit_kept limit window past n k ordered before,
      recent-cons window n c.now ts,
      recent_one window n c.now,
      recent_later window c.now n ts le,
      text_eq_iff c.who k,
    )
