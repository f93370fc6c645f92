-- ===== src/Auth/Session/Revocation.antt =====
-- internal/auth/session.go: a session that is cleared stays cleared, though Authenticated forgets
-- the revocations that have expired.
use homelab_dashboard.Prelude.{
  ℕ, ◌*◌, ◌<◌, ◌≤◌, ◌≡◌, ◌⊎◌, inl, inr, true, false, Option, none, some, List, [], ◌∷◌, ◌++◌, Text,
  text_eq, text_eq_iff, text_eq_refl, ltb, if◌then◌else◌, arith, All, Bool-cases, Option-cases,
}
use homelab_dashboard.Prelude.Assoc.{Map, lookup, lookup-insert}
use homelab_dashboard.Prelude.Strings.{split_on}
use homelab_dashboard.Prelude.Decimal.{parse_int, Signed, plus, minus}
use homelab_dashboard.Auth.Session.{
  nanos, Manager, purge, still_valid, checked, parse, clear, authenticated,
}

-- A request that reads or revokes a session, with the times at which it reads the clock and its
-- session cookie.
pub data Request : Type 0 where
  check : ℕ → ℕ → Option Text → Request
  logout : ℕ → Option Text → Request

-- The last time at which a request reads the clock.
abbrev pub time_of : Request → ℕ
time_of (check t t' cookie) = t'
time_of (logout t cookie) = t

-- The expiry is past when the clock is read again, but was not when parse read it.
abbrev pub Between : ℕ → ℕ → ℕ → Type 0
Between now now' exp = (now ≤ exp * nanos) × (exp * nanos < now')

module _ (sign : Text → Text) where
  unfoldable pub after : Request → Manager → Manager
  after (check t t' cookie) m = (authenticated sign t t' cookie m).1
  after (logout t cookie) m = clear sign t cookie m

  -- The manager after requests, the newest first.
  unfoldable pub run : List Request → Manager → Manager
  run [] m = m
  run (r ∷ past) m = after r (run past m)

  -- The request does not log out another token with this id and another expiry second. Ids are
  -- random, and only the program signs tokens.
  abbrev pub OneExpiry : Text → ℕ → Request → Type 0
  OneExpiry id exp (check t t' cookie) = Unit
  OneExpiry id exp (logout t none) = Unit
  OneExpiry id exp (logout t (some token)) = (e : ℕ) → parse sign t token ≡ some (id, e) → e ≡ exp

  -- The id is revoked up to its expiry, or its expiry is past at the time `now`.
  abbrev Out : ℕ → Text → ℕ → Manager → Type 0
  Out now id exp m = (exp * nanos < now) ⊎ (lookup id m.revoked ≡ some exp)

  lookup-purge :
      (t : ℕ) (id : Text) (exp : ℕ) (m : Map ℕ)
      → lookup id m ≡ some exp
      → (exp * nanos < t) ⊎ (lookup id (purge t m) ≡ some exp)
  unfolding lookup purge
  lookup-purge t id exp [] h = cc
  lookup-purge t id exp ((j, e) ∷ m) h = elim (Bool-cases (text_eq j id)) [
    | inl same ↦ elim (Bool-cases (ltb (e * nanos) t)) [
      | inl past ↦ inl (ground arith)
      | inr live ↦ inr (ground arith)
    ]
    | inr other ↦ elim (lookup-purge t id exp m (ground arith)) [
      | inl past ↦ inl past
      | inr kept ↦ inr (ground arith)
    ]
  ]

  check-Out :
      (now t t' : ℕ) (cookie : Option Text) (id : Text) (exp : ℕ) (m : Manager)
      → t' ≤ now
      → lookup id m.revoked ≡ some exp
      → Out now id exp (authenticated sign t t' cookie m).1
  unfolding authenticated
  check-Out now t t' none id exp m le h = inr h
  check-Out now t t' (some token) id exp m le h = elim (Option-cases (parse sign t token)) [
    | inl bad ↦ rw (bad, authenticated) (inr h)
    | inr ((i, e), good) ↦
        rw (good, authenticated)
          (elim (lookup-purge t' id exp m.revoked h) [
            | inl past ↦ inl (omega arith)
            | inr kept ↦ inr kept
          ])
  ]

  logout-Out :
      (now t : ℕ) (cookie : Option Text) (id : Text) (exp : ℕ) (m : Manager)
      → OneExpiry id exp (logout t cookie)
      → lookup id m.revoked ≡ some exp
      → Out now id exp (clear sign t cookie m)
  unfolding clear
  logout-Out now t none id exp m one h = inr h
  logout-Out now t (some token) id exp m one h = elim (Option-cases (parse sign t token)) [
    | inl bad ↦ rw (bad, clear) (inr h)
    | inr ((i, e), good) ↦
        rw (good, clear)
          (inr (ground (arith, lookup-insert i id e m.revoked, text_eq_iff i id, one e)))
  ]

  run-Out :
      (now : ℕ) (id : Text) (exp : ℕ) (past : List Request) (m : Manager)
      → All (λ r. time_of r ≤ now) past
      → All (OneExpiry id exp) past
      → lookup id m.revoked ≡ some exp
      → Out now id exp (run past m)
  unfolding run after
  run-Out now id exp [] m le one h = inr h
  run-Out now id exp (check t t' cookie ∷ past) m (l, le) (o, one) h =
      elim (run-Out now id exp past m le one h) [
        | inl gone ↦ inl gone
        | inr kept ↦ check-Out now t t' cookie id exp (run past m) l kept
      ]
  run-Out now id exp (logout t cookie ∷ past) m (l, le) (o, one) h =
      elim (run-Out now id exp past m le one h) [
        | inl gone ↦ inl gone
        | inr kept ↦ logout-Out now t cookie id exp (run past m) o kept
      ]

  still_valid_later :
      (t now exp : ℕ) (n : Option Signed)
      → still_valid t n ≡ some exp
      → still_valid now n ≡ (if ltb (exp * nanos) now then none else some exp)
  unfolding still_valid
  still_valid_later t now exp none h = cc
  still_valid_later t now exp (some (plus n)) h = ground arith
  still_valid_later t now exp (some (minus n)) h = cc

  checked_later :
      (t now : ℕ) (parts : Text × List Text) (id : Text) (exp : ℕ)
      → checked sign t parts ≡ some (id, exp)
      → checked sign now parts ≡ (if ltb (exp * nanos) now then none else some (id, exp))
  unfolding checked
  checked_later t now (i, []) id exp h = cc
  checked_later t now (i, mid ∷ []) id exp h = cc
  checked_later t now (i, mid ∷ mac ∷ []) id exp h =
      ground (
        arith,
        text_eq_iff (sign (i ++ b'.' ∷ mid)) mac,
        still_valid_later t now exp (parse_int mid),
      )
  checked_later t now (i, mid ∷ mac ∷ more ∷ rest) id exp h = cc

  purge_keeps :
      (t : ℕ) (id : Text) (exp : ℕ) (m : Map ℕ)
      → lookup id m ≡ some exp
      → t ≤ exp * nanos
      → lookup id (purge t m) ≡ some exp
  purge_keeps t id exp m h le = elim (lookup-purge t id exp m h) [
    | inl past ↦ absurd (omega arith)
    | inr kept ↦ kept
  ]

  Out-refused :
      (now now' : ℕ) (token id : Text) (exp : ℕ) (m : Manager)
      → parse sign now token ≡ (if ltb (exp * nanos) now then none else some (id, exp))
      → Out now' id exp m
      → ((authenticated sign now now' (some token) m).0 ≡ false) ⊎ Between now now' exp
  unfolding authenticated
  Out-refused now now' token id exp m p out = elim (Bool-cases (ltb (exp * nanos) now)) [
    | inl past ↦ inl (ground arith)
    | inr live ↦ elim out [
      | inl gone ↦ inr (ground arith)
      | inr kept ↦ elim (Bool-cases (ltb (exp * nanos) now')) [
        | inl later ↦ inr (ground arith)
        | inr again ↦ inl (ground (arith, purge_keeps now' id exp m.revoked kept))
      ]
    ]
  ]

  -- A session that is logged out is not accepted again, but for the moment of its expiry. If Clear
  -- reads a token, then after any requests that read the clock no later than `now'`, none of which logs
  -- out another token with its id and another expiry second, an Authenticated that reads the clock at
  -- `now` in parse and at `now'` for the revocations refuses the token, or its expiry lies between the
  -- two times.
  pub cleared_stays_out :
      (t now now' : ℕ) (token id : Text) (exp : ℕ) (past : List Request) (m : Manager)
      → parse sign t token ≡ some (id, exp)
      → All (λ r. time_of r ≤ now') past
      → All (OneExpiry id exp) past
      → ((authenticated sign now now' (some token) (run past (clear sign t (some token) m))).0
          ≡ false)
        ⊎ Between now now' exp
  unfolding clear parse
  cleared_stays_out t now now' token id exp past m good le one =
      let here : lookup id (clear sign t (some token) m).revoked ≡ some exp =
        rw (good, clear) (ground (arith, lookup-insert id id exp m.revoked, text_eq_refl id)) in
      Out-refused now now' token id exp (run past (clear sign t (some token) m))
        (checked_later t now (split_on b'.' token) id exp good)
        (run-Out now' id exp past (clear sign t (some token) m) le one here)

  -- And there it is accepted: a revoked token whose expiry lies between the two times.
  expiring_accepted :
      (now now' : ℕ) (token id : Text) (exp : ℕ)
      → parse sign now token ≡ some (id, exp)
      → exp * nanos < now'
      → (authenticated sign now now' (some token) (record { ttl = 0; revoked = (id, exp) ∷ [] })).0
        ≡ true
  unfolding authenticated purge lookup
  expiring_accepted now now' token id exp good past = rw (good, authenticated) (ground arith)
