-- ===== src/Auth/Session.antt =====
-- internal/auth/session.go: Manager, Issue, Clear, Authenticated and parse. Times are nanoseconds,
-- expiry times seconds. The HMAC and its base64 form are the parameter `sign`; a random read is an
-- argument, `none` where it fails.
pub mod Tokens
pub mod Revocation
use homelab_dashboard.Prelude.{
  ℕ, ◌+◌, ◌*◌, ◌/◌, ◌%◌, ◌-◌, Bool, true, false, ◌&&◌, Option, none, some, List, [], ◌∷◌, ◌++◌,
  Text, text_eq, ltb, if◌then◌else◌,
}
use homelab_dashboard.Prelude.Assoc.{Map, lookup, insert}
use homelab_dashboard.Prelude.Strings.{split_on}
use homelab_dashboard.Prelude.Decimal.{format_int, parse_int, Signed, plus, minus}

abbrev pub nanos : ℕ
nanos = 1_000_000_000

hex_digit : ℕ → ℕ
hex_digit d = if ltb d 10 then d + 48 else d + 87

-- hex.EncodeToString
unfoldable pub hex : List ℕ → Text
unfolding hex_digit
hex [] = []
hex (b ∷ bs) = hex_digit (b / 16 % 16) ∷ hex_digit (b % 16) ∷ hex bs

-- What the two cookies of a login carry, and the time at which both expire.
pub record Cookies : Type 0 where
  pub session : Text
  pub csrf : Text
  pub expires : ℕ

pub record Manager : Type 0 where
  pub ttl : ℕ
  pub revoked : Map ℕ

-- The entries of `revoked` that have not expired.
unfoldable pub purge : ℕ → Map ℕ → Map ℕ
purge now [] = []
purge now ((id, exp) ∷ m) =
    let rest = purge now m in if ltb (exp * nanos) now then rest else (id, exp) ∷ rest

-- exp, err := ParseInt; the token is dead if the time is past. A negative time is before 1970. That
-- time.Unix wraps for a second near the largest int64 is left out.
unfoldable pub still_valid : ℕ → Option Signed → Option ℕ
still_valid now none = none
still_valid now (some (minus n)) = none
still_valid now (some (plus exp)) = if ltb (exp * nanos) now then none else some exp

module _ (sign : Text → Text) where
  unfoldable pub token_of : Text → ℕ → Text
  token_of id exp = let payload = id ++ b'.' ∷ format_int exp in payload ++ b'.' ∷ sign payload

  -- `Issue`, at the time `now`, with the two random reads; `none` is its error.
  unfoldable pub issue : ℕ → Option (List ℕ) → Option (List ℕ) → Manager → Option Cookies
  issue now none csrf m = none
  issue now (some id) none m = none
  issue now (some id) (some csrf) m =
      let expires = now + m.ttl in
      some (record {
        session = token_of (hex id) (expires / nanos);
        csrf = hex csrf;
        expires = expires;
      })

  with_id : Text → Option ℕ → Option (Text × ℕ)
  with_id id none = none
  with_id id (some exp) = some (id, exp)

  checked : ℕ → Text × List Text → Option (Text × ℕ)
  unfolding with_id
  checked now (id, exp ∷ mac ∷ []) =
      if text_eq (sign (id ++ b'.' ∷ exp)) mac
      then with_id id (still_valid now (parse_int exp))
      else none
  checked now (id, _) = none

  -- `parse`: the session's id and expiry time.
  unfoldable pub parse : ℕ → Text → Option (Text × ℕ)
  unfolding checked
  parse now token = checked now (split_on b'.' token)

  -- `Clear`, with the value of the session cookie, if there is one.
  unfoldable pub clear : ℕ → Option Text → Manager → Manager
  clear now none m = m
  clear now (some token) m = elim (parse now token) [
    | none ↦ m
    | some (id, exp) ↦ record m { revoked = insert id exp m.revoked }
  ]

  not_revoked : Text → Map ℕ → Bool
  not_revoked id revoked = elim (lookup id revoked) [ none ↦ true | some exp ↦ false ]

  -- `Authenticated`, with the value of the session cookie, if there is one. It reads the clock twice,
  -- in parse and for the revocations that it forgets.
  unfoldable pub authenticated : ℕ → ℕ → Option Text → Manager → Bool × Manager
  unfolding not_revoked
  authenticated now now' none m = (false, m)
  authenticated now now' (some token) m = elim (parse now token) [
    | none ↦ (false, m)
    | some (id, exp) ↦
        let live = purge now' m.revoked in (not_revoked id live, record m { revoked = live })
  ]
