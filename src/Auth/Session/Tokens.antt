-- ===== src/Auth/Session/Tokens.antt =====
-- internal/auth/session.go: a token that Issue makes is accepted until it expires, and a token that
-- is accepted was signed.
use mathlib.Core.List.{append-nil, append_assoc}
use homelab_dashboard.Prelude.{
  ℕ, ◌+◌, ◌*◌, ◌/◌, ◌%◌, ◌≤◌, ◌≡◌, ◌≢◌, refl, sym, ◌∙◌, true, false, Option, none, some, List, [],
  ◌∷◌, ◌++◌, Text, text_eq_iff, text_eq_refl, ltb, if◌then◌else◌, arith, All-imp,
}
use homelab_dashboard.Prelude.Assoc.{Map, lookup}
use homelab_dashboard.Prelude.Strings.{
  split_on, Without, split_on-append, split_on_one, split_on_join, join_rest,
}
use homelab_dashboard.Prelude.Decimal.{
  format_int, parse_int, Signed, plus, minus, max_int64, format_int-Digit, parse_int-format_int,
}
use homelab_dashboard.Auth.Session.{
  nanos, hex_digit, hex, Cookies, Manager, purge, still_valid, token_of, issue, checked, parse,
  authenticated,
}

hex_digit_ne : (d : ℕ) → hex_digit d ≢ b'.'
unfolding hex_digit
hex_digit_ne d e = ground arith

hex-Without : (bs : List ℕ) → Without b'.' (hex bs)
unfolding hex
hex-Without [] = tt
hex-Without (b ∷ bs) = (hex_digit_ne (b / 16 % 16), (hex_digit_ne (b % 16), hex-Without bs))

format_int-Without : (n : ℕ) → Without b'.' (format_int n)
format_int-Without n = All-imp (format_int n) (λ c d e. omega arith) (format_int-Digit n)

lookup-purge-none :
    (now : ℕ) (k : Text) (m : Map ℕ) → lookup k m ≡ none → lookup k (purge now m) ≡ none
unfolding purge lookup
lookup-purge-none now k [] h = refl
lookup-purge-none now k ((j, exp) ∷ m) h = ground (arith, lookup-purge-none now k m)

module _ (sign : Text → Text) (sign-Without : (payload : Text) → Without b'.' (sign payload)) where
  split_token :
      (id : Text) (exp : ℕ)
      → Without b'.' id
      → split_on b'.' (token_of sign id exp)
        ≡ (id, format_int exp ∷ sign (id ++ b'.' ∷ format_int exp) ∷ [])
  unfolding token_of
  split_token id exp h =
      let mac = sign (id ++ b'.' ∷ format_int exp) in
      rw (append_assoc id (b'.' ∷ format_int exp) (b'.' ∷ mac)) (
        rw (split_on-append b'.' id (format_int exp ++ b'.' ∷ mac) h) (
          rw (split_on-append b'.' (format_int exp) mac (format_int-Without exp))
            (rw (split_on_one b'.' mac (sign-Without (id ++ b'.' ∷ format_int exp))))))

  -- A token of an id without a dot is read back, up to its expiry time and no longer.
  parse-token_of :
      (now : ℕ) (id : Text) (exp : ℕ)
      → Without b'.' id
      → exp ≤ max_int64
      → parse sign now (token_of sign id exp)
        ≡ (if ltb (exp * nanos) now then none else some (id, exp))
  unfolding parse still_valid
  parse-token_of now id exp h le = rw (split_token id exp h) (
      ground
        (arith, text_eq_refl (sign (id ++ b'.' ∷ format_int exp)), parse_int-format_int exp le))

  -- A session that is issued is accepted until it expires. If Issue succeeds at the time `now` and
  -- its expiry second is an int64, then a later call of Authenticated with its session cookie, by a
  -- manager that has not revoked its id, says yes exactly if the expiry second is not past when parse
  -- reads the clock, whenever the clock is read again.
  pub issue-authenticated :
      (now later again : ℕ) (id csrf : List ℕ) (m m' : Manager) (c : Cookies)
      → issue sign now (some id) (some csrf) m ≡ some c
      → c.expires / nanos ≤ max_int64
      → lookup (hex id) m'.revoked ≡ none
      → (authenticated sign later again (some c.session) m').0
        ≡ (if ltb (c.expires / nanos * nanos) later then false else true)
  unfolding issue authenticated
  issue-authenticated now later again id csrf m m' c issued le fresh = ground (
    arith,
    parse-token_of later (hex id) ((now + m.ttl) / nanos) (hex-Without id),
    lookup-purge-none again (hex id) m'.revoked fresh,
  )

still_valid-some :
    (now exp : ℕ) (n : Option Signed)
    → still_valid now n ≡ some exp
    → (n ≡ some (plus exp)) × (now ≤ exp * nanos)
unfolding still_valid
still_valid-some now exp none h = cc
still_valid-some now exp (some (plus n)) h = (ground arith, ground arith)
still_valid-some now exp (some (minus n)) h = cc

checked_signed :
    (sign : Text → Text) (now : ℕ) (parts : Text × List Text) (id : Text) (exp : ℕ)
    → checked sign now parts ≡ some (id, exp)
    → (mid : Text) × (parts.0 ++ join_rest b'.' parts.1
        ≡ id ++ b'.' ∷ (mid ++ b'.' ∷ sign (id ++ b'.' ∷ mid)))
      × (parse_int mid ≡ some (plus exp))
      × (now ≤ exp * nanos)
unfolding checked
checked_signed sign now (i, []) id exp h = cc
checked_signed sign now (i, mid ∷ []) id exp h = cc
checked_signed sign now (i, mid ∷ mac ∷ []) id exp h =
    let valid : still_valid now (parse_int mid) ≡ some exp = ground arith in
    let (number, alive) = still_valid-some now exp (parse_int mid) valid in
    let same : i ≡ id = ground arith in
    let signed : sign (i ++ b'.' ∷ mid) ≡ mac =
      ground (arith, text_eq_iff (sign (i ++ b'.' ∷ mid)) mac) in
    (mid, rw (append-nil, ← signed, same), number, alive)
checked_signed sign now (i, mid ∷ mac ∷ more ∷ rest) id exp h = cc

-- Whatever Authenticated or Clear reads as a session was signed. If parse accepts a token at the time
-- `now` with an id and an expiry second, then the token is the id, a text that ParseInt reads as that
-- second, and the signature of the two, joined by dots; and the second is not past.
pub parse_signed :
    (sign : Text → Text) (now : ℕ) (token id : Text) (exp : ℕ)
    → parse sign now token ≡ some (id, exp)
    → (mid : Text) × (token ≡ id ++ b'.' ∷ (mid ++ b'.' ∷ sign (id ++ b'.' ∷ mid)))
      × (parse_int mid ≡ some (plus exp))
      × (now ≤ exp * nanos)
unfolding parse
parse_signed sign now token id exp h =
    let (mid, shape, number, alive) = checked_signed sign now (split_on b'.' token) id exp h in
    (mid, sym (split_on_join b'.' token) ∙ shape, number, alive)
