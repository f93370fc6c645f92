-- ===== src/Auth/Tests.antt =====
-- Runs of the rate limiter and the session manager, and the theorems at them.
use homelab_dashboard.Prelude.{
  ◌*◌, ◌/◌, ◌≤◌, ◌≡◌, ◌≢◌, ◌↔◌, ◌⊎◌, refl, true, false, some, List, [], ◌∷◌, ◌++◌, Text, codes,
  text_eq, ltb, if◌then◌else◌, arith, keep_if,
}
use homelab_dashboard.Prelude.Assoc.{lookup, insert}
use homelab_dashboard.Prelude.Strings.{Without, split_on}
use homelab_dashboard.Prelude.Decimal.{parse_int, plus, format_int, read_digits}
use homelab_dashboard.Auth.Limiter.{new_rate_limiter, allow, alive, admit, times_of}
use homelab_dashboard.Auth.Limiter.Window.{recent}
use homelab_dashboard.Auth.Limiter.History.{Call, run, times_for, allow_exact}
use homelab_dashboard.Auth.Session.{
  Manager, Cookies, hex, nanos, issue, token_of, parse, authenticated, clear, still_valid,
}
use homelab_dashboard.Auth.Session.Tokens.{issue-authenticated, parse_signed}
use homelab_dashboard.Auth.Session.Revocation
use homelab_dashboard.Auth.Session.Revocation.{check, Between, cleared_stays_out}
use homelab_dashboard.Auth.Csrf.{other, served, csrf, csrf_exact}

abbrev ip : Text
ip = codes "10.0.0.1"

-- Three calls of one client within a window of 10, with a limit of 2; the newest first.
abbrev calls : List Call
calls =
    record { now = 3; who = ip } ∷ record { now = 2; who = ip } ∷ record { now = 1; who = ip } ∷ []

allow_exact_example :
    (allow 5 ip (run (new_rate_limiter 2 10) calls).1).0
    ≡ ltb (recent 10 5 (times_for ip (run (new_rate_limiter 2 10) calls).0)) 2
allow_exact_example = allow_exact 2 10 calls 5 ip (omega arith) (omega arith)

third_refused : (allow 5 ip (run (new_rate_limiter 2 10) calls).1).0 ≡ false
unfolding allow run new_rate_limiter times_of alive admit lookup insert keep_if text_eq
third_refused = refl

-- A signature for the runs: the payload's bytes with the dots replaced.
abbrev seal : Text → Text
seal payload = codes "mac"

seal-Without : (payload : Text) → Without b'.' (seal payload)
seal-Without payload = (omega arith, (omega arith, (omega arith, tt)))

abbrev manager : Manager
manager = record { ttl = 60 * nanos; revoked = [] }

abbrev cookies : Cookies
cookies = record { session = codes "0a.60.mac"; csrf = codes "0b"; expires = 60 * nanos }

issue-authenticated_example :
    (authenticated seal 59_000_000_000 61_000_000_000 (some (codes "0a.60.mac")) manager).0
    ≡ (if ltb (60 * nanos / nanos * nanos) 59_000_000_000 then false else true)
unfolding issue token_of hex format_int lookup
issue-authenticated_example =
    issue-authenticated seal seal-Without 0 59_000_000_000 61_000_000_000 (10 ∷ []) (11 ∷ [])
      manager manager cookies refl (omega arith) refl

reads : parse seal 0 (codes "0a.60.mac") ≡ some (codes "0a", 60)
unfolding parse split_on text_eq still_valid parse_int read_digits
reads = refl

parse_signed_example :
    (mid : Text) × (codes "0a.60.mac"
      ≡ codes "0a" ++ b'.' ∷ (mid ++ b'.' ∷ seal (codes "0a" ++ b'.' ∷ mid)))
    × (parse_int mid ≡ some (plus 60))
    × (0 ≤ 60 * nanos)
parse_signed_example = parse_signed seal 0 (codes "0a.60.mac") (codes "0a") 60 reads

cleared_stays_out_example :
    ((authenticated seal 9 10 (some (codes "0a.60.mac")) (
        Revocation.run seal
          (check 7 8 (some (codes "0a.60.mac")) ∷ [])
          (clear seal 0 (some (codes "0a.60.mac")) manager))).0
      ≡ false)
    ⊎ Between 9 10 60
cleared_stays_out_example =
    cleared_stays_out seal 0 9 10 (codes "0a.60.mac") (codes "0a") 60
      (check 7 8 (some (codes "0a.60.mac")) ∷ []) manager reads (omega arith) (tt, tt)

csrf_exact_example :
    (csrf (other (codes "POST")) (some (codes "x")) (codes "x") ≡ served)
    ↔ ((some (codes "x") ≡ some (codes "x")) × (codes "x" ≢ []))
csrf_exact_example = csrf_exact (codes "POST") (some (codes "x")) (codes "x")
