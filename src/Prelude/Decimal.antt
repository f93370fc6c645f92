-- ===== src/Prelude/Decimal.antt =====
-- strconv.FormatInt and strconv.ParseInt in base 10, for numbers from 0 up.
use Prim.Native.Nat.{ℕ, zero, suc, ◌+◌, ◌-◌, ◌*◌, ◌/◌, ◌%◌, ◌^◌, ◌≤◌, ◌<◌}
use mathlib.Core.Path.{◌≡◌, refl, ap}
use mathlib.Core.Logic.{◌≢◌, inl, inr}
use mathlib.Core.Bool.{Bool, ◌&&◌}
use mathlib.Core.Option.{Option, none, some}
use mathlib.Core.List.{[], ◌∷◌, ◌++◌}
use native.Mathlib.Omega.{arith}
use homelab_dashboard.Prelude.Tests.{ltb, leb, ◌==◌, if◌then◌else◌, Bool-cases}
use homelab_dashboard.Prelude.Lists.{All, All-append}
use homelab_dashboard.Prelude.Bytes.{Text}

-- The digits, with fuel for the divisions.
print_from : ℕ → ℕ → Text
print_from zero n = []
print_from (suc f) n =
    let more = print_from f (n / 10) ++ (n % 10 + 48) ∷ [] in
    if ltb n 10 then (n + 48) ∷ [] else more

-- strconv.FormatInt(n, 10); the fuel is more than the number of digits.
unfoldable pub format_int : ℕ → Text
unfolding print_from
format_int n = print_from (suc n) n

unfoldable pub is_digit : ℕ → Bool
is_digit c = leb 48 c && leb c 57

-- The value of a text of digits, after a prefix with the value `acc`.
unfoldable pub read_digits : ℕ → Text → Option ℕ
unfolding is_digit
read_digits acc [] = some acc
read_digits acc (c ∷ s) = if is_digit c then read_digits (acc * 10 + (c - 48)) s else none

abbrev pub max_int64 : ℕ
max_int64 = 2 ^ 63 - 1

-- The result of ParseInt: a number from 0 up, or a negative one.
pub data Signed : Type 0 where
  plus : ℕ → Signed
  minus : ℕ → Signed

in_range : ℕ → (ℕ → Signed) → Option ℕ → Option Signed
in_range top sign none = none
in_range top sign (some n) = if leb n top then some (sign n) else none

unsigned : (ℕ → Signed) → ℕ → Text → Option Signed
unfolding in_range
unsigned sign top [] = none
unsigned sign top (c ∷ s) = in_range top sign (read_digits 0 (c ∷ s))

-- strconv.ParseInt(s, 10, 64): an optional sign, then digits; `none` is a syntax or range error.
unfoldable pub parse_int : Text → Option Signed
unfolding unsigned
parse_int [] = none
parse_int (c ∷ s) =
    if c == b'-'
    then unsigned minus (suc max_int64) s
    else if c == b'+'
    then unsigned plus max_int64 s
    else unsigned plus max_int64 (c ∷ s)

abbrev then_digit : ℕ → Option ℕ → Option ℕ
then_digit d none = none
then_digit d (some n) = some (n * 10 + d)

read_digits-append :
    (s : Text) (acc d : ℕ)
    → d < 10
    → read_digits acc (s ++ (d + 48) ∷ []) ≡ then_digit d (read_digits acc s)
unfolding read_digits
read_digits-append [] acc d h = ground arith
read_digits-append (c ∷ s) acc d h = ground (arith, read_digits-append s (acc * 10 + (c - 48)) d h)

read_one_digit : (m : ℕ) → m < 10 → read_digits 0 ((m + 48) ∷ []) ≡ some m
unfolding read_digits
read_one_digit m lt = ground arith

read_digits-print_from : (f n : ℕ) → n < f → read_digits 0 (print_from f n) ≡ some n
unfolding print_from
read_digits-print_from zero n h = absurd (omega arith)
read_digits-print_from (suc f) n h = elim (Bool-cases (ltb n 10)) [
  | inl small ↦ rw small (read_one_digit n (ground arith))
  | inr big ↦ rw big (
      rw (read_digits-append (print_from f (n / 10)) 0 (n % 10) (omega arith))
        (rw (read_digits-print_from f (n / 10) (ground arith)) (ap some (omega arith))))
]

-- A byte from `0` to `9`.
abbrev pub Digit : ℕ → Type 0
Digit c = (48 ≤ c) × (c ≤ 57)

print_from-Digit : (f n : ℕ) → All Digit (print_from f n)
unfolding print_from
print_from-Digit zero n = tt
print_from-Digit (suc f) n = elim (Bool-cases (ltb n 10)) [
  | inl small ↦ rw small (ground arith)
  | inr big ↦ rw big (
      All-append Digit (print_from f (n / 10)) ((n % 10 + 48) ∷ []) (print_from-Digit f (n / 10))
        (omega arith))
]

pub format_int-Digit : (n : ℕ) → All Digit (format_int n)
unfolding format_int
format_int-Digit n = print_from-Digit (suc n) n

unsigned_digits :
    (s : Text) (n : ℕ)
    → All Digit s
    → read_digits 0 s ≡ some n
    → s ≢ []
    → n ≤ max_int64
    → parse_int s ≡ some (plus n)
unfolding parse_int
unsigned_digits [] n all e nonempty le = absurd (nonempty refl)
unsigned_digits (c ∷ s) n (d, all) e nonempty le = ground arith

snoc_nonempty : (xs : Text) (c : ℕ) → (xs ++ c ∷ []) ≢ []
snoc_nonempty [] c e = cc
snoc_nonempty (x ∷ xs) c e = cc

print_from_nonempty : (f n : ℕ) → print_from (suc f) n ≢ []
unfolding print_from
print_from_nonempty f n e = ground (arith, snoc_nonempty (print_from f (n / 10)) (n % 10 + 48))

-- ParseInt reads back what FormatInt prints, up to the largest int64.
pub parse_int-format_int : (n : ℕ) → n ≤ max_int64 → parse_int (format_int n) ≡ some (plus n)
unfolding format_int
parse_int-format_int n le =
    unsigned_digits (print_from (suc n) n) n (print_from-Digit (suc n) n)
      (read_digits-print_from (suc n) n (omega arith)) (print_from_nonempty n n) le
