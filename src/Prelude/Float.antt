-- ===== src/Prelude/Float.antt =====
-- Go's float64, of which the program uses these operations. A law is stated only where IEEE 754 gives
-- it, for infinities and NaN too: a comparison with a NaN is false.
use Prim.Native.Nat.{ℕ, ◌+◌, ◌-◌, ◌*◌, ◌/◌, ◌<◌}
use mathlib.Core.Path.{◌≡◌}
use mathlib.Core.Bool.{Bool, true, false}
use native.Mathlib.Omega.{arith}
use homelab_dashboard.Prelude.Tests.{ltb, leb}

pub record Float (F : Type 0) : Type 0 where
  pub of_nat : ℕ → F
  pub add : F → F → F
  pub sub : F → F → F
  pub mul : F → F → F
  pub div : F → F → F
  -- a < b and a <= b
  pub less : F → F → Bool
  pub at_most : F → F → Bool
  -- uint64(x)
  pub to_nat : F → ℕ
  -- A bound that is lowered by a whole number is reached by all that reach the bound.
  pub sub-lowers :
      (n : ℕ) (limit x : F) → at_most limit x ≡ true → at_most (sub limit (of_nat n)) x ≡ true
  pub of_nat-positive : (n : ℕ) → 0 < n → at_most (of_nat n) (of_nat 0) ≡ false
  pub of_nat-sign : (n : ℕ) → less (of_nat n) (of_nat 0) ≡ false
  pub mul-sign :
      (a b : F)
      → less a (of_nat 0) ≡ false
      → less b (of_nat 0) ≡ false
      → less (mul a b) (of_nat 0) ≡ false
  pub div-sign :
      (a b : F)
      → less a (of_nat 0) ≡ false
      → at_most b (of_nat 0) ≡ false
      → less (div a b) (of_nat 0) ≡ false

pub ltb_zero : (n : ℕ) → ltb n 0 ≡ false
ltb_zero n = ground arith

pub leb_zero : (n : ℕ) → 0 < n → leb n 0 ≡ false
leb_zero n h = ground arith

pub leb_sub : (n limit x : ℕ) → leb limit x ≡ true → leb (limit - n) x ≡ true
leb_sub n limit x h = ground arith

-- Whole numbers with a quotient that drops the rest obey the laws.
abbrev pub whole : Float ℕ
whole = record {
  of_nat = λ n. n;
  add = λ a b. a + b;
  sub = λ a b. a - b;
  mul = λ a b. a * b;
  div = λ a b. a / b;
  less = ltb;
  at_most = leb;
  to_nat = λ n. n;
  sub-lowers = leb_sub;
  of_nat-positive = leb_zero;
  of_nat-sign = ltb_zero;
  mul-sign = λ a b h h'. ltb_zero (a * b);
  div-sign = λ a b h h'. ltb_zero (a / b);
}
