-- ===== src/Alerts/Rules/Units.antt =====
-- internal/alerts/rules.go: the scale that humanBytes finds.
use homelab_dashboard.Prelude.{ℕ, zero, suc, ◌*◌, ◌/◌, ◌^◌, ◌≤◌, ◌<◌, ◌≡◌, refl, some, arith, codes}
use homelab_dashboard.Alerts.Rules.{human_scale, unit_letter}

letter_there : (n : ℕ) → n ≤ 5 → (c : ℕ) × (unit_letter (codes "KMGTPE") n ≡ some c)
letter_there zero h = (b'K', refl)
letter_there (suc zero) h = (b'M', refl)
letter_there (suc (suc zero)) h = (b'G', refl)
letter_there (suc (suc (suc zero))) h = (b'T', refl)
letter_there (suc (suc (suc (suc zero)))) h = (b'P', refl)
letter_there (suc (suc (suc (suc (suc zero))))) h = (b'E', refl)
letter_there (suc (suc (suc (suc (suc (suc n)))))) h = absurd (omega arith)

scale_bounds :
    (b : ℕ)
    → 1024 ≤ b
    → b < 2 ^ 64
    → let (n, scale, exp) = human_scale 6 (b / 1024) 1024 0 in
      (n < 1024) × (scale ≤ b) × (b < 1024 * scale) × (exp ≤ 5)
unfolding human_scale
scale_bounds b low high = ground arith

-- For a uint64 of at least 1024 bytes, the loop of humanBytes ends within its six rounds, with less
-- than 1024 units left; its divisor does not wrap, the number is between once and 1024 times the
-- divisor, and the exponent has a letter, so that the index into the letters is in range.
pub human_scale-bounds :
    (b : ℕ)
    → 1024 ≤ b
    → b < 2 ^ 64
    → let (n, scale, exp) = human_scale 6 (b / 1024) 1024 0 in
      (n < 1024)
      × (scale ≤ b)
      × (b < 1024 * scale)
      × (exp ≤ 5)
      × ((c : ℕ) × (unit_letter (codes "KMGTPE") exp ≡ some c))
human_scale-bounds b low high =
    let (left, below, above, exp) = scale_bounds b low high in
    (left, below, above, exp, letter_there (human_scale 6 (b / 1024) 1024 0).2 exp)
