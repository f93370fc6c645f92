-- ===== src/Docker/Stats/Totals.antt =====
-- internal/docker/stats.go: the totals of NetworkTotals and BlockTotals are sums modulo 2 ^ 64, in
-- whatever order the map is met.
use homelab_dashboard.Prelude.{
  ℕ, ◌+◌, ◌%◌, ◌^◌, ◌≤◌, ◌<◌, ◌≡◌, ◌⊎◌, inl, inr, refl, sym, ◌∙◌, ap, ap₂, Bool, false, List, [],
  ◌∷◌, Text, if◌then◌else◌, arith, text_eq, Bool-cases,
}
use mathlib.Core.List.{Permᴰ}
use homelab_dashboard.Prelude.Assoc.{Map}
use homelab_dashboard.Docker.Stats.{
  Stats, NetStats, BlkioEntry, add64, add_networks, network_totals, add_blocks, block_totals,
  is_read, is_write, MemoryStats, memory_used, below_usage,
}

-- The sum of a column of a map.
abbrev pub column_sum : {V : Type 0} → (V → ℕ) → Map V → ℕ
column_sum f [] = 0
column_sum f ((k, v) ∷ m) = f v + column_sum f m

-- The sum of the values whose operation passes a test.
abbrev pub op_sum : (Text → Bool) → List BlkioEntry → ℕ
op_sum p [] = 0
op_sum p (e ∷ es) = let rest = op_sum p es in if p e.op then e.value + rest else rest

add64_assoc : (a b c : ℕ) → (add64 a b + c) % 2 ^ 64 ≡ (a + (b + c)) % 2 ^ 64
add64_assoc a b c = omega arith

add_networks-sum :
    (m : Map NetStats) (rx tx : ℕ)
    → rx < 2 ^ 64
    → tx < 2 ^ 64
    → add_networks m (rx, tx) ≡ (
      (rx + column_sum (λ n. n.rx_bytes) m) % 2 ^ 64,
      (tx + column_sum (λ n. n.tx_bytes) m) % 2 ^ 64,
    )
unfolding add_networks
add_networks-sum [] rx tx hr ht = ap₂ (λ (a b : ℕ). (a, b)) (omega arith) (omega arith)
add_networks-sum ((k, n) ∷ m) rx tx hr ht =
    add_networks-sum m (add64 rx n.rx_bytes) (add64 tx n.tx_bytes) (omega arith) (omega arith)
    ∙ ap₂ (λ (a b : ℕ). (a, b)) (add64_assoc rx n.rx_bytes _) (add64_assoc tx n.tx_bytes _)

read_or_write : (op : Text) → (is_read op ≡ false) ⊎ (is_write op ≡ false)
unfolding is_read is_write text_eq
read_or_write [] = inl refl
read_or_write (c ∷ op) = ground arith

add_blocks-sum :
    (es : List BlkioEntry) (read write : ℕ)
    → read < 2 ^ 64
    → write < 2 ^ 64
    → add_blocks es (read, write)
      ≡ ((read + op_sum is_read es) % 2 ^ 64, (write + op_sum is_write es) % 2 ^ 64)
unfolding add_blocks
add_blocks-sum [] read write hr hw = ap₂ (λ (a b : ℕ). (a, b)) (omega arith) (omega arith)
add_blocks-sum (e ∷ es) read write hr hw = elim (Bool-cases (is_read e.op)) [
  | inl r ↦ elim (read_or_write e.op) [
    | inl n ↦ absurd (ground arith)
    | inr n ↦
        rw (r, n)
          (add_blocks-sum es (add64 read e.value) write (omega arith) hw
            ∙ ap₂ (λ (a b : ℕ). (a, b)) (add64_assoc read e.value _) refl)
  ]
  | inr n ↦ elim (Bool-cases (is_write e.op)) [
    | inl w ↦
        rw (n, w)
          (add_blocks-sum es read (add64 write e.value) hr (omega arith)
            ∙ ap₂ (λ (a b : ℕ). (a, b)) refl (add64_assoc write e.value _))
    | inr w ↦ rw (n, w) (add_blocks-sum es read write hr hw)
  ]
]

column_sum-Permᴰ :
    {V : Type 0} (f : V → ℕ) {m m' : Map V} → Permᴰ m m' → column_sum f m ≡ column_sum f m'
column_sum-Permᴰ f Permᴰ.nil = refl
column_sum-Permᴰ f (Permᴰ.cons e p) =
    ap₂ (λ (a b : ℕ). a + b) (ap (λ x. f x.1) e) (column_sum-Permᴰ f p)
column_sum-Permᴰ f (Permᴰ.swap {l = l} e e') = ground (arith, ap (λ x. f x.1) e, ap (λ x. f x.1) e')
column_sum-Permᴰ f (Permᴰ.trans p q) = column_sum-Permᴰ f p ∙ column_sum-Permᴰ f q

pub network_totals_lem :
    (s : Stats)
    → network_totals s ≡ (
      column_sum (λ n. n.rx_bytes) s.networks % 2 ^ 64,
      column_sum (λ n. n.tx_bytes) s.networks % 2 ^ 64,
    )
unfolding network_totals
network_totals_lem s =
    add_networks-sum s.networks 0 0 (omega arith) (omega arith)
    ∙ ap₂ (λ (a b : ℕ). (a, b)) (omega arith) (omega arith)

-- NetworkTotals gives the sums of the received and of the sent bytes of all networks, modulo 2 ^ 64;
-- and a map met in another order gives the same sums.
pub network_totals-column_sum :
    (s : Stats) (m : Map NetStats)
    → Permᴰ s.networks m
    → (network_totals s ≡ (
      column_sum (λ n. n.rx_bytes) s.networks % 2 ^ 64,
      column_sum (λ n. n.tx_bytes) s.networks % 2 ^ 64,
    ))
      × (network_totals (record s { networks = m }) ≡ network_totals s)
network_totals-column_sum s m p = (
  network_totals_lem s,
  network_totals_lem (record s { networks = m })
      ∙ ap₂ (λ (a b : ℕ). (a % 2 ^ 64, b % 2 ^ 64)) (sym (column_sum-Permᴰ (λ n. n.rx_bytes) p))
          (sym (column_sum-Permᴰ (λ n. n.tx_bytes) p))
      ∙ sym (network_totals_lem s),
)

pub block_totals_lem :
    (s : Stats)
    → block_totals s
      ≡ (op_sum is_read s.blkio_entries % 2 ^ 64, op_sum is_write s.blkio_entries % 2 ^ 64)
unfolding block_totals
block_totals_lem s =
    add_blocks-sum s.blkio_entries 0 0 (omega arith) (omega arith)
    ∙ ap₂ (λ (a b : ℕ). (a, b)) (omega arith) (omega arith)

-- BlockTotals gives the sums of the values of the entries that read and of those that write, modulo
-- 2 ^ 64; no entry counts for both.
pub block_totals-op_sum :
    (s : Stats)
    → (block_totals s
        ≡ (op_sum is_read s.blkio_entries % 2 ^ 64, op_sum is_write s.blkio_entries % 2 ^ 64))
      × ((op : Text) → (is_read op ≡ false) ⊎ (is_write op ≡ false))
block_totals-op_sum s = (block_totals_lem s, read_or_write)

-- MemoryUsed never wraps: on a uint64 usage it gives at most the usage, and 0 only for 0.
pub memory_used_bounds :
    (m : MemoryStats)
    → m.usage < 2 ^ 64
    → (memory_used m ≤ m.usage) × (memory_used m ≡ 0 → m.usage ≡ 0)
unfolding memory_used below_usage
memory_used_bounds m h = ground arith
