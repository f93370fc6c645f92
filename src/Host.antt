-- ===== src/Host.antt =====
-- internal/host/host.go: the processor and memory of /proc. A file is what bufio.Scanner gives of it,
-- with text of ASCII; uint64 is a ℕ with its wrap-around written out.
pub mod Percent
pub mod Readers
mod Tests
use homelab_dashboard.Prelude.{
  ℕ, ◌+◌, ◌-◌, ◌*◌, ◌/◌, ◌%◌, ◌^◌, Bool, true, false, not, ◌&&◌, ◌||◌, Option, none, some, List, [],
  ◌∷◌, ◌++◌, map, length, drop, any_of, Text, codes, text_eq, ltb, leb, ◌==◌, if◌then◌else◌,
}
use homelab_dashboard.Prelude.Decimal.{is_digit}
use homelab_dashboard.Prelude.Float.{Float}
use homelab_dashboard.Prelude.Strings.{has_prefix, cut, is_space, trim_space, join_rest}
use homelab_dashboard.Collector.State.{MountUsage}

-- A file that does not open, or its lines with the error that ends the scan, if any.
pub data File : Type 0 where
  unopened : Text → File
  scanned : List Text → Option Text → File

-- A result, or an error.
pub data Fetched (A : Type 0) : Type 0 where
  ok : A → Fetched A
  failed : Text → Fetched A

-- strings.Fields
abbrev pub add_word : Text → List Text → List Text
add_word [] words = words
add_word (c ∷ w) words = (c ∷ w) ∷ words

abbrev pub next_char : ℕ → Text × List Text → Text × List Text
next_char c (word, words) = if is_space c then ([], add_word word words) else (c ∷ word, words)

-- The word that the text begins with, and the words after it.
unfoldable pub words_of : Text → Text × List Text
words_of [] = ([], [])
words_of (c ∷ s) = next_char c (words_of s)

unfoldable pub fields : Text → List Text
unfolding words_of
fields s = add_word (words_of s).0 (words_of s).1

abbrev pub max_uint64 : ℕ
max_uint64 = 2 ^ 64 - 1

-- strconv.ParseUint(s, 10, 64): the value and whether there is no error. It stops at the first
-- number that is out of range.
unfoldable pub parse_digits : ℕ → Text → ℕ × Bool
unfolding is_digit
parse_digits n [] = (n, true)
parse_digits n (c ∷ s) =
    let m = n * 10 + (c - 48) in
    let rest = parse_digits m s in
    if not (is_digit c) then (0, false) else if ltb max_uint64 m then (max_uint64, false) else rest

unfoldable pub parse_uint : Text → ℕ × Bool
unfolding parse_digits
parse_uint [] = (0, false)
parse_uint (c ∷ s) = parse_digits 0 (c ∷ s)

-- The field at an index, read as a number without regard to the error; 0 where there is none.
abbrev pub number_in : List Text → ℕ
number_in [] = 0
number_in (f ∷ fs) = (parse_uint f).0

pub record CpuTimes : Type 0 where
  pub user : ℕ
  pub nice : ℕ
  pub system : ℕ
  pub idle : ℕ
  pub iowait : ℕ
  pub irq : ℕ
  pub softirq : ℕ
  pub steal : ℕ

-- The sum of all times, without wrap-around.
abbrev pub sum_of : CpuTimes → ℕ
sum_of c = c.user + c.nice + c.system + c.idle + c.iowait + c.irq + c.softirq + c.steal

-- CPUTimes.Total; additions that wrap one by one give the sum modulo 2 ^ 64.
unfoldable pub total : CpuTimes → ℕ
total c = sum_of c % 2 ^ 64

unfoldable pub busy : CpuTimes → ℕ
unfolding total
busy c = (total c + 2 ^ 64 - c.idle % 2 ^ 64 + 2 ^ 64 - c.iowait % 2 ^ 64) % 2 ^ 64

-- The differences are not negative after the returns before them.
unfoldable pub host_cpu_percent : {F : Type 0} → Float F → CpuTimes → CpuTimes → Option F
host_cpu_percent fl prev cur =
    if total prev == 0 || leb (total cur) (total prev)
    then none
    else if ltb (busy cur) (busy prev)
    then none
    else some (
        fl.mul (fl.div (fl.of_nat (busy cur - busy prev)) (fl.of_nat (total cur - total prev)))
          (fl.of_nat 100))

unfoldable pub is_cpu_line : List Text → Bool
is_cpu_line [] = false
is_cpu_line (first ∷ fs) = not (ltb (length (first ∷ fs)) 8) && text_eq first (codes "cpu")

unfoldable pub cpu_times : List Text → CpuTimes
unfolding parse_uint
cpu_times fs = record {
  user = number_in (drop 1 fs);
  nice = number_in (drop 2 fs);
  system = number_in (drop 3 fs);
  idle = number_in (drop 4 fs);
  iowait = number_in (drop 5 fs);
  irq = number_in (drop 6 fs);
  softirq = number_in (drop 7 fs);
  steal = number_in (drop 8 fs);
}

-- The loop of Reader.CPU.
unfoldable pub cpu_from : List Text → Fetched CpuTimes
unfolding is_cpu_line cpu_times fields
cpu_from [] = failed (codes "no aggregate cpu line in /proc/stat")
cpu_from (line ∷ lines) =
    let rest = cpu_from lines in
    if is_cpu_line (fields line) then ok (cpu_times (fields line)) else rest

unfoldable pub cpu : File → Fetched CpuTimes
unfolding cpu_from
cpu (unopened e) = failed e
cpu (scanned lines e) = cpu_from lines

pub record Memory : Type 0 where
  pub total : ℕ
  pub available : ℕ
  pub swap_total : ℕ
  pub swap_free : ℕ

unfoldable pub used : Memory → ℕ
used m = if ltb m.total m.available then 0 else m.total - m.available

unfoldable pub swap_used : Memory → ℕ
swap_used m = if ltb m.swap_total m.swap_free then 0 else m.swap_total - m.swap_free

unfoldable pub set_amount : Text → ℕ → Memory → Memory
set_amount key bytes m =
    if text_eq key (codes "MemTotal")
    then record m { total = bytes }
    else if text_eq key (codes "MemAvailable")
    then record m { available = bytes }
    else if text_eq key (codes "SwapTotal")
    then record m { swap_total = bytes }
    else if text_eq key (codes "SwapFree")
    then record m { swap_free = bytes }
    else m

unfoldable pub set_fields : Text → List Text → Memory → Memory
unfolding set_amount parse_uint
set_fields key [] m = m
set_fields key (first ∷ fs) m =
    if (parse_uint first).1 then set_amount key ((parse_uint first).0 * 1024 % 2 ^ 64) m else m

unfoldable pub set_line : Text → Memory → Memory
unfolding set_fields fields
set_line line m = elim (cut line b':') [ some p ↦ set_fields p.0 (fields p.1) m | none ↦ m ]

-- The loop of Reader.Memory.
unfoldable pub memory_from : List Text → Memory → Memory
unfolding set_line
memory_from [] m = m
memory_from (line ∷ lines) m = memory_from lines (set_line line m)

abbrev pub no_memory : Memory
no_memory = record { total = 0; available = 0; swap_total = 0; swap_free = 0 }

unfoldable pub with_total : Memory → Fetched Memory
with_total m = if m.total == 0 then failed (codes "MemTotal missing from meminfo") else ok m

unfoldable pub memory : File → Fetched Memory
unfolding memory_from with_total
memory (unopened e) = failed e
memory (scanned lines e) = with_total (memory_from lines no_memory)
