-- ===== src/Alerts/Format.antt =====
-- The text functions of internal/alerts/engine.go: key, splitKey, escape, ruleTitle and format.
pub mod Escape
use homelab_dashboard.Prelude.{
  ℕ, ◌≡◌, refl, Bool, true, false, List, [], ◌∷◌, ◌++◌, Text, codes, text_eq, concat, ◌==◌,
  if◌then◌else◌,
}
use homelab_dashboard.Store.Alerts.{
  Severity, unset, critical, warning, AlertState, firing, resolved,
}

-- rule + "|" + target
unfoldable pub key : Text → Text → Text
key rule target = rule ++ b'|' ∷ target

unfoldable pub split_key : Text → Text × Text
split_key [] = ([], [])
split_key (c ∷ k) =
    let (rule, target) = split_key k in if c == b'|' then ([], k) else (c ∷ rule, target)

escape_byte : ℕ → Text
escape_byte c =
    if c == b'<'
    then codes "&lt;"
    else if c == b'>'
    then codes "&gt;"
    else if c == b'&'
    then codes "&amp;"
    else c ∷ []

unfoldable pub escape : Text → Text
unfolding escape_byte
escape [] = []
escape (c ∷ s) = escape_byte c ++ escape s

abbrev titles : List (Text × Text)
titles =
    (codes "container_down", codes "Container down")
    ∷ (codes "restart_loop", codes "Restart loop")
    ∷ (codes "health_failing", codes "Health check failing")
    ∷ (codes "cpu_high", codes "CPU high")
    ∷ (codes "memory_high", codes "Memory high")
    ∷ (codes "disk_high", codes "Disk almost full")
    ∷ (codes "smart_failing", codes "SMART failure")
    ∷ (codes "disk_temp_high", codes "Drive temperature high")
    ∷ (codes "raid_degraded", codes "RAID degraded")
    ∷ (codes "host_unreachable", codes "Host unreachable")
    ∷ (codes "db_size", codes "Dashboard database large")
    ∷ (codes "host_cpu_high", codes "Host CPU high")
    ∷ (codes "host_memory_high", codes "Host memory high")
    ∷ []

title_or : Text → List (Text × Text) → Text
title_or rule [] = rule
title_or rule ((r, title) ∷ rest) = if text_eq r rule then title else title_or rule rest

unfoldable pub rule_title : Text → Text
unfolding title_or
rule_title rule = title_or rule titles

-- The UTF-8 bytes of the red, green and orange circles, and of the middle dot.
abbrev red_circle : Text
red_circle = 0xf0 ∷ 0x9f ∷ 0x94 ∷ 0xb4 ∷ []

abbrev green_circle : Text
green_circle = 0xf0 ∷ 0x9f ∷ 0x9f ∷ 0xa2 ∷ []

abbrev orange_circle : Text
orange_circle = 0xf0 ∷ 0x9f ∷ 0x9f ∷ 0xa0 ∷ []

abbrev separator : Text
separator = b' ' ∷ 0xc2 ∷ 0xb7 ∷ b' ' ∷ []

abbrev newline : Text
newline = 10 ∷ []

icon : AlertState → Severity → Text
icon resolved severity = green_circle
icon firing warning = orange_circle
icon firing unset = red_circle
icon firing critical = red_circle

state_name : AlertState → Text
state_name firing = codes "firing"
state_name resolved = codes "resolved"

-- `stamp` prints a time in the configured zone.
unfoldable pub format : (ℕ → Text) → AlertState → Severity → Text → Text → Text → ℕ → Text
unfolding icon state_name
format stamp state severity rule target message at = concat (
    icon state severity
    ∷ codes " <b>"
    ∷ state_name state
    ∷ codes "</b>"
    ∷ separator
    ∷ rule_title rule
    ∷ newline
    ∷ codes "<b>"
    ∷ escape target
    ∷ codes "</b>"
    ∷ newline
    ∷ escape message
    ∷ newline
    ∷ codes "<i>"
    ∷ stamp at
    ∷ codes "</i>"
    ∷ [])
