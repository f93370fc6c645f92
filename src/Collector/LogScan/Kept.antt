-- ===== src/Collector/LogScan/Kept.antt =====
-- internal/collector/logs.go: the rows that a scan leaves.
use homelab_dashboard.Prelude.{
  ℕ, ◌≡◌, refl, subst, inl, inr, true, false, Option, none, some, List, [], ◌∷◌, ◌++◌, Text,
  text_eq_iff, In, In-append_left, In-append_right, All-In, any_of, ◌<◌, ◌-◌, ◌/◌, if◌then◌else◌,
  lt→ltb, Bool-cases, arith,
}
use homelab_dashboard.Prelude.Assoc.{Map, lookup}
use homelab_dashboard.Store.Events.{LogErrorRecord, LogTable, same_line}
use homelab_dashboard.Prelude.Strings.{contains}
use homelab_dashboard.Collector.Inspect.{truncate}
use homelab_dashboard.Store.Events.Lines.{is_stored}
use homelab_dashboard.Docker.Logs.{LogLine}
use homelab_dashboard.Collector.LogScan.{
  Target, Scanner, Scanned, since_or, strip_ansi, line_record, found_at, found, scan_logs,
}
use homelab_dashboard.Collector.LogScan.Found.{Apart, lines_found, all_found, all_found_stored}

-- The table has a row with the container, the second and the text of a line.
abbrev HasRow : List LogErrorRecord → LogErrorRecord → Type 0
HasRow rows r =
    (row : LogErrorRecord) × In row rows
    × (row.container_id ≡ r.container_id)
    × (row.ts ≡ r.ts)
    × (row.line ≡ r.line)

row_of :
    (rows : List LogErrorRecord) (r : LogErrorRecord)
    → any_of (same_line r) rows ≡ true
    → HasRow rows r
unfolding any_of same_line
row_of [] r h = cc
row_of (x ∷ rows) r h = elim (Bool-cases (same_line r x)) [
  | inl same ↦ (
    x,
    inl refl,
    ground (arith, text_eq_iff r.container_id x.container_id),
    ground arith,
    ground (arith, text_eq_iff r.line x.line),
  )
  | inr other ↦
      let (row, at, id, ts, line) = row_of rows r (ground arith) in (row, inr at, id, ts, line)
]

stored_row :
    (table : LogTable) (r : LogErrorRecord) → is_stored table r ≡ true → HasRow table.rows r
unfolding is_stored
stored_row table r h = row_of table.rows r h

module _ (sc : Scanner) (now : ℕ) where
  -- The text of a line without its ANSI codes.
  abbrev pub plain : Text → Text
  plain text = if contains text (27 ∷ []) then sc.strip text else text

  -- The time from which a target is scanned: that of its last scan, or a minute ago.
  abbrev pub scanned_from : Option ℕ → ℕ
  scanned_from none = now - 60_000_000_000
  scanned_from (some since) = since

  -- The line has a time later than the given one, and matches.
  abbrev pub IsNew : ℕ → LogLine → ℕ → Type 0
  IsNew since l at = (l.time ≡ some at) × (since < at) × (sc.matches (plain l.text) ≡ true)

  line_found :
      (t : Target) (since : ℕ) (l : LogLine) (at : ℕ)
      → IsNew since l at
      → found_at sc now t since l.stream l.text l.time
        ≡ line_record sc now t at l.stream (plain l.text) ∷ []
  unfolding found_at strip_ansi
  line_found t since l at (time, late, fits) = rw (time, lt→ltb since at late, fits) refl

  found_has :
      (t : Target) (since : ℕ) (ls : List LogLine) (l : LogLine) (at : ℕ)
      → In l ls
      → IsNew since l at
      → In (line_record sc now t at l.stream (plain l.text)) (found sc now t since ls)
  unfolding found
  found_has t since [] l at h new = elim h [ ]
  found_has t since (x ∷ ls) l at (inl e) new =
      subst
        (λ y.
          In (line_record sc now t at l.stream (plain l.text))
            (found_at sc now t since y.stream y.text y.time ++ found sc now t since ls))
        e (rw (line_found t since l at new) (inl refl))
  found_has t since (x ∷ ls) l at (inr more) new =
      In-append_right _ (found_at sc now t since x.stream x.text x.time) (found sc now t since ls)
        (found_has t since ls l at more new)

  all_found_has :
      (cursor : Map ℕ) (ts : List Target) (t : Target) (r : LogErrorRecord)
      → In t ts
      → In r (
          lines_found sc now t
            (since_or now (lookup t.id cursor))
            (sc.logs t.id t.tty (since_or now (lookup t.id cursor))))
      → In r (all_found sc now cursor ts)
  unfolding all_found
  all_found_has cursor [] t r h here = elim h [ ]
  all_found_has cursor (x ∷ ts) t r (inl e) here =
      let of : Target → List LogErrorRecord = λ u.
        let since = since_or now (lookup u.id cursor) in
        lines_found sc now u since (sc.logs u.id u.tty since) in
      In-append_left r (of x) (all_found sc now cursor ts) (subst (λ u. In r (of u)) e here)
  all_found_has cursor (x ∷ ts) t r (inr more) here =
      In-append_right r _ (all_found sc now cursor ts) (all_found_has cursor ts t r more here)

  since_or-scanned_from : (o : Option ℕ) → since_or now o ≡ scanned_from o
  unfolding since_or
  since_or-scanned_from none = refl
  since_or-scanned_from (some since) = refl

  -- After a scan that is not cut short and whose write succeeds, each line that Docker answers for a
  -- target, of which it is asked for the last 500, has a row with its container, second and text, if it
  -- is later than the last scan of the target, or than a minute ago, and matches without its codes. The
  -- text is cut as truncate does.
  pub scan_logs_stored :
      (ts : List Target) (st : Scanned) (t : Target) (ls : List LogLine) (l : LogLine) (at : ℕ)
      → ((id : Text) → sc.is_done id ≡ false)
      → Apart ts
      → In t ts
      → sc.logs t.id t.tty (scanned_from (lookup t.id st.log_cursor)) ≡ some ls
      → In l ls
      → IsNew (scanned_from (lookup t.id st.log_cursor)) l at
      → (row : LogErrorRecord) × In row (scan_logs sc now none ts st).lines.rows
        × (row.container_id ≡ t.id)
        × (row.ts ≡ at / 1_000_000_000)
        × (row.line ≡ truncate (plain l.text) 4000)
  unfolding line_record lines_found found
  scan_logs_stored ts st t ls l at live apart here answered among new =
      let r = line_record sc now t at l.stream (plain l.text) in
      let is_found : In r (all_found sc now st.log_cursor ts) =
        all_found_has st.log_cursor ts t r here (
          rw (since_or-scanned_from (lookup t.id st.log_cursor), answered)
            (found_has t (scanned_from (lookup t.id st.log_cursor)) ls l at among new)) in
      stored_row (scan_logs sc now none ts st).lines r (
        All-In _ r (all_found sc now st.log_cursor ts) (all_found_stored sc now ts st live apart)
          is_found)
