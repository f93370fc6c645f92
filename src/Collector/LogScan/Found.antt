-- ===== src/Collector/LogScan/Found.antt =====
-- internal/collector/logs.go: the records that a scan finds, of all targets.
use mathlib.Core.List.{append-nil, append_assoc}
use homelab_dashboard.Prelude.{
  ℕ, ◌≡◌, refl, sym, ap, subst, ◌∙◌, true, false, Option, none, some, List, [], ◌∷◌, ◌++◌, Text,
  text_eq, All,
}
use homelab_dashboard.Prelude.Assoc.{Map, lookup, insert, lookup-insert}
use homelab_dashboard.Store.Events.{LogErrorRecord, LogTable, insert_log_errors}
use homelab_dashboard.Store.Events.Lines.{is_stored, insert_lines_stored}
use homelab_dashboard.Docker.Logs.{LogLine}
use homelab_dashboard.Collector.LogScan.{
  Target, Scanner, Scanned, since_or, found, take_lines, scan_targets, published_count, store_batch,
  scan_logs,
}

-- The targets have ids of their own.
unfoldable pub Apart : List Target → Type 0
Apart [] = Unit
Apart (t ∷ ts) = All (λ u. text_eq t.id u.id ≡ false) ts × Apart ts

module _ (sc : Scanner) (now : ℕ) where
  unfoldable pub lines_found : Target → ℕ → Option (List LogLine) → List LogErrorRecord
  unfolding found
  lines_found t since none = []
  lines_found t since (some ls) = found sc now t since ls

  -- What all targets have, each since its place in the cursor.
  unfoldable pub all_found : Map ℕ → List Target → List LogErrorRecord
  unfolding lines_found since_or lookup
  all_found cursor [] = []
  all_found cursor (t ∷ ts) =
      let since = since_or now (lookup t.id cursor) in
      lines_found t since (sc.logs t.id t.tty since) ++ all_found cursor ts

  all_found-insert :
      (cursor : Map ℕ) (id : Text) (n : ℕ) (ts : List Target)
      → All (λ u. text_eq id u.id ≡ false) ts
      → all_found (insert id n cursor) ts ≡ all_found cursor ts
  unfolding all_found
  all_found-insert cursor id n [] h = refl
  all_found-insert cursor id n (t ∷ ts) (e, h) =
      let same : lookup t.id (insert id n cursor) ≡ lookup t.id cursor =
        lookup-insert id t.id n cursor ∙ rw e refl in
      rw (same, all_found-insert cursor id n ts h) refl

  scan_step :
      (t : Target) (ts : List Target) (since : ℕ) (batch : List LogErrorRecord) (cursor : Map ℕ)
      (o : Option (List LogLine))
      → ((more : List LogErrorRecord) (at : Map ℕ)
          → (scan_targets sc now ts (more, at)).0 ≡ some (more ++ all_found at ts))
      → All (λ u. text_eq t.id u.id ≡ false) ts
      → (scan_targets sc now ts (take_lines sc now t since o (batch, cursor))).0
        ≡ some (batch ++ (lines_found t since o ++ all_found cursor ts))
  unfolding take_lines lines_found
  scan_step t ts since batch cursor none again apart = again batch cursor
  scan_step t ts since batch cursor (some ls) again apart =
      again (batch ++ found sc now t since ls) (insert t.id now cursor)
      ∙ ap some (
          ap (λ rs. (batch ++ found sc now t since ls) ++ rs)
            (all_found-insert cursor t.id now ts apart)
          ∙ append_assoc batch (found sc now t since ls) (all_found cursor ts))

  -- A scan that is not cut short finds what all targets have.
  scan_targets_found :
      (ts : List Target) (batch : List LogErrorRecord) (cursor : Map ℕ)
      → ((id : Text) → sc.is_done id ≡ false)
      → Apart ts
      → (scan_targets sc now ts (batch, cursor)).0 ≡ some (batch ++ all_found cursor ts)
  unfolding scan_targets all_found Apart
  scan_targets_found [] batch cursor live h = ap some (sym (append-nil batch))
  scan_targets_found (t ∷ ts) batch cursor live (apart, h) =
      let since = since_or now (lookup t.id cursor) in
      rw (live t.id) (
        scan_step t ts since batch cursor (sc.logs t.id t.tty since)
          (λ more at. scan_targets_found ts more at live h) apart)

  published_count_lines :
      (p : (ℕ × Option Text) × LogTable) (st : Scanned) → (published_count p st).lines ≡ p.1
  unfolding published_count
  published_count_lines ((n, none), lines) st = refl
  published_count_lines ((n, some e), lines) st = refl

  store_batch_stored :
      (rs : List LogErrorRecord) (st : Scanned)
      → All (λ r. is_stored (store_batch none (some rs) st).lines r ≡ true) rs
  unfolding store_batch insert_log_errors
  store_batch_stored [] st = tt
  store_batch_stored (r ∷ rs) st =
      subst (λ t. All (λ x. is_stored t x ≡ true) (r ∷ rs))
        (sym (published_count_lines (insert_log_errors none (r ∷ rs) st.lines) st))
        (insert_lines_stored (r ∷ rs) st.lines)

  pub all_found_stored :
      (ts : List Target) (st : Scanned)
      → ((id : Text) → sc.is_done id ≡ false)
      → Apart ts
      → All
          (λ r. is_stored (scan_logs sc now none ts st).lines r ≡ true)
          (all_found st.log_cursor ts)
  unfolding scan_logs
  all_found_stored ts st live h =
      let cursor = (scan_targets sc now ts ([], st.log_cursor)).1 in
      rw (scan_targets_found ts [] st.log_cursor live h)
        (store_batch_stored (all_found st.log_cursor ts) (record st { log_cursor = cursor }))
