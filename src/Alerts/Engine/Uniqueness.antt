-- ===== src/Alerts/Engine/Uniqueness.antt =====
-- internal/alerts/engine.go: no alert is ever open twice.
use homelab_dashboard.Prelude.{ℕ, ◌≡◌, sym, ◌∙◌, true, some, List, [], ◌∷◌, arith, ap, ap₂}
use homelab_dashboard.Store.Alerts.{AlertRecord, is_firing}
use homelab_dashboard.Store.Alerts.Rows.{find_row, firing_key}
use homelab_dashboard.Alerts.Format.{key}
use homelab_dashboard.Alerts.Engine.{Settings, Engine}
use homelab_dashboard.Alerts.Engine.Consistency.{Consistent, evaluate_at-Consistent}
use homelab_dashboard.Alerts.Engine.Timing.{Turn, run}

run-Consistent :
    (s : Settings) (past : List Turn) (start : Engine)
    → Consistent start
    → Consistent (run s past start)
unfolding run
run-Consistent s [] start h = h
run-Consistent s (t ∷ past) start h =
    evaluate_at-Consistent s t.now t.conds (run s past start) (run-Consistent s past start h)

firing_row :
    (i : ℕ) (rs : List AlertRecord) (r : AlertRecord)
    → find_row i rs ≡ some r
    → is_firing r.state ≡ true
    → firing_key i rs ≡ some (key r.rule r.target)
unfolding firing_key
firing_row i rs r found live = ground arith

-- Whatever turns follow a state in which the tracks and the table agree, two firing rows with the
-- same rule and target have the same id.
pub firing_rows_unique :
    (s : Settings) (past : List Turn) (start : Engine) (i j : ℕ) (r q : AlertRecord)
    → Consistent start
    → find_row i (run s past start).db.rows ≡ some r
    → find_row j (run s past start).db.rows ≡ some q
    → is_firing r.state ≡ true
    → is_firing q.state ≡ true
    → r.rule ≡ q.rule
    → r.target ≡ q.target
    → i ≡ j
firing_rows_unique s past start i j r q h found found' live live' rule target =
    let e = run s past start in
    let c = run-Consistent s past start h in
    let kr = firing_row i e.db.rows r found live in
    let kq = firing_row j e.db.rows q found' live' in
    let same = ap₂ key rule target in
    sym (c.tracked i (key r.rule r.target) kr)
    ∙ c.tracked j (key r.rule r.target) (kq ∙ ap some (sym same))
