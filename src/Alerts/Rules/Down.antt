-- ===== src/Alerts/Rules/Down.antt =====
-- internal/alerts/rules.go: when containerDown says that a container is down.
use homelab_dashboard.Prelude.{
  ℕ, ◌+◌, ◌*◌, ◌≡◌, ◌≢◌, ◌⊎◌, inl, inr, refl, true, false, codes, text_eq, text_eq_iff, ltb, arith,
}
use homelab_dashboard.Alerts.Engine.{nanos}
use homelab_dashboard.Collector.State.{Container, running}
use homelab_dashboard.Alerts.Rules.{container_down}

at_rest :
    {F : Type 0} (now debounce : ℕ) (c : Container F)
    → c.state ≡ codes "running" ⊎ c.state ≡ codes "paused" ⊎ c.state ≡ codes "created"
    → container_down now debounce c ≡ false
unfolding container_down running text_eq
at_rest now debounce c (inl e) = rw e refl
at_rest now debounce c (inr (inl e)) = rw e refl
at_rest now debounce c (inr (inr e)) = rw e refl

restarting :
    {F : Type 0} (now debounce : ℕ) (c : Container F)
    → c.state ≡ codes "restarting"
    → container_down now debounce c ≡ ltb (c.finished_at * nanos + debounce) now
unfolding container_down running text_eq
restarting now debounce c e = rw e refl

down_without_error :
    {F : Type 0} (now debounce : ℕ) (c : Container F)
    → container_down now debounce c ≡ true
    → c.state ≢ codes "restarting"
    → c.exit_code ≡ 0
    → c.restart_policy ≡ codes "always" ⊎ c.restart_policy ≡ codes "unless-stopped"
unfolding container_down
down_without_error now debounce c h n e = ground (
  arith,
  text_eq_iff c.state (codes "restarting"),
  text_eq_iff c.restart_policy (codes "always"),
  text_eq_iff c.restart_policy (codes "unless-stopped"),
)

-- What containerDown says of a container. A running, paused or created one is never down. A restarting
-- one is down exactly if it finished longer than the debounce ago. Any other one is down whatever its
-- exit code if its policy is always or unless-stopped, and if its policy is another, only with an exit
-- code that is not 0.
pub container_down-cases :
    {F : Type 0} (now debounce : ℕ) (c : Container F)
    → (c.state ≡ codes "running" ⊎ c.state ≡ codes "paused" ⊎ c.state ≡ codes "created"
        → container_down now debounce c ≡ false)
      × (c.state ≡ codes "restarting"
          → container_down now debounce c ≡ ltb (c.finished_at * nanos + debounce) now)
      × (container_down now debounce c ≡ true
          → c.state ≢ codes "restarting"
          → c.exit_code ≡ 0
          → c.restart_policy ≡ codes "always" ⊎ c.restart_policy ≡ codes "unless-stopped")
container_down-cases now debounce c =
    (at_rest now debounce c, restarting now debounce c, down_without_error now debounce c)
