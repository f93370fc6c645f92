-- ===== src/Collector/Stacks.antt =====
-- internal/collector/state.go: summarizeStacks. A uint64 sum has its wrap-around written out.
pub mod Counts
use homelab_dashboard.Prelude.{
  ℕ, ◌+◌, Bool, true, false, ◌&&◌, ◌||◌, not, Option, none, some, List, [], ◌∷◌, Text, codes,
  text_eq, ltb, ◌==◌, if◌then◌else◌,
}
use homelab_dashboard.Prelude.Assoc.{Map, lookup, insert}
use homelab_dashboard.Prelude.Float.{Float}
use homelab_dashboard.Prelude.Sorting.{text_less}
use homelab_dashboard.Docker.Stats.{add64}
use homelab_dashboard.Collector.Counters.{Live}
use homelab_dashboard.Collector.State.{Container, running}

pub record StackMeta : Type 0 where
  pub id : ℕ
  pub endpoint_id : ℕ
  pub stack_type : Text
  pub status : Text

pub record StackSummary (F : Type 0) : Type 0 where
  pub name : Text
  pub source : Text
  pub endpoint_id : ℕ
  pub total : ℕ
  pub running : ℕ
  pub unhealthy : ℕ
  pub exited : ℕ
  pub cpu_percent : F
  pub mem_bytes : ℕ
  pub net_rx_rate : ℕ
  pub net_tx_rate : ℕ
  pub updates : ℕ
  pub health : Text
  pub portainer_id : ℕ
  pub stack_type : Text
  pub stack_status : Text

abbrev pub unmanaged_stack : Text
unmanaged_stack = codes "unmanaged"

abbrev pub is_unhealthy : {F : Type 0} → Container F → Bool
is_unhealthy c = text_eq c.health (codes "unhealthy")

pub is_exited : {F : Type 0} → Container F → Bool
is_exited c = text_eq c.state (codes "exited") || text_eq c.state (codes "dead")

-- The switch that names the health of a stack.
unfoldable pub health_of : {F : Type 0} → StackSummary F → Text
health_of s =
    if ltb 0 s.unhealthy
    then codes "unhealthy"
    else if s.running == 0 && ltb 0 s.total
    then codes "down"
    else if ltb s.running s.total
    then codes "partial"
    else codes "healthy"

-- The order of the result.
pub comes_before : {F : Type 0} → StackSummary F → StackSummary F → Bool
unfolding text_less
comes_before a b =
    if text_eq a.name unmanaged_stack
    then false
    else if text_eq b.name unmanaged_stack
    then true
    else text_less a.name b.name

pub insert_sorted : {F : Type 0} → StackSummary F → List (StackSummary F) → List (StackSummary F)
unfolding comes_before
insert_sorted s [] = s ∷ []
insert_sorted s (r ∷ rs) =
    let rest = insert_sorted s rs in if comes_before r s then r ∷ rest else s ∷ r ∷ rs

module _ {F : Type 0} (fl : Float F) (meta : Map StackMeta) where
  open fl use {of_nat, add}

  pub with_meta : Option StackMeta → StackSummary F → StackSummary F
  with_meta none s = s
  with_meta (some m) s = record s {
    portainer_id = m.id;
    stack_type = m.stack_type;
    stack_status = m.status;
  }

  -- &StackSummary{…} for the first container of a stack
  pub new_summary : Container F → StackSummary F
  unfolding with_meta
  new_summary c = with_meta (lookup c.stack meta) (record {
    name = c.stack;
    source = c.stack_source;
    endpoint_id = c.endpoint_id;
    total = 0;
    running = 0;
    unhealthy = 0;
    exited = 0;
    cpu_percent = of_nat 0;
    mem_bytes = 0;
    net_rx_rate = 0;
    net_tx_rate = 0;
    updates = 0;
    health = [];
    portainer_id = 0;
    stack_type = [];
    stack_status = [];
  })

  pub summary_or_new : Container F → Option (StackSummary F) → StackSummary F
  unfolding new_summary
  summary_or_new c none = new_summary c
  summary_or_new c (some s) = s

  pub add_live : Option (Live F) → StackSummary F → StackSummary F
  add_live none s = s
  add_live (some l) s = record s {
    cpu_percent = add s.cpu_percent l.cpu_percent;
    mem_bytes = add64 s.mem_bytes l.mem_bytes;
    net_rx_rate = add64 s.net_rx_rate l.net_rx_rate;
    net_tx_rate = add64 s.net_tx_rate l.net_tx_rate;
  }

  -- The counters of the loop's body.
  pub add_container : Container F → StackSummary F → StackSummary F
  unfolding is_exited add_live
  add_container c s =
      let up = running c in
      let s' = record s {
        total = s.total + 1;
        running = if up then s.running + 1 else s.running;
        exited = if not up && is_exited c then s.exited + 1 else s.exited;
        unhealthy = if is_unhealthy c then s.unhealthy + 1 else s.unhealthy;
        updates = if c.update_ready then s.updates + 1 else s.updates;
      } in
      if up then add_live c.live s' else s'

  -- The body of the loop over the containers, and the loop.
  pub count_in : Container F → Map (StackSummary F) → Map (StackSummary F)
  unfolding summary_or_new add_container
  count_in c m = insert c.stack (add_container c (summary_or_new c (lookup c.stack m))) m

  unfoldable pub by_name : List (Container F) → Map (StackSummary F) → Map (StackSummary F)
  unfolding count_in
  by_name [] m = m
  by_name (c ∷ cs) m = by_name cs (count_in c m)

  pub finish : Map (StackSummary F) → List (StackSummary F)
  unfolding insert_sorted
  finish [] = []
  finish ((k, s) ∷ rest) = insert_sorted (record s { health = health_of s }) (finish rest)

  -- `summarizeStacks`
  unfoldable pub summarize_stacks : List (Container F) → List (StackSummary F)
  unfolding finish
  summarize_stacks containers = finish (by_name containers [])
