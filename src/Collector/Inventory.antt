-- ===== src/Collector/Inventory.antt =====
-- internal/collector/inventory.go and collector.go: excluded, assignStack, refreshInventory, inspect and
-- persistInventory. The answers of Docker are arguments, path.Match is a parameter, times are
-- nanoseconds.
pub mod Listed
use homelab_dashboard.Prelude.{
  ℕ, ◌-◌, ◌/◌, Bool, true, false, not, ◌&&◌, ◌||◌, Option, none, some, List, [], ◌∷◌, ◌++◌, ◌⊎◌,
  inl, inr, map, take, length, Text, codes, text_eq, ltb, ◌==◌, if◌then◌else◌, any_of,
}
use homelab_dashboard.Prelude.Assoc.{Map, lookup, insert, delete}
use homelab_dashboard.Prelude.Strings.{contains}
use homelab_dashboard.Prelude.Float.{Float}
use homelab_dashboard.Store.Containers.{ContainerRecord}
use homelab_dashboard.Docker.Stats.{CpuSnapshot}
use homelab_dashboard.Collector.Counters.{Counters, CounterSnapshot}
use homelab_dashboard.Collector.State.{Container, SourceStatus, new_container, set_source}
use homelab_dashboard.Collector.Stacks.{StackMeta, unmanaged_stack}
use homelab_dashboard.Collector.Inspect.{ContainerInspect, apply_inspect}

pub record ContainerSummary : Type 0 where
  pub id : Text
  pub names : List Text
  pub image : Text
  pub image_id : Text
  pub created : ℕ
  pub state : Text
  pub status : Text
  pub labels : Map Text

pub record EndpointSummary : Type 0 where
  pub id : ℕ
  pub name : Text
  pub online : Bool

pub record PortainerState : Type 0 where
  pub version : Text
  pub endpoints : List EndpointSummary
  pub stacks : Map StackMeta

-- The parts of the collector and of its state that the inventory changes.
pub record Inventory (F : Type 0) : Type 0 where
  pub containers : Map (Container F)
  pub portainer : PortainerState
  pub sources : Map SourceStatus
  pub counters : Counters
  pub log_cursor : Map ℕ

unfoldable pub without_slash : Text → Text
without_slash [] = []
without_slash (c ∷ n) = if c == b'/' then n else c ∷ n

-- `ContainerSummary.Name`
unfoldable pub name_of : Text → List Text → Text
unfolding without_slash
name_of id [] = take 12 id
name_of id (n ∷ names) = without_slash n

-- labels[key], the empty string where it is missing
unfoldable pub label : Text → Map Text → Text
label key labels = elim (lookup key labels) [ some v ↦ v | none ↦ [] ]

abbrev pub label_compose_project : Text
label_compose_project = codes "com.docker.compose.project"

abbrev pub label_compose_service : Text
label_compose_service = codes "com.docker.compose.service"

module _ (path_match : Text → Text → Bool) (own_stack : Text) (patterns : List Text) where
  unfoldable pub excluded : Text → Text → Bool
  unfolding contains any_of
  excluded name stack =
      if not (text_eq stack []) && text_eq stack own_stack
      then true
      else any_of (λ p. path_match p name || (not (contains p (codes "*")) && text_eq p name))
          patterns

module _ {F : Type 0} where
  -- The endpoint of a container that has none, where there is a single one.
  unfoldable pub default_endpoint : List EndpointSummary → Container F → Container F
  default_endpoint [] cont = cont
  default_endpoint (e ∷ []) cont =
      if cont.endpoint_id == 0 then record cont { endpoint_id = e.id } else cont
  default_endpoint (e ∷ f ∷ es) cont = cont

  unfoldable pub stack_from :
      List EndpointSummary → Text → Option StackMeta → Container F → Container F
  unfolding default_endpoint
  stack_from endpoints project (some meta) cont = record cont {
    stack = project;
    stack_source = codes "portainer";
    endpoint_id = meta.endpoint_id;
  }
  stack_from endpoints project none cont =
      default_endpoint endpoints (record cont { stack = project; stack_source = codes "compose" })

  unfoldable pub assign_stack : PortainerState → Map Text → Container F → Container F
  unfolding stack_from default_endpoint label lookup
  assign_stack portainer labels cont =
      let project = label label_compose_project labels in
      let served = record cont { service = label label_compose_service labels } in
      let unmanaged = record served { stack = unmanaged_stack; stack_source = codes "unmanaged" } in
      if text_eq project []
      then default_endpoint portainer.endpoints unmanaged
      else stack_from portainer.endpoints project (lookup project portainer.stacks) served

-- The loop over the listing: the containers, the ids seen and to inspect, and the flag.
pub record Listing (F : Type 0) : Type 0 where
  pub containers : Map (Container F)
  pub seen : List Text
  pub to_inspect : List Text
  pub changed : Bool

abbrev pub reinspect_every : ℕ
reinspect_every = 300_000_000_000

-- now.Sub(at) > reinspectEvery, which the zero time always is.
unfoldable pub is_due : ℕ → Option ℕ → Bool
is_due now none = true
is_due now (some at) = ltb reinspect_every (now - at)

module _ {F : Type 0} (fl : Float F) (skip : Text → Text → Bool) (portainer : PortainerState)
    (now : ℕ) where
  open fl use {of_nat}

  unfoldable pub with_summary : ContainerSummary → Container F → Container F
  unfolding assign_stack name_of
  with_summary s cont = assign_stack portainer s.labels (record cont {
    name = name_of s.id s.names;
    image = s.image;
    image_id = s.image_id;
    state = s.state;
    status = s.status;
    labels = s.labels;
  })

  unfoldable pub differs : ContainerSummary → Container F → Bool
  unfolding name_of
  differs s cont =
      not (text_eq cont.state s.state)
      || (not (text_eq cont.name (name_of s.id s.names)) || not (text_eq cont.image s.image))

  unfoldable pub see : ContainerSummary → Option (Container F) → Listing F → Listing F
  unfolding with_summary differs is_due insert new_container
  see s none l = record {
    containers =
        insert s.id (with_summary s (new_container (of_nat 0) s.id s.created)) l.containers;
    seen = s.id ∷ l.seen;
    to_inspect = l.to_inspect ++ s.id ∷ [];
    changed = true;
  }
  see s (some cont) l = record {
    containers = insert s.id (with_summary s cont) l.containers;
    seen = s.id ∷ l.seen;
    to_inspect = if is_due now cont.last_inspected then l.to_inspect ++ s.id ∷ [] else l.to_inspect;
    changed = if differs s cont then true else l.changed;
  }

  -- One round of the loop; a container that is left out changes nothing.
  unfoldable pub see_one : ContainerSummary → Listing F → Listing F
  unfolding see name_of label lookup
  see_one s l =
      let seen = see s (lookup s.id l.containers) l in
      if skip (name_of s.id s.names) (label label_compose_project s.labels) then l else seen

  -- The loop over the containers that Docker lists.
  unfoldable pub see_all : List ContainerSummary → Listing F → Listing F
  unfolding see_one
  see_all [] l = l
  see_all (s ∷ ss) l = see_all ss (see_one s l)

unfoldable pub is_seen : List Text → Text → Bool
unfolding any_of
is_seen seen id = any_of (λ s. text_eq s id) seen

-- The entries of a map whose keys are seen.
unfoldable pub keep_seen : {V : Type 0} → List Text → Map V → Map V
unfolding is_seen
keep_seen seen [] = []
keep_seen seen ((id, v) ∷ m) =
    let rest = keep_seen seen m in if is_seen seen id then (id, v) ∷ rest else rest

-- An id that is not seen is deleted from the three maps.
unfoldable pub forget_one : List Text → Text → Counters × Map ℕ → Counters × Map ℕ
unfolding is_seen delete
forget_one seen id (kept, cursor) = if is_seen seen id then (kept, cursor) else (
  record kept { cpu_prev = delete id kept.cpu_prev; counters = delete id kept.counters },
  delete id cursor,
)

-- The loop over cpuPrev.
unfoldable pub forget : List Text → Map CpuSnapshot → Counters × Map ℕ → Counters × Map ℕ
unfolding forget_one
forget seen [] maps = maps
forget seen ((id, snapshot) ∷ m) maps = forget seen m (forget_one seen id maps)

-- The loop over the containers of the state, which deletes those that are not seen: whether it
-- deletes one.
unfoldable pub loses : {V : Type 0} → List Text → Map V → Bool
unfolding is_seen
loses seen [] = false
loses seen ((id, v) ∷ m) = if is_seen seen id then loses seen m else true

module _ {F : Type 0} (fl : Float F) (parse_time : Text → Option ℕ) (atoi : Text → ℕ) where
  -- The answer of Docker put into the container, if it is there.
  unfoldable pub inspected :
      ℕ → Text → ContainerInspect → Option (Container F) → Map (Container F) → Map (Container F)
  unfolding insert apply_inspect
  inspected now id info none containers = containers
  inspected now id info (some cont) containers =
      insert id (record (apply_inspect fl parse_time atoi info cont) { last_inspected = some now })
        containers

  unfoldable pub inspect :
      ℕ → Text → Option ContainerInspect → Map (Container F) → Map (Container F)
  unfolding inspected lookup
  inspect now id none containers = containers
  inspect now id (some info) containers = inspected now id info (lookup id containers) containers

  unfoldable pub inspect_all :
      ℕ → (Text → Option ContainerInspect) → List Text → Map (Container F) → Map (Container F)
  unfolding inspect
  inspect_all now answer [] containers = containers
  inspect_all now answer (id ∷ ids) containers =
      inspect_all now answer ids (inspect now id (answer id) containers)

  unfoldable pub record_of_container : Container F → ContainerRecord
  record_of_container c = record {
    id = c.id;
    name = c.name;
    image = c.image;
    image_id = c.image_id;
    image_digest = c.image_digest;
    stack = c.stack;
    service = c.service;
    endpoint_id = c.endpoint_id;
    state = c.state;
    health = c.health;
    restart_count = c.restart_count;
    created = c.created;
    started_at = c.started_at;
    exit_code = c.exit_code;
    first_seen = 0;
    last_seen = 0;
    present = false;
  }

  -- The records that `persistInventory` hands to UpsertContainers.
  unfoldable pub records_of : Map (Container F) → List ContainerRecord
  unfolding record_of_container
  records_of [] = []
  records_of ((id, c) ∷ m) = record_of_container c ∷ records_of m

  module _ (skip : Text → Text → Bool) (now : ℕ) (answer : Text → Option ContainerInspect) where
    -- The state after a listing: the containers that are seen, inspected where they are due.
    unfoldable pub after_listing : Listing F → Inventory F → Inventory F
    unfolding keep_seen forget inspect_all
    after_listing l inv =
        let (kept, cursor) = forget l.seen inv.counters.cpu_prev (inv.counters, inv.log_cursor) in
        record inv {
          containers = inspect_all now answer l.to_inspect (keep_seen l.seen l.containers);
          counters = kept;
          log_cursor = cursor;
        }

    -- `refreshInventory`: the state, and whether the containers are published.
    unfoldable pub refresh_inventory :
        Text ⊎ List ContainerSummary → Inventory F → Inventory F × Bool
    unfolding after_listing see_all set_source loses
    refresh_inventory (inl e) inv = (
      record inv {
        sources = set_source (now / 1_000_000_000) (codes "docker") (some e) inv.sources;
      },
      false,
    )
    refresh_inventory (inr list) inv =
        let start : Listing F = record {
          containers = inv.containers;
          seen = [];
          to_inspect = [];
          changed = false;
        } in
        let l = see_all fl skip inv.portainer now list start in
        let sources = set_source (now / 1_000_000_000) (codes "docker") none inv.sources in
        (after_listing l (record inv { sources = sources }), l.changed || loses l.seen l.containers)
