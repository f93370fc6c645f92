-- ===== src/Disks/Health.antt =====
-- internal/disks/mdstat.go: an array with its finalizeState and Healthy; and internal/disks/smart.go:
-- a disk and its Healthy. The fields of an array that only the web interface shows are left out.
use homelab_dashboard.Prelude.{
  ℕ, ◌≡◌, ◌≢◌, ◌∙◌, inl, inr, refl, Bool, true, false, ◌&&◌, ◌||◌, not, List, [], ◌∷◌, Text, codes,
  text_eq, text_eq_iff, ◌==◌, if◌then◌else◌, any_of, arith, Bool-cases,
}

pub record Disk : Type 0 where
  pub device : Text
  pub model : Text
  pub serial : Text
  pub firmware : Text
  pub capacity_bytes : ℕ
  pub rotation_rpm : ℕ
  pub transport : Text
  pub temperature : ℕ
  pub power_on_hours : ℕ
  pub power_cycles : ℕ
  pub reallocated : ℕ
  pub pending : ℕ
  pub uncorrectable : ℕ
  pub crc_errors : ℕ
  pub smart_passed : Bool
  pub smart_known : Bool
  pub standby : Bool
  pub percent_used : ℕ

-- Disk.Healthy
unfoldable pub disk_healthy : Disk → Bool
disk_healthy d =
    if d.smart_known && not d.smart_passed
    then false
    else d.reallocated == 0 && (d.pending == 0 && d.uncorrectable == 0)

pub record ArrayMember : Type 0 where
  pub device : Text
  pub faulty : Bool
  pub spare : Bool

pub record Array (F : Type 0) : Type 0 where
  pub name : Text
  pub level : Text
  pub state : Text
  pub active : Bool
  pub members : List ArrayMember
  pub slots_total : ℕ
  pub slots_active : ℕ
  pub degraded : Bool
  pub sync_action : Text
  pub sync_percent : F

-- Array.Healthy
unfoldable pub array_healthy : {F : Type 0} → Array F → Bool
array_healthy a = a.active && not a.degraded

pub is_rebuild : Text → Bool
is_rebuild action =
    text_eq action (codes "recovery")
    || (text_eq action (codes "resync") || text_eq action (codes "reshape"))

pub is_check : Text → Bool
is_check action = text_eq action (codes "check") || text_eq action (codes "repair")

-- The switch of finalizeState.
state_name : {F : Type 0} → Array F → Text
unfolding is_rebuild is_check
state_name a =
    if not a.active
    then codes "inactive"
    else if is_rebuild a.sync_action
    then a.sync_action
    else if a.degraded
    then codes "degraded"
    else if is_check a.sync_action
    then a.sync_action
    else codes "clean"

-- Its loop over the members.
mark_faulty : {F : Type 0} → List ArrayMember → Array F → Array F
mark_faulty [] a = a
mark_faulty (m ∷ ms) a =
    if m.faulty
    then mark_faulty ms (record a {
      degraded = true;
      state = if text_eq a.state (codes "clean") then codes "degraded" else a.state;
    })
    else mark_faulty ms a

unfoldable pub finalize_state : {F : Type 0} → Array F → Array F
unfolding state_name mark_faulty
finalize_state a = mark_faulty a.members (record a { state = state_name a })

abbrev pub is_faulty : ArrayMember → Bool
is_faulty m = m.faulty

mark_faulty-healthy :
    {F : Type 0} (ms : List ArrayMember) (a : Array F)
    → ((mark_faulty ms a).active ≡ a.active)
      × ((mark_faulty ms a).degraded ≡ (if any_of is_faulty ms then true else a.degraded))
unfolding mark_faulty any_of
mark_faulty-healthy [] a = (refl, refl)
mark_faulty-healthy (m ∷ ms) a = elim (Bool-cases m.faulty) [
  | inl bad ↦
      let marked = record a {
        degraded = true;
        state = if text_eq a.state (codes "clean") then codes "degraded" else a.state;
      } in
      let (active, degraded) = mark_faulty-healthy ms marked in
      rw bad (active, ground (arith, degraded))
  | inr good ↦ rw good (mark_faulty-healthy ms a)
]

-- After finalizeState an array is healthy exactly if it is active, was not degraded, and has no faulty
-- member.
pub finalize_state-healthy :
    {F : Type 0} (a : Array F)
    → array_healthy (finalize_state a)
      ≡ (a.active && not (a.degraded || any_of is_faulty a.members))
unfolding array_healthy finalize_state
finalize_state-healthy a =
    let (active, degraded) = mark_faulty-healthy a.members (record a { state = state_name a }) in
    ground (arith, active, degraded)

marked_not_clean :
    (s : Text) → (if text_eq s (codes "clean") then codes "degraded" else s) ≢ codes "clean"
marked_not_clean s = λ e. ground (arith, e, text_eq_iff s (codes "clean"))

mark_faulty-clean :
    {F : Type 0} (ms : List ArrayMember) (a : Array F)
    → (mark_faulty ms a).state ≡ codes "clean"
    → (a.state ≡ codes "clean") × (any_of is_faulty ms ≡ false)
unfolding mark_faulty any_of
mark_faulty-clean [] a h = (h, refl)
mark_faulty-clean (m ∷ ms) a h = elim (Bool-cases m.faulty) [
  | inl bad ↦
      let marked = record a {
        degraded = true;
        state = if text_eq a.state (codes "clean") then codes "degraded" else a.state;
      } in
      absurd (marked_not_clean a.state (mark_faulty-clean ms marked (rw bad at h)).0)
  | inr good ↦ rw good (mark_faulty-clean ms a (rw good at h))
]

state_name-clean :
    {F : Type 0} (a : Array F)
    → state_name a ≡ codes "clean"
    → (a.active ≡ true)
      × (a.degraded ≡ false)
      × (is_rebuild a.sync_action ≡ false)
      × (is_check a.sync_action ≡ false)
unfolding state_name is_rebuild is_check
state_name-clean a h = ground (
  arith,
  text_eq_iff a.sync_action (codes "recovery"),
  text_eq_iff a.sync_action (codes "resync"),
  text_eq_iff a.sync_action (codes "reshape"),
  text_eq_iff a.sync_action (codes "check"),
  text_eq_iff a.sync_action (codes "repair"),
)

-- An array whose state is clean after finalizeState is healthy, and no sync action rebuilds, checks or
-- repairs it.
pub finalize_state-clean :
    {F : Type 0} (a : Array F)
    → (finalize_state a).state ≡ codes "clean"
    → (array_healthy (finalize_state a) ≡ true)
      × (is_rebuild a.sync_action ≡ false)
      × (is_check a.sync_action ≡ false)
unfolding finalize_state
finalize_state-clean a h =
    let (name, none_faulty) = mark_faulty-clean a.members (record a { state = state_name a }) h in
    let (active, sound, rebuild, check) = state_name-clean a name in
    (finalize_state-healthy a ∙ ground (arith, active, sound, none_faulty), rebuild, check)
