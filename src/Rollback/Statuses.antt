-- ===== src/Rollback/Statuses.antt =====
-- controllers/revision_controller.go: the status of a revision in its release managers, and whether
-- it fails.
use Prim.Native.String.{String}
use text.Mathlib.Text.{◌==◌ as str_eq, find?}
use picchu.Base.{
  ℕ, ◌+◌, Bool, true, false, ◌&&◌, ◌||◌, not, Option, none, some, List, [], ◌∷◌, any_if,
  if◌then◌else◌, ltb, u32,
}
use picchu.Api.{RevisionStatus}
use picchu.Rollback.{Target, Instance, ReleaseManager, TargetStatus}

-- The status of a revision that the release manager does not know.
abbrev pub created_status : String → ℕ → RevisionStatus
created_status tag now = record {
  tag = tag;
  state = record { current = "created"; target = "created"; last_updated = none };
  current_percent = 0;
  peak_percent = 0;
  release_eligible = false;
  last_updated = some now;
  deploying_start = none;
  canary_start = none;
  pending_release_start = none;
  release_start = none;
  ttl = 0;
  scale = record { current = 0; desired = 0; peak = 0 };
  deleted = false;
}

unfoldable pub find_revision : String → ℕ → List RevisionStatus → RevisionStatus
find_revision tag now [] = created_status tag now
find_revision tag now (s ∷ ss) =
    let rest = find_revision tag now ss in if str_eq s.tag tag then s else rest

-- `ReleaseManager.RevisionStatus`
abbrev pub revision_status : String → ℕ → ReleaseManager → RevisionStatus
revision_status tag now rm = find_revision tag now rm.revisions

-- `AddReleaseManagerStatus`, to a status with a name alone.
abbrev pub add_release_manager_status : String → RevisionStatus → TargetStatus
add_release_manager_status name s = record {
  name = name;
  current = s.scale.current;
  desired = s.scale.desired;
  peak = s.scale.peak;
  state = s.state.current;
  current_percent = s.current_percent;
  peak_percent = s.peak_percent;
}

abbrev pub is_deployed : List TargetStatus → Bool
is_deployed = any_if (λ s. ltb 0 (u32 (s.current + s.desired)))

abbrev pub is_timing_out : List TargetStatus → Bool
is_timing_out = any_if (λ s. str_eq s.state "timingout")

abbrev pub acceptance_percentage : ℕ
acceptance_percentage = 50

-- `strings.Contains` of the name.
abbrev pub is_production : String → Bool
is_production name = elim (find? name "production") [ none ↦ false | some at ↦ true ]

abbrev pub guards_slos : Target → Bool
guards_slos t = t.acceptance_target || is_production t.name

-- The map of statuses by name: the last of a name wins.
unfoldable pub find_status : String → List TargetStatus → Option TargetStatus
find_status name [] = none
find_status name (s ∷ ss) = elim (find_status name ss) [
  | some later ↦ some later
  | none ↦ if str_eq s.name name then some s else none
]

abbrev pub violated : Target → Option TargetStatus → Option Target → Option Target
violated t none rest = rest
violated t (some s) rest = if ltb s.peak_percent acceptance_percentage then some t else none

-- The loop over the targets: the first that guards objectives and has a status decides.
unfoldable pub violated_target : List TargetStatus → List Target → Option Target
violated_target statuses [] = none
violated_target statuses (t ∷ ts) =
    let rest = violated_target statuses ts in
    if guards_slos t then violated t (find_status t.name statuses) rest else rest

-- The target for which objectives are violated, where alerts count at all.
unfoldable pub slo_violation : Instance → List TargetStatus → Bool → Option Target
slo_violation r statuses triggered =
    if not (is_timing_out statuses) && (triggered && not r.ignore_slos)
    then violated_target statuses r.targets
    else none

abbrev pub is_target : Option Target → Bool
is_target none = false
is_target (some t) = true

-- `revisionFailing`
unfoldable pub is_failing : Instance → List TargetStatus → Bool → Bool
is_failing r statuses triggered =
    is_timing_out statuses || is_target (slo_violation r statuses triggered)
