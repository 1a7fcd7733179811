-- ===== src/Incarnation.antt =====
-- controllers/incarnation.go: an applied revision with its status, and its methods. `now` is the
-- clock; a dereference of nil panics.
pub mod Targets
pub mod Statuses
pub mod Deployments
pub mod ScalePlan
pub mod Readiness
mod Samples
use Prim.Native.String.{String}
use text.Mathlib.Text.{◌==◌ as str_eq}
use picchu.Base.{
  ℕ, Bool, true, false, ◌&&◌, not, Option, none, some, List, if◌then◌else◌, ltb, leb, ◌==◌, Panics,
  finished, ◌>>=◌, deref,
}
use picchu.Deployment.{State, name, ExternalTestStatus, target_external_test_status}
use picchu.Api.{RevisionTarget, Revision, RevisionStatus, is_canary_pending, find_target}
use picchu.Capacity.{Floats, ClusterInfo, can_ramp_to}
use picchu.Scaling.{ScalableTarget, scale}

pub record Incarnation : Type 0 where
  pub deployed : Bool
  pub tag : String
  pub revision : Option Revision
  pub status : RevisionStatus
  pub is_ramping : Bool

-- What the methods read of the controller: the clusters, and the release manager with the name of
-- its target and the statuses that it was loaded with.
pub record Controller (F : Type 0) : Type 0 where
  pub floats : Floats F
  pub clusters : List (ClusterInfo F)
  pub target_name : String
  pub statuses : List RevisionStatus

abbrev pub in_state : State → Incarnation → Bool
in_state s i = str_eq i.status.state.current (name s)

-- `isDeployed`
unfoldable pub is_deployed : Incarnation → Bool
is_deployed i = leb i.status.scale.desired i.status.scale.current && i.deployed

unfoldable pub is_routable : Incarnation → Bool
is_routable i = not (in_state State.canaried i) && not (in_state State.pendingrelease i)

abbrev pub has_revision : Incarnation → Bool
has_revision i = elim i.revision [ none ↦ false | some r ↦ true ]

abbrev pub marked_as_failed : Incarnation → Bool
marked_as_failed i = elim i.revision [ none ↦ false | some r ↦ r.failed ]

-- A time that is set once.
abbrev stamped : ℕ → Option ℕ → Option ℕ
stamped now none = some now
stamped now (some t) = some t

-- `setState`, which compares with the string "pendingRelease".
unfoldable pub set_state : ℕ → String → Incarnation → Incarnation
set_state now state i =
    let s = i.status in
    record i {
      status = record s {
        deploying_start =
            if str_eq state "deploying" then stamped now s.deploying_start else s.deploying_start;
        canary_start =
            if str_eq state "canarying" && ltb 0 s.current_percent
            then stamped now s.canary_start
            else s.canary_start;
        pending_release_start =
            if str_eq state "pendingRelease"
            then stamped now s.pending_release_start
            else s.pending_release_start;
        release_start =
            if str_eq state "releasing" then stamped now s.release_start else s.release_start;
        state = record {
          current = state;
          target = state;
          last_updated = if str_eq s.state.current state then s.state.last_updated else some now;
        };
      };
    }

unfoldable pub set_release_eligible : Bool → Incarnation → Incarnation
set_release_eligible flag i =
    let s = i.status in record i { status = record s { release_eligible = flag } }

unfoldable pub fast_release : Incarnation → Incarnation
fast_release i =
    let s = i.status in
    record i { status = record s { release_eligible = true; peak_percent = 100 } }

unfoldable pub update_current_percent : ℕ → ℕ → Incarnation → Incarnation
update_current_percent now current i =
    let s = i.status in
    let same = s.current_percent == current in
    record i {
      status = record s {
        current_percent = current;
        last_updated = if same then s.last_updated else some now;
        peak_percent = if ltb s.peak_percent current then current else s.peak_percent;
      };
    }

module _ {F : Type 0} (c : Controller F) where
  abbrev pub target : Incarnation → Option RevisionTarget
  target i = elim i.revision [ none ↦ none | some r ↦ find_target c.target_name r.targets ]

  unfoldable pub is_incarnation_canary_pending : ℕ → Incarnation → Bool
  is_incarnation_canary_pending now i = elim (target i) [
    | none ↦ false
    | some t ↦ is_canary_pending t i.status.canary_start now
  ]

  unfoldable pub external_test_status : Incarnation → ExternalTestStatus
  external_test_status i = elim (target i) [
    | none ↦ ExternalTestStatus.unknown
    | some t ↦ target_external_test_status t.external_test
  ]

  -- The adapter `ScalableTargetAdapter` for a target that is set.
  abbrev pub scalable : Incarnation → RevisionTarget → ScalableTarget
  scalable i t = record {
    can_ramp_to = can_ramp_to c.floats c.clusters (some t) i.status c.statuses;
    current_percent = i.status.current_percent;
    peak_percent = i.status.peak_percent;
    last_updated = elim i.status.last_updated [ none ↦ 0 | some at ↦ at ];
    release_info = t.release;
  }

  abbrev pub percent_cap : Incarnation → RevisionTarget → ℕ → ℕ
  percent_cap i t max =
      if in_state State.canarying i && ltb t.canary.percent max then t.canary.percent else max

  -- `currentPercentTarget`: a revision with no such target is a dereference of nil.
  unfoldable pub current_percent_target : ℕ → ℕ → Incarnation → Panics ℕ
  current_percent_target now max i = elim i.revision [
    | none ↦ finished 0
    | some r ↦ deref (target i) >>= λ t. scale (scalable i t) (percent_cap i t max) now
  ]
