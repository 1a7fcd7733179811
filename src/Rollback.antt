-- ===== src/Rollback.antt =====
-- controllers/revision_controller.go: the reconciler of revisions, which labels and deletes them,
-- makes their release managers and marks them as failed. `now` is the clock.
pub mod Labels
pub mod Statuses
pub mod Reconcile
pub mod Labelled
pub mod Spared
pub mod Deleted
mod Samples
use Prim.Native.String.{String}
use picchu.Base.{ℕ, Bool, Option, List}
use picchu.Api.{RevisionStatus}
use picchu.Objects.{StringMap}

pub record Target : Type 0 where
  pub name : String
  pub fleet : String
  pub acceptance_target : Bool

-- The parts of a revision that the reconciler reads.
pub record Instance : Type 0 where
  pub app : String
  pub tag : String
  pub labels : StringMap
  pub targets : List Target
  pub canary_with_sli_rules : Bool
  pub ignore_slos : Bool
  pub disable_mirroring : Bool

pub record ReleaseManager : Type 0 where
  pub revisions : List RevisionStatus

-- `RevisionTargetStatus`
pub record TargetStatus : Type 0 where
  pub name : String
  pub current : ℕ
  pub desired : ℕ
  pub peak : ℕ
  pub state : String
  pub current_percent : ℕ
  pub peak_percent : ℕ
