-- ===== src/Machine.antt =====
-- controllers/state.go: the map `handlers` and `tick`. A handler reads and changes the world `W` of
-- the deployment through the interface alone.
pub mod Steps
pub mod Rollout
pub mod Teardown
pub mod Graph
pub mod Guards
pub mod Runs
pub mod Progress
pub mod Ending
pub mod Release
pub mod Revisions
pub mod Safe
mod Samples
use picchu.Base.{
  ℕ, ◌+◌, Bool, true, false, not, Option, none, some, if◌then◌else◌, ltb, leb, Panics, panicked,
  finished,
}
use picchu.Deployment.{
  State, name, lookup_handler, deploying_timeout, created_timeout, ExternalTestStatus, test_enabled,
  test_finished, is_test_failed, is_succeeded, is_started, is_pending, Deployment, has_failed,
}
use Steps.{Outcome}
use Rollout.{
  handle_created, handle_deploying, handle_deployed, handle_pendingtest, handle_testing,
  handle_tested, handle_pendingrelease, handle_releasing, handle_released, handle_canarying,
  handle_canaried,
}
use Teardown.{
  handle_retiring, handle_retired, handle_deleting, handle_deleted, handle_failing, handle_failed,
  handle_timingout,
}

module _ {W Err : Type 0} (d : Deployment W Err) (last_updated : Option ℕ) where
  -- The handler that the map `handlers` holds for a state.
  unfoldable pub handle : State → W → Outcome W Err
  unfolding handle_created handle_deploying handle_deployed handle_pendingtest handle_testing
      handle_tested handle_pendingrelease handle_releasing handle_released handle_retiring
      handle_retired handle_deleting handle_deleted handle_failing handle_failed handle_canarying
      handle_canaried handle_timingout
  handle State.created = handle_created d last_updated
  handle State.deploying = handle_deploying d last_updated
  handle State.deployed = handle_deployed d last_updated
  handle State.pendingrelease = handle_pendingrelease d last_updated
  handle State.releasing = handle_releasing d last_updated
  handle State.released = handle_released d last_updated
  handle State.retiring = handle_retiring d last_updated
  handle State.retired = handle_retired d last_updated
  handle State.deleting = handle_deleting d last_updated
  handle State.deleted = handle_deleted d last_updated
  handle State.failing = handle_failing d last_updated
  handle State.failed = handle_failed d last_updated
  handle State.pendingtest = handle_pendingtest d last_updated
  handle State.testing = handle_testing d last_updated
  handle State.tested = handle_tested d last_updated
  handle State.canarying = handle_canarying d last_updated
  handle State.canaried = handle_canaried d last_updated
  handle State.timingout = handle_timingout d last_updated

  -- The rest of `tick`, after the call of the handler.
  unfoldable pub record_outcome : Outcome W Err → Option Err × W
  record_outcome (s, none, w) = (none, d.set_state (name s) w)
  record_outcome (s, some e, w) = (some e, w)

  -- A state name with no handler is a call of a nil function.
  unfoldable pub tick : W → Panics (Option Err × W)
  unfolding handle record_outcome
  tick w = elim (lookup_handler (d.current_state w)) [
    | none ↦ panicked
    | some s ↦ finished (record_outcome (handle s w))
  ]
