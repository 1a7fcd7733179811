-- ===== src/Machine/Rollout.antt =====
-- controllers/state.go: the handlers of the states from `created` to `released`.
use picchu.Base.{ℕ, not, Option, if◌then◌else◌, leb}
use picchu.Deployment.{
  State, deploying_timeout, created_timeout, ExternalTestStatus, test_enabled, test_finished,
  is_test_failed, is_succeeded, is_started, is_pending, Deployment, has_failed,
}
use picchu.Machine.Steps.{Outcome, move, attempt, ask, timed_out}

module _ {W Err : Type 0} (d : Deployment W Err) (last_updated : Option ℕ) where
  unfoldable pub handle_created : W → Outcome W Err
  handle_created w =
      if not (d.has_revision w)
      then move State.deleting w
      else if timed_out last_updated created_timeout (d.now w)
      then move State.timingout w
      else move State.deploying w

  unfoldable pub handle_deploying : W → Outcome W Err
  unfolding has_failed
  handle_deploying w =
      if not (d.has_revision w)
      then move State.deleting w
      else if has_failed d w
      then move State.failing w
      else attempt d.sync State.deploying
          (λ w'.
            if d.is_deployed w'
            then move State.deployed w'
            else if timed_out last_updated deploying_timeout (d.now w')
            then move State.timingout w'
            else move State.deploying w')
          w

  -- The part of `Deployed` and `Tested` that decides where a tested revision goes.
  abbrev release_or : (W → Outcome W Err) → W → Outcome W Err
  release_or otherwise w =
      if d.is_release_eligible w
      then (if d.is_canary_pending w then move State.canarying w else move State.pendingrelease w)
      else otherwise w

  deployed_switch : ExternalTestStatus → W → Outcome W Err
  deployed_switch ExternalTestStatus.succeeded w = move State.tested w
  deployed_switch ExternalTestStatus.started w = move State.testing w
  deployed_switch ExternalTestStatus.pending w = move State.pendingtest w
  deployed_switch _ w =
      release_or
        (λ w'.
          ask d (d.is_expired w') State.deployed (move State.retiring) (move State.deployed) w')
        w

  unfoldable pub handle_deployed : W → Outcome W Err
  unfolding has_failed deployed_switch
  handle_deployed w =
      if not (d.has_revision w)
      then move State.deleting w
      else if has_failed d w
      then move State.failing w
      else attempt d.sync State.deployed
          (λ w'.
            if not (d.is_deployed w')
            then move State.deploying w'
            else deployed_switch (d.external_test_status w') w')
          w

  unfoldable pub handle_pendingtest : W → Outcome W Err
  unfolding has_failed
  handle_pendingtest w =
      if not (d.has_revision w)
      then move State.deleting w
      else if has_failed d w
      then move State.failing w
      else if is_succeeded (d.external_test_status w)
      then move State.tested w
      else if d.is_timing_out w
      then move State.timingout w
      else if is_started (d.external_test_status w)
      then move State.testing w
      else attempt d.sync State.pendingtest
          (λ w'.
            if timed_out last_updated deploying_timeout (d.now w')
            then move State.timingout w'
            else move State.pendingtest w')
          w

  unfoldable pub handle_testing : W → Outcome W Err
  handle_testing w =
      if not (d.has_revision w)
      then move State.deleting w
      else if is_test_failed (d.external_test_status w)
      then move State.failing w
      else if is_succeeded (d.external_test_status w)
      then move State.tested w
      else if d.is_timing_out w
      then move State.timingout w
      else if is_pending (d.external_test_status w)
      then move State.pendingtest w
      else if not (test_enabled (d.external_test_status w))
      then move State.deploying w
      else attempt d.sync State.testing
          (λ w'.
            if timed_out last_updated deploying_timeout (d.now w')
            then move State.timingout w'
            else move State.testing w')
          w

  unfoldable pub handle_tested : W → Outcome W Err
  unfolding has_failed
  handle_tested w =
      if not (d.has_revision w)
      then move State.deleting w
      else if has_failed d w
      then move State.failing w
      else if is_pending (d.external_test_status w)
      then move State.pendingtest w
      else if not (test_finished (d.external_test_status w))
      then move State.testing w
      else release_or
          (λ w'.
            if timed_out last_updated deploying_timeout (d.now w')
            then move State.timingout w'
            else move State.tested w')
          w

  unfoldable pub handle_pendingrelease : W → Outcome W Err
  handle_pendingrelease w =
      if not (d.has_revision w)
      then move State.deleting w
      else if d.marked_as_failed w
      then move State.failing w
      else if not (d.is_release_eligible w)
      then move State.retiring w
      else ask d (d.schedule_permits_release w) State.pendingrelease (move State.releasing)
          (attempt d.sync State.pendingrelease (move State.pendingrelease)) w

  unfoldable pub handle_releasing : W → Outcome W Err
  handle_releasing w =
      if not (d.has_revision w)
      then move State.deleting w
      else if d.marked_as_failed w
      then move State.failing w
      else if not (d.is_release_eligible w)
      then move State.retiring w
      else attempt d.sync State.releasing
          (attempt d.delete_tagged_service_levels State.releasing (λ w'.
            if leb 100 (d.peak_percent w')
            then move State.released w'
            else move State.releasing w'))
          w

  unfoldable pub handle_released : W → Outcome W Err
  unfolding handle_releasing
  handle_released w = handle_releasing w

  unfoldable pub handle_canarying : W → Outcome W Err
  handle_canarying w =
      if not (d.has_revision w)
      then move State.deleting w
      else if d.marked_as_failed w
      then move State.failing w
      else attempt d.sync_canary_rules State.canarying
          (attempt d.delete_tagged_service_levels State.canarying (
            attempt d.sync State.canarying (λ w'.
              if not (d.is_canary_pending w')
              then move State.canaried w'
              else move State.canarying w')))
          w

  unfoldable pub handle_canaried : W → Outcome W Err
  handle_canaried w =
      if not (d.has_revision w)
      then move State.deleting w
      else if d.marked_as_failed w
      then move State.failing w
      else attempt d.delete_canary_rules State.canaried
          (attempt d.sync State.canarying (λ w'.
            if d.is_release_eligible w'
            then move State.pendingrelease w'
            else move State.canaried w'))
          w
