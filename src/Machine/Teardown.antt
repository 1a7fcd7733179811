-- ===== src/Machine/Teardown.antt =====
-- controllers/state.go: the handlers of the states that take a revision down.
use picchu.Base.{ℕ, not, Option, if◌then◌else◌, ltb, leb}
use picchu.Deployment.{State, deploying_timeout, Deployment, has_failed}
use picchu.Machine.Steps.{Outcome, move, attempt, move_calling, timed_out}

module _ {W Err : Type 0} (d : Deployment W Err) (last_updated : Option ℕ) where
  unfoldable pub handle_retiring : W → Outcome W Err
  handle_retiring w =
      if ltb 0 (d.current_percent w)
      then move State.retiring w
      else if not (d.has_revision w)
      then move State.deleting w
      else if d.marked_as_failed w
      then move State.failing w
      else if d.is_release_eligible w
      then move State.deploying w
      else attempt d.delete_tagged_service_levels State.retiring
          (λ w'.
            if leb (d.current_percent w') 0
            then move_calling State.retired d.retire w'
            else move State.retiring w')
          w

  unfoldable pub handle_retired : W → Outcome W Err
  handle_retired w =
      if not (d.has_revision w)
      then move State.deleting w
      else if d.marked_as_failed w
      then move State.failing w
      else if d.is_release_eligible w
      then move State.deploying w
      else move_calling State.retired d.retire w

  unfoldable pub handle_deleting : W → Outcome W Err
  handle_deleting w =
      if ltb 0 (d.current_percent w)
      then move State.deleting w
      else if d.has_revision w
      then move State.deploying w
      else attempt d.delete_canary_rules State.deleting
          (attempt d.delete_tagged_service_levels State.deleting (λ w'.
            if leb (d.current_percent w') 0
            then move_calling State.deleted d.del w'
            else if timed_out last_updated deploying_timeout (d.now w')
            then move State.timingout w'
            else move State.deleting w'))
          w

  unfoldable pub handle_deleted : W → Outcome W Err
  handle_deleted w = if d.has_revision w then move State.deploying w else move State.deleted w

  unfoldable pub handle_failing : W → Outcome W Err
  unfolding has_failed
  handle_failing w =
      if ltb 0 (d.current_percent w)
      then move State.failing w
      else if not (d.has_revision w)
      then move State.deleting w
      else if not (has_failed d w)
      then move State.deploying w
      else attempt d.delete_canary_rules State.failing
          (attempt d.delete_tagged_service_levels State.failing (λ w'.
            if leb (d.current_percent w') 0
            then move_calling State.failed d.retire w'
            else move State.failing w'))
          w

  unfoldable pub handle_failed : W → Outcome W Err
  unfolding has_failed
  handle_failed w =
      if not (d.has_revision w)
      then move State.deleting w
      else if not (has_failed d w)
      then move State.deploying w
      else move_calling State.failed d.retire w

  unfoldable pub handle_timingout : W → Outcome W Err
  unfolding has_failed
  handle_timingout w =
      if not (d.has_revision w)
      then move State.deleting w
      else if has_failed d w
      then move State.failing w
      else move State.timingout w
