-- ===== src/Machine/Guards.antt =====
-- Why the handlers of controllers/state.go move: what holds of the revision when a state is entered,
-- and what is not called while traffic remains.
use picchu.Base.{Bool, ℕ, ◌≤◌, ◌<◌, true, false, Option, none, ◌≡◌, ◌≢◌, ◌⊎◌, arith, IsSome}
use picchu.Deployment.{State, ExternalTestStatus, test_finished, Deployment, has_failed}
use picchu.Machine.{handle}
use picchu.Machine.Steps.{is_yes}

module _ {W Err : Type 0} (d : Deployment W Err) (last_updated : Option ℕ) where
  -- A release starts from `pendingrelease` when the schedule permits it, and one whose peak is
  -- below 100 percent goes on from `released`.
  abbrev pub ReleaseWarrant : State → W → W → Type 0
  ReleaseWarrant State.pendingrelease w w' = is_yes (d.schedule_permits_release w) ≡ true
  ReleaseWarrant State.released w w' = d.peak_percent w' < 100
  ReleaseWarrant _ w w' = ⊥

  -- What warrants going from the state `s` to another one: `w` is the world that the handler was
  -- called in, and `w'` the one that it left.
  abbrev pub Warrant : State → State → W → W → Type 0
  Warrant s State.created w w' = ⊥
  Warrant s State.deploying w w' = d.has_revision w ≡ true
  Warrant s State.deployed w w' = (d.has_revision w ≡ true) × (d.is_deployed w' ≡ true)
  Warrant s State.pendingtest w w' = d.external_test_status w' ≡ ExternalTestStatus.pending
  Warrant s State.testing w w' = test_finished (d.external_test_status w') ≡ false
  Warrant s State.tested w w' = d.external_test_status w' ≡ ExternalTestStatus.succeeded
  Warrant s State.canarying w w' =
      (d.has_revision w ≡ true)
      × (d.is_release_eligible w' ≡ true)
      × (d.is_canary_pending w' ≡ true)
  Warrant s State.canaried w w' = (d.marked_as_failed w ≡ false) × (d.is_canary_pending w' ≡ false)
  Warrant s State.pendingrelease w w' =
      (d.marked_as_failed w ≡ false) × (d.is_release_eligible w' ≡ true)
  Warrant s State.releasing w w' =
      (d.has_revision w ≡ true)
      × (d.marked_as_failed w ≡ false)
      × (d.is_release_eligible w ≡ true)
      × ReleaseWarrant s w w'
  Warrant s State.released w w' =
      (d.has_revision w ≡ true)
      × (d.marked_as_failed w ≡ false)
      × (d.is_release_eligible w ≡ true)
      × (100 ≤ d.peak_percent w')
  Warrant s State.retiring w w' =
      (d.is_release_eligible w ≡ false) ⊎ (is_yes (d.is_expired w') ≡ true)
  Warrant s State.retired w w' =
      (d.current_percent w ≡ 0) × (d.marked_as_failed w ≡ false) × (d.is_release_eligible w ≡ false)
  Warrant s State.deleting w w' = d.has_revision w ≡ false
  Warrant s State.deleted w w' = (d.current_percent w ≡ 0) × (d.has_revision w ≡ false)
  Warrant s State.failing w w' = (d.has_revision w ≡ true) × (has_failed d w ≡ true)
  Warrant s State.failed w w' = (d.current_percent w ≡ 0) × (has_failed d w ≡ true)
  Warrant s State.timingout w w' = (d.is_timing_out w ≡ true) ⊎ IsSome last_updated

  -- A handler that changes the state without an error enters only a state that is warranted: for
  -- example `releasing` only for an eligible revision not marked as failed, from `pendingrelease`
  -- when the schedule permits it or from `released` at a peak below 100 percent, `released` only
  -- at a peak of at least 100 percent, `deleted`, `retired` and `failed` only without traffic.
  pub handle_warranted :
      (s : State) (w : W)
      → (handle d last_updated s w).1 ≡ none
      → (handle d last_updated s w).0 ≢ s
      → Warrant s (handle d last_updated s w).0 w (handle d last_updated s w).2
  unfolding handle has_failed
  handle_warranted State.created w h n = ground arith
  handle_warranted _ w h n = ground arith

-- The states for which the end of `sync` asks whether the revision has failed.
abbrev pub is_live : State → Bool
is_live State.deploying = true
is_live State.deployed = true
is_live State.pendingrelease = true
is_live State.releasing = true
is_live State.released = true
is_live _ = false

module _ {W Err : Type 0} (d : Deployment W Err) (last_updated : Option ℕ) where
  pub handle-has_revision :
      (s : State) (w : W)
      → (handle d last_updated s w).1 ≡ none
      → is_live (handle d last_updated s w).0 ≡ true
      → d.has_revision w ≡ true
  unfolding handle has_failed
  handle-has_revision State.created w h n = ground arith
  handle-has_revision _ w h n = ground arith
