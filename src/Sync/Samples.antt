-- ===== src/Sync/Samples.antt =====
-- Witnesses for the end of `sync` (controllers/syncer.go): a new revision that is deploying, and an
-- old one that is retired.
use picchu.Base.{false, List, [], ◌∷◌, if◌then◌else◌, ◌≡◌, refl, finished}
use picchu.Deployment.{State, name}
use picchu.Incarnation.{Incarnation}
use picchu.Sync.{collect_status, collect_statuses, release_statuses, recommissioned}
use picchu.Machine.Rollout.{handle_deploying}
use picchu.Machine.Teardown.{handle_retired}
use picchu.Machine.{tick, handle, record_outcome}
use picchu.Incarnation.{set_state, is_deployed, external_test_status}
use picchu.Incarnation.Deployments.{incarnation_deployment, sync, sync_target, apply_plan}
use picchu.Deployment.{lookup_handler, has_failed, target_external_test_status}
use picchu.Api.{find_target, RevisionStatus}
use picchu.Fixtures.{counting, settings, controller, production}
use picchu.Sync.Ticks.{release_statuses_total}
use picchu.Sync.Safe.{Moves, tick_incarnation_total, IsTargeted}
use picchu.Sync.{tick_incarnation, tick_incarnations}
use picchu.Base.{none, ℕ}
use picchu.Sync.Statuses.{any_good, reported, recommission_last}
use picchu.Sync.Recommission.{release_statuses_lem}
use picchu.Fixtures.{incarnation}

abbrev newer : Incarnation
newer = incarnation "new" State.deploying 0 false

abbrev older : Incarnation
older = incarnation "old" State.retired 0 false

abbrev pair : List Incarnation
pair = newer ∷ older ∷ []

-- The retired revision comes back.
brought_back : release_statuses pair ≡ finished (recommissioned older.status ∷ newer.status ∷ [])
unfolding release_statuses collect_statuses collect_status name
brought_back = refl

release_statuses_lem_example :
    (recommissioned older.status ∷ newer.status ∷ [])
    ≡ (if any_good pair then reported pair else recommission_last (reported pair))
release_statuses_lem_example = release_statuses_lem pair _ brought_back

abbrev at_5000 : Incarnation → ℕ
at_5000 i = 5000

abbrev ticked_pair : List Incarnation
ticked_pair = set_state 5000 "deployed" newer ∷ set_state 5000 "deploying" older ∷ []

pair_ticks :
    tick_incarnations counting controller settings at_5000 pair 0 ≡ finished (none, ticked_pair, 1)
unfolding picchu.Incarnation.ScalePlan.scale_bounds tick_incarnations tick_incarnation tick handle
    record_outcome incarnation_deployment sync sync_target apply_plan lookup_handler name
    handle_deploying handle_retired has_failed is_deployed external_test_status find_target
    target_external_test_status set_state
pair_ticks = refl

release_statuses_total_example :
    (statuses : List RevisionStatus) × (release_statuses ticked_pair ≡ finished statuses)
release_statuses_total_example =
    release_statuses_total counting controller settings at_5000 pair ticked_pair ticked_pair 0 1
      pair_ticks (refl, refl, (refl, refl, tt))

newer-IsTargeted : IsTargeted controller newer
unfolding find_target
newer-IsTargeted there = (production, 2, refl, refl)

tick_incarnation_total_example :
    Moves State.deploying (tick_incarnation counting controller settings at_5000 newer 0)
unfolding name
tick_incarnation_total_example =
    tick_incarnation_total counting controller settings at_5000 State.deploying newer 0 refl
      newer-IsTargeted
