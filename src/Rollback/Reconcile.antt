-- ===== src/Rollback/Reconcile.antt =====
-- controllers/revision_controller.go: `Reconcile`, over the Kubernetes API, the alerts and the
-- mirrors as parameters.
use Prim.Native.String.{String}
use picchu.Base.{
  ℕ, Bool, true, false, ◌&&◌, not, Option, none, some, List, [], ◌∷◌, if◌then◌else◌, Panics,
  panicked, finished, ◌>>=◌,
}
use picchu.Objects.{StringMap}
use picchu.Rollback.{Target, Instance, ReleaseManager, TargetStatus}
use picchu.Rollback.Labels.{labelled, is_marked}
use picchu.Rollback.Statuses.{
  revision_status, add_release_manager_status, is_deployed, slo_violation, is_failing,
}

pub data Fetched (Err : Type 0) : Type 0 where
  missing : Fetched Err
  failed : Err → Fetched Err
  fetched : Instance → Fetched Err

-- What lies outside: `release_managers` is what `List` leaves in the list, whose error is ignored;
-- errors of `mirror` and `save_alarms` are only logged.
pub record Outside (W Err : Type 0) : Type 0 where
  pub get : W → Fetched Err
  pub mirrors : W → Option Err × List String
  pub update : Instance → W → Option Err × W
  pub delete : Instance → W → Option Err × W
  pub is_not_found : Err → Bool
  pub release_managers : Target → Instance → W → List ReleaseManager
  pub create : Target → Instance → W → Option Err × W
  pub mirror : String → Instance → W → W
  pub is_triggered : Instance → W → Option Err × Bool
  pub save_alarms : Target → ReleaseManager → W → W
  pub fail : Instance → W → Option Err × W
  pub update_status : Instance → List TargetStatus → W → Option Err × W

-- The result for the queue, and the world that is left.
pub record Outcome (W Err : Type 0) : Type 0 where
  pub requeue_after : Bool
  pub error : Option Err
  pub world : W

module _ {W Err : Type 0} where
  -- `Requeue`
  abbrev pub requeue : Option Err → W → Panics (Outcome W Err)
  requeue none w = finished (record { requeue_after = true; error = none; world = w })
  requeue (some e) w = finished (record { requeue_after = false; error = some e; world = w })

  -- `NoRequeue` without an error
  abbrev pub no_requeue : W → Panics (Outcome W Err)
  no_requeue w = finished (record { requeue_after = false; error = none; world = w })

module _ {W Err : Type 0} (api : Outside W Err) (now : ℕ) where
  -- `getReleaseManager`
  abbrev pub only_release_manager : List ReleaseManager → Panics (Option ReleaseManager)
  only_release_manager [] = finished none
  only_release_manager (rm ∷ []) = finished (some rm)
  only_release_manager (rm ∷ rm' ∷ rms) = panicked

  abbrev pub get_release_manager : Target → Instance → W → Panics (Option ReleaseManager)
  get_release_manager t r w = only_release_manager (api.release_managers t r w)

  -- A new release manager knows no revisions.
  abbrev pub created_release_manager : Option Err × W → (Option Err × ReleaseManager) × W
  created_release_manager (e, w) = ((e, record { revisions = [] }), w)

  abbrev pub get_or_create_release_manager :
      Target → Instance → W → Panics ((Option Err × ReleaseManager) × W)
  get_or_create_release_manager t r w = get_release_manager t r w >>= λ found. elim found [
    | some rm ↦ finished ((none, rm), w)
    | none ↦ finished (created_release_manager (api.create t r w))
  ]

  unfoldable pub sync_release_manager :
      Instance → List Target → W → Panics ((Option Err × List TargetStatus) × W)
  sync_release_manager r [] w = finished ((none, []), w)
  sync_release_manager r (t ∷ ts) w = get_or_create_release_manager t r w >>= λ ((e, rm), w').
      elim e [
        | some err ↦ finished ((some err, []), w')
        | none ↦ sync_release_manager r ts w' >>= λ ((e', ss), w'').
            finished
              ((e', add_release_manager_status t.name (revision_status r.tag now rm) ∷ ss), w'')
      ]

  abbrev pub deletion : Option Err × W → (Bool × Option Err) × W
  deletion (none, w) = ((true, none), w)
  deletion (some e, w) = ((true, if api.is_not_found e then none else some e), w)

  -- `deleteIfMarked`: whether it was marked, and the error.
  unfoldable pub delete_if_marked : Instance → W → (Bool × Option Err) × W
  delete_if_marked r w =
      if is_marked r.labels r.targets then deletion (api.delete r w) else ((false, none), w)

  abbrev pub mirror_all : List String → Instance → W → W
  mirror_all [] r w = w
  mirror_all (m ∷ ms) r w = mirror_all ms r (api.mirror m r w)

  -- The alarms are saved in the release manager of the target, where there is one.
  abbrev pub record_alarms : Option Target → Instance → W → Panics W
  record_alarms none r w = finished w
  record_alarms (some t) r w = get_release_manager t r w >>= λ found. elim found [
    | none ↦ finished w
    | some rm ↦ finished (api.save_alarms t rm w)
  ]

  abbrev pub fail_if : Bool → Instance → W → Option Err × W
  fail_if false r w = (none, w)
  fail_if true r w = api.fail r w

  abbrev pub finish : Instance → List TargetStatus → Option Err × W → Panics (Outcome W Err)
  finish r statuses (some e, w) = requeue (some e) w
  finish r statuses (none, w) = let (e, w') = api.update_status r statuses w in requeue e w'

  abbrev pub judge : Instance → List TargetStatus → Option Err × Bool → W → Panics (Outcome W Err)
  judge r statuses (some e, triggered) w = requeue (some e) w
  judge r statuses (none, triggered) w =
      record_alarms (slo_violation r statuses triggered) r w >>= λ w'.
      finish r statuses (fail_if (is_failing r statuses triggered) r w')

  abbrev pub mirrored : List String → Instance → List TargetStatus → W → W
  mirrored mirrors r statuses w =
      if is_deployed statuses && not r.disable_mirroring then mirror_all mirrors r w else w

  unfoldable pub after_sync :
      List String → Instance → (Option Err × List TargetStatus) × W → Panics (Outcome W Err)
  after_sync mirrors r ((some e, statuses), w) = requeue (some e) w
  after_sync mirrors r ((none, statuses), w) =
      let w' = mirrored mirrors r statuses w in judge r statuses (api.is_triggered r w') w'

  unfoldable pub after_deletion :
      List String → Instance → (Bool × Option Err) × W → Panics (Outcome W Err)
  after_deletion mirrors r ((deleted, some e), w) = requeue (some e) w
  after_deletion mirrors r ((true, none), w) = requeue none w
  after_deletion mirrors r ((false, none), w) =
      sync_release_manager r r.targets w >>= after_sync mirrors r

  abbrev pub after_label : List String → Instance → Option Err × W → Panics (Outcome W Err)
  after_label mirrors r (some e, w) = requeue (some e) w
  after_label mirrors r (none, w) = after_deletion mirrors r (delete_if_marked r w)

  abbrev pub update_if : Bool → Instance → W → Option Err × W
  update_if false r w = (none, w)
  update_if true r w = api.update r w

  abbrev pub with_labels : List String → Instance → W → StringMap × Bool → Panics (Outcome W Err)
  with_labels ms r w (labels, updated) =
      let r' = record r { labels = labels } in after_label ms r' (update_if updated r' w)

  abbrev pub with_mirrors : Instance → Option Err × List String → W → Panics (Outcome W Err)
  with_mirrors r (some e, ms) w = requeue none w
  with_mirrors r (none, ms) w = labelled r >>= with_labels ms r w

  abbrev pub with_instance : Fetched Err → W → Panics (Outcome W Err)
  with_instance Fetched.missing w = no_requeue w
  with_instance (Fetched.failed e) w = requeue (some e) w
  with_instance (Fetched.fetched r) w = with_mirrors r (api.mirrors w) w

  unfoldable pub reconcile : W → Panics (Outcome W Err)
  reconcile w = with_instance (api.get w) w
