-- ===== src/Manager/Reconcile.antt =====
-- controllers/releasemanager_controller.go: `Reconcile` of a release manager.
use Prim.Native.String.{String}
use text.Mathlib.Text.{◌==◌ as str_eq}
use picchu.Base.{
  ℕ, Bool, true, false, not, Option, none, some, List, [], ◌∷◌, ◌++◌, map, filter_if, any_if,
  count_if, if◌then◌else◌, ◌==◌, Panics, panicked, finished, ◌>>=◌,
}
use picchu.Api.{RevisionTarget, Revision, RevisionStatus}
use picchu.Capacity.{Floats, ClusterInfo}
use picchu.Objects.{StringMap, entries, has_key, label_ignore}
use picchu.Incarnation.{Incarnation, Controller}
use picchu.Observe.{Observation}
use picchu.Routes.{PortFault}
use picchu.Rollback.Reconcile.{Outcome, requeue, no_requeue}
use picchu.Manager.Monitors.{Fields}
use picchu.Manager.App.{Instance}
use picchu.Manager.Collect.{new_collection}
use picchu.Manager.Sync.{Times, Synced, sync}
use picchu.Manager.Sync

pub record ReleaseManager : Type 0 where
  pub name : String
  pub app : String
  pub fleet : String
  pub target : String
  pub labels : StringMap
  pub is_deleted : Bool
  pub finalizers : List String
  pub statuses : List RevisionStatus

pub data Fetched (Err : Type 0) : Type 0 where
  missing : Fetched Err
  failed : Err → Fetched Err
  fetched : ReleaseManager → Fetched Err

pub record Cluster : Type 0 where
  pub name : String
  pub enabled : Bool
  pub hot_standby : Bool
  pub scaling_factor_string : Option String

-- `parse_float` is strconv.ParseFloat, with `none` for its error.
pub record Numbers (F : Type 0) : Type 0 where
  pub floats : Floats F
  pub zero_factor : F
  pub parse_float : String → Option F

-- The Kubernetes API, which defaults what it reads, and the clients of the clusters.
pub record Outside (V W Err : Type 0) : Type 0 where
  pub get : W → Fetched Err
  pub list_clusters : ReleaseManager → W → Option Err × List Cluster
  pub new_applier : List Cluster → W → Option Err
  pub new_observer : List Cluster → W → Option Err
  pub list_revisions : ReleaseManager → W → Option Err × List (String × Revision)
  pub list_faults : ReleaseManager → W → Option Err × List (List (PortFault V))
  pub observe : ReleaseManager → W → Option Err × Observation
  pub steps : Sync.Outside V W Err
  pub update_status : List RevisionStatus → ReleaseManager → W → Option Err × W
  pub delete_app : ReleaseManager → W → Option Err × W
  pub update : ReleaseManager → W → Option Err × W

abbrev pub finalizer : String
finalizer = "picchu.medium.engineering/releasemanager"

-- `IsFinalized`
unfoldable pub is_finalized : List String → Bool
is_finalized [] = true
is_finalized (f ∷ fs) = let rest = is_finalized fs in if str_eq f finalizer then false else rest

-- `Finalize`
unfoldable pub finalize : List String → List String
finalize [] = []
finalize (f ∷ fs) = let rest = finalize fs in if str_eq f finalizer then rest else f ∷ rest

-- `HasTarget`
unfoldable pub has_target : String → List RevisionTarget → Bool
has_target name ts = any_if (λ t. str_eq t.name name) ts

-- `getRevisions`: the code panics where a time to live was not set.
unfoldable pub with_target : String → List (String × Revision) → Panics (List (String × Revision))
unfolding has_target
with_target name [] = finished []
with_target name ((tag, r) ∷ rs) =
    let rest = with_target name rs in
    if any_if (λ t. t.release.ttl == 0) r.targets
    then panicked
    else (rest >>= λ found.
        finished (if has_target name r.targets then (tag, r) ∷ found else found))

-- The faults of all injectors.
abbrev pub all_faults : {V : Type 0} → List (List (PortFault V)) → List (PortFault V)
all_faults [] = []
all_faults (fs ∷ rest) = fs ++ all_faults rest

-- `getClustersByFleet`
abbrev pub enabled_clusters : List Cluster → List Cluster
enabled_clusters = filter_if (λ k. k.enabled)

module _ {F V W Err : Type 0} (numbers : Numbers F) (fields : Fields V) (no_labels : V)
    (times : Times) (sort : List Incarnation → List Incarnation) (dev_host : String) (dev_port : ℕ)
    (api : Outside V W Err) where
  -- A factor that is missing, or no number, is 0.0.
  abbrev pub factor_of : Option String → F
  factor_of none = numbers.zero_factor
  factor_of (some s) = elim (numbers.parse_float s) [ none ↦ numbers.zero_factor | some f ↦ f ]

  abbrev pub cluster_info : Cluster → ClusterInfo F
  cluster_info k = record {
    name = k.name;
    live = not k.hot_standby;
    scaling_factor = factor_of k.scaling_factor_string;
  }

  abbrev pub controller_of : ReleaseManager → List Cluster → Controller F
  controller_of rm ks = record {
    floats = numbers.floats;
    clusters = map cluster_info ks;
    target_name = rm.target;
    statuses = rm.statuses;
  }

  abbrev pub live_clusters : List Cluster → ℕ
  live_clusters = count_if (λ k. not k.hot_standby)

  abbrev pub instance_of : ReleaseManager → List (PortFault V) → Instance V
  instance_of rm faults = record {
    name = rm.name;
    app = rm.app;
    fleet = rm.fleet;
    faults = faults;
    dev_routes_service_host = dev_host;
    dev_routes_service_port = dev_port;
  }

  abbrev pub requeue_error : Option Err × W → Panics (Outcome W Err)
  requeue_error (e, w) = requeue e w

  -- The statuses are written to a fresh copy.
  abbrev pub write_statuses : List RevisionStatus → Fetched Err → W → Panics (Outcome W Err)
  write_statuses ss Fetched.missing w = no_requeue w
  write_statuses ss (Fetched.failed e) w = requeue (some e) w
  write_statuses ss (Fetched.fetched rm) w = requeue_error (api.update_status ss rm w)

  unfoldable pub after_sync : Synced W Err → Panics (Outcome W Err)
  after_sync (some e, ss, w) = requeue (some e) w
  after_sync (none, ss, w) = write_statuses ss (api.get w) w

  abbrev pub after_delete : ReleaseManager → Option Err × W → Panics (Outcome W Err)
  after_delete rm (some e, w) = requeue (some e) w
  after_delete rm (none, w) =
      requeue_error (api.update (record rm { finalizers = finalize rm.finalizers }) w)

  -- The three ends: a release manager that lives, that is deleted, and that is finalized.
  unfoldable pub conclude :
      ReleaseManager
      → List Cluster
      → List (PortFault V)
      → List Incarnation
      → W
      → Panics (Outcome W Err)
  unfolding after_sync is_finalized
  conclude rm ks faults is w =
      if not rm.is_deleted
      then (sync (controller_of rm ks) fields no_labels (instance_of rm faults) times api.steps is w
          >>= after_sync)
      else if not (is_finalized rm.finalizers)
      then after_delete rm (api.delete_app rm w)
      else no_requeue w

  abbrev pub with_observation :
      ReleaseManager
      → List Cluster
      → List (String × Revision)
      → List (PortFault V)
      → Option Err × Observation
      → W
      → Panics (Outcome W Err)
  with_observation rm ks rs faults (some e, o) w = requeue (some e) w
  with_observation rm ks rs faults (none, o) w =
      conclude rm ks faults
        (new_collection (controller_of rm ks) times.now (live_clusters ks) o sort rs) w

  abbrev pub with_faults :
      ReleaseManager
      → List Cluster
      → List (String × Revision)
      → Option Err × List (List (PortFault V))
      → W
      → Panics (Outcome W Err)
  with_faults rm ks rs (some e, fs) w = requeue (some e) w
  with_faults rm ks rs (none, fs) w = with_observation rm ks rs (all_faults fs) (api.observe rm w) w

  abbrev pub with_revisions :
      ReleaseManager
      → List Cluster
      → Option Err × List (String × Revision)
      → W
      → Panics (Outcome W Err)
  with_revisions rm ks (some e, rs) w = requeue (some e) w
  with_revisions rm ks (none, rs) w =
      with_target rm.target rs >>= λ found. with_faults rm ks found (api.list_faults rm w) w

  abbrev pub with_observer : ReleaseManager → List Cluster → Option Err → W → Panics (Outcome W Err)
  with_observer rm ks (some e) w = requeue (some e) w
  with_observer rm ks none w = with_revisions rm ks (api.list_revisions rm w) w

  abbrev pub with_applier : ReleaseManager → List Cluster → Option Err → W → Panics (Outcome W Err)
  with_applier rm ks (some e) w = requeue (some e) w
  with_applier rm ks none w = with_observer rm ks (api.new_observer ks w) w

  abbrev pub with_clusters : ReleaseManager → Option Err × List Cluster → W → Panics (Outcome W Err)
  with_clusters rm (some e, ks) w = requeue (some e) w
  with_clusters rm (none, ks) w =
      let enabled = enabled_clusters ks in
      if live_clusters enabled == 0
      then requeue none w
      else with_applier rm enabled (api.new_applier enabled w) w

  abbrev pub with_release_manager : Fetched Err → W → Panics (Outcome W Err)
  with_release_manager Fetched.missing w = no_requeue w
  with_release_manager (Fetched.failed e) w = requeue (some e) w
  with_release_manager (Fetched.fetched rm) w =
      if has_key label_ignore (entries rm.labels)
      then requeue none w
      else with_clusters rm (api.list_clusters rm w) w

  unfoldable pub reconcile : W → Panics (Outcome W Err)
  unfolding conclude with_target
  reconcile w = with_release_manager (api.get w) w
