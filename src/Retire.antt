-- ===== src/Retire.antt =====
-- controllers/plan/retireRevision.go and plan/composite.go: the plan that stops a revision's pods, and
-- plans that are applied one after the other.
pub mod Stopped
mod Samples
use Prim.Native.String.{String}
use picchu.Base.{
  ℕ, Bool, Option, none, some, List, [], ◌∷◌, if◌then◌else◌, ◌==◌, Panics, finished, ◌>>=◌, deref,
  ◌≡◌,
}

-- What `Get` of a ReplicaSet answers: its replicas, a pointer.
pub data Fetched (Err : Type 0) : Type 0 where
  failed : Err → Fetched Err
  fetched : Option ℕ → Fetched Err

-- The Kubernetes API, each call at a name in the namespace of the plan. `is_no_match` tells an error
-- of a kind that the cluster does not know.
pub record Outside (W Err : Type 0) : Type 0 where
  pub delete_wpa : String → W → Option Err × W
  pub delete_scaled_object : String → W → Option Err × W
  pub delete_trigger_authentication : String → W → Option Err × W
  pub is_no_match : Err → Bool
  pub is_not_found : Err → Bool
  pub get_replica_set : String → W → Fetched Err
  pub update_replicas : String → ℕ → W → Option Err × W

module _ {W Err : Type 0} where
  infixl 5 ◌and_next◌
  abbrev pub ◌and_next◌ : Option Err × W → (W → Panics (Option Err × W)) → Panics (Option Err × W)
  (none, w) and_next f = f w
  (some e, w) and_next f = finished (some e, w)

  -- The loop of `compositePlan.Apply`.
  unfoldable pub apply_all : List (W → Panics (Option Err × W)) → W → Panics (Option Err × W)
  apply_all [] w = finished (none, w)
  apply_all (plan ∷ plans) w = plan w >>= λ o. o and_next apply_all plans

module _ {W Err : Type 0} (api : Outside W Err) where
  -- What `deleteWPA`, `deleteKEDA` and `deleteAuthKEDA` make of the error of a deletion.
  abbrev pub tolerated : Option Err × W → Option Err × W
  tolerated (none, w) = (none, w)
  tolerated (some e, w) =
      if api.is_no_match e then (none, w) else if api.is_not_found e then (none, w) else (some e, w)

  abbrev pub delete_wpa : String → W → Option Err × W
  delete_wpa name w = tolerated (api.delete_wpa name w)

  abbrev pub delete_keda : String → W → Option Err × W
  delete_keda name w = tolerated (api.delete_scaled_object name w)

  abbrev pub delete_auth_keda : String → W → Option Err × W
  delete_auth_keda name w = tolerated (api.delete_trigger_authentication name w)

  -- The ReplicaSet is set to no replicas, unless it is not there or has none.
  abbrev pub stop_pods : String → Fetched Err → W → Panics (Option Err × W)
  stop_pods tag (Fetched.failed e) w =
      if api.is_not_found e then finished (none, w) else finished (some e, w)
  stop_pods tag (Fetched.fetched replicas) w = deref replicas >>= λ n.
      if n == 0 then finished (none, w) else finished (api.update_replicas tag 0 w)

  unfoldable pub stop_replica_set : String → W → Panics (Option Err × W)
  stop_replica_set tag w = stop_pods tag (api.get_replica_set tag w) w

  unfoldable pub delete_auth_then_stop : String → W → Panics (Option Err × W)
  delete_auth_then_stop tag w = delete_auth_keda tag w and_next stop_replica_set tag

  unfoldable pub delete_keda_then_stop : String → W → Panics (Option Err × W)
  delete_keda_then_stop tag w = delete_keda tag w and_next delete_auth_then_stop tag

  -- `RetireRevision.Apply`
  unfoldable pub retire : String → W → Panics (Option Err × W)
  retire tag w = delete_wpa tag w and_next delete_keda_then_stop tag
