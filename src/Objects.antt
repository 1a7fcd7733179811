-- ===== src/Objects.antt =====
-- plan/common.go: `CreateOrUpdate`, which brings an object of the cluster in line with a wanted one.
-- `V` stands for the contents that are copied whole (specs, rules, data); a nil map is `none`.
pub mod Kinds
pub mod ReplicaSets
pub mod Store
pub mod Synced
pub mod Settled
pub mod Maps
pub mod Running
pub mod Again
pub mod Waits
pub mod Counts
pub mod Memory
mod Samples
use Prim.Native.String.{String}
use text.Mathlib.Text.{◌==◌ as str_eq}
use picchu.Base.{
  ℕ, Bool, true, false, ◌&&◌, ◌||◌, not, Option, none, some, List, [], ◌∷◌, if◌then◌else◌, ◌==◌,
}

abbrev pub Entries : Type 0
Entries = List (String × String)

abbrev pub StringMap : Type 0
StringMap = Option Entries

unfoldable pub lookup : String → Entries → Option String
lookup key [] = none
lookup key ((k, v) ∷ rest) = if str_eq k key then some v else lookup key rest

unfoldable pub insert : String → String → Entries → Entries
insert key value [] = (key, value) ∷ []
insert key value ((k, v) ∷ rest) =
    let later = insert key value rest in if str_eq k key then (k, value) ∷ rest else (k, v) ∷ later

unfoldable pub remove : String → Entries → Entries
remove key [] = []
remove key ((k, v) ∷ rest) =
    let later = remove key rest in if str_eq k key then later else (k, v) ∷ later

-- A read of a nil map finds nothing.
abbrev pub entries : StringMap → Entries
entries none = []
entries (some m) = m

-- `delete`, which does nothing to a nil map.
abbrev pub remove_key : String → StringMap → StringMap
remove_key key none = none
remove_key key (some m) = some (remove key m)

abbrev pub label_ignore : String
label_ignore = "picchu.medium.engineering/ignore"

-- The parts of an object that the function reads or writes; a kind has some of them.
pub record Object (V : Type 0) : Type 0 where
  pub name : String
  pub namespace : String
  pub labels : StringMap
  pub annotations : StringMap
  pub spec : V
  pub ports : V
  pub selector : V
  pub contents : V
  pub secret_type : V
  pub rules : V
  pub subjects : V
  pub role_ref : V
  pub replicas : Option ℕ
  pub min_ready_seconds : ℕ
  pub template : V
  pub template_labels : StringMap
  pub template_annotations : StringMap

-- `isIgnored`
unfoldable pub has_key : String → Entries → Bool
has_key key [] = false
has_key key ((k, v) ∷ rest) = str_eq k key || has_key key rest

unfoldable pub is_ignored : {V : Type 0} → Object V → Bool
unfolding has_key
is_ignored o = has_key label_ignore (entries o.labels)

-- The types of the switch.
pub data Kind : Type 0 where
  name_space service service_account destination_rule virtual_service sidecar gateway
        prometheus_rule service_monitor prometheus_service_level secret external_secret config_map
        replica_set horizontal_pod_autoscaler datadog_metric worker_pod_autoscaler scaled_object
        trigger_authentication pod_disruption_budget role role_binding unsupported :
      Kind
