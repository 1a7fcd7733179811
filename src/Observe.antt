-- ===== src/Observe.antt =====
-- controllers/observe/observation.go, and `Incarnation.update` of controllers/incarnation.go: what was
-- observed of the replica sets, summed up for a tag. Replica counts (int32) are taken as not
-- negative, and their sums as fitting an int32.
pub mod Updates
mod Samples
use Prim.Native.String.{String}
use text.Mathlib.Text.{◌==◌ as str_eq}
use picchu.Base.{
  ℕ, ◌+◌, Bool, true, false, not, ◌&&◌, ◌||◌, Option, none, some, List, [], ◌∷◌, ◌++◌, length,
  if◌then◌else◌, ltb, leb, ◌==◌,
}
use picchu.Incarnation.{Incarnation}

pub record IntStat : Type 0 where
  pub min : ℕ
  pub max : ℕ
  pub sum : ℕ
  pub count : ℕ

abbrev pub zero_stat : IntStat
zero_stat = record { min = 0; max = 0; sum = 0; count = 0 }

-- `Record`
pub record_stat : ℕ → IntStat → IntStat
record_stat n s = record {
  min = if s.count == 0 || ltb n s.min then n else s.min;
  max = if ltb s.max n then n else s.max;
  sum = s.sum + n;
  count = s.count + 1;
}

pub record DeploymentInfo : Type 0 where
  pub desired : IntStat
  pub current : IntStat

pub record DeploymentInfoSet : Type 0 where
  pub live : DeploymentInfo
  pub standby : DeploymentInfo

abbrev pub new_deployment_info : DeploymentInfo
new_deployment_info = record { desired = zero_stat; current = zero_stat }

abbrev pub new_deployment_info_set : DeploymentInfoSet
new_deployment_info_set = record { live = new_deployment_info; standby = new_deployment_info }

pub record Cluster : Type 0 where
  pub name : String
  pub live : Bool

pub record ReplicaSet : Type 0 where
  pub desired : ℕ
  pub current : ℕ
  pub tag : String
  pub cluster : Cluster

-- An observation is its list of replica sets.
abbrev pub Observation : Type 0
Observation = List ReplicaSet

-- `Combine`
abbrev combine : Observation → Observation → Observation
combine o other = o ++ other

abbrev pub record_info : ReplicaSet → DeploymentInfo → DeploymentInfo
record_info rs di = record {
  desired = record_stat rs.desired di.desired;
  current = record_stat rs.current di.current;
}

-- `GetInfo` and the two calls of `Record` on what it points to.
abbrev pub record_replica_set : ReplicaSet → DeploymentInfoSet → DeploymentInfoSet
record_replica_set rs dis =
    if rs.cluster.live
    then record dis { live = record_info rs dis.live }
    else record dis { standby = record_info rs dis.standby }

abbrev or_new : Option DeploymentInfoSet → DeploymentInfoSet
or_new none = new_deployment_info_set
or_new (some dis) = dis

-- The loop of `InfoForTag`, with the set that was made so far.
pub info_loop : String → Option DeploymentInfoSet → Observation → Option DeploymentInfoSet
info_loop tag found [] = found
info_loop tag found (rs ∷ rest) =
    info_loop tag
      (if not (str_eq rs.tag tag) then found else some (record_replica_set rs (or_new found))) rest

pub info_for_tag : String → Observation → Option DeploymentInfoSet
unfolding info_loop
info_for_tag tag o = info_loop tag none o

-- `update`, with the number of live clusters and the time.
unfoldable pub update : ℕ → ℕ → Option DeploymentInfo → Incarnation → Incarnation
update now live_count none i =
    let s = i.status in
    let idle = s.current_percent == 0 in
    record i {
      deployed = false;
      status = record s {
        last_updated = if idle then s.last_updated else some now;
        current_percent = 0;
        scale = record { current = 0; desired = 0; peak = s.scale.peak };
        deleted = true;
      };
    }
update now live_count (some di) i =
    let s = i.status in
    record i {
      deployed = leb live_count di.current.count && ltb 0 di.current.min;
      status = record s {
        deleted = false;
        scale = record {
          current = di.current.sum;
          desired = di.desired.sum;
          peak = if ltb s.scale.peak di.current.sum then di.current.sum else s.scale.peak;
        };
      };
    }

abbrev pub live_info : Option DeploymentInfoSet → Option DeploymentInfo
live_info none = none
live_info (some dis) = some dis.live

-- The call of `update` in the loop of `IncarnationCollection.update`.
unfoldable pub update_observed : ℕ → ℕ → Observation → Incarnation → Incarnation
unfolding update info_for_tag
update_observed now live_count o i = update now live_count (live_info (info_for_tag i.tag o)) i
