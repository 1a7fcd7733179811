-- ===== src/Observe/Updates.antt =====
-- What an observation (controllers/observe) makes of an incarnation.
use Prim.Native.String.{String}
use text.Mathlib.Text.{◌==◌ as str_eq}
use picchu.Base.{
  ℕ, ◌+◌, Bool, true, false, not, ◌&&◌, ◌||◌, Option, none, some, [], ◌∷◌, count_if, if◌then◌else◌,
  ltb, leb, ◌==◌, ◌≡◌, refl, arith, Bool-cases, inl, inr, ◌∙◌,
}
use picchu.Incarnation.{Incarnation}
use picchu.Observe.{
  IntStat, record_stat, DeploymentInfo, new_deployment_info, DeploymentInfoSet, ReplicaSet,
  Observation, record_info, record_replica_set, or_new, info_loop, info_for_tag, update, live_info,
  update_observed,
}

-- The replica sets of a tag in live clusters.
abbrev pub is_live_of : String → ReplicaSet → Bool
is_live_of tag rs = str_eq rs.tag tag && rs.cluster.live

abbrev pub sum_of : (ReplicaSet → ℕ) → (ReplicaSet → Bool) → Observation → ℕ
sum_of f p [] = 0
sum_of f p (rs ∷ rest) = let s = sum_of f p rest in if p rs then f rs + s else s

-- Whether each of them runs a replica.
abbrev pub all_running : (ReplicaSet → Bool) → Observation → Bool
all_running p [] = true
all_running p (rs ∷ rest) = (not (p rs) || ltb 0 rs.current) && all_running p rest

abbrev live_or_new : Option DeploymentInfoSet → DeploymentInfo
live_or_new none = new_deployment_info
live_or_new (some dis) = dis.live

-- No number was recorded, or all recorded ones are positive.
abbrev all_positive : IntStat → Bool
all_positive s = s.count == 0 || ltb 0 s.min

-- A stat that recorded nothing is zero.
abbrev IsFresh : IntStat → Type 0
IsFresh s = s.count ≡ 0 → s.min ≡ 0

record Sums (tag : String) (o : Observation) (before after : DeploymentInfo) : Type 0 where
  count_is : after.current.count ≡ before.current.count + count_if (is_live_of tag) o
  current_is : after.current.sum ≡ before.current.sum + sum_of (λ rs. rs.current) (is_live_of tag) o
  desired_is : after.desired.sum ≡ before.desired.sum + sum_of (λ rs. rs.desired) (is_live_of tag) o
  running_is :
      all_positive after.current ≡ (all_positive before.current && all_running (is_live_of tag) o)
  fresh : IsFresh before.current → IsFresh after.current

record_stat-positive :
    (n : ℕ) (s : IntStat) → all_positive (record_stat n s) ≡ (all_positive s && ltb 0 n)
unfolding record_stat
record_stat-positive n s = ground arith

next_live :
    (tag : String) (found : Option DeploymentInfoSet) (rs : ReplicaSet)
    → live_or_new
        (if not (str_eq rs.tag tag) then found else some (record_replica_set rs (or_new found)))
      ≡ (if is_live_of tag rs then record_info rs (live_or_new found) else live_or_new found)
next_live tag found rs = elim (Bool-cases (str_eq rs.tag tag)) [
  | inl e ↦ elim (Bool-cases rs.cluster.live) [
    | inl l ↦ rw (e, l) (live_or_new-or_new found)
    | inr l ↦ rw (e, l) (live_or_new-or_new' found)
  ]
  | inr e ↦ rw e refl
]
  where
    live_or_new-or_new :
        (o : Option DeploymentInfoSet)
        → record_info rs (or_new o).live ≡ record_info rs (live_or_new o)
    live_or_new-or_new none = refl
    live_or_new-or_new (some dis) = refl

    live_or_new-or_new' : (o : Option DeploymentInfoSet) → (or_new o).live ≡ live_or_new o
    live_or_new-or_new' none = refl
    live_or_new-or_new' (some dis) = refl

Sums-cons :
    (tag : String) (rs : ReplicaSet) (rest : Observation) (before mid after : DeploymentInfo)
    → mid ≡ (if is_live_of tag rs then record_info rs before else before)
    → Sums tag rest mid after
    → Sums tag (rs ∷ rest) before after
unfolding record_stat
Sums-cons tag rs rest before mid after m h = elim (Bool-cases (is_live_of tag rs)) [
  | inl l ↦
      let next : mid ≡ record_info rs before = m ∙ rw l refl in
      record {
        count_is = ground (arith, l, next, h.count_is);
        current_is = ground (arith, l, next, h.current_is);
        desired_is = ground (arith, l, next, h.desired_is);
        running_is = ground (arith, l, next, h.running_is);
        fresh = λ f. h.fresh (rw next (λ e. absurd (omega arith)));
      }
  | inr l ↦
      let next : mid ≡ before = m ∙ rw l refl in
      record {
        count_is = ground (arith, l, next, h.count_is);
        current_is = ground (arith, l, next, h.current_is);
        desired_is = ground (arith, l, next, h.desired_is);
        running_is = ground (arith, l, next, h.running_is);
        fresh = λ f. h.fresh (rw next f);
      }
]

Sums-info_loop :
    (tag : String) (o : Observation) (found : Option DeploymentInfoSet)
    → Sums tag o (live_or_new found) (live_or_new (info_loop tag found o))
unfolding info_loop
Sums-info_loop tag [] found = record {
  count_is = omega arith;
  current_is = omega arith;
  desired_is = omega arith;
  running_is = ground arith;
  fresh = λ f. f;
}
Sums-info_loop tag (rs ∷ rest) found =
    Sums-cons tag rs rest _ _ _ (next_live tag found rs) (Sums-info_loop tag rest _)

info_loop-none :
    (tag : String) (o : Observation)
    → count_if (λ rs. str_eq rs.tag tag) o ≡ 0
    → info_loop tag none o ≡ none
unfolding info_loop
info_loop-none tag [] h = refl
info_loop-none tag (rs ∷ rest) h = ground (arith, info_loop-none tag rest)

-- What `update` writes for an observed set.
record Reflects (live_count : ℕ) (info : Option DeploymentInfo) (di : DeploymentInfo)
    (i : Incarnation) : Type 0 where
  deployed_is : i.deployed ≡ (leb live_count di.current.count && ltb 0 di.current.min)
  current_is : i.status.scale.current ≡ di.current.sum
  desired_is : i.status.scale.desired ≡ di.desired.sum
  idle : info ≡ none → i.status.current_percent ≡ 0

Reflects-update :
    (now live_count : ℕ) (found : Option DeploymentInfoSet) (i : Incarnation)
    → Reflects live_count
        (live_info found)
        (live_or_new found)
        (update now live_count (live_info found) i)
unfolding update
Reflects-update now live_count none i = record {
  deployed_is = ground arith;
  current_is = refl;
  desired_is = refl;
  idle = λ e. refl;
}
Reflects-update now live_count (some dis) i = record {
  deployed_is = refl;
  current_is = refl;
  desired_is = refl;
  idle = λ e. absurd (ground arith);
}

-- An observed incarnation is deployed exactly if it has at least one replica set in a live cluster
-- and at least as many as there are live clusters, and each of them runs a replica; its current
-- and desired scale are the sums over these replica sets.
pub update_observed_lem :
    (now live_count : ℕ) (o : Observation) (i : Incarnation)
    → let i' = update_observed now live_count o i in
      let p = is_live_of i.tag in
      (i'.deployed ≡ (leb live_count (count_if p o) && (ltb 0 (count_if p o) && all_running p o)))
      × (i'.status.scale.current ≡ sum_of (λ rs. rs.current) p o)
      × (i'.status.scale.desired ≡ sum_of (λ rs. rs.desired) p o)
unfolding update_observed info_for_tag
update_observed_lem now live_count o i =
    let found = info_loop i.tag none o in
    let sums = Sums-info_loop i.tag o none in
    let reflects = Reflects-update now live_count found i in
    let fresh = sums.fresh (λ e. refl) in
    (
      reflects.deployed_is ∙ ground (arith, sums.count_is, sums.running_is, fresh),
      omega (arith, reflects.current_is, sums.current_is),
      omega (arith, reflects.desired_is, sums.desired_is),
    )

-- An incarnation of which no replica set was observed has no traffic, is marked as deleted and is
-- not deployed.
pub update_observed_absent :
    (now live_count : ℕ) (o : Observation) (i : Incarnation)
    → count_if (λ rs. str_eq rs.tag i.tag) o ≡ 0
    → let i' = update_observed now live_count o i in
      (i'.status.current_percent ≡ 0) × (i'.status.deleted ≡ true) × (i'.deployed ≡ false)
unfolding update_observed info_for_tag update
update_observed_absent now live_count o i h = rw (info_loop-none i.tag o h) (refl, refl, refl)
