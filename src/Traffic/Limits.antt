-- ===== src/Traffic/Limits.antt =====
-- That `prepareRevisions` (controllers/syncer.go) does not panic.
use picchu.Base.{
  ℕ, ◌-◌, ◌≤◌, ◌<◌, Bool, false, ◌||◌, List, [], ◌∷◌, All, length, ◌≡◌, arith, refl, finished,
  Bool-cases, inl, inr, ◌==◌,
}
use picchu.Incarnation.{Incarnation, Controller}
use picchu.Incarnation.Targets.{IsValid, current_percent_target_total}
use picchu.Fleet.{deployed, releasable}
use picchu.Traffic.{
  Entry, percent_limit, assigned, assign, spend, divide, Prepared, prepare_revisions,
  reset_unreleasable, prepared,
}

-- The limit of a percentage that fits an int32 is within what remains.
percent_limit_le :
    (behind : Bool) (remaining : ℕ) (i : Incarnation)
    → i.status.current_percent < 2147483648
    → remaining ≤ 100
    → percent_limit behind remaining i ≤ remaining
percent_limit_le behind remaining i small h = ground arith

module _ {F : Type 0} (c : Controller F) (now : ℕ) where
  assign_total :
      (behind : Bool) (remaining : ℕ) (is : List Incarnation)
      → All (IsValid c) is
      → remaining ≤ 100
      → (r : List Entry × ℕ) × (assign c now behind remaining is ≡ finished r)
  unfolding assign
  assign_total behind remaining [] v h = (([], remaining), refl)
  assign_total behind remaining (i ∷ is) v h =
      let limit = percent_limit behind remaining i in
      let (p, targets, le) = current_percent_target_total c now limit i v.0 in
      let within : p ≤ remaining = omega (arith, percent_limit_le behind remaining i v.0.small h) in
      let (r, rest) = assign_total (behind || i.is_ramping) (remaining - p) is v.1 (omega arith) in
      ((assigned now behind p i ∷ r.0, r.1), rw targets (ground (arith, rest)))

  -- A fleet whose releasable incarnations are validated is divided without a panic: neither the
  -- assertion on the remaining percentage nor a nil pointer is hit.
  pub prepare_revisions_total :
      (is : List Incarnation)
      → All (IsValid c) (releasable (reset_unreleasable now is))
      → (r : Prepared) × (prepare_revisions c now is ≡ finished r)
  unfolding prepare_revisions divide
  prepare_revisions_total is v =
      let is' = reset_unreleasable now is in
      let ((entries, left), divides) = assign_total false 100 (releasable is') v (omega arith) in
      elim (Bool-cases (length (deployed is) == 0)) [
        | inl e ↦ (record { entries = []; others = is; routes = [] }, rw e)
        | inr e ↦ (prepared c now is is' (spend now left entries), rw (e, divides))
      ]
