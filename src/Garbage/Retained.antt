-- ===== src/Garbage/Retained.antt =====
-- How many retired revisions the garbage collector leaves for a rollback.
use Prim.Native.Nat.{min}
use picchu.Base.{
  ℕ, ◌+◌, ◌-◌, ◌≤◌, Bool, true, false, List, [], ◌∷◌, count_if, finished, ◌≡◌, arith, count_if-perm,
  finished-injective, if◌then◌else◌, subst,
}
use picchu.Garbage.{
  Revision, minimum_retired, is_retired, collect, init, drop_last, default_strategy,
  SortsDescending,
}

collect-retained :
    (now : Revision → ℕ) (budget : ℕ) (rs : List Revision)
    → count_if is_retired (collect now budget rs) + min budget (count_if is_retired rs)
      ≤ count_if is_retired rs
unfolding collect
collect-retained now budget [] = omega arith
collect-retained now budget (r ∷ rs) =
    ground (arith, collect-retained now budget rs, collect-retained now (budget - 1) rs)

init-retained :
    (r : Revision) (rs : List Revision)
    → count_if is_retired (init r rs) ≤ count_if is_retired (r ∷ rs)
init-retained r [] = omega arith
init-retained r (s ∷ rs) = ground (arith, init-retained s rs)

shortened-retained :
    (b : Bool) (rs out : List Revision)
    → (if b then drop_last rs else finished rs) ≡ finished out
    → count_if is_retired out ≤ count_if is_retired rs
shortened-retained true [] out e = absurd (ground arith)
shortened-retained true (r ∷ rs) out e =
    subst (λ l. count_if is_retired l ≤ count_if is_retired (r ∷ rs)) (finished-injective e)
      (init-retained r rs)
shortened-retained false rs out e =
    subst (λ l. count_if is_retired l ≤ count_if is_retired rs) (finished-injective e) (omega arith)

-- Where the collector returns, at least three retired revisions are not collected, or all of them
-- if there are fewer.
pub default_strategy-retained :
    (sort : List Revision → List Revision) (now : Revision → ℕ)
    → SortsDescending sort
    → (revisions out : List Revision) → default_strategy sort now revisions ≡ finished out
    → count_if is_retired out + min 3 (count_if is_retired revisions)
      ≤ count_if is_retired revisions
unfolding default_strategy
default_strategy-retained sort now sorts revisions out h = omega (
  arith,
  collect-retained now minimum_retired (sort revisions),
  shortened-retained _ (collect now minimum_retired (sort revisions)) out h,
  count_if-perm is_retired (sorts.permutes revisions),
)
