-- ===== src/Manager/Final.antt =====
-- controllers/releasemanager_controller.go: which revisions a release manager takes, and its finalizers.
use Prim.Native.String.{String}
use text.Mathlib.Text.{◌==◌ as str_eq}
use picchu.Base.{
  Bool, true, not, Bool-cases, List, [], ◌∷◌, filter_if, every, any_if, panicked, finished,
  if◌then◌else◌, ◌==◌, ◌≡◌, refl, inl, inr, arith,
}
use picchu.Api.{RevisionTarget, Revision}
use picchu.Manager.Reconcile.{finalizer, is_finalized, finalize, has_target, with_target}

-- Every time to live was set.
abbrev pub has_times : String × Revision → Bool
has_times (tag, r) = every (λ t. not (t.release.ttl == 0)) r.targets

abbrev pub is_wanted : String → String × Revision → Bool
is_wanted name (tag, r) = has_target name r.targets

any_zero-every :
    (ts : List RevisionTarget)
    → any_if (λ t. t.release.ttl == 0) ts ≡ not (every (λ t. not (t.release.ttl == 0)) ts)
any_zero-every [] = refl
any_zero-every (t ∷ ts) = ground (arith, any_zero-every ts)

-- `getRevisions` panics if some revision that is listed has a target without a time to live, be it
-- another target, and otherwise returns those that have the target, in their order.
pub with_target_lem :
    (name : String) (rs : List (String × Revision))
    → with_target name rs
      ≡ (if every has_times rs then finished (filter_if (is_wanted name) rs) else panicked)
unfolding with_target
with_target_lem name [] = refl
with_target_lem name ((tag, r) ∷ rs) =
    ground (arith, any_zero-every r.targets, with_target_lem name rs)

pub is_finalized-finalize : (fs : List String) → is_finalized (finalize fs) ≡ true
unfolding is_finalized finalize
is_finalized-finalize [] = refl
is_finalized-finalize (f ∷ fs) = elim (Bool-cases (str_eq f finalizer)) [
  | inl e ↦ rw e (is_finalized-finalize fs)
  | inr e ↦ rw e (rw e (is_finalized-finalize fs))
]
