-- ===== src/Garbage/Samples.antt =====
-- Witnesses for controllers/garbagecollector: an insertion sort by the time of creation, and a
-- target with five retired revisions, of which three are expired and two are more than three.
use mathlib.Core.List.{Perm}
use mathlib.Core.List.Perm
use picchu.Base.{
  ℕ, ◌+◌, ◌≤◌, ◌<◌, List, [], ◌∷◌, All, All-map, length, count_if, ◌≡◌, ◌⊎◌, arith, refl,
  Bool-cases, inl, inr, if◌then◌else◌, leb, panicked, finished,
}
use picchu.Garbage.{Revision, is_retired, collect, default_strategy, IsDescending, SortsDescending}
use picchu.Garbage.Collected.{default_strategy-length}
use picchu.Garbage.Retained.{default_strategy-retained}
use Prim.Native.Nat.{min}

abbrev insert : Revision → List Revision → List Revision
insert r [] = r ∷ []
insert r (s ∷ rs) =
    let rest = insert r rs in if leb s.created_on r.created_on then r ∷ s ∷ rs else s ∷ rest

abbrev sort : List Revision → List Revision
sort [] = []
sort (r ∷ rs) = insert r (sort rs)

insert-perm : (r : Revision) (rs : List Revision) → Perm (insert r rs) (r ∷ rs)
insert-perm r [] = Perm.rfl
insert-perm r (s ∷ rs) = elim (Bool-cases (leb s.created_on r.created_on)) [
  | inl e ↦ rw e Perm.rfl
  | inr e ↦ rw e (Perm.trans (Perm.cons s (insert-perm r rs)) (Perm.swap r s rs))
]

insert-All :
    (P : Revision → Type 0) (r : Revision) (rs : List Revision)
    → P r
    → All P rs
    → All P (insert r rs)
insert-All P r [] p h = (p, tt)
insert-All P r (s ∷ rs) p h = ground (arith, insert-All P r rs p h.1)

insert-IsDescending :
    (r : Revision) (rs : List Revision) → IsDescending rs → IsDescending (insert r rs)
insert-IsDescending r [] d = (tt, tt)
insert-IsDescending r (s ∷ rs) d = elim (Bool-cases (leb s.created_on r.created_on)) [
  | inl e ↦ rw e ((ground arith, All-map rs (λ t h. ground arith) d.0), d)
  | inr e ↦ rw e (
    insert-All (λ t. t.created_on ≤ s.created_on) r rs (ground arith) d.0,
    insert-IsDescending r rs d.1,
  )
]

sort-SortsDescending : SortsDescending sort
sort-SortsDescending = record { permutes = sort-perm; descends = sort-IsDescending }
  where
    sort-perm : (rs : List Revision) → Perm (sort rs) rs
    sort-perm [] = Perm.rfl
    sort-perm (r ∷ rs) = Perm.trans (insert-perm r (sort rs)) (Perm.cons r (sort-perm rs))

    sort-IsDescending : (rs : List Revision) → IsDescending (sort rs)
    sort-IsDescending [] = tt
    sort-IsDescending (r ∷ rs) = insert-IsDescending r (sort rs) (sort-IsDescending rs)

abbrev retired : ℕ → Revision
retired created = record { tag = ""; state = "retired"; ttl = 100; created_on = created }

abbrev clock : Revision → ℕ
clock r = 450

abbrev fleet : List Revision
fleet = retired 100 ∷ retired 500 ∷ retired 300 ∷ retired 400 ∷ retired 200 ∷ []

two_oldest : default_strategy sort clock fleet ≡ finished (retired 200 ∷ retired 100 ∷ [])
unfolding default_strategy collect
two_oldest = refl

default_strategy-retained_example :
    count_if is_retired (retired 200 ∷ retired 100 ∷ []) + min 3 (count_if is_retired fleet)
    ≤ count_if is_retired fleet
default_strategy-retained_example =
    default_strategy-retained sort clock sort-SortsDescending fleet _ two_oldest

default_strategy-length_example :
    ((default_strategy sort clock fleet ≡ panicked) × (fleet ≡ []))
    ⊎ ((out : List Revision) × (default_strategy sort clock fleet ≡ finished out)
        × (length out < length fleet))
default_strategy-length_example = default_strategy-length sort clock sort-SortsDescending fleet
