-- ===== src/Garbage.antt =====
-- controllers/garbagecollector: which revisions of a target may be deleted. `sort.Slice` of the
-- standard library is a parameter: of equal dates it keeps no order, so the laws ask only for a
-- permutation in descending order. `now r` is the clock when the loop looks at `r`.
pub mod Retained
pub mod Collected
mod Samples
use mathlib.Core.List.{Perm}
use picchu.Base.{
  ◌≤◌, All, Option, some, none, ℕ, zero, suc, ◌+◌, ◌-◌, Bool, true, false, ◌&&◌, List, [], ◌∷◌,
  length, if◌then◌else◌, ltb, ◌==◌, Panics, panicked, finished,
}
use Prim.Native.String.{String}
use text.Mathlib.Text.{◌==◌ as str_eq}

-- What the interface tells of a revision, with the tag that names it.
pub record Revision : Type 0 where
  pub tag : String
  pub state : String
  pub ttl : ℕ
  pub created_on : ℕ

abbrev pub minimum_retired : ℕ
minimum_retired = 3

abbrev pub is_retired : Revision → Bool
is_retired r = str_eq r.state "retired"

abbrev pub is_expired : (Revision → ℕ) → Revision → Bool
is_expired now r = ltb (r.created_on + r.ttl) (now r)

-- The states of the inner switch.
abbrev pub is_deletable : Revision → Bool
is_deletable r =
    if str_eq r.state "retired"
    then true
    else if str_eq r.state "deleting"
    then true
    else if str_eq r.state "deleted"
    then true
    else str_eq r.state "failed"

-- The loop over the sorted revisions, with the `budget` that is left.
pub collect : (Revision → ℕ) → ℕ → List Revision → List Revision
collect now budget [] = []
collect now budget (r ∷ rs) =
    let spared = collect now (budget - 1) rs in
    let rest = collect now budget rs in
    if is_retired r && ltb 0 budget
    then spared
    else if is_expired now r
    then (if is_deletable r then r ∷ rest else rest)
    else rest

-- All but the last of `r ∷ rs`.
abbrev pub init : Revision → List Revision → List Revision
init r [] = []
init r (s ∷ rs) = r ∷ init s rs

-- `toDelete[:len(toDelete)-1]`
abbrev pub drop_last : List Revision → Panics (List Revision)
drop_last [] = panicked
drop_last (r ∷ rs) = finished (init r rs)

module _ (sort : List Revision → List Revision) (now : Revision → ℕ) where
  pub default_strategy : List Revision → Panics (List Revision)
  unfolding collect
  default_strategy revisions =
      let to_delete = collect now minimum_retired (sort revisions) in
      if length revisions == length to_delete then drop_last to_delete else finished to_delete

-- `DefaultStrategy` is the iota 1 of its block.
abbrev pub default_strategy_id : ℕ
default_strategy_id = 1

module _ (sort : List Revision → List Revision) (now : Revision → ℕ) where
  -- `none` is the error of a strategy that is not implemented.
  unfoldable pub find_garbage : ℕ → List Revision → Option (Panics (List Revision))
  find_garbage strategy revisions =
      if strategy == default_strategy_id then some (default_strategy sort now revisions) else none

-- Descending by the time of creation.
abbrev pub IsDescending : List Revision → Type 0
IsDescending [] = Unit
IsDescending (r ∷ rs) = All (λ s. s.created_on ≤ r.created_on) rs × IsDescending rs

-- What is relied on of `sort.Slice` with `After` on the times of creation.
pub record SortsDescending (sort : List Revision → List Revision) : Type 0 where
  pub permutes : (revisions : List Revision) → Perm (sort revisions) revisions
  pub descends : (revisions : List Revision) → IsDescending (sort revisions)
