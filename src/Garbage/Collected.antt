-- ===== src/Garbage/Collected.antt =====
-- What the garbage collector (controllers/garbagecollector/defaultStrategy.go) may collect.
use picchu.Base.{
  ℕ, suc, ◌-◌, ◌≤◌, ◌<◌, Bool, true, false, ◌&&◌, List, [], ◌∷◌, length, count_if, All, All-map,
  All-map₂, ltb, leb, panicked, finished, ◌≡◌, arith, refl, count_if-perm, length-perm,
  length-eq-zero, if◌then◌else◌, ◌==◌, subst, ap, finished-injective, ◌⊎◌, Bool-cases, inl, inr,
}
use mathlib.Core.List.{Perm}
use picchu.Garbage.{
  Revision, init, minimum_retired, is_retired, is_expired, is_deletable, collect, drop_last,
  default_strategy, IsDescending, SortsDescending,
}

-- Retired, and at least as new as `r`.
abbrev pub is_retired_as_new : Revision → Revision → Bool
is_retired_as_new r s = is_retired s && leb r.created_on s.created_on

-- What holds of a revision that is collected from a list with `budget` left: it is expired and in
-- one of the deletable states, and if it is retired then more than `budget` retired ones are as new.
pub record IsGarbage (now : Revision → ℕ) (budget : ℕ) (revisions : List Revision) (r : Revision)
    : Type 0 where
  pub expired : is_expired now r ≡ true
  pub deletable : is_deletable r ≡ true
  pub spares_newer : is_retired r ≡ true → budget < count_if (is_retired_as_new r) revisions

module _ (now : Revision → ℕ) where
  collect-All :
      (P : Revision → Type 0) (budget : ℕ) (rs : List Revision)
      → All P rs
      → All P (collect now budget rs)
  unfolding collect
  collect-All P budget [] h = tt
  collect-All P budget (r ∷ rs) h =
      ground (arith, collect-All P budget rs h.1, collect-All P (budget - 1) rs h.1)

  widen :
      (budget : ℕ) (r : Revision) (rs : List Revision) (s : Revision)
      → IsGarbage now budget rs s
      → IsGarbage now budget (r ∷ rs) s
  widen budget r rs s g = record {
    expired = g.expired;
    deletable = g.deletable;
    spares_newer = λ e. ground (arith, g.spares_newer e);
  }

  widen_spared :
      (budget : ℕ) (r : Revision) (rs : List Revision)
      → is_retired r && ltb 0 budget ≡ true
      → (s : Revision) → IsGarbage now (budget - 1) rs s
      → s.created_on ≤ r.created_on
      → IsGarbage now budget (r ∷ rs) s
  widen_spared budget r rs spared s g older = record {
    expired = g.expired;
    deletable = g.deletable;
    spares_newer = λ e. ground (arith, g.spares_newer e);
  }

  head-IsGarbage :
      (budget : ℕ) (r : Revision) (rs : List Revision)
      → is_retired r && ltb 0 budget ≡ false
      → is_expired now r ≡ true
      → is_deletable r ≡ true
      → IsGarbage now budget (r ∷ rs) r
  head-IsGarbage budget r rs kept e d = record {
    expired = e;
    deletable = d;
    spares_newer = λ retired. ground arith;
  }

  collect-IsGarbage :
      (budget : ℕ) (rs : List Revision)
      → IsDescending rs
      → All (IsGarbage now budget rs) (collect now budget rs)
  unfolding collect
  collect-IsGarbage budget [] h = tt
  collect-IsGarbage budget (r ∷ rs) h =
      let older = collect-All (λ s. s.created_on ≤ r.created_on) (budget - 1) rs h.0 in
      let fewer = collect-IsGarbage (budget - 1) rs h.1 in
      let rest = All-map _ (widen budget r rs) (collect-IsGarbage budget rs h.1) in
      elim (Bool-cases (is_retired r && ltb 0 budget)) [
        | inl spared ↦ rw spared (All-map₂ _ (widen_spared budget r rs spared) fewer older)
        | inr kept ↦ rw kept (elim (Bool-cases (is_expired now r)) [
          | inl e ↦ rw e (elim (Bool-cases (is_deletable r)) [
            | inl d ↦ rw d (head-IsGarbage budget r rs kept e d, rest)
            | inr d ↦ rw d rest
          ])
          | inr e ↦ rw e rest
        ])
      ]

init-All :
    (P : Revision → Type 0) (r : Revision) (rs : List Revision) → All P (r ∷ rs) → All P (init r rs)
init-All P r [] h = tt
init-All P r (s ∷ rs) h = (h.0, init-All P s rs h.1)

All-shortened :
    (P : Revision → Type 0) (b : Bool) (rs : List Revision) {out : List Revision}
    → All P rs
    → (if b then drop_last rs else finished rs) ≡ finished out
    → All P out
All-shortened P true [] h e = absurd (ground arith)
All-shortened P true (r ∷ rs) h e = subst (All P) (finished-injective e) (init-All P r rs h)
All-shortened P false rs h e = subst (All P) (finished-injective e) h

IsGarbage-perm :
    (now : Revision → ℕ) (xs ys : List Revision)
    → Perm xs ys
    → (r : Revision) → IsGarbage now minimum_retired xs r
    → IsGarbage now minimum_retired ys r
IsGarbage-perm now xs ys p r g = record {
  expired = g.expired;
  deletable = g.deletable;
  spares_newer = λ e. omega (arith, count_if-perm (is_retired_as_new r) p, g.spares_newer e);
}

-- Where the collector returns, every collected revision is expired and in a deletable state, and
-- if it is retired then more than three retired revisions of the target are as new as it, itself
-- counted.
pub default_strategy-IsGarbage :
    (sort : List Revision → List Revision) (now : Revision → ℕ)
    → SortsDescending sort
    → (revisions out : List Revision) → default_strategy sort now revisions ≡ finished out
    → All (IsGarbage now minimum_retired revisions) out
unfolding default_strategy
default_strategy-IsGarbage sort now sorts revisions out h =
    All-shortened (IsGarbage now minimum_retired revisions) _ _
      (All-map _ (IsGarbage-perm now (sort revisions) revisions (sorts.permutes revisions))
        (collect-IsGarbage now minimum_retired (sort revisions) (sorts.descends revisions)))
      h

collect-length :
    (now : Revision → ℕ) (budget : ℕ) (rs : List Revision)
    → length (collect now budget rs) ≤ length rs
unfolding collect
collect-length now budget [] = omega arith
collect-length now budget (r ∷ rs) =
    ground (arith, collect-length now budget rs, collect-length now (budget - 1) rs)

init-length : (r : Revision) (rs : List Revision) → length (init r rs) ≡ length rs
init-length r [] = refl
init-length r (s ∷ rs) = ap suc (init-length s rs)

shortened-length :
    (n : ℕ) (c : List Revision)
    → length c ≤ n
    → let result = if n == length c then drop_last c else finished c in
      ((result ≡ panicked) × (n ≡ 0))
      ⊎ ((out : List Revision) × (result ≡ finished out) × (length out < n))
shortened-length n [] le = elim (Bool-cases (n == 0)) [
  | inl e ↦ inl (rw e, ground arith)
  | inr e ↦ inr ([], rw e, ground arith)
]
shortened-length n (r ∷ rs) le = elim (Bool-cases (n == suc (length rs))) [
  | inl e ↦ inr (init r rs, rw e, ground (arith, init-length r rs))
  | inr e ↦ inr (r ∷ rs, rw e, ground arith)
]

-- The collector returns fewer revisions than it is given, except that it panics where it is given
-- none.
pub default_strategy-length :
    (sort : List Revision → List Revision) (now : Revision → ℕ)
    → SortsDescending sort
    → (revisions : List Revision)
    → ((default_strategy sort now revisions ≡ panicked) × (revisions ≡ []))
      ⊎ ((out : List Revision) × (default_strategy sort now revisions ≡ finished out)
          × (length out < length revisions))
unfolding default_strategy
default_strategy-length sort now sorts revisions =
    let c = collect now minimum_retired (sort revisions) in
    let short : length c ≤ length revisions = omega (
      arith,
      collect-length now minimum_retired (sort revisions),
      length-perm (sorts.permutes revisions),
    ) in
    elim (shortened-length (length revisions) c short) [
      | inl (p, e) ↦ inl (p, length-eq-zero revisions e)
      | inr found ↦ inr found
    ]
