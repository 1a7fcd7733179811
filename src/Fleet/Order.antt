-- ===== src/Fleet/Order.antt =====
-- controllers/incarnation.go: `sorted`, the incarnations by the time of their revision, newest first.
use picchu.Base.{
  ℕ, Bool, true, false, Bool-cases, none, some, List, [], ◌∷◌, All, filter_if, if◌then◌else◌, ◌==◌,
  ltb, ◌≡◌, subst, sym, inl, inr, arith,
}
use picchu.Incarnation.{Incarnation}

module _ {A : Type 0} where
  -- Nothing stands after what it is less than.
  abbrev pub IsOrdered : (A → A → Bool) → List A → Type 0
  IsOrdered less [] = Unit
  IsOrdered less (x ∷ xs) = All (λ y. less y x ≡ false) xs × IsOrdered less xs

  -- What is relied on of `sort.Slice`: it orders by a test that is a strict weak order.
  abbrev pub SortsBy : ((A → A → Bool) → List A → List A) → Type 0
  SortsBy sort_slice =
      (less : A → A → Bool)
      → ((x : A) → less x x ≡ false)
      → ((x y z : A) → less x y ≡ true → less y z ≡ true → less x z ≡ true)
      → ((x y z : A) → less x y ≡ false → less y z ≡ false → less x z ≡ false)
      → (xs : List A) → IsOrdered less (sort_slice less xs)

  All-filter_if : (p : A → Bool) (P : A → Type 0) (xs : List A) → All P xs → All P (filter_if p xs)
  All-filter_if p P [] h = tt
  All-filter_if p P (x ∷ xs) (h, hs) =
      let Goal = λ (b : Bool).
        All P (elim b as (λ _. List A) [ true ↦ x ∷ filter_if p xs | false ↦ filter_if p xs ]) in
      let rest = All-filter_if p P xs hs in
      elim (Bool-cases (p x)) [
        | inl e ↦ subst Goal (sym e) (h, rest)
        | inr e ↦ subst Goal (sym e) rest
      ]

  pub filter_if-IsOrdered :
      (less : A → A → Bool) (p : A → Bool) (xs : List A)
      → IsOrdered less xs
      → IsOrdered less (filter_if p xs)
  filter_if-IsOrdered less p [] h = tt
  filter_if-IsOrdered less p (x ∷ xs) (h, hs) =
      let Goal = λ (b : Bool).
        IsOrdered less
          (elim b as (λ _. List A) [ true ↦ x ∷ filter_if p xs | false ↦ filter_if p xs ]) in
      let rest = filter_if-IsOrdered less p xs hs in
      elim (Bool-cases (p x)) [
        | inl e ↦ subst Goal (sym e) (All-filter_if p (λ y. less y x ≡ false) xs h, rest)
        | inr e ↦ subst Goal (sym e) rest
      ]

-- The git timestamp and the time of creation, which are zero without a revision.
abbrev pub git_time : Incarnation → ℕ
git_time i = elim i.revision [ none ↦ 0 | some r ↦ r.git_timestamp ]

abbrev pub creation_time : Incarnation → ℕ
creation_time i = elim i.revision [ none ↦ 0 | some r ↦ r.creation_timestamp ]

-- The test that is handed to `sort.Slice`.
unfoldable pub is_newer : Incarnation → Incarnation → Bool
is_newer i j =
    if git_time i == git_time j
    then ltb (creation_time j) (creation_time i)
    else ltb (git_time j) (git_time i)

unfoldable pub sorted :
    ((Incarnation → Incarnation → Bool) → List Incarnation → List Incarnation)
    → List Incarnation
    → List Incarnation
unfolding is_newer
sorted sort_slice is = sort_slice is_newer is

pub is_newer_irrefl : (i : Incarnation) → is_newer i i ≡ false
unfolding is_newer
is_newer_irrefl i = ground arith

is_newer_trans :
    (i j k : Incarnation) → is_newer i j ≡ true → is_newer j k ≡ true → is_newer i k ≡ true
unfolding is_newer
is_newer_trans i j k h g = ground (arith, h, g)

is_newer_weak :
    (i j k : Incarnation) → is_newer i j ≡ false → is_newer j k ≡ false → is_newer i k ≡ false
unfolding is_newer
is_newer_weak i j k h g = ground (arith, h, g)

pub sorted-IsOrdered :
    (sort_slice : (Incarnation → Incarnation → Bool) → List Incarnation → List Incarnation)
    → SortsBy sort_slice
    → (is : List Incarnation) → IsOrdered is_newer (sorted sort_slice is)
unfolding sorted
sorted-IsOrdered sort_slice sorts = sorts is_newer is_newer_irrefl is_newer_trans is_newer_weak
