-- ===== src/Fleet/Samples.antt =====
-- A sort that stands for `sort.Slice` in the witnesses: it puts each element before those that are
-- not less than it.
use picchu.Base.{
  Bool, true, false, Bool-cases, List, [], ◌∷◌, All, if◌then◌else◌, ◌≡◌, inl, inr, arith,
}
use picchu.Fleet.Order.{IsOrdered, SortsBy}

module _ {A : Type 0} (less : A → A → Bool) where
  abbrev pub insert : A → List A → List A
  insert x [] = x ∷ []
  insert x (y ∷ ys) = let rest = insert x ys in if less y x then y ∷ rest else x ∷ y ∷ ys

  abbrev pub sort_slice : List A → List A
  sort_slice [] = []
  sort_slice (x ∷ xs) = insert x (sort_slice xs)

  All-insert : (P : A → Type 0) (x : A) (xs : List A) → P x → All P xs → All P (insert x xs)
  All-insert P x [] h hs = (h, tt)
  All-insert P x (y ∷ ys) h (g, gs) = elim (Bool-cases (less y x)) [
    | inl e ↦ rw e (g, All-insert P x ys h gs)
    | inr e ↦ rw e (h, (g, gs))
  ]

  module _ (irrefl : (x : A) → less x x ≡ false)
      (trans : (x y z : A) → less x y ≡ true → less y z ≡ true → less x z ≡ true)
      (weak : (x y z : A) → less x y ≡ false → less y z ≡ false → less x z ≡ false) where
    asym : (x y : A) → less y x ≡ true → less x y ≡ false
    asym x y h = elim (Bool-cases (less x y)) [
      | inl e ↦ absurd (ground (arith, irrefl x, trans x y x e h))
      | inr e ↦ e
    ]

    nothing_less :
        (x y : A) (ys : List A)
        → less y x ≡ false
        → All (λ z. less z y ≡ false) ys
        → All (λ z. less z x ≡ false) ys
    nothing_less x y [] h hs = tt
    nothing_less x y (z ∷ zs) h (g, gs) = (weak z y x g h, nothing_less x y zs h gs)

    insert-IsOrdered : (x : A) (xs : List A) → IsOrdered less xs → IsOrdered less (insert x xs)
    insert-IsOrdered x [] h = (tt, tt)
    insert-IsOrdered x (y ∷ ys) (h, hs) = elim (Bool-cases (less y x)) [
      | inl e ↦
          rw e (All-insert (λ z. less z y ≡ false) x ys (asym x y e) h, insert-IsOrdered x ys hs)
      | inr e ↦ rw e ((e, nothing_less x y ys e h), (h, hs))
    ]

    sort_slice-IsOrdered : (xs : List A) → IsOrdered less (sort_slice xs)
    sort_slice-IsOrdered [] = tt
    sort_slice-IsOrdered (x ∷ xs) = insert-IsOrdered x (sort_slice xs) (sort_slice-IsOrdered xs)

pub sort_slice-SortsBy : {A : Type 0} → SortsBy {A = A} sort_slice
sort_slice-SortsBy less irrefl trans weak = sort_slice-IsOrdered less irrefl trans weak
