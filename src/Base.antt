-- ===== src/Base.antt =====
-- The names that the other modules share: the libraries', passed on, Boolean tests on the native
-- numbers, and the list functions over them.
mod Lists
pub use Lists.*
pub use Prim.Native.Nat.{ℕ, zero, suc, ◌+◌, ◌-◌, ◌*◌, ◌/◌, ◌%◌, ◌^◌, ◌≤◌, ◌<◌}
pub use mathlib.Core.Path.{◌≡◌, refl, sym, ap, ◌∙◌, subst}
pub use mathlib.Core.Logic.{◌≢◌, ◌↔◌, ◌⊎◌, inl, inr}
pub use mathlib.Core.Bool.{Bool, true, false, not, ◌&&◌, ◌||◌}
pub use mathlib.Core.Option.{Option, none, some}
pub use mathlib.Core.List.{List, [], ◌∷◌, ◌++◌, map}
pub use native.Mathlib.Omega.{arith}
use Prim.Native.Nat.{compare, Ordering}

abbrev pub ltb : ℕ → ℕ → Bool
ltb a b = elim (compare a b) [ Ordering.lt ↦ true | _ ↦ false ]

abbrev pub leb : ℕ → ℕ → Bool
leb a b = elim (compare a b) [ Ordering.gt ↦ false | _ ↦ true ]

infix 50 ◌==◌
abbrev pub ◌==◌ : ℕ → ℕ → Bool
a == b = elim (compare a b) [ Ordering.eq ↦ true | _ ↦ false ]

infix 1 if◌then◌else◌
abbrev pub if◌then◌else◌ {ℓ} : {A : Type ℓ} → Bool → A → A → A
if true then x else y = x
if false then x else y = y

pub Bool-cases : (b : Bool) → (b ≡ true) ⊎ (b ≡ false)
Bool-cases true = inl refl
Bool-cases false = inr refl

pub some-injective {ℓ} : {A : Type ℓ} {a b : A} → some a ≡ some b → a ≡ b
some-injective {a = a} = ap (λ o. elim o [ none ↦ a | some x ↦ x ])

pub Option-cases {ℓ} : {A : Type ℓ} (o : Option A) → (o ≡ none) ⊎ ((a : A) × (o ≡ some a))
Option-cases none = inl refl
Option-cases (some a) = inr (a, refl)

-- A uint32 keeps its wrap-around.
abbrev pub u32 : ℕ → ℕ
u32 n = n % 4294967296

-- What a Go panic, such as a call of a nil function or an index out of range, leaves behind.
pub data Panics (A : Type 0) : Type 0 where
  panicked : Panics A
  finished : A → Panics A

pub finished-injective : {A : Type 0} {a b : A} → finished a ≡ finished b → a ≡ b
finished-injective {a = a} = ap (λ p. elim p [ panicked ↦ a | finished x ↦ x ])

module _ {A B : Type 0} where
  infixl 5 ◌>>=◌
  abbrev pub ◌>>=◌ : Panics A → (A → Panics B) → Panics B
  panicked >>= f = panicked
  finished a >>= f = f a

  -- Inversion of a bind that finishes.
  pub >>=-eq-finished :
      (m : Panics A) (f : A → Panics B) {b : B}
      → (m >>= f) ≡ finished b
      → (a : A) × (m ≡ finished a) × (f a ≡ finished b)
  >>=-eq-finished panicked f h = absurd (ground arith)
  >>=-eq-finished (finished a) f h = (a, refl, h)

-- The dereference of a pointer, which panics at nil.
abbrev pub deref : {A : Type 0} → Option A → Panics A
deref none = panicked
deref (some a) = finished a

abbrev pub IsSome {ℓ} : {A : Type ℓ} → Option A → Type 0
IsSome none = ⊥
IsSome (some a) = Unit
