-- ===== src/Scaling/Latency.antt =====
-- The loop of `GeometricExpectedReleaseLatency` (controllers/scaling/geometric.go): when it ends,
-- and what it counts.
use picchu.Base.{
  ◌⊎◌, inl, inr, ℕ, zero, suc, ◌+◌, ◌*◌, ◌^◌, ◌≤◌, ◌<◌, none, some, arith, ◌≡◌, refl, sym, ap, ◌∙◌,
  u32,
}
use native.Mathlib.Decide.{dec_le}
use native.Mathlib.Nat.{pow-zero, pow-suc, pow-succ', one-mul, mul_assoc}
use picchu.Scaling.{geometric_rounds}

mul-le_left : (p f : ℕ) → f ≤ 1 → p * f ≤ p
mul-le_left p f h = grind arith

pow_one : (p f : ℕ) → p * f ^ 1 ≡ p * f
pow_one p f = ap (λ t. p * t) (pow-suc f 0 ∙ ap (λ t. t * f) (pow-zero f) ∙ one-mul f)

pow_shift : (p f k : ℕ) → p * f ^ suc k ≡ (p * f) * f ^ k
pow_shift p f k = rw (pow-succ' f k) (sym (mul_assoc p f (f ^ k)))

least_shift :
    (p f max k : ℕ)
    → p * f < max
    → ((j : ℕ) → 0 < j → j < suc k → (p * f) * f ^ j < max)
    → (j : ℕ) → 0 < j
    → j < suc (suc k)
    → p * f ^ j < max
least_shift p f max k first h zero low high = absurd (omega arith)
least_shift p f max k first h (suc zero) low high = rw pow_one first
least_shift p f max k first h (suc (suc i)) low high =
    rw pow_shift (h (suc i) (omega arith) (omega arith))

-- With a factor of at most 1, below a maximum that fits a uint32, no fuel is enough: the loop of
-- the expected latency runs forever.
pub geometric_rounds_diverges :
    (fuel factor max percent iterations : ℕ)
    → factor ≤ 1
    → percent < max
    → max < 4294967296
    → geometric_rounds fuel factor max percent iterations ≡ none
unfolding geometric_rounds
geometric_rounds_diverges zero factor max percent iterations f p m = refl
geometric_rounds_diverges (suc fuel) factor max percent iterations f p m = ground (
  arith,
  mul-le_left percent factor f,
  geometric_rounds_diverges fuel factor max (u32 (percent * factor)) (iterations + 1),
)

geometric_rounds-least :
    (fuel factor max percent iterations : ℕ)
    → 2 ≤ factor
    → 0 < percent
    → max * factor < 4294967296
    → percent ≤ max
    → max ≤ percent + fuel
    → 0 < fuel
    → (k : ℕ) × (geometric_rounds fuel factor max percent iterations ≡ some (iterations + suc k))
      × (max ≤ percent * factor ^ suc k)
      × ((j : ℕ) → 0 < j → j < suc k → percent * factor ^ j < max)
unfolding geometric_rounds
geometric_rounds-least zero factor max percent iterations f p m le e pos = absurd (omega arith)
geometric_rounds-least (suc fuel) factor max percent iterations f p m le e pos =
    let n = percent * factor in
    let grows : suc percent ≤ n = grind arith in
    let fits : n < 4294967296 = grind arith in
    elim (dec_le max n) [
      | yes reached ↦ (0, ground arith, rw pow_one reached, λ j low high. absurd (omega arith))
      | no more ↦
          let (k, eq, reaches, least) =
            geometric_rounds-least fuel factor max n (iterations + 1) f (omega arith) m
              (omega arith) (omega arith) (omega arith) in
          (
            suc k,
            ground (arith, eq),
            rw pow_shift reaches,
            least_shift percent factor max k (omega arith) least,
          )
    ]

-- With a factor of at least 2, from a positive percentage up to the maximum, without a wrap of the
-- uint32 and with positive fuel for the distance to the maximum, the loop of the expected latency
-- ends; the iterations that it adds are the least positive number of multiplications that reaches
-- the maximum.
pub geometric_rounds_lem :
    (fuel factor max percent iterations : ℕ)
    → 2 ≤ factor
    → 0 < percent
    → max * factor < 4294967296
    → percent ≤ max
    → max ≤ percent + fuel
    → 0 < fuel
    → (k : ℕ) × (geometric_rounds fuel factor max percent iterations ≡ some (iterations + suc k))
      × (max ≤ percent * factor ^ suc k)
      × ((k ≡ 0) ⊎ (percent * factor ^ k < max))
geometric_rounds_lem fuel factor max percent iterations f p m le e pos =
    let (k, ends, reaches, least) =
      geometric_rounds-least fuel factor max percent iterations f p m le e pos in
    (k, ends, reaches, least_before k least)
  where
    least_before :
        (k : ℕ)
        → ((j : ℕ) → 0 < j → j < suc k → percent * factor ^ j < max)
        → (k ≡ 0) ⊎ (percent * factor ^ k < max)
    least_before zero least = inl refl
    least_before (suc k) least = inr (least (suc k) (omega arith) (omega arith))
