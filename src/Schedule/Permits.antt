-- ===== src/Schedule/Permits.antt =====
-- What the schedules (controllers/schedule) allow.
use picchu.Base.{
  ℕ, ◌+◌, ◌≤◌, ◌<◌, true, false, List, [], ◌∷◌, All, All-map, ◌≡◌, ◌≢◌, arith, Bool-cases, inl, inr,
  ◌==◌, ◌&&◌, not,
}
use picchu.Schedule.{
  Moment, is_weekend, holidays, day_of, humane_loop, inhumane_loop, humane_permits_release,
  inhumane_permits_release,
}

-- No holiday is the given day.
abbrev pub NoneIs : ℕ → List ℕ → Type 0
NoneIs day = All (λ holiday. holiday ≢ day)

abbrev pub IsAscending : List ℕ → Type 0
IsAscending [] = Unit
IsAscending (x ∷ xs) = All (λ y. x < y) xs × IsAscending xs

humane_loop_lem :
    (day : ℕ) (t : Moment) (hs : List ℕ)
    → IsAscending hs
    → humane_loop day t hs ≡ true
    → NoneIs day hs × (is_weekend t.weekday ≡ false) × (7 ≤ t.hour) × (t.hour < 16)
unfolding humane_loop
humane_loop_lem day t [] a h = ground arith
humane_loop_lem day t (x ∷ hs) a h = elim (Bool-cases (x == day)) [
  | inl e ↦ absurd (ground (arith, rw e at h))
  | inr e ↦ elim (Bool-cases (x == day + 86400 && not (is_weekend t.weekday))) [
    | inl b ↦
        let later : NoneIs day hs = All-map hs (λ y above. ground arith) a.0 in
        (
          (ground arith, later),
          ground arith,
          ground (arith, rw (e, b) at h),
          ground (arith, rw (e, b) at h),
        )
    | inr b ↦
        let (none, weekday, low, high) = humane_loop_lem day t hs a.1 (rw (e, b) at h) in
        ((ground arith, none), weekday, low, high)
  ]
]

inhumane_loop_lem :
    (day : ℕ) (t : Moment) (hs : List ℕ)
    → NoneIs day hs
    → is_weekend t.weekday ≡ false
    → inhumane_loop day t hs ≡ true
unfolding inhumane_loop
inhumane_loop_lem day t [] n w = ground arith
inhumane_loop_lem day t (x ∷ hs) n w = ground (arith, inhumane_loop_lem day t hs n.1 w, n.0)

module _ (date : ℕ → ℕ → ℕ → ℕ) (ascending : IsAscending (holidays date)) where
  -- With a calendar in which the holidays ascend, whatever time the humane schedule permits is on
  -- no holiday and no weekend, from 7 and before 16 o'clock, and the inhumane schedule permits it
  -- too.
  pub humane_permits_release_lem :
      (t : Moment)
      → humane_permits_release date t ≡ true
      → NoneIs (day_of date t) (holidays date)
        × (is_weekend t.weekday ≡ false)
        × (7 ≤ t.hour)
        × (t.hour < 16)
        × (inhumane_permits_release date t ≡ true)
  unfolding humane_permits_release inhumane_permits_release
  humane_permits_release_lem t h =
      let (none, weekday, low, high) =
        humane_loop_lem (day_of date t) t (holidays date) ascending h in
      (none, weekday, low, high, inhumane_loop_lem (day_of date t) t (holidays date) none weekday)
