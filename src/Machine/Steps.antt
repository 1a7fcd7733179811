-- ===== src/Machine/Steps.antt =====
-- controllers/state.go: what a handler of the state machine returns.
use picchu.Base.{
  ℕ, ◌+◌, Bool, true, false, Option, none, some, if◌then◌else◌, ltb, Panics, panicked, finished,
}
use picchu.Deployment.{State, Deployment}

-- The pair (State, error) that a handler returns, with the world after it.
abbrev pub Outcome : Type 0 → Type 0 → Type 0
Outcome W Err = State × Option Err × W

abbrev pub is_panicked : Panics Bool → Bool
is_panicked panicked = true
is_panicked (finished b) = false

abbrev pub is_yes : Panics Bool → Bool
is_yes panicked = false
is_yes (finished b) = b

module _ {W Err : Type 0} where
  -- `return s, nil`
  abbrev pub move : State → W → Outcome W Err
  move s w = (s, none, w)

  -- `if err := call(); err != nil { return s, err }`, and the rest of the handler.
  abbrev pub attempt : (W → Option Err × W) → State → (W → Outcome W Err) → W → Outcome W Err
  attempt call s rest w =
      let (err, w') = call w in elim err [ none ↦ rest w' | some e ↦ (s, some e, w') ]

  -- `if query() { .. }`, and the rest of the handler. A panic stops the handler in the state `s`.
  abbrev pub ask :
      Deployment W Err
      → Panics Bool
      → State
      → (W → Outcome W Err)
      → (W → Outcome W Err)
      → W
      → Outcome W Err
  ask d answer s rest otherwise w =
      if is_panicked answer
      then (s, some d.nil_dereference, w)
      else if is_yes answer
      then rest w
      else otherwise w

  -- `return s, call()`
  abbrev pub move_calling : State → (W → Option Err × W) → W → Outcome W Err
  move_calling s call w = let (err, w') = call w in (s, err, w')

-- `lastUpdated != nil && lastUpdated.Add(timeout).Before(now)`
abbrev pub timed_out : Option ℕ → ℕ → ℕ → Bool
timed_out none timeout now = false
timed_out (some t) timeout now = ltb (t + timeout) now
