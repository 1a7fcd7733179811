-- ===== src/Incarnation/Statuses.antt =====
-- What `setState` and `updateCurrentPercent` (controllers/incarnation.go) record in the status.
use Prim.Native.String.{String}
use text.Mathlib.Text.{◌==◌ as str_eq}
use picchu.Base.{inl, inr, ◌⊎◌, Bool, false, true, if◌then◌else◌, none, ℕ, Option, some, ◌≡◌, refl}
use picchu.Deployment.{State, name}
use picchu.Incarnation.{Incarnation, set_state, stamped}

-- For every state of the machine `setState` leaves the start of the pending release as it was.
pub set_state-pending_release_start :
    (now : ℕ) (s : State) (i : Incarnation)
    → (set_state now (name s) i).status.pending_release_start ≡ i.status.pending_release_start
unfolding set_state name
set_state-pending_release_start now State.created i = refl
set_state-pending_release_start now _ i = refl

-- A stamp is only written where there was none.
abbrev pub IsStamped : Option ℕ → Option ℕ → Type 0
IsStamped old new = (new ≡ old) ⊎ (old ≡ none)

-- `setState` sets the state and its target, moves the time of the last change exactly when the
-- state changes, and writes the stamps of deploying, of the canary and of the release only where
-- there was none.
pub set_state_lem :
    (now : ℕ) (s : String) (i : Incarnation)
    → let i' = set_state now s i in
      (i'.status.state.current ≡ s)
      × (i'.status.state.target ≡ s)
      × (i'.status.state.last_updated
          ≡ (if str_eq i.status.state.current s then i.status.state.last_updated else some now))
      × IsStamped i.status.deploying_start i'.status.deploying_start
      × IsStamped i.status.canary_start i'.status.canary_start
      × IsStamped i.status.release_start i'.status.release_start
unfolding set_state
set_state_lem now s i = (
  refl,
  refl,
  refl,
  stamped-if _ now i.status.deploying_start,
  stamped-if _ now i.status.canary_start,
  stamped-if _ now i.status.release_start,
)
  where
    stamped-if :
        (b : Bool) (t : ℕ) (old : Option ℕ) → IsStamped old (if b then stamped t old else old)
    stamped-if true t none = inr refl
    stamped-if true t (some at) = inl refl
    stamped-if false t old = inl refl
