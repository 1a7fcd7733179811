-- ===== src/Machine/Progress.antt =====
-- Where repeated ticks (controllers/state.go) lead while nothing outside changes and no call fails.
use picchu.Base.{
  ℕ, zero, suc, ◌-◌, ◌≤◌, true, false, Option, none, some, ◌≡◌, arith, refl, Panics, panicked,
  finished,
}
use picchu.Deployment.{State, name, test_enabled, ExternalTestStatus, Deployment}
use picchu.Machine.{handle, record_outcome, tick}
use picchu.Machine.Steps.{Outcome}
use picchu.Machine.Runs.{IsLawful, tick-handle}

-- A call that succeeds, and leaves a world of the same kind.
abbrev pub Succeeds : {W Err : Type 0} → (W → Type 0) → (W → Option Err × W) → Type 0
Succeeds {W} P call = (w : W) → P w → ((call w).0 ≡ none) × P (call w).1

-- In the worlds of `P` no call fails, and no call leaves them.
pub record Quiet {W Err : Type 0} (d : Deployment W Err) (P : W → Type 0) : Type 0 where
  pub sync_quiet : Succeeds P d.sync
  pub retire_quiet : Succeeds P d.retire
  pub del_quiet : Succeeds P d.del
  pub sync_canary_quiet : Succeeds P d.sync_canary_rules
  pub delete_canary_quiet : Succeeds P d.delete_canary_rules
  pub delete_tagged_quiet : Succeeds P d.delete_tagged_service_levels
  pub set_state_quiet : (s : State) (w : W) → P w → P (d.set_state (name s) w)

-- The revision is gone and has no traffic.
pub record IsGone {W Err : Type 0} (d : Deployment W Err) (w : W) : Type 0 where
  pub no_revision : d.has_revision w ≡ false
  pub no_traffic : d.current_percent w ≡ 0

-- The revision is marked as failed, has no traffic, and no external test is under way.
pub record IsBroken {W Err : Type 0} (d : Deployment W Err) (w : W) : Type 0 where
  pub revision : d.has_revision w ≡ true
  pub marked : d.marked_as_failed w ≡ true
  pub no_traffic : d.current_percent w ≡ 0
  pub no_test : test_enabled (d.external_test_status w) ≡ false

-- The revision may be released: it is deployed and eligible, without test or canary.
pub record IsReady {W Err : Type 0} (d : Deployment W Err) (w : W) : Type 0 where
  pub revision : d.has_revision w ≡ true
  pub unmarked : d.marked_as_failed w ≡ false
  pub deployed : d.is_deployed w ≡ true
  pub eligible : d.is_release_eligible w ≡ true
  pub permitted : d.schedule_permits_release w ≡ finished true
  pub no_test : d.external_test_status w ≡ ExternalTestStatus.disabled
  pub no_canary : d.is_canary_pending w ≡ false
  pub peaked : 100 ≤ d.peak_percent w

-- One tick: without an error it leads to a state of lower rank, as long as that is not 0.
abbrev pub Nears : {W Err : Type 0} → (W → Type 0) → (State → ℕ) → State → Outcome W Err → Type 0
Nears P rank s o = (o.1 ≡ none) × P o.2 × (rank o.0 ≤ rank s - 1)

-- `n` ticks, which stop at a panic or at an error.
pub ticks : {W Err : Type 0} → Deployment W Err → (W → Option ℕ) → ℕ → W → Panics (Option Err × W)
ticks d last zero w = finished (none, w)
ticks d last (suc n) w = elim (tick d (last w) w) [
  | panicked ↦ panicked
  | finished (none, w') ↦ ticks d last n w'
  | finished (some e, w') ↦ finished (some e, w')
]

module _ {W Err : Type 0} (d : Deployment W Err) (lawful : IsLawful d) (last : W → Option ℕ)
    (P : W → Type 0) (quiet : Quiet d P) where
  tick_fine :
      (s : State) (w : W)
      → d.current_state w ≡ name s
      → (handle d (last w) s w).1 ≡ none
      → let o = handle d (last w) s w in
        tick d (last w) w ≡ finished (none, d.set_state (name o.0) o.2)
  unfolding record_outcome
  tick_fine s w h fine = ground (arith, tick-handle d lawful (last w) s w h)

  pub ticks_reach :
      (rank : State → ℕ) (bound : ℕ)
      → ((s : State) (w : W) → P w → rank s ≤ bound → Nears P rank s (handle d (last w) s w))
      → (n : ℕ) (s : State) (w : W) → P w
      → d.current_state w ≡ name s
      → rank s ≤ bound
      → rank s ≤ n
      → (w' : W) × (t : State) × (ticks d last n w ≡ finished (none, w'))
        × (d.current_state w' ≡ name t)
        × (rank t ≡ 0)
  unfolding ticks
  ticks_reach rank bound near zero s w p h b r = (w, s, refl, h, omega arith)
  ticks_reach rank bound near (suc n) s w p h b r =
      let o = handle d (last w) s w in
      let (fine, p', lower) = near s w p b in
      rw (tick_fine s w h fine, ticks)
        (ticks_reach rank bound near n o.0 (d.set_state (name o.0) o.2)
          (quiet.set_state_quiet o.0 o.2 p') (lawful.state_set (name o.0) o.2) (omega arith)
          (omega arith))
