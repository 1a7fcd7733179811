-- ===== src/Machine/Safe.antt =====
-- When no handler of controllers/state.go meets a nil dereference.
use picchu.Base.{ℕ, true, false, Option, some, ◌≡◌, ◌≢◌, arith, Bool-cases, inl, inr}
use picchu.Deployment.{State, Deployment, has_failed}
use picchu.Machine.{handle}
use picchu.Machine.Steps.{is_panicked}

-- A call that does not meet a nil dereference, and leaves a world of the same kind.
abbrev pub IsSafeCall :
    {W Err : Type 0} → Deployment W Err → (W → Type 0) → (W → Option Err × W) → W → Type 0
IsSafeCall d P call w = ((call w).0 ≢ some d.nil_dereference) × P (call w).1

-- In the worlds of `P`, neither a call nor a query meets one; the canary rules and the expiry only
-- if the revision is there.
pub record IsSafe {W Err : Type 0} (d : Deployment W Err) (P : W → Type 0) : Type 0 where
  pub sync_safe : (w : W) → P w → IsSafeCall d P d.sync w
  pub retire_safe : (w : W) → P w → IsSafeCall d P d.retire w
  pub del_safe : (w : W) → P w → IsSafeCall d P d.del w
  pub delete_canary_safe : (w : W) → P w → IsSafeCall d P d.delete_canary_rules w
  pub delete_tagged_safe : (w : W) → P w → IsSafeCall d P d.delete_tagged_service_levels w
  pub sync_canary_safe :
      (w : W) → P w → d.has_revision w ≡ true → IsSafeCall d P d.sync_canary_rules w
  pub schedule_safe : (w : W) → P w → is_panicked (d.schedule_permits_release w) ≡ false
  pub expired_safe :
      (w : W) → P w → d.has_revision w ≡ true → is_panicked (d.is_expired (d.sync w).1) ≡ false

module _ {W Err : Type 0} (d : Deployment W Err) (P : W → Type 0) (safe : IsSafe d P)
    (last : Option ℕ) where
  canarying-safe : (w : W) → P w → (handle d last State.canarying w).1 ≢ some d.nil_dereference
  unfolding handle
  canarying-safe w p h = elim (Bool-cases (d.has_revision w)) [
    | inr gone ↦ ground (arith, h, gone)
    | inl there ↦
        let w' = (d.sync_canary_rules w).1 in
        let (a, p') = safe.sync_canary_safe w p there in
        let (b, p'') = safe.delete_tagged_safe w' p' in
        ground (arith, h, a, b, (safe.sync_safe (d.delete_tagged_service_levels w').1 p'').0)
  ]

  pub handle-safe : (s : State) (w : W) → P w → (handle d last s w).1 ≢ some d.nil_dereference
  unfolding handle has_failed
  handle-safe State.canarying w p h = canarying-safe w p h
  handle-safe State.retiring w p h =
      let (a, p') = safe.delete_tagged_safe w p in ground (arith, h, a, (safe.retire_safe _ p').0)
  handle-safe State.deleting w p h =
      let (a, p') = safe.delete_canary_safe w p in
      let (b, p'') = safe.delete_tagged_safe (d.delete_canary_rules w).1 p' in
      ground (arith, h, a, b, (safe.del_safe _ p'').0)
  handle-safe State.failing w p h =
      let (a, p') = safe.delete_canary_safe w p in
      let (b, p'') = safe.delete_tagged_safe (d.delete_canary_rules w).1 p' in
      ground (arith, h, a, b, (safe.retire_safe _ p'').0)
  handle-safe State.canaried w p h =
      let (a, p') = safe.delete_canary_safe w p in ground (arith, h, a, (safe.sync_safe _ p').0)
  handle-safe State.deployed w p h =
      ground (arith, h, (safe.sync_safe w p).0, safe.expired_safe w p)
  handle-safe State.releasing w p h =
      let (a, p') = safe.sync_safe w p in ground (arith, h, a, (safe.delete_tagged_safe _ p').0)
  handle-safe State.released w p h =
      let (a, p') = safe.sync_safe w p in ground (arith, h, a, (safe.delete_tagged_safe _ p').0)
  handle-safe State.pendingrelease w p h =
      ground (arith, h, (safe.sync_safe w p).0, safe.schedule_safe w p)
  handle-safe _ w p h = ground (arith, h, (safe.sync_safe w p).0, (safe.retire_safe w p).0)
