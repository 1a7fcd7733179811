-- ===== src/Machine/Release.antt =====
-- A revision that may be released ends in `released` (controllers/state.go).
use picchu.Base.{ℕ, ◌≤◌, false, Option, none, ◌≡◌, arith, finished}
use picchu.Deployment.{State, name, created_timeout, Deployment, has_failed}
use picchu.Machine.{handle}
use picchu.Machine.Steps.{timed_out}
use picchu.Machine.Runs.{IsLawful}
use picchu.Machine.Progress.{IsReady, Quiet, Nears, ticks, ticks_reach}

module _ {W Err : Type 0} (d : Deployment W Err) (lawful : IsLawful d) (last : W → Option ℕ)
    (P : W → Type 0) (quiet : Quiet d P) where
  open quiet use {
    sync_quiet as sync, retire_quiet as retire, del_quiet as del, sync_canary_quiet as sync_canary,
    delete_canary_quiet as canary, delete_tagged_quiet as tagged,
  }

  module _ (ready : (w : W) → P w → IsReady d w)
      (in_time : (w : W) → P w → timed_out (last w) created_timeout (d.now w) ≡ false) where
    rank_ready : State → ℕ
    rank_ready State.released = 0
    rank_ready State.releasing = 1
    rank_ready State.pendingrelease = 2
    rank_ready State.deployed = 3
    rank_ready State.canaried = 3
    rank_ready State.canarying = 4
    rank_ready State.deploying = 4
    rank_ready State.created = 5
    rank_ready State.retired = 5
    rank_ready State.failed = 5
    rank_ready State.deleted = 5
    rank_ready _ = 6

    handle-ready :
        (s : State) (w : W) → P w → rank_ready s ≤ 5 → Nears P rank_ready s (handle d (last w) s w)
    unfolding handle rank_ready has_failed
    handle-ready State.canarying w p b =
        let c = sync_canary w p in
        let w1 = (d.sync_canary_rules w).1 in
        let t = tagged w1 c.1 in
        let w2 = (d.delete_tagged_service_levels w1).1 in
        ground (arith, ready w p, sync w2 t.1, ready (d.sync w2).1 (sync w2 t.1).1)
    handle-ready State.canaried w p b =
        let c = canary w p in
        let w1 = (d.delete_canary_rules w).1 in
        ground (arith, ready w p, sync w1 c.1, ready (d.sync w1).1 (sync w1 c.1).1)
    handle-ready State.releasing w p b =
        let c = sync w p in
        let w1 = (d.sync w).1 in
        let t = tagged w1 c.1 in
        ground (arith, ready w p, ready (d.delete_tagged_service_levels w1).1 t.1)
    handle-ready State.released w p b =
        let c = sync w p in
        let w1 = (d.sync w).1 in
        let t = tagged w1 c.1 in
        ground (arith, ready w p, ready (d.delete_tagged_service_levels w1).1 t.1)
    handle-ready _ w p b =
        let c = sync w p in ground (arith, ready w p, in_time w p, ready (d.sync w).1 c.1)

    rank_ready_zero : (s : State) → rank_ready s ≡ 0 → s ≡ State.released
    unfolding rank_ready
    rank_ready_zero State.created h = ground arith
    rank_ready_zero _ h = ground arith

    -- While no call fails and nothing outside changes, a revision that may be released, without
    -- test or canary, and whose `created` state has not timed out, is released within five ticks
    -- of `created`.
    pub ready_released :
        (w : W)
        → P w
        → d.current_state w ≡ name State.created
        → (w' : W) × (ticks d last 5 w ≡ finished (none, w'))
          × (d.current_state w' ≡ name State.released)
    unfolding rank_ready
    ready_released w p h =
        let (w', t, eq, ht, zero_rank) =
          ticks_reach d lawful last P quiet rank_ready 5 handle-ready 5 State.created w p h
            (omega arith) (omega arith) in
        (w', eq, rw (← rank_ready_zero t zero_rank) ht)
