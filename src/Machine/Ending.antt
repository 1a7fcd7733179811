-- ===== src/Machine/Ending.antt =====
-- Revisions that are gone or broken end in `deleted` or `failed` (controllers/state.go).
use picchu.Base.{ℕ, ◌≤◌, Option, none, ◌≡◌, arith, finished}
use picchu.Deployment.{State, name, Deployment, has_failed}
use picchu.Machine.{handle}
use picchu.Machine.Runs.{IsLawful}
use picchu.Machine.Progress.{IsGone, IsBroken, Quiet, Nears, ticks, ticks_reach}

module _ {W Err : Type 0} (d : Deployment W Err) (lawful : IsLawful d) (last : W → Option ℕ)
    (P : W → Type 0) (quiet : Quiet d P) where
  open quiet use {
    sync_quiet as sync, retire_quiet as retire, del_quiet as del, sync_canary_quiet as sync_canary,
    delete_canary_quiet as canary, delete_tagged_quiet as tagged,
  }

  module _ (gone : (w : W) → P w → IsGone d w) where
    rank_gone : State → ℕ
    rank_gone State.deleted = 0
    rank_gone State.deleting = 1
    rank_gone _ = 2

    handle-gone : (l : Option ℕ) (s : State) (w : W) → P w → Nears P rank_gone s (handle d l s w)
    unfolding handle rank_gone
    handle-gone l State.deleting w p =
        let c = canary w p in
        let w1 = (d.delete_canary_rules w).1 in
        let t = tagged w1 c.1 in
        let w2 = (d.delete_tagged_service_levels w1).1 in
        ground (arith, gone w p, gone w2 t.1, del w2 t.1)
    handle-gone l State.created w p = ground (arith, gone w p)
    handle-gone l _ w p = ground (arith, gone w p)

    rank_gone_zero : (s : State) → rank_gone s ≡ 0 → s ≡ State.deleted
    unfolding rank_gone
    rank_gone_zero State.created h = ground arith
    rank_gone_zero _ h = ground arith

    rank_gone-le : (s : State) → rank_gone s ≤ 2
    unfolding rank_gone
    rank_gone-le State.created = omega arith
    rank_gone-le _ = omega arith

    -- While no call fails and nothing outside changes, a revision that is gone and has no traffic
    -- is deleted within two ticks, from every state.
    pub gone_deleted :
        (s : State) (w : W)
        → P w
        → d.current_state w ≡ name s
        → (w' : W) × (ticks d last 2 w ≡ finished (none, w'))
          × (d.current_state w' ≡ name State.deleted)
    gone_deleted s w p h =
        let (w', t, eq, ht, zero_rank) =
          ticks_reach d lawful last P quiet rank_gone 2 (λ s w p _. handle-gone (last w) s w p) 2 s
            w p h (rank_gone-le s) (rank_gone-le s) in
        (w', eq, rw (← rank_gone_zero t zero_rank) ht)

  module _ (broken : (w : W) → P w → IsBroken d w) where
    rank_broken : State → ℕ
    rank_broken State.failed = 0
    rank_broken State.failing = 1
    rank_broken State.created = 3
    rank_broken State.deleting = 3
    rank_broken State.deleted = 3
    rank_broken State.testing = 3
    rank_broken _ = 2

    handle-broken :
        (l : Option ℕ) (s : State) (w : W) → P w → Nears P rank_broken s (handle d l s w)
    unfolding handle rank_broken has_failed
    handle-broken l State.failing w p =
        let c = canary w p in
        let w1 = (d.delete_canary_rules w).1 in
        let t = tagged w1 c.1 in
        let w2 = (d.delete_tagged_service_levels w1).1 in
        ground (arith, broken w p, broken w2 t.1, retire w2 t.1)
    handle-broken l State.failed w p = ground (arith, broken w p, retire w p)
    handle-broken l _ w p = ground (arith, broken w p)

    rank_broken_zero : (s : State) → rank_broken s ≡ 0 → s ≡ State.failed
    unfolding rank_broken
    rank_broken_zero State.created h = ground arith
    rank_broken_zero _ h = ground arith

    rank_broken-le : (s : State) → rank_broken s ≤ 3
    unfolding rank_broken
    rank_broken-le State.created = omega arith
    rank_broken-le _ = omega arith

    -- While no call fails and nothing outside changes, a revision that is marked as failed, has no
    -- traffic and no external test enabled is failed within three ticks, from every state.
    pub broken_failed :
        (s : State) (w : W)
        → P w
        → d.current_state w ≡ name s
        → (w' : W) × (ticks d last 3 w ≡ finished (none, w'))
          × (d.current_state w' ≡ name State.failed)
    broken_failed s w p h =
        let (w', t, eq, ht, zero_rank) =
          ticks_reach d lawful last P quiet rank_broken 3 (λ s w p _. handle-broken (last w) s w p)
            3 s w p h (rank_broken-le s) (rank_broken-le s) in
        (w', eq, rw (← rank_broken_zero t zero_rank) ht)
