-- ===== src/Machine/Runs.antt =====
-- Runs of `tick` (controllers/state.go) in a changing environment.
use Prim.Native.String.{String}
use picchu.Base.{
  ◌⊎◌, inl, inr, Option-cases, ℕ, Bool, true, false, Option, none, some, ◌≡◌, ◌≢◌, arith, refl, sym,
  ◌∙◌, finished,
}
use picchu.Deployment.{State, name, lookup_handler, Deployment}
use picchu.Machine.{handle, record_outcome, tick}
use picchu.Machine.Steps.{Outcome}
use picchu.Machine.Graph.{permits, handle-permits}

-- A state is found again under its name.
pub lookup_handler-name : (s : State) → lookup_handler (name s) ≡ some s
unfolding lookup_handler name
lookup_handler-name State.created = refl
lookup_handler-name _ = refl

-- The calls of a deployment keep what `f` reads of the world.
pub record Keeps {W Err A : Type 0} (d : Deployment W Err) (f : W → A) : Type 0 where
  pub sync_keeps : (w : W) → f (d.sync w).1 ≡ f w
  pub retire_keeps : (w : W) → f (d.retire w).1 ≡ f w
  pub del_keeps : (w : W) → f (d.del w).1 ≡ f w
  pub sync_canary_keeps : (w : W) → f (d.sync_canary_rules w).1 ≡ f w
  pub delete_canary_keeps : (w : W) → f (d.delete_canary_rules w).1 ≡ f w
  pub delete_tagged_keeps : (w : W) → f (d.delete_tagged_service_levels w).1 ≡ f w

-- The state in the status is written by `set_state` alone.
pub record IsLawful {W Err : Type 0} (d : Deployment W Err) : Type 0 where
  pub state_set : (s : String) (w : W) → d.current_state (d.set_state s w) ≡ s
  pub calls_keep : Keeps d d.current_state

module _ {W Err A : Type 0} (d : Deployment W Err) (f : W → A) (keeps : Keeps d f) where
  open keeps use {delete_tagged_keeps as tagged, delete_canary_keeps as canary}

  pub handle-keeps : (last : Option ℕ) (s : State) (w : W) → f (handle d last s w).2 ≡ f w
  unfolding handle
  handle-keeps last State.retiring w =
      let w' = (d.delete_tagged_service_levels w).1 in
      ground (arith, tagged w, keeps.retire_keeps w')
  handle-keeps last State.deleting w =
      let w' = (d.delete_canary_rules w).1 in
      let w'' = (d.delete_tagged_service_levels w').1 in
      ground (arith, canary w, tagged w', keeps.del_keeps w'')
  handle-keeps last State.failing w =
      let w' = (d.delete_canary_rules w).1 in
      let w'' = (d.delete_tagged_service_levels w').1 in
      ground (arith, canary w, tagged w', keeps.retire_keeps w'')
  handle-keeps last State.canarying w =
      let w' = (d.sync_canary_rules w).1 in
      let w'' = (d.delete_tagged_service_levels w').1 in
      ground (arith, keeps.sync_canary_keeps w, tagged w', keeps.sync_keeps w'')
  handle-keeps last State.canaried w =
      ground (arith, canary w, keeps.sync_keeps (d.delete_canary_rules w).1)
  handle-keeps last _ w =
      ground (arith, keeps.sync_keeps w, tagged (d.sync w).1, keeps.retire_keeps w)

module _ {W Err : Type 0} (d : Deployment W Err) (lawful : IsLawful d) where
  pub tick-handle :
      (last : Option ℕ) (s : State) (w : W)
      → d.current_state w ≡ name s
      → tick d last w ≡ finished (record_outcome d last (handle d last s w))
  unfolding tick
  tick-handle last s w h = rw (h, lookup_handler-name s, tick)

  record_outcome_lem :
      (last : Option ℕ) (s : State) (o : Outcome W Err)
      → d.current_state o.2 ≡ name s
      → (o.1 ≡ none → permits s o.0 ≡ true)
      → (t : State) × (d.current_state (record_outcome d last o).1 ≡ name t)
        × ((record_outcome d last o).0 ≡ none → permits s t ≡ true)
        × ((record_outcome d last o).0 ≢ none → t ≡ s)
  unfolding record_outcome
  record_outcome_lem last s (t, none, w) kept follows =
      (t, lawful.state_set (name t) w, follows, λ n. absurd (n refl))
  record_outcome_lem last s (t, some e, w) kept follows = (s, kept, λ n. cc, λ n. refl)

  tick-outcome :
      (last : Option ℕ) (s : State) (w : W)
      → d.current_state w ≡ name s
      → (e : Option Err) × (w' : W) × (t : State) × (tick d last w ≡ finished (e, w'))
        × (d.current_state w' ≡ name t)
        × (e ≡ none → permits s t ≡ true)
        × (e ≢ none → t ≡ s)
  tick-outcome last s w h =
      let o = handle d last s w in
      let (t, kept, follows, stays) =
        record_outcome_lem last s o (handle-keeps d d.current_state lawful.calls_keep last s w ∙ h)
          (handle-permits d last s w) in
      (
        (record_outcome d last o).0,
        (record_outcome d last o).1,
        t,
        tick-handle last s w h,
        kept,
        follows,
        stays,
      )

  -- A tick in a state that has a handler returns: without an error the recorded state becomes one
  -- that the diagram permits, and with an error, which a nil dereference in a method is as well,
  -- it stays what it was.
  pub tick_lem :
      (last : Option ℕ) (s : State) (w : W)
      → d.current_state w ≡ name s
      → (e : Option Err) × (w' : W) × (t : State) × (tick d last w ≡ finished (e, w'))
        × (d.current_state w' ≡ name t)
        × (((e ≡ none) × (permits s t ≡ true)) ⊎ ((e ≢ none) × (t ≡ s)))
  tick_lem last s w h =
      let (e, w', t, ticked, kept, follows, stays) = tick-outcome last s w h in
      (
        e,
        w',
        t,
        ticked,
        kept,
        elim (Option-cases e) [
          | inl fine ↦ inl (fine, follows fine)
          | inr (err, failed) ↦
              let bad : e ≢ none = λ q. ground (arith, failed, q) in inr (bad, stays bad)
        ],
      )

-- The states of a revision that was never released: none of them is behind `pendingrelease`.
abbrev before_release : State → Bool
before_release State.pendingrelease = false
before_release State.releasing = false
before_release State.released = false
before_release _ = true

before_release-permits :
    (s t : State)
    → permits s t ≡ true
    → before_release s ≡ true
    → t ≢ State.pendingrelease
    → before_release t ≡ true
before_release-permits State.created t p b n = ground arith
before_release-permits _ t p b n = ground arith

name-injective : (s t : State) → name s ≡ name t → s ≡ t
name-injective s t h = cc (lookup_handler-name s, lookup_handler-name t)

module _ {W Err : Type 0} (d : Deployment W Err) where
  -- Ticks and changes from outside, in any order. An outside change leaves the recorded state
  -- alone, and no tick enters the state `avoided`.
  pub data Run (avoided : State) (start : W) : W → Type 0 where
    here : Run avoided start start
    ticked :
        {w w' : W} (last : Option ℕ) (e : Option Err)
        → Run avoided start w
        → tick d last w ≡ finished (e, w')
        → d.current_state w' ≢ name avoided
        → Run avoided start w'
    environment :
        {w w' : W}
        → Run avoided start w
        → d.current_state w' ≡ d.current_state w
        → Run avoided start w'

module _ {W Err : Type 0} (d : Deployment W Err) (lawful : IsLawful d) where
  tick-before_release :
      {w w' : W} (last : Option ℕ) (e : Option Err) (s : State)
      → d.current_state w ≡ name s
      → before_release s ≡ true
      → tick d last w ≡ finished (e, w')
      → d.current_state w' ≢ name State.pendingrelease
      → (t : State) × (d.current_state w' ≡ name t) × (before_release t ≡ true)
  tick-before_release {w} {w'} last none s h b moved avoids =
      let (e2, w2, t, eq, kept, follows, stays) = tick-outcome d lawful last s w h in
      let kept' : d.current_state w' ≡ name t = cc in
      (t, kept', before_release-permits s t (follows (cc)) b (λ q. avoids (rw (← q) kept')))
  tick-before_release {w} {w'} last (some e) s h b moved avoids =
      let (e2, w2, t, eq, kept, follows, stays) = tick-outcome d lawful last s w h in
      let failed : e2 ≡ some e = cc in (t, cc, rw (stays (λ q. cc)) b)

  -- A run that never enters `pendingrelease` stays among the states before a release.
  Run-before_release :
      {start w : W} (s : State)
      → d.current_state start ≡ name s
      → before_release s ≡ true
      → Run d State.pendingrelease start w
      → (t : State) × (d.current_state w ≡ name t) × (before_release t ≡ true)
  Run-before_release s h b here = (s, h, b)
  Run-before_release s h b (ticked last e run moved avoids) =
      let (t, ht, bt) = Run-before_release s h b run in
      tick-before_release last e t ht bt moved avoids
  Run-before_release s h b (environment run same) =
      let (t, ht, bt) = Run-before_release s h b run in (t, same ∙ ht, bt)

  -- A run of ticks and of outside changes that leave the recorded state alone, from `created` and
  -- without entering `pendingrelease`, reaches neither `releasing` nor `released`.
  pub release_gate :
      {start w : W}
      → d.current_state start ≡ name State.created
      → Run d State.pendingrelease start w
      → (d.current_state w ≢ name State.releasing) × (d.current_state w ≢ name State.released)
  release_gate h run =
      let (t, ht, bt) = Run-before_release State.created h refl run in
      (
        λ e. ground (arith, name-injective t State.releasing (sym ht ∙ e)),
        λ e. ground (arith, name-injective t State.released (sym ht ∙ e)),
      )
