-- ===== src/Machine/Revisions.antt =====
-- A tick (controllers/state.go) that leads to a live state found the revision there.
use picchu.Base.{
  ℕ, true, Option, none, some, ◌≡◌, arith, finished, finished-injective, Option-cases, inl, inr,
  refl,
}
use picchu.Deployment.{State, name, lookup_handler, Deployment}
use picchu.Machine.{handle, record_outcome, tick}
use picchu.Machine.Steps.{Outcome}
use picchu.Machine.Guards.{is_live, handle-has_revision}
use picchu.Machine.Runs.{IsLawful, Keeps, handle-keeps}

module _ {W Err : Type 0} (d : Deployment W Err) (lawful : IsLawful d)
    (keeps : Keeps d d.has_revision)
    (set_keeps : (s : State) (w : W)
      → d.has_revision (d.set_state (name s) w) ≡ d.has_revision w) where
  record_outcome-none :
      (last : Option ℕ) (o : Outcome W Err) (w' : W)
      → record_outcome d last o ≡ (none, w')
      → (o.1 ≡ none) × (w' ≡ d.set_state (name o.0) o.2)
  unfolding record_outcome
  record_outcome-none last (s, none, w) w' h = (refl, ground arith)
  record_outcome-none last (s, some e, w) w' h = absurd (ground arith)

  pub tick-has_revision :
      (last : Option ℕ) (w w' : W)
      → tick d last w ≡ finished (none, w')
      → (t : State) × (d.current_state w' ≡ name t) × (is_live t ≡ true → d.has_revision w' ≡ true)
  unfolding tick
  tick-has_revision last w w' h = elim (Option-cases (lookup_handler (d.current_state w))) [
    | inl e ↦ absurd (ground (arith, rw (e, tick) at h))
    | inr (s, e) ↦
        let o = handle d last s w in
        let (fine, made) = record_outcome-none last o w' (finished-injective (rw (e, tick) at h)) in
        (
          o.0,
          rw made (lawful.state_set (name o.0) o.2),
          λ live.
              rw (made, set_keeps o.0 o.2, handle-keeps d d.has_revision keeps last s w)
                (handle-has_revision d last s w fine live),
        )
  ]
