-- ===== src/Sync/Safe.antt =====
-- Ticks of incarnations (controllers/incarnation.go, controllers/syncer.go) whose revision has the
-- target: none of the dereferences in their methods meets nil.
use text.Mathlib.Text.{◌==◌ as str_eq}
use picchu.Base.{
  ◌⊎◌, inl, inr, ℕ, true, false, Option, none, some, ◌≡◌, ◌≢◌, refl, sym, ◌∙◌, subst,
  finished-injective, arith, ap, Panics, finished, ◌>>=◌, deref, Option-cases, Bool-cases,
}
use picchu.Deployment.{State, name, Deployment}
use picchu.Api.{RevisionTarget}
use picchu.Machine.{handle, record_outcome, tick}
use picchu.Machine.Graph.{permits}
use picchu.Machine.Runs.{tick-handle, tick_lem}
use picchu.Machine.Steps.{is_panicked}
use picchu.Machine.Steps.{Outcome}
use picchu.Machine.Safe.{IsSafe, handle-safe}
use picchu.Incarnation.{Incarnation, Controller, has_revision, target}
use picchu.Incarnation.ScalePlan.{scale_bounds}
use picchu.Incarnation.Deployments.{
  Outside, Settings, World, Stop, returned, nil_dereference, incarnation_deployment, apply_plan,
  or_return, sync_target, sync, apply_canary_rules, delete_tagged, schedule_permits_release,
  is_expired,
}
use picchu.Incarnation.Deployments.Lawful.{
  incarnation_deployment-Keeps, incarnation_deployment-IsLawful,
}
use picchu.Sync.{tick_incarnation, stopped}

-- If the revision is there it has the target, with a least number of replicas.
abbrev pub IsTargeted : {F : Type 0} → Controller F → Incarnation → Type 0
IsTargeted c i =
    has_revision i ≡ true
    → (t : RevisionTarget) × (low : ℕ) × (target c i ≡ some t) × (t.scale.min ≡ some low)

abbrev Fine : {C Err : Type 0} → Option (Stop Err) × World C → Type 0
Fine r = r.0 ≢ some nil_dereference

module _ {C Err F : Type 0} (outside : Outside C Err) (c : Controller F) (settings : Settings) where
  apply_plan-Fine : (p : _) (w : World C) → Fine (apply_plan outside p w)
  unfolding apply_plan
  apply_plan-Fine p w h = elim (Option-cases (outside.apply p w.cluster).0) [
    | inl e ↦ ground (arith, rw e at h)
    | inr (x, e) ↦ ground (arith, rw e at h)
  ]

  or_return-Fine :
      (err : Option Err) (rest : Option (Stop Err) × World C) (w : World C)
      → Fine rest
      → Fine (or_return outside err rest w)
  or_return-Fine none rest w fine h = fine h
  or_return-Fine (some e) rest w fine h = ground (arith, h)

  deref-some :
      {A B : Type 0} (o : Option A) (f : A → Panics B) (a : A) → o ≡ some a → (deref o >>= f) ≡ f a
  deref-some o f a e = rw e refl

  scale_bounds-finished :
      (i : Incarnation)
      → IsTargeted c i
      → has_revision i ≡ true
      → (b : ℕ × ℕ) × (scale_bounds c i ≡ finished b)
  unfolding scale_bounds
  scale_bounds-finished i targeted there =
      let (t, low, found, least) = targeted there in
      (_, deref-some (target c i) _ t found ∙ deref-some t.scale.min _ low least)

  sync_target-Fine :
      (t : RevisionTarget) (w : World C)
      → IsTargeted c w.incarnation
      → has_revision w.incarnation ≡ true
      → Fine (sync_target outside c settings t w)
  unfolding sync_target
  sync_target-Fine t w targeted there =
      let (b, bounds) = scale_bounds-finished w.incarnation targeted there in
      or_return-Fine (outside.list_options t) _ w (
        or_return-Fine (outside.get_secrets w.cluster) _ w (
          or_return-Fine (outside.get_external_secrets w.cluster) _ w (
            or_return-Fine (outside.get_config_maps w.cluster) _ w
              (rw bounds (apply_plan-Fine _ w)))))

  sync-Fine : (w : World C) → IsTargeted c w.incarnation → Fine (sync outside c settings w)
  unfolding sync
  sync-Fine w targeted = elim (Bool-cases (has_revision w.incarnation)) [
    | inr gone ↦ λ h. ground (arith, rw gone at h)
    | inl there ↦ elim (Option-cases (target c w.incarnation)) [
      | inl lost ↦ λ h. ground (arith, rw (there, lost) at h)
      | inr (t, found) ↦ rw (there, found) (sync_target-Fine t w targeted there)
    ]
  ]

  apply_canary_rules-Fine :
      (w : World C)
      → IsTargeted c w.incarnation
      → has_revision w.incarnation ≡ true
      → Fine (apply_canary_rules outside c settings w)
  unfolding apply_canary_rules
  apply_canary_rules-Fine w targeted there =
      let (t, low, found, least) = targeted there in rw found (apply_plan-Fine _ w)

  delete_tagged-Fine : (w : World C) → Fine (delete_tagged outside c settings w)
  unfolding delete_tagged
  delete_tagged-Fine w = elim (Bool-cases (str_eq settings.service_levels_namespace "")) [
    | inl e ↦ λ h. ground (arith, rw e at h)
    | inr e ↦ rw e (apply_plan-Fine _ w)
  ]

  schedule_safe :
      (now : ℕ) (i : Incarnation)
      → IsTargeted c i
      → is_panicked (schedule_permits_release c settings now i) ≡ false
  unfolding schedule_permits_release
  schedule_safe now i targeted = elim (Option-cases i.revision) [
    | inl gone ↦ rw gone refl
    | inr (r, there) ↦
        let (t, low, found, least) = targeted (rw there refl) in ground (arith, there, found)
  ]

  expired_safe :
      (now : ℕ) (i : Incarnation)
      → has_revision i ≡ true
      → is_panicked (is_expired c settings now i) ≡ false
  unfolding is_expired
  expired_safe now i h = elim (Option-cases i.revision) [
    | inl gone ↦ ground (arith, h, gone)
    | inr (r, there) ↦ rw there refl
  ]

  abbrev d : Deployment (World C) (Stop Err)
  d = incarnation_deployment outside c settings

  Is-IsSafe : (i : Incarnation) → IsTargeted c i → IsSafe d (λ w. w.incarnation ≡ i)
  unfolding incarnation_deployment
  Is-IsSafe i targeted =
      let at : (w : World C) → w.incarnation ≡ i → IsTargeted c w.incarnation =
        λ w p. subst (IsTargeted c) (sym p) targeted in
      let keeps = incarnation_deployment-Keeps outside c settings (λ j. j) in
      record {
        sync_safe = λ w p. (sync-Fine w (at w p), keeps.sync_keeps w ∙ p);
        retire_safe = λ w p. (apply_plan-Fine _ w, keeps.retire_keeps w ∙ p);
        del_safe = λ w p. (apply_plan-Fine _ w, keeps.del_keeps w ∙ p);
        delete_canary_safe = λ w p. (apply_plan-Fine _ w, keeps.delete_canary_keeps w ∙ p);
        delete_tagged_safe = λ w p. (delete_tagged-Fine w, keeps.delete_tagged_keeps w ∙ p);
        sync_canary_safe =
            λ w p there. (apply_canary_rules-Fine w (at w p) there, keeps.sync_canary_keeps w ∙ p);
        schedule_safe = λ w p. schedule_safe w.clock w.incarnation (at w p);
        expired_safe = λ w p there.
            expired_safe (d.sync w).1.clock (d.sync w).1.incarnation
              (ap has_revision (keeps.sync_keeps w) ∙ there);
      }

-- The error that `tick` returns is that of the handler.
record_outcome-error :
    {W Err : Type 0} (d : Deployment W Err) (last : Option ℕ) (o : Outcome W Err)
    → (record_outcome d last o).0 ≡ o.1
unfolding record_outcome
record_outcome-error d last (s, none, w) = refl
record_outcome-error d last (s, some e, w) = refl

-- A tick from the state `s` returned: without an error in a state that follows `s`, and with one
-- in `s`.
abbrev pub Moves : {C Err : Type 0} → State → Panics (Option Err × World C) → Type 0
Moves {C} {Err} s tick =
    (e : Option Err) × (w : World C) × (t : State) × (tick ≡ finished (e, w))
    × (w.incarnation.status.state.current ≡ name t)
    × (((e ≡ none) × (permits s t ≡ true)) ⊎ ((e ≢ none) × (t ≡ s)))

stopped-Moves :
    {C Err : Type 0} (s t : State) (stop : Option (Stop Err)) (w : World C)
    → stop ≢ some nil_dereference
    → w.incarnation.status.state.current ≡ name t
    → ((stop ≡ none) × (permits s t ≡ true)) ⊎ ((stop ≢ none) × (t ≡ s))
    → Moves s (stopped stop w)
stopped-Moves s t none w fine named (inl (p, q)) = (none, w, t, refl, named, inl (refl, q))
stopped-Moves s t none w fine named (inr (n, q)) = absurd (n refl)
stopped-Moves s t (some (returned e)) w fine named (inl (p, q)) = absurd (ground (arith, p))
stopped-Moves s t (some (returned e)) w fine named (inr (n, q)) =
    (some e, w, t, refl, named, inr (λ p. ground (arith, p), q))
stopped-Moves s t (some nil_dereference) w fine named result = absurd (fine refl)

module _ {C Err F : Type 0} (outside : Outside C Err) (c : Controller F) (settings : Settings)
    (clock : Incarnation → ℕ) where
  -- A tick of an incarnation whose recorded state has a handler, and whose revision, if it is
  -- there, has the target with a least number of replicas, does not panic; without an error the
  -- recorded state becomes one that the diagram permits, and with an error it stays what it was.
  pub tick_incarnation_total :
      (s : State) (i : Incarnation) (cluster : C)
      → i.status.state.current ≡ name s
      → IsTargeted c i
      → (e : Option Err) × (w : World C) × (t : State) × (tick_incarnation outside c settings clock
            i cluster
          ≡ finished (e, w))
        × (w.incarnation.status.state.current ≡ name t)
        × (((e ≡ none) × (permits s t ≡ true)) ⊎ ((e ≢ none) × (t ≡ s)))
  unfolding tick_incarnation incarnation_deployment
  tick_incarnation_total s i cluster named targeted =
      let d = incarnation_deployment outside c settings in
      let lawful = incarnation_deployment-IsLawful outside c settings in
      let start : World C = record { incarnation = i; clock = clock i; cluster = cluster } in
      let last = i.status.state.last_updated in
      let (stop, w, t, ticked, kept, result) = tick_lem d lawful last s start named in
      let same = finished-injective (sym ticked ∙ tick-handle d lawful last s start named) in
      let error : stop ≡ (handle d last s start).1 =
        ap (λ r. r.0) same ∙ record_outcome-error d last (handle d last s start) in
      let safe = handle-safe d _ (Is-IsSafe outside c settings i targeted) last s start refl in
      subst (Moves s) (sym (ap (λ m. m >>= λ (e, v). stopped e v) ticked))
        (stopped-Moves s t stop w (λ h. safe (sym error ∙ h)) kept result)
