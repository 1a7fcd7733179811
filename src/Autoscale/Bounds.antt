-- ===== src/Autoscale/Bounds.antt =====
-- controllers/plan/scaleRevision.go: the bounds of the autoscalers that are applied.
use Prim.Native.String.{String, ◌++◌ as append}
use text.Mathlib.Text.{◌==◌ as str_eq}
use picchu.Base.{
  ℕ, ◌≤◌, Bool, true, false, Bool-cases, Option, none, some, Option-cases, List, [], ◌∷◌,
  if◌then◌else◌, any_if, ◌≡◌, refl, sym, ap, ◌∙◌, subst, ◌⊎◌, inl, inr, arith,
}
use picchu.Autoscale.{KedaWorker, ScaleRevision, Cluster, Library, hpa_name}
use picchu.Autoscale.Plan.{
  Metric, Resource, Outside, ◌or_stop◌, keda_min, keda_annotations, fixed_max,
  event_driven_disabled, parsed_factor, scaling_factor, apply_metrics, apply_hpa,
  apply_keda_trigger_auth, apply_datadog_metric, apply_keda, apply_ambient, apply_plain,
  apply_scaler, apply_with_factor, apply, keda_object, ambient_object,
}

-- An autoscaler has a minimum that is at most its maximum; where event-driven scaling is disabled, it
-- lets no pod run: it is paused at 0, or has no room, and an autoscaler of Kubernetes is not made.
pub IsSound : {V Q : Type 0} → Bool → Resource V Q → Type 0
IsSound disabled (Resource.hpa_object n lo hi ms) = (lo ≤ hi) × (disabled ≡ false)
IsSound disabled (Resource.scaled_object o) =
    (o.min_replica_count ≤ o.max_replica_count) × (o.annotations ≡ keda_annotations disabled)
IsSound disabled (Resource.wpa_object n lo hi v) = (lo ≤ hi) × ((hi ≡ 0) ⊎ (disabled ≡ false))
IsSound disabled (Resource.trigger_authentication n b) = Unit
IsSound disabled (Resource.datadog_config_map n) = Unit
IsSound disabled (Resource.datadog_metric n q) = Unit

-- The product with a factor grows with the count, and with 0.0 it is 0.
pub record ScalesUp {F : Type 0} (lib : Library F) : Type 0 where
  pub rises : (f : F) (a b : ℕ) → a ≤ b → lib.scaled a f ≤ lib.scaled b f
  pub vanishes : (a : ℕ) → lib.scaled a lib.zero_factor ≡ 0

module _ {F V Q W Err : Type 0} (api : Outside V Q W Err) (lib : Library F) (p : ScaleRevision V Q)
    (disabled : Bool) (Inv : W → Type 0)
    (kept : (r : Resource V Q) (w : W)
      → IsSound disabled r
      → Inv w
      → Inv (api.create_or_update r w).1)
    (deleted : (n : String) (w : W) → Inv w → Inv (api.delete_hpa n w).1) where
  or_stop-Inv :
      (a : Option Err × W) (f : W → Option Err × W)
      → Inv a.1
      → ((w : W) → Inv w → Inv (f w).1)
      → Inv (a or_stop f).1
  or_stop-Inv (none, w) f h k = k w h
  or_stop-Inv (some e, w) f h k = h

  apply_metrics-Inv :
      (ms : List (Metric Q)) (lo hi : ℕ) (w : W)
      → lo ≤ hi
      → disabled ≡ false
      → Inv w
      → Inv (apply_metrics api lib p ms lo hi w).1
  unfolding IsSound
  apply_metrics-Inv [] lo hi w le off h = deleted _ w h
  apply_metrics-Inv (m ∷ ms) lo hi w le off h = kept _ w (le, off) h

  keda_min-le : (lo hi : ℕ) → lo ≤ hi → keda_min disabled lo ≤ hi
  keda_min-le lo hi le = ground arith

  if-Inv : (b : Bool) (x y : Option Err × W) → Inv x.1 → Inv y.1 → Inv (if b then x else y).1
  if-Inv true x y h k = h
  if-Inv false x y h k = k

  apply_datadog_metric-Inv :
      (q : Option Q) (w : W) → Inv w → Inv (apply_datadog_metric api lib p q w).1
  unfolding IsSound
  apply_datadog_metric-Inv none w h = h
  apply_datadog_metric-Inv (some q) w h = if-Inv _ _ _ h (kept _ w tt h)

  apply_keda-Inv :
      (k : KedaWorker V) (lo hi : ℕ) (w : W)
      → lo ≤ hi
      → Inv w
      → Inv (apply_keda api lib p k lo hi disabled w).1
  unfolding IsSound
  apply_keda-Inv k lo hi w le h =
      or_stop-Inv (apply_datadog_metric api lib p p.requests_rate_target w) _
        (apply_datadog_metric-Inv p.requests_rate_target w h)
        (λ w' h'. kept (keda_object lib p k lo hi disabled) w' (keda_min-le lo hi le, refl) h')

  apply_trigger_auth-Inv :
      (k : KedaWorker V) (w : W) → Inv w → Inv (apply_keda_trigger_auth api lib p k w).1
  unfolding IsSound
  apply_trigger_auth-Inv k w h =
      if-Inv (any_if (λ t. str_eq t.type "datadog") k.triggers) _ _
        (or_stop-Inv (api.create_or_update (Resource.datadog_config_map (append "dd-cfg-" p.tag)) w)
          (api.create_or_update (Resource.trigger_authentication p.tag true))
          (kept (Resource.datadog_config_map (append "dd-cfg-" p.tag)) w tt h)
          (λ w' h'. kept (Resource.trigger_authentication p.tag true) w' tt h'))
        (kept (Resource.trigger_authentication p.tag false) w tt h)

  apply_ambient-Inv :
      (q : Q) (lo hi : ℕ) (w : W)
      → lo ≤ hi
      → Inv w
      → Inv (apply_ambient api lib p q lo hi disabled w).1
  unfolding IsSound
  apply_ambient-Inv q lo hi w le h =
      or_stop-Inv _ _ (deleted _ w h)
        (λ w' h'. kept (ambient_object lib p q lo hi disabled) w' (keda_min-le lo hi le, refl) h')

  unless_disabled-Inv :
      (lo hi : ℕ) (w : W)
      → lo ≤ hi
      → Inv w
      → Inv
          (if disabled
            then api.delete_hpa (hpa_name lib p.tag) w
            else apply_hpa api lib p lo hi w).1
  unless_disabled-Inv lo hi w le h = elim (Bool-cases disabled) [
    | inl on ↦
        subst
          (λ b.
            Inv
              (if b then api.delete_hpa (hpa_name lib p.tag) w else apply_hpa api lib p lo hi w).1)
          (sym on) (deleted _ w h)
    | inr off ↦ if-Inv disabled _ _ (deleted _ w h) (apply_metrics-Inv _ lo hi w le off h)
  ]

  apply_plain-Inv :
      (q : Option Q) (lo hi : ℕ) (w : W)
      → lo ≤ hi
      → Inv w
      → Inv (apply_plain api lib p q lo hi disabled w).1
  apply_plain-Inv none lo hi w le h = unless_disabled-Inv lo hi w le h
  apply_plain-Inv (some q) lo hi w le h =
      if-Inv _ _ _ (apply_ambient-Inv q lo hi w le h) (unless_disabled-Inv lo hi w le h)

  apply_scaler-Inv :
      (v : Option V) (k : Option (KedaWorker V)) (lo hi : ℕ) (w : W)
      → lo ≤ hi
      → (v ≡ none) ⊎ ((hi ≡ 0) ⊎ (disabled ≡ false))
      → Inv w
      → Inv (apply_scaler api lib p v k lo hi disabled w).1
  unfolding IsSound
  apply_scaler-Inv (some v) k lo hi w le (inl gone) h = absurd (ground arith)
  apply_scaler-Inv (some v) k lo hi w le (inr room) h = kept _ w (le, room) h
  apply_scaler-Inv none (some k) lo hi w le room h =
      or_stop-Inv (apply_keda_trigger_auth api lib p k w) _ (apply_trigger_auth-Inv k w h)
        (λ w' h'. apply_keda-Inv k lo hi w' le h')
  apply_scaler-Inv none none lo hi w le room h = apply_plain-Inv p.requests_rate_target lo hi w le h

module _ {F V Q W Err : Type 0} (api : Outside V Q W Err) (lib : Library F)
    (p : ScaleRevision V Q) where
  -- What a worker gets where event-driven scaling is disabled.
  worker_room :
      (cluster : Cluster) (f : F)
      → ScalesUp lib
      → (p.worker ≡ none)
        ⊎ ((lib.scaled (fixed_max lib p) (scaling_factor lib p cluster f) ≡ 0)
            ⊎ (event_driven_disabled lib p cluster ≡ false))
  worker_room cluster f scales = elim (Option-cases p.worker) [
    | inl gone ↦ inl gone
    | inr (v, there) ↦ elim (Bool-cases (event_driven_disabled lib p cluster)) [
      | inr off ↦ inr (inr off)
      | inl on ↦ inr (
          inl (
            ap (lib.scaled (fixed_max lib p)) (ground (arith, on, there))
            ∙ scales.vanishes (fixed_max lib p)))
    ]
  ]

  apply_with_factor-Inv :
      (cluster : Cluster) (factor : Option F) (Inv : W → Type 0) (w : W)
      → ScalesUp lib
      → ((r : Resource V Q) (w : W)
          → IsSound (event_driven_disabled lib p cluster) r
          → Inv w
          → Inv (api.create_or_update r w).1)
      → ((n : String) (w : W) → Inv w → Inv (api.delete_hpa n w).1)
      → Inv w
      → Inv (apply_with_factor api lib p cluster factor w).1
  apply_with_factor-Inv cluster none Inv w scales kept deleted h = h
  apply_with_factor-Inv cluster (some f) Inv w scales kept deleted h =
      apply_scaler-Inv api lib p (event_driven_disabled lib p cluster) Inv kept deleted p.worker
        p.keda_worker _ _ w
        (scales.rises (scaling_factor lib p cluster f) p.min (fixed_max lib p) (ground arith))
        (worker_room cluster f scales) h

  -- Where scaling by a factor grows with the count and 0.0 gives 0, whatever holds of a cluster
  -- and is kept by deletions and by sound objects is kept by `ScaleRevision.Apply`: each
  -- autoscaler that it applies has a minimum that is at most its maximum, and where event-driven
  -- scaling is disabled each is paused or has no room, and no HorizontalPodAutoscaler is applied.
  pub apply-IsSound :
      (cluster : Cluster) (Inv : W → Type 0) (w : W)
      → ScalesUp lib
      → ((r : Resource V Q) (w : W)
          → IsSound (event_driven_disabled lib p cluster) r
          → Inv w
          → Inv (api.create_or_update r w).1)
      → ((n : String) (w : W) → Inv w → Inv (api.delete_hpa n w).1)
      → Inv w
      → Inv (apply api lib p cluster w).1
  unfolding apply
  apply-IsSound cluster Inv w scales kept deleted h =
      apply_with_factor-Inv cluster (parsed_factor lib p cluster) Inv w scales kept deleted h
