-- ===== src/Pods/Applied.antt =====
-- controllers/plan/syncRevision.go: what a plan that succeeds leaves in the cluster.
use Prim.Native.String.{String}
use text.Mathlib.Text.{◌==◌ as str_eq}
use picchu.Base.{
  Bool, true, false, Option, none, some, some-injective, List, map, ◌++◌, Panics, panicked,
  finished, finished-injective, ◌>>=◌, ◌≡◌, refl, sym, ap, ◌∙◌, subst, ◌⊎◌, inl, inr, arith,
  Bool-cases, if◌then◌else◌,
}
use picchu.Objects.{lookup, insert, Object, Kind, is_ignored}
use picchu.Objects.Kinds.{unless_ignored, replica_set_case}
use picchu.Objects.ReplicaSets.{sync_replica_set, is_worker, annotation_autoscaler}
use picchu.Objects.Store.{IsClient, create_or_update, or_start, case_of}
use picchu.Objects.Running.{sync_replica_set-replicas}
use picchu.Objects.Settled.{create_or_update-applied}
use picchu.Autoscale.{Cluster}
use picchu.Autoscale
use picchu.Retire.{◌and_next◌}
use picchu.Pods.{EnvSource, Content, SyncRevision, Library}
use picchu.Pods.Template.{replica_set, autoscaler_type, replica_set_annotations}
use picchu.Pods.Plan.{
  Outside, sources, secret_source, parsed, effective, sync_scaled, sync_all, apply,
  write_replica_set,
}

module _ {C Err : Type 0} where
  then-eq-finished :
      (m : Panics (Option Err × C)) (f : C → Panics (Option Err × C)) (c' : C)
      → (m >>= λ o. o and_next f) ≡ finished (none, c')
      → (c : C) × (f c ≡ finished (none, c'))
  then-eq-finished panicked f c' h = absurd (ground arith)
  then-eq-finished (finished (none, c)) f c' h = (c, h)
  then-eq-finished (finished (some e, c)) f c' h =
      absurd (ground (arith, ap (λ x. x.0) (finished-injective h)))

module _ {X F C Err : Type 0} (lib : Library X) (floats : Autoscale.Library F)
    (api : Outside X C Err) (blank : Object (Content X)) (p : SyncRevision X) where
  -- The ReplicaSet that is handed to `CreateOrUpdate` last.
  abbrev pub wanted : Cluster → List EnvSource → F → Object (Content X)
  wanted cluster envs f =
      replica_set lib p blank
        (envs ++ map (secret_source lib floats api blank p) p.external_secrets)
        (floats.scaled p.replicas (effective lib floats api blank p cluster f))

  sync_scaled-writes :
      (cluster : Cluster) (envs : List EnvSource) (o : Option F) (c c' : C)
      → sync_scaled lib floats api blank p cluster envs o c ≡ finished (none, c')
      → (f : F) × (o ≡ some f)
        × (write_replica_set lib floats api blank p envs
              (effective lib floats api blank p cluster f)
              c
            ≡ finished (none, c'))
  sync_scaled-writes cluster envs none c c' h =
      absurd (ground (arith, ap (λ x. x.0) (finished-injective h)))
  sync_scaled-writes cluster envs (some f) c c' h = (f, refl, h)

  Written : Cluster → Option (List EnvSource) → C → Type 0
  Written cluster m c' =
      (envs : List EnvSource) × (f : F) × (c : C) × (m ≡ some envs)
      × (parsed lib floats api blank p cluster ≡ some f)
      × (create_or_update api.client blank Kind.replica_set (wanted cluster envs f) c
          ≡ finished (none, c'))

  sync_all-writes :
      (cluster : Cluster) (m : Option (List EnvSource)) (c c' : C)
      → sync_all lib floats api blank p cluster m c ≡ finished (none, c')
      → Written cluster m c'
  unfolding Written
  sync_all-writes cluster none c c' h =
      absurd (ground (arith, ap (λ x. x.0) (finished-injective h)))
  sync_all-writes cluster (some envs) c c' h =
      let all = envs ++ map (secret_source lib floats api blank p) p.external_secrets in
      let factor = parsed lib floats api blank p cluster in
      let (c1, last) =
        then-eq-finished _ (sync_scaled lib floats api blank p cluster all factor) c' h in
      let (f, known, done) = sync_scaled-writes cluster all factor c1 c' last in
      (envs, f, c1, refl, known, done)

  -- A ReplicaSet at the plan's name before and after, by its own case of `CreateOrUpdate`.
  Brought : Cluster → C → Type 0
  Brought cluster c' =
      (envs : List EnvSource) × (f : F) × (prior o : Object (Content X)) × (sources p.configs
        ≡ some envs)
      × (parsed lib floats api blank p cluster ≡ some f)
      × (api.client.read Kind.replica_set (replica_set_case blank (wanted cluster envs f)).start c'
          ≡ some o)
      × (unless_ignored (sync_replica_set (wanted cluster envs f)) prior ≡ finished o)

  module _ (lawful : IsClient api.client)
      (changes : (e : Err) → api.client.is_no_change e ≡ false) where
    apply-Brought :
        (cluster : Cluster) (c c' : C)
        → apply lib floats api blank p cluster c ≡ finished (none, c')
        → Brought cluster c'
    unfolding apply Brought Written case_of replica_set_case
    apply-Brought cluster c c' h =
        let (envs, f, c1, found, known, done) =
          sync_all-writes cluster (sources p.configs) c c' h in
        let (k, o, case, seen, made) =
          create_or_update-applied api.client blank lawful changes Kind.replica_set
            (wanted cluster envs f) c1 c' done in
        let same = some-injective (sym case) in
        (
          envs,
          f,
          or_start k.start (api.client.read Kind.replica_set k.start c1),
          o,
          found,
          known,
          subst (λ j. api.client.read Kind.replica_set j.start c' ≡ some o) same seen,
          subst
              (λ j.
                j.change (or_start k.start (api.client.read Kind.replica_set k.start c1))
                ≡ finished o)
              same made,
        )

  autoscaler_type-ne : p.worker ≡ none → str_eq (autoscaler_type lib p) "wpa" ≡ false
  autoscaler_type-ne free =
      ap
        (λ (w : Option X).
          str_eq
            (elim w [
              | some x ↦ "wpa"
              | none ↦ elim p.keda_worker [ some k ↦ "keda" | none ↦ "hpa" ]
            ])
            "wpa")
        free
      ∙ elim p.keda_worker
          as (λ k.
            str_eq (elim k as (λ _. String) [ some x ↦ "keda" | none ↦ "hpa" ]) "wpa" ≡ false) [
              | some x ↦ refl
              | none ↦ refl
            ]

  replica_set_annotations-type :
      lookup annotation_autoscaler (replica_set_annotations lib p) ≡ some (autoscaler_type lib p)
  unfolding lookup insert
  replica_set_annotations-type = elim (Bool-cases (str_eq p.iam_role "")) [
    | inl e ↦ rw e
    | inr e ↦ rw e
  ]

  wanted-is_worker :
      (cluster : Cluster) (envs : List EnvSource) (f : F)
      → p.worker ≡ none
      → is_worker (wanted cluster envs f) ≡ false
  unfolding is_worker replica_set
  wanted-is_worker cluster envs f free =
      ap (λ o. elim o [ none ↦ false | some kind ↦ str_eq kind "wpa" ]) replica_set_annotations-type
      ∙ autoscaler_type-ne free

  effective-zero :
      (cluster : Cluster) (f : F)
      → cluster.disable_event_driven ≡ true
      → p.event_driven ≡ true
      → effective lib floats api blank p cluster f ≡ floats.zero_factor
  effective-zero cluster f disabled driven = ground (arith, disabled, driven)

  unless_ignored-cases :
      (typed prior o : Object (Content X))
      → unless_ignored (sync_replica_set typed) prior ≡ finished o
      → (is_ignored o ≡ true) ⊎ (sync_replica_set typed prior ≡ finished o)
  unfolding unless_ignored
  unless_ignored-cases typed prior o h =
      let run = λ (b : Bool). if b then finished prior else sync_replica_set typed prior in
      elim (Bool-cases (is_ignored prior)) [
        | inl e ↦ inl (ap is_ignored (finished-injective (sym h ∙ ap run e)) ∙ e)
        | inr e ↦ inr (sym (ap run e) ∙ h)
      ]

  module _ (lawful : IsClient api.client)
      (changes : (e : Err) → api.client.is_no_change e ≡ false) where
    -- In a cluster without event-driven scaling, where a factor of 0.0 gives 0 replicas and a call
    -- that succeeds has made its change, a plan that succeeds for an event-driven revision without
    -- a WorkerPodAutoScaler leaves a ReplicaSet at its name that has no replicas or is ignored.
    pub apply-stops :
        (cluster : Cluster) (c c' : C)
        → floats.scaled p.replicas floats.zero_factor ≡ 0
        → cluster.disable_event_driven ≡ true
        → p.event_driven ≡ true
        → p.worker ≡ none
        → apply lib floats api blank p cluster c ≡ finished (none, c')
        → (start o : Object (Content X)) × (start.name ≡ p.tag)
          × (start.namespace ≡ p.namespace)
          × (api.client.read Kind.replica_set start c' ≡ some o)
          × ((is_ignored o ≡ true) ⊎ (o.replicas ≡ some 0))
    unfolding Brought replica_set_case replica_set
    apply-stops cluster c c' zero disabled driven free h =
        let (envs, f, prior, o, found, known, seen, made) =
          apply-Brought lawful changes cluster c c' h in
        let typed = wanted cluster envs f in
        let none_wanted =
          ap (λ g. some (floats.scaled p.replicas g)) (effective-zero cluster f disabled driven)
          ∙ ap some zero in
        (
          (replica_set_case blank typed).start,
          o,
          refl,
          refl,
          seen,
          elim (unless_ignored-cases typed prior o made) [
            | inl ignored ↦ inl ignored
            | inr synced ↦
                let (n, left, (zeros, back), from) =
                  sync_replica_set-replicas typed prior o 0 none_wanted
                    (wanted-is_worker cluster envs f free) synced in
                inr (left ∙ ap some (back refl))
          ],
        )
