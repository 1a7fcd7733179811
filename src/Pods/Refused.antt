-- ===== src/Pods/Refused.antt =====
-- controllers/plan/syncRevision.go: a plan with a configuration that is not supported.
use Prim.Native.String.{String}
use picchu.Base.{
  Bool, true, false, not, ◌||◌, Option, none, some, List, [], ◌∷◌, finished, any_if, Bool-cases,
  ◌≡◌, refl, sym, ap, ◌∙◌, inl, inr, arith,
}
use picchu.Objects.{Object, Kind}
use picchu.Autoscale.{Cluster}
use picchu.Autoscale
use picchu.Pods.{EnvSource, Content, Config, SyncRevision, Library}
use picchu.Pods.Plan.{Outside, prepend, source_at, sources, sync_all, apply}

-- The kinds of configuration that have a place in a container's environment.
abbrev pub is_supported : Kind → Bool
is_supported Kind.secret = true
is_supported Kind.config_map = true
is_supported kind = false

source_at-none :
    (kind : Kind) (name : String) → is_supported kind ≡ false → source_at kind name ≡ none
unfolding source_at
source_at-none Kind.secret name h = absurd (ground arith)
source_at-none Kind.config_map name h = absurd (ground arith)
source_at-none kind name h = refl

none-prepend :
    (s : Option EnvSource)
    → ◌≡◌ {A = Option (List EnvSource)} (elim s [ none ↦ none | some t ↦ prepend t none ]) none
none-prepend none = refl
none-prepend (some t) = refl

module _ {X : Type 0} where
  sources-none :
      (cs : List (Config X)) → any_if (λ k. not (is_supported k.kind)) cs ≡ true → sources cs ≡ none
  unfolding sources
  sources-none [] h = absurd (ground arith)
  sources-none (k ∷ cs) h = elim (Bool-cases (is_supported k.kind)) [
    | inl e ↦
        let rest =
          sources-none cs
            (sym (ap (λ b. not b || any_if (λ j. not (is_supported j.kind)) cs) e) ∙ h) in
        ap (λ r. elim (source_at k.kind k.object.name) [ none ↦ none | some s ↦ prepend s r ]) rest
        ∙ none-prepend (source_at k.kind k.object.name)
    | inr e ↦
        ap (λ s. elim s [ none ↦ none | some t ↦ prepend t (sources cs) ])
          (source_at-none k.kind k.object.name e)
  ]

module _ {X F C Err : Type 0} (lib : Library X) (floats : Autoscale.Library F)
    (api : Outside X C Err) (blank : Object (Content X)) (p : SyncRevision X) where
  -- Where a configuration is neither a Secret nor a ConfigMap, `SyncRevision` ends with the error
  -- for that before it writes anything.
  pub apply-unsupported :
      (cluster : Cluster) (c : C)
      → any_if (λ k. not (is_supported k.kind)) p.configs ≡ true
      → apply lib floats api blank p cluster c ≡ finished (some api.unsupported_config, c)
  unfolding apply
  apply-unsupported cluster c h =
      ap (λ m. sync_all lib floats api blank p cluster m c) (sources-none p.configs h)
