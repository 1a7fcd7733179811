-- ===== src/Pods/Selected.antt =====
-- controllers/plan/syncRevision.go: which pods a ReplicaSet and a destination rule select.
use Prim.Native.String.{String}
use text.Mathlib.Text.{◌==◌ as str_eq}
use text.Mathlib.TextEquality.{eq_iff}
use picchu.Base.{
  Bool, not, ℕ, some-injective, ◌↔◌, ◌&&◌, Option, none, some, List, [], ◌∷◌, ◌≡◌, refl, sym, ap,
  ◌∙◌, arith, if◌then◌else◌,
}
use picchu.Objects.{Object, Entries, entries, insert, lookup}
use picchu.Traffic.{Route}
use picchu.Routes
use picchu.Routes.{SyncApp}
use picchu.Routes.Resources.{subset_of}
use picchu.Pods.{SyncRevision, Library, Content, EnvSource}
use picchu.Pods.Template.{
  label_tag, pod_ttl_seconds, write_all, without_istio, pod_labels, template_labels, selector,
  value_at, replica_set,
}

-- Whether labels have all that a selector asks for.
abbrev pub Selects : Entries → Entries → Type 0
Selects wanted labels = (key v : String) → lookup key wanted ≡ some v → lookup key labels ≡ some v

abbrev or_else : Option String → Option String → Option String
or_else none o = o
or_else (some v) o = some v

lookup-insert_if :
    (key k v : String) (m : Entries)
    → lookup key (insert k v m) ≡ (if str_eq k key then some v else lookup key m)
unfolding lookup insert
lookup-insert_if key k v [] = refl
lookup-insert_if key k v ((i, w) ∷ m) =
    ground (arith, eq_iff k key, eq_iff i k, eq_iff i key, lookup-insert_if key k v m)

lookup-write_all :
    (key : String) (m acc : Entries)
    → lookup key (write_all m acc) ≡ or_else (lookup key m) (lookup key acc)
unfolding lookup write_all
lookup-write_all key [] acc = refl
lookup-write_all key ((k, v) ∷ m) acc =
    ground (arith, lookup-insert_if key k v (write_all m acc), lookup-write_all key m acc)

abbrev is_kept : String → Bool
is_kept key = not (str_eq key "app") && not (str_eq key "version")

lookup-without_istio :
    (key : String) (m : Entries)
    → lookup key (without_istio m) ≡ (if is_kept key then lookup key m else none)
unfolding lookup without_istio
lookup-without_istio key [] = ground arith
lookup-without_istio key ((k, v) ∷ m) = ground (
  arith,
  eq_iff k key,
  ap is_kept,
  lookup-insert_if key k v (without_istio m),
  lookup-without_istio key m,
)

without_istio-Selects : (m : Entries) → Selects (without_istio m) m
without_istio-Selects m key v h = ground (arith, lookup-without_istio key m, h)

module _ {X : Type 0} (lib : Library X) (p : SyncRevision X)
    (free : lookup pod_ttl_seconds (entries p.labels) ≡ none) where
  pod_labels-lookup :
      (key : String)
      → lookup key (pod_labels lib p)
        ≡ or_else
            (lookup key (entries p.labels))
            (if str_eq label_tag key then some p.tag else none)
  unfolding pod_labels lookup
  pod_labels-lookup key = lookup-write_all key (entries p.labels) ((label_tag, p.tag) ∷ [])

  pod_labels-free : lookup pod_ttl_seconds (pod_labels lib p) ≡ none
  pod_labels-free = pod_labels-lookup pod_ttl_seconds ∙ ap (λ o. or_else o none) free

  pod_labels-Selects : Selects (pod_labels lib p) (template_labels lib p)
  unfolding template_labels
  pod_labels-Selects key v h =
      let ttl = value_at pod_ttl_seconds (entries p.pod_annotations) in
      ground (
        arith,
        h,
        eq_iff pod_ttl_seconds key,
        ap (λ k. lookup k (pod_labels lib p)),
        pod_labels-free,
        lookup-insert_if key pod_ttl_seconds ttl (write_all (pod_labels lib p) []),
        lookup-write_all key (pod_labels lib p) [],
      )

  selector-Selects : Selects (selector lib p) (template_labels lib p)
  unfolding selector
  selector-Selects key v h =
      pod_labels-Selects key v (without_istio-Selects (pod_labels lib p) key v h)

  template_labels-tag :
      lookup label_tag (entries p.labels) ≡ none
      → lookup label_tag (template_labels lib p) ≡ some p.tag
  template_labels-tag untagged =
      pod_labels-Selects label_tag p.tag
        (pod_labels-lookup label_tag ∙ ap (λ o. or_else o (some p.tag)) untagged)

  module _ {W : Type 0} (web : Routes.Library W) (q : SyncApp W)
      (untagged : lookup label_tag (entries p.labels) ≡ none) where
    subset_of-Selects :
        (r : Route) → Selects (subset_of web q r).labels (template_labels lib p) ↔ (r.tag ≡ p.tag)
    unfolding lookup
    subset_of-Selects r = (
      λ selects. some-injective (sym (selects label_tag r.tag refl) ∙ template_labels-tag untagged),
      λ same key v h. ground (
        arith,
        h,
        same,
        eq_iff label_tag key,
        ap (λ k. lookup k (template_labels lib p)),
        template_labels-tag untagged,
      ),
    )

    -- Where the labels of the plan have neither the tag's key nor that of the lifetime of pods,
    -- the ReplicaSet of `SyncRevision` selects its own pods, and a subset of the destination rule
    -- of `SyncApp` selects them exactly if it is for their tag.
    pub replica_set-Selects :
        (blank : Object (Content X)) (envs : List EnvSource) (n : ℕ) (r : Route)
        → (wanted labels : Entries) × ((replica_set lib p blank envs n).selector
            ≡ Content.match_labels wanted)
          × ((replica_set lib p blank envs n).template_labels ≡ some labels)
          × Selects wanted labels
          × (Selects (subset_of web q r).labels labels ↔ (r.tag ≡ p.tag))
    unfolding replica_set
    replica_set-Selects blank envs n r =
        (selector lib p, template_labels lib p, refl, refl, selector-Selects, subset_of-Selects r)
