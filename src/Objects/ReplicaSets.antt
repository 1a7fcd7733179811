-- ===== src/Objects/ReplicaSets.antt =====
-- plan/common.go: how a ReplicaSet is brought in line. Its replicas and its pod template belong to
-- autoscalers once it runs.
use Prim.Native.String.{String}
use text.Mathlib.Text.{◌==◌ as str_eq}
use picchu.Base.{
  ℕ, Bool, true, false, ◌||◌, Option, none, some, [], ◌∷◌, if◌then◌else◌, ◌==◌, Panics, finished,
  ◌>>=◌, deref,
}
use picchu.Objects.{Object, lookup, insert, remove, entries, Entries, StringMap}

abbrev pub annotation_autoscaler : String
annotation_autoscaler = "picchu.medium.engineering/autoscaler"

abbrev pub annotation_do_not_disrupt : String
annotation_do_not_disrupt = "karpenter.sh/do-not-disrupt"

-- A WorkerPodAutoScaler changes the replicas on its own.
unfoldable pub is_worker : {V : Type 0} → Object V → Bool
is_worker typed = elim (lookup annotation_autoscaler (entries typed.annotations)) [
  | none ↦ false
  | some kind ↦ str_eq kind "wpa"
]

-- Only a change to or from zero is made.
abbrev pub next_replicas : ℕ → ℕ → ℕ
next_replicas wanted current = if wanted == 0 || current == 0 then wanted else current

abbrev pub or_zero : Option ℕ → ℕ
or_zero none = 0
or_zero (some n) = n

unfoldable pub sync_replicas : {V : Type 0} → Object V → Object V → Panics (Object V)
unfolding is_worker
sync_replicas typed rs =
    if is_worker typed
    then finished rs
    else (deref typed.replicas >>= λ wanted.
        finished (record rs { replicas = some (next_replicas wanted (or_zero rs.replicas)) }))

abbrev pub write_annotation : Option String → Entries → Entries
write_annotation none m = remove annotation_do_not_disrupt m
write_annotation (some v) m =
    if str_eq v "" then remove annotation_do_not_disrupt m else insert annotation_do_not_disrupt v m

abbrev pub keep_annotation : StringMap → StringMap → StringMap
keep_annotation wanted none = none
keep_annotation wanted (some m) =
    some (write_annotation (lookup annotation_do_not_disrupt (entries wanted)) m)

abbrev pub is_empty : StringMap → Bool
is_empty none = true
is_empty (some []) = true
is_empty (some (e ∷ m)) = false

-- The template is written once; later only the annotation is kept in line.
unfoldable pub sync_template : {V : Type 0} → Object V → Object V → Object V
sync_template typed rs =
    if is_empty rs.template_labels
    then record rs {
      template = typed.template;
      template_labels = typed.template_labels;
      template_annotations = typed.template_annotations;
    }
    else record rs {
      template_annotations = keep_annotation typed.template_annotations rs.template_annotations;
    }

unfoldable pub sync_replica_set : {V : Type 0} → Object V → Object V → Panics (Object V)
unfolding sync_replicas sync_template
sync_replica_set typed rs = sync_replicas typed rs >>= λ rs'.
    finished (record (sync_template typed rs') { selector = typed.selector; labels = typed.labels })
