-- ===== src/Rollback/Labels.antt =====
-- controllers/revision_controller.go: the labels of a revision. A write to a nil map panics.
use Prim.Native.String.{String, ◌++◌ as append}
use text.Mathlib.Text.{◌==◌ as str_eq, starts_with}
use picchu.Base.{
  Bool, true, false, ◌&&◌, ◌||◌, not, Option, none, some, List, [], ◌∷◌, any_if, if◌then◌else◌,
  Panics, panicked, finished, ◌>>=◌,
}
use picchu.Objects.{Entries, StringMap, entries, has_key, insert, lookup}
use picchu.Rollback.{Target, Instance}

abbrev pub label_fleet_prefix : String
label_fleet_prefix = "fleet.picchu.medium.engineering/"

abbrev pub label_app : String
label_app = "picchu.medium.engineering/app"

abbrev pub label_target_deletable_prefix : String
label_target_deletable_prefix = "target-deletable.picchu.medium.engineering/"

abbrev pub fleet_label : Target → String
fleet_label t = append label_fleet_prefix t.fleet

abbrev pub write_label : String → String → StringMap → Panics StringMap
write_label key value none = panicked
write_label key value (some m) = finished (some (insert key value m))

-- A label that is not there is written; the Boolean is `updated`.
abbrev pub ensure_label : String → String → StringMap × Bool → Panics (StringMap × Bool)
ensure_label key value (m, updated) =
    if has_key key (entries m)
    then finished (m, updated)
    else (write_label key value m >>= λ m'. finished (m', true))

unfoldable pub add_fleet_labels : List Target → StringMap × Bool → Panics (StringMap × Bool)
add_fleet_labels [] acc = finished acc
add_fleet_labels (t ∷ ts) acc =
    ensure_label (fleet_label t) "" acc >>= λ acc'. add_fleet_labels ts acc'

abbrev pub is_stale : List Target → String → Bool
is_stale ts name =
    starts_with name label_fleet_prefix && not (any_if (λ t. str_eq (fleet_label t) name) ts)

-- The labels that stay, and whether one was deleted.
unfoldable pub drop_stale : List Target → Entries → Entries × Bool
drop_stale ts [] = ([], false)
drop_stale ts ((k, v) ∷ m) =
    let rest = drop_stale ts m in
    if is_stale ts k then (rest.0, true) else ((k, v) ∷ rest.0, rest.1)

abbrev pub drop_stale_labels : List Target → StringMap × Bool → StringMap × Bool
drop_stale_labels ts (none, updated) = (none, updated)
drop_stale_labels ts (some m, updated) =
    let (m', dropped) = drop_stale ts m in (some m', updated || dropped)

-- `LabelWithAppAndFleets` up to the update, with whether there is one.
unfoldable pub labelled : Instance → Panics (StringMap × Bool)
unfolding add_fleet_labels drop_stale
labelled r = add_fleet_labels r.targets (r.labels, false) >>= λ acc.
    ensure_label label_app r.app (drop_stale_labels r.targets acc)

-- The loop of `deleteIfMarked`: a missing label has the empty value.
abbrev pub value_of : Option String → String
value_of none = ""
value_of (some v) = v

unfoldable pub is_marked : StringMap → List Target → Bool
is_marked m [] = true
is_marked m (t ∷ ts) =
    let rest = is_marked m ts in
    let key = append label_target_deletable_prefix t.name in
    let value = value_of (lookup key (entries m)) in
    if not (has_key key (entries m)) && not (str_eq value "true") then false else rest
