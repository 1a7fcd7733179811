-- ===== src/Admission/Patches.antt =====
-- api/v1alpha1/revision_webhook.go: `bucketIngressPorts`, and the patches of the defaulting webhook.
-- A Go map of ingresses is a list in the order of their first ports.
use Prim.Native.String.{String}
use text.Mathlib.Text.{◌==◌ as str_eq}
use picchu.Base.{
  Bool, true, false, Option, none, some, List, [], ◌∷◌, ◌++◌, map, if◌then◌else◌, ◌==◌, ◌&&◌, not,
  any_if, length,
}
use picchu.Objects.{Entries, StringMap, has_key, insert}
use picchu.Admission.{Port, Target}

abbrev pub Buckets : Type 0
Buckets = List (String × List Port)

abbrev pub append_all : Option (List String) → List String → Option (List String)
append_all none [] = none
append_all none (x ∷ xs) = some (x ∷ xs)
append_all (some ys) xs = some (ys ++ xs)

abbrev pub is_set : Option (List String) → Bool
is_set none = false
is_set (some []) = false
is_set (some (x ∷ xs)) = true

-- The ingresses that a mode stands for in a patch.
abbrev pub patch_of : String → List String
patch_of mode =
    if str_eq mode "public"
    then "private" ∷ "public" ∷ []
    else if str_eq mode "private"
    then "private" ∷ []
    else []

-- One round of `getIngressesPatches`.
unfoldable pub patch_ingresses : Port → Port
patch_ingresses p =
    if is_set p.ingresses
    then p
    else record p { ingresses = append_all p.ingresses (patch_of p.mode) }

-- The ingresses that the switch of `bucketIngressPorts` puts a mode in.
abbrev pub mode_ingresses : String → List String
mode_ingresses mode =
    if str_eq mode "public"
    then "public" ∷ "private" ∷ []
    else if str_eq mode "private"
    then "private" ∷ []
    else []

-- The ingresses that a port is put in.
abbrev pub ingresses_of : Port → List String
ingresses_of p = elim p.ingresses [ none ↦ mode_ingresses p.mode | some is ↦ is ]

unfoldable pub track : Port → String → Buckets → Buckets
track p ingress [] = (ingress, p ∷ []) ∷ []
track p ingress ((i, ps) ∷ rest) =
    let later = track p ingress rest in
    if str_eq i ingress then (i, ps ++ (p ∷ [])) ∷ rest else (i, ps) ∷ later

unfoldable pub track_all : Port → List String → Buckets → Buckets
unfolding track
track_all p [] b = b
track_all p (i ∷ is) b = track_all p is (track p i b)

unfoldable pub bucket_ports : List Port → Buckets → Buckets
unfolding track_all
bucket_ports [] b = b
bucket_ports (p ∷ ps) b = bucket_ports ps (track_all p (ingresses_of p) b)

-- `bucketIngressPorts`
abbrev pub bucket_ingress_ports : Target → Buckets
bucket_ingress_ports t = bucket_ports t.ports []

abbrev pub first_name : List Port → Option String
first_name [] = none
first_name (p ∷ ps) = if length ps == 0 then some p.name else none

-- The default of an ingress with the given ports, if there is one.
unfoldable pub default_port : List Port → Option String
default_port ports =
    if not (any_if (λ p. p.default) ports) && any_if (λ p. str_eq p.name "http") ports
    then some "http"
    else first_name ports

unfoldable pub ingress_default_ports : Buckets → Entries
ingress_default_ports [] = []
ingress_default_ports ((i, ports) ∷ rest) =
    let later = ingress_default_ports rest in
    elim (default_port ports) [ none ↦ later | some name ↦ (i, name) ∷ later ]

-- The last loop: an ingress that has no default gets one.
unfoldable pub fill_in : Entries → Entries → Entries
fill_in [] existing = existing
fill_in ((i, def) ∷ rest) existing =
    fill_in rest (if has_key i existing then existing else insert i def existing)

abbrev pub merge_defaults : Entries → StringMap → StringMap
merge_defaults [] existing = existing
merge_defaults (e ∷ new) none = some (e ∷ new)
merge_defaults (e ∷ new) (some []) = some (e ∷ new)
merge_defaults (e ∷ new) (some (x ∷ existing)) = some (fill_in (e ∷ new) (x ∷ existing))

-- One round of `getIngressDefaultPortPatches`.
unfoldable pub patch_default_ports : Target → Target
patch_default_ports t = record t {
  default_ingress_ports =
      merge_defaults (ingress_default_ports (bucket_ingress_ports t)) t.default_ingress_ports;
}

-- `getIngressesPatches`
abbrev pub patch_ports : Target → Target
patch_ports t = record t { ports = map patch_ingresses t.ports }

-- `getPatches`
unfoldable pub patches : List Target → List Target
patches ts = map patch_default_ports (map patch_ports ts)
