-- ===== src/Admission/Defaults.antt =====
-- api/v1alpha1/source_defaults.go
use Prim.Native.String.{String}
use text.Mathlib.Text.{◌==◌ as str_eq}
use picchu.Base.{ℕ, Option, none, some, List, [], ◌∷◌, map, if◌then◌else◌, ◌==◌, ◌≡◌, refl, arith}
use picchu.Admission.{Release, Port, Scale, Target}

-- A field that is not set gets its default.
abbrev pub or_default : ℕ → ℕ → ℕ
or_default d n = if n == 0 then d else n

abbrev pub or_text : String → String → String
or_text d s = if str_eq s "" then d else s

abbrev pub or_pointer : ℕ → Option ℕ → Option ℕ
or_pointer d none = some d
or_pointer d (some n) = some n

-- `SetReleaseDefaults`; the delays are 10 seconds.
unfoldable pub set_release_defaults : Release → Release
set_release_defaults r = record r {
  max = or_default 100 r.max;
  schedule = or_text "inhumane" r.schedule;
  scaling_strategy = or_text "geometric" r.scaling_strategy;
  ttl = or_default 432000 r.ttl;
  geometric_scaling = record {
    start = or_default 10 r.geometric_scaling.start;
    factor = or_default 2 r.geometric_scaling.factor;
    delay = or_pointer 10 r.geometric_scaling.delay;
  };
  linear_scaling = record {
    increment = or_default 5 r.linear_scaling.increment;
    delay = or_pointer 10 r.linear_scaling.delay;
  };
}

unfoldable pub set_port_defaults : Port → Port
set_port_defaults p = record p {
  ingress_port = or_default 443 p.ingress_port;
  container_port = or_default 80 p.container_port;
  port = or_default 80 p.port;
  protocol = or_text "TCP" p.protocol;
  mode = or_text "private" p.mode;
}

unfoldable pub set_scale_defaults : Scale → Scale
set_scale_defaults s = record {
  default = or_default 1 s.default;
  max = or_default 1 s.max;
  requests_rate_metric = or_text "istio_requests_rate" s.requests_rate_metric;
}

-- `SetExternalTestDefaults`: two hours.
abbrev pub set_external_test_defaults : Option ℕ → Option ℕ
set_external_test_defaults = or_pointer 7200

unfoldable pub set_target_defaults : Target → Target
set_target_defaults t = record t {
  release = set_release_defaults t.release;
  scale = set_scale_defaults t.scale;
  ports = map set_port_defaults t.ports;
  external_test_timeout = set_external_test_defaults t.external_test_timeout;
}

-- `SetDefaults_RevisionSpec`
unfoldable pub set_defaults : List Target → List Target
set_defaults = map set_target_defaults

or_default-again : (d n : ℕ) → or_default d (or_default d n) ≡ or_default d n
or_default-again d n = ground arith

or_text-again : (d s : String) → or_text d (or_text d s) ≡ or_text d s
or_text-again d s = ground arith

or_pointer-again : (d : ℕ) (o : Option ℕ) → or_pointer d (or_pointer d o) ≡ or_pointer d o
or_pointer-again d none = refl
or_pointer-again d (some n) = refl

set_scale_defaults-again :
    (s : Scale) → set_scale_defaults (set_scale_defaults s) ≡ set_scale_defaults s
unfolding set_scale_defaults
set_scale_defaults-again s = ground (
  arith,
  or_default-again 1 s.default,
  or_default-again 1 s.max,
  or_text-again "istio_requests_rate" s.requests_rate_metric,
)

set_port_defaults-again : (p : Port) → set_port_defaults (set_port_defaults p) ≡ set_port_defaults p
unfolding set_port_defaults
set_port_defaults-again p = ground (
  arith,
  or_default-again 443 p.ingress_port,
  or_default-again 80 p.container_port,
  or_default-again 80 p.port,
  or_text-again "TCP" p.protocol,
  or_text-again "private" p.mode,
)

set_release_defaults-again :
    (r : Release) → set_release_defaults (set_release_defaults r) ≡ set_release_defaults r
unfolding set_release_defaults
set_release_defaults-again r = ground (
  arith,
  or_default-again 100 r.max,
  or_text-again "inhumane" r.schedule,
  or_text-again "geometric" r.scaling_strategy,
  or_default-again 432000 r.ttl,
  or_default-again 10 r.geometric_scaling.start,
  or_default-again 2 r.geometric_scaling.factor,
  or_pointer-again 10 r.geometric_scaling.delay,
  or_default-again 5 r.linear_scaling.increment,
  or_pointer-again 10 r.linear_scaling.delay,
)

-- A function that changes nothing the second time, on a list.
map-again :
    {A : Type 0} (f : A → A) (again : (a : A) → f (f a) ≡ f a) (xs : List A)
    → map f (map f xs) ≡ map f xs
map-again f again [] = refl
map-again f again (x ∷ xs) = ground (arith, again x, map-again f again xs)

set_target_defaults-again :
    (t : Target) → set_target_defaults (set_target_defaults t) ≡ set_target_defaults t
unfolding set_target_defaults
set_target_defaults-again t = ground (
  arith,
  set_release_defaults-again t.release,
  set_scale_defaults-again t.scale,
  map-again set_port_defaults set_port_defaults-again t.ports,
  or_pointer-again 7200 t.external_test_timeout,
)

-- Completing a revision that is complete changes nothing.
pub set_defaults-again : (ts : List Target) → set_defaults (set_defaults ts) ≡ set_defaults ts
unfolding set_defaults
set_defaults-again ts = map-again set_target_defaults set_target_defaults-again ts
