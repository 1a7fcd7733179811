-- ===== src/Admission/Samples.antt =====
-- Witnesses for the webhook of revisions (api/v1alpha1): a target with a web port, completed by the
-- patches and the defaults.
use Prim.Native.String.{String}
use text.Mathlib.Text.{◌==◌ as str_eq}
use picchu.Base.{
  ℕ, ◌≤◌, Bool, true, false, none, some, [], ◌∷◌, ◌≡◌, refl, arith, any_if, ◌&&◌, finished,
}
use picchu.Api.{RevisionTarget, find_target}
use picchu.Incarnation.{Incarnation, current_percent_target}
use picchu.Deployment.{State}
use picchu.Fixtures.{controller, incarnation, production}
use picchu.Objects.{entries, has_key, lookup}
use picchu.Admission.{Target, Port, release_info}
use picchu.Admission.Defaults.{set_target_defaults}
use picchu.Admission.Patches.{
  patches, patch_ingresses, patch_default_ports, default_port, ingress_default_ports, fill_in,
  track, track_all, bucket_ports,
}
use picchu.Admission.Validate.{name_at, bucket_errors, default_errors, target_errors, FieldError}
use picchu.Admission.Ramps.{target_errors-ramps}
use picchu.Admission.Ingresses.{exposes, target_errors-ingresses}

abbrev web : Port
web = record {
  name = "web";
  ingress_port = 0;
  port = 0;
  container_port = 0;
  protocol = "";
  mode = "public";
  default = false;
  ingresses = none;
}

abbrev written : Target
written = record {
  name = "production";
  release = record {
    eligible = true;
    max = 0;
    scaling_strategy = "";
    linear_scaling = record { increment = 0; delay = none };
    geometric_scaling = record { start = 0; factor = 0; delay = none };
    schedule = "";
    ttl = 0;
  };
  scale = record { default = 0; max = 0; requests_rate_metric = "" };
  ports = web ∷ [];
  external_test_timeout = none;
  default_ingress_ports = none;
  pod_disruption_budget = none;
  karpenter_do_not_disrupt = "true";
  pod_annotations = [];
}

abbrev patched : Target
patched = record written {
  ports = record web { ingresses = some ("private" ∷ "public" ∷ []) } ∷ [];
  default_ingress_ports = some (("private", "web") ∷ ("public", "web") ∷ []);
}

-- The webhook completes the target.
patches_test : patches (written ∷ []) ≡ patched ∷ []
unfolding patches patch_ingresses patch_default_ports default_port ingress_default_ports fill_in
    track track_all bucket_ports has_key
patches_test = refl

abbrev no_durations : String → Bool
no_durations s = false

admitted : target_errors no_durations patched ≡ []
unfolding target_errors bucket_errors default_errors track track_all bucket_ports has_key lookup
admitted = refl

-- Two ports without a default are rejected.
rejected_test :
    target_errors no_durations (record written { ports = web ∷ record web { name = "api" } ∷ [] })
    ≡ FieldError.required "public"
      ∷ FieldError.not_found "public"
      ∷ FieldError.required "private"
      ∷ FieldError.not_found "private"
      ∷ []
unfolding target_errors bucket_errors default_errors track track_all bucket_ports has_key lookup
rejected_test = refl

target_errors-ingresses_example :
    (has_key "public" (entries patched.default_ingress_ports)
      ≡ any_if (exposes "public") patched.ports)
    × (any_if (exposes "public") patched.ports
        ≡ any_if
            (λ p.
              exposes "public" p
              && str_eq (name_at no_durations "public" patched.default_ingress_ports) p.name)
            patched.ports)
target_errors-ingresses_example =
    target_errors-ingresses no_durations "public" patched refl admitted

abbrev the_target : RevisionTarget
the_target = record production { release = release_info (set_target_defaults patched).release }

abbrev ramping : Incarnation
ramping = record (incarnation "new" State.releasing 20 true) {
  revision = some (record {
    targets = the_target ∷ [];
    failed = false;
    has_failed_at = false;
    tag_routing_header = "";
    git_timestamp = 800;
    creation_timestamp = 850;
  });
}

target_errors-ramps_example :
    (p : ℕ) × (current_percent_target controller 5000 100 ramping ≡ finished p) × (p ≤ 100)
unfolding find_target
target_errors-ramps_example =
    target_errors-ramps no_durations controller 5000 100 ramping patched the_target admitted refl
      refl (omega arith)
