-- ===== src/Mesh/Samples.antt =====
-- Witnesses for `syncNamespace` (controllers/syncer.go): two revisions in the ambient mesh.
use picchu.Base.{refl, true, false, ◌≡◌}
use picchu.Mesh.{has_ambient_replicas, namespace_plans}
use picchu.Mesh.Modes.{is_ensured, is_removed, namespace_plans_ambient}
use picchu.Fixtures.{controller, fleet}
use picchu.Api.{find_target}

namespace_plans_ambient_example :
    (is_ensured (namespace_plans controller fleet) ≡ true)
    × (is_removed (namespace_plans controller fleet) ≡ false)
unfolding has_ambient_replicas find_target
namespace_plans_ambient_example = namespace_plans_ambient controller fleet refl
