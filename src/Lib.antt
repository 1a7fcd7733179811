-- ===== src/Lib.antt =====
-- picchu releases the revisions of an application to a fleet of clusters: a reconciler observes
-- the replicas, ticks a state machine for every revision, divides the traffic among the revisions
-- and collects the old ones. These modules model that core and prove what makes it correct.
--
-- - Base, Base/Lists: names that all modules share, Boolean tests on native numbers, lists, and
--   `Panics`, the result of code that may panic.
-- - Deployment, Machine: controllers/state.go. `Deployment` is the interface of the same name as
--   a record over a world `W`; `Machine/Rollout` and `Machine/Teardown` hold one function per
--   state handler, `Machine` the map `handlers` and `tick`. The other children hold theorems: the
--   diagram (Graph), the guards (Guards), runs (Runs), and where repeated ticks lead (Progress,
--   Ending, Release).
-- - Api: the parts of api/v1alpha1/{common,revision_types,releasemanager_types}.go that the
--   controllers read.
-- - Scaling: controllers/scaling/{linear,geometric,target}.go and the choice between the ramps in
--   controllers/scaling.go.
-- - Capacity: `computeFleetReplicasRequiredForRamp` and `CanRampTo` of controllers/scaling.go,
--   and the replica counts of controllers/incarnation_controller.go.
-- - Garbage: controllers/garbagecollector.
-- - Schedule: controllers/schedule.
-- - Incarnation, Fleet: the methods of `Incarnation` and the selections of
--   `IncarnationCollection` in controllers/incarnation.go; `Incarnation/Deployments` makes an
--   incarnation a `Deployment`, and `Incarnation/ScalePlan` has the bounds that `genScalePlan`
--   gives an autoscaler, whose minimum is raised for the gate of the next increment (Readiness).
-- - Traffic: `prepareRevisions` of controllers/syncer.go.
-- - Sync: `tickIncarnations` and the statuses that `sync` of controllers/syncer.go returns.
--   `Machine/Safe` and `Sync/Safe` are about the nil dereferences in the methods that a tick
--   calls.
-- - Observe: controllers/observe/observation.go and `update` of controllers/incarnation.go.
-- - Mesh: `syncNamespace` of controllers/syncer.go.
-- - Objects: `CreateOrUpdate` of plan/common.go, which brings an object of a cluster in line with
--   a wanted one: `Objects/Kinds` has one definition per case of its switch,
--   `Objects/ReplicaSets` the one of a ReplicaSet, `Objects/Store` the switch over the library
--   function of the same name. The other children hold theorems: maps (Maps), what a call copies
--   (Synced) and leaves (Settled, Running, Counts, Waits) and a second call (Again);
--   `Objects/Memory` is a cluster in memory, for the witnesses.
-- - Routes: controllers/plan/syncApp.go, the hosts and matches of a port (Hosts, Matches), the
--   routes (Build), the objects and `Apply` (Resources); theorems on where the routes lead
--   (Destinations), on hosts (Exposed), on gateways (Listed) and on a failing deletion (Order).
-- - Admission: api/v1alpha1/{source_defaults,revision_webhook}.go, the defaults (Defaults), the
--   patches (Patches) and the validation (Validate) of a revision; theorems on the ramp of an
--   admitted target (Ramps) and on its default ports (Ingresses).
-- - Rollback: controllers/revision_controller.go, the labels (Labels), the statuses and the
--   decision to fail a revision (Statuses), and `Reconcile` (Reconcile); the other children hold
--   theorems.
-- - Autoscale: controllers/plan/scaleRevision.go; Bounds holds the theorem.
-- - Retire: controllers/plan/retireRevision.go and plan/composite.go; Stopped holds the theorem.
-- - Pods: controllers/plan/syncRevision.go, the ReplicaSet (Template) and `Apply` (Plan);
--   theorems on what it selects (Selected), on event-driven revisions (Applied) and on a
--   configuration that is not supported (Refused).
-- - Appliers: plan/applier.go; Every holds the theorem.
-- - Manager: one reconciliation of a release manager. `Manager/Collect` is
--   `newIncarnationCollection` of controllers/incarnation.go, `Manager/Monitors`, `Manager/App`
--   and `Manager/Sync` are `prepareAlertRules` and its like, `syncApp` and `sync` of
--   controllers/syncer.go, `Manager/Mark` is controllers/garbagecollector.go and
--   `Manager/Reconcile` controllers/releasemanager_controller.go. The other children hold
--   theorems: the tags of a collection (Collected), statuses that are read again (RoundTrip),
--   marks and their reader (Marked), the plan of the app (Served, Oldest), and the ends of a
--   release manager (Ended, Final, Idle, Finalized).
-- - Fixtures and the modules named Samples: test data, tests and witnesses.
--
-- The parts meet as they do in the code: `Traffic` asks each incarnation of `Fleet` for its new
-- percentage, which `Incarnation` takes from `Scaling`, which asks `Capacity` whether the fleet
-- is large enough; `Machine` reads and changes an incarnation through `Incarnation/Deployments`,
-- whose schedule is `Schedule`. The routes that `Traffic` makes are the revisions of the plan of
-- `Routes` and a target that `Admission` lets through and completes is one whose ramp `Scaling`
-- computes. `Manager/Sync` runs `Mesh`, `Sync`, `Observe`, `Traffic` and the marks of `Garbage`
-- one after the other, and hands the routes to `Routes`; the labels that `Manager/Mark` writes
-- are those that `Rollback` reads, and the objects of `Pods` and `Autoscale` are written by
-- `Objects`.
--
-- Times and durations are seconds from the zero time, as native numbers; the clock is an
-- argument. An error is `Option Err`, with `none` for nil. A nil dereference, a call of a nil
-- function and a slice out of range are `panicked`. Percentages are uint32 and keep the
-- wrap-around of addition and multiplication (`u32`); replica counts (int32), TTLs and durations
-- (int64) are taken as not negative and as small enough not to overflow.
--
-- Go maps are association lists; where the code ranges over a map of hosts or ingresses in any
-- order, the list has the order of the first writes. Port numbers are not negative. A nil map is
-- `none` where a write to it would panic or where the code tests for it.
--
-- Parameters stand for code outside the repository: `controllerutil.CreateOrUpdate` (`IsClient`
-- is its documented behaviour), regular expressions, templates and the sorting of strings, the
-- parsing of durations and of floats, `sort.Slice` (`SortsDescending` and `SortsBy` are its
-- documented behaviour), the calendar of the time package, the Kubernetes API and the appliers of
-- plans (`Outside`), and the float64 expressions that the code rounds up (`Floats`), whose last
-- bit is not that of the rational numbers. In the interface `Deployment` a query that would
-- dereference nil is `panicked`, and a call that would returns the error `nil_dereference`, as a
-- handler does that asks such a query; `tick_incarnation` turns it into a panic of the tick. The
-- collection of incarnations is a Go map that `sorted()` orders (`Fleet/Order`, over
-- `sort.Slice`); elsewhere a fleet is the list in that order, with distinct tags.
--
-- The loops over lists are structural recursions. The loop of the expected latency runs on fuel,
-- and fuel for the distance to the maximum is enough. Repeated ticks are counted: two, three and
-- five reach the states that the theorems name.
--
-- Not modelled: the contents of the objects that the other plans of controllers/plan make or
-- delete, the Istio traffic policy that a route passes on, logging and metrics, the reconcilers
-- of clusters and secrets, the mirroring of a revision to another cluster, the clients of
-- clusters and of outside services, and generated code.
pub mod Admission
pub mod Api
pub mod Appliers
pub mod Autoscale
pub mod Base
pub mod Capacity
pub mod Deployment
pub mod Fixtures
pub mod Fleet
pub mod Garbage
pub mod Incarnation
pub mod Machine
pub mod Manager
pub mod Mesh
pub mod Objects
pub mod Observe
pub mod Pods
pub mod Retire
pub mod Rollback
pub mod Routes
pub mod Scaling
pub mod Schedule
pub mod Sync
pub mod Traffic
