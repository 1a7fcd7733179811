-- ===== src/Deployment.antt =====
-- controllers/state.go: the state names, the status of the external test, and the interface
-- `Deployment` through which the handlers read and change a revision.
use Prim.Native.String.{String}
use text.Mathlib.Text.{◌==◌ as str_eq}
use picchu.Base.{ℕ, Bool, true, false, ◌||◌, ◌&&◌, Option, none, some, if◌then◌else◌, Panics}

pub data State : Type 0 where
  created deploying deployed pendingrelease releasing released retiring retired deleting deleted
        failing failed pendingtest testing tested canarying canaried timingout :
      State

-- The string that stands for a state in the status.
unfoldable pub name : State → String
name State.created = "created"
name State.deploying = "deploying"
name State.deployed = "deployed"
name State.pendingrelease = "pendingrelease"
name State.releasing = "releasing"
name State.released = "released"
name State.retiring = "retiring"
name State.retired = "retired"
name State.deleting = "deleting"
name State.deleted = "deleted"
name State.failing = "failing"
name State.failed = "failed"
name State.pendingtest = "pendingtest"
name State.testing = "testing"
name State.tested = "tested"
name State.canarying = "canarying"
name State.canaried = "canaried"
name State.timingout = "timingout"

-- The keys of the map `handlers`: a string that is no state has no handler.
unfoldable pub lookup_handler : String → Option State
lookup_handler s =
    if str_eq s "created"
    then some State.created
    else if str_eq s "deploying"
    then some State.deploying
    else if str_eq s "deployed"
    then some State.deployed
    else if str_eq s "pendingrelease"
    then some State.pendingrelease
    else if str_eq s "releasing"
    then some State.releasing
    else if str_eq s "released"
    then some State.released
    else if str_eq s "retiring"
    then some State.retiring
    else if str_eq s "retired"
    then some State.retired
    else if str_eq s "deleting"
    then some State.deleting
    else if str_eq s "deleted"
    then some State.deleted
    else if str_eq s "failing"
    then some State.failing
    else if str_eq s "failed"
    then some State.failed
    else if str_eq s "pendingtest"
    then some State.pendingtest
    else if str_eq s "testing"
    then some State.testing
    else if str_eq s "tested"
    then some State.tested
    else if str_eq s "canarying"
    then some State.canarying
    else if str_eq s "canaried"
    then some State.canaried
    else if str_eq s "timingout"
    then some State.timingout
    else none

-- The time.Duration constants, in seconds.
abbrev pub deploying_timeout : ℕ
deploying_timeout = 900

abbrev pub created_timeout : ℕ
created_timeout = 3600

pub data ExternalTestStatus : Type 0 where
  unknown disabled pending started test_failed succeeded : ExternalTestStatus

-- The flags of a target's external test.
pub record ExternalTest : Type 0 where
  pub enabled : Bool
  pub started : Bool
  pub completed : Bool
  pub succeeded : Bool

unfoldable pub target_external_test_status : ExternalTest → ExternalTestStatus
target_external_test_status t =
    if t.completed && t.succeeded
    then ExternalTestStatus.succeeded
    else if t.completed
    then ExternalTestStatus.test_failed
    else if t.started
    then ExternalTestStatus.started
    else if t.enabled
    then ExternalTestStatus.pending
    else ExternalTestStatus.disabled

abbrev pub test_enabled : ExternalTestStatus → Bool
test_enabled ExternalTestStatus.unknown = false
test_enabled ExternalTestStatus.disabled = false
test_enabled _ = true

abbrev pub test_finished : ExternalTestStatus → Bool
test_finished ExternalTestStatus.succeeded = true
test_finished ExternalTestStatus.test_failed = true
test_finished _ = false

abbrev pub is_test_failed : ExternalTestStatus → Bool
is_test_failed ExternalTestStatus.test_failed = true
is_test_failed _ = false

abbrev pub is_succeeded : ExternalTestStatus → Bool
is_succeeded ExternalTestStatus.succeeded = true
is_succeeded _ = false

abbrev pub is_started : ExternalTestStatus → Bool
is_started ExternalTestStatus.started = true
is_started _ = false

abbrev pub is_pending : ExternalTestStatus → Bool
is_pending ExternalTestStatus.pending = true
is_pending _ = false

-- The Go interface. `W` is all that a call can read or change, the clock `now` included; `Err` is
-- the type of errors, with `none` for nil. A call that panics returns `nil_dereference`, and a query
-- that panics is `panicked`.
pub record Deployment (W Err : Type 0) : Type 0 where
  pub sync : W → Option Err × W
  pub retire : W → Option Err × W
  pub del : W → Option Err × W
  pub sync_canary_rules : W → Option Err × W
  pub delete_canary_rules : W → Option Err × W
  pub delete_tagged_service_levels : W → Option Err × W
  pub has_revision : W → Bool
  pub schedule_permits_release : W → Panics Bool
  pub marked_as_failed : W → Bool
  pub is_release_eligible : W → Bool
  pub current_state : W → String
  pub set_state : String → W → W
  pub is_deployed : W → Bool
  pub external_test_status : W → ExternalTestStatus
  pub current_percent : W → ℕ
  pub peak_percent : W → ℕ
  pub is_canary_pending : W → Bool
  pub is_timing_out : W → Bool
  pub is_expired : W → Panics Bool
  pub now : W → ℕ
  pub nil_dereference : Err

module _ {W Err : Type 0} (d : Deployment W Err) where
  unfoldable pub has_failed : W → Bool
  has_failed w = d.marked_as_failed w || is_test_failed (d.external_test_status w)
