-- ===== src/Autoscale.antt =====
-- controllers/plan/scaleRevision.go: the autoscaler of a revision. `F` stands for
-- float64, `Q` for quantities and `V` for contents that are passed on.
pub mod Plan
pub mod Bounds
mod Samples
use Prim.Native.String.{String, len, slice}
use picchu.Base.{ℕ, ◌-◌, Bool, Option, List, if◌then◌else◌, leb}
use picchu.Objects.{Entries}

pub record Trigger (V : Type 0) : Type 0 where
  pub type : String
  pub metadata : Option Entries
  pub authentication_ref : Option String
  pub rest : V

pub record KedaWorker (V : Type 0) : Type 0 where
  pub triggers : List (Trigger V)
  pub settings : V

pub record ScaleRevision (V Q : Type 0) : Type 0 where
  pub tag : String
  pub min : ℕ
  pub max : ℕ
  pub cpu_target : Option ℕ
  pub memory_target : Option ℕ
  pub requests_rate_metric : String
  pub requests_rate_target : Option Q
  pub worker : Option V
  pub keda_worker : Option (KedaWorker V)
  pub event_driven : Bool
  pub ambient_mesh : Bool
  pub prometheus_address : String

pub record Cluster : Type 0 where
  pub scaling_factor_string : Option String
  pub disable_event_driven : Bool

-- strconv.ParseFloat, with `none` for its error, strings.TrimLeft of dashes, the constant 0.0, and
-- `int32(math.Ceil(float64(n) * f))`.
pub record Library (F : Type 0) : Type 0 where
  pub parse_float : String → Option F
  pub trim_dashes : String → String
  pub zero_factor : F
  pub scaled : ℕ → F → ℕ

-- `hpaName`: the last 54 bytes of a longer tag.
unfoldable pub hpa_name : {F : Type 0} → Library F → String → String
hpa_name lib tag =
    if leb (len tag) 54 then tag else lib.trim_dashes (slice tag (len tag - 54) (len tag))
