-- ===== src/Store.antt =====
-- core/workflow_store.py: the tables of the SQLite database that the store keeps, as lists of rows
-- in the order of their primary keys. A transaction is a function on the database; one that
-- raises is rolled back, so its result is an error and no database. Times are milliseconds, which
-- the store writes as ISO text of one width, so that their order is the order of the texts. JSON
-- columns are opaque text.
use computerpilot_mcp.Prelude.{
  ℕ, String, Bool, true, false, not, ◌&&◌, List, [], Option, none, some, ◌==◌, ℕ_eq, string_eq, any,
}
use computerpilot_mcp.Prelude.Table.{find}
use computerpilot_mcp.Claims.{ResourceClaim}
use computerpilot_mcp.Lifecycle.{WorkflowState, StepState, OperationState}

-- The states of rows in workflow_resource_requests and runtime_capacity_requests.
pub data AdmissionState : Type 0 where
  pending active quarantined released : AdmissionState

abbrev pub is_pending : AdmissionState → Bool
is_pending pending = true
is_pending active = false
is_pending quarantined = false
is_pending released = false

abbrev pub is_active : AdmissionState → Bool
is_active pending = false
is_active active = true
is_active quarantined = false
is_active released = false

abbrev pub is_quarantined : AdmissionState → Bool
is_quarantined pending = false
is_quarantined active = false
is_quarantined quarantined = true
is_quarantined released = false

abbrev pub is_released : AdmissionState → Bool
is_released pending = false
is_released active = false
is_released quarantined = false
is_released released = true

-- A row of workflow_resource_requests with its rows of workflow_resource_claims, which are written
-- once, in canonical order, and read back in that order.
pub record ResourceRequest : Type 0 where
  pub ticket : ℕ
  pub request_id : String
  pub workflow_id : Option String
  pub operation_id : Option String
  pub attempt_token : Option String
  pub owner_token : String
  pub category : String
  pub state : AdmissionState
  pub reason : Option String
  pub created_at : ℕ
  pub updated_at : ℕ
  pub resolved_evidence : Option String
  pub policy_fingerprint : String
  pub claims : List ResourceClaim

-- A row of runtime_capacity_requests.
pub record CapacityRequest : Type 0 where
  pub ticket : ℕ
  pub admission_id : String
  pub category : String
  pub owner_token : String
  pub weight : ℕ
  pub limit_snapshot : ℕ
  pub state : AdmissionState
  pub reason : Option String
  pub created_at : ℕ
  pub updated_at : ℕ
  pub resource_request_id : Option String

pub data ExecutionMode : Type 0 where
  sequential dag : ExecutionMode

-- A row of workflows.
pub record WorkflowRow : Type 0 where
  pub workflow_id : String
  pub state : WorkflowState
  pub current_step : ℕ
  pub version : ℕ
  pub execution_mode : ExecutionMode
  pub max_parallel_steps : ℕ
  pub updated_at : ℕ
  pub last_error : Option String
  pub cancel_requested_at : Option ℕ
  pub cancel_reason : Option String

-- The column dispatch_phase of an operation.
pub data DispatchPhase : Type 0 where
  reserved prepared may_dispatch settled : DispatchPhase

-- A row of workflow_operations.
pub record OperationRow : Type 0 where
  pub operation_id : String
  pub workflow_id : String
  pub step_index : ℕ
  pub operation_index : ℕ
  pub action : String
  pub state : OperationState
  pub attempts : ℕ
  pub version : ℕ
  pub attempt_generation : ℕ
  pub attempt_token : Option String
  pub execution_id : Option String
  pub dispatch_phase : Option DispatchPhase
  pub external_ref : Option String
  pub intent_evidence : Option String
  pub postcondition : Option String
  pub result : Option String
  pub evidence : Option String
  pub started_at : Option ℕ
  pub updated_at : ℕ
  pub finished_at : Option ℕ
  pub error : Option String

-- A row of workflow_steps.
pub record StepRow : Type 0 where
  pub workflow_id : String
  pub step_index : ℕ
  pub state : StepState
  pub attempts : ℕ
  pub started_at : Option ℕ
  pub finished_at : Option ℕ
  pub evidence : Option String
  pub error : Option String

-- A row of workflow_step_dependencies.
pub record DependencyRow : Type 0 where
  pub workflow_id : String
  pub step_index : ℕ
  pub dependency_step_index : ℕ

-- A row of workflow_leases, and the dataclass WorkflowLease.
pub record WorkflowLease : Type 0 where
  pub workflow_id : String
  pub owner_id : String
  pub lease_token : String
  pub acquired_at : ℕ
  pub heartbeat_at : ℕ
  pub expires_at : ℕ
  pub version : ℕ

-- A row of workflow_execution_admissions.
pub record AdmissionRow : Type 0 where
  pub operation_id : String
  pub workflow_id : String
  pub attempt_token : String
  pub execution_id : String
  pub lease_token : String
  pub owner_id : String
  pub category : String
  pub weight : ℕ
  pub admitted_at : ℕ

-- A row of workflow_events, without its number and metadata.
pub record EventRow : Type 0 where
  pub workflow_id : String
  pub step_index : Option ℕ
  pub operation_id : Option String
  pub event_type : String
  pub state : String
  pub created_at : ℕ

-- `next_request` and `next_capacity` are the counters of AUTOINCREMENT.
pub record Db : Type 0 where
  pub requests : List ResourceRequest
  pub next_request : ℕ
  pub capacity : List CapacityRequest
  pub next_capacity : ℕ
  pub workflows : List WorkflowRow
  pub operations : List OperationRow
  pub steps : List StepRow
  pub dependencies : List DependencyRow
  pub leases : List WorkflowLease
  pub admissions : List AdmissionRow
  pub events : List EventRow

abbrev pub empty_db : Db
empty_db = record {
  requests = [];
  next_request = 1;
  capacity = [];
  next_capacity = 1;
  workflows = [];
  operations = [];
  steps = [];
  dependencies = [];
  leases = [];
  admissions = [];
  events = [];
}

-- WHERE request_id = ?, WHERE admission_id = ?, WHERE workflow_id = ?, WHERE operation_id = ?
abbrev pub has_request_id : String → ResourceRequest → Bool
has_request_id i r = r.request_id == i

abbrev pub has_admission_id : String → CapacityRequest → Bool
has_admission_id i r = r.admission_id == i

abbrev pub find_request : String → Db → Option ResourceRequest
find_request i db = find (has_request_id i) db.requests

abbrev pub find_capacity : String → Db → Option CapacityRequest
find_capacity i db = find (has_admission_id i) db.capacity

abbrev pub find_workflow : String → Db → Option WorkflowRow
find_workflow i db = find (λ w. w.workflow_id == i) db.workflows

abbrev pub find_operation : String → Db → Option OperationRow
find_operation i db = find (λ o. o.operation_id == i) db.operations

abbrev pub find_lease : String → Db → Option WorkflowLease
find_lease i db = find (λ l. l.workflow_id == i) db.leases

-- resource_request_id = ?, where NULL equals nothing
abbrev pub is_child : String → Option String → Bool
is_child i none = false
is_child i (some parent) = parent == i

-- SELECT 1 FROM runtime_capacity_requests WHERE resource_request_id=? AND state!='released'
unfoldable pub has_unreleased_child : String → Db → Bool
has_unreleased_child i db =
    any (λ c. is_child i c.resource_request_id && not (is_released c.state)) db.capacity
