-- ===== src/Aggregate/Rows.antt =====
-- What the queries of the aggregate say of the rows of the tables.
use computerpilot_mcp.Prelude.{String, true, List, some, ◌≡◌, ◌⊎◌, arith, ℕ_eq, string_eq, eq_iff}
use computerpilot_mcp.Prelude.Quantify.{Any}
use computerpilot_mcp.Lifecycle.{OperationState, operation_state_eq}
use computerpilot_mcp.Store.{OperationRow, AdmissionRow, ResourceRequest, active, quarantined}
use computerpilot_mcp.Dispatch.{is_success}
use computerpilot_mcp.Aggregate.{is_step_operation, in_flight, is_uncertain}

-- The operation stands for a step of the workflow.
abbrev pub IsStepOf : String → OperationRow → Type 0
IsStepOf i o = (o.workflow_id ≡ i) × (o.operation_index ≡ 0)

abbrev pub IsDone : OperationState → Type 0
IsDone s = (s ≡ OperationState.succeeded) ⊎ (s ≡ OperationState.acknowledged)

abbrev pub IsDoubtful : OperationState → Type 0
IsDoubtful s = (s ≡ OperationState.uncertain) ⊎ (s ≡ OperationState.reconciling)

abbrev pub IsInFlight : OperationState → Type 0
IsInFlight s =
    (s ≡ OperationState.created) ⊎ ((s ≡ OperationState.running) ⊎ (s ≡ OperationState.waiting))

-- The request is the workflow's, and active or quarantined.
abbrev pub IsHeldBy : String → ResourceRequest → Type 0
IsHeldBy i r = (r.workflow_id ≡ some i) × ((r.state ≡ active) ⊎ (r.state ≡ quarantined))

-- The admission is the workflow's, and its operation is in flight.
abbrev pub AdmitsInFlight : String → List OperationRow → AdmissionRow → Type 0
AdmitsInFlight i operations a =
    (a.workflow_id ≡ i)
    × Any (λ o. (o.operation_id ≡ a.operation_id) × IsInFlight o.state) operations

pub is_step_operation-true :
    (i : String) (o : OperationRow) → is_step_operation i o ≡ true → IsStepOf i o
is_step_operation-true i o h = (ground (arith, eq_iff o.workflow_id i), ground arith)

pub IsStepOf-is_step_operation :
    (i : String) (o : OperationRow) → IsStepOf i o → is_step_operation i o ≡ true
IsStepOf-is_step_operation i o h = ground (arith, h.0, h.1, eq_iff o.workflow_id i)

pub is_success-IsDone : (s : OperationState) → is_success s ≡ true → IsDone s
is_success-IsDone s h = ground arith

pub IsDone-is_success : (s : OperationState) → IsDone s → is_success s ≡ true
IsDone-is_success s h = ground arith

pub is_uncertain-IsDoubtful : (s : OperationState) → is_uncertain s ≡ true → IsDoubtful s
is_uncertain-IsDoubtful s h = ground arith

pub IsDoubtful-is_uncertain : (s : OperationState) → IsDoubtful s → is_uncertain s ≡ true
IsDoubtful-is_uncertain s h = ground arith

pub in_flight-IsInFlight : (s : OperationState) → in_flight s ≡ true → IsInFlight s
in_flight-IsInFlight s h = ground arith

pub IsInFlight-in_flight : (s : OperationState) → IsInFlight s → in_flight s ≡ true
IsInFlight-in_flight s h = ground arith
