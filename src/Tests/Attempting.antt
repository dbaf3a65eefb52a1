-- ===== src/Tests/Attempting.antt =====
-- One operation that is claimed, prepared, dispatched and settled, and the theorems at that run.
use native.Mathlib.Nat.{le_refl}
use computerpilot_mcp.Prelude.{
  ℕ, ◌≤◌, String, false, [], ◌∷◌, none, some, ◌≡◌, ◌≢◌, ◌⊎◌, refl, AllPairs, ◌==◌, string_eq,
}
use computerpilot_mcp.Prelude.Result.{Result, ok, err}
use computerpilot_mcp.Lifecycle.{WorkflowState, OperationState}
use computerpilot_mcp.Store.{
  Db, empty_db, WorkflowRow, dag, WorkflowLease, OperationRow, find_operation, find_workflow,
}
use computerpilot_mcp.Dispatch.{
  ClaimArgs, claim_ready_operation, weight_where, in_category, in_workflow, workflow_limit,
}
use computerpilot_mcp.Dispatch.Attempt.{Attempt, mark_operation_may_dispatch}
use computerpilot_mcp.Settle.{Outcome, complete_operation_attempt}
use computerpilot_mcp.Settle.Steps.{AttemptRun, claiming, completing}
use computerpilot_mcp.Settle.Once.{dispatched_once, settled_once}
use computerpilot_mcp.Settle.Limits.{LimitedRun, admissions_within_limit}
use computerpilot_mcp.Settle.Ready.{ParentsDone, claim_admits_ready}

abbrev db_of {ℓ} : {A : Type ℓ} → Result (A × Db) → Db
db_of (ok (_, db)) = db
db_of (err e) = empty_db

abbrev workflow : WorkflowRow
workflow = record {
  workflow_id = "w";
  state = WorkflowState.running;
  current_step = 0;
  version = 1;
  execution_mode = dag;
  max_parallel_steps = 2;
  updated_at = 0;
  last_error = none;
  cancel_requested_at = none;
  cancel_reason = none;
}

abbrev lease : WorkflowLease
lease = record {
  workflow_id = "w";
  owner_id = "one";
  lease_token = "t";
  acquired_at = 0;
  heartbeat_at = 0;
  expires_at = 5000;
  version = 1;
}

abbrev operation : String → ℕ → OperationState → OperationRow
operation i step state = record {
  operation_id = i;
  workflow_id = "w";
  step_index = step;
  operation_index = 0;
  action = "git_commit";
  state = state;
  attempts = 0;
  version = 1;
  attempt_generation = 0;
  attempt_token = none;
  execution_id = none;
  dispatch_phase = none;
  external_ref = none;
  intent_evidence = none;
  postcondition = none;
  result = none;
  evidence = none;
  started_at = none;
  updated_at = 0;
  finished_at = none;
  error = none;
}

-- The first step is done, and the second depends on it.
abbrev start : Db
start = record empty_db {
  workflows = workflow ∷ [];
  leases = lease ∷ [];
  operations =
      operation "o1" 0 OperationState.succeeded ∷ operation "o2" 1 OperationState.created ∷ [];
  dependencies = record { workflow_id = "w"; step_index = 1; dependency_step_index = 0 } ∷ [];
}

abbrev claim : ClaimArgs
claim = record {
  operation_id = "o2";
  lease_token = "t";
  owner_id = "one";
  execution_id = "e";
  global_limit = 4;
  category = "workflow_step";
  weight = 1;
  attempt_token = "a";
}

db_claimed : Db
unfolding claim_ready_operation
db_claimed = db_of (claim_ready_operation claim 10 start)

claimed : claim_ready_operation claim 10 start ≡ ok (find_operation "o2" db_claimed, db_claimed)
unfolding claim_ready_operation db_claimed
claimed = refl

claim_admits_ready_example :
    (db_claimed ≡ start)
    ⊎ ((o : OperationRow) × (w : WorkflowRow) × (find_operation "o2" start ≡ some o)
        × (find_workflow o.workflow_id start ≡ some w)
        × ((o.state ≡ OperationState.created) ⊎ (o.state ≡ OperationState.failed))
        × (w.state ≡ WorkflowState.running)
        × (w.cancel_requested_at ≡ none)
        × ParentsDone o start
        × (weight_where (in_category "workflow_step") db_claimed.admissions ≤ 4)
        × (weight_where (in_workflow o.workflow_id "workflow_step") db_claimed.admissions
            ≤ workflow_limit w))
claim_admits_ready_example = claim_admits_ready claim 10 start db_claimed _ claimed

abbrev attempt : ℕ → Attempt
attempt version = record {
  operation_id = "o2";
  expected_version = version;
  attempt_token = "a";
  lease_token = "t";
}

db_dispatched : Db
unfolding mark_operation_may_dispatch db_claimed
db_dispatched = db_of (mark_operation_may_dispatch (attempt 2) 20 db_claimed)

row_of : Result (OperationRow × Db) → OperationRow
row_of (ok (o, _)) = o
row_of (err e) = operation "" 0 OperationState.created

row_dispatched : OperationRow
unfolding mark_operation_may_dispatch db_claimed row_of
row_dispatched = row_of (mark_operation_may_dispatch (attempt 2) 20 db_claimed)

dispatched :
    mark_operation_may_dispatch (attempt 2) 20 db_claimed ≡ ok (row_dispatched, db_dispatched)
unfolding mark_operation_may_dispatch db_claimed db_dispatched row_dispatched
dispatched = refl

abbrev success : Outcome
success = record {
  final_state = OperationState.succeeded;
  result = some "{}";
  evidence = none;
  unresolved_evidence = "{}";
  error = none;
}

db_settled : Db
unfolding complete_operation_attempt db_dispatched
db_settled = db_of (complete_operation_attempt (attempt 3) success 30 db_dispatched)

row_settled : OperationRow
unfolding complete_operation_attempt db_dispatched row_of
row_settled = row_of (complete_operation_attempt (attempt 3) success 30 db_dispatched)

completed :
    complete_operation_attempt (attempt 3) success 30 db_dispatched ≡ ok (row_settled, db_settled)
unfolding complete_operation_attempt db_dispatched db_settled row_settled
completed = refl

settled_row : row_settled.state ≡ OperationState.succeeded
unfolding row_settled
settled_row = refl

dispatched_once_example :
    (mark_operation_may_dispatch (attempt 2) 40 db_settled ≢ ok (row_settled, db_settled))
    × (complete_operation_attempt (attempt 2) success 40 db_settled ≢ ok (row_settled, db_settled))
dispatched_once_example =
    dispatched_once (attempt 2) 20 db_claimed db_dispatched db_settled row_dispatched refl
      dispatched
      (AttemptRun.next AttemptRun.here (completing (attempt 3) success 30 row_settled completed)) 40
      success (row_settled, db_settled)

settled_once_example :
    (mark_operation_may_dispatch (attempt 3) 40 db_settled ≢ ok (row_settled, db_settled))
    × (complete_operation_attempt (attempt 3) success 40 db_settled ≢ ok (row_settled, db_settled))
settled_once_example =
    settled_once (attempt 3) success 30 db_dispatched db_settled db_settled row_settled refl
      completed AttemptRun.here 40 success (row_settled, db_settled)

admissions_within_limit_example :
    (weight_where (in_category "workflow_step") db_claimed.admissions ≤ 4)
    × AllPairs (λ x y. (x.operation_id == y.operation_id) ≡ false) db_claimed.admissions
admissions_within_limit_example =
    admissions_within_limit "workflow_step" 4 start db_claimed refl
      (LimitedRun.next LimitedRun.here (claiming claim 10 _ claimed) (λ _. le_refl 4))
