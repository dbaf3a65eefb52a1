-- ===== src/Tests/Aggregating.antt =====
-- A workflow whose state is recomputed and which is cancelled, and the theorems at that run.
use computerpilot_mcp.Prelude.{
  ℕ, String, true, false, List, [], ◌∷◌, none, some, ◌≡◌, ◌≢◌, ◌⊎◌, inl, inr, refl, string_eq,
}
use computerpilot_mcp.Prelude.Quantify.{Any}
use computerpilot_mcp.Prelude.Result.{Result, ok, err, raise}
use computerpilot_mcp.Lifecycle.{WorkflowState, OperationState, validate_workflow_transition}
use computerpilot_mcp.Store.{Db, empty_db, WorkflowRow, dag, WorkflowLease, OperationRow, reserved}
use computerpilot_mcp.Dispatch.Attempt.{
  Attempt, mark_operation_may_dispatch, prepare_operation_attempt,
}
use computerpilot_mcp.Aggregate.{aggregate_state, recompute_workflow_aggregate}
use computerpilot_mcp.Aggregate.Completed.{IsCompleted, aggregate_completed, aggregate_unresolved}
use computerpilot_mcp.Aggregate.Rows.{AdmitsInFlight}
use computerpilot_mcp.Aggregate.Stable.{recompute_stable}
use computerpilot_mcp.Settle.Steps.{AttemptRun}
use computerpilot_mcp.Cancel.{request_cancel}
use computerpilot_mcp.Resume.{transition}
use computerpilot_mcp.Advance.{advance_running}
use computerpilot_mcp.Advance.Versions.{VersionRun, recomputing, advanced_once}
use computerpilot_mcp.Cancel.Wins.{cancelled_never_dispatches}

abbrev pub workflow : WorkflowRow
workflow = record {
  workflow_id = "w";
  state = WorkflowState.running;
  current_step = 0;
  version = 1;
  execution_mode = dag;
  max_parallel_steps = 2;
  updated_at = 0;
  last_error = none;
  cancel_requested_at = none;
  cancel_reason = none;
}

abbrev lease : WorkflowLease
lease = record {
  workflow_id = "w";
  owner_id = "one";
  lease_token = "t";
  acquired_at = 0;
  heartbeat_at = 0;
  expires_at = 5000;
  version = 1;
}

abbrev pub operation : String → ℕ → OperationState → OperationRow
operation i step state = record {
  operation_id = i;
  workflow_id = "w";
  step_index = step;
  operation_index = 0;
  action = "git_commit";
  state = state;
  attempts = 1;
  version = 2;
  attempt_generation = 1;
  attempt_token = some "a";
  execution_id = some "e";
  dispatch_phase = some reserved;
  external_ref = none;
  intent_evidence = none;
  postcondition = none;
  result = none;
  evidence = none;
  started_at = none;
  updated_at = 0;
  finished_at = none;
  error = none;
}

abbrev steps : List OperationState → Db
steps states = record empty_db {
  workflows = workflow ∷ [];
  leases = lease ∷ [];
  operations = rows 0 states;
}
  where
    rows : ℕ → List OperationState → List OperationRow
    rows k [] = []
    rows k (s ∷ ss) = operation "o" k s ∷ rows 1 ss

abbrev finished : Db
finished = steps (OperationState.succeeded ∷ OperationState.acknowledged ∷ [])

aggregate_completed_example : IsCompleted workflow finished
unfolding aggregate_state
aggregate_completed_example = (aggregate_completed false workflow finished).0 refl

abbrev doubtful : Db
doubtful = steps (OperationState.succeeded ∷ OperationState.uncertain ∷ [])

aggregate_unresolved_example :
    (Any (AdmitsInFlight "w" doubtful.operations) doubtful.admissions
      × (((aggregate_state true workflow doubtful).target ≡ WorkflowState.running)
          ⊎ ((aggregate_state true workflow doubtful).target ≡ WorkflowState.cancelling)))
    ⊎ ((¬ Any (AdmitsInFlight "w" doubtful.operations) doubtful.admissions)
        × ((aggregate_state true workflow doubtful).target ≡ WorkflowState.uncertain))
aggregate_unresolved_example =
    aggregate_unresolved true workflow doubtful (inl (inr (inl ((refl, refl), inl refl))))

abbrev pub value : Result Db → Db
value (ok db) = db
value (err e) = empty_db

db_recomputed : Db
unfolding recompute_workflow_aggregate
db_recomputed = value (recompute_workflow_aggregate "w" "t" none false 10 finished)

recomputed : recompute_workflow_aggregate "w" "t" none false 10 finished ≡ ok db_recomputed
unfolding recompute_workflow_aggregate db_recomputed
recomputed = refl

recomputed_again :
    recompute_workflow_aggregate "w" "t" none false 20 db_recomputed ≡ ok db_recomputed
unfolding recompute_workflow_aggregate db_recomputed
recomputed_again = refl

recompute_stable_example : db_recomputed ≡ db_recomputed
recompute_stable_example =
    recompute_stable "w" "t" none false 10 20 finished db_recomputed db_recomputed recomputed
      recomputed_again

-- An attempt that was admitted and prepared when the cancellation comes.
abbrev admitted : Db
admitted = record (steps (OperationState.created ∷ [])) {
  admissions =
      record {
        operation_id = "o";
        workflow_id = "w";
        attempt_token = "a";
        execution_id = "e";
        lease_token = "t";
        owner_id = "one";
        category = "workflow_step";
        weight = 1;
        admitted_at = 0;
      }
      ∷ [];
}

db_cancelled : Db
unfolding request_cancel validate_workflow_transition
db_cancelled = value (request_cancel "w" 1 (some " stop ") 10 admitted)

cancelled : request_cancel "w" 1 (some " stop ") 10 admitted ≡ ok db_cancelled
unfolding request_cancel validate_workflow_transition db_cancelled
cancelled = refl

abbrev attempt : Attempt
attempt = record {
  operation_id = "o";
  expected_version = 2;
  attempt_token = "a";
  lease_token = "t";
}

abbrev prepared_row : OperationRow
prepared_row = operation "o" 0 OperationState.created

cancelled_never_dispatches_example :
    (mark_operation_may_dispatch attempt 20 db_cancelled ≢ ok (prepared_row, db_cancelled))
    × (prepare_operation_attempt attempt none none 20 db_cancelled
        ≢ ok (prepared_row, db_cancelled))
unfolding db_cancelled request_cancel validate_workflow_transition
cancelled_never_dispatches_example =
    cancelled_never_dispatches "w" 1 (some " stop ") 10 admitted db_cancelled db_cancelled workflow
      refl refl cancelled AttemptRun.here attempt prepared_row refl refl 20 none none
      (prepared_row, db_cancelled)

-- The workflow goes on to step 1, and its state is recomputed.
db_advanced : Db
unfolding advance_running
db_advanced = value (advance_running "w" 1 1 (some "t") 5 admitted)

db_settled : Db
unfolding recompute_workflow_aggregate aggregate_state
db_settled = value (recompute_workflow_aggregate "w" "t" none true 6 db_advanced)

advanced : advance_running "w" 1 1 (some "t") 5 admitted ≡ ok db_advanced
unfolding advance_running db_advanced
advanced = refl

settled : recompute_workflow_aggregate "w" "t" none true 6 db_advanced ≡ ok db_settled
unfolding advance_running db_advanced db_settled recompute_workflow_aggregate aggregate_state
settled = refl

advanced_once_example :
    (advance_running "w" 1 2 none 7 db_settled ≡ raise "workflow_version_conflict")
    × (request_cancel "w" 1 none 7 db_settled ≡ raise "workflow_version_conflict")
    × (transition (λ evidence. none) "w" 1 WorkflowState.paused none none none 7 db_settled
        ≡ raise "workflow_version_conflict")
advanced_once_example =
    advanced_once "w" 1 1 (some "t") 5 admitted db_advanced db_settled advanced
      (VersionRun.next VersionRun.here (recomputing "w" "t" none true 6 settled)) (λ evidence. none)
      WorkflowState.paused 2 none none none none 7
