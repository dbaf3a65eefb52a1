-- ===== src/Tests/Resuming.antt =====
-- A workflow that failed and is resumed, and the theorem at it.
use computerpilot_mcp.Prelude.{
  String, [], ◌∷◌, Option, none, some, ◌≡◌, refl, ◌==◌, string_eq, if◌then◌else◌,
}
use computerpilot_mcp.Prelude.Result.{ok}
use computerpilot_mcp.Lifecycle.{WorkflowState, OperationState, validate_workflow_transition}
use computerpilot_mcp.Store.{Db, empty_db, WorkflowRow, OperationRow}
use computerpilot_mcp.Resume.{transition, action_mutates}
use computerpilot_mcp.Resume.Safe.{IsResumed, transition-IsResumed}
use computerpilot_mcp.Tests.Aggregating.{workflow, operation, value}

-- The value of "dispatch_phase" in the two texts of evidence that the tests store.
abbrev phase_of : String → Option String
phase_of evidence =
    if evidence == "{\"dispatch_phase\":\"preflight_rejected\",\"no_dispatch\":true}"
    then some "preflight_rejected"
    else none

-- A commit that was rejected before its dispatch, in a workflow that failed.
abbrev rejected : OperationRow
rejected = record (operation "o" 0 OperationState.failed) {
  attempt_token = none;
  execution_id = none;
  dispatch_phase = none;
  evidence = some "{\"dispatch_phase\":\"preflight_rejected\",\"no_dispatch\":true}";
}

abbrev failed_workflow : WorkflowRow
failed_workflow = record workflow { state = WorkflowState.failed }

abbrev failed_db : Db
failed_db = record empty_db { workflows = failed_workflow ∷ []; operations = rejected ∷ [] }

db_resumed : Db
unfolding transition action_mutates
db_resumed = value (transition phase_of "w" 1 WorkflowState.queued none none none 8 failed_db)

resumed : transition phase_of "w" 1 WorkflowState.queued none none none 8 failed_db ≡ ok db_resumed
unfolding transition action_mutates db_resumed validate_workflow_transition
resumed = refl

transition-IsResumed_example : IsResumed phase_of "w" 1 failed_db db_resumed
transition-IsResumed_example =
    transition-IsResumed phase_of "w" 1 none none none 8 failed_db db_resumed failed_workflow refl
      refl resumed
