-- ===== src/Resume.antt =====
-- core/workflow_store.py: the transition of a workflow to another state, and its resumption, which
-- requeues the operations that failed. core/workflow_actions.py: which actions change anything.
-- The value of "dispatch_phase" in the JSON of some evidence is an argument.
pub mod Outcomes
pub mod Settled
pub mod Safe
use computerpilot_mcp.Prelude.{
  ℕ, ◌+◌, String, Bool, true, false, not, ◌&&◌, ◌||◌, List, [], ◌∷◌, ◌++◌, Option, none, some, ◌==◌,
  ℕ_eq, string_eq, any, keep_if, if◌then◌else◌,
}
use computerpilot_mcp.Prelude.Table.{update_where}
use computerpilot_mcp.Prelude.Result.{Result, ok, raise, require, or_raise, ◌>>=◌, ◌>>◌}
use computerpilot_mcp.Lifecycle.{
  WorkflowState, OperationState, StepState, workflow_state_eq, operation_state_eq,
  validate_workflow_transition,
}
use computerpilot_mcp.Store.{
  Db, WorkflowRow, OperationRow, StepRow, find_workflow, is_child, is_released,
}
use computerpilot_mcp.Dispatch.{event}
use computerpilot_mcp.Aggregate.{is_uncertain, is_failed}
use computerpilot_mcp.Aggregate.Resolve.{is_dag}
use computerpilot_mcp.Advance.{require_given_token, bounded_error}
use computerpilot_mcp.Cancel.{has_version}

-- get_action_descriptor(action).mutates
unfoldable pub action_mutates : String → Result Bool
action_mutates action =
    if action == "apply_patch"
      || action == "git_stage"
      || action == "git_commit"
      || action == "run_durable_job"
      || action == "desktop_semantic_action"
      || action == "browser_action"
    then ok true
    else if action == "affected_tests"
        || action == "verify_changes"
        || action == "git_status"
        || action == "check_file"
        || action == "check_http"
    then ok false
    else raise "workflow_action_not_allowed"

-- state IN ('running','waiting','uncertain','reconciling')
abbrev pub is_unsettled : OperationState → Bool
is_unsettled state =
    state == OperationState.running || state == OperationState.waiting || is_uncertain state

-- Whether the workflow has an unsettled operation, a request that is not released, or an admission.
abbrev pub has_unsettled : String → Db → Bool
has_unsettled i db =
    any (λ o. o.workflow_id == i && is_unsettled o.state) db.operations
    || any (λ r. is_child i r.workflow_id && not (is_released r.state)) db.requests
    || any (λ a. a.workflow_id == i) db.admissions

abbrev pub before_dispatch : Option String → Bool
before_dispatch none = false
before_dispatch (some phase) =
    phase == "reserved" || phase == "prepared" || phase == "preflight_rejected"

-- operation["external_ref_json"], as a truth value
abbrev pub is_text : Option String → Bool
is_text none = false
is_text (some s) = not (s == "")

module _ (phase_of : String → Option String) where
  -- json.loads(evidence or "{}").get("dispatch_phase")
  abbrev pub evidence_phase : Option String → Option String
  evidence_phase none = none
  evidence_phase (some evidence) = if evidence == "" then none else phase_of evidence

  -- The loop over the operations that failed.
  unfoldable pub require_replayable : List OperationRow → Result (Unit {0})
  require_replayable [] = ok tt
  require_replayable (o ∷ os) = do
    mutates ← action_mutates o.action
    require
        (not (mutates || o.action == "verify_changes")
          || before_dispatch (evidence_phase o.evidence) && not (is_text o.external_ref))
        "workflow_resume_unsafe_replay"
    require_replayable os

  -- _require_safe_resume
  unfoldable pub require_safe_resume : String → Db → Result (Unit {0})
  unfolding require_replayable
  require_safe_resume i db =
      require (not (has_unsettled i db)) "workflow_resume_unresolved"
      >> require_replayable (keep_if (λ o. o.workflow_id == i && is_failed o.state) db.operations)

abbrev pub reset_operation : ℕ → OperationRow → OperationRow
reset_operation now o = record o {
  state = OperationState.created;
  version = o.version + 1;
  attempt_token = none;
  execution_id = none;
  dispatch_phase = none;
  result = none;
  evidence = none;
  error = none;
  updated_at = now;
}

abbrev pub reset_step : StepRow → StepRow
reset_step s = record s {
  state = StepState.created;
  evidence = none;
  error = none;
  finished_at = none;
}

-- WHERE operation_id=? AND state='failed'
abbrev pub is_failed_row : String → OperationRow → Bool
is_failed_row i o = o.operation_id == i && o.state == OperationState.failed

abbrev pub requeue_one : String → ℕ → OperationRow → Db → Db
requeue_one i now o db = record db {
  operations = update_where (is_failed_row o.operation_id) (reset_operation now) db.operations;
  steps =
      update_where (λ s. s.workflow_id == i && s.step_index == o.step_index) reset_step db.steps;
  events =
      db.events
      ++ event i (some o.step_index) (some o.operation_id) "operation_explicitly_requeued" "created"
          now
        ∷ [];
}

unfoldable pub requeue_all : String → ℕ → List OperationRow → Db → Db
requeue_all i now [] db = db
requeue_all i now (o ∷ os) db = requeue_all i now os (requeue_one i now o db)

-- WHERE workflow_id=? AND state='failed'
abbrev pub failed_of : String → Db → List OperationRow
failed_of i db = keep_if (λ o. o.workflow_id == i && o.state == OperationState.failed) db.operations

-- An explicit resumption retries the failures of a graph.
abbrev pub retries : WorkflowRow → Bool
retries w =
    is_dag w.execution_mode && (w.state == WorkflowState.failed || w.state == WorkflowState.paused)

-- The new step, if there is one, or the step as it was.
abbrev pub step_or : Option ℕ → ℕ → ℕ
step_or none old = old
step_or (some step) old = step

abbrev pub put_state_of : WorkflowState → Option ℕ → Option String → ℕ → WorkflowRow → WorkflowRow
put_state_of state step error now w = record w {
  state = state;
  version = w.version + 1;
  updated_at = now;
  last_error = error;
  current_step = step_or step w.current_step;
}

module _ (phase_of : String → Option String) where
  unfoldable pub requeue : String → WorkflowRow → WorkflowState → ℕ → Db → Result Db
  unfolding require_safe_resume requeue_all
  requeue i w state now db =
      if state == WorkflowState.queued
      then require_safe_resume phase_of i db
        >> ok (if retries w then requeue_all i now (failed_of i db) db else db)
      else ok db

  unfoldable pub transition :
      String → ℕ → WorkflowState → Option ℕ → Option String → Option String → ℕ → Db → Result Db
  unfolding requeue require_given_token bounded_error
  transition i expected_version state current_step last_error lease_token now db = do
    w ← or_raise (find_workflow i db) "workflow_not_found"
    require (w.version == expected_version) "workflow_version_conflict"
    require_given_token i lease_token now db
    validate_workflow_transition w.state state
    db' ← requeue i w state now db
    ok (record db' {
      workflows =
          update_where (has_version i expected_version)
            (put_state_of state current_step (bounded_error last_error) now) db'.workflows;
    })
