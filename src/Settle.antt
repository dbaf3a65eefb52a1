-- ===== src/Settle.antt =====
-- core/workflow_store.py: how an operation is settled, with its step, its event and its admission:
-- by the result of its attempt, or by a rejection before any admission.
-- Results, evidence and errors are texts, after `redact_inputs` and `_canonical`.
pub mod Steps
pub mod Once
pub mod Limits
pub mod Ready
use computerpilot_mcp.Prelude.{
  ℕ, ◌+◌, String, Bool, true, false, not, ◌&&◌, ◌||◌, List, [], ◌∷◌, ◌++◌, Option, none, some, ◌==◌,
  ℕ_eq, string_eq, option_eq, any, if◌then◌else◌,
}
use computerpilot_mcp.Prelude.Table.{find, update_where, delete_where}
use computerpilot_mcp.Prelude.Text.{text_take}
use computerpilot_mcp.Prelude.Result.{Result, ok, err, raise, require, or_raise, ◌>>=◌, ◌>>◌}
use computerpilot_mcp.Lifecycle.{
  WorkflowState, OperationState, StepState, operation_state_eq, validate_operation_transition,
}
use computerpilot_mcp.Store.{
  Db, OperationRow, StepRow, AdmissionRow, ResourceRequest, DispatchPhase, reserved, prepared,
  may_dispatch, settled, is_released, is_quarantined, is_child, has_unreleased_child,
  find_operation,
}
use computerpilot_mcp.Dispatch.{
  require_current_lease_row, has_admission, has_operation_id, event, coalesce, is_set,
}
use computerpilot_mcp.Dispatch.Attempt.{
  Attempt, fenced_operation, update_attempt, read_operation, admits, is_step,
}

-- What the caller of `complete_operation_attempt` reports. `unresolved_evidence` is the evidence
-- with the marks of unresolved ownership.
pub record Outcome : Type 0 where
  pub final_state : OperationState
  pub result : Option String
  pub evidence : Option String
  pub unresolved_evidence : String
  pub error : Option String

abbrev pub is_final_report : OperationState → Bool
is_final_report state =
    state == OperationState.succeeded
    || state == OperationState.failed
    || state == OperationState.uncertain
    || state == OperationState.cancelled

-- Nothing was dispatched, and the attempt failed or was cancelled.
abbrev pub settles_early : OperationRow → OperationState → Bool
settles_early o final =
    (o.state == OperationState.created || o.state == OperationState.failed)
    && early_phase o.dispatch_phase
    && (final == OperationState.failed || final == OperationState.cancelled)
  where
    early_phase : Option DispatchPhase → Bool
    early_phase none = false
    early_phase (some reserved) = true
    early_phase (some prepared) = true
    early_phase (some may_dispatch) = false
    early_phase (some settled) = false

-- A resource request of the attempt that is quarantined or has a permit not released.
unfoldable pub ownership_unresolved : Attempt → Db → Bool
unfolding has_unreleased_child
ownership_unresolved a db =
    any
      (λ r.
        is_child a.operation_id r.operation_id
        && is_child a.attempt_token r.attempt_token
        && (is_quarantined r.state || has_unreleased_child r.request_id db))
      db.requests

abbrev pub final_outcome : Attempt → Outcome → Db → Outcome
final_outcome a r db =
    if ownership_unresolved a db
    then record r {
      final_state = OperationState.uncertain;
      evidence = some r.unresolved_evidence;
      error = some "workflow_child_ownership_unresolved";
    }
    else r

-- The step's state; `complete_operation_attempt` has no other final state.
abbrev pub step_of : OperationState → StepState
step_of OperationState.succeeded = StepState.completed
step_of OperationState.failed = StepState.failed
step_of OperationState.cancelled = StepState.cancelled
step_of _ = StepState.uncertain

-- error[:2_000] if error else None
abbrev pub bounded : ℕ → Option String → Option String
bounded n none = none
bounded n (some e) = if e == "" then none else some (text_take n e)

abbrev pub state_text : OperationState → String
state_text OperationState.created = "created"
state_text OperationState.running = "running"
state_text OperationState.waiting = "waiting"
state_text OperationState.succeeded = "succeeded"
state_text OperationState.failed = "failed"
state_text OperationState.uncertain = "uncertain"
state_text OperationState.reconciling = "reconciling"
state_text OperationState.acknowledged = "acknowledged"
state_text OperationState.unresolvable = "unresolvable"
state_text OperationState.cancelled = "cancelled"

abbrev pub settle_operation : Outcome → ℕ → OperationRow → OperationRow
settle_operation r now o = record o {
  state = r.final_state;
  dispatch_phase = some settled;
  version = o.version + 1;
  result = r.result;
  evidence = r.evidence;
  error = bounded 2000 r.error;
  updated_at = now;
  finished_at = some now;
}

abbrev pub settle_step : Outcome → ℕ → StepRow → StepRow
settle_step r now s = record s {
  state = step_of r.final_state;
  evidence = r.evidence;
  error = bounded 2000 r.error;
  finished_at = some now;
}

abbrev pub settle_attempt : Attempt → Outcome → ℕ → OperationRow → Db → Db
settle_attempt a r now o db = record (update_attempt a (settle_operation r now) db) {
  steps = update_where (is_step o.workflow_id o.step_index) (settle_step r now) db.steps;
  events =
      db.events
      ++ event o.workflow_id (some o.step_index) (some a.operation_id) "operation_settled"
          (state_text r.final_state) now
        ∷ [];
  admissions = delete_where (admits a) db.admissions;
}

unfoldable pub complete_operation_attempt : Attempt → Outcome → ℕ → Db → Result (OperationRow × Db)
unfolding fenced_operation validate_operation_transition ownership_unresolved text_take
complete_operation_attempt a r now db = do
  require (is_final_report r.final_state) "invalid_operation_resolution"
  o ← fenced_operation a now db
  if settles_early o r.final_state
      then ok tt
      else validate_operation_transition o.state r.final_state
  read_operation a.operation_id (settle_attempt a (final_outcome a r db) now o db)

-- The UNION of admissions and unreleased resource requests of the operation.
unfoldable pub has_resource_owner : String → Db → Bool
has_resource_owner i db =
    any (has_admission i) db.admissions
    || any (λ r. is_child i r.operation_id && not (is_released r.state)) db.requests

abbrev pub reject_operation : String → String → ℕ → OperationRow → OperationRow
reject_operation error evidence now o = record o {
  state = OperationState.failed;
  attempts = o.attempts + 1;
  version = o.version + 1;
  evidence = some evidence;
  error = some error;
  started_at = coalesce o.started_at (some now);
  finished_at = some now;
  updated_at = now;
}

abbrev reject_step : String → ℕ → StepRow → StepRow
reject_step error now s = record s {
  state = StepState.failed;
  attempts = s.attempts + 1;
  error = some error;
  started_at = coalesce s.started_at (some now);
  finished_at = some now;
}

-- The canonical JSON of {"dispatch_phase": "preflight_rejected", "no_dispatch": True}
abbrev pub preflight_evidence : String
preflight_evidence = "{\"dispatch_phase\":\"preflight_rejected\",\"no_dispatch\":true}"

unfoldable pub fail_unadmitted_operation : String → String → String → ℕ → Db → Result Db
unfolding require_current_lease_row has_resource_owner text_take
fail_unadmitted_operation i lease_token error_code now db = do
  o ← or_raise (find_operation i db) "workflow_operation_not_found"
  require_current_lease_row o.workflow_id lease_token now db
  require (o.state == OperationState.created && not (is_set o.attempt_token))
      "workflow_attempt_conflict"
  require (not (has_resource_owner i db)) "workflow_attempt_conflict"
  let error = text_take 128 error_code in
      ok (record db {
        operations =
            update_where (has_operation_id i) (reject_operation error preflight_evidence now)
              db.operations;
        steps = update_where (is_step o.workflow_id o.step_index) (reject_step error now) db.steps;
        events =
            db.events
            ++ event o.workflow_id (some o.step_index) (some i) "operation_preflight_failed"
                "failed" now
              ∷ [];
      })
