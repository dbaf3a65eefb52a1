-- ===== src/Dispatch/Attempt.antt =====
-- core/workflow_store.py: what an attempt at an operation presents, its preparation, and the leave to
-- dispatch it.
use computerpilot_mcp.Prelude.{
  ℕ, ◌+◌, String, Bool, true, false, not, ◌&&◌, ◌||◌, [], ◌∷◌, ◌++◌, Option, none, some, ◌==◌, ℕ_eq,
  string_eq,
}
use computerpilot_mcp.Prelude.Table.{find, update_where}
use computerpilot_mcp.Prelude.Result.{Result, ok, require, or_raise, ◌>>=◌, ◌>>◌}
use computerpilot_mcp.Lifecycle.{
  WorkflowState, OperationState, StepState, workflow_state_eq, operation_state_eq,
}
use computerpilot_mcp.Store.{
  Db, WorkflowRow, OperationRow, StepRow, AdmissionRow, prepared, may_dispatch, is_child,
  find_workflow, find_operation,
}
use computerpilot_mcp.Dispatch.{coalesce, event, is_set, require_current_lease_row}

-- What an attempt presents.
pub record Attempt : Type 0 where
  pub operation_id : String
  pub expected_version : ℕ
  pub attempt_token : String
  pub lease_token : String

-- str(operation["attempt_token"] or "")
abbrev pub token_text : Option String → String
token_text none = ""
token_text (some token) = token

abbrev pub owns_operation : Attempt → OperationRow → Bool
owns_operation a o =
    o.version == a.expected_version && token_text o.attempt_token == a.attempt_token

-- WHERE operation_id = ? AND attempt_token = ?
abbrev pub admits : Attempt → AdmissionRow → Bool
admits a r = r.operation_id == a.operation_id && r.attempt_token == a.attempt_token

abbrev owns_admission : Attempt → Option AdmissionRow → Bool
owns_admission a none = false
owns_admission a (some r) = r.lease_token == a.lease_token

-- The checks that start prepare, may-dispatch and complete alike.
unfoldable pub fenced_operation : Attempt → ℕ → Db → Result OperationRow
unfolding require_current_lease_row
fenced_operation a now db = do
  o ← or_raise (find_operation a.operation_id db) "workflow_operation_not_found"
  require (owns_operation a o) "workflow_attempt_conflict"
  require (owns_admission a (find (admits a) db.admissions)) "workflow_attempt_conflict"
  require_current_lease_row o.workflow_id a.lease_token now db
  ok o

abbrev pub is_cancelled : Option WorkflowRow → Bool
is_cancelled none = true
is_cancelled (some w) = is_set w.cancel_requested_at || w.state == WorkflowState.cancelling

-- WHERE operation_id = ? AND version = ? AND attempt_token = ?
abbrev pub is_attempt : Attempt → OperationRow → Bool
is_attempt a o =
    o.operation_id == a.operation_id
    && o.version == a.expected_version
    && is_child a.attempt_token o.attempt_token

abbrev pub update_attempt : Attempt → (OperationRow → OperationRow) → Db → Db
update_attempt a f db = record db { operations = update_where (is_attempt a) f db.operations }

-- The row as it is read back.
abbrev pub read_operation : String → Db → Result (OperationRow × Db)
read_operation i db =
    or_raise (find_operation i db) "workflow_operation_not_found" >>= λ o. ok (o, db)

abbrev pub prepare : Option String → Option String → ℕ → OperationRow → OperationRow
prepare intent postcondition now o = record o {
  dispatch_phase = some prepared;
  intent_evidence = intent;
  postcondition = coalesce postcondition o.postcondition;
  version = o.version + 1;
  updated_at = now;
}

-- The intent and the postcondition are in canonical JSON.
unfoldable pub prepare_operation_attempt :
    Attempt → Option String → Option String → ℕ → Db → Result (OperationRow × Db)
unfolding fenced_operation
prepare_operation_attempt a intent postcondition now db = do
  o ← fenced_operation a now db
  require (not (is_cancelled (find_workflow o.workflow_id db))) "workflow_cancelled_before_dispatch"
  read_operation a.operation_id (update_attempt a (prepare intent postcondition now) db)

abbrev pub start_operation : ℕ → OperationRow → OperationRow
start_operation now o = record o {
  state = OperationState.running;
  dispatch_phase = some may_dispatch;
  attempts = o.attempts + 1;
  version = o.version + 1;
  updated_at = now;
  started_at = coalesce o.started_at (some now);
}

abbrev pub start_step : ℕ → StepRow → StepRow
start_step now s = record s {
  state = StepState.running;
  attempts = s.attempts + 1;
  started_at = coalesce s.started_at (some now);
}

abbrev pub is_step : String → ℕ → StepRow → Bool
is_step workflow_id step s = s.workflow_id == workflow_id && s.step_index == step

abbrev pub dispatch_operation : Attempt → ℕ → OperationRow → Db → Db
dispatch_operation a now o db = record (update_attempt a (start_operation now) db) {
  steps = update_where (is_step o.workflow_id o.step_index) (start_step now) db.steps;
  events =
      db.events
      ++ event o.workflow_id (some o.step_index) (some a.operation_id) "operation_may_dispatch"
          "running" now
        ∷ [];
}

unfoldable pub mark_operation_may_dispatch : Attempt → ℕ → Db → Result (OperationRow × Db)
unfolding fenced_operation
mark_operation_may_dispatch a now db = do
  o ← fenced_operation a now db
  require (not (is_cancelled (find_workflow o.workflow_id db))) "workflow_cancelled_before_dispatch"
  read_operation a.operation_id (dispatch_operation a now o db)
