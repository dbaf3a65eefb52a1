-- ===== src/Aggregate.antt =====
-- core/workflow_store.py: the state of a workflow as it follows from its operations, admissions and
-- resource requests, its recomputation, and the resolution of a quarantined request.
pub mod Rows
pub mod Steps
pub mod Holdings
pub mod Completed
pub mod Stable
pub mod Resolve
use computerpilot_mcp.Prelude.{
  ℕ, ◌+◌, String, Bool, true, false, not, ◌&&◌, ◌||◌, List, [], ◌∷◌, ◌++◌, Option, none, some, ◌==◌,
  ℕ_eq, string_eq, option_eq, any, all, keep_if, length, sum_of, ltb, min, if◌then◌else◌,
}
use computerpilot_mcp.Prelude.Table.{find, update_where, delete_where}
use computerpilot_mcp.Prelude.Text.{text_take, strip}
use computerpilot_mcp.Prelude.Result.{Result, ok, err, raise, require, or_raise, ◌>>=◌, ◌>>◌}
use computerpilot_mcp.Lifecycle.{
  WorkflowState, OperationState, workflow_state_eq, operation_state_eq,
}
use computerpilot_mcp.Store.{
  Db, WorkflowRow, OperationRow, AdmissionRow, ResourceRequest, ExecutionMode, dag, sequential,
  AdmissionState, released, is_active, is_quarantined, is_released, is_child, has_request_id,
  find_request, find_workflow, has_unreleased_child,
}
use computerpilot_mcp.Requests.{update_request}
use computerpilot_mcp.Dispatch.{require_current_lease_row, is_set, is_success, event}

-- The rows with operation_index 0 of the workflow.
abbrev pub is_step_operation : String → OperationRow → Bool
is_step_operation i o = o.workflow_id == i && o.operation_index == 0

-- ORDER BY step_index
abbrev pub insert_by_step : OperationRow → List OperationRow → List OperationRow
insert_by_step o [] = o ∷ []
insert_by_step o (p ∷ ps) =
    let later = p ∷ insert_by_step o ps in
    if ltb p.step_index o.step_index then later else o ∷ p ∷ ps

abbrev pub by_step : List OperationRow → List OperationRow
by_step [] = []
by_step (o ∷ os) = insert_by_step o (by_step os)

abbrev pub step_operations : String → Db → List OperationRow
step_operations i db = by_step (keep_if (is_step_operation i) db.operations)

-- o.state IN ('created','running','waiting')
abbrev pub in_flight : OperationState → Bool
in_flight state =
    state == OperationState.created
    || state == OperationState.running
    || state == OperationState.waiting

abbrev pub is_uncertain : OperationState → Bool
is_uncertain state = state == OperationState.uncertain || state == OperationState.reconciling

abbrev pub is_failed : OperationState → Bool
is_failed state = state == OperationState.failed || state == OperationState.unresolvable

-- COUNT(*) of the admissions of the workflow joined with their operations.
abbrev pub active_count : String → Db → ℕ
active_count i db =
    sum_of
      (λ a.
        if a.workflow_id == i
        then sum_of (λ o. if o.operation_id == a.operation_id && in_flight o.state then 1 else 0)
            db.operations
        else 0)
      db.admissions

-- min(unfinished) if unfinished else len(operations)
abbrev first_unfinished : List OperationRow → Option ℕ
first_unfinished [] = none
first_unfinished (o ∷ os) =
    let rest = first_unfinished os in
    if is_success o.state
    then rest
    else some (elim rest [ none ↦ o.step_index | some k ↦ min o.step_index k ])

abbrev current_step_of : List OperationRow → ℕ
current_step_of operations = elim (first_unfinished operations) [
  | none ↦ length operations
  | some k ↦ k
]

-- Requests of the workflow that are active or quarantined.
abbrev pub holds_resources : String → Db → Bool
holds_resources i db =
    any (λ r. is_child i r.workflow_id && (is_active r.state || is_quarantined r.state)) db.requests

abbrev pub has_unresolved : String → Db → Bool
has_unresolved i db = any (λ o. is_uncertain o.state) (step_operations i db) || holds_resources i db

abbrev pub has_cancelled : WorkflowRow → Db → Bool
has_cancelled w db =
    is_set w.cancel_requested_at
    || any (λ o. o.state == OperationState.cancelled) (step_operations w.workflow_id db)

-- str(op["error"] or "workflow operation failed")[:2_000], of the first operation that failed
abbrev first_error : List OperationRow → Option String
first_error [] = none
first_error (o ∷ os) =
    let rest = first_error os in
    if is_failed o.state then some (text_take 2000 (error_text o.error)) else rest
  where
    error_text : Option String → String
    error_text none = "workflow operation failed"
    error_text (some e) = if e == "" then "workflow operation failed" else e

pub record AggregateState : Type 0 where
  pub target : WorkflowState
  pub current_step : ℕ
  pub error : Option String
  pub active : ℕ

abbrev aggregate_target : Bool → WorkflowRow → Db → WorkflowState × Option String
aggregate_target keep_running w db =
    let operations = step_operations w.workflow_id db in
    if ltb 0 (active_count w.workflow_id db)
    then (if has_cancelled w db then WorkflowState.cancelling else WorkflowState.running, none)
    else if has_unresolved w.workflow_id db
    then (WorkflowState.uncertain, some "workflow has unresolved operation or resource ownership")
    else if any (λ o. is_failed o.state) operations
    then (WorkflowState.failed, first_error operations)
    else if has_cancelled w db
    then (WorkflowState.cancelled, none)
    else if ltb 0 (length operations) && all (λ o. is_success o.state) operations
    then (WorkflowState.completed, none)
    else (if keep_running then WorkflowState.running else WorkflowState.paused, none)

-- `w` is the row of the workflow.
unfoldable pub aggregate_state : Bool → WorkflowRow → Db → AggregateState
unfolding text_take
aggregate_state keep_running w db =
    let (target, error) = aggregate_target keep_running w db in
    record {
      target = target;
      current_step = current_step_of (step_operations w.workflow_id db);
      error = error;
      active = active_count w.workflow_id db;
    }

abbrev pub workflow_text : WorkflowState → String
workflow_text WorkflowState.created = "created"
workflow_text WorkflowState.queued = "queued"
workflow_text WorkflowState.running = "running"
workflow_text WorkflowState.cancelling = "cancelling"
workflow_text WorkflowState.waiting = "waiting"
workflow_text WorkflowState.paused = "paused"
workflow_text WorkflowState.failed = "failed"
workflow_text WorkflowState.uncertain = "uncertain"
workflow_text WorkflowState.reconciling = "reconciling"
workflow_text WorkflowState.completed = "completed"
workflow_text WorkflowState.cancelled = "cancelled"

-- primary_error or stop_admission_reason
abbrev pub or_reason : Option String → Option String → Option String
or_reason none reason = reason
or_reason (some e) reason = if e == "" then reason else some e

abbrev pub has_workflow_id : String → WorkflowRow → Bool
has_workflow_id i w = w.workflow_id == i

abbrev pub put_aggregate : AggregateState → Option String → ℕ → WorkflowRow → WorkflowRow
put_aggregate s error now w = record w {
  state = s.target;
  current_step = s.current_step;
  version = w.version + 1;
  updated_at = now;
  last_error = error;
}

abbrev pub is_unchanged : AggregateState → Option String → WorkflowRow → Bool
is_unchanged s error w =
    s.target == w.state && s.current_step == w.current_step && error == w.last_error

abbrev pub store_aggregate : String → AggregateState → Option String → String → ℕ → Db → Db
store_aggregate i s error event_type now db = record db {
  workflows = update_where (has_workflow_id i) (put_aggregate s error now) db.workflows;
  events = db.events ++ event i none none event_type (workflow_text s.target) now ∷ [];
}

unfoldable pub recompute_workflow_aggregate :
    String → String → Option String → Bool → ℕ → Db → Result Db
unfolding require_current_lease_row aggregate_state
recompute_workflow_aggregate i lease_token stop_reason keep_running now db = do
  w ← or_raise (find_workflow i db) "workflow_not_found"
  require_current_lease_row i lease_token now db
  let s = aggregate_state keep_running w db
  let error = or_reason s.error stop_reason
  ok (
      if is_unchanged s error w
      then db
      else store_aggregate i s error "workflow_aggregate_recomputed" now db)
