-- ===== src/Aggregate/Resolve.antt =====
-- core/workflow_store.py: an operator resolves a quarantined resource request, and the aggregate of
-- an uncertain DAG workflow follows.
use computerpilot_mcp.Prelude.{
  ℕ, String, Bool, true, false, not, ◌&&◌, ◌||◌, Option, none, some, ◌==◌, string_eq, any,
  if◌then◌else◌,
}
use computerpilot_mcp.Prelude.Table.{delete_where}
use computerpilot_mcp.Prelude.Text.{text_take, strip}
use computerpilot_mcp.Prelude.Result.{Result, ok, require, or_raise, ◌>>=◌, ◌>>◌}
use computerpilot_mcp.Lifecycle.{
  WorkflowState, OperationState, workflow_state_eq, operation_state_eq,
}
use computerpilot_mcp.Store.{
  Db, WorkflowRow, AdmissionRow, ResourceRequest, ExecutionMode, dag, sequential, released,
  is_quarantined, is_released, is_child, find_request, find_workflow, has_unreleased_child,
}
use computerpilot_mcp.Requests.{update_request}
use computerpilot_mcp.Dispatch.{is_success}
use computerpilot_mcp.Aggregate.{is_failed, aggregate_state, store_aggregate}

abbrev pub resolve_row : String → ℕ → ResourceRequest → ResourceRequest
resolve_row evidence now r = record r {
  state = released;
  reason = some "resolved";
  resolved_evidence = some (text_take 2000 evidence);
  updated_at = now;
}

-- state IN ('succeeded','acknowledged','failed','unresolvable','cancelled')
abbrev is_terminal : OperationState → Bool
is_terminal state = is_success state || is_failed state || state == OperationState.cancelled

-- The admissions of the workflow whose operation ended and holds no resource.
abbrev is_stale_admission : String → Db → AdmissionRow → Bool
is_stale_admission i db a =
    a.workflow_id == i
    && any (λ o. o.workflow_id == i && o.operation_id == a.operation_id && is_terminal o.state)
        db.operations
    && not
        (any (λ r. is_child a.operation_id r.operation_id && not (is_released r.state)) db.requests)

abbrev pub is_dag : ExecutionMode → Bool
is_dag sequential = false
is_dag dag = true

-- The part for the workflow of the request.
unfoldable pub resolve_workflow : Option WorkflowRow → ℕ → Db → Db
unfolding aggregate_state
resolve_workflow none now db = db
resolve_workflow (some w) now db =
    let settled = record db {
      admissions = delete_where (is_stale_admission w.workflow_id db) db.admissions;
    } in
    let s = aggregate_state false w settled in
    if is_dag w.execution_mode && w.state == WorkflowState.uncertain
    then store_aggregate w.workflow_id s s.error "workflow_resource_resolved" now settled
    else db

abbrev pub workflow_of : Option String → Db → Option WorkflowRow
workflow_of none db = none
workflow_of (some i) db = find_workflow i db

unfoldable pub resolve_quarantined_resource_request : String → String → String → ℕ → Db → Result Db
unfolding resolve_workflow strip text_take
resolve_quarantined_resource_request i owner evidence now db = do
  require (not (strip evidence == "")) "resource_resolution_evidence_required"
  row ← or_raise (find_request i db) "resource_request_not_found"
  require (row.owner_token == owner) "resource_owner_mismatch"
  require (is_quarantined row.state) "resource_request_not_quarantined"
  require (not (has_unreleased_child i db)) "resource_children_unresolved"
  let resolved = update_request i (resolve_row evidence now) db
  ok (resolve_workflow (workflow_of row.workflow_id db) now resolved)
