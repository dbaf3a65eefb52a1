-- ===== src/Cancel.antt =====
-- core/workflow_store.py: the request to cancel a workflow.
pub mod Wins
use computerpilot_mcp.Prelude.{
  ℕ, ◌+◌, String, Bool, true, false, not, ◌&&◌, ◌||◌, List, [], ◌∷◌, ◌++◌, Option, none, some, ◌==◌,
  ℕ_eq, string_eq, any, if◌then◌else◌,
}
use computerpilot_mcp.Prelude.Table.{update_where}
use computerpilot_mcp.Prelude.Text.{text_take, strip}
use computerpilot_mcp.Prelude.Result.{Result, ok, err, raise, require, or_raise, ◌>>=◌, ◌>>◌}
use computerpilot_mcp.Lifecycle.{WorkflowState, workflow_state_eq, validate_workflow_transition}
use computerpilot_mcp.Store.{Db, WorkflowRow, find_workflow}
use computerpilot_mcp.Dispatch.{is_set, coalesce, event}
use computerpilot_mcp.Aggregate.{workflow_text, has_workflow_id}

unfoldable pub cancel_requested : String → Db → Result Bool
cancel_requested i db = do
  w ← or_raise (find_workflow i db) "workflow_not_found"
  ok (
      is_set w.cancel_requested_at
      || w.state == WorkflowState.cancelling
      || w.state == WorkflowState.cancelled)

-- reason.strip()[:2_000], if there is one
unfoldable pub bounded_reason : Option String → Option String
unfolding strip text_take
bounded_reason none = none
bounded_reason (some reason) =
    if strip reason == "" then none else some (text_take 2000 (strip reason))

-- Completed, cancelled or on its way: the request changes nothing.
abbrev pub is_over : WorkflowState → Bool
is_over state =
    state == WorkflowState.completed
    || state == WorkflowState.cancelled
    || state == WorkflowState.cancelling

abbrev pub cancel_target : WorkflowState → WorkflowState
cancel_target state =
    if state == WorkflowState.running then WorkflowState.cancelling else WorkflowState.cancelled

abbrev pub put_cancel : Option String → ℕ → WorkflowState → WorkflowRow → WorkflowRow
put_cancel reason now target w = record w {
  state = target;
  cancel_requested_at = coalesce w.cancel_requested_at (some now);
  cancel_reason = coalesce reason w.cancel_reason;
  updated_at = now;
  version = w.version + 1;
}

-- WHERE workflow_id = ? AND version = ?
abbrev pub has_version : String → ℕ → WorkflowRow → Bool
has_version i version w = w.workflow_id == i && w.version == version

abbrev pub store_cancel : String → ℕ → Option String → ℕ → WorkflowState → Db → Db
store_cancel i version reason now target db = record db {
  workflows = update_where (has_version i version) (put_cancel reason now target) db.workflows;
  events =
      db.events ++ event i none none "workflow_cancel_requested" (workflow_text target) now ∷ [];
}

unfoldable pub cancel_row : String → ℕ → Option String → ℕ → WorkflowRow → Db → Result Db
unfolding bounded_reason
cancel_row i version reason now w db =
    let target = cancel_target w.state in
    if is_over w.state
    then ok db
    else validate_workflow_transition w.state target
      >> ok (store_cancel i version (bounded_reason reason) now target db)

unfoldable pub request_cancel : String → ℕ → Option String → ℕ → Db → Result Db
unfolding cancel_row
request_cancel i expected_version reason now db = do
  w ← or_raise (find_workflow i db) "workflow_not_found"
  require (w.version == expected_version) "workflow_version_conflict"
  cancel_row i expected_version reason now w db
