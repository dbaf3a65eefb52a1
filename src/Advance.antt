-- ===== src/Advance.antt =====
-- core/workflow_store.py: the progress of a running workflow to another step, and the checkpoint of a
-- step.
pub mod Versions
use computerpilot_mcp.Prelude.{
  ℕ, ◌+◌, String, Bool, ◌&&◌, ◌||◌, Option, none, some, ◌==◌, ℕ_eq, string_eq, any, ltb,
  if◌then◌else◌,
}
use computerpilot_mcp.Prelude.Text.{text_take}
use computerpilot_mcp.Prelude.Table.{update_where}
use computerpilot_mcp.Prelude.Result.{Result, ok, raise, require, or_raise, ◌>>=◌, ◌>>◌}
use computerpilot_mcp.Lifecycle.{WorkflowState, StepState, workflow_state_eq, step_state_eq}
use computerpilot_mcp.Store.{Db, WorkflowRow, StepRow, find_workflow, find_lease}
use computerpilot_mcp.Dispatch.{require_current_lease_row, coalesce}
use computerpilot_mcp.Dispatch.Attempt.{is_step}
use computerpilot_mcp.Cancel.{has_version}

-- The test of a token, where one is given.
unfoldable pub require_given_token : String → Option String → ℕ → Db → Result (Unit {0})
unfolding require_current_lease_row
require_given_token i none now db = ok tt
require_given_token i (some token) now db = require_current_lease_row i token now db

abbrev pub put_step : ℕ → ℕ → WorkflowRow → WorkflowRow
put_step step now w = record w { current_step = step; version = w.version + 1; updated_at = now }

-- WHERE workflow_id = ? AND version = ? AND state = 'running'
abbrev pub is_running_at : String → ℕ → WorkflowRow → Bool
is_running_at i version w = has_version i version w && w.state == WorkflowState.running

abbrev pub store_step : String → ℕ → ℕ → ℕ → Db → Db
store_step i version step now db = record db {
  workflows = update_where (is_running_at i version) (put_step step now) db.workflows;
}

-- A step is not negative here. The UPDATE meets the row that the guards have read.
unfoldable pub advance_running : String → ℕ → ℕ → Option String → ℕ → Db → Result Db
unfolding require_given_token
advance_running i expected_version current_step lease_token now db = do
  w ← or_raise (find_workflow i db) "workflow_not_found"
  require (w.version == expected_version) "workflow_version_conflict"
  require_given_token i lease_token now db
  require (w.state == WorkflowState.running) "workflow_not_running"
  ok (store_step i expected_version current_step now db)

-- The test of a token in checkpoint_step.
unfoldable pub require_step_token : String → Option String → ℕ → Db → Result (Unit {0})
require_step_token i none now db = ok tt
require_step_token i (some token) now db = elim (find_lease i db) [
  | none ↦ raise "workflow_lease_missing"
  | some lease ↦
      require (lease.lease_token == token) "workflow_lease_token_mismatch"
      >> require (ltb now lease.expires_at) "workflow_lease_expired"
]

-- state IN ('completed','failed','uncertain','cancelled')
abbrev pub ends_step : StepState → Bool
ends_step state =
    state == StepState.completed
    || state == StepState.failed
    || state == StepState.uncertain
    || state == StepState.cancelled

-- error[:2_000] if error else None
unfoldable pub bounded_error : Option String → Option String
unfolding text_take
bounded_error none = none
bounded_error (some e) = if e == "" then none else some (text_take 2000 e)

abbrev pub put_checkpoint : StepState → Option String → Option String → Bool → ℕ → StepRow → StepRow
put_checkpoint state evidence error increment_attempt now s = record s {
  state = state;
  attempts = s.attempts + (if increment_attempt then 1 else 0);
  started_at =
      if state == StepState.running then coalesce s.started_at (some now) else s.started_at;
  finished_at = if ends_step state then some now else s.finished_at;
  evidence = evidence;
  error = error;
}

-- `evidence` is the JSON of the redacted evidence, if there is any.
unfoldable pub checkpoint_step :
    String
    → ℕ
    → StepState
    → Option String
    → Option String
    → Bool
    → Option String
    → ℕ
    → Db
    → Result Db
unfolding require_step_token bounded_error
checkpoint_step i step_index state evidence error increment_attempt lease_token now db = do
  require_step_token i lease_token now db
  require (any (is_step i step_index) db.steps) "workflow_step_not_found"
  ok (record db {
    steps =
        update_where (is_step i step_index)
          (put_checkpoint state evidence (bounded_error error) increment_attempt now) db.steps;
  })
