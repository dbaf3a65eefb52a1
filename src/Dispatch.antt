-- ===== src/Dispatch.antt =====
-- core/workflow_store.py: the attempt at an operation. It is reserved under the lease of the
-- workflow, prepared, allowed to dispatch, and settled; the version of the row and the tokens of
-- the attempt and of the lease fence every step. `now` is the time in milliseconds.
pub mod Attempt
use computerpilot_mcp.Prelude.{
  ℕ, ◌+◌, String, Bool, true, false, not, ◌&&◌, ◌||◌, List, [], ◌∷◌, ◌++◌, Option, none, some, ◌==◌,
  ℕ_eq, string_eq, any, ltb, if◌then◌else◌,
}
use computerpilot_mcp.Prelude.Table.{find, update_where}
use computerpilot_mcp.Prelude.Text.{text_take}
use computerpilot_mcp.Prelude.Result.{Result, ok, raise, require, or_raise, ◌>>=◌, ◌>>◌}
use computerpilot_mcp.Lifecycle.{
  WorkflowState, OperationState, StepState, workflow_state_eq, operation_state_eq,
}
use computerpilot_mcp.Store.{
  Db, WorkflowRow, OperationRow, StepRow, DependencyRow, AdmissionRow, EventRow, reserved, prepared,
  may_dispatch, is_child, find_workflow, find_operation, find_lease,
}

-- _require_current_lease_row
unfoldable pub require_current_lease_row : String → String → ℕ → Db → Result (Unit {0})
require_current_lease_row workflow_id lease_token now db = elim (find_lease workflow_id db) [
  | none ↦ raise "workflow_lease_token_mismatch"
  | some lease ↦
      require (lease.lease_token == lease_token) "workflow_lease_token_mismatch"
      >> require (ltb now lease.expires_at) "workflow_lease_expired"
]

-- workflow["cancel_requested_at"], as a truth value
abbrev pub is_set {ℓ} : {A : Type ℓ} → Option A → Bool
is_set none = false
is_set (some a) = true

abbrev pub coalesce {ℓ} : {A : Type ℓ} → Option A → Option A → Option A
coalesce none b = b
coalesce (some a) b = some a

abbrev pub has_operation_id : String → OperationRow → Bool
has_operation_id i o = o.operation_id == i

abbrev pub has_admission : String → AdmissionRow → Bool
has_admission i a = a.operation_id == i

-- SUM(weight) over the admissions with p
abbrev pub weight_where : (AdmissionRow → Bool) → List AdmissionRow → ℕ
weight_where p [] = 0
weight_where p (a ∷ rest) = (if p a then a.weight else 0) + weight_where p rest

abbrev pub in_category : String → AdmissionRow → Bool
in_category category a = a.category == category

abbrev pub in_workflow : String → String → AdmissionRow → Bool
in_workflow workflow_id category a = a.workflow_id == workflow_id && a.category == category

-- The join of `parent_rows`, and the states in which a parent lets its children run.
abbrev pub is_parent : DependencyRow → OperationRow → Bool
is_parent dep o =
    o.workflow_id == dep.workflow_id
    && o.step_index == dep.dependency_step_index
    && o.operation_index == 0

abbrev pub is_success : OperationState → Bool
is_success state = state == OperationState.succeeded || state == OperationState.acknowledged

abbrev pub concerns : String → ℕ → DependencyRow → Bool
concerns workflow_id step dep = dep.workflow_id == workflow_id && dep.step_index == step

unfoldable pub waits_for_parent : String → ℕ → Db → Bool
waits_for_parent workflow_id step db =
    any
      (λ dep.
        concerns workflow_id step dep
        && any (λ o. is_parent dep o && not (is_success o.state)) db.operations)
      db.dependencies

-- What the caller of `claim_ready_operation` passes; `attempt_token` is the uuid that it makes.
pub record ClaimArgs : Type 0 where
  pub operation_id : String
  pub lease_token : String
  pub owner_id : String
  pub execution_id : String
  pub global_limit : ℕ
  pub category : String
  pub weight : ℕ
  pub attempt_token : String

abbrev pub new_admission : ClaimArgs → ℕ → String → AdmissionRow
new_admission a now workflow_id = record {
  operation_id = a.operation_id;
  workflow_id = workflow_id;
  attempt_token = a.attempt_token;
  execution_id = a.execution_id;
  lease_token = a.lease_token;
  owner_id = text_take 200 a.owner_id;
  category = a.category;
  weight = a.weight;
  admitted_at = now;
}

abbrev pub reserve_attempt : ClaimArgs → ℕ → OperationRow → OperationRow
reserve_attempt a now o = record o {
  attempt_token = some a.attempt_token;
  execution_id = some a.execution_id;
  dispatch_phase = some reserved;
  attempt_generation = o.attempt_generation + 1;
  version = o.version + 1;
  updated_at = now;
}

abbrev pub event : String → Option ℕ → Option String → String → String → ℕ → EventRow
event workflow_id step operation_id event_type state now = record {
  workflow_id = workflow_id;
  step_index = step;
  operation_id = operation_id;
  event_type = event_type;
  state = state;
  created_at = now;
}

abbrev pub admit_operation : ClaimArgs → ℕ → OperationRow → Db → Db
admit_operation a now o db = record db {
  admissions = db.admissions ++ new_admission a now o.workflow_id ∷ [];
  operations = update_where (has_operation_id a.operation_id) (reserve_attempt a now) db.operations;
  events =
      db.events
      ++ event o.workflow_id (some o.step_index) (some a.operation_id) "operation_reserved"
          "reserved" now
        ∷ [];
}

-- int(workflow["max_parallel_steps"] or 1)
abbrev pub workflow_limit : WorkflowRow → ℕ
workflow_limit w = if w.max_parallel_steps == 0 then 1 else w.max_parallel_steps

-- WORKFLOW running and not cancelled, or the call returns None.
abbrev pub takes_work : WorkflowRow → Bool
takes_work w = w.state == WorkflowState.running && not (is_set w.cancel_requested_at)

abbrev pub is_claimable : OperationState → Bool
is_claimable state = state == OperationState.created || state == OperationState.failed

-- Whether the operation is free, its parents are done and the weights leave room.
unfoldable pub has_room : ClaimArgs → OperationRow → WorkflowRow → Db → Bool
unfolding waits_for_parent
has_room a o w db =
    is_claimable o.state
    && not (any (has_admission a.operation_id) db.admissions)
    && not (waits_for_parent o.workflow_id o.step_index db)
    && not (ltb a.global_limit (weight_where (in_category a.category) db.admissions + a.weight))
    && not (
        ltb (workflow_limit w)
          (weight_where (in_workflow o.workflow_id a.category) db.admissions + a.weight))

-- The claim of an operation of a workflow; the row as it is read back, `none` for None.
unfoldable pub claim_for :
    ClaimArgs → ℕ → OperationRow → WorkflowRow → Db → Result (Option OperationRow × Db)
unfolding require_current_lease_row has_room text_take
claim_for a now o w db =
    let claimed = admit_operation a now o db in
    if not (takes_work w)
    then ok (none, db)
    else require_current_lease_row o.workflow_id a.lease_token now db
      >> (if not (has_room a o w db)
          then ok (none, db)
          else ok (find_operation a.operation_id claimed, claimed))

-- The token is a fresh uuid, so the UNIQUE constraint on attempt tokens is left out.
unfoldable pub claim_ready_operation : ClaimArgs → ℕ → Db → Result (Option OperationRow × Db)
unfolding claim_for
claim_ready_operation a now db = do
  require (not (ltb a.global_limit 1 || ltb a.weight 1)) "invalid_workflow_admission_limit"
  o ← or_raise (find_operation a.operation_id db) "workflow_operation_not_found"
  w ← or_raise (find_workflow o.workflow_id db) "workflow_not_found"
  claim_for a now o w db
