-- ===== src/Aggregate/Completed.antt =====
-- When a workflow is reported as completed, and what one with unresolved work is reported as, by the
-- rows of its operations, admissions and requests.
use computerpilot_mcp.Prelude.{
  ◌<◌, String, Bool, true, false, none, ◌≡◌, ◌↔◌, ◌⊎◌, inl, inr, arith, all, length, ltb, All,
  Bool-cases, ◌==◌, ℕ_eq, string_eq,
}
use computerpilot_mcp.Prelude.Quantify.{Any, all-excludes}
use computerpilot_mcp.Lifecycle.{
  WorkflowState, OperationState, workflow_state_eq, operation_state_eq,
}
use computerpilot_mcp.Store.{Db, WorkflowRow, OperationRow}
use computerpilot_mcp.Dispatch.{is_success}
use computerpilot_mcp.Aggregate.{
  aggregate_state, step_operations, active_count, holds_resources, has_unresolved, is_uncertain,
  is_failed,
}
use computerpilot_mcp.Aggregate.Rows.{
  IsStepOf, IsDone, IsDoubtful, IsHeldBy, AdmitsInFlight, IsDoubtful-is_uncertain,
}
use computerpilot_mcp.Aggregate.Steps.{
  Any-any-step_operations, all-step_operations-All, All-all-step_operations, length-Any, Any-length,
}
use computerpilot_mcp.Aggregate.Holdings.{
  holds_resources-Any, Any-holds_resources, active_count-Any, Any-active_count,
}

-- Everything that the workflow had to do is done, and nothing is left of it.
pub record IsCompleted (w : WorkflowRow) (db : Db) : Type 0 where
  pub uncancelled : w.cancel_requested_at ≡ none
  pub has_steps : Any (IsStepOf w.workflow_id) db.operations
  pub steps_done : All (λ o. IsStepOf w.workflow_id o → IsDone o.state) db.operations
  pub none_held : ¬ Any (IsHeldBy w.workflow_id) db.requests
  pub none_in_flight : ¬ Any (AdmitsInFlight w.workflow_id db.operations) db.admissions

completed_tests :
    (keep_running : Bool) (w : WorkflowRow) (db : Db)
    → (aggregate_state keep_running w db).target ≡ WorkflowState.completed
    → (active_count w.workflow_id db ≡ 0)
      × (holds_resources w.workflow_id db ≡ false)
      × (w.cancel_requested_at ≡ none)
      × (ltb 0 (length (step_operations w.workflow_id db)) ≡ true)
      × (all (λ o. is_success o.state) (step_operations w.workflow_id db) ≡ true)
unfolding aggregate_state
completed_tests keep_running w db h = ground arith

tests_completed :
    (keep_running : Bool) (w : WorkflowRow) (db : Db)
    → active_count w.workflow_id db ≡ 0
    → holds_resources w.workflow_id db ≡ false
    → w.cancel_requested_at ≡ none
    → ltb 0 (length (step_operations w.workflow_id db)) ≡ true
    → all (λ o. is_success o.state) (step_operations w.workflow_id db) ≡ true
    → (aggregate_state keep_running w db).target ≡ WorkflowState.completed
unfolding aggregate_state
tests_completed keep_running w db idle free wanted some_steps done =
    let steps = step_operations w.workflow_id db in
    let success = λ (o : OperationRow). is_success o.state in
    let certain =
      all-excludes success (λ o. is_uncertain o.state) (λ o h. ground arith) steps done in
    let sound = all-excludes success (λ o. is_failed o.state) (λ o h. ground arith) steps done in
    let kept =
      all-excludes success (λ o. o.state == OperationState.cancelled) (λ o h. ground arith) steps
        done in
    ground (arith, certain, sound, kept)

-- The aggregate is completed exactly when the cancellation was not requested, the workflow has
-- steps, the operation of each of them succeeded or was acknowledged, no request of the workflow is
-- active or quarantined, and no admission of the workflow is for an operation that is created,
-- running or waiting.
pub aggregate_completed :
    (keep_running : Bool) (w : WorkflowRow) (db : Db)
    → ((aggregate_state keep_running w db).target ≡ WorkflowState.completed) ↔ IsCompleted w db
aggregate_completed keep_running w db = (
  λ h.
      let (idle, free, wanted, some_steps, done) = completed_tests keep_running w db h in
      record {
        uncancelled = wanted;
        has_steps = length-Any w.workflow_id db some_steps;
        steps_done = all-step_operations-All w.workflow_id db done;
        none_held = λ held. ground (arith, Any-holds_resources w.workflow_id db held);
        none_in_flight = λ flying. omega (arith, Any-active_count w.workflow_id db flying);
      },
  λ c.
      tests_completed keep_running w db
        (elim (Bool-cases (ltb 0 (active_count w.workflow_id db))) [
          | inl e ↦
              absurd (c.none_in_flight (active_count-Any w.workflow_id db (ground (arith, e))))
          | inr e ↦ ground (arith, e)
        ])
        (elim (Bool-cases (holds_resources w.workflow_id db)) [
          | inl e ↦ absurd (c.none_held (holds_resources-Any w.workflow_id db e))
          | inr e ↦ e
        ])
        c.uncancelled (Any-length w.workflow_id db c.has_steps)
        (All-all-step_operations w.workflow_id db c.steps_done),
)

-- An operation of a step is uncertain or reconciling, or a request is active or quarantined.
abbrev pub IsUnresolved : String → Db → Type 0
IsUnresolved i db =
    Any (λ o. IsStepOf i o × IsDoubtful o.state) db.operations ⊎ Any (IsHeldBy i) db.requests

unresolved_outcome :
    (keep_running : Bool) (w : WorkflowRow) (db : Db)
    → has_unresolved w.workflow_id db ≡ true
    → ((0 < active_count w.workflow_id db)
        × (((aggregate_state keep_running w db).target ≡ WorkflowState.running)
            ⊎ ((aggregate_state keep_running w db).target ≡ WorkflowState.cancelling)))
      ⊎ ((active_count w.workflow_id db ≡ 0)
          × ((aggregate_state keep_running w db).target ≡ WorkflowState.uncertain))
unfolding aggregate_state
unresolved_outcome keep_running w db h = ground arith

-- A workflow with an operation of a step that is uncertain or reconciling, or with a request that is
-- active or quarantined, is aggregated to running or cancelling if one of its admissions is for an
-- operation that is created, running or waiting, and to uncertain if none is.
pub aggregate_unresolved :
    (keep_running : Bool) (w : WorkflowRow) (db : Db)
    → IsUnresolved w.workflow_id db
    → (Any (AdmitsInFlight w.workflow_id db.operations) db.admissions
        × (((aggregate_state keep_running w db).target ≡ WorkflowState.running)
            ⊎ ((aggregate_state keep_running w db).target ≡ WorkflowState.cancelling)))
      ⊎ ((¬ Any (AdmitsInFlight w.workflow_id db.operations) db.admissions)
          × ((aggregate_state keep_running w db).target ≡ WorkflowState.uncertain))
aggregate_unresolved keep_running w db h = elim (unresolved_outcome keep_running w db (found h)) [
  | inl (flying, at) ↦ inl (active_count-Any w.workflow_id db flying, at)
  | inr (idle, at) ↦ inr (λ flying. omega (arith, Any-active_count w.workflow_id db flying), at)
]
  where
    found : IsUnresolved w.workflow_id db → has_unresolved w.workflow_id db ≡ true
    found (inl doubtful) = ground (
      arith,
      Any-any-step_operations is_uncertain IsDoubtful IsDoubtful-is_uncertain w.workflow_id db
          doubtful,
    )
    found (inr held) = ground (arith, Any-holds_resources w.workflow_id db held)
