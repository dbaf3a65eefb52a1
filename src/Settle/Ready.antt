-- ===== src/Settle/Ready.antt =====
-- What a claim that admits an operation has found.
use computerpilot_mcp.Prelude.{
  ℕ, ◌≤◌, true, false, Option, some, ◌≡◌, ◌⊎◌, inl, inr, arith, sym, ◌∙◌, ℕ_eq, string_eq, any,
  eq_iff, All, All-map, none, not, ◌&&◌,
}
use computerpilot_mcp.Prelude.Quantify.{any-All}
use computerpilot_mcp.Prelude.Result.{ok}
use computerpilot_mcp.Lifecycle.{WorkflowState, OperationState, workflow_state_eq}
use computerpilot_mcp.Store.{
  Db, OperationRow, WorkflowRow, DependencyRow, find_operation, find_workflow,
}
use computerpilot_mcp.Dispatch.{
  ClaimArgs, claim_ready_operation, weight_where, in_category, in_workflow, has_room, takes_work,
  waits_for_parent, workflow_limit, concerns, is_parent, is_success,
}
use computerpilot_mcp.Aggregate.Rows.{IsDone, is_success-IsDone}
use computerpilot_mcp.Settle.Steps.{claim_outcome}
use computerpilot_mcp.Settle.Limits.{room_parts, grown}

-- Wherever a dependency of the operation's step names another step, the operation with the index 0
-- of that step, if there is one, succeeded or was acknowledged.
abbrev pub ParentsDone : OperationRow → Db → Type 0
ParentsDone o db =
    All
      (λ dep.
        dep.workflow_id ≡ o.workflow_id
        → dep.step_index ≡ o.step_index
        → All
            (λ p.
              p.workflow_id ≡ o.workflow_id
              → p.step_index ≡ dep.dependency_step_index
              → p.operation_index ≡ 0
              → IsDone p.state)
            db.operations)
      db.dependencies

parent-IsDone :
    (dep : DependencyRow) (p : OperationRow)
    → (is_parent dep p && not (is_success p.state)) ≡ false
    → p.workflow_id ≡ dep.workflow_id
    → p.step_index ≡ dep.dependency_step_index
    → p.operation_index ≡ 0
    → IsDone p.state
parent-IsDone dep p h same step index =
    is_success-IsDone p.state
      (ground (arith, (eq_iff p.workflow_id dep.workflow_id).1 same, step, index))

waits_for_parent-ParentsDone :
    (o : OperationRow) (db : Db)
    → waits_for_parent o.workflow_id o.step_index db ≡ false
    → ParentsDone o db
unfolding waits_for_parent
waits_for_parent-ParentsDone o db h =
    All-map
      (λ dep.
        (concerns o.workflow_id o.step_index dep
          && any (λ p. is_parent dep p && not (is_success p.state)) db.operations)
        ≡ false)
      _
      (λ dep k same step.
        All-map (λ p. (is_parent dep p && not (is_success p.state)) ≡ false) _
          (λ p m here at index. parent-IsDone dep p m (here ∙ sym same) at index) db.operations
          (any-All (λ p. is_parent dep p && not (is_success p.state)) db.operations
            (ground (arith, k, (eq_iff dep.workflow_id o.workflow_id).1 same, step))))
      db.dependencies
      (any-All
        (λ dep.
          concerns o.workflow_id o.step_index dep
          && any (λ p. is_parent dep p && not (is_success p.state)) db.operations)
        db.dependencies h)

takes_work-true :
    (w : WorkflowRow)
    → takes_work w ≡ true
    → (w.state ≡ WorkflowState.running) × (w.cancel_requested_at ≡ none)
takes_work-true w h = ground arith

has_room-claimable :
    (a : ClaimArgs) (o : OperationRow) (w : WorkflowRow) (db : Db)
    → has_room a o w db ≡ true
    → (o.state ≡ OperationState.created) ⊎ (o.state ≡ OperationState.failed)
unfolding has_room
has_room-claimable a o w db h = ground arith

-- A claim either leaves the database unchanged or finds the operation created or failed, its
-- workflow running and without a request to cancel it, and the operation with the index 0 of every
-- step that the operation's step depends on, if there is one, succeeded or acknowledged, and leaves
-- the weights of its category, in all workflows and in its own, within the limits.
pub claim_admits_ready :
    (a : ClaimArgs) (now : ℕ) (db db' : Db) (got : Option OperationRow)
    → claim_ready_operation a now db ≡ ok (got, db')
    → (db' ≡ db)
      ⊎ ((o : OperationRow) × (w : WorkflowRow) × (find_operation a.operation_id db ≡ some o)
          × (find_workflow o.workflow_id db ≡ some w)
          × ((o.state ≡ OperationState.created) ⊎ (o.state ≡ OperationState.failed))
          × (w.state ≡ WorkflowState.running)
          × (w.cancel_requested_at ≡ none)
          × ParentsDone o db
          × (weight_where (in_category a.category) db'.admissions ≤ a.global_limit)
          × (weight_where (in_workflow o.workflow_id a.category) db'.admissions ≤ workflow_limit w))
claim_admits_ready a now db db' got h = elim (claim_outcome a now db db' got h) [
  | inl e ↦ inl e
  | inr c ↦
      let (ready, _, total, own) = room_parts a c.o c.w db c.room in
      let (working, wanted) = takes_work-true c.w c.works in
      inr (
        c.o,
        c.w,
        c.operation_found,
        c.workflow_found,
        has_room-claimable a c.o c.w db c.room,
        working,
        wanted,
        waits_for_parent-ParentsDone c.o db ready,
        rw c.after (grown (in_category a.category) a now c.o db a.global_limit total),
        rw c.after
            (grown (in_workflow c.o.workflow_id a.category) a now c.o db (workflow_limit c.w) own),
      )
]
