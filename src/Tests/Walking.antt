-- ===== src/Tests/Walking.antt =====
-- The theorems on sequences of transitions at concrete sequences.
use computerpilot_mcp.Prelude.{true, List, [], ◌∷◌, ◌≡◌, ◌⊎◌, refl, contains, string_eq}
use computerpilot_mcp.Lifecycle.{
  WorkflowState, OperationState, workflow_state_eq, operation_state_eq,
  validate_workflow_transition, validate_operation_transition,
}
use computerpilot_mcp.Lifecycle.Laws.{
  walk_workflow, walk_operation, uncertain_workflow_reconciles, uncertain_operation_reconciles,
}

abbrev recovered : List WorkflowState
recovered = WorkflowState.reconciling ∷ WorkflowState.paused ∷ WorkflowState.queued ∷ []

uncertain_workflow_reconciles_example :
    (WorkflowState.queued ≡ WorkflowState.uncertain)
    ⊎ ((WorkflowState.queued ≡ WorkflowState.cancelled)
        ⊎ (contains recovered WorkflowState.reconciling ≡ true))
unfolding walk_workflow validate_workflow_transition
uncertain_workflow_reconciles_example =
    uncertain_workflow_reconciles WorkflowState.queued recovered refl

abbrev retried : List OperationState
retried = OperationState.reconciling ∷ OperationState.failed ∷ OperationState.running ∷ []

uncertain_operation_reconciles_example :
    (OperationState.running ≡ OperationState.uncertain)
    ⊎ ((OperationState.running ≡ OperationState.acknowledged)
        ⊎ ((OperationState.running ≡ OperationState.unresolvable)
            ⊎ ((OperationState.running ≡ OperationState.cancelled)
                ⊎ (contains retried OperationState.reconciling ≡ true))))
unfolding walk_operation validate_operation_transition
uncertain_operation_reconciles_example =
    uncertain_operation_reconciles OperationState.running retried refl
