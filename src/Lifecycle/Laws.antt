-- ===== src/Lifecycle/Laws.antt =====
-- What the tables of transitions allow over any number of transitions.
use computerpilot_mcp.Prelude.{true, List, [], ◌∷◌, ◌≡◌, ◌⊎◌, arith, contains}
use computerpilot_mcp.Prelude.Result.{Result, ok, ◌>>◌}
use computerpilot_mcp.Lifecycle.{
  WorkflowState, OperationState, workflow_state_eq, operation_state_eq,
  validate_workflow_transition, validate_operation_transition,
}

-- Taking the transitions one after another; the first that is not allowed raises.
unfoldable pub walk_workflow : WorkflowState → List WorkflowState → Result WorkflowState
walk_workflow s [] = ok s
walk_workflow s (t ∷ ts) = validate_workflow_transition s t >> walk_workflow t ts

unfoldable pub walk_operation : OperationState → List OperationState → Result OperationState
walk_operation s [] = ok s
walk_operation s (t ∷ ts) = validate_operation_transition s t >> walk_operation t ts

abbrev pub IsFinalWorkflow : WorkflowState → Type 0
IsFinalWorkflow s = (s ≡ WorkflowState.completed) ⊎ (s ≡ WorkflowState.cancelled)

workflow_final_stays :
    (s t : WorkflowState) (path : List WorkflowState)
    → IsFinalWorkflow s
    → walk_workflow s path ≡ ok t
    → (t ≡ s) × (path ≡ [])
unfolding walk_workflow validate_workflow_transition
workflow_final_stays s t [] f h = ground arith
workflow_final_stays s t (u ∷ us) f h = ground arith

-- Along any sequence of transitions that the table of workflows allows, from `uncertain` to another
-- state than `uncertain` and `cancelled`, `reconciling` is entered.
pub uncertain_workflow_reconciles :
    (t : WorkflowState) (path : List WorkflowState)
    → walk_workflow WorkflowState.uncertain path ≡ ok t
    → (t ≡ WorkflowState.uncertain)
      ⊎ ((t ≡ WorkflowState.cancelled) ⊎ (contains path WorkflowState.reconciling ≡ true))
unfolding walk_workflow validate_workflow_transition
uncertain_workflow_reconciles t [] h = ground arith
uncertain_workflow_reconciles t (u ∷ us) h = ground (arith, workflow_final_stays u t us)

abbrev IsFinalOperation : OperationState → Type 0
IsFinalOperation s =
    (s ≡ OperationState.succeeded)
    ⊎ ((s ≡ OperationState.acknowledged)
        ⊎ ((s ≡ OperationState.unresolvable) ⊎ (s ≡ OperationState.cancelled)))

-- The table allows nothing from these states.
final_operation_stays :
    (s t : OperationState) (path : List OperationState)
    → IsFinalOperation s
    → walk_operation s path ≡ ok t
    → (t ≡ s) × (path ≡ [])
unfolding walk_operation validate_operation_transition
final_operation_stays s t [] f h = ground arith
final_operation_stays s t (u ∷ us) f h = ground arith

-- Along any sequence of transitions that the table of operations allows, from `uncertain` to another
-- state than `uncertain`, `acknowledged`, `unresolvable` and `cancelled`, `reconciling` is entered.
pub uncertain_operation_reconciles :
    (t : OperationState) (path : List OperationState)
    → walk_operation OperationState.uncertain path ≡ ok t
    → (t ≡ OperationState.uncertain)
      ⊎ ((t ≡ OperationState.acknowledged)
          ⊎ ((t ≡ OperationState.unresolvable)
              ⊎ ((t ≡ OperationState.cancelled)
                  ⊎ (contains path OperationState.reconciling ≡ true))))
unfolding walk_operation validate_operation_transition
uncertain_operation_reconciles t [] h = ground arith
uncertain_operation_reconciles t (u ∷ us) h = ground (arith, final_operation_stays u t us)
