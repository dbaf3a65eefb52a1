-- ===== src/Lifecycle.antt =====
-- core/workflow_models.py: the states of workflows, steps and operations, the tables of allowed
-- transitions, and the guards that read them.
pub mod Laws
use computerpilot_mcp.Prelude.{
  ℕ, String, Bool, true, false, List, [], ◌∷◌, ◌≡◌, ◌↔◌, arith, Eq, ◌==◌, ℕ_eq, contains,
  if◌then◌else◌,
}
use computerpilot_mcp.Prelude.Result.{Result, ok, err, tool_error, raise, ◌>>=◌, ◌>>◌}

pub data WorkflowState : Type 0 where
  created queued running cancelling waiting paused failed uncertain reconciling completed
        cancelled :
      WorkflowState

pub data StepState : Type 0 where
  created running waiting failed uncertain reconciling completed cancelled : StepState

pub data OperationState : Type 0 where
  created running waiting succeeded failed uncertain reconciling acknowledged unresolvable
        cancelled :
      OperationState

-- An enumeration is compared by the place of its member.
abbrev pub workflow_rank : WorkflowState → ℕ
workflow_rank WorkflowState.created = 0
workflow_rank WorkflowState.queued = 1
workflow_rank WorkflowState.running = 2
workflow_rank WorkflowState.cancelling = 3
workflow_rank WorkflowState.waiting = 4
workflow_rank WorkflowState.paused = 5
workflow_rank WorkflowState.failed = 6
workflow_rank WorkflowState.uncertain = 7
workflow_rank WorkflowState.reconciling = 8
workflow_rank WorkflowState.completed = 9
workflow_rank WorkflowState.cancelled = 10

abbrev pub step_rank : StepState → ℕ
step_rank StepState.created = 0
step_rank StepState.running = 1
step_rank StepState.waiting = 2
step_rank StepState.failed = 3
step_rank StepState.uncertain = 4
step_rank StepState.reconciling = 5
step_rank StepState.completed = 6
step_rank StepState.cancelled = 7

abbrev pub operation_rank : OperationState → ℕ
operation_rank OperationState.created = 0
operation_rank OperationState.running = 1
operation_rank OperationState.waiting = 2
operation_rank OperationState.succeeded = 3
operation_rank OperationState.failed = 4
operation_rank OperationState.uncertain = 5
operation_rank OperationState.reconciling = 6
operation_rank OperationState.acknowledged = 7
operation_rank OperationState.unresolvable = 8
operation_rank OperationState.cancelled = 9

pub workflow_beq_iff :
    (a b : WorkflowState) → ((workflow_rank a == workflow_rank b) ≡ true) ↔ (a ≡ b)
workflow_beq_iff a b = ground arith

pub step_beq_iff : (a b : StepState) → ((step_rank a == step_rank b) ≡ true) ↔ (a ≡ b)
step_beq_iff a b = ground arith

pub operation_beq_iff :
    (a b : OperationState) → ((operation_rank a == operation_rank b) ≡ true) ↔ (a ≡ b)
operation_beq_iff a b = ground arith

instance abbrev pub workflow_state_eq : Eq WorkflowState
workflow_state_eq = record {
  beq = λ a b. workflow_rank a == workflow_rank b;
  beq_iff = workflow_beq_iff;
}

instance abbrev pub step_state_eq : Eq StepState
step_state_eq = record { beq = λ a b. step_rank a == step_rank b; beq_iff = step_beq_iff }

instance abbrev pub operation_state_eq : Eq OperationState
operation_state_eq = record {
  beq = λ a b. operation_rank a == operation_rank b;
  beq_iff = operation_beq_iff;
}

-- WORKFLOW_TRANSITIONS
unfoldable pub workflow_transitions : WorkflowState → List WorkflowState
workflow_transitions WorkflowState.created = WorkflowState.queued ∷ WorkflowState.cancelled ∷ []
workflow_transitions WorkflowState.queued = WorkflowState.running ∷ WorkflowState.cancelled ∷ []
workflow_transitions WorkflowState.running =
    WorkflowState.waiting ∷ WorkflowState.cancelling ∷ WorkflowState.paused ∷ WorkflowState.failed
    ∷ WorkflowState.uncertain ∷ WorkflowState.completed ∷ WorkflowState.cancelled ∷ []
workflow_transitions WorkflowState.cancelling =
    WorkflowState.cancelled ∷ WorkflowState.failed ∷ WorkflowState.uncertain ∷ []
workflow_transitions WorkflowState.waiting =
    WorkflowState.running ∷ WorkflowState.paused ∷ WorkflowState.failed ∷ WorkflowState.uncertain
    ∷ WorkflowState.cancelled ∷ []
workflow_transitions WorkflowState.paused = WorkflowState.queued ∷ WorkflowState.cancelled ∷ []
workflow_transitions WorkflowState.failed = WorkflowState.queued ∷ WorkflowState.cancelled ∷ []
workflow_transitions WorkflowState.uncertain =
    WorkflowState.reconciling ∷ WorkflowState.cancelled ∷ []
workflow_transitions WorkflowState.reconciling =
    WorkflowState.paused ∷ WorkflowState.failed ∷ WorkflowState.uncertain ∷ WorkflowState.completed
    ∷ WorkflowState.cancelled ∷ []
workflow_transitions WorkflowState.completed = []
workflow_transitions WorkflowState.cancelled = []

-- STEP_TRANSITIONS
unfoldable pub step_transitions : StepState → List StepState
step_transitions StepState.created = StepState.running ∷ StepState.cancelled ∷ []
step_transitions StepState.running =
    StepState.waiting ∷ StepState.failed ∷ StepState.uncertain ∷ StepState.completed
    ∷ StepState.cancelled ∷ []
step_transitions StepState.waiting =
    StepState.running ∷ StepState.failed ∷ StepState.uncertain ∷ StepState.cancelled ∷ []
step_transitions StepState.uncertain = StepState.reconciling ∷ StepState.cancelled ∷ []
step_transitions StepState.reconciling =
    StepState.failed ∷ StepState.uncertain ∷ StepState.completed ∷ []
step_transitions StepState.failed = StepState.running ∷ StepState.cancelled ∷ []
step_transitions StepState.completed = []
step_transitions StepState.cancelled = []

-- OPERATION_TRANSITIONS
unfoldable pub operation_transitions : OperationState → List OperationState
operation_transitions OperationState.created =
    OperationState.running ∷ OperationState.cancelled ∷ []
operation_transitions OperationState.running =
    OperationState.waiting ∷ OperationState.succeeded ∷ OperationState.failed
    ∷ OperationState.uncertain ∷ OperationState.cancelled ∷ []
operation_transitions OperationState.waiting =
    OperationState.running ∷ OperationState.succeeded ∷ OperationState.failed
    ∷ OperationState.uncertain ∷ OperationState.cancelled ∷ []
operation_transitions OperationState.uncertain =
    OperationState.reconciling ∷ OperationState.acknowledged ∷ OperationState.unresolvable
    ∷ OperationState.cancelled ∷ []
operation_transitions OperationState.reconciling =
    OperationState.succeeded ∷ OperationState.failed ∷ OperationState.uncertain
    ∷ OperationState.acknowledged ∷ OperationState.unresolvable ∷ []
operation_transitions OperationState.failed = OperationState.running ∷ OperationState.cancelled ∷ []
operation_transitions OperationState.succeeded = []
operation_transitions OperationState.acknowledged = []
operation_transitions OperationState.unresolvable = []
operation_transitions OperationState.cancelled = []

-- _require_transition, with the error code written out
abbrev require_transition {ℓ} :
    {S : Type ℓ} ⦃e : Eq S⦄ → String → S → S → (S → List S) → Result (Unit {0})
require_transition code current target allowed =
    if contains (allowed current) target then ok tt else raise code

unfoldable pub validate_workflow_transition : WorkflowState → WorkflowState → Result (Unit {0})
unfolding workflow_transitions
validate_workflow_transition current target =
    require_transition "invalid_workflow_transition" current target workflow_transitions

unfoldable pub validate_step_transition : StepState → StepState → Result (Unit {0})
unfolding step_transitions
validate_step_transition current target =
    require_transition "invalid_step_transition" current target step_transitions

unfoldable pub validate_operation_transition : OperationState → OperationState → Result (Unit {0})
unfolding operation_transitions
validate_operation_transition current target =
    require_transition "invalid_operation_transition" current target operation_transitions
