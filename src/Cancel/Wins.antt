-- ===== src/Cancel/Wins.antt =====
-- A cancellation that was accepted before the dispatch wins over it.
use computerpilot_mcp.Prelude.{
  ℕ, String, true, false, ◌||◌, Option, none, some, ◌≡◌, ◌≢◌, sym, ◌∙◌, refl, arith, ap, ◌==◌,
  string_eq, ℕ_eq, inl, inr,
}
use mathlib.Core.Path.{subst}
use computerpilot_mcp.Prelude.Table.{find, find-true}
use computerpilot_mcp.Prelude.Find.{find-update_hit}
use computerpilot_mcp.Prelude.Result.{ok}
use computerpilot_mcp.Lifecycle.{WorkflowState, workflow_state_eq}
use computerpilot_mcp.Store.{Db, WorkflowRow, OperationRow, find_workflow, find_operation}
use computerpilot_mcp.Dispatch.{is_set, coalesce}
use computerpilot_mcp.Dispatch.Attempt.{
  Attempt, is_cancelled, fenced_operation, prepare_operation_attempt, mark_operation_may_dispatch,
}
use computerpilot_mcp.Settle.{fail_unadmitted_operation}
use computerpilot_mcp.Settle.Steps.{
  AttemptStep, claiming, preparing, dispatching, completing, failing, AttemptRun, here, next,
  claim_outcome, prepare_outcome, dispatch_outcome, complete_outcome,
}
use computerpilot_mcp.Cancel.{
  is_over, cancel_target, put_cancel, has_version, store_cancel, cancel_row, request_cancel,
  bounded_reason,
}
use computerpilot_mcp.Aggregate.{has_workflow_id}

fail_workflows :
    (i lease_token error_code : String) (now : ℕ) (db db' : Db)
    → fail_unadmitted_operation i lease_token error_code now db ≡ ok db'
    → db'.workflows ≡ db.workflows
unfolding fail_unadmitted_operation
fail_workflows i lease_token error_code now db db' h = ground arith

-- No operation on an attempt writes the table of workflows.
pub same_workflows : (db db' : Db) → AttemptStep db db' → db'.workflows ≡ db.workflows
same_workflows db db' (claiming a now got h) = elim (claim_outcome a now db db' got h) [
  | inl e ↦ ap (λ d. d.workflows) e
  | inr c ↦ ap (λ d. d.workflows) c.after
]
same_workflows db db' (preparing a intent postcondition now got h) =
    ap (λ d. d.workflows) (prepare_outcome a intent postcondition now db db' got h)
same_workflows db db' (dispatching a now got h) =
    let (_, _, e) = dispatch_outcome a now db db' got h in ap (λ d. d.workflows) e
same_workflows db db' (completing a r now got h) =
    let (_, _, e) = complete_outcome a r now db db' got h in ap (λ d. d.workflows) e
same_workflows db db' (failing i lease_token error_code now h) =
    fail_workflows i lease_token error_code now db db' h

same_workflows_run : {db db' : Db} → AttemptRun db db' → db'.workflows ≡ db.workflows
same_workflows_run here = refl
same_workflows_run (next r s) = same_workflows _ _ s ∙ same_workflows_run r

module _ (i : String) (version : ℕ) (reason : Option String) (now : ℕ) (db db1 : Db)
    (w : WorkflowRow) where
  cancel_stores :
      find_workflow i db ≡ some w
      → is_over w.state ≡ false
      → request_cancel i version reason now db ≡ ok db1
      → (w.version ≡ version)
        × (db1 ≡ store_cancel i version (bounded_reason reason) now (cancel_target w.state) db)
  unfolding request_cancel cancel_row
  cancel_stores at running h = ground arith

  cancel_marks :
      find_workflow i db ≡ some w
      → is_over w.state ≡ false
      → request_cancel i version reason now db ≡ ok db1
      → (v : WorkflowRow) × (find_workflow i db1 ≡ some v) × (is_set v.cancel_requested_at ≡ true)
  cancel_marks at running h =
      let (same, e) = cancel_stores at running h in
      let put = put_cancel (bounded_reason reason) now (cancel_target w.state) in
      let hit =
        find-update_hit (has_workflow_id i) w (has_version i version) put (λ r. refl) db.workflows
          (ground (arith, find-true (has_workflow_id i) db.workflows w at)) at in
      (put w, rw e hit, is_set_coalesce w.cancel_requested_at)
    where
      is_set_coalesce : (at : Option ℕ) → is_set (coalesce at (some now)) ≡ true
      is_set_coalesce none = refl
      is_set_coalesce (some k) = refl

mark_refused :
    (a : Attempt) (now : ℕ) (db : Db) (o : OperationRow) (x : OperationRow × Db)
    → find_operation a.operation_id db ≡ some o
    → is_cancelled (find_workflow o.workflow_id db) ≡ true
    → mark_operation_may_dispatch a now db ≢ ok x
unfolding mark_operation_may_dispatch fenced_operation
mark_refused a now db o x at cancelled h = ground arith

prepare_refused :
    (a : Attempt) (intent postcondition : Option String) (now : ℕ) (db : Db) (o : OperationRow)
    (x : OperationRow × Db)
    → find_operation a.operation_id db ≡ some o
    → is_cancelled (find_workflow o.workflow_id db) ≡ true
    → prepare_operation_attempt a intent postcondition now db ≢ ok x
unfolding prepare_operation_attempt fenced_operation
prepare_refused a intent postcondition now db o x at cancelled h = ground arith

-- When a request to cancel has been accepted for a workflow that was not over, none of its
-- operations is prepared or allowed to dispatch any more, whatever operations on attempts happen
-- in between.
pub cancelled_never_dispatches :
    (i : String) (version : ℕ) (reason : Option String) (now : ℕ) (db db1 db2 : Db)
    (w : WorkflowRow)
    → find_workflow i db ≡ some w
    → is_over w.state ≡ false
    → request_cancel i version reason now db ≡ ok db1
    → AttemptRun db1 db2
    → (a : Attempt) (o : OperationRow) → find_operation a.operation_id db2 ≡ some o
    → o.workflow_id ≡ i
    → (later : ℕ) (intent postcondition : Option String) (x : OperationRow × Db)
    → (mark_operation_may_dispatch a later db2 ≢ ok x)
      × (prepare_operation_attempt a intent postcondition later db2 ≢ ok x)
cancelled_never_dispatches i version reason now db db1 db2 w at running h run a o of same later
      intent postcondition x =
    let (v, at1, marked) = cancel_marks i version reason now db db1 w at running h in
    let at2 = ap (find (has_workflow_id i)) (same_workflows_run run) ∙ at1 in
    let cancelled : is_cancelled (find_workflow o.workflow_id db2) ≡ true =
      subst (λ k. is_cancelled (find_workflow k db2) ≡ true) (sym same)
        (ap is_cancelled at2 ∙ ap (λ b. b || v.state == WorkflowState.cancelling) marked) in
    (
      mark_refused a later db2 o x of cancelled,
      prepare_refused a intent postcondition later db2 o x of cancelled,
    )
