-- ===== src/Resume/Settled.antt =====
-- What the test before a resumption says of the rows of the workflow.
use computerpilot_mcp.Prelude.{
  String, false, not, ◌&&◌, some, ◌≡◌, ◌≢◌, ap, arith, ◌==◌, string_eq, eq_iff, All, All-map,
}
use computerpilot_mcp.Prelude.Quantify.{any-All}
use computerpilot_mcp.Lifecycle.{OperationState, operation_state_eq}
use computerpilot_mcp.Store.{Db, OperationRow, ResourceRequest, released, is_child, is_released}
use computerpilot_mcp.Resume.{is_unsettled, has_unsettled}

-- No operation of the workflow is running, waiting, uncertain or reconciling, all its requests are
-- released, and it has no admission.
pub record IsSettled (i : String) (db : Db) : Type 0 where
  pub operations :
      All
        (λ o.
          o.workflow_id ≡ i
          → (o.state ≢ OperationState.running)
            × (o.state ≢ OperationState.waiting)
            × (o.state ≢ OperationState.uncertain)
            × (o.state ≢ OperationState.reconciling))
        db.operations
  pub requests : All (λ r. r.workflow_id ≡ some i → r.state ≡ released) db.requests
  pub admissions : All (λ a. a.workflow_id ≢ i) db.admissions

operation_settled :
    (i : String) (o : OperationRow)
    → (o.workflow_id == i && is_unsettled o.state) ≡ false
    → o.workflow_id ≡ i
    → (o.state ≢ OperationState.running)
      × (o.state ≢ OperationState.waiting)
      × (o.state ≢ OperationState.uncertain)
      × (o.state ≢ OperationState.reconciling)
operation_settled i o h same =
    let here = (eq_iff o.workflow_id i).1 same in
    (
      λ e. ground (arith, here, e),
      λ e. ground (arith, here, e),
      λ e. ground (arith, here, e),
      λ e. ground (arith, here, e),
    )

request_released :
    (i : String) (r : ResourceRequest)
    → (is_child i r.workflow_id && not (is_released r.state)) ≡ false
    → r.workflow_id ≡ some i
    → r.state ≡ released
request_released i r h same = ground (arith, ap (is_child i) same, (eq_iff i i).1)

pub has_unsettled-IsSettled : (i : String) (db : Db) → has_unsettled i db ≡ false → IsSettled i db
has_unsettled-IsSettled i db h = record {
  operations =
      All-map (λ o. (o.workflow_id == i && is_unsettled o.state) ≡ false) _ (operation_settled i)
        db.operations
        (any-All (λ o. o.workflow_id == i && is_unsettled o.state) db.operations (ground arith));
  requests =
      All-map (λ r. (is_child i r.workflow_id && not (is_released r.state)) ≡ false) _
        (request_released i) db.requests
        (any-All (λ r. is_child i r.workflow_id && not (is_released r.state)) db.requests
          (ground arith));
  admissions =
      All-map (λ a. (a.workflow_id == i) ≡ false) (λ a. a.workflow_id ≢ i)
        (λ a k e. ground (arith, (eq_iff a.workflow_id i).1 e)) db.admissions
        (any-All (λ a. a.workflow_id == i) db.admissions (ground arith));
}
