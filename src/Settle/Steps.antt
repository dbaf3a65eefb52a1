-- ===== src/Settle/Steps.antt =====
-- The operations on attempts as steps of the database, and what each that returned did.
use computerpilot_mcp.Prelude.{
  ℕ, String, true, Option, some, ◌≡◌, ◌⊎◌, inl, inr, arith, Option-cases,
}
use computerpilot_mcp.Prelude.Table.{update_where}
use computerpilot_mcp.Prelude.Text.{text_take}
use computerpilot_mcp.Prelude.Result.{ok, err-ne-ok, Result-cases}
use computerpilot_mcp.Store.{Db, OperationRow, WorkflowRow, find_operation, find_workflow}
use computerpilot_mcp.Dispatch.{
  ClaimArgs, admit_operation, claim_for, claim_ready_operation, has_operation_id, has_room,
  takes_work, require_current_lease_row,
}
use computerpilot_mcp.Dispatch.Attempt.{
  Attempt, fenced_operation, update_attempt, prepare, prepare_operation_attempt, dispatch_operation,
  mark_operation_may_dispatch, read_operation,
}
use computerpilot_mcp.Settle.{
  Outcome, final_outcome, settle_attempt, complete_operation_attempt, reject_operation,
  preflight_evidence, fail_unadmitted_operation,
}

pub data AttemptStep (db db' : Db) : Type 0 where
  claiming :
      (a : ClaimArgs) (now : ℕ) (got : Option OperationRow)
      → claim_ready_operation a now db ≡ ok (got, db')
      → AttemptStep db db'
  preparing :
      (a : Attempt) (intent postcondition : Option String) (now : ℕ) (got : OperationRow)
      → prepare_operation_attempt a intent postcondition now db ≡ ok (got, db')
      → AttemptStep db db'
  dispatching :
      (a : Attempt) (now : ℕ) (got : OperationRow)
      → mark_operation_may_dispatch a now db ≡ ok (got, db')
      → AttemptStep db db'
  completing :
      (a : Attempt) (r : Outcome) (now : ℕ) (got : OperationRow)
      → complete_operation_attempt a r now db ≡ ok (got, db')
      → AttemptStep db db'
  failing :
      (i lease_token error_code : String) (now : ℕ)
      → fail_unadmitted_operation i lease_token error_code now db ≡ ok db'
      → AttemptStep db db'

pub data AttemptRun (start : Db) : Db → Type 0 where
  here : AttemptRun start start
  next : {db db' : Db} → AttemptRun start db → AttemptStep db db' → AttemptRun start db'

read_operation-eq-ok :
    (i : String) (db db' : Db) (got : OperationRow) → read_operation i db ≡ ok (got, db') → db' ≡ db
read_operation-eq-ok i db db' got h = ground arith

-- What a claim that admitted has checked.
pub record Claimed (a : ClaimArgs) (now : ℕ) (db db' : Db) : Type 0 where
  pub o : OperationRow
  pub w : WorkflowRow
  pub operation_found : find_operation a.operation_id db ≡ some o
  pub workflow_found : find_workflow o.workflow_id db ≡ some w
  pub works : takes_work w ≡ true
  pub room : has_room a o w db ≡ true
  pub after : db' ≡ admit_operation a now o db

claim_for_outcome :
    (a : ClaimArgs) (now : ℕ) (o : OperationRow) (w : WorkflowRow) (db db' : Db)
    (got : Option OperationRow)
    → claim_for a now o w db ≡ ok (got, db')
    → (db' ≡ db)
      ⊎ ((takes_work w ≡ true) × (has_room a o w db ≡ true) × (db' ≡ admit_operation a now o db))
unfolding claim_for require_current_lease_row
claim_for_outcome a now o w db db' got h = ground arith

claim_found :
    (a : ClaimArgs) (now : ℕ) (db db' : Db) (got : Option OperationRow)
    → claim_ready_operation a now db ≡ ok (got, db')
    → (o : OperationRow) × (w : WorkflowRow) × (find_operation a.operation_id db ≡ some o)
      × (find_workflow o.workflow_id db ≡ some w)
      × (claim_for a now o w db ≡ ok (got, db'))
unfolding claim_ready_operation
claim_found a now db db' got h = elim (Option-cases (find_operation a.operation_id db)) [
  | inl e ↦ absurd (ground arith)
  | inr (o, e) ↦ elim (Option-cases (find_workflow o.workflow_id db)) [
    | inl f ↦ absurd (ground arith)
    | inr (w, f) ↦ (o, w, e, f, ground arith)
  ]
]

pub claim_outcome :
    (a : ClaimArgs) (now : ℕ) (db db' : Db) (got : Option OperationRow)
    → claim_ready_operation a now db ≡ ok (got, db')
    → (db' ≡ db) ⊎ Claimed a now db db'
claim_outcome a now db db' got h =
    let (o, w, at, of, q) = claim_found a now db db' got h in
    elim (claim_for_outcome a now o w db db' got q) [
      | inl same ↦ inl same
      | inr (works, room, after) ↦ inr (record {
        o = o;
        w = w;
        operation_found = at;
        workflow_found = of;
        works = works;
        room = room;
        after = after;
      })
    ]

pub prepare_outcome :
    (a : Attempt) (intent postcondition : Option String) (now : ℕ) (db db' : Db)
    (got : OperationRow)
    → prepare_operation_attempt a intent postcondition now db ≡ ok (got, db')
    → db' ≡ update_attempt a (prepare intent postcondition now) db
unfolding prepare_operation_attempt
prepare_outcome a intent postcondition now db db' got h = ground arith

pub dispatch_outcome :
    (a : Attempt) (now : ℕ) (db db' : Db) (got : OperationRow)
    → mark_operation_may_dispatch a now db ≡ ok (got, db')
    → (o : OperationRow) × (fenced_operation a now db ≡ ok o)
      × (db' ≡ dispatch_operation a now o db)
unfolding mark_operation_may_dispatch
dispatch_outcome a now db db' got h = elim (Result-cases (fenced_operation a now db)) [
  | inl (e, q) ↦ absurd (err-ne-ok (rw (q, mark_operation_may_dispatch) at h))
  | inr (o, q) ↦ (o, q, ground arith)
]

pub complete_outcome :
    (a : Attempt) (r : Outcome) (now : ℕ) (db db' : Db) (got : OperationRow)
    → complete_operation_attempt a r now db ≡ ok (got, db')
    → (o : OperationRow) × (fenced_operation a now db ≡ ok o)
      × (db' ≡ settle_attempt a (final_outcome a r db) now o db)
unfolding complete_operation_attempt
complete_outcome a r now db db' got h = elim (Result-cases (fenced_operation a now db)) [
  | inl (e, q) ↦ absurd (ground arith)
  | inr (o, q) ↦ (o, q, ground arith)
]

pub fail_outcome :
    (i lease_token error_code : String) (now : ℕ) (db db' : Db)
    → fail_unadmitted_operation i lease_token error_code now db ≡ ok db'
    → (db'.admissions ≡ db.admissions)
      × (db'.operations
          ≡ update_where
              (has_operation_id i)
              (reject_operation (text_take 128 error_code) preflight_evidence now)
              db.operations)
unfolding fail_unadmitted_operation
fail_outcome i lease_token error_code now db db' h = ground arith
