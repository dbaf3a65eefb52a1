-- ===== src/Settle/Once.antt =====
-- The version of an operation fences its attempts: what one attempt has dispatched or settled, no
-- later call under the same version dispatches or settles again.
use computerpilot_mcp.Prelude.{
  ℕ, ◌+◌, ◌<◌, ◌≤◌, String, Bool, true, false, List, some, ◌≡◌, ◌≢◌, inl, inr, refl, arith, ap,
  ◌==◌, ℕ_eq, string_eq, if◌then◌else◌, eq_iff, Bool-cases, Option-cases,
}
use computerpilot_mcp.Prelude.Table.{find, find-true, update_where}
use computerpilot_mcp.Prelude.Find.{find-update_where, find-update_hit}
use computerpilot_mcp.Prelude.Text.{text_take}
use computerpilot_mcp.Prelude.Result.{ok}
use computerpilot_mcp.Store.{Db, OperationRow, find_operation}
use computerpilot_mcp.Dispatch.{reserve_attempt, has_operation_id}
use computerpilot_mcp.Dispatch.Attempt.{
  Attempt, fenced_operation, is_attempt, owns_operation, prepare, start_operation,
  mark_operation_may_dispatch,
}
use computerpilot_mcp.Settle.{
  Outcome, final_outcome, settle_operation, complete_operation_attempt, reject_operation,
  preflight_evidence,
}
use computerpilot_mcp.Settle.Steps.{
  AttemptStep, claiming, preparing, dispatching, completing, failing, AttemptRun, here, next,
  claim_outcome, prepare_outcome, dispatch_outcome, complete_outcome, fail_outcome,
}

-- The operation has a version above `v`.
abbrev IsPast : String → ℕ → List OperationRow → Type 0
IsPast i v operations =
    (o : OperationRow) × (find (has_operation_id i) operations ≡ some o) × (v < o.version)

-- An update of operations that keeps identifiers and does not lower a version.
record IsForward (f : OperationRow → OperationRow) : Type 0 where
  same_id : (o : OperationRow) → (f o).operation_id ≡ o.operation_id
  grows : (o : OperationRow) → o.version ≤ (f o).version

IsPast-update :
    (i : String) (v : ℕ) (q : OperationRow → Bool) (f : OperationRow → OperationRow)
    → IsForward f
    → (operations : List OperationRow) → IsPast i v operations
    → IsPast i v (update_where q f operations)
IsPast-update i v q f forward operations (o, at, past) = (
  if q o then f o else o,
  find-update_where (has_operation_id i) o q f (λ r. ap (λ k. k == i) (forward.same_id r))
      operations at,
  elim (Bool-cases (q o)) [ inl e ↦ rw e (ground (arith, forward.grows o)) | inr e ↦ rw e past ],
)

IsPast-step :
    (i : String) (v : ℕ) (db db' : Db)
    → IsPast i v db.operations
    → AttemptStep db db'
    → IsPast i v db'.operations
IsPast-step i v db db' past (claiming a now got h) = elim (claim_outcome a now db db' got h) [
  | inl e ↦ rw e past
  | inr c ↦ rw c.after (
      IsPast-update i v (has_operation_id a.operation_id) (reserve_attempt a now)
        (record { same_id = λ o. refl; grows = λ o. ground arith }) db.operations past)
]
IsPast-step i v db db' past (preparing a intent postcondition now got h) =
    rw (prepare_outcome a intent postcondition now db db' got h) (
      IsPast-update i v (is_attempt a) (prepare intent postcondition now)
        (record { same_id = λ o. refl; grows = λ o. ground arith }) db.operations past)
IsPast-step i v db db' past (dispatching a now got h) =
    let (o, _, e) = dispatch_outcome a now db db' got h in
    rw e (
      IsPast-update i v (is_attempt a) (start_operation now)
        (record { same_id = λ o. refl; grows = λ o. ground arith }) db.operations past)
IsPast-step i v db db' past (completing a r now got h) =
    let (o, _, e) = complete_outcome a r now db db' got h in
    rw e (
      IsPast-update i v (is_attempt a) (settle_operation (final_outcome a r db) now)
        (record { same_id = λ o. refl; grows = λ o. ground arith }) db.operations past)
IsPast-step i v db db' past (failing j lease_token error_code now h) =
    rw (fail_outcome j lease_token error_code now db db' h).1 (
      IsPast-update i v (has_operation_id j)
        (reject_operation (text_take 128 error_code) preflight_evidence now)
        (record { same_id = λ o. refl; grows = λ o. ground arith }) db.operations past)

IsPast-run :
    (i : String) (v : ℕ) {db db' : Db}
    → IsPast i v db.operations
    → AttemptRun db db'
    → IsPast i v db'.operations
IsPast-run i v past here = past
IsPast-run i v past (next r s) = IsPast-step i v _ _ (IsPast-run i v past r) s

module _ (a : Attempt) where
  past_refuses :
      (db : Db)
      → IsPast a.operation_id a.expected_version db.operations
      → (now : ℕ) (o : OperationRow) → fenced_operation a now db ≢ ok o
  unfolding fenced_operation
  past_refuses db (row, at, past) now o h = ground arith

  fenced_row :
      (now : ℕ) (db : Db) (o : OperationRow)
      → fenced_operation a now db ≡ ok o
      → (find_operation a.operation_id db ≡ some o) × (owns_operation a o ≡ true)
  unfolding fenced_operation
  fenced_row now db o h = ground arith

  attempt_hit :
      (o : OperationRow)
      → has_operation_id a.operation_id o ≡ true
      → owns_operation a o ≡ true
      → (a.attempt_token == "") ≡ false
      → is_attempt a o ≡ true
  attempt_hit o same owns token = elim (Option-cases o.attempt_token) [
    | inl e ↦ ground (arith, eq_iff a.attempt_token "", eq_iff "" a.attempt_token)
    | inr (t, e) ↦ ground arith
  ]

  -- The update of the attempt hits the row that was checked.
  IsPast-after :
      (f : OperationRow → OperationRow) (now : ℕ) (db : Db) (o : OperationRow)
      → ((r : OperationRow) → (f r).operation_id ≡ r.operation_id)
      → (f o).version ≡ o.version + 1
      → (a.attempt_token == "") ≡ false
      → fenced_operation a now db ≡ ok o
      → IsPast a.operation_id a.expected_version (update_where (is_attempt a) f db.operations)
  IsPast-after f now db o same_id bump token h =
      let (at, owns) = fenced_row now db o h in
      (
        f o,
        find-update_hit (has_operation_id a.operation_id) o (is_attempt a) f
            (λ r. ap (λ k. k == a.operation_id) (same_id r)) db.operations
            (attempt_hit o (find-true (has_operation_id a.operation_id) db.operations o at) owns
              token)
            at,
        ground (arith, bump),
      )

  -- Past its version, the attempt neither dispatches nor settles.
  refuses :
      {db db' : Db}
      → IsPast a.operation_id a.expected_version db.operations
      → AttemptRun db db'
      → (now : ℕ) (r : Outcome) (x : OperationRow × Db)
      → (mark_operation_may_dispatch a now db' ≢ ok x)
        × (complete_operation_attempt a r now db' ≢ ok x)
  refuses {db} {db'} past run now r x =
      let never = past_refuses db' (IsPast-run a.operation_id a.expected_version past run) now in
      (
        λ h. let (o, q, _) = dispatch_outcome a now db' _ _ h in never o q,
        λ h. let (o, q, _) = complete_outcome a r now db' _ _ h in never o q,
      )

-- A side effect is allowed at most once: when an attempt, whose token is not empty, has been allowed
-- to dispatch, no later call under the same version is allowed again or settles the operation,
-- whatever claims, preparations, dispatches, completions and rejections happen in between.
pub dispatched_once :
    (a : Attempt) (now : ℕ) (db db1 db2 : Db) (got : OperationRow)
    → (a.attempt_token == "") ≡ false
    → mark_operation_may_dispatch a now db ≡ ok (got, db1)
    → AttemptRun db1 db2
    → (later : ℕ) (r : Outcome) (x : OperationRow × Db)
    → (mark_operation_may_dispatch a later db2 ≢ ok x)
      × (complete_operation_attempt a r later db2 ≢ ok x)
dispatched_once a now db db1 db2 got token h run later r x =
    let (o, q, e) = dispatch_outcome a now db db1 got h in
    refuses a (rw e (IsPast-after a (start_operation now) now db o (λ y. refl) refl token q)) run
      later r x

-- A result is accepted at most once: when an attempt, whose token is not empty, has been settled,
-- a late result or dispatch under the same version is refused, whatever operations on attempts
-- happen in between.
pub settled_once :
    (a : Attempt) (result : Outcome) (now : ℕ) (db db1 db2 : Db) (got : OperationRow)
    → (a.attempt_token == "") ≡ false
    → complete_operation_attempt a result now db ≡ ok (got, db1)
    → AttemptRun db1 db2
    → (later : ℕ) (r : Outcome) (x : OperationRow × Db)
    → (mark_operation_may_dispatch a later db2 ≢ ok x)
      × (complete_operation_attempt a r later db2 ≢ ok x)
settled_once a result now db db1 db2 got token h run later r x =
    let (o, q, e) = complete_outcome a result now db db1 got h in
    refuses a
      (rw e (
        IsPast-after a (settle_operation (final_outcome a result db) now) now db o (λ y. refl) refl
          token q))
      run later r x
