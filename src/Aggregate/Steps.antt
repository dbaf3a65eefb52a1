-- ===== src/Aggregate/Steps.antt =====
-- The tests of the aggregate over the operations of the steps, as statements on the rows.
use computerpilot_mcp.Prelude.{
  String, Bool, true, not, ◌&&◌, ◌||◌, List, [], ◌∷◌, ◌≡◌, inl, inr, refl, sym, ap, ◌∙◌, arith, any,
  all, length, keep_if, All, All-map, ℕ_eq, string_eq, Bool-cases, ltb,
}
use computerpilot_mcp.Prelude.Quantify.{
  Any, all-All, All-all, any-Any, Any-any, any-keep_if, all-keep_if, Any-map,
}
use computerpilot_mcp.Lifecycle.{OperationState, operation_state_eq}
use computerpilot_mcp.Store.{Db, OperationRow}
use computerpilot_mcp.Dispatch.{is_success}
use computerpilot_mcp.Aggregate.{is_step_operation, insert_by_step, by_step, step_operations}
use computerpilot_mcp.Aggregate.Rows.{
  IsStepOf, IsDone, is_step_operation-true, IsStepOf-is_step_operation, is_success-IsDone,
  IsDone-is_success,
}

-- The order of the steps does not matter.
module _ (p : OperationRow → Bool) where
  any-insert_by_step :
      (o : OperationRow) (os : List OperationRow) → any p (insert_by_step o os) ≡ (p o || any p os)
  any-insert_by_step o [] = refl
  any-insert_by_step o (x ∷ os) = ground (arith, any-insert_by_step o os)

  any-by_step : (os : List OperationRow) → any p (by_step os) ≡ any p os
  any-by_step [] = refl
  any-by_step (o ∷ os) = any-insert_by_step o (by_step os) ∙ ap (λ b. p o || b) (any-by_step os)

  all-insert_by_step :
      (o : OperationRow) (os : List OperationRow) → all p (insert_by_step o os) ≡ (p o && all p os)
  all-insert_by_step o [] = refl
  all-insert_by_step o (x ∷ os) = ground (arith, all-insert_by_step o os)

  all-by_step : (os : List OperationRow) → all p (by_step os) ≡ all p os
  all-by_step [] = refl
  all-by_step (o ∷ os) = all-insert_by_step o (by_step os) ∙ ap (λ b. p o && b) (all-by_step os)

  any-step_operations :
      (i : String) (db : Db)
      → any p (step_operations i db) ≡ any (λ o. is_step_operation i o && p o) db.operations
  any-step_operations i db =
      any-by_step (keep_if (is_step_operation i) db.operations)
      ∙ any-keep_if p (is_step_operation i) db.operations

  all-step_operations :
      (i : String) (db : Db)
      → all p (step_operations i db) ≡ all (λ o. not (is_step_operation i o) || p o) db.operations
  all-step_operations i db =
      all-by_step (keep_if (is_step_operation i) db.operations)
      ∙ all-keep_if p (is_step_operation i) db.operations

-- A test of some step of the workflow, as a statement on the rows.
pub any-step_operations-Any :
    (p : OperationState → Bool) (P : OperationState → Type 0)
    → ((s : OperationState) → p s ≡ true → P s)
    → (i : String) (db : Db) → any (λ o. p o.state) (step_operations i db) ≡ true
    → Any (λ o. IsStepOf i o × P o.state) db.operations
any-step_operations-Any p P f i db h =
    Any-map (λ o. (is_step_operation i o && p o.state) ≡ true) (λ o. IsStepOf i o × P o.state)
      (λ o k. (is_step_operation-true i o (ground arith), f o.state (ground arith))) db.operations
      (any-Any (λ o. is_step_operation i o && p o.state) db.operations
        (sym (any-step_operations (λ o. p o.state) i db) ∙ h))

pub Any-any-step_operations :
    (p : OperationState → Bool) (P : OperationState → Type 0)
    → ((s : OperationState) → P s → p s ≡ true)
    → (i : String) (db : Db) → Any (λ o. IsStepOf i o × P o.state) db.operations
    → any (λ o. p o.state) (step_operations i db) ≡ true
Any-any-step_operations p P f i db h =
    any-step_operations (λ o. p o.state) i db
    ∙ Any-any (λ o. is_step_operation i o && p o.state) db.operations
        (Any-map (λ o. IsStepOf i o × P o.state) (λ o. (is_step_operation i o && p o.state) ≡ true)
          (λ o k. ground (arith, IsStepOf-is_step_operation i o k.0, f o.state k.1)) db.operations
          h)

pub all-step_operations-All :
    (i : String) (db : Db)
    → all (λ o. is_success o.state) (step_operations i db) ≡ true
    → All (λ o. IsStepOf i o → IsDone o.state) db.operations
all-step_operations-All i db h =
    All-map (λ o. (not (is_step_operation i o) || is_success o.state) ≡ true)
      (λ o. IsStepOf i o → IsDone o.state)
      (λ o k s. is_success-IsDone o.state (ground (arith, IsStepOf-is_step_operation i o s)))
      db.operations
      (all-All (λ o. not (is_step_operation i o) || is_success o.state) db.operations
        (sym (all-step_operations (λ o. is_success o.state) i db) ∙ h))

pub All-all-step_operations :
    (i : String) (db : Db)
    → All (λ o. IsStepOf i o → IsDone o.state) db.operations
    → all (λ o. is_success o.state) (step_operations i db) ≡ true
All-all-step_operations i db h =
    all-step_operations (λ o. is_success o.state) i db
    ∙ All-all (λ o. not (is_step_operation i o) || is_success o.state) db.operations
        (All-map (λ o. IsStepOf i o → IsDone o.state)
          (λ o. (not (is_step_operation i o) || is_success o.state) ≡ true)
          (λ o k. elim (Bool-cases (is_step_operation i o)) [
            | inl e ↦
                ground (arith, e, IsDone-is_success o.state (k (is_step_operation-true i o e)))
            | inr e ↦ ground (arith, e)
          ])
          db.operations h)

any-length : (os : List OperationRow) → any (λ o. true) os ≡ ltb 0 (length os)
any-length [] = refl
any-length (o ∷ os) = ground arith

pub length-Any :
    (i : String) (db : Db)
    → ltb 0 (length (step_operations i db)) ≡ true
    → Any (IsStepOf i) db.operations
length-Any i db h =
    Any-map (λ o. IsStepOf i o × Unit {0}) (IsStepOf i) (λ o k. k.0) db.operations
      (any-step_operations-Any (λ s. true) (λ s. Unit {0}) (λ s k. tt) i db
        (any-length (step_operations i db) ∙ h))

pub Any-length :
    (i : String) (db : Db)
    → Any (IsStepOf i) db.operations
    → ltb 0 (length (step_operations i db)) ≡ true
Any-length i db h =
    sym (any-length (step_operations i db))
    ∙ Any-any-step_operations (λ s. true) (λ s. Unit {0}) (λ s k. refl) i db
        (Any-map (IsStepOf i) (λ o. IsStepOf i o × Unit {0}) (λ o k. (k, tt)) db.operations h)
