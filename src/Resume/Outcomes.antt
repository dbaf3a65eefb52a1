-- ===== src/Resume/Outcomes.antt =====
-- What a transition that returns has done.
use computerpilot_mcp.Prelude.{
  ℕ, String, Bool, true, false, List, [], ◌∷◌, Option, some, ◌≡◌, refl, sym, ap, ◌∙◌, arith, ◌==◌,
  ℕ_eq, string_eq, Bool-cases, inl, inr, if◌then◌else◌,
}
use computerpilot_mcp.Prelude.Table.{update_where}
use computerpilot_mcp.Prelude.Result.{
  ok, or_raise, >>=-eq-ok, require-eq-ok, or_raise-eq-ok, ok-injective,
}
use computerpilot_mcp.Lifecycle.{WorkflowState, workflow_state_eq, validate_workflow_transition}
use computerpilot_mcp.Store.{Db, WorkflowRow, OperationRow, find_workflow}
use computerpilot_mcp.Advance.{bounded_error, require_given_token}
use computerpilot_mcp.Cancel.{has_version}
use computerpilot_mcp.Resume.{
  require_safe_resume, requeue_one, requeue_all, failed_of, retries, put_state_of, requeue,
  transition,
}

abbrev pub stored : String → ℕ → (WorkflowRow → WorkflowRow) → Db → Db
stored i version f db = record db {
  workflows = update_where (has_version i version) f db.workflows;
}

-- The row that the transition has read, and the database before the row is written.
pub record IsStored (phase_of : String → Option String) (i : String) (version : ℕ)
    (state : WorkflowState) (f : WorkflowRow → WorkflowRow) (now : ℕ) (w : WorkflowRow)
    (db db1 db' : Db) : Type 0 where
  pub found : find_workflow i db ≡ some w
  pub current : w.version ≡ version
  pub requeued : requeue phase_of i w state now db ≡ ok db1
  pub made : db' ≡ stored i version f db1

pub transition_outcome :
    (phase_of : String → Option String) (i : String) (version : ℕ) (state : WorkflowState)
    (step : Option ℕ) (error token : Option String) (now : ℕ) (db db' : Db)
    → transition phase_of i version state step error token now db ≡ ok db'
    → (w : WorkflowRow) × (db1 : Db) × IsStored phase_of i version state
        (put_state_of state step (bounded_error error) now)
        now
        w
        db
        db1
        db'
unfolding transition
transition_outcome phase_of i version state step error token now db db' h =
    let (w, at, h1) = >>=-eq-ok (or_raise (find_workflow i db) "workflow_not_found") _ h in
    let (current, h2) = require-eq-ok (w.version == version) "workflow_version_conflict" _ h1 in
    let (_, _, h3) = >>=-eq-ok (require_given_token i token now db) _ h2 in
    let (_, _, h4) = >>=-eq-ok (validate_workflow_transition w.state state) _ h3 in
    let (db1, requeued, h5) = >>=-eq-ok (requeue phase_of i w state now db) _ h4 in
    (
      w,
      db1,
      record {
        found = or_raise-eq-ok (find_workflow i db) "workflow_not_found" at;
        current = ground (arith, current);
        requeued = requeued;
        made = sym (ok-injective h5);
      },
    )

requeue_all-workflows :
    (i : String) (now : ℕ) (os : List OperationRow) (db : Db)
    → (requeue_all i now os db).workflows ≡ db.workflows
unfolding requeue_all
requeue_all-workflows i now [] db = refl
requeue_all-workflows i now (o ∷ os) db = requeue_all-workflows i now os (requeue_one i now o db)

pub requeue-workflows :
    (phase_of : String → Option String) (i : String) (w : WorkflowRow) (state : WorkflowState)
    (now : ℕ) (db db' : Db)
    → requeue phase_of i w state now db ≡ ok db'
    → db'.workflows ≡ db.workflows
unfolding requeue
requeue-workflows phase_of i w state now db db' h =
    elim (Bool-cases (state == WorkflowState.queued)) [
      | inr e ↦ ap (λ d. d.workflows) (sym (ok-injective (rw e at h)))
      | inl e ↦
          let (_, _, h1) = >>=-eq-ok (require_safe_resume phase_of i db) _ (rw e at h) in
          ap (λ d. d.workflows) (sym (ok-injective h1)) ∙ kept (retries w)
    ]
  where
    kept :
        (again : Bool)
        → (if again then requeue_all i now (failed_of i db) db else db).workflows ≡ db.workflows
    kept true = requeue_all-workflows i now (failed_of i db) db
    kept false = refl
