-- ===== src/Resume/Safe.antt =====
-- What a resumption has tested, and what it leaves.
use mathlib.Core.Option.{some-injective}
use mathlib.Core.Path.{subst}
use computerpilot_mcp.Prelude.{
  ℕ, ◌+◌, String, Bool, true, false, not, ◌&&◌, ◌||◌, List, [], ◌∷◌, Option, some, ◌≡◌, ◌≢◌, ◌⊎◌,
  refl, sym, ap, ◌∙◌, arith, ◌==◌, ℕ_eq, string_eq, eq_iff, contains, map, keep_if, All, All-map,
  eq_iff, Bool-cases, inl, inr, if◌then◌else◌,
}
use computerpilot_mcp.Prelude.Table.{find, find-true, update_where, All-update_cases}
use computerpilot_mcp.Prelude.Quantify.{All-keep_if}
use computerpilot_mcp.Prelude.Find.{find-update_hit}
use computerpilot_mcp.Prelude.Result.{ok, >>=-eq-ok, require-eq-ok, ok-injective}
use computerpilot_mcp.Lifecycle.{
  WorkflowState, OperationState, workflow_state_eq, operation_state_eq,
}
use computerpilot_mcp.Store.{Db, WorkflowRow, OperationRow, find_workflow}
use computerpilot_mcp.Aggregate.{has_workflow_id, is_failed}
use computerpilot_mcp.Advance.{bounded_error}
use computerpilot_mcp.Cancel.{has_version}
use computerpilot_mcp.Resume.Outcomes.{transition_outcome, requeue-workflows}
use computerpilot_mcp.Resume.Settled.{IsSettled, has_unsettled-IsSettled}
use computerpilot_mcp.Resume.{
  action_mutates, has_unsettled, before_dispatch, is_text, evidence_phase, require_replayable,
  require_safe_resume, reset_operation, is_failed_row, requeue_one, requeue_all, failed_of, retries,
  put_state_of, requeue, transition,
}

-- The action changes nothing, or there is proof that it was not dispatched.
abbrev pub MayReplay : (String → Option String) → OperationRow → Type 0
MayReplay phase_of o =
    ((action_mutates o.action ≡ ok false) × ((o.action == "verify_changes") ≡ false))
    ⊎ ((before_dispatch (evidence_phase phase_of o.evidence) ≡ true)
        × (is_text o.external_ref ≡ false))

abbrev pub fails_in : String → OperationRow → Bool
fails_in i o = o.workflow_id == i && o.state == OperationState.failed

require_replayable-MayReplay :
    (phase_of : String → Option String) (rows : List OperationRow)
    → require_replayable phase_of rows ≡ ok tt
    → All (MayReplay phase_of) rows
unfolding require_replayable
require_replayable-MayReplay phase_of [] h = tt
require_replayable-MayReplay phase_of (o ∷ os) h =
    let (mutates, told, h1) = >>=-eq-ok (action_mutates o.action) _ h in
    let proof =
      before_dispatch (evidence_phase phase_of o.evidence) && not (is_text o.external_ref) in
    let (safe, h2) =
      require-eq-ok (not (mutates || o.action == "verify_changes") || proof)
        "workflow_resume_unsafe_replay" _ h1 in
    (
      replay mutates (o.action == "verify_changes") told refl safe,
      require_replayable-MayReplay phase_of os h2,
    )
  where
    replay :
        (mutates verifies : Bool)
        → action_mutates o.action ≡ ok mutates
        → (o.action == "verify_changes") ≡ verifies
        → (not (mutates || verifies)
            || before_dispatch (evidence_phase phase_of o.evidence) && not (is_text o.external_ref))
          ≡ true
        → MayReplay phase_of o
    replay false false told same safe = inl (told, same)
    replay false true told same safe = inr (ground arith, ground arith)
    replay true verifies told same safe = inr (ground arith, ground arith)

-- Each row that fails in the workflow has an identifier among those still to be requeued.
abbrev IsListed : String → List OperationRow → OperationRow → Type 0
IsListed i os o =
    fails_in i o ≡ true → contains (map (λ p. p.operation_id) os) o.operation_id ≡ true

requeue_all-settles :
    (i : String) (now : ℕ) (os : List OperationRow) (db : Db)
    → All (IsListed i os) db.operations
    → All (λ o. fails_in i o ≡ false) (requeue_all i now os db).operations
unfolding requeue_all
requeue_all-settles i now [] db listed =
    All-map (IsListed i []) (λ o. fails_in i o ≡ false)
      (λ o h. elim (Bool-cases (fails_in i o)) [ inl e ↦ absurd (ground (arith, h e)) | inr e ↦ e ])
      db.operations listed
requeue_all-settles i now (o ∷ os) db listed =
    requeue_all-settles i now os (requeue_one i now o db) (
      All-update_cases (IsListed i (o ∷ os)) (IsListed i os) (is_failed_row o.operation_id)
        (reset_operation now) (λ p e h t. absurd (ground arith)) (λ p e h t. ground (arith, h t))
        db.operations listed)

failed_of-IsListed :
    (i : String) (rows : List OperationRow) → All (IsListed i (keep_if (fails_in i) rows)) rows
failed_of-IsListed i [] = tt
failed_of-IsListed i (o ∷ os) = (
  λ t. ground (arith, t, eq_iff o.operation_id o.operation_id),
  All-map (IsListed i (keep_if (fails_in i) os)) (IsListed i (keep_if (fails_in i) (o ∷ os)))
      (λ p h t. elim (Bool-cases (fails_in i o)) [
        | inl e ↦ ground (arith, e, h t)
        | inr e ↦ ground (arith, e, h t)
      ])
      os (failed_of-IsListed i os),
)

-- What the resumption of a workflow has tested, and the database after it.
requeue-queued :
    (phase_of : String → Option String) (i : String) (w : WorkflowRow) (now : ℕ) (db db' : Db)
    → requeue phase_of i w WorkflowState.queued now db ≡ ok db'
    → IsSettled i db
      × All
          (λ o. (o.workflow_id == i && is_failed o.state) ≡ true → MayReplay phase_of o)
          db.operations
      × (db' ≡ (if retries w then requeue_all i now (failed_of i db) db else db))
unfolding requeue require_safe_resume
requeue-queued phase_of i w now db db' h =
    let (_, safe, h1) = >>=-eq-ok (require_safe_resume phase_of i db) _ h in
    let (settled, h2) =
      require-eq-ok (not (has_unsettled i db)) "workflow_resume_unresolved" _ safe in
    (
      has_unsettled-IsSettled i db (ground (arith, settled)),
      All-keep_if (MayReplay phase_of) (λ o. o.workflow_id == i && is_failed o.state) db.operations
          (require_replayable-MayReplay phase_of _ h2),
      sym (ok-injective h1),
    )

-- A workflow that was resumed had nothing unsettled, and none of its operations that failed, or were
-- given up, can have had an effect that a replay would repeat; now none of them is failed, and the
-- workflow is queued under a new version.
pub record IsResumed (phase_of : String → Option String) (i : String) (version : ℕ) (db db' : Db)
    : Type 0 where
  pub settled : IsSettled i db
  pub replayable :
      All
        (λ o.
          o.workflow_id ≡ i
          → (o.state ≡ OperationState.failed) ⊎ (o.state ≡ OperationState.unresolvable)
          → MayReplay phase_of o)
        db.operations
  pub requeued : All (λ o. o.workflow_id ≡ i → o.state ≢ OperationState.failed) db'.operations
  pub queued :
      (w : WorkflowRow) × (find_workflow i db' ≡ some w)
      × (w.state ≡ WorkflowState.queued)
      × (w.version ≡ version + 1)

-- When a workflow that failed or was paused, of a definition with a graph of steps, is resumed, none
-- of its operations was running, waiting, uncertain or reconciling, all its requests were released,
-- it had no admission, and
-- each of its operations that failed or could not be resolved has an action that changes nothing or
-- evidence that it was not dispatched; afterwards none of its operations is failed, and it is queued
-- under the next version.
pub transition-IsResumed :
    (phase_of : String → Option String) (i : String) (version : ℕ) (step : Option ℕ)
    (error token : Option String) (now : ℕ) (db db' : Db) (w : WorkflowRow)
    → find_workflow i db ≡ some w
    → retries w ≡ true
    → transition phase_of i version WorkflowState.queued step error token now db ≡ ok db'
    → IsResumed phase_of i version db db'
unfolding transition
transition-IsResumed phase_of i version step error token now db db' w found again h =
    let state = WorkflowState.queued in
    let (w', db1, o) = transition_outcome phase_of i version state step error token now db db' h in
    let same : w' ≡ w = some-injective w' w (sym o.found ∙ found) in
    let (settled, replayable, made) = requeue-queued phase_of i w' now db db1 o.requeued in
    let all_made : db1 ≡ requeue_all i now (failed_of i db) db = rw (same, again) at made in
    let f = put_state_of state step (bounded_error error) now in
    let hit : has_version i version w' ≡ true =
      ground (arith, find-true (has_workflow_id i) db.workflows w' o.found, o.current) in
    let row =
      find-update_hit (has_workflow_id i) w' (has_version i version) f (λ r. refl) db.workflows hit
        o.found in
    let kept = requeue-workflows phase_of i w' state now db db1 o.requeued in
    subst (IsResumed phase_of i version db) (sym o.made) (record {
      settled = settled;
      replayable =
          All-map (λ r. (r.workflow_id == i && is_failed r.state) ≡ true → MayReplay phase_of r) _
            (λ r k here at. k (ground (arith, (eq_iff r.workflow_id i).1 here, at))) db.operations
            replayable;
      requeued =
          All-map (λ r. fails_in i r ≡ false)
            (λ r. r.workflow_id ≡ i → r.state ≢ OperationState.failed)
            (λ r k here at. ground (arith, (eq_iff r.workflow_id i).1 here, at)) db1.operations
            (subst (λ d. All (λ r. fails_in i r ≡ false) d.operations) (sym all_made)
              (requeue_all-settles i now (failed_of i db) db (failed_of-IsListed i db.operations)));
      queued = (
        f w',
        subst
            (λ rows.
              find (has_workflow_id i) (update_where (has_version i version) f rows) ≡ some (f w'))
            (sym kept) row,
        refl,
        ap (λ n. n + 1) o.current,
      );
    })
