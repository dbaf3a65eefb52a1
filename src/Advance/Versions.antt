-- ===== src/Advance/Versions.antt =====
-- The version of a workflow, by which a caller tells that the row is the one it has read.
use computerpilot_mcp.Prelude.{
  ℕ, ◌+◌, ◌<◌, String, Bool, true, Option, some, ◌≡◌, ◌⊎◌, refl, arith, inl, inr, Option-cases,
  Bool-cases, ap, sym, any, if◌then◌else◌, ◌==◌, ℕ_eq, string_eq, List,
}
use computerpilot_mcp.Prelude.Table.{find, find-true, update_where}
use computerpilot_mcp.Prelude.Find.{find-update_where, find-update_hit}
use computerpilot_mcp.Prelude.Result.{ok, raise, >>=-eq-ok, require-eq-ok, ok-injective}
use computerpilot_mcp.Lifecycle.{WorkflowState, StepState, workflow_state_eq}
use computerpilot_mcp.Store.{Db, WorkflowRow, find_workflow}
use computerpilot_mcp.Aggregate.{
  recompute_workflow_aggregate, put_aggregate, has_workflow_id, AggregateState, aggregate_state,
  or_reason, is_unchanged,
}
use computerpilot_mcp.Cancel.{
  put_cancel, request_cancel, cancel_row, has_version, bounded_reason, is_over, cancel_target,
}
use computerpilot_mcp.Cancel.Wins.{same_workflows}
use computerpilot_mcp.Resume.{transition, put_state_of}
use computerpilot_mcp.Resume.Outcomes.{transition_outcome, requeue-workflows}
use computerpilot_mcp.Dispatch.Attempt.{is_step}
use computerpilot_mcp.Settle.Steps.{AttemptStep}
use computerpilot_mcp.Advance.{
  bounded_error, checkpoint_step, require_step_token, advance_running, put_step, is_running_at,
  store_step,
}

-- One operation of the store that reads the row of a workflow, whichever workflow it is about.
pub data VersionStep (db db' : Db) : Type 0 where
  advancing :
      (i : String) (version step : ℕ) (token : Option String) (now : ℕ)
      → advance_running i version step token now db ≡ ok db'
      → VersionStep db db'
  cancelling :
      (i : String) (version : ℕ) (reason : Option String) (now : ℕ)
      → request_cancel i version reason now db ≡ ok db'
      → VersionStep db db'
  recomputing :
      (i token : String) (reason : Option String) (keep_running : Bool) (now : ℕ)
      → recompute_workflow_aggregate i token reason keep_running now db ≡ ok db'
      → VersionStep db db'
  transiting :
      (phase_of : String → Option String) (i : String) (version : ℕ) (state : WorkflowState)
      (step : Option ℕ) (error token : Option String) (now : ℕ)
      → transition phase_of i version state step error token now db ≡ ok db'
      → VersionStep db db'
  checkpointing :
      (i : String) (step : ℕ) (state : StepState) (evidence error : Option String)
      (increment_attempt : Bool) (token : Option String) (now : ℕ)
      → checkpoint_step i step state evidence error increment_attempt token now db ≡ ok db'
      → VersionStep db db'
  attempting : AttemptStep db db' → VersionStep db db'

pub data VersionRun (start : Db) : Db → Type 0 where
  here : VersionRun start start
  next : {db db' : Db} → VersionRun start db → VersionStep db db' → VersionRun start db'

-- The workflow is stored with a version above the given one.
abbrev pub IsPast : String → ℕ → List WorkflowRow → Type 0
IsPast i version rows =
    (w : WorkflowRow) × (find (has_workflow_id i) rows ≡ some w) × (version < w.version)

module _ (i : String) (version : ℕ) where
  -- An UPDATE that counts the version of the rows it meets.
  IsPast-update :
      (q : WorkflowRow → Bool) (f : WorkflowRow → WorkflowRow)
      → ((r : WorkflowRow) → has_workflow_id i (f r) ≡ has_workflow_id i r)
      → ((r : WorkflowRow) → (f r).version ≡ r.version + 1)
      → (rows : List WorkflowRow) → IsPast i version rows
      → IsPast i version (update_where q f rows)
  IsPast-update q f keeps counts rows (w, at, past) = (
    if q w then f w else w,
    find-update_where (has_workflow_id i) w q f keeps rows at,
    elim (Bool-cases (q w)) [ inl e ↦ rw e (ground (arith, counts w)) | inr e ↦ rw e past ],
  )

advance_outcome :
    (i : String) (version step : ℕ) (token : Option String) (now : ℕ) (db db' : Db)
    → advance_running i version step token now db ≡ ok db'
    → (db' ≡ store_step i version step now db)
      × ((w : WorkflowRow) × (find_workflow i db ≡ some w)
          × (w.version ≡ version)
          × ((w.state == WorkflowState.running) ≡ true))
unfolding advance_running
advance_outcome i version step token now db db' h = elim (Option-cases (find_workflow i db)) [
  | inl none_found ↦ ground (arith, none_found)
  | inr (w, found) ↦
      (ground (arith, found), (w, found, ground (arith, found), ground (arith, found)))
]

cancel_outcome :
    (i : String) (version : ℕ) (reason : Option String) (now : ℕ) (db db' : Db)
    → request_cancel i version reason now db ≡ ok db'
    → (db'.workflows ≡ db.workflows)
      ⊎ ((target : WorkflowState) × (db'.workflows
            ≡ update_where
                (has_version i version)
                (put_cancel (bounded_reason reason) now target)
                db.workflows))
unfolding request_cancel cancel_row
cancel_outcome i version reason now db db' h = elim (Option-cases (find_workflow i db)) [
  | inl none_found ↦ ground (arith, none_found)
  | inr (w, found) ↦ elim (Bool-cases (is_over w.state)) [
    | inl over ↦ inl (ground (arith, found, over))
    | inr over ↦ inr (cancel_target w.state, ground (arith, found, over))
  ]
]

checkpoint_step-workflows :
    (i : String) (step : ℕ) (state : StepState) (evidence error : Option String) (increment : Bool)
    (token : Option String) (now : ℕ) (db db' : Db)
    → checkpoint_step i step state evidence error increment token now db ≡ ok db'
    → db'.workflows ≡ db.workflows
unfolding checkpoint_step
checkpoint_step-workflows i step state evidence error increment token now db db' h =
    let (_, _, h1) = >>=-eq-ok (require_step_token i token now db) _ h in
    let (_, h2) = require-eq-ok (any (is_step i step) db.steps) "workflow_step_not_found" _ h1 in
    ap (λ d. d.workflows) (sym (ok-injective h2))

recompute_outcome :
    (i token : String) (reason : Option String) (keep_running : Bool) (now : ℕ) (db db' : Db)
    → recompute_workflow_aggregate i token reason keep_running now db ≡ ok db'
    → (db'.workflows ≡ db.workflows)
      ⊎ ((s : AggregateState) × (error : Option String) × (db'.workflows
            ≡ update_where (has_workflow_id i) (put_aggregate s error now) db.workflows))
unfolding recompute_workflow_aggregate
recompute_outcome i token reason keep_running now db db' h =
    elim (Option-cases (find_workflow i db)) [
      | inl none_found ↦ ground (arith, none_found)
      | inr (w, found) ↦
          let s = aggregate_state keep_running w db in
          let error = or_reason s.error reason in
          elim (Bool-cases (is_unchanged s error w)) [
            | inl same ↦ inl (ground (arith, found, same))
            | inr same ↦ inr (s, error, ground (arith, found, same))
          ]
    ]

module _ (i : String) (version : ℕ) where
  IsPast-step :
      {db db' : Db}
      → VersionStep db db'
      → IsPast i version db.workflows
      → IsPast i version db'.workflows
  IsPast-step (advancing j v step token now h) past =
      let (e, _) = advance_outcome j v step token now _ _ h in
      rw e (
        IsPast-update i version (is_running_at j v) (put_step step now) (λ r. refl) (λ r. refl) _
          past)
  IsPast-step (cancelling j v reason now h) past = elim (cancel_outcome j v reason now _ _ h) [
    | inl e ↦ rw e past
    | inr (target, e) ↦ rw e (
        IsPast-update i version (has_version j v) (put_cancel (bounded_reason reason) now target)
          (λ r. refl) (λ r. refl) _ past)
  ]
  IsPast-step (recomputing j token reason keep_running now h) past =
      elim (recompute_outcome j token reason keep_running now _ _ h) [
        | inl e ↦ rw e past
        | inr (s, error, e) ↦ rw e (
            IsPast-update i version (has_workflow_id j) (put_aggregate s error now) (λ r. refl)
              (λ r. refl) _ past)
      ]
  IsPast-step (transiting phase_of j v state step error token now h) past =
      let (w, db1, o) = transition_outcome phase_of j v state step error token now _ _ h in
      let f = put_state_of state step (bounded_error error) now in
      rw (o.made, requeue-workflows phase_of j w state now _ db1 o.requeued)
        (IsPast-update i version (has_version j v) f (λ r. refl) (λ r. refl) _ past)
  IsPast-step (checkpointing j step state evidence error increment token now h) past =
      rw (checkpoint_step-workflows j step state evidence error increment token now _ _ h) past
  IsPast-step (attempting s) past = rw (same_workflows _ _ s) past

  IsPast-run :
      {db db' : Db}
      → VersionRun db db'
      → IsPast i version db.workflows
      → IsPast i version db'.workflows
  IsPast-run here past = past
  IsPast-run (next r s) past = IsPast-step s (IsPast-run r past)

  IsPast-advance :
      (step : ℕ) (token : Option String) (now : ℕ) (db db' : Db)
      → advance_running i version step token now db ≡ ok db'
      → IsPast i version db'.workflows
  IsPast-advance step token now db db' h =
      let (e, (w, found, same, running)) = advance_outcome i version step token now db db' h in
      let here_it_is = find-true (has_workflow_id i) db.workflows w found in
      (
        put_step step now w,
        rw e (
            find-update_hit (has_workflow_id i) w (is_running_at i version) (put_step step now)
              (λ r. refl) db.workflows (ground (arith, here_it_is, same, running)) found),
        ground (arith, same),
      )

  refused :
      (db : Db)
      → IsPast i version db.workflows
      → (step : ℕ) (token reason : Option String) (now : ℕ)
      → (advance_running i version step token now db ≡ raise "workflow_version_conflict")
        × (request_cancel i version reason now db ≡ raise "workflow_version_conflict")
  unfolding advance_running request_cancel
  refused db (w, found, past) step token reason now =
      (ground (arith, found, past), ground (arith, found, past))

  refused_transition :
      (db : Db)
      → IsPast i version db.workflows
      → (phase_of : String → Option String) (state : WorkflowState) (step : Option ℕ)
        (error token : Option String) (now : ℕ)
      → transition phase_of i version state step error token now db
        ≡ raise "workflow_version_conflict"
  unfolding transition
  refused_transition db (w, found, past) phase_of state step error token now =
      ground (arith, found, past)

-- When a running workflow has been advanced under a version, another call to advance it, to cancel it
-- or to put it in another state under the same version raises workflow_version_conflict, whatever
-- progress, checkpoints, requests to cancel, transitions, recomputations and operations on attempts, of this and
-- other workflows, happen in between.
pub advanced_once :
    (i : String) (version step : ℕ) (token : Option String) (now : ℕ) (db db1 db2 : Db)
    → advance_running i version step token now db ≡ ok db1
    → VersionRun db1 db2
    → (phase_of : String → Option String) (state : WorkflowState) (step' : ℕ) (current : Option ℕ)
      (token' reason error : Option String) (later : ℕ)
    → (advance_running i version step' token' later db2 ≡ raise "workflow_version_conflict")
      × (request_cancel i version reason later db2 ≡ raise "workflow_version_conflict")
      × (transition phase_of i version state current error token' later db2
          ≡ raise "workflow_version_conflict")
advanced_once i version step token now db db1 db2 h run phase_of state step' current token' reason
      error later =
    let past = IsPast-run i version run (IsPast-advance i version step token now db db1 h) in
    let (advance, cancel) = refused i version db2 past step' token' reason later in
    (
      advance,
      cancel,
      refused_transition i version db2 past phase_of state current error token' later,
    )
