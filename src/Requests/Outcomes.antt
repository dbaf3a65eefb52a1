-- ===== src/Requests/Outcomes.antt =====
-- What the operations on requests and permits that return do to the table of requests.
use mathlib.Core.Path.{subst}
use computerpilot_mcp.Prelude.{
  ℕ, String, Bool, false, ◌&&◌, Option, none, some, ◌≡◌, ◌⊎◌, refl, arith, ap, ◌∙◌, Option-cases,
  inl, inr, string_eq, option_eq, ℕ_eq,
}
use computerpilot_mcp.Prelude.Text.{text_take}
use computerpilot_mcp.Prelude.Result.{ok, >>=-eq-ok}
use computerpilot_mcp.Store.{
  Db, WorkflowRow, CapacityRequest, AdmissionState, quarantined, released, is_active, find_capacity,
  find_request, is_child,
}
use computerpilot_mcp.Requests.{update_request}
use computerpilot_mcp.Requests.Release.{
  bind_attempt, bind_resource_request_attempt, put_state, release_resource_request,
  quarantine_resource_request,
}
use computerpilot_mcp.Requests.Separate.{
  IsSeparated, IsHarmless, update_request-IsSeparated, update_requests-IsSeparated,
}
use computerpilot_mcp.Aggregate.Resolve.{
  resolve_row, resolve_workflow, workflow_of, resolve_quarantined_resource_request,
}
use computerpilot_mcp.Capacity.Parts.{reserve_capacity-eq-ok}
use computerpilot_mcp.Capacity.{
  CapacityArgs, Permit, reserve_capacity, make_capacity_room, obtain_capacity, append_capacity,
  settle_capacity, update_capacity,
}
use computerpilot_mcp.Capacity.Release.{
  quarantine_capacity, release_capacity, ProcessIdentity, release_process_capacity,
  quarantine_parent, put_capacity, parent_of,
}

pub bind_attempt-IsHarmless : (attempt : String) (now : ℕ) → IsHarmless (bind_attempt attempt now)
bind_attempt-IsHarmless attempt now = record {
  same_id = λ r. refl;
  same_ticket = λ r. refl;
  same_claims = λ r. refl;
  not_activated = λ r h. h;
}

pub put_state-IsHarmless :
    (state : AdmissionState) (reason : Option String) (now : ℕ)
    → is_active state ≡ false
    → IsHarmless (put_state state reason now)
put_state-IsHarmless state reason now idle = record {
  same_id = λ r. refl;
  same_ticket = λ r. refl;
  same_claims = λ r. refl;
  not_activated = λ r h. cc;
}

pub resolve_row-IsHarmless : (evidence : String) (now : ℕ) → IsHarmless (resolve_row evidence now)
resolve_row-IsHarmless evidence now = record {
  same_id = λ r. refl;
  same_ticket = λ r. refl;
  same_claims = λ r. refl;
  not_activated = λ r h. cc;
}

pub bind-IsSeparated :
    (i owner attempt : String) (now : ℕ) (db db' : Db)
    → IsSeparated db
    → bind_resource_request_attempt i owner attempt now db ≡ ok db'
    → IsSeparated db'
unfolding bind_resource_request_attempt
bind-IsSeparated i owner attempt now db db' inv h =
    let e : db' ≡ update_request i (bind_attempt attempt now) db = ground arith in
    rw e (
      update_request-IsSeparated (bind_attempt attempt now) (bind_attempt-IsHarmless attempt now) i
        db inv)

pub release_outcomes :
    (i owner : String) (now : ℕ) (db db' : Db) (done : Bool)
    → release_resource_request i owner now db ≡ ok (done, db')
    → (db' ≡ db)
      ⊎ ((db'
            ≡ update_request i
                (put_state quarantined (some "child_capacity_cleanup_unresolved") now)
                db)
          ⊎ (db' ≡ update_request i (put_state released none now) db))
unfolding release_resource_request
release_outcomes i owner now db db' done h = ground arith

pub release-IsSeparated :
    (i owner : String) (now : ℕ) (db db' : Db) (done : Bool)
    → IsSeparated db
    → release_resource_request i owner now db ≡ ok (done, db')
    → IsSeparated db'
release-IsSeparated i owner now db db' done inv h =
    elim (release_outcomes i owner now db db' done h) [
      | inl e ↦ rw e inv
      | inr (inl e) ↦
          rw e (update_request-IsSeparated _ (put_state-IsHarmless quarantined _ now refl) i db inv)
      | inr (inr e) ↦
          rw e (update_request-IsSeparated _ (put_state-IsHarmless released none now refl) i db inv)
    ]

pub quarantine_outcome :
    (i owner reason : String) (now : ℕ) (db db' : Db)
    → quarantine_resource_request i owner reason now db ≡ ok db'
    → db' ≡ update_request i (put_state quarantined (some (text_take 2000 reason)) now) db
unfolding quarantine_resource_request
quarantine_outcome i owner reason now db db' h = ground arith

-- The operations on permits leave the requests alone, but for the quarantine of a parent.
abbrev pub SameRequests : Db → Db → Type 0
SameRequests db db' = (db'.requests ≡ db.requests) × (db'.next_request ≡ db.next_request)

pub SameRequests-IsSeparated :
    (db db' : Db) → SameRequests db db' → IsSeparated db → IsSeparated db'
SameRequests-IsSeparated db db' e inv = record {
  pairs = rw (e.0) inv.pairs;
  below = rw (e.0, e.1) inv.below;
}

pub room_requests :
    (records : ℕ) (db roomy : Db) → make_capacity_room records db ≡ ok roomy → SameRequests db roomy
unfolding make_capacity_room
room_requests records db roomy h = ground arith

pub obtain_requests :
    (records : ℕ) (a : CapacityArgs) (now : ℕ) (db db' : Db) (row : CapacityRequest)
    → obtain_capacity records a now db ≡ ok (row, db')
    → SameRequests db db'
unfolding obtain_capacity
obtain_requests records a now db db' row h = elim (Option-cases (find_capacity a.admission_id db)) [
  | inl e ↦
      let (roomy, room, rest) =
        >>=-eq-ok (make_capacity_room records db) (λ d. ok (append_capacity a now d))
          (rw (e, obtain_capacity) at h) in
      ground (arith, room_requests records db roomy room)
  | inr (c, e) ↦ ground arith
]

pub settle_requests :
    (a : CapacityArgs) (now : ℕ) (state : AdmissionState) (row : CapacityRequest) (db : Db)
    → SameRequests db (settle_capacity a now state row db).1
unfolding settle_capacity
settle_requests a now state row db = ground arith

pub reserve_capacity_requests :
    (records : ℕ) (fingerprint : String) (a : CapacityArgs) (now : ℕ) (db db' : Db) (p : Permit)
    → reserve_capacity records fingerprint a now db ≡ ok (p, db')
    → SameRequests db db'
reserve_capacity_requests records fingerprint a now db db' p h =
    let parts = reserve_capacity-eq-ok records fingerprint a now db db' p h in
    let first = obtain_requests records a now db parts.stored parts.row parts.obtained in
    let second = settle_requests a now parts.row.state parts.row parts.stored in
    let e = ap (λ (q : Permit × Db). q.1) parts.settled in
    subst (SameRequests db) e (second.0 ∙ first.0, second.1 ∙ first.1)

pub quarantine_parent-IsSeparated :
    (parent : Option String) (now : ℕ) (db : Db)
    → IsSeparated db
    → IsSeparated (quarantine_parent parent now db)
quarantine_parent-IsSeparated parent now db inv =
    update_requests-IsSeparated
      (put_state quarantined (some "child_capacity_cleanup_unresolved") now)
      (put_state-IsHarmless quarantined _ now refl)
      (λ r. is_child r.request_id parent && is_active r.state) db inv

pub quarantine_capacity_outcome :
    (i owner : String) (now : ℕ) (db db' : Db)
    → quarantine_capacity i owner now db ≡ ok db'
    → (parent : Option String) × (mid : Db) × SameRequests db mid
      × (db' ≡ quarantine_parent parent now mid)
unfolding quarantine_capacity
quarantine_capacity_outcome i owner now db db' h = (
  parent_of (find_capacity i db),
  update_capacity i (put_capacity quarantined (some "process_cleanup_unresolved") now) db,
  (refl, refl),
  ground arith,
)

pub release_capacity_requests :
    (i owner : String) (now : ℕ) (db db' : Db) (done : Bool)
    → release_capacity i owner now db ≡ ok (done, db')
    → SameRequests db db'
unfolding release_capacity
release_capacity_requests i owner now db db' done h = ground arith

pub release_process_requests :
    (process : ProcessIdentity) (now : ℕ) (db db' : Db) (count : ℕ)
    → release_process_capacity process now db ≡ ok (count, db')
    → SameRequests db db'
unfolding release_process_capacity
release_process_requests process now db db' count h = ground arith

pub resolve_workflow_requests :
    (w : Option WorkflowRow) (now : ℕ) (db : Db) → SameRequests db (resolve_workflow w now db)
unfolding resolve_workflow
resolve_workflow_requests none now db = (refl, refl)
resolve_workflow_requests (some w) now db = ground arith

pub resolve_outcome :
    (i owner evidence : String) (now : ℕ) (db db' : Db)
    → resolve_quarantined_resource_request i owner evidence now db ≡ ok db'
    → (w : Option WorkflowRow) × (db'
        ≡ resolve_workflow w now (update_request i (resolve_row evidence now) db))
unfolding resolve_quarantined_resource_request
resolve_outcome i owner evidence now db db' h = elim (Option-cases (find_request i db)) [
  | inl e ↦ absurd (ground arith)
  | inr (row, e) ↦ (workflow_of row.workflow_id db, ground arith)
]
