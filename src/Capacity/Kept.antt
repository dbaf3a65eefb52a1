-- ===== src/Capacity/Kept.antt =====
-- What the operations on resource requests do to the table of permits.
use mathlib.Core.Path.{subst}
use computerpilot_mcp.Prelude.{
  ap, ◌∙◌, ℕ, ◌-◌, ◌+◌, String, Bool, true, List, Option, none, some, ◌≡◌, ◌⊎◌, inl, inr, refl, sym,
  arith, string_eq, option_eq, list_eq, ltb, length, Bool-cases, Option-cases,
}
use computerpilot_mcp.Prelude.Table.{update_where, evict}
use computerpilot_mcp.Prelude.Result.{ok, >>=-eq-ok}
use computerpilot_mcp.Claims.{ResourceClaim, claim_eq, canonical_claims}
use computerpilot_mcp.Store.{Db, WorkflowRow, ResourceRequest, is_released, find_request}
use computerpilot_mcp.Requests.{
  Reserve, Reservation, validate_reserve, stripped, forget_parent, make_request_room,
  insert_request, obtain_request, continue_request, settle_request, admit_or_wait,
  reserve_transaction, reserve_resource_claims,
}
use computerpilot_mcp.Requests.Release.{
  bind_resource_request_attempt, owned_request, release_resource_request,
  quarantine_resource_request,
}
use computerpilot_mcp.Aggregate.Resolve.{resolve_workflow, resolve_quarantined_resource_request}
use computerpilot_mcp.Requests.Outcomes.{resolve_outcome}

-- A table of permits that is as it was, or lost links to removed requests.
abbrev pub KeepsPermits : Db → Db → Type 0
KeepsPermits db db' =
    (db'.capacity ≡ db.capacity)
    ⊎ ((kept : List ResourceRequest) × (db'.capacity
          ≡ update_where (λ _. true) (forget_parent kept) db.capacity))

room_keeps :
    (limit : ℕ) (db roomy : Db) → make_request_room limit db ≡ ok roomy → KeepsPermits db roomy
unfolding make_request_room
room_keeps limit db roomy h = elim (Bool-cases (ltb (length db.requests) limit)) [
  | inl e ↦ inl (ground arith)
  | inr e ↦
      inr (
        evict (λ r. is_released r.state) (length db.requests - limit + 1) db.requests,
        ground arith,
      )
]

insert_keeps :
    (fingerprint : String) (now : ℕ) (a : Reserve) (canonical : List ResourceClaim) (db db' : Db)
    (row : ResourceRequest)
    → insert_request fingerprint now a canonical db ≡ ok (row, db')
    → db'.capacity ≡ db.capacity
unfolding insert_request
insert_keeps fingerprint now a canonical db db' row h = ground arith

continue_keeps :
    (fingerprint : String) (now : ℕ) (a : Reserve) (canonical : List ResourceClaim)
    (row : ResourceRequest) (db db' : Db) (res : Reservation)
    → continue_request fingerprint now a canonical row db ≡ ok (res, db')
    → db'.capacity ≡ db.capacity
unfolding continue_request settle_request admit_or_wait
continue_keeps fingerprint now a canonical row db db' res h = ground arith

obtain_keeps :
    (limit : ℕ) (fingerprint : String) (now : ℕ) (a : Reserve) (canonical : List ResourceClaim)
    (db db' : Db) (row : ResourceRequest)
    → obtain_request limit fingerprint now a canonical db ≡ ok (row, db')
    → KeepsPermits db db'
unfolding obtain_request
obtain_keeps limit fingerprint now a canonical db db' row h =
    elim (Option-cases (find_request a.request_id db)) [
      | inr (old, e) ↦ inl (ground arith)
      | inl e ↦
          let (roomy, made, q) =
            >>=-eq-ok (make_request_room limit db) (insert_request fingerprint now a canonical)
              (rw (e, obtain_request) at h) in
          subst
            (λ c.
              (c ≡ db.capacity)
              ⊎ ((kept : List ResourceRequest) × (c
                    ≡ update_where (λ _. true) (forget_parent kept) db.capacity)))
            (sym (insert_keeps fingerprint now a canonical roomy db' row q))
            (room_keeps limit db roomy made)
    ]

pub reserve_keeps :
    (limit : ℕ) (fingerprint : String) (now : ℕ) (a : Reserve) (db db' : Db) (res : Reservation)
    → reserve_resource_claims limit fingerprint now a db ≡ ok (res, db')
    → KeepsPermits db db'
unfolding reserve_resource_claims reserve_transaction
reserve_keeps limit fingerprint now arguments db db' res h =
    let a = stripped arguments in
    let canonical = canonical_claims a.claims in
    let (_, _, h1) =
      >>=-eq-ok (validate_reserve a canonical)
        (λ _. reserve_transaction limit fingerprint now a canonical db) h in
    let (got, obtained, h2) =
      >>=-eq-ok (obtain_request limit fingerprint now a canonical db)
        (λ x. continue_request fingerprint now a canonical x.0 x.1) h1 in
    subst
      (λ c.
        (c ≡ db.capacity)
        ⊎ ((kept : List ResourceRequest) × (c
              ≡ update_where (λ _. true) (forget_parent kept) db.capacity)))
      (sym (continue_keeps fingerprint now a canonical got.0 got.1 db' res h2))
      (obtain_keeps limit fingerprint now a canonical db got.1 got.0 obtained)

pub bind_keeps :
    (i owner attempt : String) (now : ℕ) (db db' : Db)
    → bind_resource_request_attempt i owner attempt now db ≡ ok db'
    → db'.capacity ≡ db.capacity
unfolding bind_resource_request_attempt owned_request
bind_keeps i owner attempt now db db' h = ground arith

pub release_keeps :
    (i owner : String) (now : ℕ) (db db' : Db) (done : Bool)
    → release_resource_request i owner now db ≡ ok (done, db')
    → db'.capacity ≡ db.capacity
unfolding release_resource_request
release_keeps i owner now db db' done h = ground arith

pub quarantine_keeps :
    (i owner reason : String) (now : ℕ) (db db' : Db)
    → quarantine_resource_request i owner reason now db ≡ ok db'
    → db'.capacity ≡ db.capacity
unfolding quarantine_resource_request owned_request
quarantine_keeps i owner reason now db db' h = ground arith

resolve_workflow_keeps :
    (w : Option WorkflowRow) (now : ℕ) (db : Db)
    → (resolve_workflow w now db).capacity ≡ db.capacity
unfolding resolve_workflow
resolve_workflow_keeps none now db = refl
resolve_workflow_keeps (some w) now db = ground arith

pub resolve_keeps :
    (i owner evidence : String) (now : ℕ) (db db' : Db)
    → resolve_quarantined_resource_request i owner evidence now db ≡ ok db'
    → db'.capacity ≡ db.capacity
resolve_keeps i owner evidence now db db' h =
    let (w, e) = resolve_outcome i owner evidence now db db' h in
    ap (λ d. d.capacity) e ∙ resolve_workflow_keeps w now _
