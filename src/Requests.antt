-- ===== src/Requests.antt =====
-- core/workflow_store.py: resource requests. A request is persisted with a ticket, waits while an
-- older or active request holds a conflicting claim, and is then activated, all its claims at
-- once; it ends released, or quarantined until an operator resolves it.
pub mod Release
pub mod Scan
pub mod Separate
pub mod Insert
pub mod Outcomes
pub mod Exclusion
pub mod Reserving
pub mod Fairness
use computerpilot_mcp.Prelude.{
  ℕ, zero, suc, ◌+◌, ◌-◌, String, Bool, true, false, not, ◌&&◌, ◌||◌, List, [], ◌∷◌, ◌++◌, Option,
  none, some, ◌==◌, ℕ_eq, string_eq, option_eq, list_eq, any, keep_if, length, ltb, leb, sum_of,
  if◌then◌else◌,
}
use computerpilot_mcp.Prelude.Table.{find, update_where, evict}
use computerpilot_mcp.Prelude.Text.{text_length, strip, encoded_length, text_take}
use computerpilot_mcp.Prelude.Result.{Result, ok, err, raise, require, integrity_error, ◌>>=◌, ◌>>◌}
use computerpilot_mcp.Claims.{ResourceClaim, claim_eq, canonical_claims, claim_sets_conflict}
use computerpilot_mcp.Store.{
  Db, ResourceRequest, CapacityRequest, AdmissionState, pending, active, quarantined, released,
  is_pending, is_active, is_quarantined, is_released, has_request_id, find_request, find_workflow,
  find_operation, has_unreleased_child, is_child,
}

-- What the caller of `reserve_resource_claims` passes.
pub record Reserve : Type 0 where
  pub request_id : String
  pub owner_token : String
  pub claims : List ResourceClaim
  pub category : String
  pub workflow_id : Option String
  pub operation_id : Option String
  pub attempt_token : Option String

-- The dict that it returns.
pub record Reservation : Type 0 where
  pub admitted : Bool
  pub request_id : String
  pub state : AdmissionState
  pub reason : Option String

abbrev fits : ℕ → String → Bool
fits limit s = ltb 0 (text_length s) && leb (text_length s) limit

-- The checks on the arguments, before the transaction.
unfoldable pub validate_reserve : Reserve → List ResourceClaim → Result (Unit {0})
unfolding encoded_length
validate_reserve a canonical = do
  require (fits 200 a.request_id) "invalid_resource_request"
  require (fits 200 a.owner_token) "invalid_resource_owner"
  require (fits 80 a.category) "invalid_resource_category"
  require (ltb 0 (length canonical)) "empty_resource_claims"
  require (leb (length canonical) 256) "too_many_resource_claims"
  require (leb (sum_of (λ c. encoded_length c.key + encoded_length c.kind) canonical) 65536)
      "resource_claims_too_large"

-- ON DELETE SET NULL of runtime_capacity_requests.resource_request_id
abbrev pub forget_parent : List ResourceRequest → CapacityRequest → CapacityRequest
forget_parent kept c =
    if any (λ r. is_child r.request_id c.resource_request_id) kept
    then c
    else record c { resource_request_id = none }

-- _make_admission_room, on workflow_resource_requests
unfoldable pub make_request_room : ℕ → Db → Result Db
make_request_room limit db =
    let count = length db.requests in
    let needed = count - limit + 1 in
    let kept = evict (λ r. is_released r.state) needed db.requests in
    if ltb count limit
    then ok db
    else if ltb (count - length kept) needed
    then raise "runtime_admission_storage_exhausted"
    else ok (record db {
      requests = kept;
      capacity = update_where (λ _. true) (forget_parent kept) db.capacity;
    })

-- A foreign key that is NULL or names a row.
abbrev workflow_exists : Option String → Db → Bool
workflow_exists none db = true
workflow_exists (some i) db = any (λ w. w.workflow_id == i) db.workflows

abbrev operation_exists : Option String → Db → Bool
operation_exists none db = true
operation_exists (some i) db = any (λ o. o.operation_id == i) db.operations

abbrev pub new_request : String → ℕ → ℕ → Reserve → List ResourceClaim → ResourceRequest
new_request fingerprint now ticket a canonical = record {
  ticket = ticket;
  request_id = a.request_id;
  workflow_id = a.workflow_id;
  operation_id = a.operation_id;
  attempt_token = a.attempt_token;
  owner_token = a.owner_token;
  category = a.category;
  state = pending;
  reason = none;
  created_at = now;
  updated_at = now;
  resolved_evidence = none;
  policy_fingerprint = fingerprint;
  claims = canonical;
}

-- The INSERT into both tables. The trigger resource_policy_insert refuses an empty fingerprint.
unfoldable pub insert_request :
    String → ℕ → Reserve → List ResourceClaim → Db → Result (ResourceRequest × Db)
insert_request fingerprint now a canonical db =
    let row = new_request fingerprint now db.next_request a canonical in
    if workflow_exists a.workflow_id db
      && operation_exists a.operation_id db
      && not (fingerprint == "")
    then ok
        (row, record db { requests = db.requests ++ row ∷ []; next_request = db.next_request + 1 })
    else err integrity_error

-- The row of the request, inserted if it is new.
unfoldable pub obtain_request :
    ℕ → String → ℕ → Reserve → List ResourceClaim → Db → Result (ResourceRequest × Db)
unfolding make_request_room insert_request
obtain_request limit fingerprint now a canonical db = elim (find_request a.request_id db) [
  | some row ↦ ok (row, db)
  | none ↦ make_request_room limit db >>= λ roomy. insert_request fingerprint now a canonical roomy
]

-- One turn of the loop over the other requests; `none` goes on to the next.
unfoldable pub blocked_by : String → ℕ → List ResourceClaim → ResourceRequest → Option String
blocked_by fingerprint ticket canonical other =
    if is_pending other.state && ltb ticket other.ticket
    then none
    else if (is_active other.state || is_pending other.state)
        && not (other.policy_fingerprint == fingerprint)
    then some "resource_policy_incompatible"
    else if not (claim_sets_conflict canonical other.claims)
    then none
    else if is_quarantined other.state
    then some "resource_quarantined"
    else if is_active other.state
    then some "resource_conflict"
    else some "older_conflicting_request"

unfoldable pub conflict_reason :
    String → ℕ → List ResourceClaim → List ResourceRequest → Option String
conflict_reason fingerprint ticket canonical [] = none
conflict_reason fingerprint ticket canonical (other ∷ others) =
    elim (blocked_by fingerprint ticket canonical other) [
      | some reason ↦ some reason
      | none ↦ conflict_reason fingerprint ticket canonical others
    ]

-- WHERE request_id <> ? AND state IN ('pending', 'active', 'quarantined')
unfoldable pub other_requests : String → Db → List ResourceRequest
other_requests i db =
    keep_if (λ r. not (has_request_id i r) && not (is_released r.state)) db.requests

-- The trigger resource_policy_activate: an active request under another policy. Its test of an
-- empty fingerprint is left out; the stored one is the text of a SHA-256 hash.
unfoldable pub policy_clash : String → String → Db → Bool
policy_clash i fingerprint db =
    any
      (λ r.
        is_active r.state && not (has_request_id i r) && not (r.policy_fingerprint == fingerprint))
      db.requests

abbrev pub set_reason : String → ℕ → ResourceRequest → ResourceRequest
set_reason reason now r = record r { reason = some reason; updated_at = now }

abbrev pub activate : ℕ → ResourceRequest → ResourceRequest
activate now r = record r { state = active; reason = none; updated_at = now }

abbrev pub update_request : String → (ResourceRequest → ResourceRequest) → Db → Db
update_request i f db = record db { requests = update_where (has_request_id i) f db.requests }

abbrev pub answer : Bool → String → AdmissionState → Option String → Reservation
answer admitted i state reason = record {
  admitted = admitted;
  request_id = i;
  state = state;
  reason = reason;
}

-- The last part, for a request that is pending.
unfoldable pub admit_or_wait :
    String → ℕ → ResourceRequest → List ResourceClaim → Db → Result (Reservation × Db)
unfolding policy_clash
admit_or_wait fingerprint now row canonical db =
    elim (conflict_reason fingerprint row.ticket canonical (other_requests row.request_id db)) [
      | some reason ↦ ok (
        answer false row.request_id pending (some reason),
        update_request row.request_id (set_reason reason now) db,
      )
      | none ↦
          if policy_clash row.request_id row.policy_fingerprint db
          then err integrity_error
          else ok (
            answer true row.request_id active none,
            update_request row.request_id (activate now) db,
          )
    ]

-- The answer by the state of the row.
unfoldable pub settle_request :
    String
    → ℕ
    → AdmissionState
    → ResourceRequest
    → List ResourceClaim
    → Db
    → Result (Reservation × Db)
settle_request fingerprint now active row canonical db =
    ok (answer true row.request_id active none, db)
settle_request fingerprint now quarantined row canonical db =
    ok (answer false row.request_id quarantined (some "resource_quarantined"), db)
settle_request fingerprint now released row canonical db =
    ok (answer false row.request_id released (some "resource_request_terminal"), db)
settle_request fingerprint now pending row canonical db =
    admit_or_wait fingerprint now row canonical db

-- The rest of the transaction, once the row is there.
abbrev pub owns_row : Reserve → ResourceRequest → Bool
owns_row a row = row.owner_token == a.owner_token && row.category == a.category

abbrev pub answer_for :
    String → ℕ → List ResourceClaim → ResourceRequest → Db → Result (Reservation × Db)
answer_for fingerprint now canonical row db =
    if not (row.policy_fingerprint == fingerprint)
    then ok (answer false row.request_id row.state (some "resource_policy_incompatible"), db)
    else settle_request fingerprint now row.state row canonical db

unfoldable pub continue_request :
    String → ℕ → Reserve → List ResourceClaim → ResourceRequest → Db → Result (Reservation × Db)
unfolding settle_request
continue_request fingerprint now a canonical row db = do
  require (owns_row a row) "resource_request_conflict"
  require (row.claims == canonical) "resource_request_conflict"
  answer_for fingerprint now canonical row db

-- request_id.strip(), owner_token.strip(), category.strip()
abbrev pub stripped : Reserve → Reserve
stripped a = record a {
  request_id = strip a.request_id;
  owner_token = strip a.owner_token;
  category = strip a.category;
}

-- The transaction.
unfoldable pub reserve_transaction :
    ℕ → String → ℕ → Reserve → List ResourceClaim → Db → Result (Reservation × Db)
reserve_transaction limit fingerprint now a canonical db = do
  (row, stored) ← obtain_request limit fingerprint now a canonical db
  continue_request fingerprint now a canonical row stored

-- `limit` is SETTINGS.max_runtime_admission_records, `fingerprint` that of the runtime policy.
unfoldable pub reserve_resource_claims : ℕ → String → ℕ → Reserve → Db → Result (Reservation × Db)
unfolding strip validate_reserve canonical_claims reserve_transaction obtain_request
    continue_request
reserve_resource_claims limit fingerprint now arguments db =
    let a = stripped arguments in
    let canonical = canonical_claims a.claims in
    validate_reserve a canonical >> reserve_transaction limit fingerprint now a canonical db
