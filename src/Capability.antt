-- ===== src/Capability.antt =====
-- core/workflow_store.py, _RESOURCE_CAPABILITY_SQL: whether a resource request still carries the
-- authority that its owner was given. A request of a workflow needs in addition the admission of
-- its attempt, under the current lease of a workflow that is running and not being cancelled.
pub mod Nested
use computerpilot_mcp.Prelude.{
  ℕ, String, Bool, true, false, not, ◌&&◌, ◌||◌, Option, none, some, ◌==◌, string_eq, option_eq,
  ltb, any, all, List,
}
use computerpilot_mcp.Prelude.Table.{find}
use computerpilot_mcp.Prelude.Result.{Result, ok, err, raise, require, or_raise, ◌>>=◌, ◌>>◌}
use computerpilot_mcp.Claims.{ResourceClaim, claim_covers}
use computerpilot_mcp.Lifecycle.{WorkflowState, workflow_state_eq}
use computerpilot_mcp.Store.{
  Db, ResourceRequest, AdmissionRow, OperationRow, WorkflowLease, WorkflowRow, DispatchPhase,
  reserved, prepared, may_dispatch, settled, is_active, has_request_id, is_child,
}

abbrev is_null {ℓ} : {A : Type ℓ} → Option A → Bool
is_null none = true
is_null (some a) = false

-- o.dispatch_phase IN ('reserved','prepared','may_dispatch')
abbrev pub in_dispatch : Option DispatchPhase → Bool
in_dispatch none = false
in_dispatch (some reserved) = true
in_dispatch (some prepared) = true
in_dispatch (some may_dispatch) = true
in_dispatch (some settled) = false

abbrev lease_carries : ℕ → AdmissionRow → WorkflowLease → Bool
lease_carries now a l =
    l.workflow_id == a.workflow_id && l.lease_token == a.lease_token && ltb now l.expires_at

abbrev workflow_carries : AdmissionRow → WorkflowRow → Bool
workflow_carries a w =
    w.workflow_id == a.workflow_id
    && w.state == WorkflowState.running
    && is_null w.cancel_requested_at

abbrev operation_carries : AdmissionRow → OperationRow → Bool
operation_carries a o =
    o.operation_id == a.operation_id
    && is_child a.attempt_token o.attempt_token
    && is_child a.execution_id o.execution_id
    && in_dispatch o.dispatch_phase

-- The row of workflow_execution_admissions, with the three rows that it is joined to.
unfoldable pub admission_carries : ℕ → Db → ResourceRequest → AdmissionRow → Bool
admission_carries now db r a =
    is_child a.operation_id r.operation_id
    && is_child a.workflow_id r.workflow_id
    && is_child a.attempt_token r.attempt_token
    && any (operation_carries a) db.operations
    && any (lease_carries now a) db.leases
    && any (workflow_carries a) db.workflows

unfoldable pub request_carries : String → String → String → ℕ → Db → ResourceRequest → Bool
unfolding admission_carries
request_carries i owner fingerprint now db r =
    has_request_id i r
    && r.owner_token == owner
    && is_active r.state
    && r.policy_fingerprint == fingerprint
    && (is_null r.workflow_id && is_null r.operation_id
        || any (admission_carries now db r) db.admissions)

-- Whether the query returns a row.
unfoldable pub has_capability : String → String → String → ℕ → Db → Bool
unfolding request_carries
has_capability i owner fingerprint now db =
    any (request_carries i owner fingerprint now db) db.requests

-- `... is False`, of an answer that may be None
abbrev pub known_false : Option Bool → Bool
known_false none = false
known_false (some alive) = not alive

-- The row, read under the capability of its owner (`resource_request` with an expected owner).
-- `native_owner_alive` is what psutil says of the owner.
unfoldable pub capability_request :
    Option Bool → String → String → String → ℕ → Db → Result ResourceRequest
capability_request native_owner_alive i owner fingerprint now db = do
  require (not (known_false native_owner_alive)) "resource_capability_invalid"
  or_raise (find (request_carries i owner fingerprint now db) db.requests)
      "resource_capability_invalid"

-- validate_resource_capability, of the identifier and the owner that the token names.
unfoldable pub validate_resource_capability :
    Option Bool → String → String → String → ℕ → List ResourceClaim → Db → Result (Unit {0})
unfolding capability_request request_carries claim_covers
validate_resource_capability native_owner_alive i owner fingerprint now requested db = do
  parent ← capability_request native_owner_alive i owner fingerprint now db
  require (is_active parent.state && parent.owner_token == owner) "resource_capability_invalid"
  require (all (λ child. any (λ claim. claim_covers claim child) parent.claims) requested)
      "resource_capability_scope_violation"
