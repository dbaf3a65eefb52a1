-- ===== src/Capacity/Release.antt =====
-- core/workflow_store.py: the quarantine and the release of permits.
use computerpilot_mcp.Prelude.{
  ℕ, String, Bool, true, false, not, ◌&&◌, ◌||◌, Option, none, some, ◌==◌, ℕ_eq, string_eq,
  option_eq, sum_of, if◌then◌else◌,
}
use computerpilot_mcp.Prelude.Table.{update_where}
use computerpilot_mcp.Prelude.Result.{Result, ok, err, require, value_error, ◌>>◌}
use computerpilot_mcp.Store.{
  Db, CapacityRequest, AdmissionState, quarantined, released, is_pending, is_active, is_released,
  find_capacity, is_child,
}
use computerpilot_mcp.Capacity.{update_capacity}

abbrev pub put_capacity : AdmissionState → Option String → ℕ → CapacityRequest → CapacityRequest
put_capacity state reason now c = record c { state = state; reason = reason; updated_at = now }

-- UPDATE workflow_resource_requests SET state='quarantined' ... WHERE request_id=? AND state='active'
abbrev pub quarantine_parent : Option String → ℕ → Db → Db
quarantine_parent parent now db = record db {
  requests =
      update_where (λ r. is_child r.request_id parent && is_active r.state)
        (λ r. record r {
          state = quarantined;
          reason = some "child_capacity_cleanup_unresolved";
          updated_at = now;
        })
        db.requests;
}

abbrev pub may_quarantine : String → Option CapacityRequest → Bool
may_quarantine owner none = false
may_quarantine owner (some c) = c.owner_token == owner && not (is_released c.state)

abbrev pub parent_of : Option CapacityRequest → Option String
parent_of none = none
parent_of (some c) = c.resource_request_id

unfoldable pub quarantine_capacity : String → String → ℕ → Db → Result Db
quarantine_capacity i owner now db =
    require (may_quarantine owner (find_capacity i db)) "capacity_owner_mismatch"
    >> ok (
        quarantine_parent (parent_of (find_capacity i db)) now
          (update_capacity i (put_capacity quarantined (some "process_cleanup_unresolved") now) db))

unfoldable pub release_capacity : String → String → ℕ → Db → Result (Bool × Db)
release_capacity i owner now db = elim (find_capacity i db) [
  | none ↦ ok (false, db)
  | some row ↦
      require (row.owner_token == owner) "capacity_owner_mismatch"
      >> (if not (is_active row.state || is_pending row.state)
          then ok (false, db)
          else ok (true, update_capacity i (put_capacity released none now) db))
]

-- What `release_process_capacity` is told of a process: whether its number and its creation time
-- are positive, and the test `owner_token LIKE 'pid-<pid>-<created>-%'`.
pub record ProcessIdentity : Type 0 where
  pub is_positive : Bool
  pub owns : String → Bool

abbrev pub settles : ProcessIdentity → CapacityRequest → Bool
settles process c = process.owns c.owner_token && not (is_released c.state)

-- The rows released and their number.
unfoldable pub release_process_capacity : ProcessIdentity → ℕ → Db → Result (ℕ × Db)
release_process_capacity process now db =
    if not process.is_positive
    then err (value_error "A positive process identity is required.")
    else ok (
      sum_of (λ c. if settles process c then 1 else 0) db.capacity,
      record db {
        capacity =
            update_where (settles process)
              (put_capacity released (some "owned_process_cleanup_complete") now) db.capacity;
      },
    )
