-- ===== src/Requests/Release.antt =====
-- core/workflow_store.py: a resource request after its admission. It is bound to an attempt,
-- released, or quarantined. Each operation names the request and the token of its owner.
use computerpilot_mcp.Prelude.{
  ℕ, String, Bool, true, false, not, ◌||◌, Option, none, some, ◌==◌, string_eq, option_eq,
  if◌then◌else◌,
}
use computerpilot_mcp.Prelude.Text.{text_take}
use computerpilot_mcp.Prelude.Result.{Result, ok, require, or_raise, ◌>>=◌, ◌>>◌}
use computerpilot_mcp.Store.{
  Db, ResourceRequest, AdmissionState, quarantined, released, is_pending, is_active, is_released,
  find_request, has_unreleased_child,
}
use computerpilot_mcp.Requests.{update_request}

-- The row, for the caller that owns it.
unfoldable pub owned_request : String → String → Db → Result ResourceRequest
owned_request i owner db = do
  row ← or_raise (find_request i db) "resource_request_not_found"
  require (row.owner_token == owner) "resource_owner_mismatch"
  ok row

abbrev pub bind_attempt : String → ℕ → ResourceRequest → ResourceRequest
bind_attempt attempt now r = record r { attempt_token = some attempt; updated_at = now }

unfoldable pub bind_resource_request_attempt : String → String → String → ℕ → Db → Result Db
unfolding owned_request
bind_resource_request_attempt i owner attempt now db = do
  row ← owned_request i owner db
  require (is_active row.state) "resource_request_not_active"
  require (row.attempt_token == none || row.attempt_token == some attempt)
      "resource_attempt_conflict"
  ok (update_request i (bind_attempt attempt now) db)

abbrev pub put_state : AdmissionState → Option String → ℕ → ResourceRequest → ResourceRequest
put_state state reason now r = record r { state = state; reason = reason; updated_at = now }

-- The update of a release that the checks have passed.
unfoldable pub release_or_quarantine : String → ℕ → Db → Bool × Db
release_or_quarantine i now db =
    if has_unreleased_child i db
    then (
      false,
      update_request i (put_state quarantined (some "child_capacity_cleanup_unresolved") now) db,
    )
    else (true, update_request i (put_state released none now) db)

unfoldable pub release_resource_request : String → String → ℕ → Db → Result (Bool × Db)
unfolding release_or_quarantine
release_resource_request i owner now db = elim (find_request i db) [
  | none ↦ ok (false, db)
  | some row ↦
      require (row.owner_token == owner) "resource_owner_mismatch"
      >> (if not (is_active row.state || is_pending row.state)
          then ok (false, db)
          else ok (release_or_quarantine i now db))
]

unfoldable pub quarantine_resource_request : String → String → String → ℕ → Db → Result Db
unfolding owned_request text_take
quarantine_resource_request i owner reason now db = do
  row ← owned_request i owner db
  require (not (is_released row.state)) "resource_request_terminal"
  ok (update_request i (put_state quarantined (some (text_take 2000 reason)) now) db)
