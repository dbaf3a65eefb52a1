-- ===== src/Leases.antt =====
-- core/workflow_store.py: the lease of a workflow, which one execution holds at a time.
-- A clock is in microseconds; the stored times are in milliseconds, as `isoformat` cuts them, and
-- texts of one such format compare as the times do.
pub mod Held
pub mod Fenced
use computerpilot_mcp.Prelude.{
  ℕ, ◌+◌, ◌/◌, String, Bool, true, false, not, ◌&&◌, ◌||◌, List, [], ◌∷◌, ◌++◌, Option, none, some,
  ◌==◌, ℕ_eq, string_eq, any, ltb, leb, if◌then◌else◌,
}
use computerpilot_mcp.Prelude.Table.{find, update_where, delete_where}
use computerpilot_mcp.Prelude.Text.{text_length, strip}
use computerpilot_mcp.Prelude.Result.{Result, ok, err, raise, require, or_raise, ◌>>=◌, ◌>>◌}
use computerpilot_mcp.Store.{Db, WorkflowLease, WorkflowRow, find_workflow, find_lease}

abbrev pub millis : ℕ → ℕ
millis clock = clock / 1000

-- _lease_times, of a time to live in microseconds: the time now and the time of expiry.
unfoldable pub lease_times : ℕ → ℕ → Result (ℕ × ℕ)
lease_times clock ttl =
    require (leb 5000000 ttl && leb ttl 300000000) "invalid_lease_ttl"
    >> ok (millis clock, millis (clock + ttl))

abbrev pub has_lease : String → WorkflowLease → Bool
has_lease i l = l.workflow_id == i

abbrev pub new_lease : String → String → String → ℕ → ℕ → WorkflowLease
new_lease i owner token now expires = record {
  workflow_id = i;
  owner_id = owner;
  lease_token = token;
  acquired_at = now;
  heartbeat_at = now;
  expires_at = expires;
  version = 1;
}

abbrev pub take_over : String → String → ℕ → ℕ → WorkflowLease → WorkflowLease
take_over owner token now expires l = record l {
  owner_id = owner;
  lease_token = token;
  acquired_at = now;
  heartbeat_at = now;
  expires_at = expires;
  version = l.version + 1;
}

abbrev pub update_lease : String → (WorkflowLease → WorkflowLease) → Db → Db
update_lease i f db = record db { leases = update_where (has_lease i) f db.leases }

-- The row that a transaction reads back.
abbrev read_lease : String → Db → Result (WorkflowLease × Db)
read_lease i db = or_raise (find_lease i db) "workflow_lease_missing" >>= λ l. ok (l, db)

-- The branches of `acquire_lease` by the current row.
unfoldable pub acquire_over :
    String
    → String
    → String
    → Bool
    → ℕ
    → ℕ
    → Option WorkflowLease
    → Db
    → Result (WorkflowLease × Db)
acquire_over i owner token allow_reentry now expires none db =
    read_lease i (record db { leases = db.leases ++ new_lease i owner token now expires ∷ [] })
acquire_over i owner token allow_reentry now expires (some current) db =
    if ltb now current.expires_at
    then (if not (current.owner_id == owner) || not allow_reentry
        then raise "workflow_already_claimed"
        else ok (current, db))
    else read_lease i (update_lease i (take_over owner token now expires) db)

-- `token` is the uuid that the call makes.
unfoldable pub acquire_lease :
    ℕ → ℕ → String → Bool → String → String → Db → Result (WorkflowLease × Db)
unfolding strip lease_times acquire_over
acquire_lease clock ttl token allow_reentry i owner_id db =
    let owner = strip owner_id in
    do
      require (ltb 0 (text_length owner) && leb (text_length owner) 200) "invalid_lease_owner"
      (now, expires) ← lease_times clock ttl
      workflow ← or_raise (find_workflow i db) "workflow_not_found"
      acquire_over i owner token allow_reentry now expires (find_lease i db) db

abbrev pub heartbeat : ℕ → ℕ → WorkflowLease → WorkflowLease
heartbeat now expires l = record l {
  heartbeat_at = now;
  expires_at = expires;
  version = l.version + 1;
}

-- The checks that `renew_lease` and `require_lease` share.
unfoldable pub current_lease : ℕ → String → String → Db → Result WorkflowLease
current_lease now i token db = do
  current ← or_raise (find_lease i db) "workflow_lease_missing"
  require (current.lease_token == token) "workflow_lease_token_mismatch"
  require (ltb now current.expires_at) "workflow_lease_expired"
  ok current

-- WHERE workflow_id = ? AND lease_token = ?
abbrev pub has_lease_token : String → String → WorkflowLease → Bool
has_lease_token i token l = l.workflow_id == i && l.lease_token == token

unfoldable pub renew_lease : ℕ → ℕ → String → String → Db → Result (WorkflowLease × Db)
unfolding lease_times current_lease
renew_lease clock ttl i token db = do
  (now, expires) ← lease_times clock ttl
  current ← current_lease now i token db
  read_lease i (record db {
    leases = update_where (has_lease_token i token) (heartbeat now expires) db.leases;
  })

unfoldable pub require_lease : ℕ → String → String → Db → Result WorkflowLease
unfolding current_lease
require_lease now i token db = current_lease now i token db

abbrev pub delete_lease : String → String → Db → Db
delete_lease i token db = record db { leases = delete_where (has_lease_token i token) db.leases }

unfoldable pub release_lease : String → String → Db → Result Db
release_lease i token db = elim (find_lease i db) [
  | none ↦ ok db
  | some row ↦
      require (row.lease_token == token) "workflow_lease_token_mismatch"
      >> ok (delete_lease i token db)
]

-- The rows deleted are those of the workflow, of which there is one.
unfoldable pub release_lease_if_current : String → String → Db → Bool × Db
release_lease_if_current i token db = elim (find_lease i db) [
  | none ↦ (false, db)
  | some row ↦ if row.lease_token == token then (true, delete_lease i token db) else (false, db)
]
