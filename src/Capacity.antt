-- ===== src/Capacity.antt =====
-- core/workflow_store.py: permits for runtime capacity. Each category has a limit on the weight
-- of its active permits; a request waits behind the older ones of its category.
pub mod Release
pub mod Parts
pub mod Kept
pub mod Weights
pub mod Bounds
pub mod Reached
use computerpilot_mcp.Prelude.{
  ℕ, ◌+◌, ◌-◌, String, Bool, true, false, not, ◌&&◌, ◌||◌, List, [], ◌∷◌, ◌++◌, Option, none, some,
  ◌==◌, ℕ_eq, string_eq, option_eq, any, length, ltb, leb, sum_of, if◌then◌else◌,
}
use computerpilot_mcp.Prelude.Table.{find, update_where, evict}
use computerpilot_mcp.Prelude.Text.{text_length}
use computerpilot_mcp.Prelude.Result.{Result, ok, err, raise, require, value_error, ◌>>=◌, ◌>>◌}
use computerpilot_mcp.Store.{
  Db, CapacityRequest, ResourceRequest, AdmissionState, pending, active, quarantined, released,
  is_pending, is_active, is_quarantined, is_released, has_admission_id, has_request_id,
  find_capacity, is_child,
}
use computerpilot_mcp.Capability.{has_capability}

-- What the caller of `reserve_capacity` passes, and what `native_resource_owner_alive` (psutil)
-- says of the parent's owner.
pub record CapacityArgs : Type 0 where
  pub admission_id : String
  pub category : String
  pub owner_token : String
  pub weight : ℕ
  pub limit : ℕ
  pub resource_request_id : Option String
  pub resource_owner_token : Option String
  pub native_owner_alive : Option Bool

-- The dict that it returns.
pub record Permit : Type 0 where
  pub admitted : Bool
  pub admission_id : String
  pub state : AdmissionState
  pub reason : Option String

abbrev in_bounds : ℕ → String → Bool
in_bounds limit s = leb 1 (text_length s) && leb (text_length s) limit

-- `resource_owner_token is not None and native_resource_owner_alive(...) is False`
abbrev known_dead : CapacityArgs → Bool
known_dead a = elim a.resource_owner_token [
  | none ↦ false
  | some owner ↦ elim a.native_owner_alive [ some false ↦ true | _ ↦ false ]
]

unfoldable pub validate_capacity : CapacityArgs → Result (Unit {0})
validate_capacity a = do
  require (leb 1 a.weight && leb 1 a.limit && leb a.weight a.limit) "invalid_capacity_request"
  require (in_bounds 200 a.admission_id && in_bounds 200 a.owner_token && in_bounds 80 a.category)
      "invalid_capacity_request"
  require (not (known_dead a)) "resource_capability_invalid"

-- The parent's capability, where a parent is named. NULL equals no owner token.
unfoldable pub parent_carries : CapacityArgs → String → ℕ → Db → Bool
unfolding has_capability
parent_carries a fingerprint now db = elim a.resource_request_id [
  | none ↦ true
  | some i ↦ elim a.resource_owner_token [
    | none ↦ false
    | some owner ↦ has_capability i owner fingerprint now db
  ]
]

-- _make_admission_room, on runtime_capacity_requests
unfoldable pub make_capacity_room : ℕ → Db → Result Db
make_capacity_room limit db =
    let count = length db.capacity in
    let needed = count - limit + 1 in
    let kept = evict (λ c. is_released c.state) needed db.capacity in
    if ltb count limit
    then ok db
    else if ltb (count - length kept) needed
    then raise "runtime_admission_storage_exhausted"
    else ok (record db { capacity = kept })

abbrev pub new_capacity : CapacityArgs → ℕ → ℕ → CapacityRequest
new_capacity a now ticket = record {
  ticket = ticket;
  admission_id = a.admission_id;
  category = a.category;
  owner_token = a.owner_token;
  weight = a.weight;
  limit_snapshot = a.limit;
  state = pending;
  reason = none;
  created_at = now;
  updated_at = now;
  resource_request_id = a.resource_request_id;
}

abbrev pub append_capacity : CapacityArgs → ℕ → Db → CapacityRequest × Db
append_capacity a now db =
    let row = new_capacity a now db.next_capacity in
    (row, record db { capacity = db.capacity ++ row ∷ []; next_capacity = db.next_capacity + 1 })

unfoldable pub obtain_capacity : ℕ → CapacityArgs → ℕ → Db → Result (CapacityRequest × Db)
unfolding make_capacity_room
obtain_capacity records a now db = elim (find_capacity a.admission_id db) [
  | some row ↦ ok (row, db)
  | none ↦ make_capacity_room records db >>= λ roomy. ok (append_capacity a now roomy)
]

-- SELECT 1 ... WHERE category = ? AND state = 'pending' AND ticket < ?
unfoldable pub older_pending : String → ℕ → Db → Bool
older_pending category ticket db =
    any (λ c. c.category == category && is_pending c.state && ltb c.ticket ticket) db.capacity

-- SUM(weight) ... WHERE category = ? AND state IN ('active', 'quarantined')
unfoldable pub held_weight : String → List CapacityRequest → ℕ
held_weight category [] = 0
held_weight category (c ∷ cs) =
    (if c.category == category && (is_active c.state || is_quarantined c.state)
      then c.weight
      else 0)
    + held_weight category cs

abbrev pub update_capacity : String → (CapacityRequest → CapacityRequest) → Db → Db
update_capacity i f db = record db { capacity = update_where (has_admission_id i) f db.capacity }

abbrev pub grant : ℕ → ℕ → CapacityRequest → CapacityRequest
grant limit now c = record c {
  state = active;
  reason = none;
  limit_snapshot = limit;
  updated_at = now;
}

abbrev pub keep_waiting : String → ℕ → ℕ → CapacityRequest → CapacityRequest
keep_waiting reason limit now c = record c {
  reason = some reason;
  limit_snapshot = limit;
  updated_at = now;
}

abbrev pub permit : Bool → String → AdmissionState → Option String → Permit
permit admitted i state reason = record {
  admitted = admitted;
  admission_id = i;
  state = state;
  reason = reason;
}

-- The last part, for a request that is pending.
unfoldable pub grant_or_wait : CapacityArgs → ℕ → CapacityRequest → Db → Permit × Db
unfolding older_pending held_weight
grant_or_wait a now row db =
    let older = older_pending a.category row.ticket db in
    let reason = if older then "older_capacity_request" else "capacity_exhausted" in
    if older || ltb a.limit (held_weight a.category db.capacity + a.weight)
    then (
      permit false a.admission_id pending (some reason),
      update_capacity a.admission_id (keep_waiting reason a.limit now) db,
    )
    else (
      permit true a.admission_id active none,
      update_capacity a.admission_id (grant a.limit now) db,
    )

unfoldable pub settle_capacity :
    CapacityArgs → ℕ → AdmissionState → CapacityRequest → Db → Permit × Db
unfolding grant_or_wait
settle_capacity a now active row db = (permit true a.admission_id active none, db)
settle_capacity a now quarantined row db =
    (permit false a.admission_id quarantined (some "capacity_quarantined"), db)
settle_capacity a now released row db =
    (permit false a.admission_id released (some "capacity_request_terminal"), db)
settle_capacity a now pending row db = grant_or_wait a now row db

abbrev pub same_inputs : CapacityArgs → CapacityRequest → Bool
same_inputs a row =
    row.owner_token == a.owner_token
    && row.category == a.category
    && row.weight == a.weight
    && row.resource_request_id == a.resource_request_id

-- The transaction. `records` is SETTINGS.max_runtime_admission_records.
unfoldable pub capacity_transaction : ℕ → String → CapacityArgs → ℕ → Db → Result (Permit × Db)
unfolding parent_carries obtain_capacity settle_capacity
capacity_transaction records fingerprint a now db = do
  require (parent_carries a fingerprint now db) "resource_capability_invalid"
  (row, stored) ← obtain_capacity records a now db
  require (same_inputs a row) "capacity_request_conflict"
  ok (settle_capacity a now row.state row stored)

unfoldable pub reserve_capacity : ℕ → String → CapacityArgs → ℕ → Db → Result (Permit × Db)
unfolding validate_capacity capacity_transaction
reserve_capacity records fingerprint a now db =
    validate_capacity a >> capacity_transaction records fingerprint a now db
