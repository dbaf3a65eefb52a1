-- ===== src/Capacity/Parts.antt =====
-- The parts of a `reserve_capacity` that returned.
use computerpilot_mcp.Prelude.{ℕ, String, true, ◌≡◌}
use computerpilot_mcp.Prelude.Result.{
  ok, ◌>>=◌, ◌>>◌, >>=-eq-ok, require, require-eq-ok, ok-injective,
}
use computerpilot_mcp.Store.{Db, CapacityRequest}
use computerpilot_mcp.Capacity.{
  CapacityArgs, Permit, validate_capacity, parent_carries, obtain_capacity, same_inputs,
  settle_capacity, capacity_transaction, reserve_capacity,
}

pub record ReserveParts (records : ℕ) (a : CapacityArgs) (now : ℕ) (db db' : Db) (p : Permit)
    : Type 0 where
  pub row : CapacityRequest
  pub stored : Db
  pub valid : validate_capacity a ≡ ok tt
  pub obtained : obtain_capacity records a now db ≡ ok (row, stored)
  pub same : same_inputs a row ≡ true
  pub settled : settle_capacity a now row.state row stored ≡ (p, db')

pub reserve_capacity-eq-ok :
    (records : ℕ) (fingerprint : String) (a : CapacityArgs) (now : ℕ) (db db' : Db) (p : Permit)
    → reserve_capacity records fingerprint a now db ≡ ok (p, db')
    → ReserveParts records a now db db' p
unfolding reserve_capacity
reserve_capacity-eq-ok records fingerprint a now db db' p h =
    let (_, valid, h1) =
      >>=-eq-ok (validate_capacity a) (λ _. capacity_transaction records fingerprint a now db) h in
    let next = λ (q : CapacityRequest × Db).
      require (same_inputs a q.0) "capacity_request_conflict"
      >> ok (settle_capacity a now q.0.state q.0 q.1) in
    let (_, h2) =
      require-eq-ok (parent_carries a fingerprint now db) "resource_capability_invalid"
        (obtain_capacity records a now db >>= next) h1 in
    let (got, obtained, h3) = >>=-eq-ok (obtain_capacity records a now db) next h2 in
    let (same, h4) =
      require-eq-ok (same_inputs a got.0) "capacity_request_conflict"
        (ok (settle_capacity a now got.0.state got.0 got.1)) h3 in
    record {
      row = got.0;
      stored = got.1;
      valid = valid;
      obtained = obtained;
      same = same;
      settled = ok-injective h4;
    }
