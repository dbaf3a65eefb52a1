-- ===== src/Tests/Permitting.antt =====
-- Two permits of one category, and the bound on permits at that run.
use native.Mathlib.Nat.{le_refl}
use computerpilot_mcp.Prelude.{
  ℕ, ◌≤◌, String, true, false, none, some, ◌≡◌, refl, AllPairs, string_eq,
}
use computerpilot_mcp.Prelude.Result.{Result, ok, err}
use computerpilot_mcp.Store.{Db, empty_db, pending, active}
use computerpilot_mcp.Capacity.{CapacityArgs, permit, reserve_capacity}
use computerpilot_mcp.Capacity.Weights.{active_weight, Distinct}
use computerpilot_mcp.Capacity.Reached.{LimitedReach, permits_within_limit}
use computerpilot_mcp.Requests.Exclusion.{reserving_capacity}

abbrev db_of {ℓ} : {A : Type ℓ} → Result (A × Db) → Db
db_of (ok (_, db)) = db
db_of (err e) = empty_db

abbrev ask : String → ℕ → CapacityArgs
ask i weight = record {
  admission_id = i;
  category = "command";
  owner_token = "one";
  weight = weight;
  limit = 3;
  resource_request_id = none;
  resource_owner_token = none;
  native_owner_alive = none;
}

db_first : Db
unfolding reserve_capacity
db_first = db_of (reserve_capacity 10 "policy" (ask "a" 2) 1 empty_db)

first_run :
    reserve_capacity 10 "policy" (ask "a" 2) 1 empty_db ≡ ok (permit true "a" active none, db_first)
unfolding reserve_capacity db_first
first_run = refl

db_second : Db
unfolding reserve_capacity db_first
db_second = db_of (reserve_capacity 10 "policy" (ask "b" 2) 2 db_first)

second_run :
    reserve_capacity 10 "policy" (ask "b" 2) 2 db_first
    ≡ ok (permit false "b" pending (some "capacity_exhausted"), db_second)
unfolding reserve_capacity db_first db_second
second_run = refl

permits_within_limit_example :
    (active_weight "command" db_second.capacity ≤ 3) × AllPairs Distinct db_second.capacity
permits_within_limit_example = permits_within_limit "command" 3 empty_db db_second refl (
    LimitedReach.next
      (LimitedReach.next LimitedReach.here
        (reserving_capacity 10 "policy" (ask "a" 2) 1 _ first_run) (λ _. le_refl 3))
      (reserving_capacity 10 "policy" (ask "b" 2) 2 _ second_run) (λ _. le_refl 3))
