-- ===== src/Tests/Sharing.antt =====
-- Two callers of the store that ask for one tree, and the theorems on requests at that run.
use computerpilot_mcp.Prelude.{
  String, true, false, List, [], ◌∷◌, none, some, ◌≡◌, ◌≢◌, ◌↔◌, refl, All, AllPairs, string_eq,
}
use computerpilot_mcp.Prelude.Text.{strip}
use computerpilot_mcp.Prelude.Result.{Result, ok, err}
use computerpilot_mcp.Claims.{
  ResourceClaim, ClaimMode, write, ClaimScope, exact, subtree, claim_sets_conflict,
  canonical_claims,
}
use computerpilot_mcp.Store.{
  Db, empty_db, ResourceRequest, is_active, pending, active, has_unreleased_child,
}
use computerpilot_mcp.Requests.{
  admit_or_wait, conflict_reason, other_requests, blocked_by, Reserve, reserve_resource_claims,
  validate_reserve, answer, update_request, activate,
}
use computerpilot_mcp.Requests.Separate.{IsSeparated}
use computerpilot_mcp.Requests.Reserving.{reserve_resource_claims-IsSeparated}
use computerpilot_mcp.Requests.Exclusion.{
  Reach, here, next, reserving, BothActive, reached_exclusive, Reach-IsSeparated,
}
use computerpilot_mcp.Requests.Release.{release_resource_request}
use computerpilot_mcp.Requests.Fairness.{AllPass, waiting_request-admitted}
use computerpilot_mcp.Capability.{validate_resource_capability}
use computerpilot_mcp.Capability.Nested.{nested_exclusive}

abbrev file_claim : ClaimMode → ClaimScope → String → ResourceClaim
file_claim mode scope key = record { kind = "fs"; key = key; mode = mode; scope = scope }

abbrev tree : ResourceClaim
tree = file_claim write subtree "/work/src"

abbrev ask : String → String → Reserve
ask i owner = record {
  request_id = i;
  owner_token = owner;
  claims = tree ∷ [];
  category = "tool";
  workflow_id = none;
  operation_id = none;
  attempt_token = none;
}

abbrev db_of {ℓ} : {A : Type ℓ} → Result (A × Db) → Db
db_of (ok (_, db)) = db
db_of (err e) = empty_db

db_first : Db
unfolding reserve_resource_claims
db_first = db_of (reserve_resource_claims 10 "policy" 1 (ask " r1" "one") empty_db)

first_run :
    reserve_resource_claims 10 "policy" 1 (ask " r1" "one") empty_db
    ≡ ok (answer true "r1" active none, db_first)
unfolding reserve_resource_claims db_first admit_or_wait conflict_reason other_requests
first_run = refl

db_second : Db
unfolding reserve_resource_claims db_first
db_second = db_of (reserve_resource_claims 10 "policy" 2 (ask "r2" "two") db_first)

second_run :
    reserve_resource_claims 10 "policy" 2 (ask "r2" "two") db_first
    ≡ ok (answer false "r2" pending (some "resource_conflict"), db_second)
unfolding reserve_resource_claims db_first db_second admit_or_wait conflict_reason other_requests
    blocked_by claim_sets_conflict
second_run = refl

the_run : Reach empty_db db_second
the_run =
    next (next here (reserving 10 "policy" 1 (ask " r1" "one") _ first_run))
      (reserving 10 "policy" 2 (ask "r2" "two") _ second_run)

reached_exclusive_example :
    AllPairs
      (λ x y.
        (x.request_id ≢ y.request_id)
        × (BothActive x y → claim_sets_conflict x.claims y.claims ≡ false))
      db_second.requests
reached_exclusive_example = reached_exclusive empty_db db_second refl the_run

first-IsSeparated : IsSeparated db_first
first-IsSeparated =
    Reach-IsSeparated (next here (reserving 10 "policy" 1 (ask " r1" "one") _ first_run))
      (record { pairs = tt; below = tt })

reserve_resource_claims-IsSeparated_example : IsSeparated db_second
reserve_resource_claims-IsSeparated_example =
    reserve_resource_claims-IsSeparated 10 "policy" 2 (ask "r2" "two") db_first first-IsSeparated
      second_run

-- The owner of the first request uses its capability for a file below its tree.
abbrev nested : List ResourceClaim
nested = file_claim write exact "/work/src/main.py" ∷ []

capability_passes :
    validate_resource_capability (some true) "r1" "one" "policy" 3 nested db_second ≡ ok tt
unfolding validate_resource_capability db_second admit_or_wait conflict_reason other_requests
    blocked_by claim_sets_conflict
capability_passes = refl

nested_exclusive_example :
    All
      (λ y.
        y.request_id ≢ "r1"
        → is_active y.state ≡ true
        → claim_sets_conflict y.claims nested ≡ false)
      db_second.requests
nested_exclusive_example =
    nested_exclusive (some true) "r1" "one" "policy" 3 nested db_second capability_passes
      reserve_resource_claims-IsSeparated_example

-- The first releases, and the second is polled.
db_released : Db
unfolding release_resource_request db_second
db_released = db_of (release_resource_request "r1" "one" 3 db_second)

waiting_row : ResourceRequest
waiting_row = record {
  ticket = 2;
  request_id = "r2";
  workflow_id = none;
  operation_id = none;
  attempt_token = none;
  owner_token = "two";
  category = "tool";
  state = pending;
  reason = some "resource_conflict";
  created_at = 2;
  updated_at = 2;
  resolved_evidence = none;
  policy_fingerprint = "policy";
  claims = tree ∷ [];
}

waiting_request-admitted_example :
    (reserve_resource_claims 10 "policy" 4 (ask "r2" "two") db_released
      ≡ ok (answer true "r2" active none, update_request "r2" (activate 4) db_released))
    ↔ AllPass "policy" 2 (canonical_claims (tree ∷ [])) "r2" db_released
unfolding waiting_row validate_reserve strip canonical_claims db_released admit_or_wait
    conflict_reason other_requests blocked_by claim_sets_conflict has_unreleased_child
waiting_request-admitted_example =
    waiting_request-admitted 10 "policy" 4 (ask "r2" "two") db_released waiting_row refl refl refl
      refl refl refl
