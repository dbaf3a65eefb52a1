-- ===== src/Requests/Exclusion.antt =====
-- No sequence of operations on resource requests and permits makes two conflicting requests
-- active at a time.
use computerpilot_mcp.Prelude.{
  ℕ, String, Bool, true, false, [], ◌≡◌, refl, arith, AllPairs, AllPairs-map, ◌≢◌, eq_iff,
  string_eq, option_eq, ℕ_eq,
}
use computerpilot_mcp.Prelude.Result.{ok}
use computerpilot_mcp.Claims.{claim_sets_conflict}
use computerpilot_mcp.Store.{Db, ResourceRequest, quarantined, is_active}
use computerpilot_mcp.Requests.{Reserve, Reservation, reserve_resource_claims}
use computerpilot_mcp.Requests.Release.{
  bind_resource_request_attempt, release_resource_request, quarantine_resource_request,
}
use computerpilot_mcp.Requests.Separate.{Separate, IsSeparated, update_request-IsSeparated}
use computerpilot_mcp.Requests.Reserving.{reserve_resource_claims-IsSeparated}
use computerpilot_mcp.Aggregate.Resolve.{resolve_quarantined_resource_request}
use computerpilot_mcp.Capacity.{CapacityArgs, Permit, reserve_capacity}
use computerpilot_mcp.Capacity.Release.{
  quarantine_capacity, release_capacity, ProcessIdentity, release_process_capacity,
}
use computerpilot_mcp.Requests.Outcomes.{
  SameRequests-IsSeparated, bind-IsSeparated, put_state-IsHarmless, quarantine_capacity_outcome,
  quarantine_outcome, quarantine_parent-IsSeparated, release-IsSeparated, release_capacity_requests,
  release_process_requests, reserve_capacity_requests, resolve_outcome, resolve_row-IsHarmless,
  resolve_workflow_requests,
}

-- One operation of the store on requests or permits, that returned.
pub data Step (db db' : Db) : Type 0 where
  reserving :
      (limit : ℕ) (fingerprint : String) (now : ℕ) (a : Reserve) (res : Reservation)
      → reserve_resource_claims limit fingerprint now a db ≡ ok (res, db')
      → Step db db'
  binding :
      (i owner attempt : String) (now : ℕ)
      → bind_resource_request_attempt i owner attempt now db ≡ ok db'
      → Step db db'
  releasing :
      (i owner : String) (now : ℕ) (done : Bool)
      → release_resource_request i owner now db ≡ ok (done, db')
      → Step db db'
  quarantining :
      (i owner reason : String) (now : ℕ)
      → quarantine_resource_request i owner reason now db ≡ ok db'
      → Step db db'
  reserving_capacity :
      (records : ℕ) (fingerprint : String) (a : CapacityArgs) (now : ℕ) (p : Permit)
      → reserve_capacity records fingerprint a now db ≡ ok (p, db')
      → Step db db'
  quarantining_capacity :
      (i owner : String) (now : ℕ) → quarantine_capacity i owner now db ≡ ok db' → Step db db'
  releasing_capacity :
      (i owner : String) (now : ℕ) (done : Bool)
      → release_capacity i owner now db ≡ ok (done, db')
      → Step db db'
  resolving :
      (i owner evidence : String) (now : ℕ)
      → resolve_quarantined_resource_request i owner evidence now db ≡ ok db'
      → Step db db'
  releasing_process :
      (process : ProcessIdentity) (now : ℕ) (count : ℕ)
      → release_process_capacity process now db ≡ ok (count, db')
      → Step db db'

pub data Reach (start : Db) : Db → Type 0 where
  here : Reach start start
  next : {db db' : Db} → Reach start db → Step db db' → Reach start db'

pub Step-IsSeparated : {db db' : Db} → Step db db' → IsSeparated db → IsSeparated db'
Step-IsSeparated (reserving limit fingerprint now a res h) inv =
    reserve_resource_claims-IsSeparated limit fingerprint now a _ inv h
Step-IsSeparated (binding i owner attempt now h) inv =
    bind-IsSeparated i owner attempt now _ _ inv h
Step-IsSeparated (releasing i owner now done h) inv = release-IsSeparated i owner now _ _ done inv h
Step-IsSeparated (quarantining i owner reason now h) inv =
    rw (quarantine_outcome i owner reason now _ _ h)
      (update_request-IsSeparated _ (put_state-IsHarmless quarantined _ now refl) i _ inv)
Step-IsSeparated (resolving i owner evidence now h) inv =
    let (w, e) = resolve_outcome i owner evidence now _ _ h in
    rw e (
      SameRequests-IsSeparated _ _ (resolve_workflow_requests w now _)
        (update_request-IsSeparated _ (resolve_row-IsHarmless evidence now) i _ inv))
Step-IsSeparated (reserving_capacity records fingerprint a now p h) inv =
    SameRequests-IsSeparated _ _ (reserve_capacity_requests records fingerprint a now _ _ p h) inv
Step-IsSeparated (quarantining_capacity i owner now h) inv =
    let (parent, mid, same, e) = quarantine_capacity_outcome i owner now _ _ h in
    rw e (quarantine_parent-IsSeparated parent now mid (SameRequests-IsSeparated _ mid same inv))
Step-IsSeparated (releasing_capacity i owner now done h) inv =
    SameRequests-IsSeparated _ _ (release_capacity_requests i owner now _ _ done h) inv
Step-IsSeparated (releasing_process process now count h) inv =
    SameRequests-IsSeparated _ _ (release_process_requests process now _ _ count h) inv

pub Reach-IsSeparated : {db db' : Db} → Reach db db' → IsSeparated db → IsSeparated db'
Reach-IsSeparated here inv = inv
Reach-IsSeparated (next r s) inv = Step-IsSeparated s (Reach-IsSeparated r inv)

-- Two rows of the table, one after the other.
abbrev pub BothActive : ResourceRequest → ResourceRequest → Type 0
BothActive x y = (is_active x.state ≡ true) × (is_active y.state ≡ true)

-- In every database that the operations on requests and permits reach from one without requests,
-- no two active requests hold conflicting claims, and no two requests have one identifier.
pub reached_exclusive :
    (start db : Db)
    → start.requests ≡ []
    → Reach start db
    → AllPairs
        (λ x y.
          (x.request_id ≢ y.request_id)
          × (BothActive x y → claim_sets_conflict x.claims y.claims ≡ false))
        db.requests
reached_exclusive start db none_yet r =
    AllPairs-map Separate _
      (λ x y s. (
        λ e. ground (arith, s.distinct, eq_iff x.request_id y.request_id),
        λ b. s.exclusive b.0 b.1,
      ))
      db.requests
      (Reach-IsSeparated r (record { pairs = rw none_yet tt; below = rw none_yet tt })).pairs
