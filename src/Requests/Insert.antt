-- ===== src/Requests/Insert.antt =====
-- The row that a new resource request adds, and the room made for it, keep the invariant.
use mathlib.Core.Bool.{false≢true}
use mathlib.Core.Path.{subst}
use computerpilot_mcp.Prelude.{
  ℕ, ◌+◌, ◌-◌, ◌<◌, String, false, List, [], ◌∷◌, ◌++◌, ◌≡◌, arith, string_eq, All, AllPairs,
  All-map, All-append, AllPairs-append_one, ltb, Bool-cases, inl, inr, refl, length, list_eq,
}
use computerpilot_mcp.Prelude.Table.{evict, All-evict, AllPairs-evict, All-zip}
use computerpilot_mcp.Prelude.Result.{ok, ok-injective, err-ne-ok}
use computerpilot_mcp.Claims.{ResourceClaim, claim_eq}
use computerpilot_mcp.Store.{Db, ResourceRequest, is_released, has_request_id}
use computerpilot_mcp.Requests.{Reserve, new_request, make_request_room, insert_request, set_reason}
use computerpilot_mcp.Requests.Separate.{Separate, IsSeparated, IsHarmless}

pub set_reason-IsHarmless : (reason : String) (now : ℕ) → IsHarmless (set_reason reason now)
set_reason-IsHarmless reason now = record {
  same_id = λ r. refl;
  same_ticket = λ r. refl;
  same_claims = λ r. refl;
  not_activated = λ r h. h;
}

evict-IsSeparated :
    (n : ℕ) (db : Db)
    → IsSeparated db
    → AllPairs Separate (evict (λ r. is_released r.state) n db.requests)
      × All (λ r. r.ticket < db.next_request) (evict (λ r. is_released r.state) n db.requests)
evict-IsSeparated n db inv = (
  AllPairs-evict Separate (λ r. is_released r.state) n db.requests inv.pairs,
  All-evict (λ r. r.ticket < db.next_request) (λ r. is_released r.state) n db.requests inv.below,
)

pub make_request_room-IsSeparated :
    (limit : ℕ) (db db' : Db)
    → make_request_room limit db ≡ ok db'
    → IsSeparated db
    → IsSeparated db'
unfolding make_request_room
make_request_room-IsSeparated limit db db' h inv =
    let count = length db.requests in
    let needed = count - limit + 1 in
    let kept = evict (λ r. is_released r.state) needed db.requests in
    elim (Bool-cases (ltb count limit)) [
      | inl e ↦ subst IsSeparated (ok-injective (rw e at h)) inv
      | inr e ↦ elim (Bool-cases (ltb (count - length kept) needed)) [
        | inl e' ↦ absurd (err-ne-ok (rw (e, e') at h))
        | inr e' ↦ subst IsSeparated (ok-injective (rw (e, e') at h)) (record {
          pairs = (evict-IsSeparated needed db inv).0;
          below = (evict-IsSeparated needed db inv).1;
        })
      ]
    ]

abbrev pub FreshFor : String → ResourceRequest → Type 0
FreshFor i r = has_request_id i r ≡ false

Separate-new :
    (fingerprint : String) (now ticket : ℕ) (a : Reserve) (canonical : List ResourceClaim)
    (x : ResourceRequest)
    → has_request_id a.request_id x ≡ false
    → x.ticket < ticket
    → Separate x (new_request fingerprint now ticket a canonical)
Separate-new fingerprint now ticket a canonical x h b = record {
  distinct = h;
  ordered = ground arith;
  exclusive = λ u v. absurd (false≢true v);
}

-- What the insertion adds: a pending row with the identifier and the next ticket.
pub inserted :
    (fingerprint : String) (now : ℕ) (a : Reserve) (canonical : List ResourceClaim) (db db' : Db)
    (row : ResourceRequest)
    → insert_request fingerprint now a canonical db ≡ ok (row, db')
    → (row ≡ new_request fingerprint now db.next_request a canonical)
      × (db'.requests ≡ db.requests ++ row ∷ [])
      × (db'.next_request ≡ db.next_request + 1)
unfolding insert_request
inserted fingerprint now a canonical db db' row h = ground arith

pub insert_request-IsSeparated :
    (fingerprint : String) (now : ℕ) (a : Reserve) (canonical : List ResourceClaim) (db db' : Db)
    (row : ResourceRequest)
    → insert_request fingerprint now a canonical db ≡ ok (row, db')
    → All (FreshFor a.request_id) db.requests
    → IsSeparated db
    → IsSeparated db'
insert_request-IsSeparated fingerprint now a canonical db db' row h fresh inv =
    let (same, requests, next) = inserted fingerprint now a canonical db db' row h in
    let new = new_request fingerprint now db.next_request a canonical in
    record {
      pairs =
          rw (requests, same)
            (AllPairs-append_one Separate db.requests new inv.pairs (
              All-map _ (λ x. Separate x new)
                (λ x u. Separate-new fingerprint now db.next_request a canonical x u.0 u.1)
                db.requests
                (All-zip (FreshFor a.request_id) (λ r. r.ticket < db.next_request) db.requests fresh
                  inv.below)));
      below =
          rw (requests, same, next)
            (All-append (λ r. r.ticket < db.next_request + 1) db.requests (new ∷ [])
              (All-map (λ r. r.ticket < db.next_request) (λ r. r.ticket < db.next_request + 1)
                (λ r b. omega arith) db.requests inv.below)
              (omega arith));
    }
