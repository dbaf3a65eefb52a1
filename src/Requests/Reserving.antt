-- ===== src/Requests/Reserving.antt =====
-- `reserve_resource_claims` keeps the invariant of the table of requests.
use mathlib.Core.Path.{subst}
use computerpilot_mcp.Prelude.{
  ℕ, String, true, false, not, ◌&&◌, List, none, some, ◌≡◌, sym, arith, ◌==◌, ap, string_eq, All,
  All-map, eq_iff, Option-cases, Bool-cases, inl, inr, refl, list_eq, list_beq_iff, ltb, length,
  ◌-◌, ◌+◌,
}
use computerpilot_mcp.Prelude.Table.{find-true, find-eq-none, find-append_one, evict, All-evict}
use computerpilot_mcp.Prelude.Result.{
  ok, ◌>>◌, >>=-eq-ok, require, require-eq-ok, ok-injective, err-ne-ok,
}
use computerpilot_mcp.Claims.{ResourceClaim, claim_eq, claim_sets_conflict, canonical_claims}
use computerpilot_mcp.Store.{
  Db, ResourceRequest, AdmissionState, pending, active, quarantined, released, is_active,
  is_released, has_request_id, find_request,
}
use computerpilot_mcp.Requests.{
  Reserve, Reservation, make_request_room, insert_request, obtain_request, conflict_reason,
  other_requests, policy_clash, set_reason, activate, update_request, admit_or_wait, settle_request,
  continue_request, reserve_resource_claims, validate_reserve, reserve_transaction, stripped,
  owns_row, answer_for,
}
use computerpilot_mcp.Requests.Scan.{Passes, other_requests-Passes}
use computerpilot_mcp.Requests.Separate.{
  IsSeparated, update_request-IsSeparated, activate-IsSeparated,
}
use computerpilot_mcp.Requests.Insert.{
  set_reason-IsHarmless, make_request_room-IsSeparated, insert_request-IsSeparated, inserted,
  FreshFor,
}

clear_of_Passes :
    (fingerprint : String) (ticket : ℕ) (canonical : List ResourceClaim) (i : String)
    (r : ResourceRequest)
    → ((not (has_request_id i r) && not (is_released r.state)) ≡ true
        → Passes fingerprint ticket canonical r)
    → has_request_id i r ≡ false
    → is_active r.state ≡ true
    → claim_sets_conflict canonical r.claims ≡ false
clear_of_Passes fingerprint ticket canonical i r p h a = (p (ground arith)).fence (ground arith)

module _ (fingerprint : String) (now : ℕ) (row : ResourceRequest) (canonical : List ResourceClaim)
    (db : Db) (inv : IsSeparated db) (found : find_request row.request_id db ≡ some row)
    (owns : row.claims ≡ canonical) where
  admit-IsSeparated :
      conflict_reason fingerprint row.ticket canonical (other_requests row.request_id db) ≡ none
      → IsSeparated (update_request row.request_id (activate now) db)
  admit-IsSeparated quiet =
      activate-IsSeparated canonical now row.request_id row db inv found owns (
        All-map _ _ (clear_of_Passes fingerprint row.ticket canonical row.request_id) db.requests
          (other_requests-Passes fingerprint row.ticket canonical row.request_id db quiet))

  admit_or_wait-IsSeparated :
      (res : Reservation) (db' : Db)
      → admit_or_wait fingerprint now row canonical db ≡ ok (res, db')
      → IsSeparated db'
  unfolding admit_or_wait
  admit_or_wait-IsSeparated res db' h =
      elim (Option-cases
        (conflict_reason fingerprint row.ticket canonical (other_requests row.request_id db))) [
          | inl quiet ↦ elim (Bool-cases (policy_clash row.request_id row.policy_fingerprint db)) [
            | inl clash ↦ absurd (err-ne-ok (rw (quiet, admit_or_wait, clash) at h))
            | inr calm ↦
                subst IsSeparated
                  (ap (λ p. p.1) (ok-injective (rw (quiet, admit_or_wait, calm) at h)))
                  (admit-IsSeparated quiet)
          ]
          | inr (reason, busy) ↦
              subst IsSeparated (ap (λ p. p.1) (ok-injective (rw (busy, admit_or_wait) at h))) (
                update_request-IsSeparated (set_reason reason now)
                  (set_reason-IsHarmless reason now) row.request_id db inv)
        ]

  settle_request-IsSeparated :
      (state : AdmissionState) (res : Reservation) (db' : Db)
      → settle_request fingerprint now state row canonical db ≡ ok (res, db')
      → IsSeparated db'
  unfolding settle_request
  settle_request-IsSeparated pending res db' h = admit_or_wait-IsSeparated res db' h
  settle_request-IsSeparated active res db' h =
      subst IsSeparated (ap (λ p. p.1) (ok-injective h)) inv
  settle_request-IsSeparated quarantined res db' h =
      subst IsSeparated (ap (λ p. p.1) (ok-injective h)) inv
  settle_request-IsSeparated released res db' h =
      subst IsSeparated (ap (λ p. p.1) (ok-injective h)) inv

-- A row that was found has the identifier that was looked for.
found_id :
    (i : String) (db : Db) (row : ResourceRequest)
    → find_request i db ≡ some row
    → row.request_id ≡ i
found_id i db row h = (eq_iff row.request_id i).0 (find-true (has_request_id i) db.requests row h)

claims_iff : (xs ys : List ResourceClaim) → (xs == ys) ≡ true → xs ≡ ys
claims_iff xs ys h = (list_beq_iff xs ys).0 h

module _ (fingerprint : String) (now : ℕ) (a : Reserve) (canonical : List ResourceClaim)
    (row : ResourceRequest) (db : Db) (inv : IsSeparated db)
    (found : find_request row.request_id db ≡ some row) where
  continue_request-IsSeparated :
      (res : Reservation) (db' : Db)
      → continue_request fingerprint now a canonical row db ≡ ok (res, db')
      → IsSeparated db'
  unfolding continue_request
  continue_request-IsSeparated res db' h =
      let rest = answer_for fingerprint now canonical row db in
      let (_, h') =
        require-eq-ok (owns_row a row) "resource_request_conflict"
          (require (row.claims == canonical) "resource_request_conflict" >> rest) h in
      let (owns, h'') =
        require-eq-ok (row.claims == canonical) "resource_request_conflict" rest h' in
      elim (Bool-cases (not (row.policy_fingerprint == fingerprint))) [
        | inl other ↦ subst IsSeparated (ap (λ p. p.1) (ok-injective (rw other at h''))) inv
        | inr same ↦
            settle_request-IsSeparated fingerprint now row canonical db inv found
              (claims_iff row.claims canonical owns) row.state res db' (rw same at h'')
      ]

make_room_fresh :
    (limit : ℕ) (i : String) (db db' : Db)
    → make_request_room limit db ≡ ok db'
    → All (FreshFor i) db.requests
    → All (FreshFor i) db'.requests
unfolding make_request_room
make_room_fresh limit i db db' h fresh =
    let count = length db.requests in
    let needed = count - limit + 1 in
    let kept = evict (λ r. is_released r.state) needed db.requests in
    elim (Bool-cases (ltb count limit)) [
      | inl e ↦ subst (λ (d : Db). All (FreshFor i) d.requests) (ok-injective (rw e at h)) fresh
      | inr e ↦ elim (Bool-cases (ltb (count - length kept) needed)) [
        | inl e' ↦ absurd (err-ne-ok (rw (e, e') at h))
        | inr e' ↦
            subst (λ (d : Db). All (FreshFor i) d.requests) (ok-injective (rw (e, e') at h))
              (All-evict (FreshFor i) (λ r. is_released r.state) needed db.requests fresh)
      ]
    ]

abbrev Holds : ResourceRequest → Db → Type 0
Holds row db = IsSeparated db × (find_request row.request_id db ≡ some row)

module _ (limit : ℕ) (fingerprint : String) (now : ℕ) (a : Reserve) (canonical : List ResourceClaim)
    (db : Db) (inv : IsSeparated db) where
  insert-Holds :
      (roomy db' : Db) (row : ResourceRequest)
      → find_request a.request_id db ≡ none
      → make_request_room limit db ≡ ok roomy
      → insert_request fingerprint now a canonical roomy ≡ ok (row, db')
      → Holds row db'
  insert-Holds roomy db' row none_yet room h =
      let fresh =
        make_room_fresh limit a.request_id db roomy room
          (find-eq-none (has_request_id a.request_id) db.requests none_yet) in
      let (same, requests, next) = inserted fingerprint now a canonical roomy db' row h in
      (
        insert_request-IsSeparated fingerprint now a canonical roomy db' row h fresh
            (make_request_room-IsSeparated limit db roomy room inv),
        rw (requests, same)
            (find-append_one (has_request_id a.request_id) roomy.requests _ fresh
              ((eq_iff a.request_id a.request_id).1 refl)),
      )

  obtain_request-Holds :
      (row : ResourceRequest) (db' : Db)
      → obtain_request limit fingerprint now a canonical db ≡ ok (row, db')
      → Holds row db'
  unfolding obtain_request
  obtain_request-Holds row db' h = elim (Option-cases (find_request a.request_id db)) [
    | inl none_yet ↦
        let (roomy, room, rest) =
          >>=-eq-ok (make_request_room limit db) _ (rw (none_yet, obtain_request) at h) in
        insert-Holds roomy db' row none_yet room rest
    | inr (old, found) ↦
        let e = ok-injective (rw (found, obtain_request) at h) in
        subst (λ (p : ResourceRequest × Db). Holds p.0 p.1) e
          (
            inv,
            subst (λ k. find_request k db ≡ some old) (sym (found_id a.request_id db old found))
                found,
          )
  ]

-- A reservation, admitted or not, keeps the invariant.
pub reserve_resource_claims-IsSeparated :
    (limit : ℕ) (fingerprint : String) (now : ℕ) (a : Reserve) (db : Db) {db' : Db}
    {res : Reservation}
    → IsSeparated db
    → reserve_resource_claims limit fingerprint now a db ≡ ok (res, db')
    → IsSeparated db'
unfolding reserve_resource_claims
reserve_resource_claims-IsSeparated limit fingerprint now arguments db {db'} {res} inv h =
    let a = stripped arguments in
    let canonical = canonical_claims a.claims in
    let (_, _, h') =
      >>=-eq-ok (validate_reserve a canonical)
        (λ _. reserve_transaction limit fingerprint now a canonical db) h in
    let (got, obtained, rest) =
      >>=-eq-ok (obtain_request limit fingerprint now a canonical db)
        (λ p. continue_request fingerprint now a canonical p.0 p.1) h' in
    let (inv', found) =
      obtain_request-Holds limit fingerprint now a canonical db inv got.0 got.1 obtained in
    continue_request-IsSeparated fingerprint now a canonical got.0 got.1 inv' found res db' rest
