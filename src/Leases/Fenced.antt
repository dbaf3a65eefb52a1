-- ===== src/Leases/Fenced.antt =====
-- A token that lost the lease is fenced.
use computerpilot_mcp.Prelude.{
  All, All-append, ℕ, ◌+◌, String, Bool, false, ◌≡◌, ◌≢◌, ◌⊎◌, arith, ◌==◌, string_eq, Option-cases,
  inl, inr,
}
use computerpilot_mcp.Prelude.Table.{
  find-true, find-All, All-update_where, All-delete_where, update_where,
}
use computerpilot_mcp.Prelude.Text.{strip}
use computerpilot_mcp.Prelude.Result.{ok, Result-cases}
use computerpilot_mcp.Store.{Db, WorkflowLease, find_lease}
use computerpilot_mcp.Leases.{
  millis, lease_times, has_lease, take_over, acquire_lease, current_lease, heartbeat,
  has_lease_token, renew_lease, require_lease, delete_lease, release_lease,
  release_lease_if_current,
}
use computerpilot_mcp.Leases.Held.{acquire_over_outcomes, acquire_lease-eq-ok}

-- An operation on leases of any workflow, by anyone, where a fresh token is not `token`.
pub data FreshStep (token : String) (db db' : Db) : Type 0 where
  acquiring :
      (clock ttl : ℕ) (fresh : String) (allow_reentry : Bool) (i owner : String)
      (got : WorkflowLease)
      → (fresh == token) ≡ false
      → acquire_lease clock ttl fresh allow_reentry i owner db ≡ ok (got, db')
      → FreshStep token db db'
  renewing :
      (clock ttl : ℕ) (i presented : String) (got : WorkflowLease)
      → renew_lease clock ttl i presented db ≡ ok (got, db')
      → FreshStep token db db'
  releasing :
      (i presented : String) → release_lease i presented db ≡ ok db' → FreshStep token db db'
  releasing_current :
      (i presented : String) (done : Bool)
      → release_lease_if_current i presented db ≡ (done, db')
      → FreshStep token db db'

pub data FreshRun (token : String) (start : Db) : Db → Type 0 where
  here : FreshRun token start start
  next : {db db' : Db} → FreshRun token start db → FreshStep token db db' → FreshRun token start db'

abbrev pub IsFenced : String → String → Db → Type 0
IsFenced token i db = All (λ l. has_lease_token i token l ≡ false) db.leases

module _ (token i : String) (db db' : Db) (fenced : IsFenced token i db) where
  IsFenced-acquired :
      (clock ttl : ℕ) (fresh : String) (allow_reentry : Bool) (j owner : String)
      (got : WorkflowLease)
      → (fresh == token) ≡ false
      → acquire_lease clock ttl fresh allow_reentry j owner db ≡ ok (got, db')
      → IsFenced token i db'
  IsFenced-acquired clock ttl fresh allow_reentry j owner got other h =
      elim (acquire_over_outcomes j (strip owner) fresh allow_reentry (millis clock)
        (millis (clock + ttl)) db db' got
        (acquire_lease-eq-ok clock ttl fresh allow_reentry j owner db db' got h)) [
          | inl (_, e) ↦ rw e (All-append _ db.leases _ fenced (ground arith, tt))
          | inr (current, at, inl (_, e)) ↦ rw e fenced
          | inr (current, at, inr (late, e)) ↦ rw e (
              All-update_where _ (has_lease j)
                (take_over (strip owner) fresh (millis clock) (millis (clock + ttl)))
                (λ l hit k. ground arith) db.leases fenced)
        ]

  IsFenced-renewed :
      (clock ttl : ℕ) (j presented : String) (got : WorkflowLease)
      → renew_lease clock ttl j presented db ≡ ok (got, db')
      → IsFenced token i db'
  unfolding renew_lease lease_times current_lease
  IsFenced-renewed clock ttl j presented got h =
      let e : db' ≡ record db {
        leases =
            update_where (has_lease_token j presented)
              (heartbeat (millis clock) (millis (clock + ttl))) db.leases;
      } =
        ground arith in
      rw e (
        All-update_where _ (has_lease_token j presented)
          (heartbeat (millis clock) (millis (clock + ttl))) (λ l hit k. k) db.leases fenced)

  IsFenced-deleted : (j presented : String) → IsFenced token i (delete_lease j presented db)
  IsFenced-deleted j presented = All-delete_where _ (has_lease_token j presented) db.leases fenced

  IsFenced-released :
      (j presented : String) → release_lease j presented db ≡ ok db' → IsFenced token i db'
  unfolding release_lease
  IsFenced-released j presented h =
      let e : (db' ≡ db) ⊎ (db' ≡ delete_lease j presented db) = ground arith in
      elim e [ inl e ↦ rw e fenced | inr e ↦ rw e (IsFenced-deleted j presented) ]

  IsFenced-released_current :
      (j presented : String) (done : Bool)
      → release_lease_if_current j presented db ≡ (done, db')
      → IsFenced token i db'
  unfolding release_lease_if_current
  IsFenced-released_current j presented done h =
      let e : (db' ≡ db) ⊎ (db' ≡ delete_lease j presented db) = ground arith in
      elim e [ inl e ↦ rw e fenced | inr e ↦ rw e (IsFenced-deleted j presented) ]

  IsFenced-step : FreshStep token db db' → IsFenced token i db'
  IsFenced-step (acquiring clock ttl fresh allow_reentry j owner got other h) =
      IsFenced-acquired clock ttl fresh allow_reentry j owner got other h
  IsFenced-step (renewing clock ttl j presented got h) =
      IsFenced-renewed clock ttl j presented got h
  IsFenced-step (releasing j presented h) = IsFenced-released j presented h
  IsFenced-step (releasing_current j presented done h) =
      IsFenced-released_current j presented done h

pub IsFenced-run :
    (token i : String) (db db' : Db)
    → IsFenced token i db
    → FreshRun token db db'
    → IsFenced token i db'
IsFenced-run token i db db' fenced here = fenced
IsFenced-run token i db db' fenced (next r s) =
    IsFenced-step token i _ _ (IsFenced-run token i db _ fenced r) s

refused_now :
    (token i : String) (db : Db)
    → IsFenced token i db
    → (now : ℕ) (l : WorkflowLease) → current_lease now i token db ≢ ok l
unfolding current_lease
refused_now token i db fenced now l h = elim (Option-cases (find_lease i db)) [
  | inl e ↦ ground arith
  | inr (row, e) ↦ ground (
    arith,
    find-true (has_lease i) db.leases row e,
    find-All _ (has_lease i) db.leases row fenced e,
  )
]

renewal_refused :
    (token i : String) (db : Db)
    → IsFenced token i db
    → (clock ttl : ℕ) (got : WorkflowLease × Db) → renew_lease clock ttl i token db ≢ ok got
unfolding renew_lease lease_times
renewal_refused token i db fenced clock ttl got h =
    elim (Result-cases (current_lease (millis clock) i token db)) [
      | inl (e, q) ↦ ground arith
      | inr (l, q) ↦ refused_now token i db fenced (millis clock) l q
    ]

-- A token that no row of the workflow carries, as when its lease has passed to another token, is
-- fenced: after any sequence of acquisitions with other fresh tokens, renewals and releases, by
-- anyone and at any time, neither the check of the lease nor a renewal accepts it.
pub fenced_token_refused :
    (token i : String) (db db' : Db)
    → IsFenced token i db
    → FreshRun token db db'
    → (now clock ttl : ℕ) (l : WorkflowLease) (got : WorkflowLease × Db)
    → (require_lease now i token db' ≢ ok l) × (renew_lease clock ttl i token db' ≢ ok got)
unfolding require_lease renew_lease
fenced_token_refused token i db db' fenced r now clock ttl l got =
    let after = IsFenced-run token i db db' fenced r in
    (refused_now token i db' after now l, renewal_refused token i db' after clock ttl got)
