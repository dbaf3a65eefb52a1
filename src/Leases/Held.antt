-- ===== src/Leases/Held.antt =====
-- A lease excludes other executions until it expires.
use mathlib.Core.Path.{subst}
use mathlib.Core.Option.{some-injective}
use computerpilot_mcp.Prelude.{
  sym, ◌∙◌, ℕ, ◌+◌, String, Bool, true, false, [], ◌∷◌, ◌++◌, none, some, ◌≡◌, ◌⊎◌, arith, ◌==◌,
  string_eq, ltb, Bool-cases, Option-cases, inl, inr, eq_iff,
}
use computerpilot_mcp.Prelude.Table.{update_where}
use computerpilot_mcp.Prelude.Find.{find-append, find-delete_where, find-update_miss}
use computerpilot_mcp.Prelude.Text.{strip}
use computerpilot_mcp.Prelude.Result.{ok}
use computerpilot_mcp.Store.{Db, WorkflowLease, find_lease}
use computerpilot_mcp.Leases.{
  millis, lease_times, has_lease, new_lease, take_over, update_lease, acquire_over, acquire_lease,
  current_lease, heartbeat, has_lease_token, renew_lease, delete_lease, release_lease,
  release_lease_if_current,
}

-- One operation on leases, before the lease `l` expires, by a caller that does not present its
-- token. Anyone may acquire, the owner of `l` too.
pub data OthersStep (l : WorkflowLease) (db db' : Db) : Type 0 where
  acquiring :
      (clock ttl : ℕ) (token : String) (allow_reentry : Bool) (i owner : String)
      (got : WorkflowLease)
      → ltb (millis clock) l.expires_at ≡ true
      → acquire_lease clock ttl token allow_reentry i owner db ≡ ok (got, db')
      → OthersStep l db db'
  renewing :
      (clock ttl : ℕ) (i token : String) (got : WorkflowLease)
      → (l.lease_token == token) ≡ false
      → renew_lease clock ttl i token db ≡ ok (got, db')
      → OthersStep l db db'
  releasing :
      (i token : String)
      → (l.lease_token == token) ≡ false
      → release_lease i token db ≡ ok db'
      → OthersStep l db db'
  releasing_current :
      (i token : String) (done : Bool)
      → (l.lease_token == token) ≡ false
      → release_lease_if_current i token db ≡ (done, db')
      → OthersStep l db db'

pub data OthersRun (l : WorkflowLease) (start : Db) : Db → Type 0 where
  here : OthersRun l start start
  next : {db db' : Db} → OthersRun l start db → OthersStep l db db' → OthersRun l start db'

-- What an acquisition that returned did, by the row it found.
pub acquire_over_outcomes :
    (i owner token : String) (allow_reentry : Bool) (now expires : ℕ) (db db' : Db)
    (got : WorkflowLease)
    → acquire_over i owner token allow_reentry now expires (find_lease i db) db ≡ ok (got, db')
    → ((find_lease i db ≡ none)
        × (db' ≡ record db { leases = db.leases ++ new_lease i owner token now expires ∷ [] }))
      ⊎ ((current : WorkflowLease) × (find_lease i db ≡ some current)
          × (((ltb now current.expires_at ≡ true) × (db' ≡ db))
              ⊎ ((ltb now current.expires_at ≡ false)
                  × (db' ≡ update_lease i (take_over owner token now expires) db))))
unfolding acquire_over
acquire_over_outcomes i owner token allow_reentry now expires db db' got h =
    elim (Option-cases (find_lease i db)) [
      | inl e ↦ inl (e, ground arith)
      | inr (current, e) ↦ inr (
        current,
        e,
        elim (Bool-cases (ltb now current.expires_at)) [
          | inl early ↦ inl (early, ground arith)
          | inr late ↦ inr (late, ground arith)
        ],
      )
    ]

pub acquire_lease-eq-ok :
    (clock ttl : ℕ) (token : String) (allow_reentry : Bool) (i owner : String) (db db' : Db)
    (got : WorkflowLease)
    → acquire_lease clock ttl token allow_reentry i owner db ≡ ok (got, db')
    → acquire_over i
        (strip owner)
        token
        allow_reentry
        (millis clock)
        (millis (clock + ttl))
        (find_lease i db)
        db
      ≡ ok (got, db')
unfolding acquire_lease lease_times
acquire_lease-eq-ok clock ttl token allow_reentry i owner db db' got h = ground arith

module _ (l : WorkflowLease) (db db' : Db) (held : find_lease l.workflow_id db ≡ some l) where
  not_taken :
      (i : String) (current : WorkflowLease)
      → find_lease i db ≡ some current
      → (current ≡ l → ⊥)
      → (l.workflow_id == i) ≡ false
  not_taken i current at other = elim (Bool-cases (l.workflow_id == i)) [
    | inl e ↦ absurd (
        other (
          some-injective current l (
            sym
              (subst (λ k. find_lease k db ≡ some current) (sym ((eq_iff l.workflow_id i).0 e)) at)
            ∙ held)))
    | inr e ↦ e
  ]

  keeps_acquired :
      (clock ttl : ℕ) (token : String) (allow_reentry : Bool) (i owner : String)
      (got : WorkflowLease)
      → ltb (millis clock) l.expires_at ≡ true
      → acquire_lease clock ttl token allow_reentry i owner db ≡ ok (got, db')
      → find_lease l.workflow_id db' ≡ some l
  keeps_acquired clock ttl token allow_reentry i owner got early h =
      elim (acquire_over_outcomes i (strip owner) token allow_reentry (millis clock)
        (millis (clock + ttl)) db db' got
        (acquire_lease-eq-ok clock ttl token allow_reentry i owner db db' got h)) [
          | inl (_, e) ↦ rw e (find-append (has_lease l.workflow_id) l db.leases _ held)
          | inr (current, at, inl (_, e)) ↦ rw e held
          | inr (current, at, inr (late, e)) ↦ rw e (
              find-update_miss (has_lease l.workflow_id) l (has_lease i)
                (take_over (strip owner) token (millis clock) (millis (clock + ttl))) (λ r k. k)
                db.leases (not_taken i current at (λ same. ground arith)) held)
        ]

  keeps_renewed :
      (clock ttl : ℕ) (i token : String) (got : WorkflowLease)
      → (l.lease_token == token) ≡ false
      → renew_lease clock ttl i token db ≡ ok (got, db')
      → find_lease l.workflow_id db' ≡ some l
  unfolding renew_lease lease_times current_lease
  keeps_renewed clock ttl i token got other h =
      let (expires, e) : (expires : ℕ) × (db' ≡ record db {
        leases =
            update_where (has_lease_token i token) (heartbeat (millis clock) expires) db.leases;
      }) =
        (millis (clock + ttl), ground arith) in
      rw e (
        find-update_miss (has_lease l.workflow_id) l (has_lease_token i token)
          (heartbeat (millis clock) expires) (λ r k. k) db.leases (ground arith) held)

  keeps_deleted :
      (i token : String)
      → (l.lease_token == token) ≡ false
      → find_lease l.workflow_id (delete_lease i token db) ≡ some l
  keeps_deleted i token other =
      find-delete_where (has_lease l.workflow_id) l (has_lease_token i token) db.leases
        (ground arith) held

  keeps_released :
      (i token : String)
      → (l.lease_token == token) ≡ false
      → release_lease i token db ≡ ok db'
      → find_lease l.workflow_id db' ≡ some l
  unfolding release_lease
  keeps_released i token other h = ground (arith, keeps_deleted i token other)

  keeps_released_current :
      (i token : String) (done : Bool)
      → (l.lease_token == token) ≡ false
      → release_lease_if_current i token db ≡ (done, db')
      → find_lease l.workflow_id db' ≡ some l
  unfolding release_lease_if_current
  keeps_released_current i token done other h = ground (arith, keeps_deleted i token other)

  keeps_step : OthersStep l db db' → find_lease l.workflow_id db' ≡ some l
  keeps_step (acquiring clock ttl token allow_reentry i owner got early h) =
      keeps_acquired clock ttl token allow_reentry i owner got early h
  keeps_step (renewing clock ttl i token got other h) = keeps_renewed clock ttl i token got other h
  keeps_step (releasing i token other h) = keeps_released i token other h
  keeps_step (releasing_current i token done other h) = keeps_released_current i token done other h

-- A lease is kept as it is until it expires, whatever acquisitions, renewals and releases others
-- attempt in any order: the operations before its expiry that do not present its token leave its
-- row unchanged.
pub lease_held_until_expiry :
    (l : WorkflowLease) (db db' : Db)
    → find_lease l.workflow_id db ≡ some l
    → OthersRun l db db'
    → find_lease l.workflow_id db' ≡ some l
lease_held_until_expiry l db db' held here = held
lease_held_until_expiry l db db' held (next r s) =
    keeps_step l _ _ (lease_held_until_expiry l db _ held r) s
