-- ===== src/Requests/Fairness.antt =====
-- When a waiting request is admitted: exactly when no other live request stands in its way.
use mathlib.Core.Path.{subst}
use mathlib.Core.Bool.{true≢false}
use computerpilot_mcp.Prelude.{
  ℕ, ◌≤◌, String, Bool, true, false, not, ◌&&◌, ◌||◌, List, [], ◌∷◌, Option, none, some, ◌≡◌, ◌↔◌,
  sym, refl, arith, ap, ◌==◌, string_eq, list_eq, eq_iff, leb→le, Bool-cases, Option-cases, inl,
  inr, All, any, keep_if, ltb, if◌then◌else◌,
}
use computerpilot_mcp.Prelude.Result.{ok, ok-injective}
use computerpilot_mcp.Claims.{ResourceClaim, claim_eq, canonical_claims, claim_sets_conflict}
use computerpilot_mcp.Store.{
  Db, ResourceRequest, AdmissionState, pending, active, quarantined, released, is_pending,
  is_active, is_quarantined, is_released, has_request_id, find_request,
}
use computerpilot_mcp.Requests.{
  Reserve, Reservation, blocked_by, conflict_reason, other_requests, policy_clash, admit_or_wait,
  settle_request, continue_request, obtain_request, owns_row, reserve_transaction, validate_reserve,
  stripped, reserve_resource_claims, answer, update_request, activate,
}
use computerpilot_mcp.Requests.Scan.{Passes, other_requests-Passes}

-- Every other request that is pending, active or quarantined passes.
abbrev pub AllPass : String → ℕ → List ResourceClaim → String → Db → Type 0
AllPass fingerprint ticket canonical i db =
    All
      (λ r.
        (not (has_request_id i r) && not (is_released r.state)) ≡ true
        → Passes fingerprint ticket canonical r)
      db.requests

-- `blocked_by` on what it reads of the other request.
abbrev verdict : AdmissionState → Bool → Bool → Bool → Option String
verdict state younger policy_fits conflict =
    if is_pending state && younger
    then none
    else if (is_active state || is_pending state) && not policy_fits
    then some "resource_policy_incompatible"
    else if not conflict
    then none
    else if is_quarantined state
    then some "resource_quarantined"
    else if is_active state
    then some "resource_conflict"
    else some "older_conflicting_request"

module _ (fingerprint : String) (ticket : ℕ) (canonical : List ResourceClaim) (i : String) where
  pass_by_state :
      (state : AdmissionState) (other_ticket : ℕ) (policy_fits conflict : Bool)
      → ((is_active state || is_quarantined state) ≡ true → conflict ≡ false)
      → (is_pending state ≡ true → other_ticket ≤ ticket → conflict ≡ false)
      → (is_active state ≡ true → policy_fits ≡ true)
      → (is_pending state ≡ true → other_ticket ≤ ticket → policy_fits ≡ true)
      → is_released state ≡ false
      → verdict state (ltb ticket other_ticket) policy_fits conflict ≡ none
  pass_by_state pending other_ticket policy_fits conflict fence older policy queue live =
      elim (Bool-cases (ltb ticket other_ticket)) [
        | inl e ↦ rw e refl
        | inr e ↦
            rw
              (
                e,
                older refl (leb→le other_ticket ticket (ground arith)),
                queue refl (leb→le other_ticket ticket (ground arith)),
              )
              refl
      ]
  pass_by_state active other_ticket policy_fits conflict fence older policy queue live =
      rw (fence refl, policy refl) refl
  pass_by_state quarantined other_ticket policy_fits conflict fence older policy queue live =
      rw (fence refl) refl
  pass_by_state released other_ticket policy_fits conflict fence older policy queue live =
      ground arith

  blocked_by-of-Passes :
      (other : ResourceRequest)
      → Passes fingerprint ticket canonical other
      → is_released other.state ≡ false
      → blocked_by fingerprint ticket canonical other ≡ none
  unfolding blocked_by
  blocked_by-of-Passes other p live =
      pass_by_state other.state other.ticket (other.policy_fingerprint == fingerprint)
        (claim_sets_conflict canonical other.claims) p.fence p.older p.policy p.queue_policy live

  scan_quiet :
      (rows : List ResourceRequest)
      → All
          (λ r.
            (not (has_request_id i r) && not (is_released r.state)) ≡ true
            → Passes fingerprint ticket canonical r)
          rows
      → conflict_reason fingerprint ticket canonical
          (keep_if (λ r. not (has_request_id i r) && not (is_released r.state)) rows)
        ≡ none
  unfolding conflict_reason
  scan_quiet [] h = refl
  scan_quiet (r ∷ rs) h =
      elim (Bool-cases (not (has_request_id i r) && not (is_released r.state))) [
        | inl e ↦
            rw (e, blocked_by-of-Passes r (h.0 e) (ground arith), conflict_reason)
              (scan_quiet rs h.1)
        | inr e ↦ rw e (scan_quiet rs h.1)
      ]

module _ (limit : ℕ) (fingerprint : String) (now : ℕ) (arguments : Reserve) (db : Db)
    (row : ResourceRequest) where
  abbrev admission : Reservation × Db
  admission =
      (answer true row.request_id active none, update_request row.request_id (activate now) db)

  quiet_by_state :
      (state : AdmissionState) (own policy_fits : Bool)
      → ((not own && not (is_released state)) ≡ true → is_active state ≡ true → policy_fits ≡ true)
      → (is_active state && not own && not policy_fits) ≡ false
  quiet_by_state pending own policy_fits h = refl
  quiet_by_state active true policy_fits h = refl
  quiet_by_state active false policy_fits h = rw (h refl refl) refl
  quiet_by_state quarantined own policy_fits h = refl
  quiet_by_state released own policy_fits h = refl

  no_policy_clash :
      (rows : List ResourceRequest)
      → All
          (λ r.
            (not (has_request_id row.request_id r) && not (is_released r.state)) ≡ true
            → Passes fingerprint row.ticket (canonical_claims arguments.claims) r)
          rows
      → any
          (λ r.
            is_active r.state
            && not (has_request_id row.request_id r)
            && not (r.policy_fingerprint == fingerprint))
          rows
        ≡ false
  no_policy_clash [] h = refl
  no_policy_clash (r ∷ rs) h =
      rw
        (quiet_by_state r.state (has_request_id row.request_id r)
          (r.policy_fingerprint == fingerprint) (λ e. (h.0 e).policy))
        (no_policy_clash rs h.1)

  admit_or_wait_iff :
      row.policy_fingerprint ≡ fingerprint
      → (admit_or_wait fingerprint now row (canonical_claims arguments.claims) db ≡ ok admission)
        ↔ AllPass fingerprint row.ticket (canonical_claims arguments.claims) row.request_id db
  unfolding admit_or_wait other_requests policy_clash
  admit_or_wait_iff same =
      let others = other_requests row.request_id db in
      let canonical = canonical_claims arguments.claims in
      (
        λ h. elim (Option-cases (conflict_reason fingerprint row.ticket canonical others)) [
          | inl e ↦ other_requests-Passes fingerprint row.ticket canonical row.request_id db e
          | inr (reason, e) ↦ absurd (
              true≢false (sym (ap (λ x. x.0.admitted) (ok-injective (rw (e, admit_or_wait) at h)))))
        ],
        λ h.
            rw
              (
                admit_or_wait,
                scan_quiet fingerprint row.ticket canonical row.request_id db.requests h,
                same,
                policy_clash,
                no_policy_clash db.requests h,
              )
              refl,
      )

  reserve_known :
      validate_reserve (stripped arguments) (canonical_claims arguments.claims) ≡ ok tt
      → find_request (stripped arguments).request_id db ≡ some row
      → row.state ≡ pending
      → owns_row (stripped arguments) row ≡ true
      → (row.claims == canonical_claims arguments.claims) ≡ true
      → (row.policy_fingerprint == fingerprint) ≡ true
      → reserve_resource_claims limit fingerprint now arguments db
        ≡ admit_or_wait fingerprint now row (canonical_claims arguments.claims) db
  unfolding reserve_resource_claims reserve_transaction obtain_request continue_request
      settle_request
  reserve_known valid found waits owns claims same =
      rw (valid, reserve_transaction, found, obtain_request, owns, continue_request, claims, same)
        (ap (λ s. settle_request fingerprint now s row (canonical_claims arguments.claims) db)
          waits)

  -- A poll of a request that waits admits it, with all its claims, exactly when no active or
  -- quarantined request and no older waiting one conflicts with it and every active or older
  -- waiting request was made under the policy in force; younger requests never hold it back.
  pub waiting_request-admitted :
      validate_reserve (stripped arguments) (canonical_claims arguments.claims) ≡ ok tt
      → find_request (stripped arguments).request_id db ≡ some row
      → row.state ≡ pending
      → owns_row (stripped arguments) row ≡ true
      → (row.claims == canonical_claims arguments.claims) ≡ true
      → (row.policy_fingerprint == fingerprint) ≡ true
      → (reserve_resource_claims limit fingerprint now arguments db ≡ ok admission)
        ↔ AllPass fingerprint row.ticket (canonical_claims arguments.claims) row.request_id db
  waiting_request-admitted valid found waits owns claims same =
      subst
        (λ x.
          (x ≡ ok admission)
          ↔ AllPass fingerprint row.ticket (canonical_claims arguments.claims) row.request_id db)
        (sym (reserve_known valid found waits owns claims same))
        (admit_or_wait_iff ((eq_iff row.policy_fingerprint fingerprint).0 same))
