-- ===== src/Requests/Scan.antt =====
-- What the loop over the other requests has checked when it finds no reason to wait.
use mathlib.Core.Option.{some-ne-none}
use computerpilot_mcp.Prelude.{
  ℕ, String, true, false, not, ◌&&◌, ◌≤◌, ◌||◌, List, [], ◌∷◌, none, ◌≡◌, arith, ◌==◌, string_eq,
  All, Option-cases, inl, inr,
}
use computerpilot_mcp.Prelude.Table.{All-of-keep_if}
use computerpilot_mcp.Claims.{ResourceClaim, claim_sets_conflict}
use computerpilot_mcp.Store.{
  Db, ResourceRequest, is_pending, is_active, is_quarantined, is_released, has_request_id,
}
use computerpilot_mcp.Requests.{blocked_by, conflict_reason, other_requests}

-- What is true of another request that does not block.
pub record Passes (fingerprint : String) (ticket : ℕ) (canonical : List ResourceClaim)
    (other : ResourceRequest) : Type 0 where
  pub fence :
      (is_active other.state || is_quarantined other.state) ≡ true
      → claim_sets_conflict canonical other.claims ≡ false
  pub older :
      is_pending other.state ≡ true
      → other.ticket ≤ ticket
      → claim_sets_conflict canonical other.claims ≡ false
  pub policy : is_active other.state ≡ true → (other.policy_fingerprint == fingerprint) ≡ true
  pub queue_policy :
      is_pending other.state ≡ true
      → other.ticket ≤ ticket
      → (other.policy_fingerprint == fingerprint) ≡ true

module _ (fingerprint : String) (ticket : ℕ) (canonical : List ResourceClaim) where
  Passes-of-blocked_by :
      (other : ResourceRequest)
      → blocked_by fingerprint ticket canonical other ≡ none
      → Passes fingerprint ticket canonical other
  unfolding blocked_by
  Passes-of-blocked_by other h = ground arith

  scan-Passes :
      (others : List ResourceRequest)
      → conflict_reason fingerprint ticket canonical others ≡ none
      → All (Passes fingerprint ticket canonical) others
  unfolding conflict_reason
  scan-Passes [] h = tt
  scan-Passes (other ∷ others) h =
      elim (Option-cases (blocked_by fingerprint ticket canonical other)) [
        | inl e ↦ (Passes-of-blocked_by other e, scan-Passes others (rw (e, conflict_reason) at h))
        | inr (reason, e) ↦ absurd (some-ne-none reason (rw (e, conflict_reason) at h))
      ]

  -- If the loop finds no reason, every other live request passes.
  pub other_requests-Passes :
      (i : String) (db : Db)
      → conflict_reason fingerprint ticket canonical (other_requests i db) ≡ none
      → All
          (λ r.
            (not (has_request_id i r) && not (is_released r.state)) ≡ true
            → Passes fingerprint ticket canonical r)
          db.requests
  unfolding other_requests
  other_requests-Passes i db h =
      All-of-keep_if (Passes fingerprint ticket canonical)
        (λ r. not (has_request_id i r) && not (is_released r.state)) db.requests
        (scan-Passes (other_requests i db) h)
