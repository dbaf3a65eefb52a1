-- ===== src/Capability/Nested.antt =====
-- An action that runs under a parent's capability stays within what the parent has reserved.
use mathlib.Core.Bool.{false≢true}
use computerpilot_mcp.Prelude.{
  ℕ, String, Bool, true, false, not, ◌&&◌, List, [], ◌∷◌, Option, some, ◌≡◌, sym, ◌∙◌, arith, any,
  all, ◌==◌, string_eq, eq_iff, inl, inr, All, All-map, ◌≢◌, ◌⊎◌, refl, ap,
}
use computerpilot_mcp.Prelude.Table.{find, find-true, AllPairs-find}
use computerpilot_mcp.Prelude.Result.{
  ok, ◌>>◌, >>=-eq-ok, require, require-eq-ok, or_raise, or_raise-eq-ok,
}
use computerpilot_mcp.Claims.{ResourceClaim, claim_covers, claims_conflict, claim_sets_conflict}
use computerpilot_mcp.Claims.Cover.{claims_conflict-claim_covers, claim_sets_conflict_sym}
use computerpilot_mcp.Store.{Db, ResourceRequest, is_active, has_request_id}
use computerpilot_mcp.Capability.{
  capability_request, validate_resource_capability, request_carries, known_false,
}
use computerpilot_mcp.Requests.Separate.{Separate, IsSeparated}

abbrev covered_by : List ResourceClaim → ResourceClaim → Bool
covered_by parents child = any (λ claim. claim_covers claim child) parents

-- If a claim conflicts with a covered one, it conflicts with one of those that cover it.
conflict_with_covered :
    (x child : ResourceClaim) (parents : List ResourceClaim)
    → covered_by parents child ≡ true
    → claims_conflict x child ≡ true
    → any (λ p. claims_conflict x p) parents ≡ true
conflict_with_covered x child [] c h = cc
conflict_with_covered x child (p ∷ ps) c h =
    ground (arith, claims_conflict-claim_covers x child p, conflict_with_covered x child ps)

not_true : (b : Bool) → (b ≡ true → ⊥) → b ≡ false
not_true true f = absurd (f refl)
not_true false f = refl

passed_require : (b : Bool) (code : String) → require b code ≡ ok tt → b ≡ true
passed_require true code h = refl
passed_require false code h = cc

any_conflict_with_covered :
    (x : ResourceClaim) (requested parents : List ResourceClaim)
    → all (covered_by parents) requested ≡ true
    → any (λ c. claims_conflict x c) requested ≡ true
    → any (λ p. claims_conflict x p) parents ≡ true
any_conflict_with_covered x [] parents c h = cc
any_conflict_with_covered x (r ∷ rs) parents c h =
    ground (arith, conflict_with_covered x r parents, any_conflict_with_covered x rs parents)

sets_conflict_with_covered :
    (xs requested parents : List ResourceClaim)
    → all (covered_by parents) requested ≡ true
    → claim_sets_conflict xs requested ≡ true
    → claim_sets_conflict xs parents ≡ true
unfolding claim_sets_conflict
sets_conflict_with_covered [] requested parents c h = cc
sets_conflict_with_covered (x ∷ xs) requested parents c h = ground (
  arith,
  any_conflict_with_covered x requested parents,
  sets_conflict_with_covered xs requested parents,
)

-- What the check of a capability has found: the parent's row, active, and its claims covering.
record Parent (i : String) (requested : List ResourceClaim) (p : ResourceRequest) : Type 0 where
  same_id : p.request_id ≡ i
  live : is_active p.state ≡ true
  covers : all (covered_by p.claims) requested ≡ true

carries_id_and_state :
    (i owner fingerprint : String) (now : ℕ) (db : Db) (p : ResourceRequest)
    → request_carries i owner fingerprint now db p ≡ true
    → (has_request_id i p ≡ true) × (is_active p.state ≡ true)
unfolding request_carries
carries_id_and_state i owner fingerprint now db p h = ground arith

module _ (alive : Option Bool) (i owner fingerprint : String) (now : ℕ)
    (requested : List ResourceClaim) (db : Db)
    (passed : validate_resource_capability alive i owner fingerprint now requested db ≡ ok tt) where
  Parent-row :
      (p : ResourceRequest) × (find (request_carries i owner fingerprint now db) db.requests
        ≡ some p)
      × Parent i requested p
  unfolding validate_resource_capability capability_request
  Parent-row =
      let checks = λ (p : ResourceRequest).
        require (is_active p.state && p.owner_token == owner) "resource_capability_invalid"
        >> require (all (covered_by p.claims) requested) "resource_capability_scope_violation" in
      let (p, read, h1) =
        >>=-eq-ok (capability_request alive i owner fingerprint now db) checks passed in
      let found = find (request_carries i owner fingerprint now db) db.requests in
      let (_, read') =
        require-eq-ok (not (known_false alive)) "resource_capability_invalid"
          (or_raise found "resource_capability_invalid") read in
      let at = or_raise-eq-ok found "resource_capability_invalid" read' in
      let (id, live) =
        carries_id_and_state i owner fingerprint now db p
          (find-true (request_carries i owner fingerprint now db) db.requests p at) in
      let (_, h2) =
        require-eq-ok (is_active p.state && p.owner_token == owner) "resource_capability_invalid"
          (require (all (covered_by p.claims) requested) "resource_capability_scope_violation")
          h1 in
      (
        p,
        at,
        record {
          same_id = (eq_iff p.request_id i).0 id;
          live = live;
          covers = passed_require (all (covered_by p.claims) requested) _ h2;
        },
      )

  away_from_Parent :
      (p y : ResourceRequest)
      → Parent i requested p
      → (y ≡ p) ⊎ (Separate y p ⊎ Separate p y)
      → y.request_id ≢ i
      → is_active y.state ≡ true
      → claim_sets_conflict y.claims requested ≡ false
  away_from_Parent p y parent which other a = not_true _ λ c.
      let c' = sets_conflict_with_covered y.claims requested p.claims parent.covers c in
      elim which [
        | inl e ↦ other (ap (λ (r : ResourceRequest). r.request_id) e ∙ parent.same_id)
        | inr (inl s) ↦ false≢true (sym (s.exclusive a parent.live) ∙ c')
        | inr (inr s) ↦
            false≢true
              (sym (s.exclusive parent.live a) ∙ claim_sets_conflict_sym p.claims y.claims ∙ c')
      ]

  -- If the capability passes for nested claims, then in a database with the invariant no other
  -- active request holds a claim that conflicts with them.
  pub nested_exclusive :
      IsSeparated db
      → All
          (λ y.
            y.request_id ≢ i
            → is_active y.state ≡ true
            → claim_sets_conflict y.claims requested ≡ false)
          db.requests
  nested_exclusive inv =
      let (p, at, parent) = Parent-row in
      All-map _ _ (λ y which. away_from_Parent p y parent which) db.requests
        (AllPairs-find Separate (request_carries i owner fingerprint now db) db.requests p inv.pairs
          at)
