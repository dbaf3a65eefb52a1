-- ===== src/Claims/Canonical.antt =====
-- `canonical_claims` gives one list for each set of claims, and keeps every conflict.
use mathlib.Core.Path.{fun_ext}
use computerpilot_mcp.Prelude.{
  Bool, true, List, [], ◌∷◌, ◌≡◌, ◌∙◌, sym, arith, any, contains, Bool-cases, inl, inr, ap,
}
use computerpilot_mcp.Prelude.Sorted.{
  set_of, SameMembers, IsSorted, sorted-set_of_unique, contains-set_of, contains-sorted,
  sorted-IsSorted, set_of-IsDistinct,
}
use computerpilot_mcp.Claims.{
  ResourceClaim, claim_eq, claim_beq_iff, claim_lt, canonical_claims, claims_conflict,
  claim_sets_conflict,
}
use computerpilot_mcp.Claims.Order.{claim_lt-IsStrictOrder}

-- Two sequences of claims with the same members have the same canonical form.
pub canonical_claims_unique :
    (xs ys : List ResourceClaim) → SameMembers xs ys → canonical_claims xs ≡ canonical_claims ys
unfolding canonical_claims
canonical_claims_unique xs ys m = sorted-set_of_unique claim_lt claim_lt-IsStrictOrder xs ys m

contains-canonical_claims :
    (xs : List ResourceClaim) (c : ResourceClaim) → contains (canonical_claims xs) c ≡ contains xs c
unfolding canonical_claims
contains-canonical_claims xs c = contains-sorted claim_lt (set_of xs) c ∙ contains-set_of xs c

-- The canonical form is in strict order, so it holds no claim twice.
canonical_claims-IsSorted : (xs : List ResourceClaim) → IsSorted claim_lt (canonical_claims xs)
unfolding canonical_claims
canonical_claims-IsSorted xs =
    sorted-IsSorted claim_lt claim_lt-IsStrictOrder (set_of xs) (set_of-IsDistinct xs)

any_of_contains :
    (p : ResourceClaim → Bool) (xs : List ResourceClaim) (c : ResourceClaim)
    → contains xs c ≡ true
    → p c ≡ true
    → any p xs ≡ true
any_of_contains p [] c h k = cc
any_of_contains p (x ∷ xs) c h k = ground (arith, claim_beq_iff c x, any_of_contains p xs c)

contains_of_any :
    (p : ResourceClaim → Bool) (xs : List ResourceClaim)
    → any p xs ≡ true
    → (c : ResourceClaim) × (contains xs c ≡ true) × (p c ≡ true)
contains_of_any p [] h = cc
contains_of_any p (x ∷ xs) h = elim (Bool-cases (p x)) [
  | inl e ↦ (x, ground (arith, claim_beq_iff x x), e)
  | inr e ↦ let (c, m, q) = contains_of_any p xs (ground arith) in (c, ground arith, q)
]

bool_ext : (a b : Bool) → (a ≡ true → b ≡ true) → (b ≡ true → a ≡ true) → a ≡ b
bool_ext a b f g = ground arith

any-canonical_claims :
    (p : ResourceClaim → Bool) (xs : List ResourceClaim) → any p (canonical_claims xs) ≡ any p xs
any-canonical_claims p xs =
    bool_ext (any p (canonical_claims xs)) (any p xs)
      (λ h.
        let (c, m, q) = contains_of_any p (canonical_claims xs) h in
        any_of_contains p xs c (sym (contains-canonical_claims xs c) ∙ m) q)
      λ h.
        let (c, m, q) = contains_of_any p xs h in
        any_of_contains p (canonical_claims xs) c (contains-canonical_claims xs c ∙ m) q

-- Sets of claims conflict exactly when their canonical forms do.
pub claim_sets_conflict-canonical_claims :
    (xs ys : List ResourceClaim)
    → claim_sets_conflict (canonical_claims xs) (canonical_claims ys) ≡ claim_sets_conflict xs ys
unfolding claim_sets_conflict
claim_sets_conflict-canonical_claims xs ys =
    any-canonical_claims (λ x. any (λ y. claims_conflict x y) (canonical_claims ys)) xs
    ∙ ap (λ f. any f xs) (fun_ext λ x. any-canonical_claims (λ y. claims_conflict x y) ys)
