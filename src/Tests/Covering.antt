-- ===== src/Tests/Covering.antt =====
-- The theorems on claims at concrete claims.
use computerpilot_mcp.Prelude.{
  String, true, not, ◌&&◌, ◌||◌, ◌==◌, [], ◌∷◌, ◌≡◌, refl, arith, string_eq,
}
use computerpilot_mcp.Prelude.Sorted.{SameMembers}
use computerpilot_mcp.Claims.{
  ResourceClaim, claim_eq, ClaimMode, read, write, ClaimScope, exact, subtree, claims_conflict,
  claims_overlap, claim_covers, is_write, claim_sets_conflict, canonical_claims,
}
use computerpilot_mcp.Claims.Cover.{claims_conflict-claim_covers, claim_sets_conflict_sym}
use computerpilot_mcp.Claims.Canonical.{
  canonical_claims_unique, claim_sets_conflict-canonical_claims,
}
use computerpilot_mcp.Claims.Conflict.{overlap_at, covers_at, claims_overlap-eq, claim_covers-eq}
use computerpilot_mcp.Claims.Nesting.{claim_covers_trans}

abbrev file_claim : ClaimMode → ClaimScope → String → ResourceClaim
file_claim mode scope key = record { kind = "fs"; key = key; mode = mode; scope = scope }

-- A parent's claim on a tree, a nested claim on a file, and a reader of the file.
abbrev tree : ResourceClaim
tree = file_claim write subtree "/work/src"

abbrev nested : ResourceClaim
nested = file_claim write exact "/work/src/../src/main.py"

abbrev reader : ResourceClaim
reader = file_claim read exact "/work/src/main.py"

claims_conflict-claim_covers_example : claims_conflict reader tree ≡ true
unfolding claims_conflict claim_covers
claims_conflict-claim_covers_example = claims_conflict-claim_covers reader nested tree refl refl

claim_sets_conflict_sym_example :
    claim_sets_conflict (reader ∷ nested ∷ []) (tree ∷ [])
    ≡ claim_sets_conflict (tree ∷ []) (reader ∷ nested ∷ [])
claim_sets_conflict_sym_example = claim_sets_conflict_sym (reader ∷ nested ∷ []) (tree ∷ [])

same_members : SameMembers (tree ∷ reader ∷ tree ∷ []) (reader ∷ tree ∷ [])
same_members c = ground arith

canonical_claims_unique_example :
    canonical_claims (tree ∷ reader ∷ tree ∷ []) ≡ canonical_claims (reader ∷ tree ∷ [])
canonical_claims_unique_example =
    canonical_claims_unique (tree ∷ reader ∷ tree ∷ []) (reader ∷ tree ∷ []) same_members

claim_sets_conflict-canonical_claims_example :
    claim_sets_conflict (canonical_claims (tree ∷ tree ∷ [])) (canonical_claims (reader ∷ []))
    ≡ claim_sets_conflict (tree ∷ tree ∷ []) (reader ∷ [])
claim_sets_conflict-canonical_claims_example =
    claim_sets_conflict-canonical_claims (tree ∷ tree ∷ []) (reader ∷ [])

claims_overlap-eq_example :
    claims_overlap tree reader
    ≡ (tree.kind == reader.kind && overlap_at tree.kind tree.scope reader.scope tree.key reader.key)
claims_overlap-eq_example = claims_overlap-eq tree reader

claim_covers-eq_example : claim_covers tree reader ≡ (
    tree.kind == reader.kind
    && (is_write tree.mode || not (is_write reader.mode))
    && covers_at tree.kind tree.scope reader.scope tree.key reader.key)
claim_covers-eq_example = claim_covers-eq tree reader

-- A claim on a file of a tree inside the parent's tree.
abbrev inner_tree : ResourceClaim
inner_tree = file_claim read subtree "/work/src/core"

abbrev inner_file : ResourceClaim
inner_file = file_claim read exact "/work/src/core/main.py"

claim_covers_trans_example : claim_covers tree inner_file ≡ true
unfolding claim_covers
claim_covers_trans_example = claim_covers_trans tree inner_tree inner_file refl refl
