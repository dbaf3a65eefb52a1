-- ===== src/Claims/Nesting.antt =====
-- Chains of coverings: an action nested in a nested action, under claims that each cover the next.
use computerpilot_mcp.Prelude.{String, true, ◌≡◌, arith, string_eq, eq_iff, ◌∙◌}
use computerpilot_mcp.Claims.{ResourceClaim, ClaimScope, exact, subtree, claim_covers}
use computerpilot_mcp.Claims.Conflict.{covers_at, claim_covers-eq}
use computerpilot_mcp.Claims.Cover.{under_trans, covers_parts}

covers_at_trans :
    (kind : String) (sp sc sg : ClaimScope) (p c g : String)
    → covers_at kind sp sc p c ≡ true
    → covers_at kind sc sg c g ≡ true
    → covers_at kind sp sg p g ≡ true
covers_at_trans kind exact exact sg p c g h k = ground (arith, eq_iff p c)
covers_at_trans kind exact subtree sg p c g h k = ground arith
covers_at_trans kind subtree exact sg p c g h k = ground (arith, eq_iff c g)
covers_at_trans kind subtree subtree sg p c g h k = under_trans kind p c g h k

-- If a claim covers a second one and that one a third, the first covers the third.
pub claim_covers_trans :
    (first second third : ResourceClaim)
    → claim_covers first second ≡ true
    → claim_covers second third ≡ true
    → claim_covers first third ≡ true
claim_covers_trans first second third h k =
    let (same, mode, below) = covers_parts first second h in
    let (same', mode', below') = covers_parts second third k in
    rw claim_covers-eq (
      ground (
        arith,
        eq_iff first.kind third.kind,
        covers_at_trans first.kind first.scope second.scope third.scope first.key second.key
            third.key below (rw same below'),
        same ∙ same',
      ))
