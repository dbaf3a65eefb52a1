-- ===== src/Claims/Cover.antt =====
-- What a covering claim shares with the claim that it covers: every conflict.
use mathlib.Core.Path.{fun_ext}
use computerpilot_mcp.Prelude.{
  ℕ, String, Bool, true, false, not, ◌||◌, [], ◌≡◌, inl, inr, refl, arith, ◌==◌, ℕ_eq, eq_iff,
  string_eq, list_eq, list_beq_iff, ◌↔◌, if◌then◌else◌, Bool-cases, &&-true, sym, ◌∙◌, List, ◌∷◌,
  any, ap,
}
use computerpilot_mcp.Claims.{
  ResourceClaim, ClaimScope, exact, subtree, claims_overlap, claims_conflict, claim_sets_conflict,
  claim_covers, is_write, key_parts,
}
use computerpilot_mcp.Claims.Path.{NormPath, normpath, same_path}
use computerpilot_mcp.Claims.Prefix.{is_prefix_trans, is_prefix_comparable}
use computerpilot_mcp.Claims.Conflict.{
  norm_under, under, same_key, overlap_at, covers_at, claims_overlap-eq, claim_covers-eq,
}

norm_under_trans :
    (a b c : NormPath) → norm_under a b ≡ true → norm_under b c ≡ true → norm_under a c ≡ true
norm_under_trans a b c h k = ground (arith, is_prefix_trans a.comps b.comps c.comps)

norm_under_comparable :
    (a b c : NormPath)
    → norm_under a c ≡ true
    → norm_under b c ≡ true
    → (norm_under a b || norm_under b a) ≡ true
norm_under_comparable a b c h k = ground (arith, is_prefix_comparable a.comps b.comps c.comps)

or_comm : (a b : Bool) → (a || b) ≡ (b || a)
or_comm a b = ground arith

or_right : (a b : Bool) → (a || b) ≡ true → a ≡ false → b ≡ true
or_right a b h k = ground arith

or_left : (a b : Bool) → a ≡ true → (b || a) ≡ true
or_left a b h = ground arith

comps_iff : (x y : List (List ℕ)) → ((x == y) ≡ true) ↔ (x ≡ y)
comps_iff x y = list_beq_iff x y

same_path_iff : (a b : NormPath) → (same_path a b ≡ true) ↔ (a ≡ b)
unfolding same_path
same_path_iff a b = ground (arith, comps_iff a.comps b.comps)

pub under_trans :
    (kind a b c : String) → under kind a b ≡ true → under kind b c ≡ true → under kind a c ≡ true
under_trans kind a b c h k = ground (
  arith,
  norm_under_trans (normpath a) (normpath b) (normpath c),
  is_prefix_trans (key_parts a) (key_parts b) (key_parts c),
)

under_comparable :
    (kind a b c : String)
    → under kind a c ≡ true
    → under kind b c ≡ true
    → (under kind a b || under kind b a) ≡ true
under_comparable kind a b c h k = ground (
  arith,
  norm_under_comparable (normpath a) (normpath b) (normpath c),
  is_prefix_comparable (key_parts a) (key_parts b) (key_parts c),
)

-- Below the same keys lie the same ones, and they lie below the same.
under_of_same : (kind p a b : String) → same_key kind a b ≡ true → under kind p a ≡ under kind p b
under_of_same kind p a b h = ground (arith, same_path_iff (normpath a) (normpath b), eq_iff a b)

same_key_sym : (kind a b : String) → same_key kind a b ≡ same_key kind b a
same_key_sym kind a b = ground (
  arith,
  same_path_iff (normpath a) (normpath b),
  same_path_iff (normpath b) (normpath a),
  eq_iff a b,
  eq_iff b a,
)

overlap_at_sym :
    (kind : String) (s t : ClaimScope) (a b : String)
    → overlap_at kind s t a b ≡ overlap_at kind t s b a
overlap_at_sym kind exact exact a b = same_key_sym kind a b
overlap_at_sym kind exact subtree a b = refl
overlap_at_sym kind subtree exact a b = refl
overlap_at_sym kind subtree subtree a b = or_comm (under kind a b) (under kind b a)

-- What overlaps a covered claim overlaps the covering one.
overlap_at-covers_at :
    (kind : String) (sx sc sp : ClaimScope) (x c p : String)
    → overlap_at kind sx sc x c ≡ true
    → covers_at kind sp sc p c ≡ true
    → overlap_at kind sx sp x p ≡ true
overlap_at-covers_at kind sx exact exact x c p h k = rw ((eq_iff p c).0 k) h
overlap_at-covers_at kind sx subtree exact x c p h k = cc
overlap_at-covers_at kind exact exact subtree x c p h k = rw (under_of_same kind p x c h) k
overlap_at-covers_at kind exact subtree subtree x c p h k = under_trans kind p c x k h
overlap_at-covers_at kind subtree exact subtree x c p h k = under_comparable kind x p c h k
overlap_at-covers_at kind subtree subtree subtree x c p h k = elim (Bool-cases (under kind x c)) [
  | inl u ↦ under_comparable kind x p c u k
  | inr u ↦ or_left (under kind p x) (under kind x p) (under_trans kind p c x k (or_right _ _ h u))
]

-- Conflict does not depend on the order of the two claims.
claims_conflict_sym : (a b : ResourceClaim) → claims_conflict a b ≡ claims_conflict b a
unfolding claims_conflict
claims_conflict_sym a b = ground (
  arith,
  claims_overlap-eq a b,
  claims_overlap-eq b a,
  eq_iff a.kind b.kind,
  eq_iff b.kind a.kind,
  overlap_at_sym a.kind a.scope b.scope a.key b.key,
)

-- The parts of a covering: kinds agree, the mode is strong enough, and the key lies below.
pub covers_parts :
    (p c : ResourceClaim)
    → claim_covers p c ≡ true
    → (p.kind ≡ c.kind)
      × ((is_write p.mode || not (is_write c.mode)) ≡ true)
      × (covers_at p.kind p.scope c.scope p.key c.key ≡ true)
covers_parts p c h =
    let (rest, u) = &&-true _ _ (rw claim_covers-eq at h) in
    let (k, m) = &&-true _ _ rest in ((eq_iff p.kind c.kind).0 k, m, u)

overlap_parts :
    (a b : ResourceClaim)
    → claims_overlap a b ≡ true
    → (a.kind ≡ b.kind) × (overlap_at a.kind a.scope b.scope a.key b.key ≡ true)
overlap_parts a b h =
    let (k, u) = &&-true _ _ (rw claims_overlap-eq at h) in ((eq_iff a.kind b.kind).0 k, u)

overlap_of_parts :
    (a b : ResourceClaim)
    → a.kind ≡ b.kind
    → overlap_at a.kind a.scope b.scope a.key b.key ≡ true
    → claims_overlap a b ≡ true
overlap_of_parts a b k u = rw (claims_overlap-eq, u, (eq_iff a.kind b.kind).1 k)

-- If a parent's claim covers a nested one, what overlaps the nested claim overlaps the parent's.
pub claims_overlap-claim_covers :
    (x child parent : ResourceClaim)
    → claim_covers parent child ≡ true
    → claims_overlap x child ≡ true
    → claims_overlap x parent ≡ true
claims_overlap-claim_covers x child parent h k =
    let (same, mode, below) = covers_parts parent child h in
    let (same', over) = overlap_parts x child k in
    let kinds : x.kind ≡ parent.kind = same' ∙ sym same in
    overlap_of_parts x parent kinds (
      overlap_at-covers_at x.kind x.scope child.scope parent.scope x.key child.key parent.key over
        (rw kinds below))

conflict_of_overlap :
    (o o' x c p : Bool)
    → (o ≡ true → o' ≡ true)
    → (p || not c) ≡ true
    → (if not o then false else x || c) ≡ true
    → (if not o' then false else x || p) ≡ true
conflict_of_overlap o o' x c p f h k = ground arith

-- If a parent's claim covers a nested one, whatever conflicts with the nested claim conflicts with
-- the parent's.
pub claims_conflict-claim_covers :
    (x child parent : ResourceClaim)
    → claim_covers parent child ≡ true
    → claims_conflict x child ≡ true
    → claims_conflict x parent ≡ true
unfolding claims_conflict
claims_conflict-claim_covers x child parent h k =
    let (same, mode, below) = covers_parts parent child h in
    conflict_of_overlap (claims_overlap x child) (claims_overlap x parent) (is_write x.mode)
      (is_write child.mode) (is_write parent.mode) (claims_overlap-claim_covers x child parent h)
      mode k

any_const : (xs : List ResourceClaim) → any (λ _. false) xs ≡ false
any_const [] = refl
any_const (x ∷ xs) = any_const xs

any_or :
    (p q : ResourceClaim → Bool) (xs : List ResourceClaim)
    → any (λ x. p x || q x) xs ≡ (any p xs || any q xs)
any_or p q [] = refl
any_or p q (x ∷ xs) = ground (arith, any_or p q xs)

-- Whether two sets of claims conflict does not depend on their order.
pub claim_sets_conflict_sym :
    (xs ys : List ResourceClaim) → claim_sets_conflict xs ys ≡ claim_sets_conflict ys xs
unfolding claim_sets_conflict
claim_sets_conflict_sym [] ys = sym (any_const ys)
claim_sets_conflict_sym (x ∷ xs) ys =
    ap (λ b. any (λ y. claims_conflict x y) ys || b) (claim_sets_conflict_sym xs ys)
    ∙ ap (λ f. any f ys || any (λ y. any (λ z. claims_conflict y z) xs) ys)
        (fun_ext λ y. claims_conflict_sym x y)
    ∙ sym (any_or (λ y. claims_conflict y x) (λ y. any (λ z. claims_conflict y z) xs) ys)
