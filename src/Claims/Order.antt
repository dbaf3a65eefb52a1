-- ===== src/Claims/Order.antt =====
-- The order that `canonical_claims` sorts by is a strict total order on claims.
use text.Mathlib.TextEquality.{Char-path}
use computerpilot_mcp.Prelude.{
  ℕ, String, Bool, true, false, ◌&&◌, ◌||◌, List, sym, ◌≡◌, ◌↔◌, ◌⊎◌, inl, inr, refl, arith, ltb,
  ◌==◌, ℕ_eq, list_eq, list_beq_iff,
}
use computerpilot_mcp.Prelude.Order.{text_lt, text_lt_irrefl, text_lt_trans, text_lt_total}
use computerpilot_mcp.Prelude.Sorted.{IsStrictOrder}
use computerpilot_mcp.Prelude.Text.{codes}
use computerpilot_mcp.Claims.{ResourceClaim, claim_lt, scope_rank, mode_rank}

pub codes_injective : (s t : String) → codes s ≡ codes t → s ≡ t
codes_injective String.[] String.[] h = refl
codes_injective String.[] (String.◌∷◌ d t) h = cc
codes_injective (String.◌∷◌ c s) String.[] h = cc
codes_injective (String.◌∷◌ c s) (String.◌∷◌ d t) h =
    cc (Char-path c d (cc), codes_injective s t (cc))

abbrev lt_by : List ℕ → List ℕ → Bool → Bool
lt_by a b rest = text_lt a b || a == b && rest

text_iff : (x y : List ℕ) → ((x == y) ≡ true) ↔ (x ≡ y)
text_iff x y = list_beq_iff x y

lt_by_irrefl : (a : List ℕ) (rest : Bool) → rest ≡ false → lt_by a a rest ≡ false
lt_by_irrefl a rest h = ground (arith, text_lt_irrefl a)

lt_by_trans :
    (a b c : List ℕ) (r s t : Bool)
    → (r ≡ true → s ≡ true → t ≡ true)
    → lt_by a b r ≡ true
    → lt_by b c s ≡ true
    → lt_by a c t ≡ true
lt_by_trans a b c r s t f h k =
    ground (arith, text_lt_trans a b c, text_iff a b, text_iff b c, text_iff a c)

lt_by_of_rest : (a b : List ℕ) (r : Bool) → a ≡ b → r ≡ true → lt_by a b r ≡ true
lt_by_of_rest a b r e h = ground (arith, text_iff a b)

lt_by_of_lt : (a b : List ℕ) (r : Bool) → text_lt a b ≡ true → lt_by a b r ≡ true
lt_by_of_lt a b r h = ground arith

lt_by_total :
    {Q : Type 0} (a b : List ℕ) (r s : Bool)
    → (a ≡ b → (r ≡ true) ⊎ (Q ⊎ (s ≡ true)))
    → (lt_by a b r ≡ true) ⊎ (((a ≡ b) × Q) ⊎ (lt_by b a s ≡ true))
lt_by_total a b r s f = elim (text_lt_total a b) [
  | inl h ↦ inl (lt_by_of_lt a b r h)
  | inr (inl e) ↦ elim (f e) [
    | inl h ↦ inl (lt_by_of_rest a b r e h)
    | inr (inl q) ↦ inr (inl (e, q))
    | inr (inr h) ↦ inr (inr (lt_by_of_rest b a s (sym e) h))
  ]
  | inr (inr h) ↦ inr (inr (lt_by_of_lt b a s h))
]

abbrev rank_lt : ResourceClaim → ResourceClaim → Bool
rank_lt a b =
    ltb (scope_rank a.scope) (scope_rank b.scope)
    || scope_rank a.scope == scope_rank b.scope && ltb (mode_rank a.mode) (mode_rank b.mode)

rank_lt_trans :
    (a b c : ResourceClaim) → rank_lt a b ≡ true → rank_lt b c ≡ true → rank_lt a c ≡ true
rank_lt_trans a b c h k = ground arith

abbrev SameRanks : ResourceClaim → ResourceClaim → Type 0
SameRanks a b = (a.scope ≡ b.scope) × (a.mode ≡ b.mode)

rank_lt_total :
    (a b : ResourceClaim) → (rank_lt a b ≡ true) ⊎ (SameRanks a b ⊎ (rank_lt b a ≡ true))
rank_lt_total a b = ground arith

claims_equal : (a b : ResourceClaim) → a.kind ≡ b.kind → a.key ≡ b.key → SameRanks a b → a ≡ b
claims_equal a b k l r = ground arith

claim_lt_irrefl : (a : ResourceClaim) → claim_lt a a ≡ false
unfolding claim_lt
claim_lt_irrefl a =
    lt_by_irrefl (codes a.kind) _ (lt_by_irrefl (codes a.key) (rank_lt a a) (ground arith))

claim_lt_trans :
    (a b c : ResourceClaim) → claim_lt a b ≡ true → claim_lt b c ≡ true → claim_lt a c ≡ true
unfolding claim_lt
claim_lt_trans a b c h k =
    lt_by_trans (codes a.kind) (codes b.kind) (codes c.kind) _ _ _
      (lt_by_trans (codes a.key) (codes b.key) (codes c.key) _ _ _ (rank_lt_trans a b c)) h k

claim_lt_total : (a b : ResourceClaim) → (claim_lt a b ≡ true) ⊎ ((a ≡ b) ⊎ (claim_lt b a ≡ true))
unfolding claim_lt
claim_lt_total a b =
    elim (lt_by_total (codes a.kind) (codes b.kind) _ _
      (λ _. lt_by_total (codes a.key) (codes b.key) _ _ (λ _. rank_lt_total a b))) [
        | inl h ↦ inl h
        | inr (inl (kinds, (keys, ranks))) ↦ inr (
            inl (
              claims_equal a b (codes_injective a.kind b.kind kinds)
                (codes_injective a.key b.key keys) ranks))
        | inr (inr h) ↦ inr (inr h)
      ]

pub claim_lt-IsStrictOrder : IsStrictOrder claim_lt
claim_lt-IsStrictOrder = record {
  irrefl = claim_lt_irrefl;
  trans = claim_lt_trans;
  total = claim_lt_total;
}
