-- ===== src/Router/Selected.antt =====
-- The route that is recommended is supported, passes every hard rejection, and comes first.
use mathlib.Core.Path.{subst}
use mathlib.Core.Option.{some-ne-none, some-injective}
use computerpilot_mcp.Prelude.{
  ℕ, String, Bool, true, false, not, ◌&&◌, ◌||◌, List, [], ◌∷◌, ◌++◌, Option, some, ◌≡◌, inl, inr,
  refl, sym, ◌∙◌, arith, ap, string_eq, All, All-map, keep_if, Bool-cases,
}
use computerpilot_mcp.Prelude.Order.{text_lt, text_lt_irrefl, text_lt_trans, text_lt_total}
use computerpilot_mcp.Prelude.Quantify.{Any, All-here, All-keep_if}
use computerpilot_mcp.Prelude.Table.{All-zip}
use computerpilot_mcp.Prelude.Text.{codes}
use computerpilot_mcp.Prelude.Result.{ok, ◌>>=◌, >>=-eq-ok, ok-injective}
use computerpilot_mcp.Router.{
  is_visual, is_raw, is_semantic, RouteCandidate, IntentRouteRule, ExecutionIntent, ExecutionRouter,
  route_text, recoverability_rank, risk_rank, validate_policy, hard_rejection,
}
use computerpilot_mcp.Router.Sorting.{
  sort_by, IsWeakOrder, IsWeakOrder-then_by, All-sort_by, All-of-sort_by, LeastFirst,
  LeastFirst-sort_by,
}
use computerpilot_mcp.Router.Recommend.{
  by_number, by_larger, by_text, sorts_before, rejected_before, unsorted_candidates, supported_of,
  order_candidates, Recommendation, first_of, recommend_of, recommend,
}
use computerpilot_mcp.Router.Allowed.{IsAllowed, unsorted-IsAllowed}

IsWeakOrder-by_number : (f : RouteCandidate → ℕ) → IsWeakOrder (by_number f)
IsWeakOrder-by_number f = record {
  asym = λ a b h. ground arith;
  cotrans = λ a b c h k. ground arith;
}

IsWeakOrder-by_larger : (f : RouteCandidate → ℕ) → IsWeakOrder (by_larger f)
IsWeakOrder-by_larger f = record {
  asym = λ a b h. ground arith;
  cotrans = λ a b c h k. ground arith;
}

text_lt_asym : (a b : List ℕ) → text_lt a b ≡ true → text_lt b a ≡ false
text_lt_asym a b h = ground (arith, text_lt_irrefl a, text_lt_trans a b a)

text_lt_cotrans : (a b c : List ℕ) → text_lt a b ≡ false → text_lt b c ≡ false → text_lt a c ≡ false
text_lt_cotrans a b c h k = elim (text_lt_total a b) [
  | inl e ↦ ground arith
  | inr (inl e) ↦ subst (λ x. text_lt x c ≡ false) (sym e) k
  | inr (inr e) ↦ elim (text_lt_total b c) [
    | inl f ↦ ground arith
    | inr (inl f) ↦ subst (λ x. text_lt a x ≡ false) f h
    | inr (inr f) ↦ text_lt_asym c a (text_lt_trans c b a f e)
  ]
]

IsWeakOrder-by_text : (f : RouteCandidate → String) → IsWeakOrder (by_text f)
IsWeakOrder-by_text f = record {
  asym = λ a b h. text_lt_asym (codes (f a)) (codes (f b)) h;
  cotrans = λ a b c h k. text_lt_cotrans (codes (f a)) (codes (f b)) (codes (f c)) h k;
}

IsWeakOrder-sorts_before : IsWeakOrder sorts_before
unfolding sorts_before
IsWeakOrder-sorts_before = IsWeakOrder-then_by _ _ (IsWeakOrder-by_larger (λ c. c.determinism)) (
    IsWeakOrder-then_by _ _ (IsWeakOrder-by_larger (λ c. recoverability_rank c.recoverability)) (
      IsWeakOrder-then_by _ _ (IsWeakOrder-by_number (λ c. risk_rank c.risk)) (
        IsWeakOrder-then_by _ _ (IsWeakOrder-by_larger (λ c. c.capability_confidence)) (
          IsWeakOrder-then_by _ _ (IsWeakOrder-by_number (λ c. c.cost_tier)) (
            IsWeakOrder-then_by _ _ (IsWeakOrder-by_number (λ c. c.latency_tier)) (
              IsWeakOrder-then_by _ _ (IsWeakOrder-by_text (λ c. route_text c.route))
                (IsWeakOrder-by_text (λ c. c.representative_tool))))))))

module _ {ℓ} {A : Type ℓ} (p : A → Bool) where
  kept_front :
      (xs ys : List A)
      → All (λ x. p x ≡ true) xs
      → All (λ x. p x ≡ false) ys
      → keep_if p (xs ++ ys) ≡ xs
  kept_front [] [] h k = refl
  kept_front [] (y ∷ ys) h k = rw k.0 (kept_front [] ys tt k.1)
  kept_front (x ∷ xs) ys h k = rw h.0 (ap (λ zs. x ∷ zs) (kept_front xs ys h.1 k))

  kept_true : (xs : List A) → All (λ x. p x ≡ true) (keep_if p xs)
  kept_true [] = tt
  kept_true (x ∷ xs) = elim (Bool-cases (p x)) [
    | inl e ↦ rw e (e, kept_true xs)
    | inr e ↦ rw e (kept_true xs)
  ]

  kept_all :
      (P : A → Type 0) (xs : List A)
      → All (λ x. p x ≡ true → P x) xs
      → All (λ x. (p x ≡ true) × P x) (keep_if p xs)
  kept_all P [] h = tt
  kept_all P (x ∷ xs) h = elim (Bool-cases (p x)) [
    | inl e ↦ rw e ((e, h.0 e), kept_all P xs h.1)
    | inr e ↦ rw e (kept_all P xs h.1)
  ]

supported_of-order_candidates :
    (items : List RouteCandidate)
    → supported_of (order_candidates items) ≡ sort_by sorts_before (supported_of items)
unfolding order_candidates
supported_of-order_candidates items =
    kept_front (λ c. c.supported) (sort_by sorts_before (supported_of items))
      (sort_by rejected_before (keep_if (λ c. not c.supported) items))
      (All-sort_by sorts_before (λ x. x.supported ≡ true) (supported_of items)
        (kept_true (λ c. c.supported) items))
      (All-sort_by rejected_before (λ x. x.supported ≡ false) (keep_if (λ c. not c.supported) items)
        (All-map (λ x. not x.supported ≡ true) (λ x. x.supported ≡ false) (λ x h. ground arith)
          (keep_if (λ c. not c.supported) items) (kept_true (λ c. not c.supported) items)))

sorts_before_irrefl : (y : RouteCandidate) → sorts_before y y ≡ false
sorts_before_irrefl y = elim (Bool-cases (sorts_before y y)) [
  | inl e ↦ IsWeakOrder-sorts_before.asym y y e
  | inr e ↦ e
]

-- What is true of all members is true of the first one, and none is before it.
first_best :
    (P : RouteCandidate → Type 0) (xs : List RouteCandidate) (c : RouteCandidate)
    → All P (sort_by sorts_before xs)
    → first_of (sort_by sorts_before xs) ≡ some c
    → P c × All (λ y. sorts_before y c ≡ false) (sort_by sorts_before xs)
first_best P xs c h e =
    go (sort_by sorts_before xs) h e (LeastFirst-sort_by sorts_before IsWeakOrder-sorts_before xs)
  where
    go :
        (ys : List RouteCandidate)
        → All P ys
        → first_of ys ≡ some c
        → LeastFirst sorts_before ys
        → P c × All (λ y. sorts_before y c ≡ false) ys
    go [] h e l = absurd (some-ne-none c (sym e))
    go (y ∷ ys) h e l =
        subst (λ x. P x × All (λ z. sorts_before z x ≡ false) (y ∷ ys)) (some-injective y c e)
          (h.0, (sorts_before_irrefl y, l))

-- A recommended route is one of the candidates of the rules and the external servers, as it was made:
-- it is supported, its tool is registered and no hard rejection applies to it; and no supported
-- candidate sorts before it.
pub recommended_is_best :
    (router : ExecutionRouter) (intent : ExecutionIntent) (rules : Option (List IntentRouteRule))
    (external : List RouteCandidate) (n : ℕ) (r : Recommendation) (c : RouteCandidate)
    → recommend router intent rules external n ≡ ok r
    → r.selected ≡ some c
    → (items : List RouteCandidate) × (unsorted_candidates router intent rules external ≡ ok items)
      × Any (λ x. x ≡ c) items
      × (c.supported ≡ true)
      × IsAllowed router intent c
      × All (λ x. x.supported ≡ true → sorts_before x c ≡ false) items
unfolding recommend
recommended_is_best router intent rules external n r c h e =
    let (_, _, h1) =
      >>=-eq-ok (validate_policy router)
        (λ _. unsorted_candidates router intent rules external >>= λ items.
          ok (recommend_of n (order_candidates items)))
        h in
    let (items, made, h2) =
      >>=-eq-ok (unsorted_candidates router intent rules external)
        (λ items. ok (recommend_of n (order_candidates items))) h1 in
    let first =
      sym (ap first_of (supported_of-order_candidates items))
      ∙ ap (λ x. x.selected) (ok-injective h2)
      ∙ e in
    let P = λ (x : RouteCandidate). Any (λ y. y ≡ x) items × IsAllowed router intent x in
    let candidates =
      All-zip (λ x. Any (λ y. y ≡ x) items) (λ x. x.supported ≡ true → IsAllowed router intent x)
        items (All-here items) (unsorted-IsAllowed router intent rules external items made) in
    let ((supported, (member, allowed)), least) =
      first_best (λ x. (x.supported ≡ true) × P x) (supported_of items) c
        (All-sort_by sorts_before (λ x. (x.supported ≡ true) × P x) (supported_of items)
          (kept_all (λ x. x.supported) P items
            (All-map
              (λ x. Any (λ y. y ≡ x) items × (x.supported ≡ true → IsAllowed router intent x))
              (λ x. x.supported ≡ true → P x) (λ x k s. (k.0, k.1 s)) items candidates)))
        first in
    (
      items,
      made,
      member,
      supported,
      allowed,
      All-keep_if (λ x. sorts_before x c ≡ false) (λ x. x.supported) items
          (All-of-sort_by sorts_before (λ x. sorts_before x c ≡ false) (supported_of items) least),
    )

allowed_route :
    (router : ExecutionRouter) (intent : ExecutionIntent) (c : RouteCandidate)
    → IsAllowed router intent c
    → (is_visual c.route ≡ false)
      × (is_raw c.route ≡ true → (intent.allow_raw_desktop ≡ true) × (intent.destructive ≡ false))
      × (intent.semantic_stale ≡ true → (is_semantic c.route || is_raw c.route) ≡ false)
      × ((intent.destructive && intent.semantic_ambiguous) ≡ true → is_semantic c.route ≡ false)
      × (intent.requires_macro_preservation ≡ true → c.preserves_macros ≡ true)
unfolding hard_rejection
allowed_route router intent c allowed =
    let passes = allowed.passes in
    (
      ground arith,
      λ h. (ground arith, ground arith),
      λ h. ground arith,
      λ h. ground arith,
      λ h. ground arith,
    )

-- A recommended route is never the visual one; it is the raw desktop only if the intent permits that
-- and is not destructive; a stale reference is answered by neither a semantic route nor the raw
-- desktop, an ambiguous destructive intent by no semantic route; and macros are preserved where
-- that is required.
pub recommended_is_safe :
    (router : ExecutionRouter) (intent : ExecutionIntent) (rules : Option (List IntentRouteRule))
    (external : List RouteCandidate) (n : ℕ) (r : Recommendation) (c : RouteCandidate)
    → recommend router intent rules external n ≡ ok r
    → r.selected ≡ some c
    → (is_visual c.route ≡ false)
      × (is_raw c.route ≡ true → (intent.allow_raw_desktop ≡ true) × (intent.destructive ≡ false))
      × (intent.semantic_stale ≡ true → (is_semantic c.route || is_raw c.route) ≡ false)
      × ((intent.destructive && intent.semantic_ambiguous) ≡ true → is_semantic c.route ≡ false)
      × (intent.requires_macro_preservation ≡ true → c.preserves_macros ≡ true)
recommended_is_safe router intent rules external n r c h e =
    let (_, _, _, _, allowed, _) = recommended_is_best router intent rules external n r c h e in
    allowed_route router intent c allowed
