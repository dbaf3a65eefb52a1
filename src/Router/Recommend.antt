-- ===== src/Router/Recommend.antt =====
-- core/execution_router.py: the order of the candidates, and the recommendation.
use computerpilot_mcp.Prelude.{
  ℕ, String, Bool, not, List, [], ◌∷◌, ◌++◌, map, Option, none, some, string_eq, length, take,
  keep_if, ltb, min, max,
}
use computerpilot_mcp.Prelude.Order.{text_lt}
use computerpilot_mcp.Prelude.Text.{codes}
use computerpilot_mcp.Prelude.Result.{Result, ok, raise, ◌>>=◌, ◌>>◌}
use computerpilot_mcp.Router.{
  RouteCandidate, IntentRouteRule, ExecutionIntent, ExecutionRouter, route_text,
  recoverability_rank, risk_rank, candidate, external_candidate, validate_policy,
}
use computerpilot_mcp.Router.Sorting.{then_by, sort_by}

abbrev pub by_number : (RouteCandidate → ℕ) → RouteCandidate → RouteCandidate → Bool
by_number f a b = ltb (f a) (f b)

-- The key is negated.
abbrev pub by_larger : (RouteCandidate → ℕ) → RouteCandidate → RouteCandidate → Bool
by_larger f a b = ltb (f b) (f a)

abbrev pub by_text : (RouteCandidate → String) → RouteCandidate → RouteCandidate → Bool
by_text f a b = text_lt (codes (f a)) (codes (f b))

-- _sort_key, as the comparison of two keys
unfoldable pub sorts_before : RouteCandidate → RouteCandidate → Bool
sorts_before = then_by (by_larger (λ c. c.determinism)) (
    then_by (by_larger (λ c. recoverability_rank c.recoverability)) (
      then_by (by_number (λ c. risk_rank c.risk)) (
        then_by (by_larger (λ c. c.capability_confidence)) (
          then_by (by_number (λ c. c.cost_tier)) (
            then_by (by_number (λ c. c.latency_tier)) (
              then_by (by_text (λ c. route_text c.route))
                (by_text (λ c. c.representative_tool))))))))

-- The key of the rejected ones.
unfoldable pub rejected_before : RouteCandidate → RouteCandidate → Bool
rejected_before =
    then_by (by_number (λ c. c.fallback_level))
      (then_by (by_text (λ c. route_text c.route)) (by_text (λ c. c.representative_tool)))

-- The candidates of the rules and of the extension manager, before the sort. `rules` is `none` for
-- an intent that is not known.
unfoldable pub unsorted_candidates :
    ExecutionRouter
    → ExecutionIntent
    → Option (List IntentRouteRule)
    → List RouteCandidate
    → Result (List RouteCandidate)
unfolding candidate external_candidate
unsorted_candidates router intent none [] = raise "unknown_execution_intent"
unsorted_candidates router intent none (c ∷ cs) =
    ok (map (external_candidate router intent) (c ∷ cs))
unsorted_candidates router intent (some rules) external =
    ok (map (candidate router intent) rules ++ map (external_candidate router intent) external)

abbrev pub supported_of : List RouteCandidate → List RouteCandidate
supported_of = keep_if (λ c. c.supported)

unfoldable pub order_candidates : List RouteCandidate → List RouteCandidate
unfolding sorts_before rejected_before
order_candidates items =
    sort_by sorts_before (supported_of items)
    ++ sort_by rejected_before (keep_if (λ c. not c.supported) items)

-- The parts of the answer that follow from the candidates.
pub record Recommendation : Type 0 where
  pub selected : Option RouteCandidate
  pub valid_count : ℕ
  pub total : ℕ
  pub items : List RouteCandidate
  pub truncated : Bool

abbrev pub first_of : List RouteCandidate → Option RouteCandidate
first_of [] = none
first_of (c ∷ cs) = some c

-- `max_candidates` is not negative here; the bound is min(max(n, 1), 25).
abbrev pub recommend_of : ℕ → List RouteCandidate → Recommendation
recommend_of max_candidates all_candidates =
    let valid = supported_of all_candidates in
    let returned = take (min (max max_candidates 1) 25) all_candidates in
    record {
      selected = first_of valid;
      valid_count = length valid;
      total = length all_candidates;
      items = returned;
      truncated = ltb (length returned) (length all_candidates);
    }

unfoldable pub recommend :
    ExecutionRouter
    → ExecutionIntent
    → Option (List IntentRouteRule)
    → List RouteCandidate
    → ℕ
    → Result Recommendation
unfolding validate_policy unsorted_candidates order_candidates
recommend router intent rules external max_candidates = do
  validate_policy router
  items ← unsorted_candidates router intent rules external
  ok (recommend_of max_candidates (order_candidates items))
