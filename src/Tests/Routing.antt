-- ===== src/Tests/Routing.antt =====
-- Two routes for one intent, and the theorems on the recommendation at that run.
use computerpilot_mcp.Prelude.{
  true, false, ◌&&◌, ◌||◌, List, [], ◌∷◌, Option, none, some, ◌≡◌, refl, ◌==◌, string_eq, All,
}
use computerpilot_mcp.Prelude.Quantify.{Any}
use computerpilot_mcp.Prelude.Result.{Result, ok, err}
use computerpilot_mcp.Router.{
  RouteCandidate, IntentRouteRule, ExecutionIntent, ExecutionRouter, native_git, raw_desktop, low,
  strong, is_visual, is_raw, is_semantic, base_candidate,
}
use computerpilot_mcp.Router.Recommend.{
  Recommendation, sorts_before, unsorted_candidates, recommend,
}
use computerpilot_mcp.Router.Allowed.{IsAllowed}
use computerpilot_mcp.Router.Selected.{recommended_is_best, recommended_is_safe}

abbrev router : ExecutionRouter
router = record {
  registered_tools = λ tool. tool == "git_status" || tool == "click";
  capabilities = λ name. name == "desktop";
  policy_version = "deterministic-v1";
  enabled = true;
}

abbrev intent : ExecutionIntent
intent = record {
  name = "git.status";
  destructive = true;
  semantic_ambiguous = false;
  semantic_stale = false;
  requires_macro_preservation = false;
  allow_raw_desktop = true;
  preferred_tool = none;
}

abbrev git_rule : IntentRouteRule
git_rule = record {
  route = native_git;
  representative_tool = "git_status";
  determinism = 4;
  risk = low;
  recoverability = strong;
  capability_confidence = 5;
  cost_tier = 1;
  latency_tier = 1;
  fallback_level = 0;
  required_capabilities = [];
  preserves_macros = false;
}

abbrev raw_rule : IntentRouteRule
raw_rule = record git_rule {
  route = raw_desktop;
  representative_tool = "click";
  determinism = 5;
  required_capabilities = "desktop" ∷ [];
}

abbrev rules : Option (List IntentRouteRule)
rules = some (raw_rule ∷ git_rule ∷ [])

abbrev nothing : Recommendation
nothing = record { selected = none; valid_count = 0; total = 0; items = []; truncated = false }

abbrev value : Result Recommendation → Recommendation
value (ok r) = r
value (err e) = nothing

recommendation : Recommendation
unfolding recommend
recommendation = value (recommend router intent rules [] 8)

recommended : recommend router intent rules [] 8 ≡ ok recommendation
unfolding recommend recommendation
recommended = refl

abbrev chosen : RouteCandidate
chosen = base_candidate router git_rule

recommended_is_best_example :
    (items : List RouteCandidate) × (unsorted_candidates router intent rules [] ≡ ok items)
    × Any (λ x. x ≡ chosen) items
    × (chosen.supported ≡ true)
    × IsAllowed router intent chosen
    × All (λ x. x.supported ≡ true → sorts_before x chosen ≡ false) items
unfolding recommendation recommend
recommended_is_best_example =
    recommended_is_best router intent rules [] 8 recommendation chosen recommended refl

recommended_is_safe_example :
    (is_visual chosen.route ≡ false)
    × (is_raw chosen.route ≡ true
        → (intent.allow_raw_desktop ≡ true) × (intent.destructive ≡ false))
    × (intent.semantic_stale ≡ true → (is_semantic chosen.route || is_raw chosen.route) ≡ false)
    × ((intent.destructive && intent.semantic_ambiguous) ≡ true → is_semantic chosen.route ≡ false)
    × (intent.requires_macro_preservation ≡ true → chosen.preserves_macros ≡ true)
unfolding recommendation recommend
recommended_is_safe_example =
    recommended_is_safe router intent rules [] 8 recommendation chosen recommended refl
