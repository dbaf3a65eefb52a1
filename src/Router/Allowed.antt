-- ===== src/Router/Allowed.antt =====
-- A candidate that is supported has a registered tool and passes every hard rejection.
use mathlib.Core.Path.{subst}
use mathlib.Core.Option.{some-ne-none}
use computerpilot_mcp.Prelude.{
  String, true, false, List, [], ◌∷◌, map, Option, none, some, ◌≡◌, inl, inr, refl, sym, ◌∙◌, arith,
  string_eq, All, All-append, Bool-cases,
}
use computerpilot_mcp.Prelude.Result.{ok, ok-injective, err-ne-ok}
use computerpilot_mcp.Router.{
  RouteCandidate, IntentRouteRule, ExecutionIntent, ExecutionRouter, candidate, external_candidate,
  hard_rejection, base_candidate, settle_candidate, Reason, hard, not_in_catalog,
}
use computerpilot_mcp.Router.Recommend.{unsorted_candidates}

-- What a supported candidate has passed.
pub record IsAllowed (router : ExecutionRouter) (intent : ExecutionIntent) (c : RouteCandidate)
    : Type 0 where
  pub passes : hard_rejection intent c.route c.preserves_macros ≡ none
  pub registered : router.registered_tools c.representative_tool ≡ true

-- A candidate that is still supported was not rejected.
settled_supported :
    (code : Option String) (reason : Reason) (c : RouteCandidate)
    → (settle_candidate code reason c).supported ≡ true
    → (code ≡ none) × (settle_candidate code reason c ≡ c) × (c.supported ≡ true)
settled_supported none reason c h = (refl, refl, h)
settled_supported (some code) reason c h = elim (Bool-cases c.supported) [
  | inl e ↦ absurd (ground arith)
  | inr e ↦ absurd (ground arith)
]

module _ (router : ExecutionRouter) (intent : ExecutionIntent) where
  candidate-IsAllowed :
      (rule : IntentRouteRule)
      → (candidate router intent rule).supported ≡ true
      → IsAllowed router intent (candidate router intent rule)
  unfolding candidate
  candidate-IsAllowed rule h =
      let (free, same, supported) =
        settled_supported (hard_rejection intent rule.route rule.preserves_macros) hard
          (base_candidate router rule) h in
      subst (IsAllowed router intent) (sym same)
        (record { passes = free; registered = ground arith })

  external_listed :
      (c : RouteCandidate)
      → router.registered_tools c.representative_tool ≡ true
      → (external_candidate router intent c).supported ≡ true
      → IsAllowed router intent (external_candidate router intent c)
  unfolding external_candidate
  external_listed c e h =
      let q : external_candidate router intent c
          ≡ settle_candidate (hard_rejection intent c.route c.preserves_macros) hard c =
        rw e refl in
      let (free, same, _) =
        settled_supported (hard_rejection intent c.route c.preserves_macros) hard c
          (subst (λ x. x.supported ≡ true) q h) in
      subst (IsAllowed router intent) (sym (q ∙ same)) (record { passes = free; registered = e })

  external_unlisted :
      (c : RouteCandidate)
      → router.registered_tools c.representative_tool ≡ false
      → (external_candidate router intent c).supported ≡ true
      → IsAllowed router intent (external_candidate router intent c)
  unfolding external_candidate
  external_unlisted c e h =
      let q : external_candidate router intent c
          ≡ settle_candidate (some "tool_unavailable") not_in_catalog c =
        rw e refl in
      absurd (
        some-ne-none "tool_unavailable"
          (settled_supported (some "tool_unavailable") not_in_catalog c
            (subst (λ x. x.supported ≡ true) q h)).0)

  external_candidate-IsAllowed :
      (c : RouteCandidate)
      → (external_candidate router intent c).supported ≡ true
      → IsAllowed router intent (external_candidate router intent c)
  external_candidate-IsAllowed c h =
      elim (Bool-cases (router.registered_tools c.representative_tool)) [
        | inl e ↦ external_listed c e h
        | inr e ↦ external_unlisted c e h
      ]

  all_candidates :
      (rules : List IntentRouteRule)
      → All
          (λ x. x.supported ≡ true → IsAllowed router intent x)
          (map (candidate router intent) rules)
  all_candidates [] = tt
  all_candidates (rule ∷ rules) = (candidate-IsAllowed rule, all_candidates rules)

  all_external :
      (cs : List RouteCandidate)
      → All
          (λ x. x.supported ≡ true → IsAllowed router intent x)
          (map (external_candidate router intent) cs)
  all_external [] = tt
  all_external (c ∷ cs) = (external_candidate-IsAllowed c, all_external cs)

  pub unsorted-IsAllowed :
      (rules : Option (List IntentRouteRule)) (external items : List RouteCandidate)
      → unsorted_candidates router intent rules external ≡ ok items
      → All (λ x. x.supported ≡ true → IsAllowed router intent x) items
  unfolding unsorted_candidates
  unsorted-IsAllowed none [] items h = absurd (err-ne-ok h)
  unsorted-IsAllowed none (c ∷ cs) items h =
      subst (All (λ x. x.supported ≡ true → IsAllowed router intent x)) (ok-injective h)
        (all_external (c ∷ cs))
  unsorted-IsAllowed (some rules) external items h =
      subst (All (λ x. x.supported ≡ true → IsAllowed router intent x)) (ok-injective h) (
        All-append _ (map (candidate router intent) rules)
          (map (external_candidate router intent) external) (all_candidates rules)
          (all_external external))
