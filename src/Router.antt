-- ===== src/Router.antt =====
-- core/execution_router.py and core/execution_models.py: the candidates for a route, why one is
-- rejected, and which one is recommended. Names are as their classes have normalised them; a
-- candidate that breaks the bounds of its class is not built. Reasons and checks are data, where
-- the code has texts.
pub mod Sorting
pub mod Recommend
pub mod Allowed
pub mod Selected
use computerpilot_mcp.Prelude.{
  ℕ, ◌+◌, ◌-◌, String, Bool, true, false, not, ◌&&◌, ◌||◌, List, [], ◌∷◌, ◌++◌, map, Option, none,
  some, ◌==◌, ℕ_eq, string_eq, length, take, keep_if, contains, ltb, leb, min, max, if◌then◌else◌,
}
use computerpilot_mcp.Prelude.Order.{text_lt}
use computerpilot_mcp.Prelude.Text.{codes}
use computerpilot_mcp.Prelude.Result.{Result, ok, err, raise, require, ◌>>=◌, ◌>>◌}

pub data RouteClass : Type 0 where
  native_filesystem native_code native_git native_process native_system native_excel native_docx
        native_pdf semantic_browser semantic_windows_uia visual_desktop raw_desktop external_mcp :
      RouteClass

-- route.value
abbrev pub route_text : RouteClass → String
route_text native_filesystem = "native.filesystem"
route_text native_code = "native.code"
route_text native_git = "native.git"
route_text native_process = "native.process"
route_text native_system = "native.system"
route_text native_excel = "native.excel"
route_text native_docx = "native.docx"
route_text native_pdf = "native.pdf"
route_text semantic_browser = "semantic.browser"
route_text semantic_windows_uia = "semantic.windows_uia"
route_text visual_desktop = "visual.desktop"
route_text raw_desktop = "raw.desktop"
route_text external_mcp = "external.mcp"

pub data RiskClass : Type 0 where
  low medium high : RiskClass

pub data RecoverabilityClass : Type 0 where
  weak medium strong : RecoverabilityClass

abbrev pub recoverability_rank : RecoverabilityClass → ℕ
recoverability_rank weak = 1
recoverability_rank RecoverabilityClass.medium = 2
recoverability_rank strong = 3

abbrev pub risk_rank : RiskClass → ℕ
risk_rank low = 1
risk_rank RiskClass.medium = 2
risk_rank high = 3

pub record ExternalRouteMetadata : Type 0 where
  pub extension_id : String
  pub provider : String
  pub catalog_generation : ℕ

pub record ExecutionIntent : Type 0 where
  pub name : String
  pub destructive : Bool
  pub semantic_ambiguous : Bool
  pub semantic_stale : Bool
  pub requires_macro_preservation : Bool
  pub allow_raw_desktop : Bool
  pub preferred_tool : Option String

-- An entry of capability_checks.
pub data Check : Type 0 where
  tool_check capability_check : String → Bool → Check

pub data Reason : Type 0 where
  satisfied tool_missing capability_missing not_in_catalog hard : Reason

pub record RouteCandidate : Type 0 where
  pub route : RouteClass
  pub representative_tool : String
  pub determinism : ℕ
  pub risk : RiskClass
  pub recoverability : RecoverabilityClass
  pub capability_confidence : ℕ
  pub cost_tier : ℕ
  pub latency_tier : ℕ
  pub fallback_level : ℕ
  pub capability_checks : List Check
  pub supported : Bool
  pub reason : Reason
  pub rejection_code : Option String
  pub preserves_macros : Bool
  pub external_metadata : Option ExternalRouteMetadata

-- IntentRouteRule of core/tool_catalog.py
pub record IntentRouteRule : Type 0 where
  pub route : RouteClass
  pub representative_tool : String
  pub determinism : ℕ
  pub risk : RiskClass
  pub recoverability : RecoverabilityClass
  pub capability_confidence : ℕ
  pub cost_tier : ℕ
  pub latency_tier : ℕ
  pub fallback_level : ℕ
  pub required_capabilities : List String
  pub preserves_macros : Bool

-- The state of an ExecutionRouter: the names that are registered, and the capabilities that the
-- platform has, by name.
pub record ExecutionRouter : Type 0 where
  pub registered_tools : String → Bool
  pub capabilities : String → Bool
  pub policy_version : String
  pub enabled : Bool

unfoldable pub validate_policy : ExecutionRouter → Result (Unit {0})
validate_policy router = do
  require router.enabled "execution_router_disabled"
  require (router.policy_version == "deterministic-v1") "unsupported_router_policy"

abbrev pub is_semantic : RouteClass → Bool
is_semantic semantic_browser = true
is_semantic semantic_windows_uia = true
is_semantic _ = false

abbrev pub is_visual : RouteClass → Bool
is_visual visual_desktop = true
is_visual _ = false

abbrev pub is_raw : RouteClass → Bool
is_raw raw_desktop = true
is_raw _ = false

-- _hard_rejection, its code
unfoldable pub hard_rejection : ExecutionIntent → RouteClass → Bool → Option String
hard_rejection intent route preserves_macros =
    if is_visual route
    then some "visual_route_unavailable"
    else if intent.semantic_stale && (is_semantic route || is_raw route)
    then some "stale_semantic_reference"
    else if intent.destructive && intent.semantic_ambiguous && is_semantic route
    then some "destructive_semantic_ambiguous"
    else if is_raw route && intent.destructive
    then some "destructive_raw_desktop_forbidden"
    else if is_raw route && not intent.allow_raw_desktop
    then some "raw_desktop_not_allowed"
    else if intent.requires_macro_preservation && not preserves_macros
    then some "macro_preservation_unsupported"
    else none

abbrev reject : String → Reason → RouteCandidate → RouteCandidate
reject code reason c = record c { supported = false; rejection_code = some code; reason = reason }

abbrev pub capability_checks_of : ExecutionRouter → List String → List Check
capability_checks_of router [] = []
capability_checks_of router (name ∷ names) =
    capability_check name (router.capabilities name) ∷ capability_checks_of router names

abbrev pub has_capabilities : ExecutionRouter → List String → Bool
has_capabilities router [] = true
has_capabilities router (name ∷ names) = router.capabilities name && has_capabilities router names

-- The candidate of a rule, before the hard rejections.
abbrev pub base_candidate : ExecutionRouter → IntentRouteRule → RouteCandidate
base_candidate router rule =
    let registered = router.registered_tools rule.representative_tool in
    let capable = has_capabilities router rule.required_capabilities in
    record {
      route = rule.route;
      representative_tool = rule.representative_tool;
      determinism = rule.determinism;
      risk = rule.risk;
      recoverability = rule.recoverability;
      capability_confidence = rule.capability_confidence;
      cost_tier = rule.cost_tier;
      latency_tier = rule.latency_tier;
      fallback_level = rule.fallback_level;
      capability_checks =
          tool_check rule.representative_tool registered
          ∷ capability_checks_of router rule.required_capabilities;
      supported = registered && capable;
      reason =
          if not registered
          then tool_missing
          else if not capable
          then capability_missing
          else satisfied;
      rejection_code =
          if not registered
          then some "tool_unavailable"
          else if not capable
          then some "capability_unavailable"
          else none;
      preserves_macros = rule.preserves_macros;
      external_metadata = none;
    }

-- `if candidate.supported: ...`, with the rejection that applies
abbrev pub settle_candidate : Option String → Reason → RouteCandidate → RouteCandidate
settle_candidate none reason c = c
settle_candidate (some code) reason c = if c.supported then reject code reason c else c

unfoldable pub candidate : ExecutionRouter → ExecutionIntent → IntentRouteRule → RouteCandidate
unfolding hard_rejection
candidate router intent rule =
    settle_candidate (hard_rejection intent rule.route rule.preserves_macros) hard
      (base_candidate router rule)

-- A candidate of the extension manager.
unfoldable pub external_candidate :
    ExecutionRouter → ExecutionIntent → RouteCandidate → RouteCandidate
unfolding hard_rejection
external_candidate router intent c =
    if not (router.registered_tools c.representative_tool)
    then settle_candidate (some "tool_unavailable") not_in_catalog c
    else settle_candidate (hard_rejection intent c.route c.preserves_macros) hard c
