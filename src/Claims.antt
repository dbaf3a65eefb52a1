-- ===== src/Claims.antt =====
-- core/resource_claims.py: the claims on resources that a managed action makes, when two of them
-- overlap or conflict, and when a parent's claim covers a nested one.
pub mod Path
pub mod Order
pub mod Prefix
pub mod Conflict
pub mod Cover
pub mod Nesting
pub mod Canonical
use computerpilot_mcp.Prelude.{
  ℕ, String, Bool, true, false, not, ◌&&◌, ◌||◌, List, [], ◌∷◌, ◌≡◌, ◌↔◌, arith, min, length, take,
  any, keep_if, ltb, Option, none, some, ◌==◌, Eq, string_eq, ℕ_eq, list_eq, if◌then◌else◌, eq_iff,
}
use computerpilot_mcp.Prelude.Order.{text_lt}
use computerpilot_mcp.Prelude.Sorted.{set_of, sorted}
use computerpilot_mcp.Prelude.Text.{codes, text_length, split, replace}
use computerpilot_mcp.Prelude.Result.{Result, ok, err, value_error, ◌>>=◌, ◌>>◌}
use Path.{NormPath, CommonPath, normpath, same_path, commonpath, common_is}

pub data ClaimMode : Type 0 where
  read write : ClaimMode

pub data ClaimScope : Type 0 where
  exact subtree : ClaimScope

pub record ResourceClaim : Type 0 where
  pub kind : String
  pub key : String
  pub mode : ClaimMode
  pub scope : ClaimScope

abbrev pub is_write : ClaimMode → Bool
is_write read = false
is_write write = true

abbrev pub is_exact : ClaimScope → Bool
is_exact exact = true
is_exact subtree = false

abbrev check : Bool → String → Result (Unit {0})
check true message = ok tt
check false message = err (value_error message)

abbrev between : ℕ → ℕ → ℕ → Bool
between lo hi n = not (ltb n lo) && not (ltb hi n)

-- __post_init__; the tests on mode and scope are the types.
unfoldable pub make_claim : String → String → ClaimMode → ClaimScope → Result ResourceClaim
make_claim kind key mode scope = do
  check (between 1 40 (text_length kind)) "resource claim kind must contain 1..40 characters"
  check (between 1 4000 (text_length key)) "resource claim key must contain 1..4000 characters"
  ok (record { kind = kind; key = key; mode = mode; scope = scope })

unfoldable pub coordination_claim : Bool → ResourceClaim
coordination_claim exclusive = record {
  kind = "coordination";
  key = "host";
  mode = if exclusive then write else read;
  scope = exact;
}

-- kind in {"fs", "git", "cache", "cwd"}
unfoldable pub is_path_kind : String → Bool
is_path_kind kind = kind == "fs" || kind == "git" || kind == "cache" || kind == "cwd"

-- tuple(part for part in key.replace("\\", "/").split("/") if part)
unfoldable pub key_parts : String → List (List ℕ)
key_parts key = keep_if (λ part. not (part == [])) (split b'/' (replace 92 b'/' (codes key)))

-- right[: len(left)] == left
abbrev pub starts_with_parts : List (List ℕ) → List (List ℕ) → Bool
starts_with_parts right left = take (length left) right == left

-- The second half of `_path_overlap`, where not both scopes are exact.
unfoldable pub common_overlap :
    ClaimScope → ClaimScope → NormPath → NormPath → Option CommonPath → Bool
unfolding common_is same_path
common_overlap first second left right none = false
common_overlap subtree subtree left right (some common) =
    common_is common left || common_is common right
common_overlap subtree exact left right (some common) = common_is common left
common_overlap exact subtree left right (some common) = common_is common right
common_overlap exact exact left right (some common) = same_path left right

unfoldable pub path_overlap : ResourceClaim → ResourceClaim → Bool
unfolding normpath same_path common_overlap commonpath
path_overlap first second =
    let left = normpath first.key in
    let right = normpath second.key in
    if is_exact first.scope && is_exact second.scope
    then same_path left right
    else common_overlap first.scope second.scope left right (commonpath left right)

-- The last part of `claims_overlap`, over the parts of the keys, where not both scopes are exact.
unfoldable pub parts_overlap : ClaimScope → ClaimScope → List (List ℕ) → List (List ℕ) → Bool
parts_overlap subtree subtree left right =
    let shortest = min (length left) (length right) in take shortest left == take shortest right
parts_overlap subtree exact left right = take (length left) right == left
parts_overlap exact subtree left right = take (length right) left == right
parts_overlap exact exact left right = left == right

unfoldable pub claims_overlap : ResourceClaim → ResourceClaim → Bool
unfolding is_path_kind path_overlap parts_overlap key_parts
claims_overlap first second =
    if not (first.kind == second.kind)
    then false
    else if is_path_kind first.kind
    then path_overlap first second
    else if is_exact first.scope && is_exact second.scope
    then first.key == second.key
    else parts_overlap first.scope second.scope (key_parts first.key) (key_parts second.key)

unfoldable pub claims_conflict : ResourceClaim → ResourceClaim → Bool
unfolding claims_overlap
claims_conflict first second =
    if not (claims_overlap first second) then false else is_write first.mode || is_write second.mode

-- any(claims_conflict(left, right) for left in first for right in second)
unfoldable pub claim_sets_conflict : List ResourceClaim → List ResourceClaim → Bool
unfolding claims_conflict
claim_sets_conflict first second =
    any (λ left. any (λ right. claims_conflict left right) second) first

-- _claim_covers, where the parent's kind is one of paths: commonpath([left, right]) == left
unfoldable pub path_covers : NormPath → Option CommonPath → Bool
unfolding common_is
path_covers left none = false
path_covers left (some common) = common_is common left

unfoldable pub claim_covers : ResourceClaim → ResourceClaim → Bool
unfolding is_path_kind key_parts path_covers normpath commonpath
claim_covers parent child =
    if not (parent.kind == child.kind)
    then false
    else if not (is_write parent.mode) && is_write child.mode
    then false
    else if is_exact parent.scope
    then is_exact child.scope && parent.key == child.key
    else if is_path_kind parent.kind
    then path_covers (normpath parent.key) (commonpath (normpath parent.key) (normpath child.key))
    else take (length (key_parts parent.key)) (key_parts child.key) == key_parts parent.key

-- The alphabetical order of the texts that the two types stand for.
abbrev pub scope_rank : ClaimScope → ℕ
scope_rank exact = 0
scope_rank subtree = 1

abbrev pub mode_rank : ClaimMode → ℕ
mode_rank read = 0
mode_rank write = 1

-- The equality of the frozen dataclass.
abbrev pub claim_beq : ResourceClaim → ResourceClaim → Bool
claim_beq a b =
    a.kind == b.kind
    && a.key == b.key
    && mode_rank a.mode == mode_rank b.mode
    && scope_rank a.scope == scope_rank b.scope

pub claim_beq_iff : (a b : ResourceClaim) → (claim_beq a b ≡ true) ↔ (a ≡ b)
claim_beq_iff a b = ground (arith, eq_iff a.kind b.kind, eq_iff a.key b.key)

instance abbrev pub claim_eq : Eq ResourceClaim
claim_eq = record { beq = claim_beq; beq_iff = claim_beq_iff }

-- The sort key of `canonical_claims`: kind, key, scope, mode.
unfoldable pub claim_lt : ResourceClaim → ResourceClaim → Bool
claim_lt a b =
    text_lt (codes a.kind) (codes b.kind)
    || codes a.kind == codes b.kind
      && (text_lt (codes a.key) (codes b.key)
          || codes a.key == codes b.key
            && (ltb (scope_rank a.scope) (scope_rank b.scope)
                || scope_rank a.scope == scope_rank b.scope
                  && ltb (mode_rank a.mode) (mode_rank b.mode)))

-- canonical_claims: sorted(set(claims), key=...)
unfoldable pub canonical_claims : List ResourceClaim → List ResourceClaim
canonical_claims claims = sorted claim_lt (set_of claims)
