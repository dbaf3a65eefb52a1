-- ===== src/Claims/Conflict.antt =====
-- The overlap of claims in terms of one relation between keys: `under a b`, that the key `b` lies
-- at or below `a`. For paths it is a test on `commonpath`, for other kinds one on `/`-parts.
use computerpilot_mcp.Prelude.{
  String, Bool, true, false, not, ◌&&◌, ◌||◌, [], ◌≡◌, arith, ◌==◌, ℕ_eq, string_eq, list_eq,
  if◌then◌else◌,
}
use computerpilot_mcp.Claims.{
  ResourceClaim, ClaimScope, exact, subtree, claims_overlap, path_overlap, parts_overlap,
  common_overlap, path_covers, key_parts, is_path_kind, claim_covers, is_exact, is_write,
}
use computerpilot_mcp.Claims.Path.{
  NormPath, normpath, same_path, commonpath, common_is, is_absolute,
}
use computerpilot_mcp.Claims.Prefix.{
  is_prefix, take-is_prefix, common-is_prefix, common-is_prefix_right, take-min,
}

-- Whether the text of a normalised path is one that `commonpath` can return.
abbrev pub is_plain : NormPath → Bool
is_plain p = if is_absolute p then p.slashes == 1 else not (p.comps == [])

abbrev pub norm_under : NormPath → NormPath → Bool
norm_under l r =
    (is_absolute l && is_absolute r || not (is_absolute l) && not (is_absolute r))
    && is_plain l
    && is_prefix l.comps r.comps

path_covers-eq : (l r : NormPath) → path_covers l (commonpath l r) ≡ norm_under l r
unfolding path_covers commonpath common_is is_absolute
path_covers-eq l r = ground (arith, common-is_prefix l.comps r.comps)

-- `commonpath` is symmetric, and only its equality with one of its arguments is tested.
common_right : (l r : NormPath) → common_overlap exact subtree l r (commonpath l r) ≡ norm_under r l
unfolding common_overlap commonpath common_is is_absolute
common_right l r = ground (arith, common-is_prefix_right l.comps r.comps)

common_left : (l r : NormPath) → common_overlap subtree exact l r (commonpath l r) ≡ norm_under l r
unfolding common_overlap commonpath common_is is_absolute
common_left l r = ground (arith, common-is_prefix l.comps r.comps)

common_both :
    (l r : NormPath)
    → common_overlap subtree subtree l r (commonpath l r) ≡ (norm_under l r || norm_under r l)
unfolding common_overlap commonpath common_is is_absolute
common_both l r =
    ground (arith, common-is_prefix l.comps r.comps, common-is_prefix_right l.comps r.comps)

-- Which keys lie at or below which, and which are the same, for the claims of one kind.
abbrev pub under : String → String → String → Bool
under kind a b =
    if is_path_kind kind
    then norm_under (normpath a) (normpath b)
    else is_prefix (key_parts a) (key_parts b)

abbrev pub same_key : String → String → String → Bool
same_key kind a b = if is_path_kind kind then same_path (normpath a) (normpath b) else a == b

abbrev pub overlap_at : String → ClaimScope → ClaimScope → String → String → Bool
overlap_at kind exact exact a b = same_key kind a b
overlap_at kind subtree exact a b = under kind a b
overlap_at kind exact subtree a b = under kind b a
overlap_at kind subtree subtree a b = under kind a b || under kind b a

path_overlap-eq :
    (a b : ResourceClaim)
    → is_path_kind a.kind ≡ true
    → path_overlap a b ≡ overlap_at a.kind a.scope b.scope a.key b.key
unfolding path_overlap
path_overlap-eq a b p = ground (
  arith,
  common_left (normpath a.key) (normpath b.key),
  common_right (normpath a.key) (normpath b.key),
  common_both (normpath a.key) (normpath b.key),
)

parts_overlap-eq :
    (a b : ResourceClaim)
    → is_path_kind a.kind ≡ false
    → (if is_exact a.scope && is_exact b.scope
        then a.key == b.key
        else parts_overlap a.scope b.scope (key_parts a.key) (key_parts b.key))
      ≡ overlap_at a.kind a.scope b.scope a.key b.key
unfolding parts_overlap
parts_overlap-eq a b p = ground (
  arith,
  take-min (key_parts a.key) (key_parts b.key),
  take-is_prefix (key_parts a.key) (key_parts b.key),
  take-is_prefix (key_parts b.key) (key_parts a.key),
)

-- Two claims overlap exactly when they are of one kind and, both being exact, name the same key,
-- or the key of one claim on a tree lies at or above that of the other claim; a path lies at or
-- above another when its components begin the other's, both are absolute or both relative, and it
-- is one that `commonpath` can return.
pub claims_overlap-eq :
    (a b : ResourceClaim)
    → claims_overlap a b ≡ (a.kind == b.kind && overlap_at a.kind a.scope b.scope a.key b.key)
unfolding claims_overlap
claims_overlap-eq a b = ground (arith, path_overlap-eq a b, parts_overlap-eq a b)

abbrev pub covers_at : String → ClaimScope → ClaimScope → String → String → Bool
covers_at kind exact child_scope a b = is_exact child_scope && a == b
covers_at kind subtree child_scope a b = under kind a b

-- A parent's claim covers a nested one exactly when they are of one kind, the parent's writes if
-- the nested one does, and it is either on the same key with both exact, or on a tree whose key
-- lies at or above that of the nested claim.
pub claim_covers-eq :
    (p c : ResourceClaim)
    → claim_covers p c ≡ (
        p.kind == c.kind
        && (is_write p.mode || not (is_write c.mode))
        && covers_at p.kind p.scope c.scope p.key c.key)
unfolding claim_covers
claim_covers-eq p c = ground (
  arith,
  path_covers-eq (normpath p.key) (normpath c.key),
  take-is_prefix (key_parts p.key) (key_parts c.key),
)
