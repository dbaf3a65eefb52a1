-- ===== src/Patches/Path.antt =====
-- tools/filesystem/patches.py: what _patch_path strips, refuses and returns.
use computerpilot_mcp.Prelude.{
  Bool, false, not, ◌&&◌, ◌||◌, List, [], ◌∷◌, Option, none, some, ◌==◌, ℕ_eq, list_eq, drop,
  contains, keep_if, if◌then◌else◌,
}
use computerpilot_mcp.Prelude.Text.{codes, split, is_space}
use computerpilot_mcp.Prelude.Result.{Result, ok, require, ◌>>=◌, ◌>>◌}
use computerpilot_mcp.Patches.{Text, join}
use computerpilot_mcp.Patches.Parse.{starts_with}

-- value.strip()
abbrev lstrip : Text → Text
lstrip [] = []
lstrip (c ∷ cs) = let rest = lstrip cs in if is_space c then rest else c ∷ cs

abbrev rstrip : Text → Text
rstrip [] = []
rstrip (c ∷ cs) = let rest = rstrip cs in if rest == [] && is_space c then [] else c ∷ rest

-- s.split("\t", 1)[0]
abbrev before_tab : Text → Text
before_tab [] = []
before_tab (c ∷ cs) = let rest = before_tab cs in if c == 9 then [] else c ∷ rest

-- Whether a PureWindowsPath without backslashes that does not begin with "//" has a drive, by the
-- rule of Python 3.12: any character before a colon.
abbrev has_drive : Text → Bool
has_drive [] = false
has_drive (c ∷ []) = false
has_drive (c ∷ d ∷ cs) = d == b':'

abbrev pub dot : Text
dot = b'.' ∷ []

abbrev pub dot_dot : Text
dot_dot = b'.' ∷ b'.' ∷ []

-- PurePosixPath(value).parts of a path that is not absolute, and the as_posix() of such parts
unfoldable pub path_parts : Text → List Text
path_parts value = keep_if (λ part. not (part == [] || part == dot)) (split b'/' value)

unfoldable pub as_posix : List Text → Text
unfolding join
as_posix [] = dot
as_posix (part ∷ parts) = join (b'/' ∷ []) (part ∷ parts)

-- The condition under which `_patch_path` raises.
unfoldable pub is_unsafe : Text → Bool
unfolding path_parts
is_unsafe value =
    value == []
    || contains value 0
    || has_drive value
    || starts_with (b'/' ∷ []) value
    || starts_with (92 ∷ 92 ∷ []) value
    || contains (path_parts value) dot_dot
    || contains value 92

unfoldable pub checked_path : Text → Result Text
checked_path value =
    let relative =
      if starts_with (codes "a/") value || starts_with (codes "b/") value
      then drop 2 value
      else value in
    require (not (is_unsafe relative)) "invalid_patch_path" >> ok (as_posix (path_parts relative))

unfoldable pub header_value : Text → Text
header_value value = before_tab (rstrip (lstrip value))

-- _patch_path without and with allow_null
unfoldable pub patch_path : Text → Result Text
unfolding header_value checked_path
patch_path value = checked_path (header_value value)

unfoldable pub patch_path_or_null : Text → Result (Option Text)
unfolding header_value checked_path
patch_path_or_null value =
    if header_value value == codes "/dev/null"
    then ok none
    else checked_path (header_value value) >>= λ path. ok (some path)
