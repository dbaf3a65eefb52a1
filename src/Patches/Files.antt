-- ===== src/Patches/Files.antt =====
-- The loops of the parser over the files of a diff and over the hunks of a file. Each takes rounds,
-- and raises an error of its own when they run out; Files/Rounds shows that they never do.
pub mod Parsed
pub mod Promised
pub mod Rounds
use computerpilot_mcp.Prelude.{
  ℕ, zero, suc, ◌+◌, String, Bool, true, false, not, ◌&&◌, ◌||◌, List, [], ◌∷◌, ◌++◌, Option, none,
  some, ◌==◌, ℕ_eq, list_eq, ltb, leb, length, drop, contains, any, keep_if, map, option_eq,
  if◌then◌else◌,
}
use computerpilot_mcp.Prelude.Text.{codes, is_space, utf8_length}
use computerpilot_mcp.Prelude.Result.{
  Result, ok, err, Error, value_error, raise, require, ◌>>=◌, ◌>>◌,
}
use computerpilot_mcp.Patches.{Text, PatchHunk, normalized, splitlines}
use computerpilot_mcp.Patches.Parse.{
  PatchLimits, PatchKind, create, modify, delete, rename, FilePatch, PatchSet, starts_with,
  starts_with_any, diff_prefix, hunk_prefix, unsupported_prefixes, parse_hunk,
}
use computerpilot_mcp.Patches.Path.{patch_path, patch_path_or_null}

abbrev pub out_of_rounds : Error
out_of_rounds = value_error "out of rounds"

-- Tests of the beginning of a line.
unfoldable pub is_diff : Text → Bool
unfolding starts_with
is_diff line = starts_with diff_prefix line

unfoldable pub is_hunk : Text → Bool
unfolding starts_with
is_hunk line = starts_with hunk_prefix line

unfoldable pub is_old_file : Text → Bool
unfolding starts_with
is_old_file line = starts_with (codes "--- ") line

unfoldable pub is_new_file : Text → Bool
unfolding starts_with
is_new_file line = starts_with (codes "+++ ") line

unfoldable pub is_rename_from : Text → Bool
unfolding starts_with
is_rename_from line = starts_with (codes "rename from ") line

unfoldable pub is_rename_to : Text → Bool
unfolding starts_with
is_rename_to line = starts_with (codes "rename to ") line

unfoldable pub is_ignored : Text → Bool
unfolding starts_with_any
is_ignored line =
    starts_with_any
      (codes "index "
        ∷ codes "new file mode 100"
        ∷ codes "deleted file mode 100"
        ∷ codes "similarity index "
        ∷ [])
      line

unfoldable pub is_unsupported : Text → Bool
unfolding starts_with_any
is_unsupported line = starts_with_any unsupported_prefixes line

-- while ... lines[index].startswith("@@ "); `total` counts the hunks of all files.
unfoldable pub parse_hunks :
    ℕ → ℕ → ℕ → List PatchHunk → List Text → Result (List PatchHunk × ℕ × List Text)
unfolding parse_hunk
parse_hunks zero max total hunks lines = err out_of_rounds
parse_hunks (suc rounds) max total hunks [] = ok (hunks, total, [])
parse_hunks (suc rounds) max total hunks (line ∷ lines) =
    let more = parse_hunk line lines >>= λ (hunk, rest).
    require (leb (total + 1) max) "patch_too_large"
    >> parse_hunks rounds max (total + 1) (hunks ++ hunk ∷ []) rest in
    if is_hunk line then more else ok (hunks, total, line ∷ lines)

-- The loop over the lines of metadata, with the paths of the two lines of a rename.
unfoldable pub parse_metadata :
    Option Text → Option Text → List Text → Result (Option Text × Option Text × List Text)
unfolding patch_path
parse_metadata old new [] = ok (old, new, [])
parse_metadata old new (line ∷ lines) =
    let from_line = patch_path (drop 12 line) >>= λ path. parse_metadata (some path) new lines in
    let to_line = patch_path (drop 10 line) >>= λ path. parse_metadata old (some path) lines in
    let ignored = parse_metadata old new lines in
    if is_old_file line || is_diff line
    then ok (old, new, line ∷ lines)
    else if is_rename_from line
    then from_line
    else if is_rename_to line
    then to_line
    else if is_ignored line
    then ignored
    else if is_unsupported line
    then raise "unsupported_patch"
    else raise "invalid_patch"

-- The lines "--- " and "+++ " and the hunks, if they are there.
unfoldable pub parse_changes :
    ℕ
    → ℕ
    → ℕ
    → Option Text
    → Option Text
    → List Text
    → Result (Option Text × Option Text × List PatchHunk × ℕ × List Text)
unfolding patch_path_or_null parse_hunks
parse_changes rounds max total old new [] = ok (old, new, [], total, [])
parse_changes rounds max total old new (line ∷ []) =
    if is_old_file line
    then patch_path_or_null (drop 4 line) >>= (λ path. raise "invalid_patch")
    else ok (old, new, [], total, line ∷ [])
parse_changes rounds max total old new (line ∷ next ∷ lines) =
    if is_old_file line
    then (do
      old' ← patch_path_or_null (drop 4 line)
      require (is_new_file next) "invalid_patch"
      new' ← patch_path_or_null (drop 4 next)
      (hunks, total', rest) ← parse_hunks rounds max total [] lines
      ok (old', new', hunks, total', rest))
    else ok (old, new, [], total, line ∷ next ∷ lines)

abbrev pub hunks_empty : List PatchHunk → Bool
hunks_empty [] = true
hunks_empty (hunk ∷ hunks) = false

-- The kind of the change and its paths, by the lines of a rename and the headers of the file.
unfoldable pub file_patch :
    Option Text → Option Text → Option Text → Option Text → List PatchHunk → Result FilePatch
file_patch (some rename_old) (some rename_new) old new hunks = ok (record {
  kind = rename;
  old_path = some rename_old;
  new_path = some rename_new;
  hunks = hunks;
})
file_patch (some rename_old) none old new hunks = raise "invalid_patch"
file_patch none (some rename_new) old new hunks = raise "invalid_patch"
file_patch none none none new hunks =
    require (not (hunks_empty hunks)) "invalid_patch"
    >> ok (record { kind = create; old_path = none; new_path = new; hunks = hunks })
file_patch none none (some old) none hunks =
    require (not (hunks_empty hunks)) "invalid_patch"
    >> ok (record { kind = delete; old_path = some old; new_path = none; hunks = hunks })
file_patch none none (some old) (some new) hunks =
    require (not (hunks_empty hunks)) "invalid_patch"
    >> ok (record { kind = modify; old_path = some old; new_path = some new; hunks = hunks })

-- s.split()
abbrev push_word : ℕ → List Text → List Text
push_word c [] = (c ∷ []) ∷ []
push_word c (word ∷ words) = (c ∷ word) ∷ words

abbrev raw_words : Text → List Text
raw_words [] = [] ∷ []
raw_words (c ∷ cs) = let rest = raw_words cs in if is_space c then [] ∷ rest else push_word c rest

unfoldable pub words : Text → List Text
words s = keep_if (λ word. not (word == [])) (raw_words s)

abbrev pub header_paths : List Text → Result (Text × Text)
header_paths (diff ∷ git ∷ old ∷ new ∷ []) = do
  header_old ← patch_path old
  header_new ← patch_path new
  ok (header_old, header_new)
header_paths other = raise "invalid_patch"

-- The two paths of a line "diff --git ".
unfoldable pub parse_git_header : Text → Result (Text × Text)
unfolding words patch_path
parse_git_header line = header_paths (words line)

-- One round of the loop over the files.
unfoldable pub parse_file : ℕ → ℕ → ℕ → Text → List Text → Result (FilePatch × ℕ × List Text)
unfolding parse_git_header parse_metadata parse_changes file_patch
parse_file rounds max total line lines = do
  require (is_diff line) "invalid_patch"
  (header_old, header_new) ← parse_git_header line
  (rename_old, rename_new, lines) ← parse_metadata none none lines
  (old, new, hunks, total', rest) ←
      parse_changes rounds max total (some header_old) (some header_new) lines
  file ← file_patch rename_old rename_new old new hunks
  ok (file, total', rest)

-- new_path or old_path
abbrev pub target_of : FilePatch → Option Text
target_of file = elim file.new_path [ none ↦ file.old_path | some path ↦ some path ]

abbrev pub targets_of : List FilePatch → List (Option Text)
targets_of = map target_of

unfoldable pub parse_files :
    ℕ → PatchLimits → ℕ → List FilePatch → List Text → Result (List FilePatch × ℕ)
unfolding parse_file
parse_files zero limits total files lines = err out_of_rounds
parse_files (suc rounds) limits total files [] = ok (files, total)
parse_files (suc rounds) limits total files (line ∷ lines) = do
  (file, total', rest) ← parse_file rounds limits.max_hunks total line lines
  require (not (target_of file == none) && not (contains (targets_of files) (target_of file)))
      "invalid_patch"
  require (leb (length files + 1) limits.max_files) "patch_too_large"
  parse_files rounds limits total' (files ++ file ∷ []) rest

unfoldable pub parse_unified_patch : Text → PatchLimits → Result PatchSet
unfolding parse_files normalized splitlines
parse_unified_patch text limits = do
  let size = utf8_length text
  require (leb size limits.max_bytes) "patch_too_large"
  let lines = splitlines (normalized text)
  require (not (lines == [])) "invalid_patch"
  require (not (any is_unsupported lines)) "unsupported_patch"
  (files, hunks) ← parse_files (length lines + 1) limits 0 [] lines
  ok (record { files = files; bytes = size; hunks = hunks })
