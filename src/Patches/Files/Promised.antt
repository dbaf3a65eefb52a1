-- ===== src/Patches/Files/Promised.antt =====
-- What the parser promises of a whole patch: its limits, its targets, its paths and its hunks.
use mathlib.Core.Path.{subst}
use computerpilot_mcp.Prelude.{
  ℕ, zero, suc, ◌+◌, ◌≤◌, false, not, ◌&&◌, ◌||◌, List, [], ◌∷◌, ◌++◌, none, some, ◌≡◌, refl, ap,
  arith, ◌==◌, ℕ_eq, list_eq, option_eq, leb, leb→le, length, length-append, contains, any, sum_of,
  All, All-append, Eq,
}
use computerpilot_mcp.Prelude.Text.{utf8_length}
use computerpilot_mcp.Prelude.Sorted.{IsDistinct}
use computerpilot_mcp.Prelude.Result.{ok, >>=-eq-ok, require-eq-ok, err-ne-ok, ok-injective}
use computerpilot_mcp.Patches.{Text, normalized, splitlines}
use computerpilot_mcp.Patches.Parse.{PatchLimits, FilePatch, PatchSet}
use computerpilot_mcp.Patches.Path.{patch_path}
use computerpilot_mcp.Patches.Parse.Paths.{IsSafePath, patch_path-IsSafePath}
use computerpilot_mcp.Patches.Files.{
  parse_metadata, parse_changes, file_patch, words, header_paths, parse_git_header, parse_file,
  parse_files, parse_unified_patch, target_of, targets_of, is_diff, is_unsupported,
}
use computerpilot_mcp.Patches.Files.Parsed.{
  parse_metadata_read, parse_changes-ChangesRead, IsParsedFile, file_patch-IsParsedFile,
}

header_paths_safe :
    (ws : List Text) (old new : Text)
    → header_paths ws ≡ ok (old, new)
    → IsSafePath old × IsSafePath new
header_paths_safe [] old new h = absurd (err-ne-ok h)
header_paths_safe (a ∷ []) old new h = absurd (err-ne-ok h)
header_paths_safe (a ∷ b ∷ []) old new h = absurd (err-ne-ok h)
header_paths_safe (a ∷ b ∷ c ∷ []) old new h = absurd (err-ne-ok h)
header_paths_safe (a ∷ b ∷ c ∷ d ∷ []) old new h =
    let (p, taken, h1) = >>=-eq-ok (patch_path c) _ h in
    let (q, taken', h2) = >>=-eq-ok (patch_path d) _ h1 in
    let same = ok-injective h2 in
    (
      subst IsSafePath (ap (λ x. x.0) same) (patch_path-IsSafePath c p taken),
      subst IsSafePath (ap (λ x. x.1) same) (patch_path-IsSafePath d q taken'),
    )
header_paths_safe (a ∷ b ∷ c ∷ d ∷ e ∷ ws) old new h = absurd (err-ne-ok h)

pub record FileRead (max total : ℕ) (lines : List Text) (r : FilePatch × ℕ × List Text)
    : Type 0 where
  pub parsed : IsParsedFile r.0
  pub counted : r.1 ≡ total + length r.0.hunks
  pub bounded : r.1 ≤ max
  pub shorter : length r.2 ≤ length lines

pub parse_file-FileRead :
    (rounds max total : ℕ) (line : Text) (lines : List Text) (r : FilePatch × ℕ × List Text)
    → total ≤ max
    → parse_file rounds max total line lines ≡ ok r
    → FileRead max total lines r
unfolding parse_file parse_git_header
parse_file-FileRead rounds max total line lines r below h =
    let (_, h1) = require-eq-ok (is_diff line) "invalid_patch" _ h in
    let ((old, new), headers, h2) = >>=-eq-ok (header_paths (words line)) _ h1 in
    let ((rename_old, rename_new, rest), metadata, h3) =
      >>=-eq-ok (parse_metadata none none lines) _ h2 in
    let (c, changes, h4) =
      >>=-eq-ok (parse_changes rounds max total (some old) (some new) rest) _ h3 in
    let (file, patched, h5) = >>=-eq-ok (file_patch rename_old rename_new c.0 c.1 c.2) _ h4 in
    let (old_safe, new_safe) = header_paths_safe (words line) old new headers in
    let (s, t, shorter) =
      parse_metadata_read none none lines rename_old rename_new rest tt tt metadata in
    let read =
      parse_changes-ChangesRead rounds max total (some old) (some new) rest c old_safe new_safe
        below changes in
    let (parsed, same) =
      file_patch-IsParsedFile rename_old rename_new c.0 c.1 c.2 file s t read.old_safe read.new_safe
        read.each patched in
    subst (FileRead max total lines) (ok-injective h5) (record {
      parsed = parsed;
      counted = omega (arith, read.counted, ap length same);
      bounded = read.bounded;
      shorter = omega (arith, read.shorter);
    })

-- The files and their hunks keep within the limits, no two files have one target, and every file has
-- safe paths and hunks whose counts are those of their lines.
pub record IsWithin (limits : PatchLimits) (files : List FilePatch) (total : ℕ) : Type 0 where
  pub files_bounded : length files ≤ limits.max_files
  pub hunks_bounded : total ≤ limits.max_hunks
  pub hunks_counted : total ≡ sum_of (λ f. length f.hunks) files
  pub distinct : IsDistinct (targets_of files)
  pub each : All IsParsedFile files

contains-append_one {ℓ} :
    {A : Type ℓ} ⦃e : Eq A⦄ (xs : List A) (y a : A)
    → contains (xs ++ y ∷ []) a ≡ (contains xs a || a == y)
contains-append_one [] y a = ground arith
contains-append_one (x ∷ xs) y a = ground (arith, contains-append_one xs y a)

targets_of-append :
    (xs ys : List FilePatch) → targets_of (xs ++ ys) ≡ targets_of xs ++ targets_of ys
targets_of-append [] ys = refl
targets_of-append (x ∷ xs) ys = ap (λ ts. target_of x ∷ ts) (targets_of-append xs ys)

sum_of-append :
    (xs ys : List FilePatch)
    → sum_of (λ f. length f.hunks) (xs ++ ys)
      ≡ sum_of (λ f. length f.hunks) xs + sum_of (λ f. length f.hunks) ys
sum_of-append [] ys = omega arith
sum_of-append (x ∷ xs) ys = omega (arith, sum_of-append xs ys)

append_one-IsDistinct {ℓ} :
    {A : Type ℓ} ⦃e : Eq A⦄ (xs : List A) (y : A)
    → contains xs y ≡ false
    → IsDistinct xs
    → IsDistinct (xs ++ y ∷ [])
append_one-IsDistinct [] y new d = ground arith
append_one-IsDistinct ⦃e⦄ (x ∷ xs) y new d =
    ground
      (arith, contains-append_one xs y x, e.beq_iff x y, e.beq_iff y x, append_one-IsDistinct xs y)

pub parse_files-IsWithin :
    (rounds : ℕ) (limits : PatchLimits) (total : ℕ) (files : List FilePatch) (lines : List Text)
    (r : List FilePatch × ℕ)
    → IsWithin limits files total
    → parse_files rounds limits total files lines ≡ ok r
    → IsWithin limits r.0 r.1
unfolding parse_files
parse_files-IsWithin zero limits total files lines r w h = absurd (err-ne-ok h)
parse_files-IsWithin (suc rounds) limits total files [] r w h =
    subst (λ x. IsWithin limits x.0 x.1) (ok-injective h) w
parse_files-IsWithin (suc rounds) limits total files (line ∷ lines) r w h =
    let ((file, total', rest), parsed, h1) =
      >>=-eq-ok (parse_file rounds limits.max_hunks total line lines) _ h in
    let (new, h2) =
      require-eq-ok
        (not (target_of file == none) && not (contains (targets_of files) (target_of file)))
        "invalid_patch" _ h1 in
    let (room, h3) =
      require-eq-ok (leb (length files + 1) limits.max_files) "patch_too_large" _ h2 in
    let read =
      parse_file-FileRead rounds limits.max_hunks total line lines (file, total', rest)
        w.hunks_bounded parsed in
    let fresh : contains (targets_of files) (target_of file) ≡ false = ground (arith, new) in
    parse_files-IsWithin rounds limits total' (files ++ file ∷ []) rest r
      (record {
        files_bounded = ground (arith, room, length-append files (file ∷ []));
        hunks_bounded = read.bounded;
        hunks_counted =
            omega (arith, read.counted, w.hunks_counted, sum_of-append files (file ∷ []));
        distinct =
            rw (targets_of-append files (file ∷ []))
              (append_one-IsDistinct (targets_of files) (target_of file) fresh w.distinct);
        each = All-append IsParsedFile files (file ∷ []) w.each (read.parsed, tt);
      })
      h3

-- A patch that the parser returns is no larger than its limits allow, in bytes, files and hunks; no
-- two files have the same target; every path stays below the root; and the counts in the header of
-- every hunk are those of its lines, of which none is empty.
pub parse_unified_patch-IsWithin :
    (text : Text) (limits : PatchLimits) (p : PatchSet)
    → parse_unified_patch text limits ≡ ok p
    → IsWithin limits p.files p.hunks × (p.bytes ≡ utf8_length text) × (p.bytes ≤ limits.max_bytes)
unfolding parse_unified_patch
parse_unified_patch-IsWithin text limits p h =
    let lines = splitlines (normalized text) in
    let (size, h1) =
      require-eq-ok (leb (utf8_length text) limits.max_bytes) "patch_too_large" _ h in
    let (_, h2) = require-eq-ok (not (lines == [])) "invalid_patch" _ h1 in
    let (_, h3) = require-eq-ok (not (any is_unsupported lines)) "unsupported_patch" _ h2 in
    let (r, parsed, h4) = >>=-eq-ok (parse_files (length lines + 1) limits 0 [] lines) _ h3 in
    let empty : IsWithin limits [] 0 = record {
      files_bounded = omega arith;
      hunks_bounded = omega arith;
      hunks_counted = refl;
      distinct = tt;
      each = tt;
    } in
    let within = parse_files-IsWithin (length lines + 1) limits 0 [] lines r empty parsed in
    subst
      (λ q.
        IsWithin limits q.files q.hunks
        × (q.bytes ≡ utf8_length text)
        × (q.bytes ≤ limits.max_bytes))
      (ok-injective h4) (within, refl, leb→le _ _ size)
