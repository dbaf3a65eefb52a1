-- ===== src/Patches/Files/Parsed.antt =====
-- What the parser promises of a patch that it returns.
use mathlib.Core.Path.{subst}
use computerpilot_mcp.Prelude.{
  ℕ, zero, suc, ◌+◌, ◌≤◌, not, ◌||◌, List, [], ◌∷◌, ◌++◌, Option, none, some, ◌≡◌, refl, ap, arith,
  ℕ_eq, list_eq, option_eq, leb, length, length-append, drop, All, All-append, Bool-cases, inl, inr,
  if◌then◌else◌,
}
use computerpilot_mcp.Prelude.Result.{
  Result, ok, raise, >>=-eq-ok, require-eq-ok, err-ne-ok, ok-injective,
}
use computerpilot_mcp.Patches.{Text, PatchHunk}
use computerpilot_mcp.Patches.Parse.{
  PatchKind, create, modify, delete, rename, FilePatch, parse_hunk,
}
use computerpilot_mcp.Patches.Path.{patch_path, patch_path_or_null}
use computerpilot_mcp.Patches.Parse.Hunk.{IsCountedHunk, parse_hunk-IsCountedHunk}
use computerpilot_mcp.Patches.Parse.Paths.{IsSafe, patch_path-IsSafePath, patch_path_or_null-IsSafe}
use computerpilot_mcp.Patches.Files.{
  parse_hunks, parse_metadata, parse_changes, file_patch, hunks_empty, is_diff, is_hunk,
  is_old_file, is_new_file, is_rename_from, is_rename_to, is_ignored, is_unsupported,
}

-- What the loop over the hunks of a file gives.
pub record HunksRead (max total : ℕ) (hunks : List PatchHunk) (lines : List Text)
    (hunks' : List PatchHunk) (total' : ℕ) (rest : List Text) : Type 0 where
  pub each : All IsCountedHunk hunks'
  pub counted : total' + length hunks ≡ total + length hunks'
  pub bounded : total' ≤ max
  pub shorter : length rest ≤ length lines

hunks_stay :
    (max total : ℕ) (hunks : List PatchHunk) (lines : List Text) (hunks' : List PatchHunk)
    (total' : ℕ) (rest : List Text)
    → All IsCountedHunk hunks
    → total ≤ max
    → ◌≡◌ {A = Result (List PatchHunk × ℕ × List Text)}
        (ok (hunks, total, lines))
        (ok (hunks', total', rest))
    → HunksRead max total hunks lines hunks' total' rest
hunks_stay max total hunks lines hunks' total' rest each below e =
    let same = ok-injective e in
    record {
      each = subst (All IsCountedHunk) (ap (λ x. x.0) same) each;
      counted = omega (arith, ap (λ x. length x.0) same, ap (λ x. x.1) same);
      bounded = omega (arith, ap (λ x. x.1) same);
      shorter = omega (arith, ap (λ x. length x.2) same);
    }

pub parse_hunks-HunksRead :
    (rounds max total : ℕ) (hunks : List PatchHunk) (lines : List Text) (hunks' : List PatchHunk)
    (total' : ℕ) (rest : List Text)
    → All IsCountedHunk hunks
    → total ≤ max
    → parse_hunks rounds max total hunks lines ≡ ok (hunks', total', rest)
    → HunksRead max total hunks lines hunks' total' rest
unfolding parse_hunks
parse_hunks-HunksRead zero max total hunks lines hunks' total' rest each below h =
    absurd (err-ne-ok h)
parse_hunks-HunksRead (suc rounds) max total hunks [] hunks' total' rest each below h =
    hunks_stay max total hunks [] hunks' total' rest each below h
parse_hunks-HunksRead (suc rounds) max total hunks (line ∷ lines) hunks' total' rest each below h =
    elim (Bool-cases (is_hunk line)) [
      | inr other ↦
          let e : ok (hunks, total, line ∷ lines) ≡ ok (hunks', total', rest) = rw other at h in
          hunks_stay max total hunks (line ∷ lines) hunks' total' rest each below e
      | inl hunk_line ↦
          let ((hunk, rest1), parsed, h1) =
            >>=-eq-ok (parse_hunk line lines) _ (rw hunk_line at h) in
          let (within, h2) = require-eq-ok (leb (total + 1) max) "patch_too_large" _ h1 in
          let (good, shorter) = parse_hunk-IsCountedHunk line lines hunk rest1 parsed in
          let read =
            parse_hunks-HunksRead rounds max (total + 1) (hunks ++ hunk ∷ []) rest1 hunks' total'
              rest (All-append IsCountedHunk hunks (hunk ∷ []) each (good, tt))
              (ground (arith, within)) h2 in
          record {
            each = read.each;
            counted = omega (arith, read.counted, length-append hunks (hunk ∷ []));
            bounded = read.bounded;
            shorter = omega (arith, read.shorter);
          }
    ]

pub parse_metadata_read :
    (old new : Option Text) (lines : List Text) (old' new' : Option Text) (rest : List Text)
    → IsSafe old
    → IsSafe new
    → parse_metadata old new lines ≡ ok (old', new', rest)
    → IsSafe old' × IsSafe new' × (length rest ≤ length lines)
unfolding parse_metadata
parse_metadata_read old new [] old' new' rest s t h =
    let same = ok-injective h in
    (
      subst IsSafe (ap (λ x. x.0) same) s,
      subst IsSafe (ap (λ x. x.1) same) t,
      omega (arith, ap (λ x. length x.2) same),
    )
parse_metadata_read old new (line ∷ lines) old' new' rest s t h =
    elim (Bool-cases (is_old_file line || is_diff line)) [
      | inl end ↦
          let e : ok (old, new, line ∷ lines) ≡ ok (old', new', rest) = rw end at h in
          let same = ok-injective e in
          (
            subst IsSafe (ap (λ x. x.0) same) s,
            subst IsSafe (ap (λ x. x.1) same) t,
            omega (arith, ap (λ x. length x.2) same),
          )
      | inr inside ↦ elim (Bool-cases (is_rename_from line)) [
        | inl from_line ↦
            let (path, taken, h1) =
              >>=-eq-ok (patch_path (drop 12 line)) _ (rw (inside, from_line) at h) in
            let (s', t', shorter) =
              parse_metadata_read (some path) new lines old' new' rest
                (patch_path-IsSafePath (drop 12 line) path taken) t h1 in
            (s', t', omega arith)
        | inr not_from ↦ elim (Bool-cases (is_rename_to line)) [
          | inl to_line ↦
              let (path, taken, h1) =
                >>=-eq-ok (patch_path (drop 10 line)) _ (rw (inside, not_from, to_line) at h) in
              let (s', t', shorter) =
                parse_metadata_read old (some path) lines old' new' rest s
                  (patch_path-IsSafePath (drop 10 line) path taken) h1 in
              (s', t', omega arith)
          | inr not_to ↦ elim (Bool-cases (is_ignored line)) [
            | inl ignored ↦
                let (s', t', shorter) =
                  parse_metadata_read old new lines old' new' rest s t
                    (rw (inside, not_from, not_to, ignored) at h) in
                (s', t', omega arith)
            | inr other ↦
                let e : (if is_unsupported line
                      then raise "unsupported_patch"
                      else raise "invalid_patch")
                    ≡ ok (old', new', rest) =
                  rw (inside, not_from, not_to, other) at h in
                absurd (ground (arith, e))
          ]
        ]
      ]
    ]

-- What the lines after the metadata of a file give.
pub record ChangesRead (max total : ℕ) (lines : List Text)
    (r : Option Text × Option Text × List PatchHunk × ℕ × List Text) : Type 0 where
  pub old_safe : IsSafe r.0
  pub new_safe : IsSafe r.1
  pub each : All IsCountedHunk r.2
  pub counted : r.3 ≡ total + length r.2
  pub bounded : r.3 ≤ max
  pub shorter : length r.4 ≤ length lines

no_changes :
    (max total : ℕ) (old new : Option Text) (lines : List Text)
    (r : Option Text × Option Text × List PatchHunk × ℕ × List Text)
    → IsSafe old
    → IsSafe new
    → total ≤ max
    → ◌≡◌ {A = Result (Option Text × Option Text × List PatchHunk × ℕ × List Text)}
        (ok (old, new, [], total, lines))
        (ok r)
    → ChangesRead max total lines r
no_changes max total old new lines r s t below e =
    subst (ChangesRead max total lines) (ok-injective e) (record {
      old_safe = s;
      new_safe = t;
      each = tt;
      counted = omega arith;
      bounded = below;
      shorter = omega arith;
    })

pub parse_changes-ChangesRead :
    (rounds max total : ℕ) (old new : Option Text) (lines : List Text)
    (r : Option Text × Option Text × List PatchHunk × ℕ × List Text)
    → IsSafe old
    → IsSafe new
    → total ≤ max
    → parse_changes rounds max total old new lines ≡ ok r
    → ChangesRead max total lines r
unfolding parse_changes
parse_changes-ChangesRead rounds max total old new [] r s t below h =
    no_changes max total old new [] r s t below h
parse_changes-ChangesRead rounds max total old new (line ∷ []) r s t below h =
    elim (Bool-cases (is_old_file line)) [
      | inr other ↦ no_changes max total old new (line ∷ []) r s t below (rw other at h)
      | inl header ↦
          let (path, taken, h1) = >>=-eq-ok (patch_path_or_null (drop 4 line)) _ (rw header at h) in
          absurd (err-ne-ok h1)
    ]
parse_changes-ChangesRead rounds max total old new (line ∷ next ∷ lines) r s t below h =
    elim (Bool-cases (is_old_file line)) [
      | inr other ↦ no_changes max total old new (line ∷ next ∷ lines) r s t below (rw other at h)
      | inl header ↦
          let (old', taken, h1) = >>=-eq-ok (patch_path_or_null (drop 4 line)) _ (rw header at h) in
          let (_, h2) = require-eq-ok (is_new_file next) "invalid_patch" _ h1 in
          let (new', taken', h3) = >>=-eq-ok (patch_path_or_null (drop 4 next)) _ h2 in
          let ((hunks, total', rest), looped, h4) =
            >>=-eq-ok (parse_hunks rounds max total [] lines) _ h3 in
          let read =
            parse_hunks-HunksRead rounds max total [] lines hunks total' rest tt below looped in
          subst (ChangesRead max total (line ∷ next ∷ lines)) (ok-injective h4) (record {
            old_safe = patch_path_or_null-IsSafe (drop 4 line) old' taken;
            new_safe = patch_path_or_null-IsSafe (drop 4 next) new' taken';
            each = read.each;
            counted = omega (arith, read.counted);
            bounded = read.bounded;
            shorter = omega (arith, read.shorter);
          })
    ]

-- A new file has no old path, and a deleted one no new path.
abbrev pub FitsKind : PatchKind → Option Text → Option Text → Type 0
FitsKind create old new = old ≡ none
FitsKind delete old new = new ≡ none
FitsKind modify old new = Unit
FitsKind rename old new = Unit

-- A change of a file: its paths stay below the root, and its hunks are counted.
pub record IsParsedFile (file : FilePatch) : Type 0 where
  pub fits : FitsKind file.kind file.old_path file.new_path
  pub old_safe : IsSafe file.old_path
  pub new_safe : IsSafe file.new_path
  pub each : All IsCountedHunk file.hunks

pub file_patch-IsParsedFile :
    (rename_old rename_new old new : Option Text) (hunks : List PatchHunk) (file : FilePatch)
    → IsSafe rename_old
    → IsSafe rename_new
    → IsSafe old
    → IsSafe new
    → All IsCountedHunk hunks
    → file_patch rename_old rename_new old new hunks ≡ ok file
    → IsParsedFile file × (file.hunks ≡ hunks)
unfolding file_patch
file_patch-IsParsedFile (some rename_old) (some rename_new) old new hunks file s t u v each h =
    subst (λ f. IsParsedFile f × (f.hunks ≡ hunks)) (ok-injective h)
      (record { fits = tt; old_safe = s; new_safe = t; each = each }, refl)
file_patch-IsParsedFile (some rename_old) none old new hunks file s t u v each h =
    absurd (err-ne-ok h)
file_patch-IsParsedFile none (some rename_new) old new hunks file s t u v each h =
    absurd (err-ne-ok h)
file_patch-IsParsedFile none none none new hunks file s t u v each h =
    let (_, e) = require-eq-ok (not (hunks_empty hunks)) "invalid_patch" _ h in
    subst (λ f. IsParsedFile f × (f.hunks ≡ hunks)) (ok-injective e)
      (record { fits = refl; old_safe = tt; new_safe = v; each = each }, refl)
file_patch-IsParsedFile none none (some old) none hunks file s t u v each h =
    let (_, e) = require-eq-ok (not (hunks_empty hunks)) "invalid_patch" _ h in
    subst (λ f. IsParsedFile f × (f.hunks ≡ hunks)) (ok-injective e)
      (record { fits = refl; old_safe = u; new_safe = tt; each = each }, refl)
file_patch-IsParsedFile none none (some old) (some new) hunks file s t u v each h =
    let (_, e) = require-eq-ok (not (hunks_empty hunks)) "invalid_patch" _ h in
    subst (λ f. IsParsedFile f × (f.hunks ≡ hunks)) (ok-injective e)
      (record { fits = tt; old_safe = u; new_safe = v; each = each }, refl)
