-- ===== src/Patches/Files/Rounds.antt =====
-- The rounds of the parser's loops never run out: each round reads a line at least.
use computerpilot_mcp.Prelude.{
  ℕ, zero, suc, ◌+◌, ◌≤◌, ◌<◌, String, Bool, true, false, not, ◌&&◌, ◌||◌, List, [], ◌∷◌, ◌++◌,
  Option, none, some, ◌≡◌, ◌≢◌, refl, arith, ◌==◌, ℕ_eq, list_eq, option_eq, string_eq, eq_iff, leb,
  length, drop, contains, any, Bool-cases, inl, inr,
}
use computerpilot_mcp.Prelude.Text.{codes, utf8_length}
use computerpilot_mcp.Prelude.Result.{Result, ok, err, raise, require, ◌>>=◌, ◌>>◌}
use computerpilot_mcp.Patches.{Text, PatchHunk, normalized, splitlines}
use computerpilot_mcp.Patches.Parse.{
  PatchLimits, FilePatch, HunkBody, starts_with, expect, digits_of, some_digits, digits_pair,
  int_of, parse_header, parse_body, mark_no_newline, add_line, empty_body, parse_hunk,
}
use computerpilot_mcp.Patches.Path.{
  is_unsafe, checked_path, patch_path, patch_path_or_null, header_value,
}
use computerpilot_mcp.Patches.Parse.Hunk.{parse_hunk-IsCountedHunk}
use computerpilot_mcp.Patches.Files.{
  out_of_rounds, parse_hunks, parse_metadata, parse_changes, file_patch, words, header_paths,
  parse_git_header, parse_file, parse_files, parse_unified_patch, target_of, targets_of,
  hunks_empty, is_diff, is_hunk, is_old_file, is_new_file, is_rename_from, is_rename_to, is_ignored,
  is_unsupported,
}
use computerpilot_mcp.Patches.Files.Parsed.{parse_metadata_read}
use computerpilot_mcp.Patches.Files.Promised.{parse_file-FileRead}

abbrev pub Suffices {ℓ} : {A : Type ℓ} → Result A → Type ℓ
Suffices r = r ≢ err out_of_rounds

bind-Suffices {κ ℓ} :
    {B : Type κ} {A : Type ℓ} (m : Result A) (f : A → Result B)
    → Suffices m
    → ((a : A) → m ≡ ok a → Suffices (f a))
    → Suffices (m >>= f)
bind-Suffices (err e) f h k = λ p. h (cc)
bind-Suffices (ok a) f h k = k a refl

require-Suffices {ℓ} :
    {B : Type ℓ} (b : Bool) (code : String) (k : Result B)
    → Suffices k
    → Suffices (require b code >> k)
require-Suffices true code k h = h
require-Suffices false code k h = λ p. cc

ok-Suffices {ℓ} : {A : Type ℓ} (a : A) → Suffices (ok a)
ok-Suffices a = λ p. cc

raise-Suffices {ℓ} : {A : Type ℓ} (code : String) → Suffices (raise {A = A} code)
raise-Suffices code = λ p. cc

expect-Suffices : (prefix s : Text) → Suffices (expect prefix s)
expect-Suffices prefix s = elim (Bool-cases (starts_with prefix s)) [
  | inl e ↦ rw e (ok-Suffices _)
  | inr e ↦ rw e (raise-Suffices _)
]

some_digits-Suffices : (s : Text) → Suffices (some_digits s)
some_digits-Suffices s =
    require-Suffices (not ((digits_of s).0 == [])) "invalid_patch" _ (ok-Suffices _)

digits_pair-Suffices : (s : Text) → Suffices (digits_pair s)
digits_pair-Suffices s = bind-Suffices (some_digits s) _ (some_digits-Suffices s) λ a e.
    elim (Bool-cases (starts_with (b',' ∷ []) a.1)) [
      | inl comma ↦ rw comma (
          bind-Suffices (some_digits (drop 1 a.1)) _ (some_digits-Suffices (drop 1 a.1))
            (λ b e'. ok-Suffices _))
      | inr other ↦ rw other (ok-Suffices _)
    ]

int_of-Suffices : (digits : Text) → Suffices (int_of digits)
int_of-Suffices digits = ground (arith, eq_iff "int" "out of rounds")

parse_header-Suffices : (line : Text) → Suffices (parse_header line)
unfolding parse_header
parse_header-Suffices line =
    bind-Suffices (expect (codes "@@ -") line) _ (expect-Suffices _ _) λ s e.
      bind-Suffices (digits_pair s) _ (digits_pair-Suffices s) λ a e.
        bind-Suffices (expect (codes " +") a.2) _ (expect-Suffices _ _) λ s e.
          bind-Suffices (digits_pair s) _ (digits_pair-Suffices s) λ b e.
            bind-Suffices (expect (codes " @@") b.2) _ (expect-Suffices _ _) λ s e.
              require-Suffices (s == [] || starts_with (b' ' ∷ []) s) "invalid_patch" _ (
                bind-Suffices (int_of a.0) _ (int_of-Suffices a.0) λ w e.
                  bind-Suffices (int_of a.1) _ (int_of-Suffices a.1) λ x e.
                    bind-Suffices (int_of b.0) _ (int_of-Suffices b.0) λ y e.
                      bind-Suffices (int_of b.1) _ (int_of-Suffices b.1) λ z e. ok-Suffices _)

parse_body-Suffices : (lines : List Text) (b : HunkBody) → Suffices (parse_body lines b)
unfolding parse_body
parse_body-Suffices [] b = ok-Suffices _
parse_body-Suffices (line ∷ lines) b = ground (
  arith,
  parse_body-Suffices lines (mark_no_newline b),
  parse_body-Suffices lines (add_line line b),
)

parse_hunk-Suffices : (header : Text) (lines : List Text) → Suffices (parse_hunk header lines)
unfolding parse_hunk
parse_hunk-Suffices header lines =
    bind-Suffices (parse_header header) _ (parse_header-Suffices header) λ h e.
      bind-Suffices (parse_body lines empty_body) _ (parse_body-Suffices lines empty_body) λ b e.
        require-Suffices (b.0.old_seen == h.old_count && b.0.new_seen == h.new_count)
          "invalid_patch" _ (ok-Suffices _)

parse_hunks-Suffices :
    (rounds max total : ℕ) (hunks : List PatchHunk) (lines : List Text)
    → length lines < rounds
    → Suffices (parse_hunks rounds max total hunks lines)
unfolding parse_hunks
parse_hunks-Suffices zero max total hunks lines h = absurd (omega arith)
parse_hunks-Suffices (suc rounds) max total hunks [] h = ok-Suffices _
parse_hunks-Suffices (suc rounds) max total hunks (line ∷ lines) h =
    elim (Bool-cases (is_hunk line)) [
      | inr other ↦ rw other (ok-Suffices _)
      | inl hunk_line ↦ rw hunk_line (
          bind-Suffices (parse_hunk line lines) _ (parse_hunk-Suffices line lines) λ a e.
            require-Suffices (leb (total + 1) max) "patch_too_large" _ (
              parse_hunks-Suffices rounds max (total + 1) (hunks ++ a.0 ∷ []) a.1
                (omega (arith, (parse_hunk-IsCountedHunk line lines a.0 a.1 e).1))))
    ]

checked_path-Suffices : (value : Text) → Suffices (checked_path value)
unfolding checked_path
checked_path-Suffices value =
    require-Suffices (not (is_unsafe _)) "invalid_patch_path" _ (ok-Suffices _)

patch_path-Suffices : (value : Text) → Suffices (patch_path value)
unfolding patch_path
patch_path-Suffices value = checked_path-Suffices (header_value value)

patch_path_or_null-Suffices : (value : Text) → Suffices (patch_path_or_null value)
unfolding patch_path_or_null
patch_path_or_null-Suffices value = elim (Bool-cases (header_value value == codes "/dev/null")) [
  | inl null ↦ rw null (ok-Suffices _)
  | inr other ↦ rw other (
      bind-Suffices (checked_path (header_value value)) _
        (checked_path-Suffices (header_value value)) (λ path e. ok-Suffices _))
]

parse_metadata-Suffices :
    (old new : Option Text) (lines : List Text) → Suffices (parse_metadata old new lines)
unfolding parse_metadata
parse_metadata-Suffices old new [] = ok-Suffices _
parse_metadata-Suffices old new (line ∷ lines) =
    let from_line : Suffices
        (patch_path (drop 12 line) >>= λ path. parse_metadata (some path) new lines) =
      bind-Suffices (patch_path (drop 12 line)) _ (patch_path-Suffices (drop 12 line))
        (λ path e. parse_metadata-Suffices (some path) new lines) in
    let to_line : Suffices
        (patch_path (drop 10 line) >>= λ path. parse_metadata old (some path) lines) =
      bind-Suffices (patch_path (drop 10 line)) _ (patch_path-Suffices (drop 10 line))
        (λ path e. parse_metadata-Suffices old (some path) lines) in
    elim (Bool-cases (is_old_file line || is_diff line)) [
      | inl end ↦ rw end (ok-Suffices _)
      | inr inside ↦ elim (Bool-cases (is_rename_from line)) [
        | inl e ↦ rw (inside, e) from_line
        | inr not_from ↦ elim (Bool-cases (is_rename_to line)) [
          | inl e ↦ rw (inside, not_from, e) to_line
          | inr not_to ↦ elim (Bool-cases (is_ignored line)) [
            | inl e ↦ rw (inside, not_from, not_to, e) (parse_metadata-Suffices old new lines)
            | inr other ↦ elim (Bool-cases (is_unsupported line)) [
              | inl e ↦ rw (inside, not_from, not_to, other, e) (raise-Suffices _)
              | inr e ↦ rw (inside, not_from, not_to, other, e) (raise-Suffices _)
            ]
          ]
        ]
      ]
    ]

parse_changes-Suffices :
    (rounds max total : ℕ) (old new : Option Text) (lines : List Text)
    → length lines < rounds
    → Suffices (parse_changes rounds max total old new lines)
unfolding parse_changes
parse_changes-Suffices rounds max total old new [] h = ok-Suffices _
parse_changes-Suffices rounds max total old new (line ∷ []) h =
    elim (Bool-cases (is_old_file line)) [
      | inr other ↦ rw other (ok-Suffices _)
      | inl header ↦ rw header (
          bind-Suffices (patch_path_or_null (drop 4 line)) _
            (patch_path_or_null-Suffices (drop 4 line)) (λ path e. raise-Suffices _))
    ]
parse_changes-Suffices rounds max total old new (line ∷ next ∷ lines) h =
    elim (Bool-cases (is_old_file line)) [
      | inr other ↦ rw other (ok-Suffices _)
      | inl header ↦ rw header (
          bind-Suffices (patch_path_or_null (drop 4 line)) _
            (patch_path_or_null-Suffices (drop 4 line))
            λ old' e. require-Suffices (is_new_file next) "invalid_patch" _ (
              bind-Suffices (patch_path_or_null (drop 4 next)) _
                (patch_path_or_null-Suffices (drop 4 next))
                λ new' e.
                  bind-Suffices (parse_hunks rounds max total [] lines) _
                    (parse_hunks-Suffices rounds max total [] lines (omega arith))
                    (λ r e. ok-Suffices _)))
    ]

file_patch-Suffices :
    (rename_old rename_new old new : Option Text) (hunks : List PatchHunk)
    → Suffices (file_patch rename_old rename_new old new hunks)
unfolding file_patch
file_patch-Suffices (some rename_old) (some rename_new) old new hunks = ok-Suffices _
file_patch-Suffices (some rename_old) none old new hunks = raise-Suffices _
file_patch-Suffices none (some rename_new) old new hunks = raise-Suffices _
file_patch-Suffices none none none new hunks =
    require-Suffices (not (hunks_empty hunks)) "invalid_patch" _ (ok-Suffices _)
file_patch-Suffices none none (some old) none hunks =
    require-Suffices (not (hunks_empty hunks)) "invalid_patch" _ (ok-Suffices _)
file_patch-Suffices none none (some old) (some new) hunks =
    require-Suffices (not (hunks_empty hunks)) "invalid_patch" _ (ok-Suffices _)

header_paths-Suffices : (ws : List Text) → Suffices (header_paths ws)
header_paths-Suffices [] = raise-Suffices _
header_paths-Suffices (a ∷ []) = raise-Suffices _
header_paths-Suffices (a ∷ b ∷ []) = raise-Suffices _
header_paths-Suffices (a ∷ b ∷ c ∷ []) = raise-Suffices _
header_paths-Suffices (a ∷ b ∷ c ∷ d ∷ []) =
    bind-Suffices (patch_path c) _ (patch_path-Suffices c)
      λ old e. bind-Suffices (patch_path d) _ (patch_path-Suffices d) λ new e. ok-Suffices _
header_paths-Suffices (a ∷ b ∷ c ∷ d ∷ e ∷ ws) = raise-Suffices _

parse_file-Suffices :
    (rounds max total : ℕ) (line : Text) (lines : List Text)
    → length lines < rounds
    → Suffices (parse_file rounds max total line lines)
unfolding parse_file parse_git_header
parse_file-Suffices rounds max total line lines h =
    require-Suffices (is_diff line) "invalid_patch" _ (
      bind-Suffices (header_paths (words line)) _ (header_paths-Suffices (words line)) λ p e.
        bind-Suffices (parse_metadata none none lines) _ (parse_metadata-Suffices none none lines)
          λ m read.
            let (_, _, shorter) = parse_metadata_read none none lines m.0 m.1 m.2 tt tt read in
            bind-Suffices (parse_changes rounds max total (some p.0) (some p.1) m.2) _
              (parse_changes-Suffices rounds max total (some p.0) (some p.1) m.2 (omega arith))
              λ c e'.
                bind-Suffices (file_patch m.0 m.1 c.0 c.1 c.2) _
                  (file_patch-Suffices m.0 m.1 c.0 c.1 c.2) (λ f e''. ok-Suffices _))

parse_files-Suffices :
    (rounds : ℕ) (limits : PatchLimits) (total : ℕ) (files : List FilePatch) (lines : List Text)
    → total ≤ limits.max_hunks
    → length lines < rounds
    → Suffices (parse_files rounds limits total files lines)
unfolding parse_files
parse_files-Suffices zero limits total files lines below h = absurd (omega arith)
parse_files-Suffices (suc rounds) limits total files [] below h = ok-Suffices _
parse_files-Suffices (suc rounds) limits total files (line ∷ lines) below h =
    bind-Suffices (parse_file rounds limits.max_hunks total line lines) _
      (parse_file-Suffices rounds limits.max_hunks total line lines (omega arith))
      λ r parsed.
        let read = parse_file-FileRead rounds limits.max_hunks total line lines r below parsed in
        require-Suffices
          (not (target_of r.0 == none) && not (contains (targets_of files) (target_of r.0)))
          "invalid_patch" _
          (require-Suffices (leb (length files + 1) limits.max_files) "patch_too_large" _ (
            parse_files-Suffices rounds limits r.1 (files ++ r.0 ∷ []) r.2 read.bounded
              (omega (arith, read.shorter))))

-- The parser ends on every text, by its own tests: the rounds that its loops are given, one more
-- than there are lines, never run out.
pub parse_unified_patch-Suffices :
    (text : Text) (limits : PatchLimits) → parse_unified_patch text limits ≢ err out_of_rounds
unfolding parse_unified_patch
parse_unified_patch-Suffices text limits =
    let lines = splitlines (normalized text) in
    require-Suffices (leb (utf8_length text) limits.max_bytes) "patch_too_large" _ (
      require-Suffices (not (lines == [])) "invalid_patch" _ (
        require-Suffices (not (any is_unsupported lines)) "unsupported_patch" _ (
          bind-Suffices (parse_files (length lines + 1) limits 0 [] lines) _
            (parse_files-Suffices (length lines + 1) limits 0 [] lines (omega arith) (omega arith))
            (λ r e. ok-Suffices _))))
