-- ===== src/Tests/Patching.antt =====
-- Patches that are parsed and applied, and the theorems at them.
use computerpilot_mcp.Prelude.{
  ℕ, true, false, List, [], ◌∷◌, Option, none, some, ◌≡◌, ◌≢◌, ◌≤◌, refl, ℕ_eq, list_eq, contains,
  map, All,
}
use computerpilot_mcp.Prelude.Text.{codes, utf8_length}
use computerpilot_mcp.Prelude.Result.{ok, err}
use computerpilot_mcp.Patches.{Text, PatchHunk, apply_from, apply_hunks, ends_with_break}
use computerpilot_mcp.Patches.Lines.{Edited}
use computerpilot_mcp.Patches.Hunks.{HasPrefixes, apply_from-iff-Edited}
use computerpilot_mcp.Patches.Reverse.{reverse_hunks, apply_from-reverse_hunks}
use computerpilot_mcp.Patches.Breaks.{unmarked, apply_hunks_drops_breaks, apply_hunks_ignores_marks}
use computerpilot_mcp.Patches.Parse.{
  default_limits, FilePatch, PatchSet, is_end_of_hunk, is_marker, is_hunk_line,
}
use computerpilot_mcp.Patches.Path.{is_unsafe, as_posix}
use computerpilot_mcp.Patches.Files.{
  parse_unified_patch, out_of_rounds, is_unsupported, is_diff, is_old_file, is_new_file, is_hunk,
}
use computerpilot_mcp.Patches.Files.Promised.{IsWithin, parse_unified_patch-IsWithin}
use computerpilot_mcp.Patches.Files.Rounds.{parse_unified_patch-Suffices}
use computerpilot_mcp.Patches.Commit.{FilePath, Files, put, PreparedFile, commit}
use computerpilot_mcp.Patches.Prepare.{Host, prepare, apply_patch_transaction}
use computerpilot_mcp.Patches.Commit.Transaction.{apply_patch_transaction_restores}
use computerpilot_mcp.Patches.Commit.Loss.{in_place, commit_loses_target}

abbrev hunk : ℕ → ℕ → ℕ → ℕ → List Text → PatchHunk
hunk old_start old_count new_start new_count lines = record {
  old_start = old_start;
  old_count = old_count;
  new_start = new_start;
  new_count = new_count;
  lines = lines;
  old_no_newline = false;
  new_no_newline = false;
}

-- Two hunks, which replace the line "b" and take "d" away.
abbrev source : List Text
source = codes "a" ∷ codes "b" ∷ codes "c" ∷ codes "d" ∷ codes "e" ∷ []

abbrev edits : List PatchHunk
edits =
    hunk 1 2 1 3 (codes " a" ∷ codes "-b" ∷ codes "+x" ∷ codes "+y" ∷ [])
    ∷ hunk 4 1 5 0 (codes "-d" ∷ [])
    ∷ []

abbrev edited : List Text
edited = codes "a" ∷ codes "x" ∷ codes "y" ∷ codes "c" ∷ codes "e" ∷ []

edits_applied : apply_from source edits 0 [] ≡ ok edited
unfolding apply_from
edits_applied = refl

edits_prefixed : All HasPrefixes edits
edits_prefixed = ((λ e. cc, (λ e. cc, (λ e. cc, (λ e. cc, tt)))), ((λ e. cc, tt), tt))

apply_from-iff-Edited_example : Edited 0 edits source edited
apply_from-iff-Edited_example =
    (apply_from-iff-Edited source edits edited edits_prefixed).0 edits_applied

apply_from-reverse_hunks_example : apply_from edited (reverse_hunks 0 0 edits) 0 [] ≡ ok source
apply_from-reverse_hunks_example =
    apply_from-reverse_hunks source edits edited edits_prefixed edits_applied

-- The second line of the file holds a form feed, and the hunk changes the first.
abbrev with_form_feed : Text
with_form_feed = b'a' ∷ 10 ∷ b'b' ∷ 12 ∷ b'c' ∷ 10 ∷ []

abbrev first_line : List PatchHunk
first_line = hunk 1 1 1 1 (codes "-a" ∷ codes "+x" ∷ []) ∷ []

abbrev without_form_feed : Text
without_form_feed = b'x' ∷ 10 ∷ b'b' ∷ 10 ∷ b'c' ∷ 10 ∷ []

form_feed_applied : apply_hunks with_form_feed first_line ≡ ok without_form_feed
unfolding apply_hunks
form_feed_applied = refl

apply_hunks_drops_breaks_example : contains without_form_feed 12 ≡ false
apply_hunks_drops_breaks_example =
    apply_hunks_drops_breaks 12 with_form_feed first_line without_form_feed refl refl refl
      ((refl, tt), tt) form_feed_applied

-- A hunk that gives the last line the newline that it misses.
abbrev add_newline : List PatchHunk
add_newline = record (hunk 1 1 1 1 (codes "-a" ∷ codes "+a" ∷ [])) { old_no_newline = true } ∷ []

newline_missed : apply_hunks (codes "a") add_newline ≡ ok (codes "a")
unfolding apply_hunks
newline_missed = refl

open_end : ends_with_break (codes "a") ≡ false
unfolding ends_with_break
open_end = refl

apply_hunks_ignores_marks_example :
    apply_hunks (codes "a") (map unmarked add_newline) ≡ apply_hunks (codes "a") add_newline
apply_hunks_ignores_marks_example = apply_hunks_ignores_marks (codes "a") add_newline open_end refl

abbrev diff : Text
diff = codes "diff --git a/x b/x\n--- a/x\n+++ b/x\n@@ -1 +1 @@\n-a\n+b\n"

abbrev change : FilePatch
change = in_place (codes "x") (codes "x") (hunk 1 1 1 1 (codes "-a" ∷ codes "+b" ∷ []) ∷ [])

abbrev parsed_diff : PatchSet
parsed_diff = record { files = change ∷ []; bytes = 53; hunks = 1 }

diff_parsed : parse_unified_patch diff default_limits ≡ ok parsed_diff
unfolding parse_unified_patch is_end_of_hunk is_marker is_hunk_line is_unsupported is_diff is_unsafe
    is_old_file is_new_file is_hunk as_posix
diff_parsed = refl

parse_unified_patch-IsWithin_example :
    IsWithin default_limits (change ∷ []) 1 × (53 ≡ utf8_length diff) × (53 ≤ 2_000_000)
parse_unified_patch-IsWithin_example =
    parse_unified_patch-IsWithin diff default_limits parsed_diff diff_parsed

parse_unified_patch-Suffices_example : parse_unified_patch diff default_limits ≢ err out_of_rounds
parse_unified_patch-Suffices_example = parse_unified_patch-Suffices diff default_limits

-- A host without links, whose texts are their own bytes.
abbrev host : Host
host = record {
  resolve = λ path. some path;
  decode = λ encoding bytes. some bytes;
  encode = λ encoding text. some text;
  is_python_file = λ path. false;
  parses = λ text. true;
  sha256 = λ bytes. bytes;
  casefold = λ text. text;
}

abbrev utf_8 : Option FilePath → Text
utf_8 path = codes "utf-8"

abbrev disk : Files
disk =
    put (codes "x") (some (b'a' ∷ 10 ∷ [])) (put (codes "y") (some (codes "kept")) (λ path. none))

-- The file is written and then the validation fails.
abbrev undone : Files
undone =
    put (codes "x") (some (b'a' ∷ 10 ∷ []))
      (put (codes "x") none (put (codes "x") none (put (codes "x") (some (b'b' ∷ 10 ∷ [])) disk)))

change_undone :
    apply_patch_transaction host diff default_limits utf_8 false [] (some 1) disk
    ≡ ok (false, undone)
unfolding apply_patch_transaction parse_unified_patch is_end_of_hunk is_marker is_hunk_line
    is_unsupported is_diff is_unsafe is_old_file is_new_file is_hunk as_posix apply_hunks
change_undone = refl

apply_patch_transaction_restores_example : undone (codes "x") ≡ disk (codes "x")
apply_patch_transaction_restores_example =
    apply_patch_transaction_restores host diff default_limits utf_8 false [] (some 1) disk undone
      parsed_diff diff_parsed (refl, tt) change_undone (codes "x")

-- A change whose headers name "x" and "y".
abbrev astray : List PatchHunk
astray = hunk 1 1 1 1 (codes "-a" ∷ codes "+b" ∷ []) ∷ []

abbrev prepared : PreparedFile
prepared = record {
  patch = in_place (codes "x") (codes "y") astray;
  source = some (codes "x");
  target = some (codes "y");
  before = some (b'a' ∷ 10 ∷ []);
  after = some (b'b' ∷ 10 ∷ []);
}

astray_ready : prepare host utf_8 disk (in_place (codes "x") (codes "y") astray) ≡ ok prepared
unfolding prepare apply_hunks
astray_ready = refl

commit_loses_target_example : (commit (some 1) (prepared ∷ []) disk).1 (codes "y") ≡ none
commit_loses_target_example =
    commit_loses_target host utf_8 disk (codes "x") (codes "y") astray (codes "x") (codes "y")
      prepared 1 refl refl refl astray_ready
