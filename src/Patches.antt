-- ===== src/Patches.antt =====
-- tools/filesystem/patches.py: unified diffs, and the application of their hunks to a text.
-- A text is the list of its code points, without lone surrogates.
pub mod Lines
pub mod Slices
pub mod Hunks
pub mod Reverse
pub mod Breaks
pub mod Parse
pub mod Path
pub mod Files
pub mod Commit
pub mod Prepare
use computerpilot_mcp.Prelude.{
  ℕ, zero, suc, ◌+◌, ◌-◌, String, Bool, true, false, not, ◌&&◌, ◌||◌, List, [], ◌∷◌, ◌++◌, Option,
  none, some, ◌==◌, ℕ_eq, list_eq, ltb, length, take, drop, get_elem?, if◌then◌else◌,
}
use computerpilot_mcp.Prelude.Text.{replace}
use computerpilot_mcp.Prelude.Result.{Result, ok, err, value_error, raise, require, ◌>>=◌, ◌>>◌}

abbrev pub Text : Type 0
Text = List ℕ

pub record PatchHunk : Type 0 where
  pub old_start : ℕ
  pub old_count : ℕ
  pub new_start : ℕ
  pub new_count : ℕ
  pub lines : List Text
  pub old_no_newline : Bool
  pub new_no_newline : Bool

-- s.replace("\r\n", "\n")
unfoldable pub replace_crlf : Text → Text
replace_crlf [] = []
replace_crlf (c ∷ []) = c ∷ []
replace_crlf (c ∷ d ∷ cs) =
    let pair = 10 ∷ replace_crlf cs in
    let other = c ∷ replace_crlf (d ∷ cs) in if c == 13 && d == 10 then pair else other

-- s.replace("\r\n", "\n").replace("\r", "\n")
unfoldable pub normalized : Text → Text
unfolding replace_crlf
normalized s = replace 13 10 (replace_crlf s)

-- The characters that end a line for str.splitlines.
abbrev pub is_line_break : ℕ → Bool
is_line_break c =
    c == 10
    || c == 11
    || c == 12
    || c == 13
    || c == 28
    || c == 29
    || c == 30
    || c == 133
    || c == 8232
    || c == 8233

abbrev pub push_first : ℕ → List Text → List Text
push_first c [] = (c ∷ []) ∷ []
push_first c (line ∷ lines) = (c ∷ line) ∷ lines

-- s.splitlines(), of a text without "\r\n"
unfoldable pub splitlines : Text → List Text
splitlines [] = []
splitlines (c ∷ cs) =
    let rest = splitlines cs in if is_line_break c then [] ∷ rest else push_first c rest

-- s.count("\r\n") and s.count("\n")
unfoldable pub count_crlf : Text → ℕ
count_crlf [] = 0
count_crlf (c ∷ []) = 0
count_crlf (c ∷ d ∷ cs) = (if c == 13 && d == 10 then 1 else 0) + count_crlf (d ∷ cs)

unfoldable pub count_lf : Text → ℕ
count_lf [] = 0
count_lf (c ∷ cs) = (if c == 10 then 1 else 0) + count_lf cs

-- _newline
unfoldable pub newline_of : Text → Text
unfolding count_crlf count_lf
newline_of text =
    let crlf = count_crlf text in
    let lf = count_lf text - crlf in if ltb lf crlf then 13 ∷ 10 ∷ [] else 10 ∷ []

-- newline.join(lines)
unfoldable pub join : Text → List Text → Text
join separator [] = []
join separator (line ∷ []) = line
join separator (line ∷ next ∷ lines) = line ++ (separator ++ join separator (next ∷ lines))

-- s.endswith(("\n", "\r"))
unfoldable pub ends_with_break : Text → Bool
ends_with_break [] = false
ends_with_break (c ∷ []) = c == 10 || c == 13
ends_with_break (c ∷ d ∷ cs) = ends_with_break (d ∷ cs)

abbrev pub is_old : ℕ → Bool
is_old prefix = prefix == b' ' || prefix == b'-'

-- One line of a hunk, at the cursor. The parser lets no empty line through.
unfoldable pub apply_line : List Text → Text → ℕ → List Text → Result (ℕ × List Text)
apply_line source [] cursor output = err (value_error "string index out of range")
apply_line source (prefix ∷ content) cursor output =
    if is_old prefix
    then elim (get_elem? source cursor) [
      | none ↦ raise "patch_context_mismatch"
      | some line ↦
          if line == content
          then ok (suc cursor, if prefix == b' ' then output ++ line ∷ [] else output)
          else raise "patch_context_mismatch"
    ]
    else ok (cursor, output ++ content ∷ [])

unfoldable pub apply_body : List Text → List Text → ℕ → List Text → Result (ℕ × List Text)
unfolding apply_line
apply_body source [] cursor output = ok (cursor, output)
apply_body source (line ∷ lines) cursor output = do
  (cursor', output') ← apply_line source line cursor output
  apply_body source lines cursor' output'

-- hunk.old_start - 1 if hunk.old_start else 0; both are 0 at 0, where `-` stops
abbrev pub start_of : PatchHunk → ℕ
start_of hunk = hunk.old_start - 1

-- source[first:last]
abbrev pub slice {ℓ} : {A : Type ℓ} → ℕ → ℕ → List A → List A
slice first last xs = take (last - first) (drop first xs)

-- The loop over the hunks, and the lines after the last. The variable previous_end is the cursor
-- wherever it is read.
unfoldable pub apply_from : List Text → List PatchHunk → ℕ → List Text → Result (List Text)
unfolding apply_body
apply_from source [] cursor output = ok (output ++ drop cursor source)
apply_from source (hunk ∷ hunks) cursor output = do
  let start = start_of hunk
  require (not (ltb start cursor || ltb (length source) start)) "patch_context_mismatch"
  (cursor', output') ← apply_body source hunk.lines start (output ++ slice cursor start source)
  apply_from source hunks cursor' output'

-- bool(hunks and hunks[-1].new_no_newline)
unfoldable pub last_has_no_newline : List PatchHunk → Bool
last_has_no_newline [] = false
last_has_no_newline (hunk ∷ []) = hunk.new_no_newline
last_has_no_newline (hunk ∷ next ∷ hunks) = last_has_no_newline (next ∷ hunks)

abbrev pub is_empty {ℓ} : {A : Type ℓ} → List A → Bool
is_empty [] = true
is_empty (x ∷ xs) = false

-- _apply_hunks
unfoldable pub apply_hunks : Text → List PatchHunk → Result Text
unfolding newline_of ends_with_break normalized splitlines apply_from join last_has_no_newline
apply_hunks before hunks = do
  let newline = newline_of before
  output ← apply_from (splitlines (normalized before)) hunks 0 []
  let ends = ends_with_break before || is_empty before && not (is_empty hunks)
  let result = join newline output
  ok (if ends && not (last_has_no_newline hunks) then result ++ newline else result)
