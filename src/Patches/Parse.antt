-- ===== src/Patches/Parse.antt =====
-- The parser of unified diffs. What it has not read yet is a list of lines, in place of an index.
-- `\d` and `int` also take the digits of other scripts; here a digit is one of ASCII.
pub mod Paths
pub mod Hunk
use computerpilot_mcp.Prelude.{
  ℕ, zero, suc, ◌+◌, ◌-◌, ◌*◌, String, Bool, true, false, not, ◌&&◌, ◌||◌, List, [], ◌∷◌, ◌++◌,
  Option, none, some, ◌==◌, ℕ_eq, list_eq, ltb, leb, length, drop, any, contains, keep_if,
  if◌then◌else◌,
}
use computerpilot_mcp.Prelude.Text.{codes, split, is_space, utf8_length}
use computerpilot_mcp.Prelude.Result.{
  Result, ok, err, Error, value_error, raise, require, ◌>>=◌, ◌>>◌,
}
use computerpilot_mcp.Patches.{Text, PatchHunk, normalized, splitlines, join}

pub record PatchLimits : Type 0 where
  pub max_bytes : ℕ
  pub max_files : ℕ
  pub max_hunks : ℕ

abbrev pub default_limits : PatchLimits
default_limits = record { max_bytes = 2_000_000; max_files = 100; max_hunks = 1_000 }

pub data PatchKind : Type 0 where
  create modify delete rename : PatchKind

pub record FilePatch : Type 0 where
  pub kind : PatchKind
  pub old_path : Option Text
  pub new_path : Option Text
  pub hunks : List PatchHunk

pub record PatchSet : Type 0 where
  pub files : List FilePatch
  pub bytes : ℕ
  pub hunks : ℕ

-- s.startswith(prefix), and s.startswith of a tuple of prefixes
unfoldable pub starts_with : Text → Text → Bool
starts_with [] s = true
starts_with (p ∷ prefix) [] = false
starts_with (p ∷ prefix) (c ∷ s) = p == c && starts_with prefix s

unfoldable pub starts_with_any : List Text → Text → Bool
unfolding starts_with
starts_with_any prefixes s = any (λ prefix. starts_with prefix s) prefixes

abbrev pub diff_prefix : Text
diff_prefix = codes "diff --git "

abbrev pub hunk_prefix : Text
hunk_prefix = codes "@@ "

abbrev pub unsupported_prefixes : List Text
unsupported_prefixes =
    codes "diff --cc "
    ∷ codes "diff --combined "
    ∷ codes "GIT binary patch"
    ∷ codes "Binary files "
    ∷ codes "old mode "
    ∷ codes "new mode "
    ∷ codes "new file mode 120000"
    ∷ codes "deleted file mode 120000"
    ∷ []

-- Matching by _HUNK_HEADER: a literal, and a run of digits.
abbrev pub expect : Text → Text → Result Text
expect prefix s =
    if starts_with prefix s then ok (drop (length prefix) s) else raise "invalid_patch"

abbrev pub is_digit : ℕ → Bool
is_digit c = leb b'0' c && leb c b'9'

abbrev pub digits_of : Text → Text × Text
digits_of [] = ([], [])
digits_of (c ∷ cs) =
    let (digits, rest) = digits_of cs in if is_digit c then (c ∷ digits, rest) else ([], c ∷ cs)

abbrev pub some_digits : Text → Result (Text × Text)
some_digits s =
    let (digits, rest) = digits_of s in
    require (not (digits == [])) "invalid_patch" >> ok (digits, rest)

-- (\d+)(?:,(\d+))?, with "1" for a group that is not there
abbrev pub digits_pair : Text → Result (Text × Text × Text)
digits_pair s = do
  (first, rest) ← some_digits s
  (if starts_with (b',' ∷ []) rest
      then some_digits (drop 1 rest) >>= (λ (second, rest'). ok (first, second, rest'))
      else ok (first, b'1' ∷ [], rest))

-- int(digits), which is limited to 4300 digits
abbrev pub number_from : ℕ → Text → ℕ
number_from n [] = n
number_from n (c ∷ cs) = number_from (10 * n + (c - b'0')) cs

abbrev pub int_of : Text → Result ℕ
int_of digits =
    if ltb 4300 (length digits) then err (value_error "int") else ok (number_from 0 digits)

pub record HunkHeader : Type 0 where
  pub old_start : ℕ
  pub old_count : ℕ
  pub new_start : ℕ
  pub new_count : ℕ

unfoldable pub parse_header : Text → Result HunkHeader
parse_header line = do
  s ← expect (codes "@@ -") line
  (old_start, old_count, s) ← digits_pair s
  s ← expect (codes " +") s
  (new_start, new_count, s) ← digits_pair s
  s ← expect (codes " @@") s
  require (s == [] || starts_with (b' ' ∷ []) s) "invalid_patch"
  old_start ← int_of old_start
  old_count ← int_of old_count
  new_start ← int_of new_start
  new_count ← int_of new_count
  ok (record {
    old_start = old_start;
    old_count = old_count;
    new_start = new_start;
    new_count = new_count;
  })

-- The variables of the loop over the lines of a hunk.
pub record HunkBody : Type 0 where
  pub lines : List Text
  pub old_seen : ℕ
  pub new_seen : ℕ
  pub old_no_newline : Bool
  pub new_no_newline : Bool

-- body[-1][0] in prefixes, of a body that is not empty
abbrev pub first_in : List ℕ → Text → Bool
first_in prefixes [] = false
first_in prefixes (c ∷ cs) = contains prefixes c

abbrev pub last_first_in : List ℕ → List Text → Bool
last_first_in prefixes [] = false
last_first_in prefixes (line ∷ []) = first_in prefixes line
last_first_in prefixes (line ∷ next ∷ lines) = last_first_in prefixes (next ∷ lines)

abbrev pub old_prefixes : List ℕ
old_prefixes = b' ' ∷ b'-' ∷ []

abbrev pub new_prefixes : List ℕ
new_prefixes = b' ' ∷ b'+' ∷ []

abbrev pub mark_no_newline : HunkBody → HunkBody
mark_no_newline b = record b {
  old_no_newline = b.old_no_newline || last_first_in old_prefixes b.lines;
  new_no_newline = b.new_no_newline || last_first_in new_prefixes b.lines;
}

abbrev pub add_line : Text → HunkBody → HunkBody
add_line line b = record b {
  lines = b.lines ++ line ∷ [];
  old_seen = if first_in old_prefixes line then b.old_seen + 1 else b.old_seen;
  new_seen = if first_in new_prefixes line then b.new_seen + 1 else b.new_seen;
}

unfoldable pub is_end_of_hunk : Text → Bool
is_end_of_hunk line = starts_with hunk_prefix line || starts_with diff_prefix line

unfoldable pub is_marker : Text → Bool
is_marker line = line == codes "\\ No newline at end of file"

-- not line or line[0] not in {" ", "+", "-"}
unfoldable pub is_hunk_line : Text → Bool
is_hunk_line line = first_in (b' ' ∷ b'+' ∷ b'-' ∷ []) line

unfoldable pub parse_body : List Text → HunkBody → Result (HunkBody × List Text)
parse_body [] b = ok (b, [])
parse_body (line ∷ lines) b =
    let marked = parse_body lines (mark_no_newline b) in
    let added = parse_body lines (add_line line b) in
    if is_end_of_hunk line
    then ok (b, line ∷ lines)
    else if is_marker line
    then (if b.lines == [] then raise "invalid_patch" else marked)
    else if is_hunk_line line
    then added
    else raise "invalid_patch"

abbrev pub empty_body : HunkBody
empty_body = record {
  lines = [];
  old_seen = 0;
  new_seen = 0;
  old_no_newline = false;
  new_no_newline = false;
}

unfoldable pub parse_hunk : Text → List Text → Result (PatchHunk × List Text)
unfolding parse_header parse_body
parse_hunk header lines = do
  h ← parse_header header
  (b, rest) ← parse_body lines empty_body
  require (b.old_seen == h.old_count && b.new_seen == h.new_count) "invalid_patch"
  ok (
    record {
      old_start = h.old_start;
      old_count = h.old_count;
      new_start = h.new_start;
      new_count = h.new_count;
      lines = b.lines;
      old_no_newline = b.old_no_newline;
      new_no_newline = b.new_no_newline;
    },
    rest,
  )
