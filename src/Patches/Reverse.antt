-- ===== src/Patches/Reverse.antt =====
-- The reverse of a sequence of hunks, which takes the result back.
use mathlib.Core.Path.{subst}
use computerpilot_mcp.Prelude.{
  ℕ, suc, ◌+◌, ◌-◌, List, [], ◌∷◌, ◌++◌, ◌≡◌, ◌≢◌, refl, ap, sym, ◌∙◌, arith, ◌==◌, ℕ_eq, list_eq,
  length, if◌then◌else◌, All, map,
}
use computerpilot_mcp.Prelude.Result.{ok}
use computerpilot_mcp.Patches.{Text, PatchHunk, start_of, apply_from}
use computerpilot_mcp.Patches.Lines.{old_side, new_side, Edited}
use computerpilot_mcp.Patches.Hunks.{HasPrefixes, apply_from-iff-Edited}

-- The line of the reverse hunk.
abbrev reverse_line : Text → Text
reverse_line [] = []
reverse_line (prefix ∷ content) =
    (if prefix == b' ' then prefix else if prefix == b'-' then b'+' else b'-') ∷ content

-- The reverse hunks, of which the first stands `at` lines into the file and `new_at` into the result.
abbrev pub reverse_hunks : ℕ → ℕ → List PatchHunk → List PatchHunk
reverse_hunks at new_at [] = []
reverse_hunks at new_at (hunk ∷ hunks) =
    let start = new_at + (start_of hunk - at) in
    record {
      old_start = suc start;
      old_count = hunk.new_count;
      new_start = hunk.old_start;
      new_count = hunk.old_count;
      lines = map reverse_line hunk.lines;
      old_no_newline = hunk.new_no_newline;
      new_no_newline = hunk.old_no_newline;
    }
    ∷ reverse_hunks (start_of hunk + length (old_side hunk.lines))
        (start + length (new_side hunk.lines)) hunks

old_side-reverse : (lines : List Text) → old_side (map reverse_line lines) ≡ new_side lines
old_side-reverse [] = refl
old_side-reverse ([] ∷ lines) = old_side-reverse lines
old_side-reverse ((prefix ∷ content) ∷ lines) = ground (arith, old_side-reverse lines)

new_side-reverse : (lines : List Text) → new_side (map reverse_line lines) ≡ old_side lines
new_side-reverse [] = refl
new_side-reverse ([] ∷ lines) = new_side-reverse lines
new_side-reverse ((prefix ∷ content) ∷ lines) = ground (arith, new_side-reverse lines)

reverse-HasPrefixes :
    (lines : List Text)
    → All (λ line. line ≢ []) lines
    → All (λ line. line ≢ []) (map reverse_line lines)
reverse-HasPrefixes [] h = tt
reverse-HasPrefixes ([] ∷ lines) h = absurd (h.0 refl)
reverse-HasPrefixes ((prefix ∷ content) ∷ lines) h = (λ e. cc, reverse-HasPrefixes lines h.1)

reverse_hunks-HasPrefixes :
    (at new_at : ℕ) (hunks : List PatchHunk)
    → All HasPrefixes hunks
    → All HasPrefixes (reverse_hunks at new_at hunks)
reverse_hunks-HasPrefixes at new_at [] h = tt
reverse_hunks-HasPrefixes at new_at (hunk ∷ hunks) h = (
  reverse-HasPrefixes hunk.lines h.0,
  reverse_hunks-HasPrefixes (start_of hunk + length (old_side hunk.lines))
      (new_at + (start_of hunk - at) + length (new_side hunk.lines)) hunks h.1,
)

reverse_hunks-Edited :
    (at new_at : ℕ) (hunks : List PatchHunk) (source output : List Text)
    → Edited at hunks source output
    → Edited new_at (reverse_hunks at new_at hunks) output source
reverse_hunks-Edited at new_at [] source output e = sym e
reverse_hunks-Edited at new_at (hunk ∷ hunks) source output
      (gap, rest, made, start, old, new, later) =
    let size : start_of hunk - at ≡ length gap = omega arith in
    let c1 = start_of hunk + length (old_side hunk.lines) in
    let counted : at + length gap + length (old_side hunk.lines) ≡ c1 = omega arith in
    let n1 = new_at + (start_of hunk - at) + length (new_side hunk.lines) in
    let new_counted : n1 ≡ new_at + length gap + length (old_side (map reverse_line hunk.lines)) =
      omega (arith, ap length (old_side-reverse hunk.lines)) in
    (
      gap,
      made,
      rest,
      omega arith,
      new ∙ ap (λ xs. gap ++ (xs ++ made)) (sym (old_side-reverse hunk.lines)),
      old ∙ ap (λ xs. gap ++ (xs ++ rest)) (sym (new_side-reverse hunk.lines)),
      subst (λ n. Edited n (reverse_hunks c1 n1 hunks) made rest) new_counted
          (reverse_hunks-Edited c1 n1 hunks rest made
            (subst (λ c. Edited c hunks rest made) counted later)),
    )

-- When hunks without empty lines have been applied to the lines of a file, their reverses, placed
-- where the new lines are, apply to the result and give the lines of the file back.
pub apply_from-reverse_hunks :
    (source : List Text) (hunks : List PatchHunk) (output : List Text)
    → All HasPrefixes hunks
    → apply_from source hunks 0 [] ≡ ok output
    → apply_from output (reverse_hunks 0 0 hunks) 0 [] ≡ ok source
apply_from-reverse_hunks source hunks output full h =
    (apply_from-iff-Edited output (reverse_hunks 0 0 hunks) source
        (reverse_hunks-HasPrefixes 0 0 hunks full)).1
      (reverse_hunks-Edited 0 0 hunks source output
        ((apply_from-iff-Edited source hunks output full).0 h))
