-- ===== src/Patches/Parse/Hunk.antt =====
-- What the parser knows of a hunk: the counts of its header are those of its lines, and no line is
-- empty.
use mathlib.Core.Path.{subst}
use computerpilot_mcp.Prelude.{
  ◌≤◌, true, List, [], ◌∷◌, ◌++◌, ◌≡◌, ◌≢◌, refl, arith, ap, ℕ_eq, list_eq, length, length-append,
  All, All-append, Bool-cases, inl, inr,
}
use computerpilot_mcp.Prelude.Result.{ok, Result-cases}
use computerpilot_mcp.Patches.{Text, PatchHunk}
use computerpilot_mcp.Patches.Lines.{old_side, new_side}
use computerpilot_mcp.Patches.Hunks.{HasPrefixes}
use computerpilot_mcp.Patches.Parse.{
  HunkBody, mark_no_newline, add_line, is_end_of_hunk, is_marker, is_hunk_line, parse_body,
  parse_header, parse_hunk, empty_body,
}

old_side-append : (xs ys : List Text) → old_side (xs ++ ys) ≡ old_side xs ++ old_side ys
old_side-append [] ys = refl
old_side-append ([] ∷ xs) ys = old_side-append xs ys
old_side-append ((prefix ∷ content) ∷ xs) ys = ground (arith, old_side-append xs ys)

new_side-append : (xs ys : List Text) → new_side (xs ++ ys) ≡ new_side xs ++ new_side ys
new_side-append [] ys = refl
new_side-append ([] ∷ xs) ys = new_side-append xs ys
new_side-append ((prefix ∷ content) ∷ xs) ys = ground (arith, new_side-append xs ys)

record IsSeen (b : HunkBody) : Type 0 where
  old : b.old_seen ≡ length (old_side b.lines)
  new : b.new_seen ≡ length (new_side b.lines)
  full : All (λ line. line ≢ []) b.lines

add_line-IsSeen :
    (line : Text) (b : HunkBody) → is_hunk_line line ≡ true → IsSeen b → IsSeen (add_line line b)
unfolding is_hunk_line
add_line-IsSeen [] b h s = cc
add_line-IsSeen (prefix ∷ content) b h s =
    let line : Text = prefix ∷ content in
    record {
      old = ground (
        arith,
        ap length (old_side-append b.lines (line ∷ [])),
        length-append (old_side b.lines) (old_side (line ∷ [])),
        s.old,
      );
      new = ground (
        arith,
        ap length (new_side-append b.lines (line ∷ [])),
        length-append (new_side b.lines) (new_side (line ∷ [])),
        s.new,
      );
      full = All-append (λ x. x ≢ []) b.lines (line ∷ []) s.full (λ e. cc, tt);
    }

body-IsSeen :
    (lines : List Text) (b b' : HunkBody) (rest : List Text)
    → IsSeen b
    → parse_body lines b ≡ ok (b', rest)
    → IsSeen b' × (length rest ≤ length lines)
unfolding parse_body
body-IsSeen [] b b' rest s h = ground arith
body-IsSeen (line ∷ lines) b b' rest s h = elim (Bool-cases (is_end_of_hunk line)) [
  | inl end ↦ ground (arith, end)
  | inr inside ↦ elim (Bool-cases (is_marker line)) [
    | inl marker ↦
        let (seen, shorter) =
          body-IsSeen lines (mark_no_newline b) b' rest
            (record { old = s.old; new = s.new; full = s.full }) (ground (arith, inside, marker)) in
        (seen, omega arith)
    | inr other ↦ elim (Bool-cases (is_hunk_line line)) [
      | inl good ↦
          let (seen, shorter) =
            body-IsSeen lines (add_line line b) b' rest (add_line-IsSeen line b good s)
              (ground (arith, inside, other, good)) in
          (seen, omega arith)
      | inr bad ↦ absurd (ground (arith, inside, other, bad))
    ]
  ]
]

-- The counts of a hunk's header are those of its lines, of which none is empty.
pub record IsCountedHunk (hunk : PatchHunk) : Type 0 where
  pub old : hunk.old_count ≡ length (old_side hunk.lines)
  pub new : hunk.new_count ≡ length (new_side hunk.lines)
  pub full : HasPrefixes hunk

pub parse_hunk-IsCountedHunk :
    (header : Text) (lines : List Text) (hunk : PatchHunk) (rest : List Text)
    → parse_hunk header lines ≡ ok (hunk, rest)
    → IsCountedHunk hunk × (length rest ≤ length lines)
unfolding parse_hunk
parse_hunk-IsCountedHunk header lines hunk rest h = elim (Result-cases (parse_header header)) [
  | inl (error, failed) ↦ absurd (ground (arith, failed))
  | inr (head, parsed) ↦ elim (Result-cases (parse_body lines empty_body)) [
    | inl (error, failed) ↦ absurd (ground (arith, parsed, failed))
    | inr ((b, others), read) ↦
        let (seen, shorter) =
          body-IsSeen lines empty_body b others (record { old = refl; new = refl; full = tt })
            read in
        let same : b.lines ≡ hunk.lines = ground (arith, parsed, read) in
        let same_rest : others ≡ rest = ground (arith, parsed, read) in
        (
          record {
            old = ground (arith, parsed, read, ap (λ xs. length (old_side xs)) same, seen.old);
            new = ground (arith, parsed, read, ap (λ xs. length (new_side xs)) same, seen.new);
            full = subst (All (λ line. line ≢ [])) same seen.full;
          },
          omega (arith, ap length same_rest),
        )
  ]
]
