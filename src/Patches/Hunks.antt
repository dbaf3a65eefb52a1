-- ===== src/Patches/Hunks.antt =====
-- Hunks are applied exactly when they fit the lines of the file.
use mathlib.Core.List.{append-nil, append_assoc}
use mathlib.Core.Path.{subst}
use computerpilot_mcp.Prelude.{
  ℕ, suc, ◌+◌, ◌≤◌, List, [], ◌∷◌, ◌++◌, ◌≡◌, ◌≢◌, ◌↔◌, refl, ap, sym, ◌∙◌, arith, ℕ_eq, list_eq,
  list_beq_iff, length, length-append, drop, Bool-cases, inl, inr, All,
}
use computerpilot_mcp.Prelude.Result.{ok, Result-cases}
use computerpilot_mcp.Patches.{
  Text, PatchHunk, is_old, apply_line, apply_body, start_of, slice, apply_from,
}
use computerpilot_mcp.Patches.Lines.{old_side, new_side, Edited, body_outcome}
use computerpilot_mcp.Patches.Slices.{drop-slice, length-slice, drop_inv, length-drop, split_at}

pub from_outcome :
    (source : List Text) (hunks : List PatchHunk) (cursor : ℕ) (output r : List Text)
    → apply_from source hunks cursor output ≡ ok r
    → (made : List Text) × (r ≡ output ++ made) × Edited cursor hunks (drop cursor source) made
unfolding apply_from
from_outcome source [] cursor output r h = (drop cursor source, ground arith, refl)
from_outcome source (hunk ∷ hunks) cursor output r h =
    let start = start_of hunk in
    let gap = slice cursor start source in
    elim (Result-cases (apply_body source hunk.lines start (output ++ gap))) [
      | inl (error, failed) ↦ absurd (ground (arith, failed))
      | inr ((c1, o1), applied) ↦
          let bounds : (cursor ≤ start) × (start ≤ length source) = ground (arith, applied) in
          let (olds, news, count) =
            body_outcome source hunk.lines start (output ++ gap) c1 o1 applied in
          let (made, e, edited) = from_outcome source hunks c1 o1 r (ground (arith, applied)) in
          let size = length-slice source cursor start bounds.0 bounds.1 in
          (
            gap ++ (new_side hunk.lines ++ made),
            e
                ∙ ap (λ xs. xs ++ made) news
                ∙ append_assoc (output ++ gap) (new_side hunk.lines) made
                ∙ append_assoc output gap (new_side hunk.lines ++ made),
            (
              gap,
              drop c1 source,
              made,
              sym size,
              drop-slice source cursor start bounds.0 ∙ ap (λ xs. gap ++ xs) olds,
              refl,
              subst (λ c. Edited c hunks (drop c1 source) made) (omega (arith, count, size)) edited,
            ),
          )
    ]

-- The parser lets no empty line into a hunk.
abbrev pub HasPrefixes : PatchHunk → Type 0
HasPrefixes hunk = All (λ line. line ≢ []) hunk.lines

line_applies :
    (source : List Text) (line : Text) (cursor : ℕ) (output rest : List Text)
    → line ≢ []
    → drop cursor source ≡ old_side (line ∷ []) ++ rest
    → (apply_line source line cursor output
        ≡ ok (cursor + length (old_side (line ∷ [])), output ++ new_side (line ∷ [])))
      × (drop (cursor + length (old_side (line ∷ []))) source ≡ rest)
unfolding apply_line
line_applies source [] cursor output rest some_prefix h = absurd (some_prefix refl)
line_applies source (prefix ∷ content) cursor output rest some_prefix h =
    elim (Bool-cases (is_old prefix)) [
      | inr added ↦ (
        ground (arith, added),
        let e : cursor + 0 ≡ cursor = omega arith in ground (arith, added, e),
      )
      | inl old ↦
          let here : drop cursor source ≡ content ∷ rest = ground (arith, old) in
          let (at, after) = drop_inv source cursor content rest here in
          let e : cursor + 1 ≡ suc cursor = omega arith in
          (
            ground (arith, old, at, e, list_beq_iff content content, append-nil output),
            ground (arith, old, after, e),
          )
    ]

old_side-cons :
    (line : Text) (lines : List Text)
    → old_side (line ∷ lines) ≡ old_side (line ∷ []) ++ old_side lines
old_side-cons [] lines = refl
old_side-cons (prefix ∷ content) lines = ground arith

new_side-cons :
    (line : Text) (lines : List Text)
    → new_side (line ∷ lines) ≡ new_side (line ∷ []) ++ new_side lines
new_side-cons [] lines = refl
new_side-cons (prefix ∷ content) lines = ground arith

body_applies :
    (source lines : List Text) (cursor : ℕ) (output rest : List Text)
    → All (λ line. line ≢ []) lines
    → drop cursor source ≡ old_side lines ++ rest
    → (apply_body source lines cursor output
        ≡ ok (cursor + length (old_side lines), output ++ new_side lines))
      × (drop (cursor + length (old_side lines)) source ≡ rest)
unfolding apply_body
body_applies source [] cursor output rest full h =
    let e : cursor + 0 ≡ cursor = omega arith in (rw (e, append-nil output) refl, rw e h)
body_applies source (line ∷ lines) cursor output rest full h =
    let one = old_side (line ∷ []) in
    let (applied, left) = line_applies source line cursor output (old_side lines ++ rest) full.0 (
      h
      ∙ ap (λ xs. xs ++ rest) (old_side-cons line lines)
      ∙ append_assoc one (old_side lines) rest) in
    let (others, end) =
      body_applies source lines (cursor + length one) (output ++ new_side (line ∷ [])) rest full.1
        left in
    let size : cursor + length one + length (old_side lines)
        ≡ cursor + length (old_side (line ∷ lines)) =
      omega (arith, ap length (old_side-cons line lines), length-append one (old_side lines)) in
    let made : (output ++ new_side (line ∷ [])) ++ new_side lines
        ≡ output ++ new_side (line ∷ lines) =
      append_assoc output (new_side (line ∷ [])) (new_side lines)
      ∙ ap (λ xs. output ++ xs) (sym (new_side-cons line lines)) in
    (
      rw applied (others ∙ ap ok (λ i. (size i, made i))),
      subst (λ c. drop c source ≡ rest) size end,
    )

from_applies :
    (source : List Text) (hunks : List PatchHunk) (cursor : ℕ) (output made : List Text)
    → All HasPrefixes hunks
    → cursor ≤ length source
    → Edited cursor hunks (drop cursor source) made
    → apply_from source hunks cursor output ≡ ok (output ++ made)
unfolding apply_from
from_applies source [] cursor output made full h e = ap (λ xs. ok (output ++ xs)) (sym e)
from_applies source (hunk ∷ hunks) cursor output made full h
      (gap, rest, made', at, old, new, later) =
    let size : length (drop cursor source) + cursor ≡ length source = length-drop source cursor h in
    let long : length (drop cursor source) ≡ length gap + length (old_side hunk.lines ++ rest) =
      ap length old ∙ length-append gap (old_side hunk.lines ++ rest) in
    let bounds : (cursor ≤ start_of hunk) × (start_of hunk ≤ length source) =
      (omega arith, omega arith) in
    let (same_gap, from_start) =
      split_at source cursor (start_of hunk) gap (old_side hunk.lines ++ rest) at old in
    let (applied, left) =
      body_applies source hunk.lines (start_of hunk) (output ++ slice cursor (start_of hunk) source)
        rest full.0 from_start in
    let c1 = start_of hunk + length (old_side hunk.lines) in
    let fits : c1 ≤ length source = omega (arith, length-append (old_side hunk.lines) rest) in
    let counted : cursor + length gap + length (old_side hunk.lines) ≡ c1 = omega arith in
    let gap' = slice cursor (start_of hunk) source in
    let next =
      from_applies source hunks c1 ((output ++ gap') ++ new_side hunk.lines) made' full.1 fits (
        subst (λ xs. Edited c1 hunks xs made') (sym left)
          (subst (λ c. Edited c hunks rest made') counted later)) in
    let joined : ((output ++ gap') ++ new_side hunk.lines) ++ made' ≡ output ++ made =
      append_assoc (output ++ gap') (new_side hunk.lines) made'
      ∙ append_assoc output gap' (new_side hunk.lines ++ made')
      ∙ ap (λ xs. output ++ (xs ++ (new_side hunk.lines ++ made'))) same_gap
      ∙ ap (λ xs. output ++ xs) (sym new) in
    ground (arith, bounds, applied, next, joined)

-- Hunks without empty lines are applied to the lines of a file exactly when each of them stands
-- where it says and its old lines are those of the file there, and the result has the new lines in
-- their place.
pub apply_from-iff-Edited :
    (source : List Text) (hunks : List PatchHunk) (output : List Text)
    → All HasPrefixes hunks
    → (apply_from source hunks 0 [] ≡ ok output) ↔ Edited 0 hunks source output
apply_from-iff-Edited source hunks output full = (
  λ h. let (made, e, edited) = from_outcome source hunks 0 [] output h in rw e edited,
  λ edited. from_applies source hunks 0 [] output full (omega arith) edited,
)
