-- ===== src/Patches/Lines.antt =====
-- The lines that a sequence of hunks makes of the lines of a file.
use mathlib.Core.List.{append-nil, append_assoc}
use computerpilot_mcp.Prelude.{
  ℕ, zero, suc, ◌+◌, List, [], ◌∷◌, ◌++◌, some, ◌≡◌, arith, ◌==◌, ℕ_eq, list_eq, list_beq_iff,
  length, drop, get_elem?, if◌then◌else◌, Bool-cases, Option-cases, inl, inr,
}
use computerpilot_mcp.Prelude.Result.{ok, Result-cases}
use computerpilot_mcp.Patches.{Text, PatchHunk, is_old, apply_line, apply_body, start_of}

-- The lines of a hunk that the file has, and those that it gets.
abbrev pub old_side : List Text → List Text
old_side [] = []
old_side ([] ∷ lines) = old_side lines
old_side ((prefix ∷ content) ∷ lines) =
    let rest = old_side lines in if is_old prefix then content ∷ rest else rest

abbrev pub new_side : List Text → List Text
new_side [] = []
new_side ([] ∷ lines) = new_side lines
new_side ((prefix ∷ content) ∷ lines) =
    let rest = new_side lines in if prefix == b'-' then rest else content ∷ rest

-- From the line `at` on, each hunk stands where it says, its old lines are those of the file there,
-- and its new lines replace them; all other lines stay.
abbrev pub Edited : ℕ → List PatchHunk → List Text → List Text → Type 0
Edited at [] source output = output ≡ source
Edited at (hunk ∷ hunks) source output =
    (gap : List Text) × (rest : List Text) × (output' : List Text) × (start_of hunk
      ≡ at + length gap)
    × (source ≡ gap ++ (old_side hunk.lines ++ rest))
    × (output ≡ gap ++ (new_side hunk.lines ++ output'))
    × Edited (at + length gap + length (old_side hunk.lines)) hunks rest output'

drop_at {ℓ} :
    {A : Type ℓ} (xs : List A) (i : ℕ) (x : A)
    → get_elem? xs i ≡ some x
    → drop i xs ≡ x ∷ drop (suc i) xs
drop_at [] i y h = cc
drop_at (x ∷ xs) zero y h = ground arith
drop_at (x ∷ xs) (suc i) y h = drop_at xs i y h

-- What one line does.
line_outcome :
    (source : List Text) (line : Text) (cursor : ℕ) (output : List Text) (c : ℕ) (o : List Text)
    → apply_line source line cursor output ≡ ok (c, o)
    → (drop cursor source ≡ old_side (line ∷ []) ++ drop c source)
      × (o ≡ output ++ new_side (line ∷ []))
      × (c ≡ cursor + length (old_side (line ∷ [])))
unfolding apply_line
line_outcome source [] cursor output c o h = cc
line_outcome source (prefix ∷ content) cursor output c o h = elim (Bool-cases (is_old prefix)) [
  | inr added ↦ ground (arith, added)
  | inl old ↦ elim (Option-cases (get_elem? source cursor)) [
    | inl past ↦ ground (arith, old, past)
    | inr (line, at) ↦ ground (
      arith,
      old,
      at,
      drop_at source cursor line at,
      list_beq_iff line content,
      append-nil output,
    )
  ]
]

pub body_outcome :
    (source lines : List Text) (cursor : ℕ) (output : List Text) (c : ℕ) (o : List Text)
    → apply_body source lines cursor output ≡ ok (c, o)
    → (drop cursor source ≡ old_side lines ++ drop c source)
      × (o ≡ output ++ new_side lines)
      × (c ≡ cursor + length (old_side lines))
unfolding apply_body
body_outcome source [] cursor output c o h = ground (arith, append-nil output)
body_outcome source (line ∷ lines) cursor output c o h =
    elim (Result-cases (apply_line source line cursor output)) [
      | inl (error, failed) ↦ ground (arith, failed)
      | inr ((c1, o1), applied) ↦
          let (old, new, count) = line_outcome source line cursor output c1 o1 applied in
          let (olds, news, counts) =
            body_outcome source lines c1 o1 c o (ground (arith, applied)) in
          sides line old new count olds news counts
    ]
  where
    sides :
        (line : Text) {c1 : ℕ} {o1 : List Text}
        → drop cursor source ≡ old_side (line ∷ []) ++ drop c1 source
        → o1 ≡ output ++ new_side (line ∷ [])
        → c1 ≡ cursor + length (old_side (line ∷ []))
        → drop c1 source ≡ old_side lines ++ drop c source
        → o ≡ o1 ++ new_side lines
        → c ≡ c1 + length (old_side lines)
        → (drop cursor source ≡ old_side (line ∷ lines) ++ drop c source)
          × (o ≡ output ++ new_side (line ∷ lines))
          × (c ≡ cursor + length (old_side (line ∷ lines)))
    sides [] old new count olds news counts = ground (arith, append-nil output)
    sides (prefix ∷ content) {c1} {o1} old new count olds news counts =
        ground (arith, append-nil output, append_assoc output (content ∷ []) (new_side lines))
