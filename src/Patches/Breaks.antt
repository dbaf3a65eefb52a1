-- ===== src/Patches/Breaks.antt =====
-- What applying hunks does to the line breaks of a file that it is not asked to change.
use mathlib.Core.Path.{subst, fun_ext}
use computerpilot_mcp.Prelude.{
  ℕ, ◌+◌, Bool, true, false, not, ◌||◌, List, [], ◌∷◌, ◌++◌, ◌≡◌, refl, sym, ap, ◌∙◌, arith, ◌==◌,
  ℕ_eq, length, ltb, contains, map, All, All-append, Bool-cases, inl, inr, if◌then◌else◌,
}
use computerpilot_mcp.Prelude.Result.{ok, >>=-eq-ok, ok-injective, ◌>>=◌, ◌>>◌, require}
use computerpilot_mcp.Patches.{
  Text, PatchHunk, is_line_break, push_first, normalized, splitlines, newline_of, join,
  ends_with_break, is_empty, apply_from, apply_body, start_of, slice, apply_hunks,
}
use computerpilot_mcp.Patches.Lines.{old_side, new_side, Edited}
use computerpilot_mcp.Patches.Hunks.{from_outcome}

-- No line has the character.
abbrev pub AllWithout : ℕ → List Text → Type 0
AllWithout c = All (λ line. contains line c ≡ false)

contains-append : (xs ys : Text) (c : ℕ) → contains (xs ++ ys) c ≡ (contains xs c || contains ys c)
contains-append [] ys c = refl
contains-append (x ∷ xs) ys c = ground (arith, contains-append xs ys c)

push_first-AllWithout :
    (x c : ℕ) (lines : List Text)
    → (c == x) ≡ false
    → AllWithout c lines
    → AllWithout c (push_first x lines)
push_first-AllWithout x c [] h k = ground arith
push_first-AllWithout x c (line ∷ lines) h k = (ground arith, k.1)

splitlines-AllWithout :
    (c : ℕ) (text : Text) → is_line_break c ≡ true → AllWithout c (splitlines text)
unfolding splitlines
splitlines-AllWithout c [] h = tt
splitlines-AllWithout c (x ∷ text) h = elim (Bool-cases (is_line_break x)) [
  | inl e ↦ rw e (refl, splitlines-AllWithout c text h)
  | inr e ↦
      rw e (
        push_first-AllWithout x c (splitlines text) (apart c x h e)
          (splitlines-AllWithout c text h))
]
  where
    apart : (a b : ℕ) → is_line_break a ≡ true → is_line_break b ≡ false → (a == b) ≡ false
    apart a b p q = elim (Bool-cases (a == b)) [
      | inr e ↦ e
      | inl e ↦
          let same : a ≡ b = ground (arith, e) in
          absurd (ground (arith, p, q, ap is_line_break same))
    ]

split-append :
    (c : ℕ) (xs ys : List Text) → AllWithout c (xs ++ ys) → AllWithout c xs × AllWithout c ys
split-append c [] ys h = (tt, h)
split-append c (x ∷ xs) ys h = let (a, b) = split-append c xs ys h.1 in ((h.0, a), b)

Edited-AllWithout :
    (c at : ℕ) (hunks : List PatchHunk) (source output : List Text)
    → All (λ hunk. AllWithout c (new_side hunk.lines)) hunks
    → AllWithout c source
    → Edited at hunks source output
    → AllWithout c output
Edited-AllWithout c at [] source output h k e = subst (AllWithout c) (sym e) k
Edited-AllWithout c at (hunk ∷ hunks) source output h k (gap, rest, made, start, old, new, later) =
    let (in_gap, others) =
      split-append c gap (old_side hunk.lines ++ rest) (subst (AllWithout c) old k) in
    let (_, in_rest) = split-append c (old_side hunk.lines) rest others in
    let in_made =
      Edited-AllWithout c (at + length gap + length (old_side hunk.lines)) hunks rest made h.1
        in_rest later in
    subst (AllWithout c) (sym new) (
      All-append _ gap (new_side hunk.lines ++ made) in_gap
        (All-append _ (new_side hunk.lines) made h.0 in_made))

join-without :
    (c : ℕ) (newline : Text) (lines : List Text)
    → contains newline c ≡ false
    → AllWithout c lines
    → contains (join newline lines) c ≡ false
unfolding join
join-without c newline [] h k = refl
join-without c newline (line ∷ []) h k = k.0
join-without c newline (line ∷ next ∷ lines) h k = ground (
  arith,
  contains-append line (newline ++ join newline (next ∷ lines)) c,
  contains-append newline (join newline (next ∷ lines)) c,
  join-without c newline (next ∷ lines) h k.1,
  k.0,
)

newline-without :
    (c : ℕ) (text : Text)
    → (c == 10) ≡ false
    → (c == 13) ≡ false
    → contains (newline_of text) c ≡ false
unfolding newline_of
newline-without c text h k = ground arith

-- If the new lines of the hunks are without a line break that is neither of the two of newlines, it
-- is nowhere in the patched text, even where it stood in lines of the file that no hunk changes.
pub apply_hunks_drops_breaks :
    (c : ℕ) (before : Text) (hunks : List PatchHunk) (result : Text)
    → is_line_break c ≡ true
    → (c == 10) ≡ false
    → (c == 13) ≡ false
    → All (λ hunk. AllWithout c (new_side hunk.lines)) hunks
    → apply_hunks before hunks ≡ ok result
    → contains result c ≡ false
unfolding apply_hunks
apply_hunks_drops_breaks c before hunks result break not_lf not_cr added h =
    let source = splitlines (normalized before) in
    let newline = newline_of before in
    let (output, applied, h1) = >>=-eq-ok (apply_from source hunks 0 []) _ h in
    let (made, e, edited) = from_outcome source hunks 0 [] output applied in
    let clean =
      Edited-AllWithout c 0 hunks source made added
        (splitlines-AllWithout c (normalized before) break) edited in
    let plain = newline-without c before not_lf not_cr in
    let joined : contains (join newline output) c ≡ false =
      join-without c newline output plain (subst (AllWithout c) (sym e) clean) in
    ended newline (join newline output) plain joined _ (ok-injective h1)
  where
    ended :
        (newline text : Text)
        → contains newline c ≡ false
        → contains text c ≡ false
        → (more : Bool) → (if more then text ++ newline else text) ≡ result
        → contains result c ≡ false
    ended newline text p q true e =
        ap (λ t. contains t c) (sym e) ∙ ground (arith, contains-append text newline c)
    ended newline text p q false e = ap (λ t. contains t c) (sym e) ∙ q

-- The hunk without its marks of a missing newline.
abbrev pub unmarked : PatchHunk → PatchHunk
unmarked hunk = record hunk { old_no_newline = false; new_no_newline = false }

apply_from-unmarked :
    (source : List Text) (hunks : List PatchHunk) (cursor : ℕ) (output : List Text)
    → apply_from source (map unmarked hunks) cursor output ≡ apply_from source hunks cursor output
unfolding apply_from
apply_from-unmarked source [] cursor output = refl
apply_from-unmarked source (hunk ∷ hunks) cursor output =
    let start = start_of hunk in
    ap
      (λ k.
        require (not (ltb start cursor || ltb (length source) start)) "patch_context_mismatch"
        >> (apply_body source hunk.lines start (output ++ slice cursor start source) >>= k))
      (fun_ext λ r. apply_from-unmarked source hunks r.0 r.1)

-- If a text is not empty and does not end with "\n" or "\r", the text after the hunks, or the error,
-- does not depend on the marks of a missing newline in the hunks.
pub apply_hunks_ignores_marks :
    (before : Text) (hunks : List PatchHunk)
    → ends_with_break before ≡ false
    → is_empty before ≡ false
    → apply_hunks before (map unmarked hunks) ≡ apply_hunks before hunks
unfolding apply_hunks
apply_hunks_ignores_marks before hunks open_end some_text =
    let source = splitlines (normalized before) in
    rw (open_end, some_text)
      (ap (λ m. m >>= λ output. ok (join (newline_of before) output))
        (apply_from-unmarked source hunks 0 []))
