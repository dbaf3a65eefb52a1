-- ===== src/Prelude/Order.antt =====
-- Comparison of texts and of tuples of texts, as Python's `sorted` and SQLite's ORDER BY make it:
-- by the first place where they differ.
use computerpilot_mcp.Prelude.{
  ℕ, List, [], ◌∷◌, Bool, true, false, ◌&&◌, ◌||◌, ◌≡◌, ◌⊎◌, arith, ltb, ◌==◌, ℕ_eq, list_eq,
}

-- xs < ys
abbrev pub text_lt : List ℕ → List ℕ → Bool
text_lt [] [] = false
text_lt [] (y ∷ ys) = true
text_lt (x ∷ xs) [] = false
text_lt (x ∷ xs) (y ∷ ys) = ltb x y || (x == y && text_lt xs ys)

pub text_lt_irrefl : (xs : List ℕ) → text_lt xs xs ≡ false
text_lt_irrefl [] = ground arith
text_lt_irrefl (x ∷ xs) = ground (arith, text_lt_irrefl xs)

pub text_lt_trans :
    (xs ys zs : List ℕ) → text_lt xs ys ≡ true → text_lt ys zs ≡ true → text_lt xs zs ≡ true
text_lt_trans [] [] zs h k = k
text_lt_trans [] (y ∷ ys) [] h k = k
text_lt_trans [] (y ∷ ys) (z ∷ zs) h k = h
text_lt_trans (x ∷ xs) [] zs h k = ground arith
text_lt_trans (x ∷ xs) (y ∷ ys) [] h k = k
text_lt_trans (x ∷ xs) (y ∷ ys) (z ∷ zs) h k = ground (arith, text_lt_trans xs ys zs)

pub text_lt_total : (xs ys : List ℕ) → (text_lt xs ys ≡ true) ⊎ ((xs ≡ ys) ⊎ (text_lt ys xs ≡ true))
text_lt_total [] [] = ground arith
text_lt_total [] (y ∷ ys) = ground arith
text_lt_total (x ∷ xs) [] = ground arith
text_lt_total (x ∷ xs) (y ∷ ys) = ground (arith, text_lt_total xs ys)
