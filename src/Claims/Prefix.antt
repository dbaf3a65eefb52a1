-- ===== src/Claims/Prefix.antt =====
-- The tests on lists of components that the claims make are all tests for a prefix.
use computerpilot_mcp.Prelude.{
  ℕ, suc, Bool, true, false, ◌&&◌, ◌||◌, List, [], ◌∷◌, ◌≡◌, ◌↔◌, refl, arith, min, length, take,
  ◌==◌, ℕ_eq, list_eq, list_beq_iff,
}
use computerpilot_mcp.Claims.Path.{common_prefix}

abbrev pub is_prefix : List (List ℕ) → List (List ℕ) → Bool
is_prefix [] ys = true
is_prefix (x ∷ xs) [] = false
is_prefix (x ∷ xs) (y ∷ ys) = x == y && is_prefix xs ys

pub part_iff : (x y : List ℕ) → ((x == y) ≡ true) ↔ (x ≡ y)
part_iff x y = list_beq_iff x y

pub part_sym : (x y : List ℕ) → (x == y) ≡ (y == x)
part_sym x y = ground (arith, part_iff x y, part_iff y x)

pub take-is_prefix : (l r : List (List ℕ)) → (take (length l) r == l) ≡ is_prefix l r
take-is_prefix [] r = refl
take-is_prefix (x ∷ xs) [] = refl
take-is_prefix (x ∷ xs) (y ∷ ys) = ground (arith, part_sym x y, take-is_prefix xs ys)

pub common-is_prefix : (l r : List (List ℕ)) → (common_prefix l r == l) ≡ is_prefix l r
unfolding common_prefix
common-is_prefix [] r = refl
common-is_prefix (x ∷ xs) [] = refl
common-is_prefix (x ∷ xs) (y ∷ ys) = ground (arith, part_iff x x, common-is_prefix xs ys)

pub common-is_prefix_right : (l r : List (List ℕ)) → (common_prefix l r == r) ≡ is_prefix r l
unfolding common_prefix
common-is_prefix_right [] [] = refl
common-is_prefix_right [] (y ∷ ys) = refl
common-is_prefix_right (x ∷ xs) [] = refl
common-is_prefix_right (x ∷ xs) (y ∷ ys) =
    ground (arith, part_sym x y, common-is_prefix_right xs ys)

min-suc : (a b : ℕ) → min (suc a) (suc b) ≡ suc (min a b)
min-suc a b = omega arith

min_zero : (a : ℕ) → (min 0 a ≡ 0) × (min a 0 ≡ 0)
min_zero a = omega arith

pub take-min :
    (l r : List (List ℕ))
    → (take (min (length l) (length r)) l == take (min (length l) (length r)) r)
      ≡ (is_prefix l r || is_prefix r l)
take-min [] r = rw ((min_zero (length r)).0)
take-min (x ∷ xs) [] = rw ((min_zero (suc (length xs))).1)
take-min (x ∷ xs) (y ∷ ys) = rw min-suc (ground (arith, part_iff x y, part_iff y x, take-min xs ys))

pub is_prefix_refl : (l : List (List ℕ)) → is_prefix l l ≡ true
is_prefix_refl [] = refl
is_prefix_refl (x ∷ xs) = ground (arith, part_iff x x, is_prefix_refl xs)

pub is_prefix_trans :
    (a b c : List (List ℕ)) → is_prefix a b ≡ true → is_prefix b c ≡ true → is_prefix a c ≡ true
is_prefix_trans [] b c h k = refl
is_prefix_trans (x ∷ xs) [] c h k = cc
is_prefix_trans (x ∷ xs) (y ∷ ys) [] h k = k
is_prefix_trans (x ∷ xs) (y ∷ ys) (z ∷ zs) h k =
    ground (arith, part_iff x y, part_iff y z, part_iff x z, is_prefix_trans xs ys zs)

-- Two prefixes of one list are prefixes of one another, one way or the other.
pub is_prefix_comparable :
    (a b c : List (List ℕ))
    → is_prefix a c ≡ true
    → is_prefix b c ≡ true
    → (is_prefix a b || is_prefix b a) ≡ true
is_prefix_comparable [] b c h k = refl
is_prefix_comparable (x ∷ xs) [] c h k = refl
is_prefix_comparable (x ∷ xs) (y ∷ ys) [] h k = cc
is_prefix_comparable (x ∷ xs) (y ∷ ys) (z ∷ zs) h k =
    ground
      (arith, part_iff x y, part_iff y x, part_iff y z, part_iff x z, is_prefix_comparable xs ys zs)
