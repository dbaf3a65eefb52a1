-- ===== src/Patches/Slices.antt =====
-- Slices of lists, and what is left of a list from an index on.
use mathlib.Core.List.{append-nil}
use computerpilot_mcp.Prelude.{
  ℕ, zero, suc, ◌+◌, ◌-◌, ◌≤◌, List, [], ◌∷◌, ◌++◌, some, ◌≡◌, refl, ap, sym, ◌∙◌, arith, ℕ_eq,
  list_eq, length, take, drop, get_elem?,
}
use computerpilot_mcp.Patches.{slice}

take-drop {ℓ} : {A : Type ℓ} (k : ℕ) (xs : List A) → take k xs ++ drop k xs ≡ xs
take-drop zero xs = refl
take-drop (suc k) [] = refl
take-drop (suc k) (x ∷ xs) = ap (λ r. x ∷ r) (take-drop k xs)

take-nil {ℓ} : {A : Type ℓ} (k : ℕ) → take {A = A} k [] ≡ []
take-nil zero = refl
take-nil (suc k) = refl

length-take {ℓ} : {A : Type ℓ} (xs : List A) (k : ℕ) → k ≤ length xs → length (take k xs) ≡ k
length-take xs zero h = refl
length-take [] (suc k) h = absurd (omega arith)
length-take (x ∷ xs) (suc k) h = ap suc (length-take xs k (omega arith))

pub drop-slice {ℓ} :
    {A : Type ℓ} (xs : List A) (first last : ℕ)
    → first ≤ last
    → drop first xs ≡ slice first last xs ++ drop last xs
drop-slice xs zero last h = let e : last - 0 ≡ last = omega arith in rw e (sym (take-drop last xs))
drop-slice xs (suc first) zero h = absurd (omega arith)
drop-slice [] (suc first) (suc last) h = sym (append-nil _ ∙ take-nil (suc last - suc first))
drop-slice (x ∷ xs) (suc first) (suc last) h =
    let e : suc last - suc first ≡ last - first = omega arith in
    rw e (drop-slice xs first last (omega arith))

pub length-slice {ℓ} :
    {A : Type ℓ} (xs : List A) (first last : ℕ)
    → first ≤ last
    → last ≤ length xs
    → first + length (slice first last xs) ≡ last
length-slice xs zero last h k =
    let e : last - 0 ≡ last = omega arith in rw e (omega (arith, length-take xs last k))
length-slice xs (suc first) zero h k = absurd (omega arith)
length-slice [] (suc first) (suc last) h k = absurd (omega arith)
length-slice (x ∷ xs) (suc first) (suc last) h k =
    let e : suc last - suc first ≡ last - first = omega arith in
    rw e (omega (arith, length-slice xs first last (omega arith) (omega arith)))

pub drop_inv {ℓ} :
    {A : Type ℓ} (xs : List A) (i : ℕ) (y : A) (ys : List A)
    → drop i xs ≡ y ∷ ys
    → (get_elem? xs i ≡ some y) × (drop (suc i) xs ≡ ys)
drop_inv [] zero y ys h = absurd (cc)
drop_inv [] (suc i) y ys h = absurd (cc)
drop_inv (x ∷ xs) zero y ys h = ground arith
drop_inv (x ∷ xs) (suc i) y ys h = drop_inv xs i y ys h

pub length-drop {ℓ} :
    {A : Type ℓ} (xs : List A) (i : ℕ) → i ≤ length xs → length (drop i xs) + i ≡ length xs
length-drop xs zero h = omega arith
length-drop [] (suc i) h = absurd (omega arith)
length-drop (x ∷ xs) (suc i) h = omega (arith, length-drop xs i (omega arith))

-- Where the lines from the cursor on begin with `gap`, it is the slice, and the rest follows it.
pub split_at {ℓ} :
    {A : Type ℓ} (xs : List A) (first last : ℕ) (gap rest : List A)
    → last ≡ first + length gap
    → drop first xs ≡ gap ++ rest
    → (slice first last xs ≡ gap) × (drop last xs ≡ rest)
split_at xs first last [] rest at h =
    let e : last ≡ first = omega arith in
    let z : first - first ≡ 0 = omega arith in rw (e, z) (refl, h)
split_at xs first zero (y ∷ gap) rest at h = absurd (omega arith)
split_at xs first (suc last) (y ∷ gap) rest at h =
    let (here, after) = drop_inv xs first y (gap ++ rest) h in
    let (same, left) = split_at xs (suc first) (suc last) gap rest (omega arith) after in
    let e : suc last - first ≡ suc (suc last - suc first) = omega arith in
    (rw (e, h) (ap (λ r. y ∷ r) (ap (take (suc last - suc first)) (sym after) ∙ same)), left)
