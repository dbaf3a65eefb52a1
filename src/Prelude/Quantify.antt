-- ===== src/Prelude/Quantify.antt =====
-- Python's `any`, `all`, `sum` and comprehensions over lists, in terms of All and Any.
use computerpilot_mcp.Prelude.{
  ℕ, Bool, true, false, not, ◌&&◌, ◌||◌, List, [], ◌∷◌, ◌≡◌, ◌⊎◌, inl, inr, refl, arith, any, all,
  keep_if, sum_of, All, Bool-cases,
}

module _ {ℓ} {A : Type ℓ} where
  -- `P` holds of some element.
  abbrev pub Any : (A → Type 0) → List A → Type 0
  Any P [] = ⊥
  Any P (x ∷ xs) = P x ⊎ Any P xs

  pub all-All : (p : A → Bool) (xs : List A) → all p xs ≡ true → All (λ x. p x ≡ true) xs
  all-All p [] h = tt
  all-All p (x ∷ xs) h = (ground arith, all-All p xs (ground arith))

  pub All-all : (p : A → Bool) (xs : List A) → All (λ x. p x ≡ true) xs → all p xs ≡ true
  All-all p [] h = refl
  All-all p (x ∷ xs) h = ground (arith, h.0, All-all p xs h.1)

  pub any-All : (p : A → Bool) (xs : List A) → any p xs ≡ false → All (λ x. p x ≡ false) xs
  any-All p [] h = tt
  any-All p (x ∷ xs) h = (ground arith, any-All p xs (ground arith))

  pub All-any : (p : A → Bool) (xs : List A) → All (λ x. p x ≡ false) xs → any p xs ≡ false
  All-any p [] h = refl
  All-any p (x ∷ xs) h = ground (arith, h.0, All-any p xs h.1)

  pub any-Any : (p : A → Bool) (xs : List A) → any p xs ≡ true → Any (λ x. p x ≡ true) xs
  any-Any p [] h = absurd (cc)
  any-Any p (x ∷ xs) h = elim (Bool-cases (p x)) [
    | inl e ↦ inl e
    | inr e ↦ inr (any-Any p xs (ground (arith, e)))
  ]

  pub Any-any : (p : A → Bool) (xs : List A) → Any (λ x. p x ≡ true) xs → any p xs ≡ true
  Any-any p [] h = absurd h
  Any-any p (x ∷ xs) (inl h) = ground arith
  Any-any p (x ∷ xs) (inr h) = ground (arith, Any-any p xs h)

  -- What every element passes excludes what it fails.
  pub all-excludes :
      (p q : A → Bool)
      → ((x : A) → p x ≡ true → q x ≡ false)
      → (xs : List A) → all p xs ≡ true
      → any q xs ≡ false
  all-excludes p q f [] h = refl
  all-excludes p q f (x ∷ xs) h = ground (arith, f x, all-excludes p q f xs)

  pub any-keep_if : (p q : A → Bool) (xs : List A) → any p (keep_if q xs) ≡ any (λ x. q x && p x) xs
  any-keep_if p q [] = refl
  any-keep_if p q (x ∷ xs) = ground (arith, any-keep_if p q xs)

  pub all-keep_if :
      (p q : A → Bool) (xs : List A) → all p (keep_if q xs) ≡ all (λ x. not (q x) || p x) xs
  all-keep_if p q [] = refl
  all-keep_if p q (x ∷ xs) = ground (arith, all-keep_if p q xs)

  pub sum_of-All : (f : A → ℕ) (xs : List A) → sum_of f xs ≡ 0 → All (λ x. f x ≡ 0) xs
  sum_of-All f [] h = tt
  sum_of-All f (x ∷ xs) h = (omega arith, sum_of-All f xs (omega arith))

  pub All-sum_of : (f : A → ℕ) (xs : List A) → All (λ x. f x ≡ 0) xs → sum_of f xs ≡ 0
  All-sum_of f [] h = refl
  All-sum_of f (x ∷ xs) h = omega (arith, h.0, All-sum_of f xs h.1)

  pub All-keep_if {κ} :
      (P : A → Type κ) (q : A → Bool) (xs : List A)
      → All P (keep_if q xs)
      → All (λ x. q x ≡ true → P x) xs
  All-keep_if P q [] h = tt
  All-keep_if P q (x ∷ xs) h = elim (Bool-cases (q x)) [
    | inl e ↦
        let both : P x × All P (keep_if q xs) = rw e at h in
        ((λ t. both.0), All-keep_if P q xs both.1)
    | inr e ↦ ((λ t. absurd (cc)), All-keep_if P q xs (rw e at h))
  ]

  pub Any-map : (P Q : A → Type 0) → ((x : A) → P x → Q x) → (xs : List A) → Any P xs → Any Q xs
  Any-map P Q f [] h = absurd h
  Any-map P Q f (x ∷ xs) (inl h) = inl (f x h)
  Any-map P Q f (x ∷ xs) (inr h) = inr (Any-map P Q f xs h)

-- Every element is one of the elements.
pub All-here : {A : Type 0} (xs : List A) → All (λ x. Any (λ y. y ≡ x) xs) xs
All-here [] = tt
All-here {A} (x ∷ xs) = (inl refl, later xs (All-here xs))
  where
    later :
        (ys : List A) → All (λ z. Any (λ y. y ≡ z) xs) ys → All (λ z. Any (λ y. y ≡ z) (x ∷ xs)) ys
    later [] h = tt
    later (y ∷ ys) h = (inr h.0, later ys h.1)
