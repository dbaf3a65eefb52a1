-- ===== src/Router/Sorting.antt =====
-- Python's sort by a key that is a tuple: the order of tuples, a stable sort, and its first element.
use computerpilot_mcp.Prelude.{
  Bool, true, false, not, ◌&&◌, ◌||◌, List, [], ◌∷◌, ◌≡◌, arith, if◌then◌else◌, All, All-map,
  Bool-cases, inl, inr,
}

-- The order of pairs: the first parts decide, and the second ones where those are equal.
abbrev pub then_by {ℓ} : {A : Type ℓ} → (A → A → Bool) → (A → A → Bool) → A → A → Bool
then_by lt1 lt2 a b = lt1 a b || not (lt1 b a) && lt2 a b

-- What a comparison by a key satisfies.
pub record IsWeakOrder {ℓ} {A : Type ℓ} (lt : A → A → Bool) : Type ℓ where
  pub asym : (a b : A) → lt a b ≡ true → lt b a ≡ false
  pub cotrans : (a b c : A) → lt a b ≡ false → lt b c ≡ false → lt a c ≡ false

pub IsWeakOrder-then_by {ℓ} :
    {A : Type ℓ} (lt1 lt2 : A → A → Bool)
    → IsWeakOrder lt1
    → IsWeakOrder lt2
    → IsWeakOrder (then_by lt1 lt2)
IsWeakOrder-then_by lt1 lt2 o1 o2 = record {
  asym = λ a b h. ground (arith, o1.asym a b, o1.asym b a, o2.asym a b);
  cotrans = λ a b c h k. ground (
    arith,
    o1.asym a b,
    o1.asym b a,
    o1.asym b c,
    o1.asym c b,
    o1.asym a c,
    o1.asym c a,
    o1.cotrans a b c,
    o1.cotrans c b a,
    o1.cotrans b a c,
    o1.cotrans b c a,
    o1.cotrans a c b,
    o1.cotrans c a b,
    o2.cotrans a b c,
  );
}

module _ {ℓ} {A : Type ℓ} (lt : A → A → Bool) where
  -- sorted(xs, key=...), where `lt` compares the keys
  abbrev pub insert_by : A → List A → List A
  insert_by x [] = x ∷ []
  insert_by x (y ∷ ys) = let rest = insert_by x ys in if lt y x then y ∷ rest else x ∷ y ∷ ys

  abbrev pub sort_by : List A → List A
  sort_by [] = []
  sort_by (x ∷ xs) = insert_by x (sort_by xs)

  -- No element is before the first one.
  abbrev pub LeastFirst : List A → Type 0
  LeastFirst [] = Unit
  LeastFirst (x ∷ xs) = All (λ y. lt y x ≡ false) xs

  module _ {κ} (P : A → Type κ) where
    pub All-insert_by : (x : A) (xs : List A) → P x → All P xs → All P (insert_by x xs)
    All-insert_by x [] p h = (p, tt)
    All-insert_by x (y ∷ ys) p h = elim (Bool-cases (lt y x)) [
      | inl e ↦ rw e (h.0, All-insert_by x ys p h.1)
      | inr e ↦ rw e (p, h)
    ]

    pub All-sort_by : (xs : List A) → All P xs → All P (sort_by xs)
    All-sort_by [] h = tt
    All-sort_by (x ∷ xs) h = All-insert_by x (sort_by xs) h.0 (All-sort_by xs h.1)

    -- What holds of the sorted elements holds of the elements.
    All-of-insert_by : (x : A) (xs : List A) → All P (insert_by x xs) → P x × All P xs
    All-of-insert_by x [] h = (h.0, tt)
    All-of-insert_by x (y ∷ ys) h = elim (Bool-cases (lt y x)) [
      | inl e ↦
          let both : P y × All P (insert_by x ys) = rw e at h in
          let (here, later) = All-of-insert_by x ys both.1 in (here, (both.0, later))
      | inr e ↦ rw e at h
    ]

    pub All-of-sort_by : (xs : List A) → All P (sort_by xs) → All P xs
    All-of-sort_by [] h = tt
    All-of-sort_by (x ∷ xs) h =
        let (here, later) = All-of-insert_by x (sort_by xs) h in (here, All-of-sort_by xs later)

  module _ (o : IsWeakOrder lt) where
    LeastFirst-insert_by : (x : A) (xs : List A) → LeastFirst xs → LeastFirst (insert_by x xs)
    LeastFirst-insert_by x [] h = tt
    LeastFirst-insert_by x (y ∷ ys) h = elim (Bool-cases (lt y x)) [
      | inl e ↦ rw e (All-insert_by (λ z. lt z y ≡ false) x ys (o.asym y x e) h)
      | inr e ↦
          rw e (
            e,
            All-map (λ z. lt z y ≡ false) (λ z. lt z x ≡ false) (λ z k. o.cotrans z y x k e) ys h,
          )
    ]

    pub LeastFirst-sort_by : (xs : List A) → LeastFirst (sort_by xs)
    LeastFirst-sort_by [] = tt
    LeastFirst-sort_by (x ∷ xs) = LeastFirst-insert_by x (sort_by xs) (LeastFirst-sort_by xs)
