-- ===== src/Prelude/Sorted.antt =====
-- `sorted(set(xs))` over a strict total order: the list without repetitions, in order. It depends
-- on the members of `xs` alone.
use mathlib.Core.Path.{subst}
use computerpilot_mcp.Prelude.{
  List, [], ◌∷◌, Bool, true, false, ◌||◌, ◌≡◌, ◌⊎◌, refl, ap, sym, ◌∙◌, arith, Eq, ◌==◌,
  if◌then◌else◌, contains, All, AllPairs, beq_refl,
}

module _ {ℓ} {A : Type ℓ} ⦃e : Eq A⦄ where
  -- set(xs), as a list
  abbrev pub set_of : List A → List A
  set_of [] = []
  set_of (x ∷ xs) = let rest = set_of xs in if contains xs x then rest else x ∷ rest

  abbrev pub SameMembers : List A → List A → Type ℓ
  SameMembers xs ys = (a : A) → contains xs a ≡ contains ys a

  abbrev pub IsDistinct : List A → Type 0
  IsDistinct [] = Unit
  IsDistinct (x ∷ xs) = (contains xs x ≡ false) × IsDistinct xs

  pub contains-set_of : (xs : List A) (a : A) → contains (set_of xs) a ≡ contains xs a
  contains-set_of [] a = refl
  contains-set_of (x ∷ xs) a = ground (arith, contains-set_of xs a, e.beq_iff a x)

  pub set_of-IsDistinct : (xs : List A) → IsDistinct (set_of xs)
  set_of-IsDistinct [] = tt
  set_of-IsDistinct (x ∷ xs) = ground (arith, contains-set_of xs x, set_of-IsDistinct xs)

-- A strict total order on the elements.
pub record IsStrictOrder {ℓ} {A : Type ℓ} (lt : A → A → Bool) : Type ℓ where
  pub irrefl : (a : A) → lt a a ≡ false
  pub trans : (a b c : A) → lt a b ≡ true → lt b c ≡ true → lt a c ≡ true
  pub total : (a b : A) → (lt a b ≡ true) ⊎ ((a ≡ b) ⊎ (lt b a ≡ true))

module _ {ℓ} {A : Type ℓ} ⦃e : Eq A⦄ (lt : A → A → Bool) where
  abbrev pub insert_sorted : A → List A → List A
  insert_sorted x [] = x ∷ []
  insert_sorted x (y ∷ ys) =
      let rest = insert_sorted x ys in if lt y x then y ∷ rest else x ∷ y ∷ ys

  -- sorted(xs)
  abbrev pub sorted : List A → List A
  sorted [] = []
  sorted (x ∷ xs) = insert_sorted x (sorted xs)

  abbrev pub IsSorted : List A → Type 0
  IsSorted = AllPairs (λ x y. lt x y ≡ true)

  contains-insert_sorted :
      (x : A) (ys : List A) (a : A) → contains (insert_sorted x ys) a ≡ (a == x || contains ys a)
  contains-insert_sorted x [] a = refl
  contains-insert_sorted x (y ∷ ys) a = ground (arith, contains-insert_sorted x ys a)

  pub contains-sorted : (xs : List A) (a : A) → contains (sorted xs) a ≡ contains xs a
  contains-sorted [] a = refl
  contains-sorted (x ∷ xs) a =
      contains-insert_sorted x (sorted xs) a ∙ ap (λ b. a == x || b) (contains-sorted xs a)

  module _ (o : IsStrictOrder lt) where
    above_insert :
        (x y : A) (ys : List A)
        → lt y x ≡ true
        → All (λ z. lt y z ≡ true) ys
        → All (λ z. lt y z ≡ true) (insert_sorted x ys)
    above_insert x y [] h k = (h, tt)
    above_insert x y (z ∷ zs) h k = ground (arith, above_insert x y zs h k.1)

    above_trans :
        (x y : A) (ys : List A)
        → lt x y ≡ true
        → All (λ z. lt y z ≡ true) ys
        → All (λ z. lt x z ≡ true) ys
    above_trans x y [] h k = tt
    above_trans x y (z ∷ zs) h k = (o.trans x y z h k.0, above_trans x y zs h k.1)

    insert_sorted-IsSorted :
        (x : A) (ys : List A) → contains ys x ≡ false → IsSorted ys → IsSorted (insert_sorted x ys)
    insert_sorted-IsSorted x [] h s = (tt, tt)
    insert_sorted-IsSorted x (y ∷ ys) h s = ground (
      arith,
      o.total x y,
      e.beq_iff x y,
      above_trans x y ys,
      above_insert x y ys,
      insert_sorted-IsSorted x ys,
    )

    pub sorted-IsSorted : (xs : List A) → IsDistinct xs → IsSorted (sorted xs)
    sorted-IsSorted [] d = tt
    sorted-IsSorted (x ∷ xs) d =
        insert_sorted-IsSorted x (sorted xs) (contains-sorted xs x ∙ d.0) (sorted-IsSorted xs d.1)

    not-contains_below : (x : A) (ys : List A) → All (λ z. lt x z ≡ true) ys → contains ys x ≡ false
    not-contains_below x [] h = refl
    not-contains_below x (y ∷ ys) h =
        ground (arith, o.irrefl x, e.beq_iff x y, not-contains_below x ys h.1)

    -- A member of a list that starts above `x` is above `x`.
    lt_of_contains :
        (x a : A) (ys : List A) → All (λ z. lt x z ≡ true) ys → contains ys a ≡ true → lt x a ≡ true
    lt_of_contains x a [] h c = cc
    lt_of_contains x a (y ∷ ys) h c = ground (arith, e.beq_iff a y, lt_of_contains x a ys h.1)

    heads_equal :
        (x y : A) (xs ys : List A)
        → IsSorted (x ∷ xs)
        → IsSorted (y ∷ ys)
        → SameMembers (x ∷ xs) (y ∷ ys)
        → x ≡ y
    heads_equal x y xs ys s t m = ground (
      arith,
      o.total x y,
      m x,
      m y,
      beq_refl x,
      beq_refl y,
      e.beq_iff x y,
      e.beq_iff y x,
      lt_of_contains x y xs s.0,
      lt_of_contains y x ys t.0,
      o.trans x y x,
      o.irrefl x,
    )

    tails_same :
        (x a : A) (xs ys : List A)
        → IsSorted (x ∷ xs)
        → IsSorted (x ∷ ys)
        → contains (x ∷ xs) a ≡ contains (x ∷ ys) a
        → contains xs a ≡ contains ys a
    tails_same x a xs ys s t m =
        ground (arith, not-contains_below x xs s.0, not-contains_below x ys t.0, e.beq_iff a x)

    -- Two lists in order with the same members are equal.
    pub IsSorted-unique : (xs ys : List A) → IsSorted xs → IsSorted ys → SameMembers xs ys → xs ≡ ys
    IsSorted-unique [] [] s t m = refl
    IsSorted-unique [] (y ∷ ys) s t m = ground (arith, m y, beq_refl y)
    IsSorted-unique (x ∷ xs) [] s t m = ground (arith, m x, beq_refl x)
    IsSorted-unique (x ∷ xs) (y ∷ ys) s t m =
        let same : x ≡ y = heads_equal x y xs ys s t m in
        let t' : IsSorted (x ∷ ys) = rw same t in
        let m' : SameMembers (x ∷ xs) (x ∷ ys) =
          λ a. subst (λ z. contains (x ∷ xs) a ≡ contains (z ∷ ys) a) (sym same) (m a) in
        cc (same, IsSorted-unique xs ys s.1 t'.1 (λ a. tails_same x a xs ys s t' (m' a)))

    -- `sorted(set(xs))` depends on the members of `xs` alone.
    pub sorted-set_of_unique :
        (xs ys : List A) → SameMembers xs ys → sorted (set_of xs) ≡ sorted (set_of ys)
    sorted-set_of_unique xs ys m =
        IsSorted-unique (sorted (set_of xs)) (sorted (set_of ys))
          (sorted-IsSorted (set_of xs) (set_of-IsDistinct xs))
          (sorted-IsSorted (set_of ys) (set_of-IsDistinct ys))
          λ a.
            contains-sorted (set_of xs) a
            ∙ contains-set_of xs a
            ∙ m a
            ∙ sym (contains-set_of ys a)
            ∙ sym (contains-sorted (set_of ys) a)
