-- ===== src/Prelude/Table.antt =====
-- SQL over a table held as the list of its rows in the order of the primary key.
use mathlib.Core.Bool.{false≢true}
use mathlib.Core.Path.{subst}
use mathlib.Core.Option.{some-injective, some-ne-none}
use computerpilot_mcp.Prelude.{
  ℕ, zero, suc, Bool, true, false, List, [], ◌∷◌, ◌++◌, Option, none, some, ◌≡◌, sym, ◌∙◌, ◌⊎◌,
  keep_if, if◌then◌else◌, All, AllPairs, All-map, Bool-cases, inl, inr,
}

module _ {ℓ} {A : Type ℓ} where
  -- SELECT * FROM t WHERE p ..., fetchone()
  abbrev pub find : (A → Bool) → List A → Option A
  find p [] = none
  find p (x ∷ xs) = let rest = find p xs in if p x then some x else rest

  -- UPDATE t SET ... WHERE p
  abbrev pub update_where : (A → Bool) → (A → A) → List A → List A
  update_where p f [] = []
  update_where p f (x ∷ xs) = (if p x then f x else x) ∷ update_where p f xs

  -- DELETE FROM t WHERE p
  abbrev pub delete_where : (A → Bool) → List A → List A
  delete_where p [] = []
  delete_where p (x ∷ xs) = let rest = delete_where p xs in if p x then rest else x ∷ rest

  -- DELETE FROM t WHERE the row is one of the first n with p
  abbrev pub evict : (A → Bool) → ℕ → List A → List A
  evict p zero xs = xs
  evict p (suc n) [] = []
  evict p (suc n) (x ∷ xs) =
      let without = evict p n xs in
      let kept = x ∷ evict p (suc n) xs in if p x then without else kept

module _ {ℓ κ} {A : Type ℓ} where
  pub All-evict :
      (P : A → Type κ) (p : A → Bool) (n : ℕ) (xs : List A) → All P xs → All P (evict p n xs)
  All-evict P p zero xs h = h
  All-evict P p (suc n) [] h = tt
  All-evict P p (suc n) (x ∷ xs) h = elim (Bool-cases (p x)) [
    | inl e ↦ rw e (All-evict P p n xs h.1)
    | inr e ↦ rw e (h.0, All-evict P p (suc n) xs h.1)
  ]

  pub AllPairs-evict :
      (R : A → A → Type κ) (p : A → Bool) (n : ℕ) (xs : List A)
      → AllPairs R xs
      → AllPairs R (evict p n xs)
  AllPairs-evict R p zero xs h = h
  AllPairs-evict R p (suc n) [] h = tt
  AllPairs-evict R p (suc n) (x ∷ xs) h = elim (Bool-cases (p x)) [
    | inl e ↦ rw e (AllPairs-evict R p n xs h.1)
    | inr e ↦ rw e (All-evict (R x) p (suc n) xs h.0, AllPairs-evict R p (suc n) xs h.1)
  ]

  pub All-update_where :
      (P : A → Type κ) (p : A → Bool) (f : A → A)
      → ((x : A) → p x ≡ true → P x → P (f x))
      → (xs : List A) → All P xs
      → All P (update_where p f xs)
  All-update_where P p f g [] h = tt
  All-update_where P p f g (x ∷ xs) h = elim (Bool-cases (p x)) [
    | inl e ↦ rw e (g x e h.0, All-update_where P p f g xs h.1)
    | inr e ↦ rw e (h.0, All-update_where P p f g xs h.1)
  ]

  -- An update that keeps `R` on either side keeps it between all pairs.
  pub All-delete_where :
      (P : A → Type κ) (p : A → Bool) (xs : List A) → All P xs → All P (delete_where p xs)
  All-delete_where P p [] h = tt
  All-delete_where P p (x ∷ xs) h = elim (Bool-cases (p x)) [
    | inl e ↦ rw e (All-delete_where P p xs h.1)
    | inr e ↦ rw e (h.0, All-delete_where P p xs h.1)
  ]

  pub AllPairs-delete_where :
      (R : A → A → Type κ) (p : A → Bool) (xs : List A)
      → AllPairs R xs
      → AllPairs R (delete_where p xs)
  AllPairs-delete_where R p [] h = tt
  AllPairs-delete_where R p (x ∷ xs) h = elim (Bool-cases (p x)) [
    | inl e ↦ rw e (AllPairs-delete_where R p xs h.1)
    | inr e ↦ rw e (All-delete_where (R x) p xs h.0, AllPairs-delete_where R p xs h.1)
  ]

  pub AllPairs-update_where :
      (R : A → A → Type κ) (p : A → Bool) (f : A → A)
      → ((x y : A) → R x y → R x (f y))
      → ((x y : A) → R x y → R (f x) y)
      → (xs : List A) → AllPairs R xs
      → AllPairs R (update_where p f xs)
  AllPairs-update_where R p f right left [] h = tt
  AllPairs-update_where R p f right left (x ∷ xs) h =
      let rest = AllPairs-update_where R p f right left xs h.1 in
      elim (Bool-cases (p x)) [
        | inl e ↦ rw e (
          All-update_where (R (f x)) p f (λ y _. right (f x) y) xs
              (All-map (R x) (R (f x)) (left x) xs h.0),
          rest,
        )
        | inr e ↦ rw e (All-update_where (R x) p f (λ y _. right x y) xs h.0, rest)
      ]

  -- The row that `find` returns is one of the table, and passes the test.
  pub find-All :
      (P : A → Type κ) (p : A → Bool) (xs : List A) (x : A) → All P xs → find p xs ≡ some x → P x
  find-All P p [] x h e = cc
  find-All P p (y ∷ ys) x h e = elim (Bool-cases (p y)) [
    | inl t ↦ subst P (some-injective y x (rw t at e)) h.0
    | inr t ↦ find-All P p ys x h.1 (rw t at e)
  ]

module _ {ℓ} {A : Type ℓ} where
  pub find-true : (p : A → Bool) (xs : List A) (x : A) → find p xs ≡ some x → p x ≡ true
  find-true p [] x e = cc
  find-true p (y ∷ ys) x e = elim (Bool-cases (p y)) [
    | inl t ↦ subst (λ z. p z ≡ true) (some-injective y x (rw t at e)) t
    | inr t ↦ find-true p ys x (rw t at e)
  ]

module _ {ℓ κ μ} {A : Type ℓ} where
  pub All-update_cases :
      (P : A → Type κ) (Q : A → Type μ) (p : A → Bool) (f : A → A)
      → ((x : A) → p x ≡ true → P x → Q (f x))
      → ((x : A) → p x ≡ false → P x → Q x)
      → (xs : List A) → All P xs
      → All Q (update_where p f xs)
  All-update_cases P Q p f g k [] h = tt
  All-update_cases P Q p f g k (x ∷ xs) h = elim (Bool-cases (p x)) [
    | inl e ↦ rw e (g x e h.0, All-update_cases P Q p f g k xs h.1)
    | inr e ↦ rw e (k x e h.0, All-update_cases P Q p f g k xs h.1)
  ]

  pub All-zip :
      (P : A → Type κ) (Q : A → Type μ) (xs : List A)
      → All P xs
      → All Q xs
      → All (λ x. P x × Q x) xs
  All-zip P Q [] h k = tt
  All-zip P Q (x ∷ xs) h k = ((h.0, k.0), All-zip P Q xs h.1 k.1)

module _ {ℓ κ} {A : Type ℓ} where
  kept :
      (P : A → Type κ) (p : A → Bool) (x : A) (xs : List A)
      → p x ≡ true
      → All P (keep_if p (x ∷ xs))
      → P x × All P (keep_if p xs)
  kept P p x xs e h = rw e at h

  dropped :
      (P : A → Type κ) (p : A → Bool) (x : A) (xs : List A)
      → p x ≡ false
      → All P (keep_if p (x ∷ xs))
      → All P (keep_if p xs)
  dropped P p x xs e h = rw e at h

  -- What holds of the rows that a test keeps, under the test.
  pub All-of-keep_if :
      (P : A → Type κ) (p : A → Bool) (xs : List A)
      → All P (keep_if p xs)
      → All (λ x. p x ≡ true → P x) xs
  All-of-keep_if P p [] h = tt
  All-of-keep_if P p (x ∷ xs) h = elim (Bool-cases (p x)) [
    | inl e ↦ let (a, b) = kept P p x xs e h in ((λ _. a), All-of-keep_if P p xs b)
    | inr e ↦ ((λ t. absurd (false≢true (sym e ∙ t))), All-of-keep_if P p xs (dropped P p x xs e h))
  ]

-- One row at most passes `p`, and an update of it keeps `R`: given `P` of the row that is updated
-- and `Q` of each of the others.
module _ {ℓ κ} {A : Type ℓ} (R : A → A → Type κ) (p : A → Bool) (f : A → A) (P Q : A → Type κ)
    (one : (x y : A) → R x y → p x ≡ true → p y ≡ false)
    (left : (x y : A) → R x y → P x → Q y → R (f x) y)
    (right : (x y : A) → R x y → Q x → P y → R x (f y)) where
  pub AllPairs-update_one :
      (xs : List A)
      → AllPairs R xs
      → All (λ x. (p x ≡ true → P x) × (p x ≡ false → Q x)) xs
      → AllPairs R (update_where p f xs)
  AllPairs-update_one [] h k = tt
  AllPairs-update_one (x ∷ xs) h k =
      let both = All-zip (R x) (λ y. (p y ≡ true → P y) × (p y ≡ false → Q y)) xs h.0 k.1 in
      let rest = AllPairs-update_one xs h.1 k.1 in
      elim (Bool-cases (p x)) [
        | inl e ↦ rw e (
          All-update_cases _ (R (f x)) p f (λ y t c. absurd (false≢true (sym (one x y c.0 e) ∙ t)))
              (λ y t c. left x y c.0 (k.0.0 e) (c.1.1 t)) xs both,
          rest,
        )
        | inr e ↦ rw e (
          All-update_cases _ (R x) p f (λ y t c. right x y c.0 (k.0.1 e) (c.1.0 t)) (λ y t c. c.0)
              xs both,
          rest,
        )
      ]

-- Where one row at most passes the test, every row that passes it is the one that `find` returns.
pub find_unique {ℓ κ} :
    {A : Type ℓ} (R : A → A → Type κ) (p : A → Bool)
    → ((x y : A) → R x y → p x ≡ true → p y ≡ false)
    → (xs : List A) (row : A) → AllPairs R xs
    → find p xs ≡ some row
    → All (λ x. p x ≡ true → x ≡ row) xs
find_unique R p one [] row h e = tt
find_unique R p one (x ∷ xs) row h e = elim (Bool-cases (p x)) [
  | inl t ↦ (
    (λ _. some-injective x row (rw t at e)),
    All-map (R x) (λ y. p y ≡ true → y ≡ row) (λ y r u. absurd (false≢true (sym (one x y r t) ∙ u)))
        xs h.0,
  )
  | inr t ↦ ((λ u. absurd (false≢true (sym t ∙ u))), find_unique R p one xs row h.1 (rw t at e))
]

pub find-eq-none {ℓ} :
    {A : Type ℓ} (p : A → Bool) (xs : List A) → find p xs ≡ none → All (λ x. p x ≡ false) xs
find-eq-none p [] h = tt
find-eq-none p (x ∷ xs) h = elim (Bool-cases (p x)) [
  | inl t ↦ absurd (some-ne-none x (rw t at h))
  | inr t ↦ (t, find-eq-none p xs (rw t at h))
]

-- A row at the end is found if no row before it passes.
pub find-append_one {ℓ} :
    {A : Type ℓ} (p : A → Bool) (xs : List A) (y : A)
    → All (λ x. p x ≡ false) xs
    → p y ≡ true
    → find p (xs ++ y ∷ []) ≡ some y
find-append_one p [] y h t = rw t
find-append_one p (x ∷ xs) y h t = rw (h.0) (find-append_one p xs y h.1 t)

-- Every row is the one found, or is related to it.
pub AllPairs-find {ℓ κ} :
    {A : Type ℓ} (R : A → A → Type κ) (p : A → Bool) (xs : List A) (row : A)
    → AllPairs R xs
    → find p xs ≡ some row
    → All (λ x. (x ≡ row) ⊎ (R x row ⊎ R row x)) xs
AllPairs-find R p [] row h e = tt
AllPairs-find R p (x ∷ xs) row h e = elim (Bool-cases (p x)) [
  | inl t ↦
      let same = some-injective x row (rw t at e) in
      (inl same, All-map (R x) _ (λ y r. inr (inr (subst (λ z. R z y) same r))) xs h.0)
  | inr t ↦
      let found = rw t at e in
      (inr (inl (find-All (R x) p xs row h.0 found)), AllPairs-find R p xs row h.1 found)
]
