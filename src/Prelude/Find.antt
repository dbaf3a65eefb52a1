-- ===== src/Prelude/Find.antt =====
-- The row that a query finds, after the table changes.
use computerpilot_mcp.Prelude.{
  Bool, true, false, List, [], ◌∷◌, ◌++◌, some, ◌≡◌, arith, if◌then◌else◌, Bool-cases, inl, inr,
}
use computerpilot_mcp.Prelude.Table.{find, update_where, delete_where}

module _ {ℓ} {A : Type ℓ} (p : A → Bool) (x : A) where
  pub find-append : (xs ys : List A) → find p xs ≡ some x → find p (xs ++ ys) ≡ some x
  find-append [] ys h = cc
  find-append (r ∷ rs) ys h = elim (Bool-cases (p r)) [
    | inl e ↦ rw e (rw e at h)
    | inr e ↦ rw e (find-append rs ys (rw e at h))
  ]

  -- A DELETE that does not hit the row.
  pub find-delete_where :
      (q : A → Bool) (xs : List A)
      → q x ≡ false
      → find p xs ≡ some x
      → find p (delete_where q xs) ≡ some x
  find-delete_where q [] miss h = cc
  find-delete_where q (r ∷ rs) miss h = ground (arith, find-delete_where q rs miss)

  -- An UPDATE that does not hit the row, and makes no other row meet the query.
  pub find-update_miss :
      (q : A → Bool) (f : A → A)
      → ((r : A) → p r ≡ false → p (f r) ≡ false)
      → (xs : List A) → q x ≡ false
      → find p xs ≡ some x
      → find p (update_where q f xs) ≡ some x
  find-update_miss q f keeps [] miss h = cc
  find-update_miss q f keeps (r ∷ rs) miss h =
      ground (arith, find-update_miss q f keeps rs miss, keeps r)

  -- An UPDATE that hits the row.
  pub find-update_hit :
      (q : A → Bool) (f : A → A)
      → ((r : A) → p (f r) ≡ p r)
      → (xs : List A) → q x ≡ true
      → find p xs ≡ some x
      → find p (update_where q f xs) ≡ some (f x)
  find-update_hit q f keeps [] miss h = cc
  find-update_hit q f keeps (r ∷ rs) miss h =
      ground (arith, find-update_hit q f keeps rs miss, keeps r)

  -- An UPDATE that keeps what the query reads.
  pub find-update_where :
      (q : A → Bool) (f : A → A)
      → ((r : A) → p (f r) ≡ p r)
      → (xs : List A) → find p xs ≡ some x
      → find p (update_where q f xs) ≡ some (if q x then f x else x)
  find-update_where q f keeps [] h = cc
  find-update_where q f keeps (r ∷ rs) h = ground (arith, find-update_where q f keeps rs, keeps r)
