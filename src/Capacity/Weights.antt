-- ===== src/Capacity/Weights.antt =====
-- The weight of the active permits of a category, and how the changes of the table move it.
use mathlib.Core.Path.{subst}
use mathlib.Core.Option.{some-injective}
use computerpilot_mcp.Prelude.{
  eq_iff, ℕ, zero, suc, ◌+◌, ◌≤◌, String, Bool, true, false, ◌&&◌, List, [], ◌∷◌, ◌++◌, some, ◌≡◌,
  refl, arith, ◌==◌, string_eq, if◌then◌else◌, All, AllPairs, All-map, Bool-cases, inl, inr,
}
use computerpilot_mcp.Prelude.Table.{find, update_where, evict}
use computerpilot_mcp.Store.{CapacityRequest, is_active, has_admission_id}
use computerpilot_mcp.Capacity.{held_weight}

abbrev pub holds : String → CapacityRequest → Bool
holds category c = c.category == category && is_active c.state

abbrev pub active_weight : String → List CapacityRequest → ℕ
active_weight category [] = 0
active_weight category (c ∷ cs) =
    (if holds category c then c.weight else 0) + active_weight category cs

abbrev pub Distinct : CapacityRequest → CapacityRequest → Type 0
Distinct x y = (x.admission_id == y.admission_id) ≡ false

module _ (category : String) where
  -- An update that moves no permit to another category or weight, and activates none.
  pub record IsIdle (f : CapacityRequest → CapacityRequest) : Type 0 where
    pub same_id : (c : CapacityRequest) → (f c).admission_id ≡ c.admission_id
    pub same_weight : (c : CapacityRequest) → (f c).weight ≡ c.weight
    pub no_more : (c : CapacityRequest) → holds category (f c) ≡ true → holds category c ≡ true

  pub active_weight-update_where :
      (p : CapacityRequest → Bool) (f : CapacityRequest → CapacityRequest)
      → IsIdle f
      → (cs : List CapacityRequest)
      → active_weight category (update_where p f cs) ≤ active_weight category cs
  active_weight-update_where p f idle [] = ground arith
  active_weight-update_where p f idle (c ∷ cs) =
      ground (arith, active_weight-update_where p f idle cs, idle.same_weight c, idle.no_more c)

  pub active_weight-evict :
      (p : CapacityRequest → Bool) (n : ℕ) (cs : List CapacityRequest)
      → active_weight category (evict p n cs) ≤ active_weight category cs
  active_weight-evict p zero cs = ground arith
  active_weight-evict p (suc n) [] = ground arith
  active_weight-evict p (suc n) (c ∷ cs) =
      ground (arith, active_weight-evict p n cs, active_weight-evict p (suc n) cs)

  pub active_weight-append_one :
      (cs : List CapacityRequest) (c : CapacityRequest)
      → active_weight category (cs ++ c ∷ [])
        ≡ active_weight category cs + (if holds category c then c.weight else 0)
  active_weight-append_one [] c = ground arith
  active_weight-append_one (x ∷ cs) c = ground (arith, active_weight-append_one cs c)

  pub active_le_held :
      (cs : List CapacityRequest) → active_weight category cs ≤ held_weight category cs
  unfolding held_weight
  active_le_held [] = ground arith
  active_le_held (c ∷ cs) = ground (arith, active_le_held cs)

  -- Without a permit of that name, an update by name changes nothing.
  update_none :
      (i : String) (f : CapacityRequest → CapacityRequest) (cs : List CapacityRequest)
      → All (λ c. has_admission_id i c ≡ false) cs
      → active_weight category (update_where (has_admission_id i) f cs) ≡ active_weight category cs
  update_none i f [] h = refl
  update_none i f (c ∷ cs) h = ground (arith, h.0, update_none i f cs h.1)

  -- An update by name of the one permit of that name adds its weight at most.
  pub active_weight-update_one :
      (i : String) (f : CapacityRequest → CapacityRequest) (row : CapacityRequest)
      → ((c : CapacityRequest) → (f c).weight ≡ c.weight)
      → (cs : List CapacityRequest) → AllPairs Distinct cs
      → find (has_admission_id i) cs ≡ some row
      → active_weight category (update_where (has_admission_id i) f cs)
        ≤ active_weight category cs + (if holds category (f row) then row.weight else 0)
  active_weight-update_one i f row same [] d h = ground arith
  active_weight-update_one i f row same (c ∷ cs) d h = elim (Bool-cases (has_admission_id i c)) [
    | inl e ↦
        let others =
          All-map (Distinct c) (λ y. has_admission_id i y ≡ false)
            (λ y far. ground (
              arith,
              eq_iff c.admission_id i,
              eq_iff y.admission_id i,
              eq_iff c.admission_id y.admission_id,
            ))
            cs d.0 in
        subst
          (λ r.
            active_weight category (update_where (has_admission_id i) f (c ∷ cs))
            ≤ active_weight category (c ∷ cs) + (if holds category (f r) then r.weight else 0))
          (some-injective c row (rw e at h))
          (rw e (ground (arith, update_none i f cs others, same c)))
    | inr e ↦
        let rest = active_weight-update_one i f row same cs d.1 (rw e at h) in
        rw e (ground (arith, rest))
  ]
