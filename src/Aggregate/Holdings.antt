-- ===== src/Aggregate/Holdings.antt =====
-- What the aggregate counts of admissions and requests, as statements on the rows.
use computerpilot_mcp.Prelude.{
  ℕ, ◌<◌, String, Bool, true, ◌&&◌, ◌||◌, List, [], ◌∷◌, Option, none, some, ◌≡◌, inl, inr, refl,
  ap, arith, sum_of, ◌==◌, ℕ_eq, string_eq, eq_iff, if◌then◌else◌, Bool-cases, ltb,
}
use computerpilot_mcp.Prelude.Quantify.{Any, any-Any, Any-any, Any-map}
use computerpilot_mcp.Lifecycle.{operation_state_eq}
use computerpilot_mcp.Store.{
  Db, OperationRow, AdmissionRow, ResourceRequest, is_active, is_quarantined, is_child,
}
use computerpilot_mcp.Aggregate.{in_flight, active_count, holds_resources}
use computerpilot_mcp.Aggregate.Rows.{
  IsInFlight, IsHeldBy, AdmitsInFlight, in_flight-IsInFlight, IsInFlight-in_flight,
}

is_held : String → ResourceRequest → Bool
is_held i r = is_child i r.workflow_id && (is_active r.state || is_quarantined r.state)

is_child-true : (i : String) (o : Option String) → is_child i o ≡ true → o ≡ some i
is_child-true i none h = cc
is_child-true i (some k) h = ap some ((eq_iff k i).0 h)

is_child-some : (i : String) → is_child i (some i) ≡ true
is_child-some i = (eq_iff i i).1 refl

pub holds_resources-Any :
    (i : String) (db : Db) → holds_resources i db ≡ true → Any (IsHeldBy i) db.requests
unfolding is_held
holds_resources-Any i db h =
    Any-map (λ r. is_held i r ≡ true) (IsHeldBy i)
      (λ r k. (is_child-true i r.workflow_id (ground arith), ground arith)) db.requests
      (any-Any (is_held i) db.requests h)

pub Any-holds_resources :
    (i : String) (db : Db) → Any (IsHeldBy i) db.requests → holds_resources i db ≡ true
unfolding is_held
Any-holds_resources i db h = Any-any (is_held i) db.requests (
    Any-map (IsHeldBy i) (λ r. is_held i r ≡ true)
      (λ r k. ground (arith, k.1, ap (is_child i) k.0, is_child-some i)) db.requests h)

module _ {A : Type 0} (f : A → ℕ) where
  sum_of-Any : (xs : List A) → 0 < sum_of f xs → Any (λ x. 0 < f x) xs
  sum_of-Any [] h = absurd (omega arith)
  sum_of-Any (x ∷ xs) h = elim (Bool-cases (ltb 0 (f x))) [
    | inl e ↦ inl (ground (arith, e))
    | inr e ↦ inr (sum_of-Any xs (ground (arith, e)))
  ]

  Any-sum_of : (xs : List A) → Any (λ x. 0 < f x) xs → 0 < sum_of f xs
  Any-sum_of [] h = absurd h
  Any-sum_of (x ∷ xs) (inl h) = omega arith
  Any-sum_of (x ∷ xs) (inr h) = omega (arith, Any-sum_of xs h)

abbrev counts_for : AdmissionRow → OperationRow → ℕ
counts_for a o = if o.operation_id == a.operation_id && in_flight o.state then 1 else 0

abbrev counts : String → List OperationRow → AdmissionRow → ℕ
counts i operations a = if a.workflow_id == i then sum_of (counts_for a) operations else 0

counts_for-pos :
    (a : AdmissionRow) (o : OperationRow)
    → 0 < counts_for a o
    → (o.operation_id ≡ a.operation_id) × IsInFlight o.state
counts_for-pos a o h = (
  ground (arith, eq_iff o.operation_id a.operation_id),
  in_flight-IsInFlight o.state (ground arith),
)

pos-counts_for :
    (a : AdmissionRow) (o : OperationRow)
    → (o.operation_id ≡ a.operation_id) × IsInFlight o.state
    → 0 < counts_for a o
pos-counts_for a o h =
    ground (arith, h.0, eq_iff o.operation_id a.operation_id, IsInFlight-in_flight o.state h.1)

pub active_count-Any :
    (i : String) (db : Db)
    → 0 < active_count i db
    → Any (AdmitsInFlight i db.operations) db.admissions
active_count-Any i db h =
    Any-map (λ a. 0 < counts i db.operations a) (AdmitsInFlight i db.operations)
      (λ a k. elim (Bool-cases (a.workflow_id == i)) [
        | inl e ↦ (
          (eq_iff a.workflow_id i).0 e,
          Any-map (λ o. 0 < counts_for a o)
              (λ o. (o.operation_id ≡ a.operation_id) × IsInFlight o.state) (counts_for-pos a)
              db.operations (sum_of-Any (counts_for a) db.operations (ground (arith, e))),
        )
        | inr e ↦ absurd (ground (arith, e))
      ])
      db.admissions (sum_of-Any (counts i db.operations) db.admissions h)

pub Any-active_count :
    (i : String) (db : Db)
    → Any (AdmitsInFlight i db.operations) db.admissions
    → 0 < active_count i db
Any-active_count i db h = Any-sum_of (counts i db.operations) db.admissions (
    Any-map (AdmitsInFlight i db.operations) (λ a. 0 < counts i db.operations a)
      (λ a k. ground (
        arith,
        (eq_iff a.workflow_id i).1 k.0,
        Any-sum_of (counts_for a) db.operations (
            Any-map (λ o. (o.operation_id ≡ a.operation_id) × IsInFlight o.state)
              (λ o. 0 < counts_for a o) (pos-counts_for a) db.operations k.1),
      ))
      db.admissions h)
