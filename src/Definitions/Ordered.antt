-- ===== src/Definitions/Ordered.antt =====
-- The order that a definition is given.
use mathlib.Core.Path.{subst}
use computerpilot_mcp.Prelude.{
  ℕ, zero, suc, ◌+◌, ◌≤◌, ◌<◌, String, true, false, List, [], ◌∷◌, ◌++◌, inl, inr, ◌≡◌, refl, ap,
  arith, ℕ_eq, string_eq, length, contains, any, List-cases,
}
use computerpilot_mcp.Prelude.Sorted.{IsDistinct}
use computerpilot_mcp.Prelude.Result.{ok, Result-cases}
use computerpilot_mcp.Store.{ExecutionMode, sequential, dag}
use computerpilot_mcp.Definitions.{
  StepDefinition, WorkflowDefinition, index_steps, add_steps, no_edges, dag_order, order_by_mode,
  range_from, has_dag_metadata, workflow_topological_order,
}
use computerpilot_mcp.Definitions.Kahn.{Preceded}
use computerpilot_mcp.Definitions.Depends.{DependsOn}
use computerpilot_mcp.Definitions.Final.{IsTopological, IsSatisfied, final, final-IsTopological}

dag_order-ok :
    (steps : List StepDefinition) (order : List ℕ)
    → dag_order steps ≡ ok order
    → IsTopological steps order
unfolding dag_order
dag_order-ok steps order h = elim (Result-cases (index_steps 0 steps [])) [
  | inl (error, failed) ↦ absurd (ground (arith, failed))
  | inr (by_id, indexed) ↦ elim (Result-cases (add_steps by_id 0 steps (no_edges steps))) [
    | inl (error, failed) ↦ absurd (ground (arith, indexed, failed))
    | inr (g, built) ↦
        let all : length (final steps by_id g indexed built).order ≡ length steps =
          ground (arith, indexed, built) in
        let same : (final steps by_id g indexed built).order ≡ order =
          ground (arith, indexed, built) in
        subst (IsTopological steps) same (final-IsTopological steps by_id g indexed built all)
  ]
]

length-range_from : (i n : ℕ) → length (range_from i n) ≡ n
length-range_from i zero = refl
length-range_from i (suc n) = ap suc (length-range_from (suc i) n)

range_from_bounds : (i n x : ℕ) → contains (range_from i n) x ≡ true → (i ≤ x) × (x < i + n)
range_from_bounds i zero x h = cc
range_from_bounds i (suc n) x h = ground (arith, range_from_bounds (suc i) n x)

range_from-IsDistinct : (i n : ℕ) → IsDistinct (range_from i n)
range_from-IsDistinct i zero = tt
range_from-IsDistinct i (suc n) =
    ground (arith, range_from_bounds (suc i) n i, range_from-IsDistinct (suc i) n)

-- In a sequential definition no step depends on another.
independent :
    (steps : List StepDefinition)
    → any has_dag_metadata steps ≡ false
    → (v : ℕ) (d : String) → DependsOn steps v d
    → ⊥
independent [] h v d (s, at, named) = cc
independent (step ∷ steps) h zero d (s, at, named) = elim (List-cases step.depends_on) [
  | inl empty ↦ ground (arith, empty)
  | inr (x, rest, e) ↦ ground (arith, e)
]
independent (step ∷ steps) h (suc v) d depends = independent steps (ground arith) v d depends

Preceded-all :
    (P : ℕ → List ℕ → Type 0)
    → ((v : ℕ) (before : List ℕ) → P v before)
    → (seen xs : List ℕ) → Preceded P seen xs
Preceded-all P f seen [] = tt
Preceded-all P f seen (x ∷ xs) = (f x seen, Preceded-all P f (seen ++ x ∷ []) xs)

range-IsTopological :
    (steps : List StepDefinition)
    → any has_dag_metadata steps ≡ false
    → IsTopological steps (range_from 0 (length steps))
range-IsTopological steps h = record {
  complete = length-range_from 0 (length steps);
  distinct = range_from-IsDistinct 0 (length steps);
  in_range = λ x c. omega (arith, range_from_bounds 0 (length steps) x c);
  preceded =
      Preceded-all (IsSatisfied steps)
        (λ v before d depends. absurd (independent steps h v d depends)) []
        (range_from 0 (length steps));
}

order_by_mode-ok :
    (mode : ExecutionMode) (d : WorkflowDefinition) (order : List ℕ)
    → order_by_mode mode d ≡ ok order
    → IsTopological d.steps order
unfolding order_by_mode
order_by_mode-ok sequential d order h =
    let same : range_from 0 (length d.steps) ≡ order = ground arith in
    subst (IsTopological d.steps) same (range-IsTopological d.steps (ground arith))
order_by_mode-ok dag d order h = dag_order-ok d.steps order (ground arith)

-- An order that a definition is given holds every step once, and each step comes after all the
-- steps that it depends on.
pub workflow_topological_order-IsTopological :
    (d : WorkflowDefinition) (order : List ℕ)
    → workflow_topological_order d ≡ ok order
    → IsTopological d.steps order
unfolding workflow_topological_order
workflow_topological_order-IsTopological d order h =
    order_by_mode-ok d.execution_mode d order (ground arith)
