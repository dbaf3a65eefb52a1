-- ===== src/Definitions/Cyclic.antt =====
-- The definitions that are refused as cyclic.
use computerpilot_mcp.Prelude.{
  ℕ, suc, String, true, List, [], ◌∷◌, ◌++◌, Option, inl, inr, ◌≡◌, ◌↔◌, arith, ◌==◌, ℕ_eq,
  string_eq, eq_iff, Option-cases, ◌≢◌,
}
use computerpilot_mcp.Prelude.Result.{raise, Result-cases}
use computerpilot_mcp.Store.{ExecutionMode, sequential, dag}
use computerpilot_mcp.Definitions.{
  StepDefinition, WorkflowDefinition, Edges, index_of, index_steps, add_steps, add_dependencies,
  add_edge, no_edges, dag_order, order_by_mode, workflow_topological_order,
}
use computerpilot_mcp.Definitions.Final.{IsCyclic, final-IsCyclic}

cyclic_iff :
    (code : String)
    → ((code == "cyclic_workflow_dependencies") ≡ true) ↔ (code ≡ "cyclic_workflow_dependencies")
cyclic_iff code = eq_iff code "cyclic_workflow_dependencies"

-- Neither loop over the steps raises the error of cycles.
index_steps_error :
    (i : ℕ) (steps : List StepDefinition) (m : List (String × ℕ))
    → index_steps i steps m ≢ raise "cyclic_workflow_dependencies"
unfolding index_steps
index_steps_error i [] m = ground arith
index_steps_error i (step ∷ steps) m = elim (Option-cases step.step_id) [
  | inl missing ↦ ground (arith, missing, cyclic_iff "invalid_workflow_step_id")
  | inr (k, at) ↦ ground (
    arith,
    at,
    cyclic_iff "invalid_workflow_step_id",
    cyclic_iff "duplicate_workflow_step_id",
    index_steps_error (suc i) steps (m ++ (k, i) ∷ []),
  )
]

add_dependencies_error :
    (m : List (String × ℕ)) (i : ℕ) (step_id : Option String) (ds : List String) (g : Edges)
    → add_dependencies m i step_id ds g ≢ raise "cyclic_workflow_dependencies"
unfolding add_dependencies
add_dependencies_error m i step_id [] g = ground arith
add_dependencies_error m i step_id (d ∷ ds) g = elim (Option-cases (index_of d m)) [
  | inl unknown ↦ ground (
    arith,
    unknown,
    cyclic_iff "self_workflow_dependency",
    cyclic_iff "unknown_workflow_dependency",
  )
  | inr (u, known) ↦ ground (
    arith,
    known,
    cyclic_iff "self_workflow_dependency",
    add_dependencies_error m i step_id ds (add_edge u i g),
  )
]

add_steps_error :
    (m : List (String × ℕ)) (i : ℕ) (steps : List StepDefinition) (g : Edges)
    → add_steps m i steps g ≢ raise "cyclic_workflow_dependencies"
unfolding add_steps
add_steps_error m i [] g = ground arith
add_steps_error m i (step ∷ steps) g =
    elim (Result-cases (add_dependencies m i step.step_id step.depends_on g)) [
      | inl (error, failed) ↦ ground (
        arith,
        failed,
        cyclic_iff "too_many_workflow_dependencies",
        cyclic_iff "duplicate_workflow_dependency",
        add_dependencies_error m i step.step_id step.depends_on g,
      )
      | inr (g1, added) ↦ ground (
        arith,
        added,
        cyclic_iff "too_many_workflow_dependencies",
        cyclic_iff "duplicate_workflow_dependency",
        add_steps_error m (suc i) steps g1,
      )
    ]

dag_order-IsCyclic :
    (steps : List StepDefinition)
    → dag_order steps ≡ raise "cyclic_workflow_dependencies"
    → IsCyclic steps
unfolding dag_order
dag_order-IsCyclic steps h = elim (Result-cases (index_steps 0 steps [])) [
  | inl (error, failed) ↦ absurd (ground (arith, failed, index_steps_error 0 steps []))
  | inr (by_id, indexed) ↦ elim (Result-cases (add_steps by_id 0 steps (no_edges steps))) [
    | inl (error, failed) ↦
        absurd (ground (arith, indexed, failed, add_steps_error by_id 0 steps (no_edges steps)))
    | inr (g, built) ↦ final-IsCyclic steps by_id g indexed built (ground (arith, indexed, built))
  ]
]

order_by_mode-IsCyclic :
    (mode : ExecutionMode) (d : WorkflowDefinition)
    → order_by_mode mode d ≡ raise "cyclic_workflow_dependencies"
    → IsCyclic d.steps
unfolding order_by_mode
order_by_mode-IsCyclic sequential d h = absurd (
    ground (
      arith,
      cyclic_iff "workflow_dag_metadata_requires_dag_mode",
      cyclic_iff "workflow_parallel_metadata_requires_dag_mode",
    ))
order_by_mode-IsCyclic dag d h = dag_order-IsCyclic d.steps (
    ground (
      arith,
      cyclic_iff "workflow_too_large",
      cyclic_iff "invalid_workflow_parallel_cap",
      cyclic_iff "invalid_workflow_total_timeout",
    ))

-- If a definition is refused as cyclic, it has steps that each depend on another one of them.
pub workflow_topological_order-IsCyclic :
    (d : WorkflowDefinition)
    → workflow_topological_order d ≡ raise "cyclic_workflow_dependencies"
    → IsCyclic d.steps
unfolding workflow_topological_order
workflow_topological_order-IsCyclic d h =
    order_by_mode-IsCyclic d.execution_mode d (ground (arith, cyclic_iff "empty_workflow"))
