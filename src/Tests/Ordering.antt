-- ===== src/Tests/Ordering.antt =====
-- The order of the steps of a definition, and the theorems at it.
use computerpilot_mcp.Prelude.{ℕ, String, List, [], ◌∷◌, none, some, ◌≡◌, refl}
use computerpilot_mcp.Prelude.Result.{ok, raise}
use computerpilot_mcp.Store.{dag}
use computerpilot_mcp.Definitions.{
  StepDefinition, WorkflowDefinition, Edges, index_steps, add_steps, no_edges, start_order,
  order_loop, workflow_topological_order, index_of,
}
use computerpilot_mcp.Definitions.Final.{IsTopological, IsCyclic, order_loop_settles}
use computerpilot_mcp.Definitions.Ordered.{workflow_topological_order-IsTopological}
use computerpilot_mcp.Definitions.Cyclic.{workflow_topological_order-IsCyclic}

abbrev step : String → List String → StepDefinition
step step_id depends_on = record {
  name = step_id;
  action = "run_tests";
  arguments = "{}";
  timeout = 300_000_000;
  max_retries = 0;
  postcondition = none;
  execution_intent = none;
  step_id = some step_id;
  depends_on = depends_on;
}

abbrev workflow : List StepDefinition → WorkflowDefinition
workflow steps = record {
  name = "release";
  steps = steps;
  description = "";
  execution_mode = dag;
  max_parallel_steps = 2;
  total_timeout = some 60_000_000;
}

-- The report waits for the tests and the build, and the tests for the build.
abbrev release : List StepDefinition
release = step "report" ("test" ∷ "build" ∷ []) ∷ step "test" ("build" ∷ []) ∷ step "build" [] ∷ []

release_order : workflow_topological_order (workflow release) ≡ ok (2 ∷ 1 ∷ 0 ∷ [])
unfolding workflow_topological_order
release_order = refl

workflow_topological_order-IsTopological_example : IsTopological release (2 ∷ 1 ∷ 0 ∷ [])
workflow_topological_order-IsTopological_example =
    workflow_topological_order-IsTopological (workflow release) (2 ∷ 1 ∷ 0 ∷ []) release_order

-- Two steps that wait for one another, and one that waits for neither.
abbrev knot : List StepDefinition
knot = step "a" ("b" ∷ []) ∷ step "b" ("a" ∷ []) ∷ step "c" [] ∷ []

knot_refused : workflow_topological_order (workflow knot) ≡ raise "cyclic_workflow_dependencies"
unfolding workflow_topological_order
knot_refused = refl

workflow_topological_order-IsCyclic_example : IsCyclic knot
workflow_topological_order-IsCyclic_example =
    workflow_topological_order-IsCyclic (workflow knot) knot_refused

abbrev release_edges : Edges
release_edges = record { indegree = 2 ∷ 1 ∷ 0 ∷ []; children = [] ∷ (0 ∷ []) ∷ (0 ∷ 1 ∷ []) ∷ [] }

abbrev release_ids : List (String × ℕ)
release_ids = ("report", 0) ∷ ("test", 1) ∷ ("build", 2) ∷ []

release_indexed : index_steps 0 release [] ≡ ok release_ids
unfolding index_steps index_of
release_indexed = refl

release_built : add_steps release_ids 0 release (no_edges release) ≡ ok release_edges
unfolding add_steps no_edges
release_built = refl

order_loop_settles_example :
    (order_loop 3 release_edges.children (start_order release_edges)).ready ≡ []
order_loop_settles_example =
    order_loop_settles release release_ids release_edges release_indexed release_built
