-- ===== src/Definitions.antt =====
-- core/workflow_models.py: the definition of a workflow, and the order of its steps.
-- The loop of the order takes one round for each step; Definitions/Rounds shows that this is enough.
pub mod Rounds
pub mod Waiting
pub mod Kahn
pub mod Built
pub mod Depends
pub mod Final
pub mod Ordered
pub mod Cyclic
use computerpilot_mcp.Prelude.{
  ℕ, zero, suc, ◌+◌, ◌-◌, String, Bool, true, false, not, ◌&&◌, ◌||◌, List, [], ◌∷◌, ◌++◌, Option,
  none, some, ◌==◌, ℕ_eq, string_eq, option_eq, ltb, leb, length, any, all, contains, if◌then◌else◌,
}
use computerpilot_mcp.Prelude.Sorted.{set_of}
use computerpilot_mcp.Prelude.Text.{codes}
use computerpilot_mcp.Prelude.Result.{Result, ok, err, raise, require, or_raise, ◌>>=◌, ◌>>◌}
use computerpilot_mcp.Store.{ExecutionMode, sequential, dag}

-- Dictionaries are texts of JSON, and timeouts are in microseconds.
pub record StepDefinition : Type 0 where
  pub name : String
  pub action : String
  pub arguments : String
  pub timeout : ℕ
  pub max_retries : ℕ
  pub postcondition : Option String
  pub execution_intent : Option String
  pub step_id : Option String
  pub depends_on : List String

pub record WorkflowDefinition : Type 0 where
  pub name : String
  pub steps : List StepDefinition
  pub description : String
  pub execution_mode : ExecutionMode
  pub max_parallel_steps : ℕ
  pub total_timeout : Option ℕ

-- __post_init__ of WorkflowDefinition
unfoldable pub with_default_timeout : WorkflowDefinition → WorkflowDefinition
with_default_timeout d = elim d.execution_mode [
  | sequential ↦ d
  | dag ↦ elim d.total_timeout [
    | none ↦ record d { total_timeout = some 7_200_000_000 }
    | some timeout ↦ d
  ]
]

abbrev is_given {ℓ} : {A : Type ℓ} → Option A → Bool
is_given none = false
is_given (some value) = true

-- The class of characters of _STEP_ID_RE.
abbrev pub is_id_char : ℕ → Bool
is_id_char c =
    leb b'A' c && leb c b'Z'
    || leb b'a' c && leb c b'z'
    || leb b'0' c && leb c b'9'
    || c == b'_'
    || c == b'-'

-- _STEP_ID_RE.fullmatch(step_id)
unfoldable pub is_step_id : String → Bool
is_step_id step_id =
    let cs = codes step_id in all is_id_char cs && leb 1 (length cs) && leb (length cs) 100

-- by_id.get(step_id)
unfoldable pub index_of : String → List (String × ℕ) → Option ℕ
index_of step_id [] = none
index_of step_id ((key, index) ∷ rest) =
    if key == step_id then some index else index_of step_id rest

-- The first loop over the steps, from one at `index` on.
unfoldable pub index_steps :
    ℕ → List StepDefinition → List (String × ℕ) → Result (List (String × ℕ))
unfolding is_step_id
index_steps index [] by_id = ok by_id
index_steps index (step ∷ steps) by_id = do
  step_id ← or_raise step.step_id "invalid_workflow_step_id"
  require (is_step_id step_id) "invalid_workflow_step_id"
  require (not (is_given (index_of step_id by_id))) "duplicate_workflow_step_id"
  index_steps (suc index) steps (by_id ++ (step_id, index) ∷ [])

-- xs[i], and xs[i] = f(xs[i]), at an index in range; out of range the default, and no change.
module _ {ℓ} {A : Type ℓ} where
  abbrev pub get_or : List A → ℕ → A → A
  get_or [] i default = default
  get_or (x ∷ xs) zero default = x
  get_or (x ∷ xs) (suc i) default = get_or xs i default

  abbrev pub modify : ℕ → (A → A) → List A → List A
  modify i f [] = []
  modify zero f (x ∷ xs) = f x ∷ xs
  modify (suc i) f (x ∷ xs) = x ∷ modify i f xs

  -- [value] * n
  abbrev pub replicate : ℕ → A → List A
  replicate zero value = []
  replicate (suc n) value = value ∷ replicate n value

-- range(start, start + n)
abbrev pub range_from : ℕ → ℕ → List ℕ
range_from start zero = []
range_from start (suc n) = start ∷ range_from (suc start) n

-- The two lists, indegree and children.
pub record Edges : Type 0 where
  pub indegree : List ℕ
  pub children : List (List ℕ)

abbrev pub add_edge : ℕ → ℕ → Edges → Edges
add_edge parent index g = record {
  indegree = modify index (λ degree. degree + 1) g.indegree;
  children = modify parent (λ cs. cs ++ index ∷ []) g.children;
}

-- for dependency in step.depends_on
unfoldable pub add_dependencies :
    List (String × ℕ) → ℕ → Option String → List String → Edges → Result Edges
unfolding index_of
add_dependencies by_id index step_id [] g = ok g
add_dependencies by_id index step_id (dependency ∷ rest) g = do
  require (not (some dependency == step_id)) "self_workflow_dependency"
  parent ← or_raise (index_of dependency by_id) "unknown_workflow_dependency"
  add_dependencies by_id index step_id rest (add_edge parent index g)

-- The second loop over the steps.
unfoldable pub add_steps : List (String × ℕ) → ℕ → List StepDefinition → Edges → Result Edges
unfolding add_dependencies
add_steps by_id index [] g = ok g
add_steps by_id index (step ∷ steps) g = do
  require (leb (length step.depends_on) 99) "too_many_workflow_dependencies"
  require (length (set_of step.depends_on) == length step.depends_on)
      "duplicate_workflow_dependency"
  g' ← add_dependencies by_id index step.step_id step.depends_on g
  add_steps by_id (suc index) steps g'

-- The variables of the last loop. A heap gives its least element first: it is a list in order.
pub record Progress : Type 0 where
  pub indegree : List ℕ
  pub ready : List ℕ
  pub order : List ℕ

-- heapq.heappush
unfoldable pub heappush : ℕ → List ℕ → List ℕ
heappush x [] = x ∷ []
heappush x (y ∷ ys) = let rest = heappush x ys in if ltb y x then y ∷ rest else x ∷ y ∷ ys

-- [index for index, degree in enumerate(indegree) if degree == 0], in order, and so a heap
unfoldable pub initially_ready : ℕ → List ℕ → List ℕ
initially_ready index [] = []
initially_ready index (degree ∷ rest) =
    let others = initially_ready (suc index) rest in if degree == 0 then index ∷ others else others

-- The body of the loop over children. A degree of 0 stays 0 here, where Python's goes below it;
-- neither makes the child ready nor counts as positive.
unfoldable pub relax : ℕ → Progress → Progress
unfolding heappush
relax child s = record s {
  indegree = modify child (λ degree. degree - 1) s.indegree;
  ready = if get_or s.indegree child 0 == 1 then heappush child s.ready else s.ready;
}

unfoldable pub relax_all : List ℕ → Progress → Progress
unfolding relax
relax_all [] s = s
relax_all (child ∷ children) s = relax_all children (relax child s)

-- One round, after `index` left the heap.
unfoldable pub emit : List (List ℕ) → ℕ → List ℕ → Progress → Progress
unfolding relax_all
emit children index rest s =
    relax_all (get_or children index []) (record s { ready = rest; order = s.order ++ index ∷ [] })

-- while ready
unfoldable pub order_loop : ℕ → List (List ℕ) → Progress → Progress
unfolding emit
order_loop zero children s = s
order_loop (suc rounds) children s = elim s.ready [
  | [] ↦ s
  | index ∷ rest ↦ order_loop rounds children (emit children index rest s)
]

unfoldable pub start_order : Edges → Progress
unfolding initially_ready
start_order g = record { indegree = g.indegree; ready = initially_ready 0 g.indegree; order = [] }

unfoldable pub no_edges : List StepDefinition → Edges
no_edges steps = record {
  indegree = replicate (length steps) 0;
  children = replicate (length steps) [];
}

unfoldable pub dag_order : List StepDefinition → Result (List ℕ)
unfolding index_steps add_steps no_edges start_order order_loop
dag_order steps = do
  by_id ← index_steps 0 steps []
  g ← add_steps by_id 0 steps (no_edges steps)
  let s = order_loop (length steps) g.children (start_order g)
  require (length s.order == length steps) "cyclic_workflow_dependencies"
  ok s.order

-- step.step_id is not None or step.depends_on
abbrev has_dag_metadata : StepDefinition → Bool
has_dag_metadata step = is_given step.step_id || leb 1 (length step.depends_on)

abbrev is_timeout : Option ℕ → Bool
is_timeout none = false
is_timeout (some timeout) = leb 1 timeout && leb timeout 86_400_000_000

-- The two modes, of a definition with steps. There is no other mode in the type.
unfoldable pub order_by_mode : ExecutionMode → WorkflowDefinition → Result (List ℕ)
unfolding dag_order
order_by_mode sequential d = do
  require (not (any has_dag_metadata d.steps)) "workflow_dag_metadata_requires_dag_mode"
  require (d.max_parallel_steps == 1 && not (is_given d.total_timeout))
      "workflow_parallel_metadata_requires_dag_mode"
  ok (range_from 0 (length d.steps))
order_by_mode dag d = do
  require (leb (length d.steps) 100) "workflow_too_large"
  require (leb 1 d.max_parallel_steps && leb d.max_parallel_steps 16)
      "invalid_workflow_parallel_cap"
  require (is_timeout d.total_timeout) "invalid_workflow_total_timeout"
  dag_order d.steps

unfoldable pub workflow_topological_order : WorkflowDefinition → Result (List ℕ)
unfolding order_by_mode
workflow_topological_order d = do
  require (leb 1 (length d.steps)) "empty_workflow"
  order_by_mode d.execution_mode d
