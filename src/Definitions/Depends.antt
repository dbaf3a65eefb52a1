-- ===== src/Definitions/Depends.antt =====
-- What the edges mean: a step has an edge to another when the other depends on its identifier.
use mathlib.Core.Path.{subst}
use computerpilot_mcp.Prelude.{
  ℕ, zero, suc, ◌+◌, ◌<◌, String, Bool, true, ◌&&◌, ◌||◌, List, [], ◌∷◌, ◌++◌, Option, some, ◌⊎◌,
  inl, inr, ◌≡◌, refl, ap, sym, ◌∙◌, arith, ◌==◌, ℕ_eq, string_eq, length, contains, get_elem?,
  eq_iff, Option-cases, Bool-cases,
}
use computerpilot_mcp.Prelude.Result.{ok, Result-cases}
use computerpilot_mcp.Definitions.{
  StepDefinition, Edges, get_or, modify, index_of, index_steps, add_edge, add_dependencies,
  add_steps,
}
use computerpilot_mcp.Definitions.Rounds.{length-modify}
use computerpilot_mcp.Definitions.Built.{IsBelow}

-- The step at `u` has the identifier `d`.
abbrev pub HasId : List StepDefinition → ℕ → String → Type 0
HasId steps u d = (t : StepDefinition) × (get_elem? steps u ≡ some t) × (t.step_id ≡ some d)

-- The step at `v` depends on `d`.
abbrev pub DependsOn : List StepDefinition → ℕ → String → Type 0
DependsOn steps v d =
    (s : StepDefinition) × (get_elem? steps v ≡ some s) × (contains s.depends_on d ≡ true)

index_of-append_one :
    (d k : String) (i : ℕ) (by_id : List (String × ℕ)) (u : ℕ)
    → index_of d (by_id ++ (k, i) ∷ []) ≡ some u
    → (index_of d by_id ≡ some u) ⊎ ((k ≡ d) × (u ≡ i))
unfolding index_of
index_of-append_one d k i [] u h = ground (arith, eq_iff k d)
index_of-append_one d k i ((key, index) ∷ by_id) u h = elim (Bool-cases (key == d)) [
  | inl e ↦ inl (ground (arith, e))
  | inr e ↦ rw e (index_of-append_one d k i by_id u (rw e at h))
]

-- An index that the dictionary holds was there before, or is that of a step with this identifier.
pub index_steps_found :
    (i : ℕ) (steps : List StepDefinition) (by_id m : List (String × ℕ)) (d : String) (u : ℕ)
    → index_steps i steps by_id ≡ ok m
    → index_of d m ≡ some u
    → (index_of d by_id ≡ some u) ⊎ ((j : ℕ) × (u ≡ i + j) × HasId steps j d)
unfolding index_steps
index_steps_found i [] by_id m d u h found = inl (ground arith)
index_steps_found i (step ∷ steps) by_id m d u h found = elim (Option-cases step.step_id) [
  | inl missing ↦ ground (arith, missing)
  | inr (k, at) ↦
      elim (index_steps_found (suc i) steps (by_id ++ (k, i) ∷ []) m d u (ground (arith, at))
        found) [
          | inl old ↦ elim (index_of-append_one d k i by_id u old) [
            | inl before ↦ inl before
            | inr (same, e) ↦ inr (0, omega arith, (step, refl, at ∙ ap some same))
          ]
          | inr (j, e, has) ↦ inr (suc j, omega arith, has)
        ]
]

contains-append_one :
    (xs : List ℕ) (i a : ℕ) → contains (xs ++ i ∷ []) a ≡ (contains xs a || a == i)
contains-append_one [] i a = ground arith
contains-append_one (x ∷ xs) i a = ground (arith, contains-append_one xs i a)

-- Whether there is an edge from `u` to `v`.
abbrev pub has_edge : List (List ℕ) → ℕ → ℕ → Bool
has_edge rows u v = contains (get_or rows u []) v

has_edge-modify :
    (parent i u v : ℕ) (rows : List (List ℕ))
    → parent < length rows
    → has_edge (modify parent (λ cs. cs ++ i ∷ []) rows) u v
      ≡ (has_edge rows u v || u == parent && v == i)
has_edge-modify parent i u v [] h = absurd (omega arith)
has_edge-modify zero i zero v (row ∷ rows) h = ground (arith, contains-append_one row i v)
has_edge-modify zero i (suc u) v (row ∷ rows) h = ground arith
has_edge-modify (suc parent) i zero v (row ∷ rows) h = ground arith
has_edge-modify (suc parent) i (suc u) v (row ∷ rows) h =
    ground (arith, has_edge-modify parent i u v rows)

-- Edges stay, and the steps loop adds those of the dependencies.
abbrev Grows : Edges → Edges → Type 0
Grows g g' =
    (length g'.children ≡ length g.children)
    × ((u v : ℕ) → has_edge g.children u v ≡ true → has_edge g'.children u v ≡ true)

module _ (by_id : List (String × ℕ)) where
  add_dependencies-Grows :
      (i : ℕ) (step_id : Option String) (ds : List String) (g g' : Edges)
      → IsBelow (length g.children) by_id
      → add_dependencies by_id i step_id ds g ≡ ok g'
      → Grows g g'
  unfolding add_dependencies
  add_dependencies-Grows i step_id [] g g' below e = ground arith
  add_dependencies-Grows i step_id (d ∷ ds) g g' below e = elim (Option-cases (index_of d by_id)) [
    | inl unknown ↦ ground (arith, unknown)
    | inr (u, known) ↦
        let same = length-modify u (λ cs. cs ++ i ∷ []) g.children in
        let (size, grows) =
          add_dependencies-Grows i step_id ds (add_edge u i g) g' (rw same below)
            (ground (arith, known)) in
        (
          size ∙ same,
          λ x v h. grows x v (ground (arith, has_edge-modify u i x v g.children (below d u known))),
        )
  ]

  -- Each dependency gives an edge from its step.
  add_dependencies_edge :
      (i : ℕ) (step_id : Option String) (ds : List String) (g g' : Edges)
      → IsBelow (length g.children) by_id
      → add_dependencies by_id i step_id ds g ≡ ok g'
      → (d : String) → contains ds d ≡ true
      → (u : ℕ) × (index_of d by_id ≡ some u) × (has_edge g'.children u i ≡ true)
  unfolding add_dependencies
  add_dependencies_edge i step_id [] g g' below e d h = cc
  add_dependencies_edge i step_id (x ∷ ds) g g' below e d h =
      elim (Option-cases (index_of x by_id)) [
        | inl unknown ↦ ground (arith, unknown)
        | inr (u, known) ↦
            let same = length-modify u (λ cs. cs ++ i ∷ []) g.children in
            let rest : add_dependencies by_id i step_id ds (add_edge u i g) ≡ ok g' =
              ground (arith, known) in
            elim (Bool-cases (d == x)) [
              | inl here ↦ (
                u,
                rw ((eq_iff d x).0 here) known,
                (add_dependencies-Grows i step_id ds (add_edge u i g) g' (rw same below) rest).1 u i
                    (ground (arith, has_edge-modify u i u i g.children (below x u known))),
              )
              | inr there ↦
                  add_dependencies_edge i step_id ds (add_edge u i g) g' (rw same below) rest d
                    (ground (arith, there))
            ]
      ]

  -- Each new edge is that of a dependency.
  add_dependencies_source :
      (i : ℕ) (step_id : Option String) (ds : List String) (g g' : Edges)
      → IsBelow (length g.children) by_id
      → add_dependencies by_id i step_id ds g ≡ ok g'
      → (u v : ℕ) → has_edge g'.children u v ≡ true
      → (has_edge g.children u v ≡ true)
        ⊎ ((v ≡ i) × ((d : String) × (contains ds d ≡ true) × (index_of d by_id ≡ some u)))
  unfolding add_dependencies
  add_dependencies_source i step_id [] g g' below e u v h = inl (ground arith)
  add_dependencies_source i step_id (x ∷ ds) g g' below e u v h =
      elim (Option-cases (index_of x by_id)) [
        | inl unknown ↦ ground (arith, unknown)
        | inr (p, known) ↦
            let same = length-modify p (λ cs. cs ++ i ∷ []) g.children in
            elim (add_dependencies_source i step_id ds (add_edge p i g) g' (rw same below)
              (ground (arith, known)) u v h) [
                | inl old ↦ elim (Bool-cases (has_edge g.children u v)) [
                  | inl before ↦ inl before
                  | inr new ↦
                      let added = has_edge-modify p i u v g.children (below x p known) in
                      let at : u ≡ p = ground (arith, added, new, old) in
                      inr (
                        ground (arith, added, new, old),
                        (x, ground (arith, eq_iff x x), known ∙ ap some (sym at)),
                      )
                ]
                | inr (at, (d, named, found)) ↦ inr (at, (d, ground (arith, named), found))
              ]
      ]

  add_steps-Grows :
      (i : ℕ) (steps : List StepDefinition) (g g' : Edges)
      → IsBelow (length g.children) by_id
      → add_steps by_id i steps g ≡ ok g'
      → Grows g g'
  unfolding add_steps
  add_steps-Grows i [] g g' below e = ground arith
  add_steps-Grows i (step ∷ steps) g g' below e =
      elim (Result-cases (add_dependencies by_id i step.step_id step.depends_on g)) [
        | inl (error, failed) ↦ ground (arith, failed)
        | inr (g1, added) ↦
            let (size, grows) =
              add_dependencies-Grows i step.step_id step.depends_on g g1 below added in
            let (size', grows') =
              add_steps-Grows (suc i) steps g1 g' (rw size below) (ground (arith, added)) in
            (size' ∙ size, λ u v h. grows' u v (grows u v h))
      ]

  pub add_steps_edge :
      (i : ℕ) (steps : List StepDefinition) (g g' : Edges)
      → IsBelow (length g.children) by_id
      → add_steps by_id i steps g ≡ ok g'
      → (j : ℕ) (d : String) → DependsOn steps j d
      → (u : ℕ) × (index_of d by_id ≡ some u) × (has_edge g'.children u (i + j) ≡ true)
  unfolding add_steps
  add_steps_edge i [] g g' below e j d (s, at, named) = cc
  add_steps_edge i (step ∷ steps) g g' below e j d depends =
      elim (Result-cases (add_dependencies by_id i step.step_id step.depends_on g)) [
        | inl (error, failed) ↦ ground (arith, failed)
        | inr (g1, added) ↦
            let size = (add_dependencies-Grows i step.step_id step.depends_on g g1 below added).0 in
            let rest : add_steps by_id (suc i) steps g1 ≡ ok g' = ground (arith, added) in
            at_index j depends
              (λ k later. add_steps_edge (suc i) steps g1 g' (rw size below) rest k d later)
              (λ named.
                let (u, known, edge) =
                  add_dependencies_edge i step.step_id step.depends_on g g1 below added d named in
                (u, known, (add_steps-Grows (suc i) steps g1 g' (rw size below) rest).1 u i edge))
      ]
    where
      at_index :
          (k : ℕ)
          → DependsOn (step ∷ steps) k d
          → ((m : ℕ)
              → DependsOn steps m d
              → (u : ℕ) × (index_of d by_id ≡ some u) × (has_edge g'.children u (suc i + m) ≡ true))
          → (contains step.depends_on d ≡ true
              → (u : ℕ) × (index_of d by_id ≡ some u) × (has_edge g'.children u i ≡ true))
          → (u : ℕ) × (index_of d by_id ≡ some u) × (has_edge g'.children u (i + k) ≡ true)
      at_index zero (s, at, named) later now =
          let (u, known, edge) = now (ground arith) in
          (u, known, subst (λ v. has_edge g'.children u v ≡ true) (omega arith) edge)
      at_index (suc k) here later now =
          let (u, known, edge) = later k here in
          (u, known, subst (λ v. has_edge g'.children u v ≡ true) (omega arith) edge)

  pub add_steps_source :
      (i : ℕ) (steps : List StepDefinition) (g g' : Edges)
      → IsBelow (length g.children) by_id
      → add_steps by_id i steps g ≡ ok g'
      → (u v : ℕ) → has_edge g'.children u v ≡ true
      → (has_edge g.children u v ≡ true)
        ⊎ ((j : ℕ) × (v ≡ i + j) × (d : String) × DependsOn steps j d × (index_of d by_id ≡ some u))
  unfolding add_steps
  add_steps_source i [] g g' below e u v h = inl (ground arith)
  add_steps_source i (step ∷ steps) g g' below e u v h =
      elim (Result-cases (add_dependencies by_id i step.step_id step.depends_on g)) [
        | inl (error, failed) ↦ ground (arith, failed)
        | inr (g1, added) ↦
            let size = (add_dependencies-Grows i step.step_id step.depends_on g g1 below added).0 in
            elim (add_steps_source (suc i) steps g1 g' (rw size below) (ground (arith, added)) u v
              h) [
                | inl old ↦
                    elim (add_dependencies_source i step.step_id step.depends_on g g1 below added u
                      v old) [
                        | inl before ↦ inl before
                        | inr (at, (d, named, found)) ↦
                            inr (0, omega arith, d, (step, refl, named), found)
                      ]
                | inr (j, at, d, depends, found) ↦ inr (suc j, omega arith, d, depends, found)
              ]
      ]
