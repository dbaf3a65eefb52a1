-- ===== src/Definitions/Final.antt =====
-- The state in which the loop of the order ends, and what it says of the steps.
use mathlib.Core.Path.{subst}
use computerpilot_mcp.Prelude.{
  ℕ, zero, suc, ◌<◌, String, Bool, true, false, List, [], ◌∷◌, ◌++◌, some, inl, inr, ◌≡◌, refl, ap,
  arith, ℕ_eq, string_eq, ltb, length, contains, get_elem?, ltb→lt, ◌≢◌,
}
use computerpilot_mcp.Prelude.Sorted.{IsDistinct}
use computerpilot_mcp.Prelude.Result.{ok}
use computerpilot_mcp.Definitions.{
  StepDefinition, Edges, Progress, get_or, index_of, index_steps, add_steps, no_edges, start_order,
  order_loop, replicate,
}
use computerpilot_mcp.Definitions.Rounds.{positives, order_loop_ends}
use computerpilot_mcp.Definitions.Waiting.{waiting, waiting_pos}
use computerpilot_mcp.Definitions.Kahn.{IsOrdering, Preceded, EdgesFrom, order_loop-IsOrdering}
use computerpilot_mcp.Definitions.Built.{
  IsCounted, IsBelow, add_steps-IsCounted, no_edges-IsCounted, start_order-IsOrdering,
}
use computerpilot_mcp.Definitions.Depends.{
  HasId, DependsOn, has_edge, index_steps_found, add_steps_edge, add_steps_source,
}

-- Every identifier that the step at `v` depends on is that of a step in `before`.
abbrev pub IsSatisfied : List StepDefinition → ℕ → List ℕ → Type 0
IsSatisfied steps v before =
    (d : String) → DependsOn steps v d → (u : ℕ) × HasId steps u d × (contains before u ≡ true)

pub record IsTopological (steps : List StepDefinition) (order : List ℕ) : Type 0 where
  pub complete : length order ≡ length steps
  pub distinct : IsDistinct order
  pub in_range : (x : ℕ) → contains order x ≡ true → x < length steps
  pub preceded : Preceded (IsSatisfied steps) [] order

get_elem?-lt {ℓ} :
    {A : Type ℓ} (xs : List A) (i : ℕ) {x : A} → get_elem? xs i ≡ some x → i < length xs
get_elem?-lt [] i h = cc
get_elem?-lt (x ∷ xs) zero h = omega arith
get_elem?-lt (x ∷ xs) (suc i) h = omega (arith, get_elem?-lt xs i h)

Preceded-map :
    (P Q : ℕ → List ℕ → Type 0)
    → ((v : ℕ) (before : List ℕ) → P v before → Q v before)
    → (seen xs : List ℕ) → Preceded P seen xs
    → Preceded Q seen xs
Preceded-map P Q f seen [] h = tt
Preceded-map P Q f seen (x ∷ xs) h = (f x seen h.0, Preceded-map P Q f (seen ++ x ∷ []) xs h.1)

index_steps_known :
    (steps : List StepDefinition) (by_id : List (String × ℕ)) (d : String) (u : ℕ)
    → index_steps 0 steps [] ≡ ok by_id
    → index_of d by_id ≡ some u
    → HasId steps u d
unfolding index_of
index_steps_known steps by_id d u h found = elim (index_steps_found 0 steps [] by_id d u h found) [
  | inl absent ↦ cc
  | inr (j, e, has) ↦ subst (λ x. HasId steps x d) (omega arith) has
]

some_positive : (ds : List ℕ) → 0 < positives ds → (v : ℕ) × (0 < get_or ds v 0)
some_positive [] h = absurd (omega arith)
some_positive (zero ∷ ds) h = let (v, pos) = some_positive ds (omega arith) in (suc v, pos)
some_positive (suc d ∷ ds) h = (0, omega arith)

get_or-pos : (ds : List ℕ) (x : ℕ) → 0 < get_or ds x 0 → x < length ds
get_or-pos [] x h = absurd (omega arith)
get_or-pos (d ∷ ds) zero h = omega arith
get_or-pos (d ∷ ds) (suc x) h = omega (arith, get_or-pos ds x h)

no_edge : (n u v : ℕ) → has_edge (replicate n []) u v ≡ false
no_edge zero u v = refl
no_edge (suc n) zero v = refl
no_edge (suc n) (suc u) v = no_edge n u v

-- Steps that each depend on another one of them, and at least one such step.
pub record IsCyclic (steps : List StepDefinition) : Type 0 where
  pub stuck : ℕ → Bool
  pub member : ℕ
  pub member_stuck : stuck member ≡ true
  pub holds_up :
      (v : ℕ)
      → stuck v ≡ true
      → (u : ℕ) × (stuck u ≡ true) × ((d : String) × DependsOn steps v d × HasId steps u d)

-- The graph of the steps, and the state in which the loop ends.
module _ (steps : List StepDefinition) (by_id : List (String × ℕ)) (g : Edges)
    (indexed : index_steps 0 steps [] ≡ ok by_id)
    (built : add_steps by_id 0 steps (no_edges steps) ≡ ok g) where
  below : IsBelow (length steps) by_id
  below d u found =
      let (t, at, _) = index_steps_known steps by_id d u indexed found in get_elem?-lt steps u at

  IsBelow-rows : IsBelow (length (no_edges steps).children) by_id
  IsBelow-rows = rw (no_edges-IsCounted steps).rows below

  counted : IsCounted (length steps) g
  counted =
      add_steps-IsCounted (length steps) by_id 0 steps (no_edges steps) g below (omega arith)
        (no_edges-IsCounted steps) built

  abbrev pub final : Progress
  final = order_loop (length steps) g.children (start_order g)

  final-IsOrdering : IsOrdering g.children final
  final-IsOrdering =
      order_loop-IsOrdering g.children (length steps) (start_order g)
        (start_order-IsOrdering (length steps) g counted)

  -- When the dictionary and the edges of the steps have been made, the loop of the order ends by its
  -- own test within as many rounds as there are steps.
  pub order_loop_settles : (order_loop (length steps) g.children (start_order g)).ready ≡ []
  order_loop_settles =
      order_loop_ends (length steps) g.children (start_order g)
        (omega (arith, (start_order-IsOrdering (length steps) g counted).total, counted.rows))

  satisfied : (v : ℕ) (before : List ℕ) → EdgesFrom g.children v before → IsSatisfied steps v before
  satisfied v before h d depends =
      let (u, found, edge) =
        add_steps_edge by_id 0 steps (no_edges steps) g IsBelow-rows built v d depends in
      (
        u,
        index_steps_known steps by_id d u indexed found,
        h u (subst (λ x. has_edge g.children u x ≡ true) (omega arith) edge),
      )

  pub final-IsTopological : length final.order ≡ length steps → IsTopological steps final.order
  final-IsTopological all = record {
    complete = all;
    distinct = final-IsOrdering.distinct_order;
    in_range = λ x h. ground (arith, final-IsOrdering.in_range x, counted.rows);
    preceded =
        Preceded-map (EdgesFrom g.children) (IsSatisfied steps) satisfied [] final.order
          final-IsOrdering.preceded;
  }

  pub final-IsCyclic : length final.order ≢ length steps → IsCyclic steps
  unfolding no_edges
  final-IsCyclic short =
      let o = final-IsOrdering in
      let (v, pos) = some_positive final.indegree positive in
      record {
        stuck = λ x. ltb 0 (get_or final.indegree x 0);
        member = v;
        member_stuck = ground arith;
        holds_up = λ x h.
            let (u, in_range, new, edge) =
              waiting_pos (contains final.order) x g.children (left x h) in
            let (d, depends, found) = source u x edge in
            (
              u,
              stays u in_range new,
              (d, depends, index_steps_known steps by_id d u indexed found),
            );
      }
    where
      positive : 0 < positives final.indegree
      positive =
          ground (arith, final-IsOrdering.total, counted.rows, ap length order_loop_settles, short)

      left :
          (x : ℕ)
          → ltb 0 (get_or final.indegree x 0) ≡ true
          → 0 < waiting (contains final.order) x g.children
      left x h =
          let pos : 0 < get_or final.indegree x 0 = ltb→lt _ _ h in
          omega (
            arith,
            final-IsOrdering.counted x
                (omega (arith, get_or-pos final.indegree x pos, final-IsOrdering.sized)),
          )

      stays :
          (u : ℕ)
          → u < length g.children
          → contains final.order u ≡ false
          → ltb 0 (get_or final.indegree u 0) ≡ true
      stays u in_range new =
          ground
            (arith, final-IsOrdering.taken u in_range, ap (λ xs. contains xs u) order_loop_settles)

      source :
          (u v : ℕ)
          → has_edge g.children u v ≡ true
          → (d : String) × DependsOn steps v d × (index_of d by_id ≡ some u)
      source u v edge =
          elim (add_steps_source by_id 0 steps (no_edges steps) g IsBelow-rows built u v edge) [
            | inl old ↦ absurd (ground (arith, no_edge (length steps) u v))
            | inr (j, at, d, depends, found) ↦
                (d, subst (λ x. DependsOn steps x d) (omega arith) depends, found)
          ]
