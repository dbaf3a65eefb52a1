-- ===== src/Definitions/Built.antt =====
-- The degrees and the edges that the second loop over the steps makes, and the state in which the
-- loop of the order starts.
use computerpilot_mcp.Prelude.{
  ℕ, zero, suc, ◌+◌, ◌≤◌, ◌<◌, String, true, false, ◌&&◌, List, [], ◌∷◌, ◌++◌, Option, some, inl,
  inr, ◌≡◌, refl, ap, sym, ◌∙◌, arith, ◌==◌, ℕ_eq, string_eq, ltb, length, contains, if◌then◌else◌,
  Option-cases,
}
use computerpilot_mcp.Prelude.Sorted.{IsDistinct}
use computerpilot_mcp.Prelude.Result.{ok, Result-cases}
use computerpilot_mcp.Definitions.{
  StepDefinition, Edges, get_or, modify, replicate, index_of, add_edge, add_dependencies, add_steps,
  no_edges, initially_ready, start_order,
}
use computerpilot_mcp.Definitions.Rounds.{count, length-modify, initially_ready-work}
use computerpilot_mcp.Definitions.Waiting.{waiting}
use computerpilot_mcp.Definitions.Kahn.{IsOrdering}

count-append : (v : ℕ) (xs ys : List ℕ) → count v (xs ++ ys) ≡ count v xs + count v ys
count-append v [] ys = omega arith
count-append v (x ∷ xs) ys = omega (arith, count-append v xs ys)

get_or-increase :
    (i x : ℕ) (ds : List ℕ)
    → i < length ds
    → get_or (modify i (λ d. d + 1) ds) x 0 ≡ get_or ds x 0 + (if i == x then 1 else 0)
get_or-increase i x [] h = absurd (omega arith)
get_or-increase zero zero (d ∷ ds) h = ground arith
get_or-increase zero (suc x) (d ∷ ds) h = ground arith
get_or-increase (suc i) zero (d ∷ ds) h = ground arith
get_or-increase (suc i) (suc x) (d ∷ ds) h = ground (arith, get_or-increase i x ds)

-- All edges into a step.
abbrev pub all_edges : ℕ → List (List ℕ) → ℕ
all_edges = waiting (λ _. false)

all_edges-append_one :
    (parent i v : ℕ) (rows : List (List ℕ))
    → parent < length rows
    → all_edges v (modify parent (λ cs. cs ++ i ∷ []) rows)
      ≡ all_edges v rows + (if i == v then 1 else 0)
all_edges-append_one parent i v [] h = absurd (omega arith)
all_edges-append_one zero i v (row ∷ rows) h = ground (arith, count-append v row (i ∷ []))
all_edges-append_one (suc parent) i v (row ∷ rows) h =
    ground (arith, all_edges-append_one parent i v rows)

pub record IsCounted (n : ℕ) (g : Edges) : Type 0 where
  pub degrees : length g.indegree ≡ n
  pub rows : length g.children ≡ n
  pub counted : (v : ℕ) → v < n → get_or g.indegree v 0 ≡ all_edges v g.children

add_edge-IsCounted :
    (n parent i : ℕ) (g : Edges)
    → parent < n
    → i < n
    → IsCounted n g
    → IsCounted n (add_edge parent i g)
add_edge-IsCounted n parent i g hp hi c = record {
  degrees = length-modify i (λ d. d + 1) g.indegree ∙ c.degrees;
  rows = length-modify parent (λ cs. cs ++ i ∷ []) g.children ∙ c.rows;
  counted = λ v h. omega (
    arith,
    c.degrees,
    c.rows,
    c.counted v h,
    get_or-increase i v g.indegree (omega (arith, c.degrees)),
    all_edges-append_one parent i v g.children (omega (arith, c.rows)),
  );
}

-- Every index that the dictionary holds is below `n`.
abbrev pub IsBelow : ℕ → List (String × ℕ) → Type 0
IsBelow n by_id = (d : String) (u : ℕ) → index_of d by_id ≡ some u → u < n

add_dependencies-IsCounted :
    (n : ℕ) (by_id : List (String × ℕ)) (i : ℕ) (step_id : Option String) (ds : List String)
    (g g' : Edges)
    → IsBelow n by_id
    → i < n
    → IsCounted n g
    → add_dependencies by_id i step_id ds g ≡ ok g'
    → IsCounted n g'
unfolding add_dependencies
add_dependencies-IsCounted n by_id i step_id [] g g' below h c e = ground arith
add_dependencies-IsCounted n by_id i step_id (d ∷ ds) g g' below h c e =
    elim (Option-cases (index_of d by_id)) [
      | inl unknown ↦ ground (arith, unknown)
      | inr (u, known) ↦
          add_dependencies-IsCounted n by_id i step_id ds (add_edge u i g) g' below h
            (add_edge-IsCounted n u i g (below d u known) h c) (ground (arith, known))
    ]

pub add_steps-IsCounted :
    (n : ℕ) (by_id : List (String × ℕ)) (i : ℕ) (steps : List StepDefinition) (g g' : Edges)
    → IsBelow n by_id
    → i + length steps ≡ n
    → IsCounted n g
    → add_steps by_id i steps g ≡ ok g'
    → IsCounted n g'
unfolding add_steps
add_steps-IsCounted n by_id i [] g g' below h c e = ground arith
add_steps-IsCounted n by_id i (step ∷ steps) g g' below h c e =
    elim (Result-cases (add_dependencies by_id i step.step_id step.depends_on g)) [
      | inl (error, failed) ↦ ground (arith, failed)
      | inr (g1, added) ↦
          add_steps-IsCounted n by_id (suc i) steps g1 g' below (omega arith)
            (add_dependencies-IsCounted n by_id i step.step_id step.depends_on g g1 below
              (omega arith) c added)
            (ground (arith, added))
    ]

length-replicate {ℓ} : {A : Type ℓ} (n : ℕ) (a : A) → length (replicate n a) ≡ n
length-replicate zero a = refl
length-replicate (suc n) a = ap suc (length-replicate n a)

get_or-zeros : (n v : ℕ) → ◌≡◌ {A = ℕ} (get_or (replicate n 0) v 0) 0
get_or-zeros zero v = refl
get_or-zeros (suc n) zero = refl
get_or-zeros (suc n) (suc v) = get_or-zeros n v

all_edges-none : (n v : ℕ) → all_edges v (replicate n []) ≡ 0
all_edges-none zero v = refl
all_edges-none (suc n) v = omega (arith, all_edges-none n v)

pub no_edges-IsCounted : (steps : List StepDefinition) → IsCounted (length steps) (no_edges steps)
unfolding no_edges
no_edges-IsCounted steps = record {
  degrees = length-replicate (length steps) 0;
  rows = length-replicate (length steps) [];
  counted = λ v h. omega (arith, get_or-zeros (length steps) v, all_edges-none (length steps) v);
}

initially_ready_bound :
    (i : ℕ) (ds : List ℕ) (x : ℕ) → contains (initially_ready i ds) x ≡ true → i ≤ x
unfolding initially_ready
initially_ready_bound i [] x h = cc
initially_ready_bound i (d ∷ ds) x h = ground (arith, initially_ready_bound (suc i) ds x)

contains-initially_ready :
    (i : ℕ) (ds : List ℕ) (x j : ℕ)
    → x ≡ i + j
    → contains (initially_ready i ds) x ≡ (ltb j (length ds) && get_or ds j 0 == 0)
unfolding initially_ready
contains-initially_ready i [] x j e = ground arith
contains-initially_ready i (d ∷ ds) x zero e = ground (arith, initially_ready_bound (suc i) ds x)
contains-initially_ready i (d ∷ ds) x (suc j) e =
    ground (arith, contains-initially_ready (suc i) ds x j)

initially_ready-IsDistinct : (i : ℕ) (ds : List ℕ) → IsDistinct (initially_ready i ds)
unfolding initially_ready
initially_ready-IsDistinct i [] = tt
initially_ready-IsDistinct i (d ∷ ds) =
    ground (arith, initially_ready_bound (suc i) ds i, initially_ready-IsDistinct (suc i) ds)

pub start_order-IsOrdering :
    (n : ℕ) (g : Edges) → IsCounted n g → IsOrdering g.children (start_order g)
unfolding start_order
start_order-IsOrdering n g c =
    let ready = λ (x : ℕ). contains-initially_ready 0 g.indegree x x (omega arith) in
    record {
      sized = c.degrees ∙ sym c.rows;
      distinct_ready = initially_ready-IsDistinct 0 g.indegree;
      distinct_order = tt;
      apart = λ x h. refl;
      free = λ x h. ground (arith, ready x);
      in_range = λ x h. ground (arith, ready x, c.degrees, c.rows);
      taken = λ x range h. ground (arith, ready x, c.degrees, c.rows);
      counted = λ x h. c.counted x (omega (arith, c.rows));
      total = omega (arith, initially_ready-work 0 g.indegree, c.degrees, c.rows);
      preceded = tt;
    }
