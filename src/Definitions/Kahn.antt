-- ===== src/Definitions/Kahn.antt =====
-- The invariant of the loop that orders the steps: what is counted of a step that has not been
-- emitted, and that every step comes after the steps with an edge to it.
use mathlib.Core.Path.{subst}
use mathlib.Core.List.{append-nil, append_assoc}
use computerpilot_mcp.Prelude.{
  ℕ, zero, suc, ◌+◌, ◌-◌, ◌<◌, true, false, ◌||◌, List, [], ◌∷◌, ◌++◌, ◌≡◌, refl, sym, ap, ◌∙◌,
  arith, ◌==◌, ℕ_eq, length, length-append, contains, List-cases, inl, inr,
}
use computerpilot_mcp.Prelude.Sorted.{IsDistinct}
use computerpilot_mcp.Definitions.{Progress, get_or, emit, order_loop, relax_all}
use computerpilot_mcp.Definitions.Rounds.{
  count, work, relax_all-degree, relax_all-ready, relax_all-IsDistinct, relax_all-length,
  relax_all-order, emit-work, emit-order,
}
use computerpilot_mcp.Definitions.Waiting.{waiting, waiting-emit, waiting_zero}

contains-append :
    (xs ys : List ℕ) (a : ℕ) → contains (xs ++ ys) a ≡ (contains xs a || contains ys a)
contains-append [] ys a = refl
contains-append (x ∷ xs) ys a = ground (arith, contains-append xs ys a)

append_one-IsDistinct :
    (xs : List ℕ) (u : ℕ) → contains xs u ≡ false → IsDistinct xs → IsDistinct (xs ++ u ∷ [])
append_one-IsDistinct [] u new d = ground arith
append_one-IsDistinct (x ∷ xs) u new d =
    ground (arith, contains-append xs (u ∷ []) x, append_one-IsDistinct xs u)

-- Each element satisfies `P` with those before it, of which `seen` are the first.
abbrev pub Preceded : (ℕ → List ℕ → Type 0) → List ℕ → List ℕ → Type 0
Preceded P seen [] = Unit
Preceded P seen (v ∷ rest) = P v seen × Preceded P (seen ++ v ∷ []) rest

Preceded-append_one :
    (P : ℕ → List ℕ → Type 0) (seen xs : List ℕ) (u : ℕ)
    → Preceded P seen xs
    → P u (seen ++ xs)
    → Preceded P seen (xs ++ u ∷ [])
Preceded-append_one P seen [] u h k = (rw append-nil at k, tt)
Preceded-append_one P seen (x ∷ xs) u h k =
    (h.0, Preceded-append_one P (seen ++ x ∷ []) xs u h.1 (rw append_assoc k))

module _ (children : List (List ℕ)) where
  -- Every step with an edge to `v` is in `before`.
  abbrev pub EdgesFrom : ℕ → List ℕ → Type 0
  EdgesFrom v before = (u : ℕ) → contains (get_or children u []) v ≡ true → contains before u ≡ true

  pub record IsOrdering (s : Progress) : Type 0 where
    pub sized : length s.indegree ≡ length children
    pub distinct_ready : IsDistinct s.ready
    pub distinct_order : IsDistinct s.order
    pub apart : (x : ℕ) → contains s.ready x ≡ true → contains s.order x ≡ false
    pub free :
        (x : ℕ) → (contains s.ready x || contains s.order x) ≡ true → get_or s.indegree x 0 ≡ 0
    pub in_range : (x : ℕ) → (contains s.ready x || contains s.order x) ≡ true → x < length children
    pub taken :
        (x : ℕ)
        → x < length children
        → get_or s.indegree x 0 ≡ 0
        → (contains s.ready x || contains s.order x) ≡ true
    pub counted :
        (x : ℕ)
        → x < length children
        → get_or s.indegree x 0 ≡ waiting (contains s.order) x children
    pub total : length s.order + work s ≡ length children
    pub preceded : Preceded EdgesFrom [] s.order

get_or_pos : (ds : List ℕ) (x : ℕ) → 0 < get_or ds x 0 → x < length ds
get_or_pos [] x h = absurd (omega arith)
get_or_pos (d ∷ ds) zero h = omega arith
get_or_pos (d ∷ ds) (suc x) h = omega (arith, get_or_pos ds x h)

module _ (children : List (List ℕ)) (u : ℕ) (rest : List ℕ) (s : Progress)
    (popped : s.ready ≡ u ∷ rest) (o : IsOrdering children s) where
  abbrev row : List ℕ
  row = get_or children u []

  abbrev taken_off : Progress
  taken_off = record s { ready = rest; order = s.order ++ u ∷ [] }

  abbrev after : Progress
  after = relax_all row taken_off

  was_ready : (x : ℕ) → contains s.ready x ≡ (x == u || contains rest x)
  was_ready x = ap (λ xs. contains xs x) popped

  heap-IsDistinct : IsDistinct (u ∷ rest)
  heap-IsDistinct = subst IsDistinct popped o.distinct_ready

  now_ordered : (x : ℕ) → contains after.order x ≡ (x == u || contains s.order x)
  now_ordered x = ground (
    arith,
    ap (λ xs. contains xs x) (relax_all-order row taken_off),
    contains-append s.order (u ∷ []) x,
  )

  degree : (x : ℕ) → get_or after.indegree x 0 ≡ get_or s.indegree x 0 - count x row
  degree x = relax_all-degree row taken_off x

  u_free : get_or s.indegree u 0 ≡ 0
  u_free = ground (arith, o.free u, was_ready u)

  u_new : contains s.order u ≡ false
  u_new = ground (arith, o.apart u, was_ready u)

  counted_after :
      (x : ℕ)
      → x < length children
      → get_or after.indegree x 0 ≡ waiting (contains after.order) x children
  counted_after x h = omega (
    arith,
    degree x,
    o.counted x h,
    waiting-emit (contains s.order) (contains after.order) u x children u_new now_ordered,
  )

  edges_before : EdgesFrom children u s.order
  edges_before v edge =
      let range = o.in_range u (ground (arith, was_ready u)) in
      waiting_zero (contains s.order) u children (sym (o.counted u range) ∙ u_free) v edge

  pub emit-IsOrdering : IsOrdering children (emit children u rest s)
  unfolding emit
  emit-IsOrdering = record {
    sized = relax_all-length row taken_off ∙ o.sized;
    distinct_ready =
        relax_all-IsDistinct row taken_off (λ x h. ground (arith, o.free x, was_ready x))
          heap-IsDistinct.1;
    distinct_order =
        rw (relax_all-order row taken_off) (append_one-IsDistinct s.order u u_new o.distinct_order);
    apart = λ x h. ground (
      arith,
      relax_all-ready row taken_off x,
      now_ordered x,
      was_ready x,
      o.apart x,
      o.free x,
      u_free,
      heap-IsDistinct,
    );
    free = λ x h.
        ground
          (arith, relax_all-ready row taken_off x, now_ordered x, was_ready x, degree x, o.free x);
    in_range = λ x h. ground (
      arith,
      relax_all-ready row taken_off x,
      now_ordered x,
      was_ready x,
      o.in_range x,
      get_or_pos s.indegree x,
      o.sized,
    );
    taken = λ x range h.
        ground
          (arith, relax_all-ready row taken_off x, now_ordered x, was_ready x, o.taken x range);
    counted = counted_after;
    total = omega (
      arith,
      emit-work children u rest s popped,
      o.total,
      ap length (emit-order children u rest s),
      length-append s.order (u ∷ []),
    );
    preceded =
        rw (relax_all-order row taken_off)
          (Preceded-append_one (EdgesFrom children) [] s.order u o.preceded edges_before);
  }

-- The invariant holds when the loop ends.
pub order_loop-IsOrdering :
    (children : List (List ℕ)) (rounds : ℕ) (s : Progress)
    → IsOrdering children s
    → IsOrdering children (order_loop rounds children s)
unfolding order_loop
order_loop-IsOrdering children zero s o = o
order_loop-IsOrdering children (suc rounds) s o = elim (List-cases s.ready) [
  | inl empty ↦ rw (empty, order_loop) o
  | inr (u, rest, e) ↦
      rw (e, order_loop)
        (order_loop-IsOrdering children rounds (emit children u rest s)
          (emit-IsOrdering children u rest s e o))
]
