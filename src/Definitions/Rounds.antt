-- ===== src/Definitions/Rounds.antt =====
-- What the body of the loop over children does to the degrees and the heap, and how many rounds
-- the loop of the order takes.
use computerpilot_mcp.Prelude.{
  ℕ, zero, suc, ◌+◌, ◌-◌, ◌≤◌, Bool, true, false, ◌&&◌, ◌||◌, List, [], ◌∷◌, ◌++◌, ◌≡◌, ap, refl,
  arith, ◌==◌, ℕ_eq, ltb, length, contains, sum_of, if◌then◌else◌, inl, inr, List-cases,
}
use computerpilot_mcp.Prelude.Sorted.{IsDistinct}
use computerpilot_mcp.Definitions.{
  Progress, get_or, modify, heappush, initially_ready, relax, relax_all, emit, order_loop,
}

abbrev pub count : ℕ → List ℕ → ℕ
count a = sum_of (λ x. if x == a then 1 else 0)

pub length-modify {ℓ} :
    {A : Type ℓ} (i : ℕ) (f : A → A) (xs : List A) → length (modify i f xs) ≡ length xs
length-modify i f [] = refl
length-modify zero f (x ∷ xs) = refl
length-modify (suc i) f (x ∷ xs) = ap suc (length-modify i f xs)

get_or-decrease :
    (i x : ℕ) (ds : List ℕ)
    → get_or (modify i (λ d. d - 1) ds) x 0 ≡ get_or ds x 0 - (if i == x then 1 else 0)
get_or-decrease i x [] = ground arith
get_or-decrease zero zero (d ∷ ds) = ground arith
get_or-decrease zero (suc x) (d ∷ ds) = ground arith
get_or-decrease (suc i) zero (d ∷ ds) = ground arith
get_or-decrease (suc i) (suc x) (d ∷ ds) = ground (arith, get_or-decrease i x ds)

-- How many degrees are positive.
abbrev pub positives : List ℕ → ℕ
positives = sum_of (λ d. if d == 0 then 0 else 1)

positives-decrease :
    (i : ℕ) (ds : List ℕ)
    → positives (modify i (λ d. d - 1) ds) + (if get_or ds i 0 == 1 then 1 else 0) ≡ positives ds
positives-decrease i [] = ground arith
positives-decrease zero (d ∷ ds) = ground arith
positives-decrease (suc i) (d ∷ ds) = ground (arith, positives-decrease i ds)

contains-heappush :
    (x : ℕ) (ys : List ℕ) (a : ℕ) → contains (heappush x ys) a ≡ (a == x || contains ys a)
unfolding heappush
contains-heappush x [] a = refl
contains-heappush x (y ∷ ys) a = ground (arith, contains-heappush x ys a)

length-heappush : (x : ℕ) (ys : List ℕ) → length (heappush x ys) ≡ length ys + 1
unfolding heappush
length-heappush x [] = omega arith
length-heappush x (y ∷ ys) = ground (arith, length-heappush x ys)

heappush-IsDistinct :
    (x : ℕ) (ys : List ℕ) → contains ys x ≡ false → IsDistinct ys → IsDistinct (heappush x ys)
unfolding heappush
heappush-IsDistinct x [] new d = ground arith
heappush-IsDistinct x (y ∷ ys) new d =
    ground (arith, contains-heappush x ys y, heappush-IsDistinct x ys)

-- The nodes that are ready, or whose positive degree has come to 0.
abbrev readied : ℕ → List ℕ → List ℕ → List ℕ → Bool
readied x ready before after =
    contains ready x || ltb 0 (get_or before x 0) && get_or after x 0 == 0

-- The rounds that are left.
abbrev pub work : Progress → ℕ
work s = length s.ready + positives s.indegree

module _ (c : ℕ) (s : Progress) where
  relax-degree :
      (x : ℕ) → get_or (relax c s).indegree x 0 ≡ get_or s.indegree x 0 - (if c == x then 1 else 0)
  unfolding relax
  relax-degree x = get_or-decrease c x s.indegree

  relax-ready :
      (x : ℕ) → contains (relax c s).ready x ≡ readied x s.ready s.indegree (relax c s).indegree
  unfolding relax
  relax-ready x = ground (arith, get_or-decrease c x s.indegree, contains-heappush c s.ready x)

  relax-work : work (relax c s) ≡ work s
  unfolding relax
  relax-work = ground (arith, positives-decrease c s.indegree, length-heappush c s.ready)

-- Every node that is ready has the degree 0.
abbrev pub ReadyAreFree : Progress → Type 0
ReadyAreFree s = (x : ℕ) → contains s.ready x ≡ true → get_or s.indegree x 0 ≡ 0

relax-IsDistinct :
    (c : ℕ) (s : Progress) → ReadyAreFree s → IsDistinct s.ready → IsDistinct (relax c s).ready
unfolding relax
relax-IsDistinct c s free d = ground (arith, free c, heappush-IsDistinct c s.ready)

relax-ReadyAreFree : (c : ℕ) (s : Progress) → ReadyAreFree s → ReadyAreFree (relax c s)
relax-ReadyAreFree c s free x h = ground (arith, relax-ready c s x, relax-degree c s x, free x)

pub relax_all-degree :
    (cs : List ℕ) (s : Progress) (x : ℕ)
    → get_or (relax_all cs s).indegree x 0 ≡ get_or s.indegree x 0 - count x cs
unfolding relax_all
relax_all-degree [] s x = omega arith
relax_all-degree (c ∷ cs) s x =
    ground (arith, relax_all-degree cs (relax c s) x, relax-degree c s x)

pub relax_all-ready :
    (cs : List ℕ) (s : Progress) (x : ℕ)
    → contains (relax_all cs s).ready x ≡ readied x s.ready s.indegree (relax_all cs s).indegree
unfolding relax_all
relax_all-ready [] s x = ground arith
relax_all-ready (c ∷ cs) s x = ground (
  arith,
  relax_all-ready cs (relax c s) x,
  relax-ready c s x,
  relax-degree c s x,
  relax_all-degree cs (relax c s) x,
)

pub relax_all-work : (cs : List ℕ) (s : Progress) → work (relax_all cs s) ≡ work s
unfolding relax_all
relax_all-work [] s = refl
relax_all-work (c ∷ cs) s = omega (arith, relax_all-work cs (relax c s), relax-work c s)

pub relax_all-IsDistinct :
    (cs : List ℕ) (s : Progress)
    → ReadyAreFree s
    → IsDistinct s.ready
    → IsDistinct (relax_all cs s).ready
unfolding relax_all
relax_all-IsDistinct [] s free d = d
relax_all-IsDistinct (c ∷ cs) s free d =
    relax_all-IsDistinct cs (relax c s) (relax-ReadyAreFree c s free) (relax-IsDistinct c s free d)

pub relax_all-order : (cs : List ℕ) (s : Progress) → (relax_all cs s).order ≡ s.order
unfolding relax_all relax
relax_all-order [] s = refl
relax_all-order (c ∷ cs) s = relax_all-order cs (relax c s)

pub relax_all-length :
    (cs : List ℕ) (s : Progress) → length (relax_all cs s).indegree ≡ length s.indegree
unfolding relax_all relax
relax_all-length [] s = refl
relax_all-length (c ∷ cs) s =
    omega (arith, relax_all-length cs (relax c s), length-modify c (λ d. d - 1) s.indegree)

-- A round of the loop leaves one round less.
pub emit-work :
    (children : List (List ℕ)) (u : ℕ) (rest : List ℕ) (s : Progress)
    → s.ready ≡ u ∷ rest
    → work (emit children u rest s) + 1 ≡ work s
unfolding emit
emit-work children u rest s e = omega (
  arith,
  relax_all-work (get_or children u []) (record s { ready = rest; order = s.order ++ u ∷ [] }),
  ap length e,
)

pub emit-order :
    (children : List (List ℕ)) (u : ℕ) (rest : List ℕ) (s : Progress)
    → (emit children u rest s).order ≡ s.order ++ u ∷ []
unfolding emit
emit-order children u rest s = relax_all-order (get_or children u []) _

-- With as many rounds as there is work the loop ends by its own test.
pub order_loop_ends :
    (rounds : ℕ) (children : List (List ℕ)) (s : Progress)
    → work s ≤ rounds
    → (order_loop rounds children s).ready ≡ []
unfolding order_loop
order_loop_ends zero children s h = ground arith
order_loop_ends (suc rounds) children s h = elim (List-cases s.ready) [
  | inl empty ↦ simp (empty, order_loop)
  | inr (u, rest, e) ↦
      let ih =
        order_loop_ends rounds children (emit children u rest s)
          (omega (arith, emit-work children u rest s e)) in
      rw (e, order_loop) ih
]

pub initially_ready-work :
    (i : ℕ) (ds : List ℕ) → length (initially_ready i ds) + positives ds ≡ length ds
unfolding initially_ready
initially_ready-work i [] = refl
initially_ready-work i (d ∷ ds) = ground (arith, initially_ready-work (suc i) ds)
