-- ===== src/Definitions/Waiting.antt =====
-- The edges into a step from the steps that a test does not name, counted.
use computerpilot_mcp.Prelude.{
  ℕ, zero, suc, ◌+◌, ◌<◌, Bool, true, false, ◌||◌, List, [], ◌∷◌, ◌≡◌, refl, arith, ◌==◌, ℕ_eq,
  length, contains, if◌then◌else◌, Bool-cases, inl, inr,
}
use computerpilot_mcp.Definitions.{get_or}
use computerpilot_mcp.Definitions.Rounds.{count}

abbrev pub waiting : (ℕ → Bool) → ℕ → List (List ℕ) → ℕ
waiting emitted v [] = 0
waiting emitted v (row ∷ rows) =
    (if emitted 0 then 0 else count v row) + waiting (λ u. emitted (suc u)) v rows

pub count_zero : (v : ℕ) (row : List ℕ) → count v row ≡ 0 → contains row v ≡ false
count_zero v [] h = refl
count_zero v (x ∷ row) h = ground (arith, count_zero v row)

pub count_pos : (v : ℕ) (row : List ℕ) → 0 < count v row → contains row v ≡ true
count_pos v [] h = absurd (omega arith)
count_pos v (x ∷ row) h = ground (arith, count_pos v row)

waiting_cong :
    (p q : ℕ → Bool) (v : ℕ) (rows : List (List ℕ))
    → ((u : ℕ) → q u ≡ p u)
    → waiting q v rows ≡ waiting p v rows
waiting_cong p q v [] same = refl
waiting_cong p q v (row ∷ rows) same =
    ground
      (arith, same 0, waiting_cong (λ u. p (suc u)) (λ u. q (suc u)) v rows (λ u. same (suc u)))

-- One more step is emitted, and its edges are no longer counted.
pub waiting-emit :
    (p q : ℕ → Bool) (u v : ℕ) (rows : List (List ℕ))
    → p u ≡ false
    → ((x : ℕ) → q x ≡ (x == u || p x))
    → waiting p v rows ≡ waiting q v rows + count v (get_or rows u [])
waiting-emit p q u v [] new step = omega arith
waiting-emit p q zero v (row ∷ rows) new step = ground (
  arith,
  step 0,
  waiting_cong (λ x. p (suc x)) (λ x. q (suc x)) v rows (λ x. ground (arith, step (suc x))),
)
waiting-emit p q (suc u) v (row ∷ rows) new step = ground (
  arith,
  step 0,
  waiting-emit (λ x. p (suc x)) (λ x. q (suc x)) u v rows new (λ x. ground (arith, step (suc x))),
)

-- Where nothing is counted, every step with an edge is emitted.
pub waiting_zero :
    (p : ℕ → Bool) (v : ℕ) (rows : List (List ℕ))
    → waiting p v rows ≡ 0
    → (u : ℕ) → contains (get_or rows u []) v ≡ true
    → p u ≡ true
waiting_zero p v [] h u edge = cc
waiting_zero p v (row ∷ rows) h zero edge = ground (arith, count_zero v row)
waiting_zero p v (row ∷ rows) h (suc u) edge =
    waiting_zero (λ x. p (suc x)) v rows (omega arith) u edge

-- Some step with an edge is not emitted.
abbrev pub HeldUp : (ℕ → Bool) → ℕ → List (List ℕ) → Type 0
HeldUp p v rows =
    (u : ℕ) × (u < length rows) × (p u ≡ false) × (contains (get_or rows u []) v ≡ true)

HeldUp-later :
    (p : ℕ → Bool) (v : ℕ) (row : List ℕ) (rows : List (List ℕ))
    → HeldUp (λ u. p (suc u)) v rows
    → HeldUp p v (row ∷ rows)
HeldUp-later p v row rows (u, below, new, edge) = (suc u, omega arith, new, edge)

-- Where something is counted there is such a step.
pub waiting_pos :
    (p : ℕ → Bool) (v : ℕ) (rows : List (List ℕ)) → 0 < waiting p v rows → HeldUp p v rows
waiting_pos p v [] h = absurd (omega arith)
waiting_pos p v (row ∷ rows) h = elim (Bool-cases (p 0)) [
  | inl e ↦ HeldUp-later p v row rows (waiting_pos (λ x. p (suc x)) v rows (ground (arith, e)))
  | inr e ↦ elim (Bool-cases (count v row == 0)) [
    | inl none_here ↦
        HeldUp-later p v row rows
          (waiting_pos (λ x. p (suc x)) v rows (ground (arith, e, none_here)))
    | inr some_here ↦ (0, omega arith, e, count_pos v row (ground (arith, some_here)))
  ]
]
