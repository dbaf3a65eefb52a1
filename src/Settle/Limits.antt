-- ===== src/Settle/Limits.antt =====
-- Admissions: the weight admitted in a category stays within the global limit, and an operation
-- is admitted at most once at a time.
use mathlib.Core.Path.{subst}
use computerpilot_mcp.Prelude.{
  ℕ, ◌+◌, ◌≤◌, String, Bool, true, false, List, [], ◌∷◌, ◌++◌, ◌≡◌, inl, inr, arith, ap, ◌==◌, ℕ_eq,
  string_eq, if◌then◌else◌, any, eq_iff, Bool-cases, All, AllPairs, AllPairs-append_one,
}
use computerpilot_mcp.Prelude.Table.{delete_where, AllPairs-delete_where}
use computerpilot_mcp.Lifecycle.{workflow_state_eq}
use computerpilot_mcp.Store.{Db, AdmissionRow, OperationRow, WorkflowRow}
use computerpilot_mcp.Dispatch.{
  ClaimArgs, admit_operation, new_admission, weight_where, in_category, in_workflow, has_admission,
  has_room, waits_for_parent, workflow_limit,
}
use computerpilot_mcp.Dispatch.Attempt.{admits}
use computerpilot_mcp.Settle.Steps.{
  AttemptStep, claiming, preparing, dispatching, completing, failing, Claimed, claim_outcome,
  prepare_outcome, dispatch_outcome, complete_outcome, fail_outcome,
}

weight_where-append_one :
    (p : AdmissionRow → Bool) (rows : List AdmissionRow) (a : AdmissionRow)
    → weight_where p (rows ++ a ∷ []) ≡ weight_where p rows + (if p a then a.weight else 0)
weight_where-append_one p [] a = ground arith
weight_where-append_one p (r ∷ rows) a = ground (arith, weight_where-append_one p rows a)

weight_where-delete_where :
    (p q : AdmissionRow → Bool) (rows : List AdmissionRow)
    → weight_where p (delete_where q rows) ≤ weight_where p rows
weight_where-delete_where p q [] = ground arith
weight_where-delete_where p q (r ∷ rows) = ground (arith, weight_where-delete_where p q rows)

pub record IsLimited (category : String) (limit : ℕ) (db : Db) : Type 0 where
  pub weight : weight_where (in_category category) db.admissions ≤ limit
  pub single : AllPairs (λ x y. (x.operation_id == y.operation_id) ≡ false) db.admissions

-- What `has_room` has checked of the weights and of the operation.
pub room_parts :
    (a : ClaimArgs) (o : OperationRow) (w : WorkflowRow) (db : Db)
    → has_room a o w db ≡ true
    → (waits_for_parent o.workflow_id o.step_index db ≡ false)
      × (any (has_admission a.operation_id) db.admissions ≡ false)
      × (weight_where (in_category a.category) db.admissions + a.weight ≤ a.global_limit)
      × (weight_where (in_workflow o.workflow_id a.category) db.admissions + a.weight
          ≤ workflow_limit w)
unfolding has_room
room_parts a o w db h = ground arith

unadmitted :
    (i : String) (rows : List AdmissionRow)
    → any (has_admission i) rows ≡ false
    → All (λ x. (x.operation_id == i) ≡ false) rows
unadmitted i [] h = tt
unadmitted i (r ∷ rows) h = (ground arith, unadmitted i rows (ground arith))

pub grown :
    (p : AdmissionRow → Bool) (a : ClaimArgs) (now : ℕ) (o : OperationRow) (db : Db) (limit : ℕ)
    → weight_where p db.admissions + a.weight ≤ limit
    → weight_where p (admit_operation a now o db).admissions ≤ limit
grown p a now o db limit h =
    let new = new_admission a now o.workflow_id in
    elim (Bool-cases (p new)) [
      | inl e ↦ ground (arith, weight_where-append_one p db.admissions new)
      | inr e ↦ ground (arith, weight_where-append_one p db.admissions new)
    ]

-- Where the claims of a category are made under its limit.
abbrev pub Respects : String → ℕ → {db db' : Db} → AttemptStep db db' → Type 0
Respects category limit (claiming a now got h) =
    (a.category == category) ≡ true → a.global_limit ≤ limit
Respects category limit _ = Unit

pub data LimitedRun (category : String) (limit : ℕ) (start : Db) : Db → Type 0 where
  here : LimitedRun category limit start start
  next :
      {db db' : Db}
      → LimitedRun category limit start db
      → (s : AttemptStep db db') → Respects category limit s
      → LimitedRun category limit start db'

module _ (category : String) (limit : ℕ) where
  same_admissions :
      (db db' : Db)
      → db'.admissions ≡ db.admissions
      → IsLimited category limit db
      → IsLimited category limit db'
  same_admissions db db' e inv = record { weight = rw e inv.weight; single = rw e inv.single }

  category_weight :
      (a : ClaimArgs) (now : ℕ) (db : Db)
      → weight_where (in_category category) db.admissions ≤ limit
      → ((a.category == category) ≡ true → a.global_limit ≤ limit)
      → (o : OperationRow)
      → weight_where (in_category a.category) db.admissions + a.weight ≤ a.global_limit
      → weight_where (in_category category) (admit_operation a now o db).admissions ≤ limit
  category_weight a now db below under o total = elim (Bool-cases (a.category == category)) [
    | inl e ↦ grown (in_category category) a now o db limit (
        subst (λ k. weight_where (in_category k) db.admissions + a.weight ≤ limit)
          ((eq_iff a.category category).0 e) (ground (arith, under e)))
    | inr e ↦ ground (
      arith,
      weight_where-append_one (in_category category) db.admissions
          (new_admission a now o.workflow_id),
    )
  ]

  IsLimited-claim :
      (a : ClaimArgs) (now : ℕ) (db db' : Db)
      → IsLimited category limit db
      → ((a.category == category) ≡ true → a.global_limit ≤ limit)
      → Claimed a now db db'
      → IsLimited category limit db'
  IsLimited-claim a now db db' inv under c =
      let (_, free, total, _) = room_parts a c.o c.w db c.room in
      let new = new_admission a now c.o.workflow_id in
      rw c.after (record {
        weight = category_weight a now db inv.weight under c.o total;
        single =
            AllPairs-append_one _ db.admissions new inv.single
              (unadmitted a.operation_id db.admissions free);
      })

  IsLimited-step :
      (db db' : Db)
      → IsLimited category limit db
      → (s : AttemptStep db db') → Respects category limit s
      → IsLimited category limit db'
  IsLimited-step db db' inv (claiming a now got h) under = elim (claim_outcome a now db db' got h) [
    | inl e ↦ rw e inv
    | inr c ↦ IsLimited-claim a now db db' inv under c
  ]
  IsLimited-step db db' inv (preparing a intent postcondition now got h) under =
      same_admissions db db'
        (ap (λ d. d.admissions) (prepare_outcome a intent postcondition now db db' got h)) inv
  IsLimited-step db db' inv (dispatching a now got h) under =
      let (_, _, e) = dispatch_outcome a now db db' got h in
      same_admissions db db' (ap (λ d. d.admissions) e) inv
  IsLimited-step db db' inv (completing a r now got h) under =
      let (o, _, e) = complete_outcome a r now db db' got h in
      rw e (record {
        weight = ground (
          arith,
          inv.weight,
          weight_where-delete_where (in_category category) (admits a) db.admissions,
        );
        single = AllPairs-delete_where _ (admits a) db.admissions inv.single;
      })
  IsLimited-step db db' inv (failing i lease_token error_code now h) under =
      same_admissions db db' (fail_outcome i lease_token error_code now db db' h).0 inv

  IsLimited-run :
      {db db' : Db}
      → LimitedRun category limit db db'
      → IsLimited category limit db
      → IsLimited category limit db'
  IsLimited-run here inv = inv
  IsLimited-run (next r s u) inv = IsLimited-step _ _ (IsLimited-run r inv) s u

-- Whatever claims, preparations, dispatches, completions and rejections run from a database with
-- no admissions, the weight admitted in a category stays within the limit that its claims are made
-- under, and no operation has two admissions.
pub admissions_within_limit :
    (category : String) (limit : ℕ) (start db : Db)
    → start.admissions ≡ []
    → LimitedRun category limit start db
    → (weight_where (in_category category) db.admissions ≤ limit)
      × AllPairs (λ x y. (x.operation_id == y.operation_id) ≡ false) db.admissions
admissions_within_limit category limit start db none_yet run =
    let inv =
      IsLimited-run category limit run
        (record { weight = rw none_yet (ground arith); single = rw none_yet tt }) in
    (inv.weight, inv.single)
