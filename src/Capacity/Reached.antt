-- ===== src/Capacity/Reached.antt =====
-- The bound on active permits in every database that the operations on requests and permits reach.
use computerpilot_mcp.Capacity.Kept.{
  KeepsPermits, reserve_keeps, bind_keeps, release_keeps, quarantine_keeps, resolve_keeps,
}
use computerpilot_mcp.Prelude.{
  ℕ, ◌≤◌, String, Bool, true, false, List, [], Option, none, some, ◌≡◌, ◌⊎◌, inl, inr, refl, arith,
  ◌==◌, string_eq, option_eq, list_eq, AllPairs,
}
use computerpilot_mcp.Prelude.Table.{update_where}
use computerpilot_mcp.Prelude.Result.{ok}
use computerpilot_mcp.Claims.{claim_eq}
use computerpilot_mcp.Store.{
  Db, ResourceRequest, CapacityRequest, AdmissionState, released, quarantined, is_active,
  has_admission_id,
}
use computerpilot_mcp.Requests.{forget_parent}
use computerpilot_mcp.Requests.Exclusion.{
  resolving, Step, reserving, binding, releasing, quarantining, reserving_capacity,
  quarantining_capacity, releasing_capacity, releasing_process,
}
use computerpilot_mcp.Capacity.Release.{
  put_capacity, quarantine_capacity, release_capacity, settles, ProcessIdentity,
  release_process_capacity,
}
use computerpilot_mcp.Capacity.Weights.{active_weight, Distinct, IsIdle}
use computerpilot_mcp.Capacity.Bounds.{
  IsBounded, IsBounded-update, IsBounded-reserve, IsIdle-put_capacity,
}

quarantined_permit :
    (i owner : String) (now : ℕ) (db db' : Db)
    → quarantine_capacity i owner now db ≡ ok db'
    → db'.capacity
      ≡ update_where
          (has_admission_id i)
          (put_capacity quarantined (some "process_cleanup_unresolved") now)
          db.capacity
unfolding quarantine_capacity
quarantined_permit i owner now db db' h = ground arith

released_permit :
    (i owner : String) (now : ℕ) (db db' : Db) (done : Bool)
    → release_capacity i owner now db ≡ ok (done, db')
    → (db'.capacity ≡ db.capacity)
      ⊎ (db'.capacity
          ≡ update_where (has_admission_id i) (put_capacity released none now) db.capacity)
unfolding release_capacity
released_permit i owner now db db' done h = ground arith

released_process :
    (process : ProcessIdentity) (now : ℕ) (db db' : Db) (count : ℕ)
    → release_process_capacity process now db ≡ ok (count, db')
    → db'.capacity
      ≡ update_where
          (settles process)
          (put_capacity released (some "owned_process_cleanup_complete") now)
          db.capacity
unfolding release_process_capacity
released_process process now db db' count h = ground arith

-- Where the permits of a category are asked for under its limit.
abbrev pub Respects : String → ℕ → {db db' : Db} → Step db db' → Type 0
Respects category limit (reserving_capacity records fingerprint a now p h) =
    (a.category == category) ≡ true → a.limit ≤ limit
Respects category limit _ = Unit

pub data LimitedReach (category : String) (limit : ℕ) (start : Db) : Db → Type 0 where
  here : LimitedReach category limit start start
  next :
      {db db' : Db}
      → LimitedReach category limit start db
      → (s : Step db db') → Respects category limit s
      → LimitedReach category limit start db'

module _ (category : String) (limit : ℕ) where
  IsIdle-forget_parent : (kept : List ResourceRequest) → IsIdle category (forget_parent kept)
  IsIdle-forget_parent kept = record {
    same_id = λ c. ground arith;
    same_weight = λ c. ground arith;
    no_more = λ c h. ground arith;
  }

  IsBounded-same :
      (db db' : Db)
      → db'.capacity ≡ db.capacity
      → IsBounded category limit db
      → IsBounded category limit db'
  IsBounded-same db db' e inv = record { weight = rw e inv.weight; single = rw e inv.single }

  IsBounded-keeps :
      (db db' : Db)
      → KeepsPermits db db'
      → IsBounded category limit db
      → IsBounded category limit db'
  IsBounded-keeps db db' (inl e) inv = IsBounded-same db db' e inv
  IsBounded-keeps db db' (inr (kept, e)) inv =
      IsBounded-update category limit (λ _. true) (forget_parent kept) db db'
        (IsIdle-forget_parent kept) e inv

  IsBounded-put :
      (p : CapacityRequest → Bool) (state : AdmissionState) (reason : Option String) (now : ℕ)
      (db db' : Db)
      → is_active state ≡ false
      → db'.capacity ≡ update_where p (put_capacity state reason now) db.capacity
      → IsBounded category limit db
      → IsBounded category limit db'
  IsBounded-put p state reason now db db' idle e inv =
      IsBounded-update category limit p (put_capacity state reason now) db db'
        (IsIdle-put_capacity category limit state reason now idle) e inv

  IsBounded-Step :
      (db db' : Db)
      → IsBounded category limit db
      → (s : Step db db') → Respects category limit s
      → IsBounded category limit db'
  IsBounded-Step db db' inv (reserving bound fingerprint now a res h) under =
      IsBounded-keeps db db' (reserve_keeps bound fingerprint now a db db' res h) inv
  IsBounded-Step db db' inv (binding i owner attempt now h) under =
      IsBounded-same db db' (bind_keeps i owner attempt now db db' h) inv
  IsBounded-Step db db' inv (releasing i owner now done h) under =
      IsBounded-same db db' (release_keeps i owner now db db' done h) inv
  IsBounded-Step db db' inv (quarantining i owner reason now h) under =
      IsBounded-same db db' (quarantine_keeps i owner reason now db db' h) inv
  IsBounded-Step db db' inv (resolving i owner evidence now h) under =
      IsBounded-same db db' (resolve_keeps i owner evidence now db db' h) inv
  IsBounded-Step db db' inv (reserving_capacity records fingerprint a now p h) under =
      IsBounded-reserve category limit records fingerprint a now db db' p inv under h
  IsBounded-Step db db' inv (quarantining_capacity i owner now h) under =
      IsBounded-put (has_admission_id i) quarantined _ now db db' refl
        (quarantined_permit i owner now db db' h) inv
  IsBounded-Step db db' inv (releasing_capacity i owner now done h) under =
      elim (released_permit i owner now db db' done h) [
        | inl e ↦ IsBounded-same db db' e inv
        | inr e ↦ IsBounded-put (has_admission_id i) released none now db db' refl e inv
      ]
  IsBounded-Step db db' inv (releasing_process process now count h) under =
      IsBounded-put (settles process) released _ now db db' refl
        (released_process process now db db' count h) inv

  IsBounded-run :
      {db db' : Db}
      → LimitedReach category limit db db'
      → IsBounded category limit db
      → IsBounded category limit db'
  IsBounded-run here inv = inv
  IsBounded-run (next r s under) inv = IsBounded-Step _ _ (IsBounded-run r inv) s under

-- In every database that the operations on requests and permits reach from one without permits,
-- the weight of the active permits of a category is within the limit that its permits are asked
-- for under, and no two permits have one identifier.
pub permits_within_limit :
    (category : String) (limit : ℕ) (start db : Db)
    → start.capacity ≡ []
    → LimitedReach category limit start db
    → (active_weight category db.capacity ≤ limit) × AllPairs Distinct db.capacity
permits_within_limit category limit start db none_yet run =
    let inv =
      IsBounded-run category limit run
        (record { weight = rw none_yet (ground arith); single = rw none_yet tt }) in
    (inv.weight, inv.single)
