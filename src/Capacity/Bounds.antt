-- ===== src/Capacity/Bounds.antt =====
-- The weight of the active permits of a category stays within the limit of the category.
use mathlib.Core.Path.{subst}
use computerpilot_mcp.Prelude.{
  ℕ, ◌+◌, ◌≤◌, String, Bool, true, false, Option, none, some, ◌≡◌, ◌⊎◌, refl, arith, ap, ◌==◌,
  string_eq, ℕ_eq, option_eq, eq_iff, if◌then◌else◌, ltb, length, beq_refl, ◌-◌, All, AllPairs,
  All-map, Bool-cases, Option-cases, inl, inr, AllPairs-append_one,
}
use computerpilot_mcp.Prelude.Table.{
  update_where, evict, All-evict, AllPairs-evict, find-eq-none, find-append_one,
  AllPairs-update_where,
}
use computerpilot_mcp.Prelude.Result.{ok, >>=-eq-ok, ok-injective}
use computerpilot_mcp.Store.{
  Db, CapacityRequest, AdmissionState, is_active, is_released, has_admission_id, find_capacity,
}
use computerpilot_mcp.Capacity.{
  CapacityArgs, Permit, make_capacity_room, new_capacity, append_capacity, obtain_capacity,
  older_pending, held_weight, grant, keep_waiting, grant_or_wait, settle_capacity, same_inputs,
  reserve_capacity, update_capacity,
}
use computerpilot_mcp.Capacity.Release.{put_capacity}
use computerpilot_mcp.Capacity.Parts.{reserve_capacity-eq-ok}
use computerpilot_mcp.Capacity.Weights.{
  active_weight, Distinct, IsIdle, active_weight-update_where, active_weight-evict,
  active_weight-append_one, active_le_held, active_weight-update_one,
}

pub record IsBounded (category : String) (limit : ℕ) (db : Db) : Type 0 where
  pub weight : active_weight category db.capacity ≤ limit
  pub single : AllPairs Distinct db.capacity

module _ (category : String) (limit : ℕ) where
  pub IsBounded-update :
      (p : CapacityRequest → Bool) (f : CapacityRequest → CapacityRequest) (db db' : Db)
      → IsIdle category f
      → db'.capacity ≡ update_where p f db.capacity
      → IsBounded category limit db
      → IsBounded category limit db'
  IsBounded-update p f db db' idle e inv = record {
    weight =
        rw e (ground (arith, inv.weight, active_weight-update_where category p f idle db.capacity));
    single = rw e (
        AllPairs-update_where Distinct p f (λ x y d. rw (idle.same_id y) d)
          (λ x y d. rw (idle.same_id x) d) db.capacity inv.single);
  }

  room_evicts :
      (records : ℕ) (db roomy : Db)
      → make_capacity_room records db ≡ ok roomy
      → (n : ℕ) × (roomy.capacity ≡ evict (λ c. is_released c.state) n db.capacity)
  unfolding make_capacity_room
  room_evicts records db roomy h = elim (Bool-cases (ltb (length db.capacity) records)) [
    | inl e ↦ (0, ground arith)
    | inr e ↦ (length db.capacity - records + 1, ground arith)
  ]

  IsBounded-append :
      (a : CapacityArgs) (now : ℕ) (roomy : Db)
      → IsBounded category limit roomy
      → All (λ c. has_admission_id a.admission_id c ≡ false) roomy.capacity
      → IsBounded category limit (append_capacity a now roomy).1
  IsBounded-append a now roomy inv free =
      let row = new_capacity a now roomy.next_capacity in
      record {
        weight = ground (arith, inv.weight, active_weight-append_one category roomy.capacity row);
        single = AllPairs-append_one Distinct roomy.capacity row inv.single (
            All-map (λ c. has_admission_id a.admission_id c ≡ false) (λ c. Distinct c row)
              (λ c far. far) roomy.capacity free);
      }

  IsBounded-insert :
      (a : CapacityArgs) (now : ℕ) (db roomy : Db) (n : ℕ)
      → IsBounded category limit db
      → find_capacity a.admission_id db ≡ none
      → roomy.capacity ≡ evict (λ c. is_released c.state) n db.capacity
      → IsBounded category limit (append_capacity a now roomy).1
        × (find_capacity a.admission_id (append_capacity a now roomy).1
            ≡ some (append_capacity a now roomy).0)
  IsBounded-insert a now db roomy n inv new e =
      let row = new_capacity a now roomy.next_capacity in
      let free =
        All-evict (λ c. has_admission_id a.admission_id c ≡ false) (λ c. is_released c.state) n
          db.capacity (find-eq-none (has_admission_id a.admission_id) db.capacity new) in
      let room : IsBounded category limit roomy = record {
        weight = rw e (
            ground (
              arith,
              inv.weight,
              active_weight-evict category (λ c. is_released c.state) n db.capacity,
            ));
        single = rw e (AllPairs-evict Distinct (λ c. is_released c.state) n db.capacity inv.single);
      } in
      let kept : All (λ c. has_admission_id a.admission_id c ≡ false) roomy.capacity = rw e free in
      (
        IsBounded-append a now roomy room kept,
        find-append_one (has_admission_id a.admission_id) roomy.capacity row kept
            (beq_refl a.admission_id),
      )

  IsBounded-obtain :
      (records : ℕ) (a : CapacityArgs) (now : ℕ) (db stored : Db) (row : CapacityRequest)
      → IsBounded category limit db
      → obtain_capacity records a now db ≡ ok (row, stored)
      → IsBounded category limit stored × (find_capacity a.admission_id stored ≡ some row)
  unfolding obtain_capacity
  IsBounded-obtain records a now db stored row inv h =
      elim (Option-cases (find_capacity a.admission_id db)) [
        | inr (old, e) ↦
            let q : (old, db) ≡ (row, stored) = ok-injective (rw (e, obtain_capacity) at h) in
            subst
              (λ x. IsBounded category limit x.1 × (find_capacity a.admission_id x.1 ≡ some x.0)) q
              (inv, e)
        | inl e ↦
            let (roomy, made, q) =
              >>=-eq-ok (make_capacity_room records db) (λ d. ok (append_capacity a now d))
                (rw (e, obtain_capacity) at h) in
            let (n, evicted) = room_evicts records db roomy made in
            subst
              (λ x. IsBounded category limit x.1 × (find_capacity a.admission_id x.1 ≡ some x.0))
              (ok-injective q) (IsBounded-insert a now db roomy n inv e evicted)
      ]

  -- What the last part of a reservation did.
  grant_outcomes :
      (a : CapacityArgs) (now : ℕ) (row : CapacityRequest) (db db' : Db) (p : Permit)
      → settle_capacity a now row.state row db ≡ (p, db')
      → (db' ≡ db)
        ⊎ ((db'
              ≡ update_capacity a.admission_id
                  (keep_waiting
                    (if older_pending a.category row.ticket db
                      then "older_capacity_request"
                      else "capacity_exhausted")
                    a.limit
                    now)
                  db)
            ⊎ ((held_weight a.category db.capacity + a.weight ≤ a.limit)
                × (db' ≡ update_capacity a.admission_id (grant a.limit now) db)))
  unfolding settle_capacity grant_or_wait
  grant_outcomes a now row db db' p h = ground arith

  IsIdle-keep_waiting :
      (reason : String) (bound now : ℕ) → IsIdle category (keep_waiting reason bound now)
  IsIdle-keep_waiting reason bound now = record {
    same_id = λ c. refl;
    same_weight = λ c. refl;
    no_more = λ c h. h;
  }

  pub IsIdle-put_capacity :
      (state : AdmissionState) (reason : Option String) (now : ℕ)
      → is_active state ≡ false
      → IsIdle category (put_capacity state reason now)
  IsIdle-put_capacity state reason now idle = record {
    same_id = λ c. refl;
    same_weight = λ c. refl;
    no_more = λ c h. ground arith;
  }

  -- The weight after a grant to the one permit of that name.
  granted_weight :
      (a : CapacityArgs) (now : ℕ) (row : CapacityRequest) (db : Db)
      → IsBounded category limit db
      → find_capacity a.admission_id db ≡ some row
      → same_inputs a row ≡ true
      → ((a.category == category) ≡ true → a.limit ≤ limit)
      → held_weight a.category db.capacity + a.weight ≤ a.limit
      → active_weight category
          (update_where (has_admission_id a.admission_id) (grant a.limit now) db.capacity)
        ≤ limit
  granted_weight a now row db inv at same under room =
      let grown =
        active_weight-update_one category a.admission_id (grant a.limit now) row (λ c. refl)
          db.capacity inv.single at in
      elim (Bool-cases (row.category == category)) [
        | inr e ↦ ground (arith, inv.weight)
        | inl e ↦
            let mine : a.category ≡ category = ground (
              arith,
              eq_iff a.category category,
              eq_iff row.category category,
              eq_iff row.category a.category,
            ) in
            let held : held_weight category db.capacity + a.weight ≤ a.limit =
              subst (λ k. held_weight k db.capacity + a.weight ≤ a.limit) mine room in
            ground (
              arith,
              active_le_held category db.capacity,
              under ((eq_iff a.category category).1 mine),
            )
      ]

  pub IsBounded-reserve :
      (records : ℕ) (fingerprint : String) (a : CapacityArgs) (now : ℕ) (db db' : Db) (p : Permit)
      → IsBounded category limit db
      → ((a.category == category) ≡ true → a.limit ≤ limit)
      → reserve_capacity records fingerprint a now db ≡ ok (p, db')
      → IsBounded category limit db'
  IsBounded-reserve records fingerprint a now db db' p inv under h =
      let parts = reserve_capacity-eq-ok records fingerprint a now db db' p h in
      let (kept, at) =
        IsBounded-obtain records a now db parts.stored parts.row inv parts.obtained in
      elim (grant_outcomes a now parts.row parts.stored db' p parts.settled) [
        | inl e ↦ rw e kept
        | inr (inl e) ↦
            IsBounded-update (has_admission_id a.admission_id) _ parts.stored db'
              (IsIdle-keep_waiting _ a.limit now) (ap (λ d. d.capacity) e) kept
        | inr (inr (room, e)) ↦ rw e (record {
          weight = granted_weight a now parts.row parts.stored kept at parts.same under room;
          single =
              AllPairs-update_where Distinct (has_admission_id a.admission_id) (grant a.limit now)
                (λ x y d. d) (λ x y d. d) parts.stored.capacity kept.single;
        })
      ]
