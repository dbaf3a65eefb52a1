-- ===== src/Aggregate/Stable.antt =====
-- A recomputation repeated without a change in between changes nothing.
use computerpilot_mcp.Prelude.{
  ℕ, String, Bool, true, Option, some, ◌≡◌, sym, ◌∙◌, refl, arith, ℕ_eq, option_eq, string_eq,
  beq_refl, if◌then◌else◌, Bool-cases, Option-cases, inl, inr,
}
use mathlib.Core.Path.{subst}
use mathlib.Core.Option.{some-injective}
use computerpilot_mcp.Prelude.Table.{find-true}
use computerpilot_mcp.Prelude.Find.{find-update_hit}
use computerpilot_mcp.Prelude.Result.{ok}
use computerpilot_mcp.Lifecycle.{workflow_state_eq}
use computerpilot_mcp.Store.{Db, WorkflowRow, find_workflow}
use computerpilot_mcp.Aggregate.{
  AggregateState, aggregate_state, or_reason, is_unchanged, put_aggregate, store_aggregate,
  recompute_workflow_aggregate, has_workflow_id,
}

module _ (i lease_token : String) (reason : Option String) (keep_running : Bool) where
  abbrev stored : ℕ → WorkflowRow → Db → Db
  stored now w db =
      let s = aggregate_state keep_running w db in
      let error = or_reason s.error reason in
      if is_unchanged s error w
      then db
      else store_aggregate i s error "workflow_aggregate_recomputed" now db

  recomputed :
      (now : ℕ) (db db' : Db)
      → recompute_workflow_aggregate i lease_token reason keep_running now db ≡ ok db'
      → (w : WorkflowRow) × (find_workflow i db ≡ some w) × (db' ≡ stored now w db)
  unfolding recompute_workflow_aggregate
  recomputed now db db' h = elim (Option-cases (find_workflow i db)) [
    | inl e ↦ absurd (ground arith)
    | inr (w, e) ↦ (w, e, ground arith)
  ]

  put_is_unchanged :
      (s : AggregateState) (error : Option String) (now : ℕ) (w : WorkflowRow)
      → is_unchanged s error (put_aggregate s error now w) ≡ true
  put_is_unchanged s error now w =
      ground (arith, beq_refl s.target, beq_refl s.current_step, beq_refl error)

  again_same :
      (now : ℕ) (w : WorkflowRow) (db : Db)
      → is_unchanged
          (aggregate_state keep_running w db)
          (or_reason (aggregate_state keep_running w db).error reason)
          w
        ≡ true
      → stored now w db ≡ db
  again_same now w db e = rw e refl

  abbrev IsQuiet : WorkflowRow → Db → Type 0
  IsQuiet w db =
      is_unchanged (aggregate_state keep_running w db)
        (or_reason (aggregate_state keep_running w db).error reason) w
      ≡ true

  IsQuiet-unchanged :
      (w v : WorkflowRow) (db : Db)
      → find_workflow i db ≡ some w
      → IsQuiet w db
      → find_workflow i db ≡ some v
      → IsQuiet v db
  IsQuiet-unchanged w v db at quiet f =
      subst (λ x. IsQuiet x db) (some-injective w v (sym at ∙ f)) quiet

  IsQuiet-stored :
      (now : ℕ) (w v : WorkflowRow) (db : Db)
      → find_workflow i db ≡ some w
      → (let s = aggregate_state keep_running w db in
          let d =
            store_aggregate i s (or_reason s.error reason) "workflow_aggregate_recomputed" now db in
          find_workflow i d ≡ some v → IsQuiet v d)
  unfolding aggregate_state
  IsQuiet-stored now w v db at f =
      let s = aggregate_state keep_running w db in
      let error = or_reason s.error reason in
      let hit =
        find-update_hit (has_workflow_id i) w (has_workflow_id i) (put_aggregate s error now)
          (λ r. refl) db.workflows (find-true (has_workflow_id i) db.workflows w at) at in
      subst (λ x. IsQuiet x (store_aggregate i s error "workflow_aggregate_recomputed" now db))
        (some-injective (put_aggregate s error now w) v (sym hit ∙ f))
        (put_is_unchanged s error now w)

  IsQuiet-after :
      (now : ℕ) (w v : WorkflowRow) (db : Db)
      → find_workflow i db ≡ some w
      → find_workflow i (stored now w db) ≡ some v
      → IsQuiet v (stored now w db)
  IsQuiet-after now w v db at f =
      let s = aggregate_state keep_running w db in
      let error = or_reason s.error reason in
      let written = store_aggregate i s error "workflow_aggregate_recomputed" now db in
      elim (Bool-cases (is_unchanged s error w)) [
        | inl same ↦
            subst (λ d. find_workflow i d ≡ some v → IsQuiet v d) (sym (again_same now w db same))
              (IsQuiet-unchanged w v db at same) f
        | inr changed ↦
            let q : stored now w db ≡ written = rw changed refl in
            subst (λ d. find_workflow i d ≡ some v → IsQuiet v d) (sym q)
              (IsQuiet-stored now w v db at) f
      ]

  -- A second recomputation with the same arguments, at any time, leaves the database, with its
  -- versions and events, as the first one left it.
  pub recompute_stable :
      (now later : ℕ) (db db1 db2 : Db)
      → recompute_workflow_aggregate i lease_token reason keep_running now db ≡ ok db1
      → recompute_workflow_aggregate i lease_token reason keep_running later db1 ≡ ok db2
      → db2 ≡ db1
  recompute_stable now later db db1 db2 h k =
      let (w, at, e) = recomputed now db db1 h in
      let (v, at1, e1) = recomputed later db1 db2 k in
      let quiet =
        subst (λ d. find_workflow i d ≡ some v → IsQuiet v d) (sym e) (IsQuiet-after now w v db at)
          at1 in
      e1 ∙ again_same later v db1 quiet
