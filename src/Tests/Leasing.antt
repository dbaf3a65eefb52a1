-- ===== src/Tests/Leasing.antt =====
-- Two executions that want one workflow, and the theorems on leases at that run.
use computerpilot_mcp.Prelude.{true, false, [], ◌∷◌, none, some, ◌≡◌, ◌≢◌, refl, string_eq}
use computerpilot_mcp.Prelude.Result.{ok}
use computerpilot_mcp.Lifecycle.{WorkflowState}
use computerpilot_mcp.Store.{Db, empty_db, WorkflowRow, dag, WorkflowLease, find_lease}
use computerpilot_mcp.Leases.{
  acquire_lease, renew_lease, require_lease, release_lease_if_current, new_lease, take_over,
}
use computerpilot_mcp.Leases.Held.{OthersRun, lease_held_until_expiry, releasing_current, acquiring}
use computerpilot_mcp.Leases.Fenced.{FreshRun, FreshStep, fenced_token_refused}

abbrev workflow : WorkflowRow
workflow = record {
  workflow_id = "w";
  state = WorkflowState.running;
  current_step = 0;
  version = 1;
  execution_mode = dag;
  max_parallel_steps = 2;
  updated_at = 0;
  last_error = none;
  cancel_requested_at = none;
  cancel_reason = none;
}

abbrev start : Db
start = record empty_db { workflows = workflow ∷ [] }

-- The lease that "one" acquires at 1 s for 5 s.
abbrev held : WorkflowLease
held = new_lease "w" "one" "t1" 1000 6000

abbrev leased : WorkflowLease → Db
leased l = record start { leases = l ∷ [] }

acquired : acquire_lease 1000000 5000000 "t1" true "w" "one " start ≡ ok (held, leased held)
unfolding acquire_lease
acquired = refl

-- "one" acquires again, and "two" releases with a token of its own.
entered_again :
    acquire_lease 2000000 9000000 "t2" true "w" "one" (leased held) ≡ ok (held, leased held)
unfolding acquire_lease
entered_again = refl

others : OthersRun held (leased held) (leased held)
unfolding release_lease_if_current
others =
    OthersRun.next
      (OthersRun.next OthersRun.here
        (acquiring 2000000 9000000 "t2" true "w" "one" held refl entered_again))
      (releasing_current "w" "t9" false refl refl)

lease_held_until_expiry_example : find_lease "w" (leased held) ≡ some held
lease_held_until_expiry_example =
    lease_held_until_expiry held (leased held) (leased held) refl others

-- After 6 s "two" takes the lease over, and the token "t1" is refused.
abbrev taken : WorkflowLease
taken = take_over "two" "t3" 6000 11000 held

taken_over :
    acquire_lease 6000000 5000000 "t3" true "w" "two" (leased held) ≡ ok (taken, leased taken)
unfolding acquire_lease
taken_over = refl

abbrev renewed : WorkflowLease
renewed = record taken { heartbeat_at = 7000; expires_at = 12000; version = 3 }

renewal : renew_lease 7000000 5000000 "w" "t3" (leased taken) ≡ ok (renewed, leased renewed)
unfolding renew_lease
renewal = refl

fenced_token_refused_example :
    (require_lease 7000 "w" "t1" (leased renewed) ≢ ok held)
    × (renew_lease 7000000 5000000 "w" "t1" (leased renewed) ≢ ok (held, leased held))
fenced_token_refused_example =
    fenced_token_refused "t1" "w" (leased taken) (leased renewed) (refl, tt)
      (FreshRun.next FreshRun.here (FreshStep.renewing 7000000 5000000 "w" "t3" renewed renewal))
      7000 7000000 5000000 held (held, leased held)
