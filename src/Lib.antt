-- ===== src/Lib.antt =====
-- A model of the coordination core of ComputerPilot MCP: the claims on resources, the durable store
-- of resource requests, capacity permits, leases and attempts, and the transitions of workflows.
--
-- The parts and how they interact. A managed action turns its paths into claims (Claims); the
-- store persists them as one request that is admitted when nothing conflicts (Requests). The
-- owner of an admitted request carries a capability, under which nested actions claim parts of
-- what it holds (Capability) and processes reserve permits (Capacity). A workflow is executed
-- under a lease (Leases); each of its operations is claimed, prepared, dispatched and settled
-- under that lease (Dispatch, Settle), in the states that the tables of transitions allow
-- (Lifecycle). The state of the workflow follows from its operations, admissions and requests
-- (Aggregate), and a request to cancel it is stored for the attempts to see (Cancel); a running
-- workflow is moved on to its next step (Advance), and one that failed or was paused is resumed
-- (Resume). Before it runs, its definition is checked and its steps are ordered (Definitions),
-- and an intent is given a route among the tools and the external servers that can serve it
-- (Router). Apart from the store, a tool of the file system parses a unified diff and writes its
-- changes, or undoes them (Patches).
--
-- Files and code:
--   Claims       core/resource_claims.py: claims_overlap, claims_conflict, _claim_covers,
--                canonical_claims; Claims/Path is the part of posixpath that they compare by
--   Lifecycle    core/workflow_models.py: the states and the tables of transitions
--   Store        the tables of core/workflow_store.py, as lists of rows in the order of their keys
--   Requests     reserve_resource_claims; Requests/Release binds, releases and quarantines
--   Capability   the query of resource capabilities, and validate_resource_capability
--   Capacity     reserve_capacity; Capacity/Release is quarantine_capacity, release_capacity and
--                release_process_capacity
--   Leases       acquire_lease, renew_lease, require_lease, release_lease, release_lease_if_current
--   Dispatch     claim_ready_operation; Dispatch/Attempt is prepare_operation_attempt and
--                mark_operation_may_dispatch
--   Settle       complete_operation_attempt, fail_unadmitted_operation
--   Prelude      SQL over lists (Prelude/Table, Prelude/Find), text as code points, results of
--                calls that may raise, and the order of Python's sorted; Prelude/Quantify turns any,
--                all and sum into statements on the elements
--   Aggregate    _aggregate_state, recompute_workflow_aggregate; Aggregate/Rows is what their
--                queries say of the rows; Aggregate/Resolve is
--                resolve_quarantined_resource_request
--   Cancel       request_cancel, cancel_requested
--   Advance      advance_running, checkpoint_step
--   Resume       transition, _require_safe_resume; core/workflow_actions.py: which actions mutate
--   Definitions  core/workflow_models.py: WorkflowDefinition and workflow_topological_order
--   Patches      tools/filesystem/patches.py: _apply_hunks; Patches/Path is _patch_path,
--                Patches/Parse _parse_hunk, Patches/Files parse_unified_patch, Patches/Commit the
--                writes and _restore, Patches/Prepare _prepare and apply_patch_transaction
--   Router       core/execution_router.py and core/execution_models.py: candidates and hard
--                rejections; Router/Recommend is their order and the recommendation
--   Tests        runs of the model
--
-- State. A call of the store is one transaction under BEGIN IMMEDIATE, so a method is a function
-- from the database to a result and the next database; a call that raises leaves the database as
-- it was. The clock, uuids, what the JSON of evidence says of a dispatch and what the operating
-- system says of a process are arguments. Times are numbers: milliseconds, as they are stored,
-- and microseconds where a method reads the clock and adds to it. JSON columns are texts. Most
-- loops run over lists and need no fuel; the removal of released rows is by their number. The
-- loop that orders the steps takes as many rounds as there are steps, and the loops of the parser
-- of diffs one more than there are lines; each round takes a step from the queue or a line from
-- the input. Paths are POSIX paths. Integers are Python's, unbounded and here not negative.
--
-- The files of a patch are a function from resolved paths to their bytes. How paths are resolved
-- and texts encoded, whether a text is a Python program, and the hash are fields of the record
-- Host; an error of the operating system is a number of writes after which it happens.
--
-- Not modelled: the migrations and the connections of SQLite, redaction of inputs, metadata of
-- events, Windows paths, the backups, claims, caches and directories of a patch, errors while a
-- patch is undone, and the parts of the program outside these files: the executor of workflows,
-- jobs, the recovery journal, extensions, sessions and tools.
pub mod Prelude
pub mod Claims
pub mod Lifecycle
pub mod Store
pub mod Requests
pub mod Capability
pub mod Capacity
pub mod Leases
pub mod Dispatch
pub mod Settle
pub mod Aggregate
pub mod Cancel
pub mod Advance
pub mod Resume
pub mod Definitions
pub mod Patches
pub mod Router
pub mod Tests
