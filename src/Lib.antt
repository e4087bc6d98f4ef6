-- ===== src/Lib.antt =====
-- A verification library for GopherHarness, a local runtime for coding agents written in Go.
--
-- The program keeps its state in small JSON files, each changed by one locked transaction
-- (internal/durable), and builds its services on them: the account of what model calls may cost
-- (internal/provider/budget.go), the journal of requests and results (internal/journal), the store
-- of approvals (internal/permission), the receipts of workers (internal/worker/results.go) and the
-- writes to memory that wait (internal/memory/outbox.go). In memory stand the queues of conversations
-- (internal/scheduler), of deliveries (internal/delivery), which claim and settle their messages in
-- the journal, and the workers (internal/worker). The gateway (internal/gateway) takes events in,
-- records them in the journal, hands them to the scheduler and gives the answers to delivery. The
-- loop of a turn (internal/runtime) asks a model through the retries of
-- internal/provider/policy.go, runs the tools it calls in batches
-- (internal/tools/batch.go), whose output is bounded (internal/sandbox/output.go), and appends one
-- receipt for each call to the session; an interrupted session is repaired before the next turn
-- (internal/runtime/recovery.go). Three checks are pure: the one on tool exchanges
-- (internal/contextbuilder/closure.go), the gate before a final answer and the test for commands that
-- count as verification (internal/governance).
--
-- Base            names from the libraries, tests, lists, dictionaries (a Go map keyed by texts is an
--                 association list; a write replaces in place), signed integers
-- Durable         internal/durable/file.go, a locked read, modify and replace of a file: `update`,
--                 `read`; Durable.Rename has the steps of `Replace`, and Durable.Refined proves
--                 that these do what `update` takes for granted; Durable.Atomic has what follows
--                 for transactions
-- Budget          internal/provider/budget.go: prices, costs and the snapshot (`budgetSnapshot`);
--                 Budget.Account has the callbacks of OpenBudget, Recover, Reconcile, reserve,
--                 sending and unsent, Budget.Run has `Budgeted.run`; Budget.Totals, Budget.Cost,
--                 Budget.Admission, Budget.Recovery, Budget.Run.Holds and Budget.Run.Within prove
--                 what they promise
-- Journal         internal/journal/journal.go: `Open`, `mutate`, `Put`, `Move` and `Complete`;
--                 Journal.Resolve has `Resolve`; Journal.Changes, Journal.Fence, Journal.Lifecycle,
--                 Journal.Publish and Journal.Decisions prove what they promise
-- Approval        internal/permission/store.go: `Create`, `Decide`, `Claim`, `Finish`, `Get`,
--                 `Find`; Approval.Claims and Approval.History prove what they promise
-- Delivery        internal/delivery/hub.go: `send`; Delivery.Hub has the queues, Delivery.Posting
--                 `PostDurable` of internal/delivery/durable.go; Delivery.Attempts,
--                 Delivery.Claimed, Delivery.Bound, Delivery.Hub.Pending and Delivery.Hub.Idle
--                 prove what they promise
-- Outbox          internal/memory/outbox.go: `Prepare`, `flush` job by job, `recordResult`,
--                 `Retry`; Outbox.Retries, Outbox.Tries and Outbox.Finished prove what they promise
-- Readiness       internal/governance/readiness.go: `Evaluate`; Readiness.Gate proves when it
--                 blocks
-- Gateway         internal/gateway/gateway.go: `publish` and its wake from the wait for a slot,
--                 `resume`; Gateway.Steps has the goroutine of an accepted event and histories,
--                 Gateway.Reconcile `Reconcile` of internal/gateway/reconcile.go; Gateway.Cases,
--                 Gateway.Once, Gateway.Slots, Gateway.Progress, Gateway.Starts, Gateway.Kept,
--                 Gateway.Restart and Gateway.Routed prove what they promise
-- Verification    internal/governance/verification_command.go, and `IsVerificationCommand` of
--                 internal/governance/readiness.go: `verification_words`,
--                 `is_verification_command`; Verification.Simple and Verification.Quoted prove
--                 which commands count and what is read
-- Recovery        internal/runtime/recovery.go: `closeInterruptedExchanges`; Recovery.Sync,
--                 Recovery.Calls, Recovery.Repair, Recovery.Kept and Recovery.Untouched prove that
--                 it restores what Closure checks
-- Output          internal/sandbox/output.go: `boundedOutput`; Output.Bounded proves what its
--                 snapshots show
-- Resilient       internal/provider/policy.go: `Retryable`, `Resilient.call`; Resilient.Streaming
--                 has `Stream`; Resilient.Attempts, Resilient.Everywhere, Resilient.Waits and
--                 Resilient.Streaming prove how often it asks, how long it waits and that shown
--                 text is not repeated
-- Tools           internal/tools/batch.go: `RunIndexedBatch`; Tools.Groups proves what a batch
--                 returns and what may overlap
-- Turn            internal/runtime: the task and the guard of a turn; Turn.Batch has
--                 `executeToolBatch`, Turn.Received `drainInbox` and `ingestWorkerResults`,
--                 Turn.Loop, Turn.Respond and Turn.Run the loop of `runWithContinuation`; the
--                 modules below Turn.Batch, Turn.Received and Turn.Run prove that it ends within
--                 its limits and that every call has one receipt
-- Closure         internal/contextbuilder/closure.go: `ValidateClosure`; Closure.Balance proves
--                 what it accepts
-- Worker          internal/worker/manager.go: `StartContext`; Worker.Runs has the goroutine,
--                 `Send`, `Stop`, `CancelAll` and `Seal`, Worker.Receipts the receipts of
--                 internal/worker/results.go; Worker.Quota, Worker.Slots, Worker.Final, Worker.Life
--                 and Worker.Receipts.Pending prove what they promise
-- Scheduler       internal/scheduler/scheduler.go: `Submit`; Scheduler.Work has the steps of
--                 `work`, `CancelConversation` and `Seal`, Scheduler.Life the histories from `New`
--                 on; Scheduler.Bounds, Scheduler.Steps, Scheduler.Submit and Scheduler.Sealing
--                 prove that lanes and pools stay in order, Scheduler.Outcome that results are
--                 written once
--
-- Conventions. A method that changes state returns the new state. A callback that the code hands to
-- `durable.File.Update` is a function from the stored value to a verdict, and `Durable.update` runs
-- it on a file under one of four behaviours of the disk. Times are numbers of nanoseconds. int64 and
-- int are integers, int64 sums and results are checked against 2 ^ 63 - 1 where the code checks them.
-- Statuses are texts, as in the code, but for the states of a budget's attempt, which are constructors
-- with `other` for any other text. Random keys, clocks, contexts, leases, digests, redaction and the
-- replies of providers, outlets and runners are arguments. What runs concurrently is a list of steps
-- in any order, each step one region of a mutex, one operation on a channel or one transaction.
--
-- Loops recur on the list that they walk or on the rounds that are left, so no fuel is chosen
-- without a theorem that it is enough.
--
-- Not modelled: encoding to JSON (a value that is stored is the value that is read), file paths,
-- operating-system locks beyond being granted or not, HTTP, the terminal, and the components that
-- the manifest lists as not modelled.
pub mod Base
pub mod Durable
pub mod Budget
pub mod Journal
pub mod Approval
pub mod Delivery
pub mod Outbox
pub mod Readiness
pub mod Gateway
pub mod Verification
pub mod Recovery
pub mod Output
pub mod Resilient
pub mod Tools
pub mod Turn
pub mod Closure
pub mod Worker
pub mod Scheduler
