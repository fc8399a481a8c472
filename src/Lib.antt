-- ===== src/Lib.antt =====
-- Verification of the openclaw scheduler: the parts that keep its work exclusive and its states
-- final, over the tables of schema.sql.
--
-- The program is a job scheduler on one SQLite database. Dispatcher processes compete for a named
-- lease (runtime-lease.js); work waits in a queue of dispatches (dispatch-queue.js); an execution
-- is a run, which its dispatcher claims and finishes (run-state.js) under the fence of its lease.
-- A write to a run reads the lease table in the same statement, and a reading of the queue reads
-- the runs and the jobs.
--
-- Files:
--   Base       Results of calls that throw, texts as JavaScript and SQL compare them, lists, and a
--              table as the list of its rows with the two statements on it: UPDATE by primary key
--              with a guard, and UPDATE with a condition (Base.Table). Base.Table.Follows lifts a
--              property of one row's change to histories of whole tables, Base.Table.Every a property
--              of all rows. Base.Julian is julianday: the double nearest to the Julian day, in units of
--              2^-31 days, its spacing in the years 1029 to 6771. The difference of two such days
--              and its product with 86400 (the seconds) are exact for times that are less than 17
--              years apart, and above every shorter limit for others; the product with 86400000 is
--              exact for times that are less than 49 days apart.
--   Lease      runtime-lease.js: acquireDispatcherLease, renewDispatcherLease,
--              assertDispatcherLease, releaseDispatcherLease, getDispatcherLease. Lease.Fencing
--              and Lease.Acquire prove.
--   Run        run-state.js. Run.Row is a row of `runs`; Run.Fence is normalizeFence and fenceSql;
--              Run.Ops is claimRunForDispatch, recordRunCredentialCleanupState,
--              requestRunCancellation, cancelRunBeforeExecution, isRunCancellationRequested,
--              recordRunProcess, recordRunProcessTerminated and markAgentCancellationRequested;
--              Run.Terminal is transitionRunTerminal and getOwnedActiveRuns. Run.Calls is what one
--              such call leaves, and histories in which they interleave with calls on the lease.
--              Run.Histories, Run.Cas and Run.Stale prove.
--   Job        jobs.js: Job.Row is the columns of `jobs` that these parts read; Job.Chain is
--              detectCycle and getChainDepth. Job.Acyclic and Job.Linked prove.
--   Dispatch   dispatch-queue.js: Dispatch.Row is a row of `job_dispatch_queue`; Dispatch.Claim is
--              claimDispatch, renewDispatchClaim, releaseDispatch and setDispatchStatus;
--              Dispatch.Queue is recoverStaleDispatchClaims, cancelDisabledDispatches,
--              getDueDispatches and listDispatchesForJob; Dispatch.Enqueue is enqueueDispatch.
--              Dispatch.Sweep spells out what the two statements do to a row.
--              Dispatch.Calls is histories of calls. Dispatch.Histories, Dispatch.Exclusive,
--              Dispatch.Due and Dispatch.Idempotent prove.
--   Ledger     idempotency.js: the ledger of idempotency keys. Ledger.Holding is histories of its
--              calls; Ledger.Exclusive proves.
--   Tracker    task-tracker.js: Tracker.Row is a row of `task_tracker` and of
--              `task_tracker_agents`; Tracker.Ops is what the agents report; Tracker.Switch is
--              checkGroupCompletion and checkDeadAgents. Tracker.Verdict, Tracker.Switched,
--              Tracker.Alarm and Tracker.Settled prove.
--   Outbox     delivery-outbox.js: Outbox.Row is a row of `delivery_outbox` and of
--              `completion_debts`; Outbox.Debt is markCompletionDebt and reconcileCompletionDebt;
--              Outbox.Recover, Outbox.Claim, Outbox.Finish and Outbox.Bulk are the operations.
--              Outbox.Step is the state machine of one row, as a relation; Outbox.Calls and
--              Outbox.Histories show that each operation takes only its steps. Outbox.Invariants,
--              Outbox.InTurn, Outbox.Order and Outbox.Settled prove. Outbox.Request and
--              Outbox.Enqueue are enqueueDelivery, of which Outbox.Same and Outbox.Keyed prove;
--              what stageDeliveryAttachments makes of the files is a parameter, and the ids of the
--              messages, jobs and runs are lists, for the foreign keys.
--              Outbox.Prune is pruneTerminalDeliveries, of which Outbox.Spared proves; Outbox.Writes
--              is histories of calls. enqueueMultipartDelivery and listing are not modelled. The
--              clock of a test
--              (`opts.now`) is an option beside the time of the call.
--   Split      splitDeliveryBody of delivery-outbox.js, in Split.Body. A body is the list of its
--              code points. The loop has fuel for every character of the body, which Split.Turns
--              shows to be enough. Split.Pieces is about slices and trims; Split.Fits and
--              Split.Whole prove. 32 bytes are reserved for a label, which is room for two numbers
--              of 14 digits: hence the bound on the length of a body.
--   Approval   approval-state.js, approval.js, approval-binding.js and dispatcher-approvals.js:
--              Approval.Row is a row of `approvals`, Approval.Store the tables together, with
--              quarantineRunRecovery of runs.js; Approval.Binding is the payload that is hashed,
--              the lineage of a job (64 jobs at most, as in the source) and the match of an
--              approver with a scope; Approval.Effects is finishApprovalRun,
--              finishDispatchedApprovalRun, releaseApprovalDispatch, cancelApprovalDispatch and
--              consumeApprovalOccurrence; Approval.Verdict and Approval.Decide are
--              transitionPendingApproval; Approval.Cancel the cancellations; Approval.Begin is
--              beginApprovalDispatch, Approval.Gate markApprovalDispatched and
--              deferApprovalDispatch; Approval.Recover is recoverInterruptedApprovalDispatches;
--              Approval.Request and Approval.Create are createApproval; Approval.Check is
--              resolveApproval, the timeouts, pruneApprovals and checkApprovals. Approval.Frame,
--              Calls, Keeps, Uses, Recovers and Rounds say what each call may write;
--              Approval.Histories is histories of calls. Two writes are left out of them: the call
--              that prunes, which deletes decided approvals only, and the deletion of a job, a run
--              or a dispatch that an approval names, on which the foreign keys delete the approval
--              or clear the name. Approval.Final, Consent, Bound, Contract and Withdrawn
--              prove. Parameters (Env) are sha256 of the canonical JSON, the cron parser, the
--              account of the operating system and whether evidence can be generated; the columns
--              of evidence and the runtime events are not modelled; one field of a job stands for
--              all columns that no other part reads.
--   Inbox      messages.js: Inbox.Row is a row of `messages` and of `message_receipts`, and the
--              reservation in the metadata; Inbox.Claim is claimInboxForRun, ackClaimedInboxForRun
--              and releaseClaimedInboxForRun; Inbox.Recover is recoverStaleInboxClaims; Inbox.Send
--              is sendMessage; Inbox.Ops is recordMessageAttempt, markDelivered, markRead,
--              ackMessage, markAllRead, getUnreadCount, expireMessages and pruneMessages.
--              Inbox.Calls is histories of calls; Inbox.Writes, Inbox.Every, Inbox.Returns and
--              Inbox.Present say what they keep; Inbox.Exclusive, Inbox.Consumed, Inbox.Freed, Inbox.Limit
--              and Inbox.Release prove. The listings for display are not modelled. A JSON text is classified: NULL,
--              white space, an object, another value, no JSON; the fields of an object other than
--              the reservation are one text.
--   The module Tests of each part holds runs at concrete inputs.
--
-- State and time: each operation takes the rows of the tables it reads and the time, and returns
-- the rows it leaves; a call that throws leaves them as they were (Base.written). SQLite runs one
-- statement at a time, so a history is a list of calls, each with its time; no order of the times
-- is assumed. Times are numbers of milliseconds; `datetime('now')` is the whole second, and a
-- comparison of two `julianday` is one of milliseconds, while a difference of them rounds
-- (Base.Julian). Where the code wants a positive integer, 0
-- stands for every value that it refuses. A text that randomUUID generates is an argument.
-- JSON.stringify and json_set are free constructors on cells (Run.Row.Cell), and so are the
-- templates of last_error (Outbox.Row.ErrorText). Recursion is on lists. Only two loops have fuel:
-- that of detectCycle, two turns more than there are jobs, which Job.Acyclic shows to be enough,
-- and that of splitDeliveryBody.
--
-- Not modelled: the dispatcher's asynchronous loop, the gateway and the child processes, the
-- provider runtimes, the command line, and the schema migrations: input and output around the
-- operations above, or code that calls out of the repository; the files of attachments, and the
-- rest of jobs.js and runs.js.
mod Base
pub mod Lease
pub mod Run
pub mod Job
pub mod Dispatch
pub mod Ledger
pub mod Approval
pub mod Tracker
pub mod Outbox
pub mod Split
pub mod Inbox
