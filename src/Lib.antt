-- ===== src/Lib.antt =====
-- The runs of the web application: a run is queued, claimed by a runner or by the local browser, reports
-- events, and is settled by an outcome, a sweep or a cancellation; the runs of a session decide the
-- session's status, and a group session runs its failed cases again within a policy. Schedules queue runs
-- when they are due; who reads a run gets its events with masked values, if the run's project is theirs.
--
-- Parts, and the files that model them:
--   Prelude           Boolean tests, lists as tables, sorting by a key, texts as code points.
--   Status            apps/web/src/types/status.ts: the statuses and their classes.
--   Cancellation      apps/web/src/lib/runtime/cancellation-reasons.ts: reasons and their codes.
--   Store             apps/web/prisma/schema.prisma: the rows, and the database as a record of tables.
--                     `update_where` is `updateMany`, `count_where` the count that it returns,
--                     `delete_where` is `deleteMany`, `find_run` and its like `findUnique`.
--   Retry.Plan        apps/web/src/lib/runtime/test-group-retry-plan.ts: the retry state of each case
--                     (`buildCaseRetryStates`) and the cases of a round (`planRetryRound`).
--   Retry.Runner      apps/web/src/lib/runtime/test-group-retry-runner.ts: `runGroupRetryRounds`.
--   Session.Rollup    apps/web/src/lib/runtime/run-session-status.ts and test-group-session-plan.ts.
--   Session.Service   apps/web/src/lib/runtime/run-session-service.ts: create, recompute, release, abort.
--   Runners.Resource  apps/web/src/lib/runners/android-resource-lock.ts: keys of host resources.
--   Runners.Claim     apps/web/src/lib/runners/claim-service.ts, `claimNextRunForRunner`.
--   Runners.Diagnosis the same file, `diagnoseNoClaimForRunner`.
--   Runners.Events    apps/web/src/lib/runners/event-service.ts: ownership, events, outcomes.
--   Runners.Reaper    apps/web/src/lib/runners/lease-reaper.ts: the three sweeps.
--   Runners.Cancel    apps/web/src/lib/runners/queue-sanitizer.ts, and `cancelActiveTestRun` of
--                     apps/web/src/lib/runtime/cancel-run.ts; Runners.SessionCancel is
--                     `cancelActiveRunSession` of the same file.
--   Runners.Local     apps/web/src/lib/runtime/local-browser-runner-lifecycle.ts: the run of a local browser.
--   Runners.Dispatch  apps/web/src/lib/runtime/browser-run-dispatcher.ts: queued runs for local browsers.
--   Runners.Protocol  apps/web/src/lib/runners/protocol.ts: the versions that are accepted.
--   Session.Coalesce  `recomputeRunSessionStatus` of run-session-service.ts: requests that share a pass.
--   Masking           apps/web/src/lib/runtime/log-masking.ts; Masking.Variables is masked-variables.ts.
--   Scheduler.Cron    apps/web/src/lib/scheduler/cron.ts: patterns and cron expressions.
--   Scheduler.Tick    apps/web/src/lib/scheduler/scheduler-tick.ts: claiming and queueing what is due.
--   Scheduler.Service apps/web/src/lib/scheduler/schedule-service.ts: mutations of schedules.
--   RateLimit         apps/web/src/lib/runners/rate-limit.ts: the limiter in memory, and the key of a request.
--   Access            apps/web/src/lib/security/permissions.ts and project-route-access.ts.
--   The other files hold proofs, named for what they prove; Tests holds the theorems at concrete rows.
--
-- How the code stands in the model. An operation takes the times that it reads and the database, and
-- returns the database, its result and the events that it emits. A query is a predicate on rows. A
-- transaction is one step, and so is the whole of a recomputation; a sweep or a cancellation reads rows in
-- one step and writes in another (`recover_expired`, `recover_stale`, `reject_invalid`, `cancel_read_run`
-- and `fail_members` take the rows that were read), so that any other step may come between the two.
-- The transaction of `completeOwnedRun` or `failOwnedRun` is two steps too: it reads the run
-- (`find_owned_run`) and updates it by its identifier alone (`write_outcome`), without a lock, so that what
-- commits in between is overwritten; `settle_owned_run` is the two together. That of `appendRunEvents` is
-- one step: its update asks again for the assigned runner and the next event number, though not for the
-- status, and that another write comes between its read and its update is outside the model.
-- Runners.Lifecycle has the steps in any order, with the reads of outcomes in flight (Runners.InFlight).
-- Events of a local browser are not among them. Scheduler.History has the mutations of schedules and the
-- transactions of the tick in any order. A text is its code points, and its length where the source
-- measures it the number of its units of UTF-16 (`utf16_length`).
--
-- Parameters: the limits and the length of a lease (`Config`, from apps/web/src/config/app.ts), which rows
-- another transaction has locked (`SKIP LOCKED`), the identifiers and times of created runs, the function
-- that runs the members of a retry round, the functions that queue a scheduled run (`Queues`), the parser
-- of cron expressions and its time zones (`CronParser`), the user that a request is from, and the two tests
-- of trimmed and case-folded text in `shouldPromoteRunToRunning`. Times and counts are natural numbers.
--
-- The loop over retry rounds runs on fuel. One more than `maxRetryRoundsFor` of the policy and the
-- number of the session's cases is enough, and is proved to be. The loops of the tick and of the
-- dispatcher run on the number of turns that the source gives them. A numeral is written on fuel, one
-- more than the number.
--
-- Not modelled: uploads of artifacts (an object store), usage records, notifications and logs, the
-- orchestrator and the drivers of browsers and devices, the records that pages read, the rate limiter in
-- the database, the protocol for agents, the web interface and the command line.
pub mod Prelude
pub mod Status
pub mod Cancellation
pub mod Retry
pub mod Store
pub mod Session
pub mod Runners
pub mod Masking
pub mod Scheduler
pub mod RateLimit
pub mod Access
pub mod Tests
