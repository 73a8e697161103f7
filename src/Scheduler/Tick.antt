-- ===== src/Scheduler/Tick.antt =====
-- apps/web/src/lib/scheduler/scheduler-tick.ts: the schedules that are due are claimed one by one, each
-- in a transaction, and then their test cases and groups are queued. `locked` tells which schedule
-- another transaction has locked in which round (`SKIP LOCKED`).
use skytest_agent.Prelude.{
  ℕ, zero, suc, Bool, true, false, not, ◌&&◌, Option, none, some, List, [], ◌∷◌, map, Text,
  if◌then◌else◌, ◌==◌, leb, select, find_first, update_where, length, sort_by,
}
use skytest_agent.Scheduler.{SchedulePatternType, valid, invalid}
use skytest_agent.Scheduler.Cron.{CronParser, compute_next_run_at, given}

pub record Schedule : Type 0 where
  pub id : ℕ
  pub project_id : ℕ
  pub description : Text
  pub timezone : Text
  pub pattern_type : SchedulePatternType
  pub cron_expression : Text
  pub enabled : Bool
  pub created_by_user_id : ℕ
  pub last_run_at : Option ℕ
  pub next_run_at : Option ℕ
  pub last_enqueued_at : Option ℕ

pub record ScheduleTestCase : Type 0 where
  pub schedule_id : ℕ
  pub test_case_id : ℕ

-- With the project of the group.
pub record ScheduleTestGroup : Type 0 where
  pub schedule_id : ℕ
  pub test_group_id : ℕ
  pub project_id : ℕ

pub record Tables : Type 0 where
  pub schedules : List Schedule
  pub schedule_test_cases : List ScheduleTestCase
  pub schedule_test_groups : List ScheduleTestGroup

pub record GroupTarget : Type 0 where
  pub test_group_id : ℕ
  pub project_id : ℕ

pub record ClaimedSchedule : Type 0 where
  pub id : ℕ
  pub created_by_user_id : ℕ
  pub test_case_ids : List ℕ
  pub test_groups : List GroupTarget

pub data ClaimOutcome : Type 0 where
  empty skipped : ClaimOutcome
  claimed : ClaimedSchedule → ClaimOutcome

pub record SchedulerTickResult : Type 0 where
  pub claimed_schedules : ℕ
  pub enqueued_runs : ℕ
  pub failed_runs : ℕ
  pub skipped_runs : ℕ

-- `nextRunAt <= now`, never true of NULL.
abbrev pub is_reached : Option ℕ → ℕ → Bool
is_reached none now = false
is_reached (some at) now = leb at now

abbrev pub is_due : ℕ → Schedule → Bool
is_due now s = s.enabled && is_reached s.next_run_at now

abbrev pub due_time : Schedule → ℕ
due_time s = given 0 s.next_run_at

abbrev pub next_due : (now : ℕ) → (ℕ → Bool) → List Schedule → Option Schedule
next_due now locked schedules =
    find_first (λ _. true)
      (sort_by due_time (select (λ s. is_due now s && not (locked s.id)) schedules))

abbrev pub disable : Schedule → Schedule
disable s = record s { enabled = false; next_run_at = none }

abbrev pub advance_schedule : (now : ℕ) → Option ℕ → Schedule → Schedule
advance_schedule now next s = record s {
  last_run_at = some now;
  last_enqueued_at = some now;
  next_run_at = next;
}

abbrev pub claimed_schedule : Tables → Schedule → ClaimedSchedule
claimed_schedule tables row = record {
  id = row.id;
  created_by_user_id = row.created_by_user_id;
  test_case_ids =
      map (λ (l : ScheduleTestCase). l.test_case_id)
        (select (λ (l : ScheduleTestCase). l.schedule_id == row.id) tables.schedule_test_cases);
  test_groups =
      map
        (λ (l : ScheduleTestGroup). record {
          test_group_id = l.test_group_id;
          project_id = l.project_id;
        })
        (select (λ (l : ScheduleTestGroup). l.schedule_id == row.id) tables.schedule_test_groups);
}

abbrev pub update_schedule : (Schedule → Schedule) → ℕ → List Schedule → List Schedule
update_schedule change id schedules = update_where (λ s. s.id == id) change schedules

-- One transaction of the tick.
unfoldable pub claim_schedule : CronParser → (now : ℕ) → (ℕ → Bool) → Tables → Tables × ClaimOutcome
unfolding compute_next_run_at
claim_schedule parser now locked tables = elim (next_due now locked tables.schedules) [
  | none ↦ (tables, empty)
  | some row ↦ (elim (compute_next_run_at parser row.cron_expression row.timezone now) [
    | invalid message ↦
        (record tables { schedules = update_schedule disable row.id tables.schedules }, skipped)
    | valid next ↦ (
      record tables {
        schedules = update_schedule (advance_schedule now next) row.id tables.schedules;
      },
      claimed (claimed_schedule tables row),
    )
  ])
]

-- The loop of at most `remaining` transactions.
unfoldable pub claim_schedules :
    CronParser
    → (now : ℕ) → (locked : ℕ → ℕ → Bool) (remaining index : ℕ) → Tables
    → Tables × List ClaimedSchedule
unfolding claim_schedule
claim_schedules parser now locked zero index tables = (tables, [])
claim_schedules parser now locked (suc remaining) index tables =
    let (after, outcome) = claim_schedule parser now (locked index) tables in
    elim outcome [
      | empty ↦ (after, [])
      | skipped ↦ claim_schedules parser now locked remaining (suc index) after
      | claimed schedule ↦
          let (last, schedules) = claim_schedules parser now locked remaining (suc index) after in
          (last, schedule ∷ schedules)
    ]

-- A run was queued, or refused with a status.
pub data QueueResult : Type 0 where
  queued : QueueResult
  refused : (status : ℕ) → QueueResult

-- `queueTestCaseRun` and `queueTestGroupRun` on the rest of the database.
pub record Queues (S : Type 0) : Type 0 where
  pub queue_test_case_run : (user test_case : ℕ) → S → S × QueueResult
  pub queue_test_group_run : (project test_group : ℕ) → S → S × QueueResult

abbrev pub count_case : QueueResult → SchedulerTickResult → SchedulerTickResult
count_case queued r = record r { enqueued_runs = suc r.enqueued_runs }
count_case (refused status) r = record r { failed_runs = suc r.failed_runs }

abbrev pub count_group : QueueResult → SchedulerTickResult → SchedulerTickResult
count_group queued r = record r { enqueued_runs = suc r.enqueued_runs }
count_group (refused status) r =
    if status == 409
    then record r { skipped_runs = suc r.skipped_runs }
    else record r { failed_runs = suc r.failed_runs }

module _ {S : Type 0} (queues : Queues S) where
  abbrev pub queue_cases : ℕ → List ℕ → S → SchedulerTickResult → S × SchedulerTickResult
  queue_cases user [] state r = (state, r)
  queue_cases user (test_case ∷ test_cases) state r =
      let (after, result) = queues.queue_test_case_run user test_case state in
      queue_cases user test_cases after (count_case result r)

  abbrev pub queue_groups : List GroupTarget → S → SchedulerTickResult → S × SchedulerTickResult
  queue_groups [] state r = (state, r)
  queue_groups (group ∷ groups) state r =
      let (after, result) =
        queues.queue_test_group_run group.project_id group.test_group_id state in
      queue_groups groups after (count_group result r)

  -- The loop over the claimed schedules; one without targets is passed over.
  abbrev pub queue_schedules :
      List ClaimedSchedule → S → SchedulerTickResult → S × SchedulerTickResult
  queue_schedules [] state r = (state, r)
  queue_schedules (schedule ∷ schedules) state r =
      let (state1, r1) = queue_cases schedule.created_by_user_id schedule.test_case_ids state r in
      let (state2, r2) = queue_groups schedule.test_groups state1 r1 in
      queue_schedules schedules state2 r2

  unfoldable pub run_scheduler_tick :
      CronParser
      → (now : ℕ) → (locked : ℕ → ℕ → Bool) → (max_due_per_tick : ℕ) → Tables
      → S
      → Tables × S × SchedulerTickResult
  unfolding claim_schedules
  run_scheduler_tick parser now locked max_due_per_tick tables state =
      let (after, schedules) = claim_schedules parser now locked max_due_per_tick 0 tables in
      let (last, counted) = queue_schedules schedules state (record {
        claimed_schedules = length schedules;
        enqueued_runs = 0;
        failed_runs = 0;
        skipped_runs = 0;
      }) in
      (after, last, counted)
