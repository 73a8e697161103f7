-- ===== src/Scheduler.antt =====
-- apps/web/src/lib/scheduler: the patterns of schedules and their cron expressions (Cron), the
-- mutations of schedules (Service), and the tick that queues what is due (Tick); and what is proved
-- of the reading of expressions (Values, Numbers, Times, Lists, Fields), of the tick (Due, Loop,
-- Targets, Settled) and of the mutations (Planned, History, Foreign).
pub mod Cron
pub mod Values
pub mod Times
pub mod Lists
pub mod Fields
pub mod Numbers
pub mod Tick
pub mod Due
pub mod Loop
pub mod Settled
pub mod Targets
pub mod Service
pub mod Planned
pub mod History
pub mod Foreign
use skytest_agent.Prelude.{ℕ, Option, List, String, Text}

-- `SCHEDULE_PATTERN_TYPE`
pub data SchedulePatternType : Type 0 where
  daily weekly monthly custom : SchedulePatternType

pub record SchedulePatternFields : Type 0 where
  pub time : Option Text
  pub weekdays : List ℕ
  pub days_of_month : List ℕ
  pub custom_cron : Option Text

-- A value, or the message of a `SchedulerValidationError`.
pub data Validated {ℓ} (A : Type ℓ) : Type ℓ where
  valid : A → Validated A
  invalid : String → Validated A

-- What `compileCron` takes. A number that is negative or not whole is none.
pub record CronInput : Type 0 where
  pub pattern_type : SchedulePatternType
  pub time : Option Text
  pub weekdays : Option (List (Option ℕ))
  pub days_of_month : Option (List (Option ℕ))
  pub custom_cron : Option Text
