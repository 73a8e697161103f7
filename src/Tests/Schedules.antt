-- ===== src/Tests/Schedules.antt =====
-- Schedules compiled and read back, and a tick over three schedules.
use skytest_agent.Prelude.{
  ℕ, ◌+◌, true, none, some, [], ◌∷◌, Text, text_eq, ◌≡◌, refl, codes, arith, count_where,
}
use skytest_agent.Scheduler.{CronInput, custom, weekly, valid}
use skytest_agent.Scheduler.Cron.{
  CronParser, compute_next_run_at, compile_cron, resolve_schedule_pattern_fields,
}
use skytest_agent.Scheduler.Fields.{resolve-compile_cron}
use skytest_agent.Scheduler.Tick.{Schedule, Tables, Queues, queued, refused}
use skytest_agent.Scheduler.Due.{HasUniqueIds, is_computable}
use skytest_agent.Scheduler.Loop.{is_runnable}

abbrev pub each_week : CronInput
each_week = record {
  pattern_type = weekly;
  time = some (codes "18:45");
  weekdays = some (some 5 ∷ some 1 ∷ some 3 ∷ some 1 ∷ []);
  days_of_month = none;
  custom_cron = none;
}

each_week-compiled : compile_cron each_week ≡ valid (codes "45 18 * * 1,3,5")
unfolding compile_cron
each_week-compiled = refl

resolve-compile_cron_example :
    resolve_schedule_pattern_fields weekly (codes "45 18 * * 1,3,5") ≡ record {
      time = some (codes "18:45");
      weekdays = 1 ∷ 3 ∷ 5 ∷ [];
      days_of_month = [];
      custom_cron = none;
    }
resolve-compile_cron_example =
    resolve-compile_cron each_week (codes "45 18 * * 1,3,5") each_week-compiled

-- A parser that knows one time zone, and whose next time is a minute later.
abbrev pub minutes : CronParser
minutes = record {
  knows_timezone = λ timezone. true;
  parses = λ expression timezone. text_eq timezone (codes "UTC");
  next = λ expression timezone after. valid (some (after + 60000));
}

abbrev pub schedule : (id at : ℕ) → Text → Schedule
schedule id at timezone = record {
  id = id;
  project_id = 1;
  description = codes "Every minute";
  timezone = timezone;
  pattern_type = custom;
  cron_expression = codes "* * * * *";
  enabled = true;
  created_by_user_id = 8;
  last_run_at = none;
  next_run_at = some at;
  last_enqueued_at = none;
}

abbrev pub tables : Tables
tables = record {
  schedules =
      schedule 1 900 (codes "UTC")
      ∷ schedule 2 500 (codes "Mars")
      ∷ schedule 3 7000 (codes "UTC")
      ∷ [];
  schedule_test_cases = record { schedule_id = 1; test_case_id = 5 } ∷ [];
  schedule_test_groups = record { schedule_id = 1; test_group_id = 6; project_id = 1 } ∷ [];
}

-- Cases are queued and counted, and a group is running already.
abbrev queues : Queues ℕ
queues = record {
  queue_test_case_run = λ user test_case n. (n + 1, queued);
  queue_test_group_run = λ project group n. (n, refused 409);
}

pub tables-HasUniqueIds : HasUniqueIds tables.schedules
unfolding HasUniqueIds
tables-HasUniqueIds id = ground arith

one_claimed : count_where (is_runnable minutes 1000) tables.schedules ≡ 1
unfolding is_computable compute_next_run_at
one_claimed = refl
