-- ===== src/Tests/Mutations.antt =====
-- A schedule that is created, changed and claimed, and one of another project.
use skytest_agent.Prelude.{false, none, some, [], ◌∷◌, ◌≡◌, refl, codes, arith, length, All}
use skytest_agent.Scheduler.{valid}
use skytest_agent.Scheduler.Tick.{Tables, claim_schedule}
use skytest_agent.Scheduler.Due.{HasUniqueIds}
use skytest_agent.Scheduler.Service.{
  ScheduleUpsertInput, Targets, create_project_schedule, update_project_schedule,
  delete_project_schedule, prepare_schedule_mutation,
}
use skytest_agent.Scheduler.Planned.{IsPlanned}
use skytest_agent.Scheduler.History.{
  ScheduleSteps, create, tick, none_yet, then_one, ScheduleSteps-IsPlanned,
}
use skytest_agent.Scheduler.Foreign.{update_project_schedule-foreign}
use skytest_agent.Scheduler.Cron.{compile_cron, validate_cron_and_timezone, compute_next_run_at}
use skytest_agent.Tests.Schedules.{each_week, minutes, schedule, tables, tables-HasUniqueIds}
use skytest_agent.Tests.Data.{rows}

abbrev body : ScheduleUpsertInput
body = record {
  description = codes "Smoke";
  timezone = codes " UTC ";
  pattern = each_week;
  enabled = none;
  test_case_ids = some 5 ∷ some 5 ∷ none ∷ [];
  test_group_ids = none;
}

abbrev targets : Targets
targets = record { test_cases = rows.cases; test_groups = [] }

abbrev no_tables : Tables
no_tables = record { schedules = []; schedule_test_cases = []; schedule_test_groups = [] }

abbrev created : Tables
created = (create_project_schedule minutes 500 7 1 8 targets body no_tables).0

created_one : length created.schedules ≡ 1
unfolding create_project_schedule prepare_schedule_mutation compile_cron validate_cron_and_timezone
    compute_next_run_at
created_one = refl

abbrev ticked : Tables
ticked = (claim_schedule minutes 90000 (λ id. false) created).0

steps : ScheduleSteps minutes no_tables ticked
steps =
    then_one (then_one none_yet (create 500 7 1 8 targets body no_tables refl))
      (tick 90000 (λ id. false) created)

no_tables-HasUniqueIds : HasUniqueIds no_tables.schedules
unfolding HasUniqueIds
no_tables-HasUniqueIds id = omega arith

ScheduleSteps-IsPlanned_example :
    HasUniqueIds ticked.schedules × All (IsPlanned minutes) ticked.schedules
ScheduleSteps-IsPlanned_example = ScheduleSteps-IsPlanned steps no_tables-HasUniqueIds tt

update_project_schedule-foreign_example :
    (update_project_schedule minutes 500 2 3 targets body tables ≡ (tables, valid none))
    × (delete_project_schedule 2 3 tables ≡ (tables, false))
update_project_schedule-foreign_example =
    update_project_schedule-foreign 2 3 tables (schedule 3 7000 (codes "UTC")) tables-HasUniqueIds
      refl refl minutes 500 targets body
