-- ===== src/Scheduler/Foreign.antt =====
-- A schedule of another project.
use skytest_agent.Prelude.{
  ℕ, ◌≡◌, refl, ◌∙◌, Bool, false, some, none, List, ◌==◌, find_first, find_first-count,
  find_first-zero, count_where, count_where-key, delete_where-none, delete_where-never, arith,
}
use skytest_agent.Scheduler.{valid}
use skytest_agent.Scheduler.Cron.{CronParser}
use skytest_agent.Scheduler.Tick.{Schedule, Tables, ScheduleTestCase, ScheduleTestGroup}
use skytest_agent.Scheduler.Due.{HasUniqueIds}
use skytest_agent.Scheduler.Service.{
  ScheduleUpsertInput, Targets, update_project_schedule, delete_project_schedule, is_owned,
}

module _ (project_id id : ℕ) (tables : Tables) (s : Schedule)
    (unique : HasUniqueIds tables.schedules)
    (found : find_first (λ x. x.id == id) tables.schedules ≡ some s)
    (foreign : (s.project_id == project_id) ≡ false) where
  none_owned : count_where (is_owned id project_id) tables.schedules ≡ 0
  unfolding HasUniqueIds
  none_owned =
      let one = find_first-count (λ (x : Schedule). x.id == id) tables.schedules s found in
      count_where-key (λ (x : Schedule). x.id == id) (λ x. x.project_id == project_id)
        tables.schedules s found (omega (arith, one, unique id))
      ∙ rw foreign refl

  delete-foreign : delete_project_schedule project_id id tables ≡ (tables, false)
  unfolding delete_project_schedule
  delete-foreign = rw (none_owned) (
      three (delete_where-none (is_owned id project_id) tables.schedules none_owned)
        (delete_where-never _ tables.schedule_test_cases (λ l. ground arith))
        (delete_where-never _ tables.schedule_test_groups (λ l. ground arith)))
    where
      three :
          {a : List Schedule} {b : List ScheduleTestCase} {c : List ScheduleTestGroup}
          → a ≡ tables.schedules
          → b ≡ tables.schedule_test_cases
          → c ≡ tables.schedule_test_groups
          → Path
              (Tables × Bool)
              (record { schedules = a; schedule_test_cases = b; schedule_test_groups = c }, false)
              (tables, false)
      three h k l = rw (h, k, l) refl

  -- To a project that a schedule does not belong to it does not exist: an update says so whatever the
  -- body is, a deletion reports that it deleted nothing, and both leave the tables as they are.
  -- Schedule ids are unique.
  pub update_project_schedule-foreign :
      (parser : CronParser) (now : ℕ) (targets : Targets) (body : ScheduleUpsertInput)
      → (update_project_schedule parser now project_id id targets body tables
          ≡ (tables, valid none))
        × (delete_project_schedule project_id id tables ≡ (tables, false))
  unfolding update_project_schedule
  update_project_schedule-foreign parser now targets body = (
    rw
        (
          find_first-zero (is_owned id project_id) tables.schedules none_owned,
          update_project_schedule,
        )
        refl,
    delete-foreign,
  )
