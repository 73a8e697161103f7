-- ===== src/Scheduler/Service.antt =====
-- apps/web/src/lib/scheduler/schedule-service.ts: schedules created, changed and deleted by a project.
-- A creation returns the identifier of its row; the record that is sent to the page is not modelled.
-- An entry of a list of identifiers that is not a text, or is blank, is none.
use skytest_agent.Prelude.{
  ℕ, Bool, true, false, not, ◌&&◌, Option, none, some, List, [], ◌∷◌, ◌++◌, map, Text, is_empty,
  if◌then◌else◌, ◌==◌, ltb, length, utf16_length, trim, any, find_first, count_where, update_where,
  delete_where, is_null,
}
use skytest_agent.Store.{TestCase}
use skytest_agent.Scheduler.{CronInput, SchedulePatternType, Validated, valid, invalid}
use skytest_agent.Scheduler.Cron.{
  CronParser, and_then, given, unique_numbers, compile_cron, validate_cron_and_timezone,
  compute_next_run_at,
}
use skytest_agent.Scheduler.Tick.{Schedule, ScheduleTestCase, ScheduleTestGroup, Tables}

pub record ScheduleUpsertInput : Type 0 where
  pub description : Text
  pub timezone : Text
  pub pattern : CronInput
  pub enabled : Option Bool
  pub test_case_ids : List (Option ℕ)
  pub test_group_ids : Option (List (Option ℕ))

pub record TestGroup : Type 0 where
  pub id : ℕ
  pub project_id : ℕ
  pub deleted_at : Option ℕ

-- The tables that a mutation only reads.
pub record Targets : Type 0 where
  pub test_cases : List TestCase
  pub test_groups : List TestGroup

pub record Prepared : Type 0 where
  pub description : Text
  pub timezone : Text
  pub pattern_type : SchedulePatternType
  pub cron_expression : Text
  pub enabled : Bool
  pub next_run_at : Option ℕ
  pub test_case_ids : List ℕ
  pub test_group_ids : List ℕ

-- `MAX_DESCRIPTION_LENGTH`
abbrev pub max_description_length : ℕ
max_description_length = 500

abbrev pub present_ids : List (Option ℕ) → List ℕ
present_ids [] = []
present_ids (none ∷ ids) = present_ids ids
present_ids (some id ∷ ids) = id ∷ present_ids ids

-- `[...new Set(ids)]`
abbrev pub distinct_ids : List (Option ℕ) → List ℕ
distinct_ids ids = unique_numbers [] (present_ids ids)

abbrev pub is_one_of : List ℕ → ℕ → Bool
is_one_of ids id = any (λ x. x == id) ids

abbrev pub owns_cases : (project_id : ℕ) → List ℕ → List TestCase → Bool
owns_cases project_id ids test_cases =
    count_where (λ (c : TestCase). c.project_id == project_id && is_one_of ids c.id) test_cases
    == length ids

abbrev pub owns_groups : (project_id : ℕ) → List ℕ → List TestGroup → Bool
owns_groups project_id ids test_groups =
    count_where
      (λ (g : TestGroup).
        g.project_id == project_id && (is_one_of ids g.id && is_null g.deleted_at))
      test_groups
    == length ids

abbrev pub check_description : Text → Validated Text
check_description text =
    let description = trim text in
    if is_empty description
    then invalid "Description is required"
    else if ltb max_description_length (utf16_length description)
    then invalid "Description must be at most 500 characters"
    else valid description

-- The next time of a schedule that is enabled; none of another.
abbrev pub plan_next : CronParser → (now : ℕ) → (cron timezone : Text) → Bool → Validated (Option ℕ)
plan_next parser now cron timezone true =
    and_then (compute_next_run_at parser cron timezone now) (λ next.
      if is_null next then invalid "Schedule does not have a future run time" else valid next)
plan_next parser now cron timezone false = valid none

abbrev pub check_targets :
    (project_id : ℕ) → Targets → (test_case_ids test_group_ids : List ℕ) → Validated {0} Unit
check_targets project_id targets test_case_ids test_group_ids =
    if not (owns_cases project_id test_case_ids targets.test_cases)
    then invalid "One or more selected test cases do not belong to this project"
    else if ltb 0 (length test_group_ids)
        && not (owns_groups project_id test_group_ids targets.test_groups)
    then invalid "One or more selected test groups do not belong to this project"
    else valid tt

abbrev pub check_selection : (test_case_ids test_group_ids : List ℕ) → Validated {0} Unit
check_selection test_case_ids test_group_ids =
    if length test_case_ids == 0 && length test_group_ids == 0
    then invalid "At least one test case or test group is required"
    else valid tt

unfoldable pub prepare_schedule_mutation :
    CronParser → (now project_id : ℕ) → Targets → ScheduleUpsertInput → Validated Prepared
prepare_schedule_mutation parser now project_id targets body =
    let test_case_ids = distinct_ids body.test_case_ids in
    let test_group_ids = distinct_ids (given [] body.test_group_ids) in
    let timezone = trim body.timezone in
    let enabled = given true body.enabled in
    and_then (check_description body.description) (λ description.
      and_then (check_selection test_case_ids test_group_ids) (λ _.
        and_then (compile_cron body.pattern) (λ cron.
          and_then (validate_cron_and_timezone parser cron timezone) (λ _.
            and_then (plan_next parser now cron timezone enabled) (λ next.
              and_then (check_targets project_id targets test_case_ids test_group_ids) (λ _.
                valid (record {
                  description = description;
                  timezone = timezone;
                  pattern_type = body.pattern.pattern_type;
                  cron_expression = cron;
                  enabled = enabled;
                  next_run_at = next;
                  test_case_ids = test_case_ids;
                  test_group_ids = test_group_ids;
                })))))))

abbrev pub case_links : ℕ → List ℕ → List ScheduleTestCase
case_links schedule_id ids = map (λ id. record { schedule_id = schedule_id; test_case_id = id }) ids

-- The groups belong to the project, as `check_targets` has found.
abbrev pub group_links : (schedule_id project_id : ℕ) → List ℕ → List ScheduleTestGroup
group_links schedule_id project_id ids =
    map (λ id. record { schedule_id = schedule_id; test_group_id = id; project_id = project_id })
      ids

abbrev pub new_schedule : (id project_id user_id : ℕ) → Prepared → Schedule
new_schedule id project_id user_id prepared = record {
  id = id;
  project_id = project_id;
  description = prepared.description;
  timezone = prepared.timezone;
  pattern_type = prepared.pattern_type;
  cron_expression = prepared.cron_expression;
  enabled = prepared.enabled;
  created_by_user_id = user_id;
  last_run_at = none;
  next_run_at = prepared.next_run_at;
  last_enqueued_at = none;
}

abbrev pub change_schedule : Prepared → Schedule → Schedule
change_schedule prepared s = record s {
  description = prepared.description;
  timezone = prepared.timezone;
  pattern_type = prepared.pattern_type;
  cron_expression = prepared.cron_expression;
  enabled = prepared.enabled;
  next_run_at = prepared.next_run_at;
}

-- `id` is the identifier that the database gives the row.
unfoldable pub create_project_schedule :
    CronParser
    → (now id project_id user_id : ℕ) → Targets
    → ScheduleUpsertInput
    → Tables
    → Tables × Validated ℕ
unfolding prepare_schedule_mutation
create_project_schedule parser now id project_id user_id targets body tables =
    elim (prepare_schedule_mutation parser now project_id targets body) [
      | invalid message ↦ (tables, invalid message)
      | valid prepared ↦ (
        record {
          schedules = tables.schedules ++ new_schedule id project_id user_id prepared ∷ [];
          schedule_test_cases = tables.schedule_test_cases ++ case_links id prepared.test_case_ids;
          schedule_test_groups =
              tables.schedule_test_groups ++ group_links id project_id prepared.test_group_ids;
        },
        valid id,
      )
    ]

abbrev pub is_owned : (id project_id : ℕ) → Schedule → Bool
is_owned id project_id s = s.id == id && s.project_id == project_id

unfoldable pub update_project_schedule :
    CronParser
    → (now project_id schedule_id : ℕ) → Targets
    → ScheduleUpsertInput
    → Tables
    → Tables × Validated (Option ℕ)
unfolding prepare_schedule_mutation
update_project_schedule parser now project_id schedule_id targets body tables =
    elim (find_first (is_owned schedule_id project_id) tables.schedules) [
      | none ↦ (tables, valid none)
      | some existing ↦ (elim (prepare_schedule_mutation parser now project_id targets body) [
        | invalid message ↦ (tables, invalid message)
        | valid prepared ↦ (
          record {
            schedules =
                update_where (λ (s : Schedule). s.id == schedule_id) (change_schedule prepared)
                  tables.schedules;
            schedule_test_cases =
                delete_where (λ (l : ScheduleTestCase). l.schedule_id == schedule_id)
                  tables.schedule_test_cases
                ++ case_links schedule_id prepared.test_case_ids;
            schedule_test_groups =
                delete_where (λ (l : ScheduleTestGroup). l.schedule_id == schedule_id)
                  tables.schedule_test_groups
                ++ group_links schedule_id project_id prepared.test_group_ids;
          },
          valid (some schedule_id),
        )
      ])
    ]

-- The links of a deleted schedule go with it.
unfoldable pub delete_project_schedule : (project_id schedule_id : ℕ) → Tables → Tables × Bool
delete_project_schedule project_id schedule_id tables =
    let count = count_where (is_owned schedule_id project_id) tables.schedules in
    let is_gone = λ (id : ℕ). id == schedule_id && ltb 0 count in
    (
      record {
        schedules = delete_where (is_owned schedule_id project_id) tables.schedules;
        schedule_test_cases =
            delete_where (λ (l : ScheduleTestCase). is_gone l.schedule_id)
              tables.schedule_test_cases;
        schedule_test_groups =
            delete_where (λ (l : ScheduleTestGroup). is_gone l.schedule_id)
              tables.schedule_test_groups;
      },
      count == 1,
    )
