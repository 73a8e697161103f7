-- ===== src/Scheduler/Planned.antt =====
-- Schedules through any sequence of mutations and of the tick's transactions.
use skytest_agent.Prelude.{
  ℕ, ◌≡◌, refl, sym, Bool, true, false, Option, none, [], ◌∷◌, Text, ◌==◌, All, All-append,
  All-update_where, All-update_key, find_first, arith, Option-cases, inl, inr, trim,
}
use mathlib.Core.Path.{subst}
use skytest_agent.Scheduler.{valid}
use skytest_agent.Scheduler.Cron.{
  CronParser, given, compile_cron, validate_cron_and_timezone, compute_next_run_at,
}
use skytest_agent.Scheduler.Values.{Validated-cases, and_then-valid, valid-injective}
use skytest_agent.Scheduler.Tick.{
  Schedule, Tables, next_due, disable, advance_schedule, claim_schedule,
}
use skytest_agent.Scheduler.Due.{HasUniqueIds, next-due, next-found, next-holds}
use skytest_agent.Scheduler.Service.{
  ScheduleUpsertInput, Targets, Prepared, check_description, check_selection, check_targets,
  distinct_ids, plan_next, prepare_schedule_mutation, new_schedule, change_schedule,
  create_project_schedule, update_project_schedule, is_owned,
}

-- A schedule that is not enabled has no next time, and its expression and time zone are valid.
unfoldable pub IsPlanned : CronParser → Schedule → Type 0
IsPlanned parser s =
    (s.enabled ≡ false → s.next_run_at ≡ none)
    × (validate_cron_and_timezone parser s.cron_expression s.timezone ≡ valid tt)

plan_next-none :
    (parser : CronParser) (now : ℕ) (cron timezone : Text) (enabled : Bool) (next : Option ℕ)
    → plan_next parser now cron timezone enabled ≡ valid next
    → enabled ≡ false
    → next ≡ none
plan_next-none parser now cron timezone true next h e = ground arith
plan_next-none parser now cron timezone false next h e = sym (valid-injective h)

abbrev IsPlannedInput : CronParser → Prepared → Type 0
IsPlannedInput parser p =
    (p.enabled ≡ false → p.next_run_at ≡ none)
    × (validate_cron_and_timezone parser p.cron_expression p.timezone ≡ valid tt)

prepare-IsPlanned :
    (parser : CronParser) (now project_id : ℕ) (targets : Targets) (body : ScheduleUpsertInput)
    (prepared : Prepared)
    → prepare_schedule_mutation parser now project_id targets body ≡ valid prepared
    → IsPlannedInput parser prepared
unfolding prepare_schedule_mutation
prepare-IsPlanned parser now project_id targets body prepared h =
    let cases = distinct_ids body.test_case_ids in
    let groups = distinct_ids (given [] body.test_group_ids) in
    let enabled = given true body.enabled in
    let (description, _, h1) = and_then-valid (check_description body.description) h in
    let (_, _, h2) = and_then-valid (check_selection cases groups) h1 in
    let (cron, _, h3) = and_then-valid (compile_cron body.pattern) h2 in
    let (_, checked, h4) =
      and_then-valid (validate_cron_and_timezone parser cron (trim body.timezone)) h3 in
    let (next, planned, h5) =
      and_then-valid (plan_next parser now cron (trim body.timezone) enabled) h4 in
    let (_, _, h6) = and_then-valid (check_targets project_id targets cases groups) h5 in
    subst (IsPlannedInput parser) (valid-injective h6)
      (plan_next-none parser now cron (trim body.timezone) enabled next planned, checked)

pub create_project_schedule-IsPlanned :
    (parser : CronParser) (now id project_id user_id : ℕ) (targets : Targets)
    (body : ScheduleUpsertInput) (tables : Tables)
    → All (IsPlanned parser) tables.schedules
    → All
        (IsPlanned parser)
        (create_project_schedule parser now id project_id user_id targets body tables).0.schedules
unfolding create_project_schedule IsPlanned
create_project_schedule-IsPlanned parser now id project_id user_id targets body tables a =
    elim (Validated-cases (prepare_schedule_mutation parser now project_id targets body)) [
      | inl (p, e) ↦
          rw (e, create_project_schedule)
            (All-append (IsPlanned parser) tables.schedules
              (new_schedule id project_id user_id p ∷ []) a
              (prepare-IsPlanned parser now project_id targets body p e, tt))
      | inr (message, e) ↦ rw (e, create_project_schedule) a
    ]

pub update_project_schedule-IsPlanned :
    (parser : CronParser) (now project_id id : ℕ) (targets : Targets) (body : ScheduleUpsertInput)
    (tables : Tables)
    → All (IsPlanned parser) tables.schedules
    → All
        (IsPlanned parser)
        (update_project_schedule parser now project_id id targets body tables).0.schedules
unfolding update_project_schedule IsPlanned
update_project_schedule-IsPlanned parser now project_id id targets body tables a =
    elim (Option-cases (find_first (is_owned id project_id) tables.schedules)) [
      | inl f ↦ rw (f, update_project_schedule) a
      | inr (existing, f) ↦
          elim (Validated-cases (prepare_schedule_mutation parser now project_id targets body)) [
            | inl (p, e) ↦
                rw (f, update_project_schedule)
                  (rw (e, update_project_schedule)
                    (All-update_where (IsPlanned parser) (IsPlanned parser) (λ s. s.id == id)
                      (change_schedule p)
                      (λ s h.
                        ground (arith, h, prepare-IsPlanned parser now project_id targets body p e))
                      tables.schedules a))
            | inr (message, e) ↦ rw (f, update_project_schedule) (rw (e, update_project_schedule) a)
          ]
    ]

pub claim_schedule-IsPlanned :
    (parser : CronParser) (now : ℕ) (locked : ℕ → Bool) (tables : Tables)
    → HasUniqueIds tables.schedules
    → All (IsPlanned parser) tables.schedules
    → All (IsPlanned parser) (claim_schedule parser now locked tables).0.schedules
unfolding claim_schedule IsPlanned HasUniqueIds
claim_schedule-IsPlanned parser now locked tables unique a =
    elim (Option-cases (next_due now locked tables.schedules)) [
      | inl e ↦ rw (e, claim_schedule) a
      | inr (row, chosen) ↦
          let due = next-due now tables.schedules locked row chosen in
          let found = next-found now tables.schedules locked row chosen unique in
          let planned = next-holds now tables.schedules locked row chosen (IsPlanned parser) a in
          elim (Validated-cases (compute_next_run_at parser row.cron_expression row.timezone now)) [
            | inl (next, c) ↦
                rw (chosen, claim_schedule)
                  (rw (c, claim_schedule)
                    (All-update_key (IsPlanned parser) (λ s. s.id == row.id)
                      (advance_schedule now next) row tables.schedules found (unique row.id)
                      ((λ e. ground arith), planned.1) a))
            | inr (message, c) ↦
                rw (chosen, claim_schedule)
                  (rw (c, claim_schedule)
                    (All-update_key (IsPlanned parser) (λ s. s.id == row.id) disable row
                      tables.schedules found (unique row.id) ((λ e. refl), planned.1) a))
          ]
    ]
