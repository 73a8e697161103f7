-- ===== src/Scheduler/History.antt =====
-- Any sequence of mutations of schedules and of the tick's transactions.
use skytest_agent.Prelude.{
  ℕ, ◌≡◌, refl, ap, Bool, List, [], ◌∷◌, ◌==◌, All, All-delete_where, count_where,
  count_where-update_where, count_where-delete_where, count_where-append, find_first, update_where,
  arith, Option-cases, inl, inr,
}
use skytest_agent.Scheduler.Cron.{CronParser, compute_next_run_at}
use skytest_agent.Scheduler.Values.{Validated-cases}
use skytest_agent.Scheduler.Tick.{
  Schedule, Tables, next_due, disable, advance_schedule, claim_schedule,
}
use skytest_agent.Scheduler.Due.{HasUniqueIds}
use skytest_agent.Scheduler.Service.{
  ScheduleUpsertInput, Targets, prepare_schedule_mutation, change_schedule, new_schedule,
  create_project_schedule, update_project_schedule, delete_project_schedule, is_owned,
}
use skytest_agent.Scheduler.Planned.{
  IsPlanned, create_project_schedule-IsPlanned, update_project_schedule-IsPlanned,
  claim_schedule-IsPlanned,
}

-- A new schedule gets an identifier that no other has.
pub data ScheduleStep (parser : CronParser) : Tables → Tables → Type 0 where
  create :
      (now id project_id user_id : ℕ) (targets : Targets) (body : ScheduleUpsertInput)
      (tables : Tables)
      → count_where (λ s. s.id == id) tables.schedules ≡ 0
      → ScheduleStep parser tables
          (create_project_schedule parser now id project_id user_id targets body tables).0
  update :
      (now project_id id : ℕ) (targets : Targets) (body : ScheduleUpsertInput) (tables : Tables)
      → ScheduleStep parser tables
          (update_project_schedule parser now project_id id targets body tables).0
  delete :
      (project_id id : ℕ) (tables : Tables)
      → ScheduleStep parser tables (delete_project_schedule project_id id tables).0
  tick :
      (now : ℕ) (locked : ℕ → Bool) (tables : Tables)
      → ScheduleStep parser tables (claim_schedule parser now locked tables).0

pub data ScheduleSteps (parser : CronParser) : Tables → Tables → Type 0 where
  none_yet : {t : Tables} → ScheduleSteps parser t t
  then_one :
      {s t u : Tables}
      → ScheduleSteps parser s t
      → ScheduleStep parser t u
      → ScheduleSteps parser s u

update_where-HasUniqueIds :
    (p : Schedule → Bool) (f : Schedule → Schedule) (schedules : List Schedule)
    → ((s : Schedule) → (f s).id ≡ s.id)
    → HasUniqueIds schedules
    → HasUniqueIds (update_where p f schedules)
unfolding HasUniqueIds
update_where-HasUniqueIds p f schedules keep u id = ground (
  arith,
  u id,
  count_where-update_where (λ s. s.id == id) p f (λ s. ap (λ k. k == id) (keep s)) schedules,
)

create-HasUniqueIds :
    (parser : CronParser) (now id project_id user_id : ℕ) (targets : Targets)
    (body : ScheduleUpsertInput) (tables : Tables)
    → count_where (λ s. s.id == id) tables.schedules ≡ 0
    → HasUniqueIds tables.schedules
    → HasUniqueIds
        (create_project_schedule parser now id project_id user_id targets body tables).0.schedules
unfolding create_project_schedule HasUniqueIds
create-HasUniqueIds parser now id project_id user_id targets body tables fresh u k =
    elim (Validated-cases (prepare_schedule_mutation parser now project_id targets body)) [
      | inl (p, e) ↦
          rw (e, create_project_schedule)
            (ground (
              arith,
              u k,
              fresh,
              count_where-append (λ s. s.id == k) tables.schedules
                  (new_schedule id project_id user_id p ∷ []),
            ))
      | inr (message, e) ↦ rw (e, create_project_schedule) (u k)
    ]

update-HasUniqueIds :
    (parser : CronParser) (now project_id id : ℕ) (targets : Targets) (body : ScheduleUpsertInput)
    (tables : Tables)
    → HasUniqueIds tables.schedules
    → HasUniqueIds
        (update_project_schedule parser now project_id id targets body tables).0.schedules
unfolding update_project_schedule
update-HasUniqueIds parser now project_id id targets body tables u =
    elim (Option-cases (find_first (is_owned id project_id) tables.schedules)) [
      | inl f ↦ rw (f, update_project_schedule) u
      | inr (existing, f) ↦
          elim (Validated-cases (prepare_schedule_mutation parser now project_id targets body)) [
            | inl (p, e) ↦
                rw (f, update_project_schedule)
                  (rw (e, update_project_schedule)
                    (update_where-HasUniqueIds (λ s. s.id == id) (change_schedule p)
                      tables.schedules (λ s. refl) u))
            | inr (message, e) ↦ rw (f, update_project_schedule) (rw (e, update_project_schedule) u)
          ]
    ]

claim-HasUniqueIds :
    (parser : CronParser) (now : ℕ) (locked : ℕ → Bool) (tables : Tables)
    → HasUniqueIds tables.schedules
    → HasUniqueIds (claim_schedule parser now locked tables).0.schedules
unfolding claim_schedule
claim-HasUniqueIds parser now locked tables u =
    elim (Option-cases (next_due now locked tables.schedules)) [
      | inl e ↦ rw (e, claim_schedule) u
      | inr (row, e) ↦
          elim (Validated-cases (compute_next_run_at parser row.cron_expression row.timezone now)) [
            | inl (next, c) ↦
                rw (e, claim_schedule)
                  (rw (c, claim_schedule)
                    (update_where-HasUniqueIds (λ s. s.id == row.id) (advance_schedule now next)
                      tables.schedules (λ s. refl) u))
            | inr (message, c) ↦
                rw (e, claim_schedule)
                  (rw (c, claim_schedule)
                    (update_where-HasUniqueIds (λ s. s.id == row.id) disable tables.schedules
                      (λ s. refl) u))
          ]
    ]

delete-HasUniqueIds :
    (project_id id : ℕ) (tables : Tables)
    → HasUniqueIds tables.schedules
    → HasUniqueIds (delete_project_schedule project_id id tables).0.schedules
unfolding delete_project_schedule HasUniqueIds
delete-HasUniqueIds project_id id tables u k = omega (
  arith,
  u k,
  count_where-delete_where (λ s. s.id == k) (is_owned id project_id) tables.schedules,
)

abbrev IsWell : CronParser → Tables → Type 0
IsWell parser tables = HasUniqueIds tables.schedules × All (IsPlanned parser) tables.schedules

step-IsWell :
    {parser : CronParser} {s t : Tables}
    → ScheduleStep parser s t
    → IsWell parser s
    → IsWell parser t
unfolding delete_project_schedule
step-IsWell {parser} (create now id project_id user_id targets body tables fresh) h = (
  create-HasUniqueIds parser now id project_id user_id targets body tables fresh h.0,
  create_project_schedule-IsPlanned parser now id project_id user_id targets body tables h.1,
)
step-IsWell {parser} (update now project_id id targets body tables) h = (
  update-HasUniqueIds parser now project_id id targets body tables h.0,
  update_project_schedule-IsPlanned parser now project_id id targets body tables h.1,
)
step-IsWell {parser} (delete project_id id tables) h = (
  delete-HasUniqueIds project_id id tables h.0,
  All-delete_where (IsPlanned parser) (is_owned id project_id) tables.schedules h.1,
)
step-IsWell {parser} (tick now locked tables) h = (
  claim-HasUniqueIds parser now locked tables h.0,
  claim_schedule-IsPlanned parser now locked tables h.0 h.1,
)

-- Through any sequence of creations, changes and deletions of schedules and of the tick's transactions,
-- identifiers stay unique, a schedule that is not enabled has no next time, and the expression and the
-- time zone of every schedule are valid.
pub ScheduleSteps-IsPlanned :
    {parser : CronParser} {s t : Tables}
    → ScheduleSteps parser s t
    → HasUniqueIds s.schedules
    → All (IsPlanned parser) s.schedules
    → HasUniqueIds t.schedules × All (IsPlanned parser) t.schedules
ScheduleSteps-IsPlanned none_yet u a = (u, a)
ScheduleSteps-IsPlanned (then_one steps one) u a =
    step-IsWell one (ScheduleSteps-IsPlanned steps u a)
