-- ===== src/Scheduler/Due.antt =====
-- What the tick leaves of the schedules.
use skytest_agent.Prelude.{
  ℕ, ◌≤◌, ◌<◌, ◌≡◌, Bool, true, false, not, ◌&&◌, Option, none, some, List, Text, ◌==◌, select,
  select-All, select-holds, sort_by, sort_by-All, first-All, find_first, All, length-sort_by,
  and→both, find_first-All, length-select, first-none, count_where-le, count_where, arith,
}
use skytest_agent.Scheduler.{valid, invalid}
use skytest_agent.Scheduler.Cron.{
  CronParser, compute_next_run_at, validate_cron_and_timezone, to_cron_parser_expression,
}
use skytest_agent.Scheduler.Values.{and_then-valid}
use skytest_agent.Scheduler.Tick.{Schedule, is_due, due_time, next_due, disable, advance_schedule}

-- `@id`
unfoldable pub HasUniqueIds : List Schedule → Type 0
HasUniqueIds schedules = (id : ℕ) → count_where (λ s. s.id == id) schedules ≤ 1

-- What `cron-parser` documents: the next time is after the given one.
unfoldable pub IsForward : CronParser → Type 0
IsForward parser =
    (cron timezone : Text) (after at : ℕ)
    → parser.next cron timezone after ≡ valid (some at)
    → after < at

-- A schedule that is due, after its transaction.
unfoldable pub settle_schedule : CronParser → ℕ → Schedule → Schedule
settle_schedule parser now s = elim (compute_next_run_at parser s.cron_expression s.timezone now) [
  | invalid message ↦ disable s
  | valid next ↦ advance_schedule now next s
]

unfoldable pub is_computable : CronParser → ℕ → Schedule → Bool
is_computable parser now s = elim (compute_next_run_at parser s.cron_expression s.timezone now) [
  | invalid message ↦ false
  | valid next ↦ true
]

module _ (parser : CronParser) (now : ℕ) (forward : IsForward parser) where
  compute-after :
      (cron timezone : Text) (at : ℕ)
      → compute_next_run_at parser cron timezone now ≡ valid (some at)
      → now < at
  unfolding compute_next_run_at IsForward
  compute-after cron timezone at h =
      let (_, _, k) = and_then-valid (validate_cron_and_timezone parser cron timezone) h in
      let (fields, _, l) = and_then-valid (to_cron_parser_expression cron) k in
      forward fields timezone now at l

  pub advance_schedule-not_due :
      (s : Schedule) (next : Option ℕ)
      → compute_next_run_at parser s.cron_expression s.timezone now ≡ valid next
      → is_due now (advance_schedule now next s) ≡ false
  advance_schedule-not_due s none h = ground arith
  advance_schedule-not_due s (some at) h =
      ground (arith, compute-after s.cron_expression s.timezone at h)

module _ (now : ℕ) (schedules : List Schedule) (locked_now : ℕ → Bool) where
  abbrev is_free : Schedule → Bool
  is_free s = is_due now s && not (locked_now s.id)

  pub next-none :
      ((id : ℕ) → locked_now id ≡ false)
      → next_due now locked_now schedules ≡ none
      → count_where (is_due now) schedules ≡ 0
  next-none free h =
      let length_none = first-none (sort_by due_time (select is_free schedules)) h in
      let all_free =
        count_where-le (is_due now) is_free (λ s d. ground (arith, free s.id)) schedules in
      omega (
        arith,
        length_none,
        length-sort_by due_time (select is_free schedules),
        length-select is_free schedules,
        all_free,
      )

  module _ (row : Schedule) (chosen : next_due now locked_now schedules ≡ some row) where
    pub next-due : is_due now row ≡ true
    next-due =
        (and→both _ _ (
          first-All (λ s. is_free s ≡ true) _ row chosen
            (sort_by-All due_time _ _ (select-holds is_free schedules)))).0

    pub next-holds : (P : Schedule → Type 0) → All P schedules → P row
    next-holds P a =
        first-All P _ row chosen (sort_by-All due_time _ _ (select-All P is_free schedules a))

    pub next-found : HasUniqueIds schedules → find_first (λ s. s.id == row.id) schedules ≡ some row
    unfolding HasUniqueIds
    next-found u =
        next-holds (λ s. find_first (λ t. t.id == s.id) schedules ≡ some s)
          (find_first-All (λ s. s.id) schedules u)
