-- ===== src/Scheduler/Settled.antt =====
-- The schedules after a tick.
use skytest_agent.Prelude.{
  ℕ, ◌≤◌, ◌≡◌, refl, ap, ◌∙◌, Bool, true, false, none, some, ◌==◌, find_first, update_where,
  find_first-update_where, count_where, inl, inr,
}
use skytest_agent.Scheduler.Cron.{CronParser, compute_next_run_at}
use skytest_agent.Scheduler.Values.{Validated-cases}
use skytest_agent.Scheduler.Targets.{
  run_scheduler_tick-claimed, run_scheduler_tick-attempts, attempts, targets,
}
use skytest_agent.Scheduler.Tick.{
  Schedule, Tables, is_due, disable, Queues, claim_schedules, run_scheduler_tick,
}
use skytest_agent.Scheduler.Due.{HasUniqueIds, IsForward, settle_schedule, is_computable}
use skytest_agent.Scheduler.Loop.{is_runnable, claim_schedules-IsSettled}

settle_schedule-id :
    (parser : CronParser) (now : ℕ) (s : Schedule) → (settle_schedule parser now s).id ≡ s.id
unfolding settle_schedule
settle_schedule-id parser now s =
    elim (Validated-cases (compute_next_run_at parser s.cron_expression s.timezone now)) [
      | inl (next, c) ↦ rw (c, settle_schedule) refl
      | inr (message, c) ↦ rw (c, settle_schedule) refl
    ]

settle_schedule-bad :
    (parser : CronParser) (now : ℕ) (s : Schedule)
    → is_computable parser now s ≡ false
    → settle_schedule parser now s ≡ disable s
unfolding settle_schedule is_computable
settle_schedule-bad parser now s h =
    elim (Validated-cases (compute_next_run_at parser s.cron_expression s.timezone now)) [
      | inl (next, c) ↦ let absurd = rw (c, is_computable) at h in cc
      | inr (message, c) ↦ rw (c, settle_schedule) refl
    ]

module _ {S : Type 0} (queues : Queues S) (parser : CronParser) (now : ℕ)
    (forward : IsForward parser) (locked : ℕ → ℕ → Bool)
    (free : (i id : ℕ) → locked i id ≡ false) where
  pub run_scheduler_tick-settles :
      (max_due_per_tick : ℕ) (tables : Tables) (state : S)
      → HasUniqueIds tables.schedules
      → count_where (is_due now) tables.schedules ≤ max_due_per_tick
      → let out = run_scheduler_tick queues parser now locked max_due_per_tick tables state in
        (out.0.schedules ≡ update_where (is_due now) (settle_schedule parser now) tables.schedules)
        × (out.2.claimed_schedules ≡ count_where (is_runnable parser now) tables.schedules)
        × (attempts out.2 ≡ targets (claim_schedules parser now locked max_due_per_tick 0 tables).1)
  unfolding run_scheduler_tick
  run_scheduler_tick-settles max_due_per_tick tables state unique few =
      let settled =
        claim_schedules-IsSettled parser now forward locked free max_due_per_tick 0 tables unique
          few in
      (
        settled.0,
        run_scheduler_tick-claimed queues parser now locked max_due_per_tick tables state
            ∙ settled.1,
        run_scheduler_tick-attempts queues parser now locked max_due_per_tick tables state,
      )

  -- Under the same conditions a schedule that is due and whose next time cannot be computed is, after
  -- the tick, disabled and without a next time, and otherwise as it was.
  pub run_scheduler_tick-uncomputable :
      (max_due_per_tick : ℕ) (tables : Tables) (state : S) (id : ℕ) (s : Schedule)
      → HasUniqueIds tables.schedules
      → count_where (is_due now) tables.schedules ≤ max_due_per_tick
      → find_first (λ x. x.id == id) tables.schedules ≡ some s
      → is_due now s ≡ true
      → is_computable parser now s ≡ false
      → find_first
          (λ x. x.id == id)
          (run_scheduler_tick queues parser now locked max_due_per_tick tables state).0.schedules
        ≡ some (record s { enabled = false; next_run_at = none })
  unfolding settle_schedule is_computable
  run_scheduler_tick-uncomputable max_due_per_tick tables state id s unique few found due bad =
      let settled = run_scheduler_tick-settles max_due_per_tick tables state unique few in
      let moved =
        find_first-update_where (λ x. x.id == id) (is_due now) (settle_schedule parser now)
          (λ x. ap (λ k. k == id) (settle_schedule-id parser now x)) tables.schedules in
      ap (λ ss. find_first (λ x. x.id == id) ss) settled.0
      ∙ moved
      ∙ rw (found, due) (ap some (settle_schedule-bad parser now s bad))
