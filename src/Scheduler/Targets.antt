-- ===== src/Scheduler/Targets.antt =====
-- The counts of the tick: every target of a claimed schedule is tried once.
use skytest_agent.Prelude.{
  ℕ, ◌+◌, ◌≡◌, refl, ◌∙◌, Bool, List, [], ◌∷◌, ◌==◌, length, arith, Bool-cases, inl, inr,
}
use skytest_agent.Scheduler.Cron.{CronParser}
use skytest_agent.Scheduler.Tick.{
  Tables, ClaimedSchedule, GroupTarget, SchedulerTickResult, Queues, QueueResult, queued, refused,
  count_case, count_group, queue_cases, queue_groups, queue_schedules, claim_schedules,
  run_scheduler_tick,
}

abbrev pub attempts : SchedulerTickResult → ℕ
attempts r = r.enqueued_runs + r.failed_runs + r.skipped_runs

abbrev pub targets : List ClaimedSchedule → ℕ
targets [] = 0
targets (schedule ∷ schedules) =
    length schedule.test_case_ids + length schedule.test_groups + targets schedules

-- Queueing has counted `n` attempts, and no other claim.
abbrev HasCounted : SchedulerTickResult → ℕ → SchedulerTickResult → Type 0
HasCounted before n after =
    (attempts after ≡ attempts before + n) × (after.claimed_schedules ≡ before.claimed_schedules)

none_before : (n : ℕ) → 0 + n ≡ n
none_before n = omega arith

count_case-HasCounted :
    (result : QueueResult) (r : SchedulerTickResult) → HasCounted r 1 (count_case result r)
count_case-HasCounted queued r = (omega arith, refl)
count_case-HasCounted (refused status) r = (omega arith, refl)

count_group-HasCounted :
    (result : QueueResult) (r : SchedulerTickResult) → HasCounted r 1 (count_group result r)
count_group-HasCounted queued r = (omega arith, refl)
count_group-HasCounted (refused status) r = elim (Bool-cases (status == 409)) [
  | inl e ↦ rw e (omega arith, refl)
  | inr e ↦ rw e (omega arith, refl)
]

HasCounted-then :
    (a b c : SchedulerTickResult) (m n : ℕ)
    → HasCounted a m b
    → HasCounted b n c
    → HasCounted a (m + n) c
HasCounted-then a b c m n h k = (omega (arith, h.0, k.0), k.1 ∙ h.1)

module _ {S : Type 0} (queues : Queues S) where
  queue_cases-HasCounted :
      (user : ℕ) (cases : List ℕ) (state : S) (r : SchedulerTickResult)
      → HasCounted r (length cases) (queue_cases queues user cases state r).1
  queue_cases-HasCounted user [] state r = (omega arith, refl)
  queue_cases-HasCounted user (c ∷ cases) state r =
      let (after, result) = queues.queue_test_case_run user c state in
      let h = count_case-HasCounted result r in
      let k = queue_cases-HasCounted user cases after (count_case result r) in
      (omega (arith, h.0, k.0), k.1 ∙ h.1)

  queue_groups-HasCounted :
      (groups : List GroupTarget) (state : S) (r : SchedulerTickResult)
      → HasCounted r (length groups) (queue_groups queues groups state r).1
  queue_groups-HasCounted [] state r = (omega arith, refl)
  queue_groups-HasCounted (g ∷ groups) state r =
      let (after, result) = queues.queue_test_group_run g.project_id g.test_group_id state in
      let h = count_group-HasCounted result r in
      let k = queue_groups-HasCounted groups after (count_group result r) in
      (omega (arith, h.0, k.0), k.1 ∙ h.1)

  queue_schedules-HasCounted :
      (schedules : List ClaimedSchedule) (state : S) (r : SchedulerTickResult)
      → HasCounted r (targets schedules) (queue_schedules queues schedules state r).1
  queue_schedules-HasCounted [] state r = (omega arith, refl)
  queue_schedules-HasCounted (s ∷ schedules) state r =
      let (state1, r1) = queue_cases queues s.created_by_user_id s.test_case_ids state r in
      let (state2, r2) = queue_groups queues s.test_groups state1 r1 in
      let h = queue_cases-HasCounted s.created_by_user_id s.test_case_ids state r in
      let k = queue_groups-HasCounted s.test_groups state1 r1 in
      let l = queue_schedules-HasCounted schedules state2 r2 in
      (omega (arith, h.0, k.0, l.0), l.1 ∙ k.1 ∙ h.1)

  module _ (parser : CronParser) (now : ℕ) (locked : ℕ → ℕ → Bool) (max_due_per_tick : ℕ)
      (tables : Tables) (state : S) where
    pub run_scheduler_tick-claimed :
        (run_scheduler_tick queues parser now locked max_due_per_tick tables
          state).2.claimed_schedules
        ≡ length (claim_schedules parser now locked max_due_per_tick 0 tables).1
    unfolding run_scheduler_tick
    run_scheduler_tick-claimed =
        (queue_schedules-HasCounted (claim_schedules parser now locked max_due_per_tick 0 tables).1
          state _).1

    -- The runs that a tick counts as enqueued, failed or skipped are together as many as the test cases
    -- and the groups of the schedules that it has claimed.
    pub run_scheduler_tick-attempts :
        attempts (run_scheduler_tick queues parser now locked max_due_per_tick tables state).2
        ≡ targets (claim_schedules parser now locked max_due_per_tick 0 tables).1
    unfolding run_scheduler_tick
    run_scheduler_tick-attempts =
        (queue_schedules-HasCounted (claim_schedules parser now locked max_due_per_tick 0 tables).1
          state _).0
        ∙ none_before _
