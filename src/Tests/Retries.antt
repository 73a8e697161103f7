-- ===== src/Tests/Retries.antt =====
-- A session with a failed case and a passed one: its states, its plans and its retry rounds.
use skytest_agent.Prelude.{
  ltb, leb, ℕ, ◌+◌, ◌==◌, ◌≤◌, ◌≡◌, max, refl, Bool, false, some, List, [], ◌∷◌, ◌&&◌,
  if◌then◌else◌, any, length, count_where, All, IsSorted,
}
use skytest_agent.Status.{pass, fail}
use skytest_agent.Store.{TestRun}
use skytest_agent.Retry.Plan.{
  AttemptRecord, CaseRetryState, continue, failed_once, whole_group_once, is_unresolved,
  retries_per_case_for, max_retry_rounds_for, build_case_retry_states, plan_retry_round,
}
use skytest_agent.Retry.States.{
  Describes, build_case_retry_states-Describes, build_case_retry_states-count,
}
use skytest_agent.Retry.Plan.{no_retry, failed_twice, whole_group_once, stop}
use skytest_agent.Retry.Chosen.{is_left_failed, count_where-plan_retry_round}
use skytest_agent.Retry.Eligible.{plan_retry_round-IsSorted}
use skytest_agent.Retry.Runner.{
  load_session_attempts, create_retry_attempts, run_group_retry_rounds,
}
use skytest_agent.Retry.CaseCount.{create_retry_attempts-case_count}
use skytest_agent.Retry.Rounds.{case_count, runs_of, run_group_retry_rounds_total}
use skytest_agent.Retry.Limits.{
  run_group_retry_rounds-failed_budget, run_group_retry_rounds-whole_budget,
}
use skytest_agent.Tests.Data.{run_in}
use skytest_agent.Tests.Rounds.{run_members, run_members-runs_of, run_members-case_count}

abbrev group_rows : List TestRun
group_rows = run_in 1 10 fail ∷ record (run_in 2 11 pass) { test_case_id = 6 } ∷ []

abbrev attempts_40 : List AttemptRecord
attempts_40 = load_session_attempts 40 group_rows

abbrev states_40 : List CaseRetryState
states_40 = build_case_retry_states attempts_40

abbrev never : ℕ → Bool
never _ = false

abbrev next_id : List TestRun → ℕ
next_id runs = length runs + 1

abbrev clock : List TestRun → ℕ
clock runs = 100 + length runs

build_case_retry_states-Describes_example : All (Describes attempts_40) states_40
build_case_retry_states-Describes_example = build_case_retry_states-Describes attempts_40

build_case_retry_states-count_example :
    count_where (λ s. s.test_case_id == 5) states_40
    ≡ (if any (λ a. a.test_case_id == 5) attempts_40 then 1 else 0)
build_case_retry_states-count_example = build_case_retry_states-count 5 attempts_40

plan_retry_round-IsSorted_example :
    IsSorted (λ s. s.session_position) (plan_retry_round states_40 failed_once continue 0)
plan_retry_round-IsSorted_example = plan_retry_round-IsSorted states_40 failed_once continue 0

count_where-plan_retry_round_example :
    (count_where (λ s. s.test_case_id == 5) (plan_retry_round states_40 no_retry stop 0) ≡ 0)
    × (count_where (λ s. s.test_case_id == 5) (plan_retry_round states_40 failed_once continue 0)
        ≡ count_where (λ s. is_left_failed s && ltb s.executed 2 && s.test_case_id == 5) states_40)
    × (count_where (λ s. s.test_case_id == 5) (plan_retry_round states_40 failed_once stop 0) ≡ (
        if any (λ s. is_left_failed s && leb 2 s.executed) states_40
        then 0
        else count_where
            (λ s. is_left_failed s && ltb s.executed 2 && s.test_case_id == 5)
            states_40))
    × (count_where (λ s. s.test_case_id == 5) (plan_retry_round states_40 failed_twice continue 0)
        ≡ count_where (λ s. is_left_failed s && ltb s.executed 3 && s.test_case_id == 5) states_40)
    × (count_where (λ s. s.test_case_id == 5) (plan_retry_round states_40 failed_twice stop 0) ≡ (
        if any (λ s. is_left_failed s && leb 3 s.executed) states_40
        then 0
        else count_where
            (λ s. is_left_failed s && ltb s.executed 3 && s.test_case_id == 5)
            states_40))
    × (count_where (λ s. s.test_case_id == 5) (plan_retry_round states_40 whole_group_once stop 0)
        ≡ (if any is_left_failed states_40
            then count_where (λ s. s.test_case_id == 5) states_40
            else 0))
    × (count_where (λ s. s.test_case_id == 5) (plan_retry_round states_40 whole_group_once stop 1)
        ≡ 0)
count_where-plan_retry_round_example =
    count_where-plan_retry_round states_40 (λ s. s.test_case_id == 5) stop 0

create_retry_attempts-case_count_example :
    length (
      build_case_retry_states
        (load_session_attempts 40 (create_retry_attempts next_id clock 40 states_40 group_rows).0))
    ≡ length (build_case_retry_states (load_session_attempts 40 group_rows))
create_retry_attempts-case_count_example =
    create_retry_attempts-case_count next_id clock 40 states_40 group_rows

run_group_retry_rounds_total_example :
    (runs' : List TestRun) × (run_group_retry_rounds next_id clock 40 failed_once continue never
        run_members
        (max_retry_rounds_for failed_once (case_count 40 group_rows) + 1)
        group_rows
      ≡ some runs')
run_group_retry_rounds_total_example =
    run_group_retry_rounds_total next_id clock 40 failed_once continue never run_members group_rows
      (run_members-case_count 40)

ends :
    (runs' : List TestRun) × (run_group_retry_rounds next_id clock 40 failed_once continue never
        run_members 3 group_rows
      ≡ some runs')
unfolding run_group_retry_rounds plan_retry_round build_case_retry_states is_unresolved
ends = (_, refl)

whole_ends :
    (runs' : List TestRun) × (run_group_retry_rounds next_id clock 40 whole_group_once continue
        never run_members 2 group_rows
      ≡ some runs')
unfolding run_group_retry_rounds plan_retry_round build_case_retry_states is_unresolved
whole_ends = (_, refl)

run_group_retry_rounds-failed_budget_example :
    runs_of 40 5 ends.0 ≤ max (runs_of 40 5 group_rows) (retries_per_case_for failed_once + 1)
run_group_retry_rounds-failed_budget_example =
    run_group_retry_rounds-failed_budget next_id clock 40 failed_once continue 5 run_members never
      (run_members-runs_of 40 5) 3 group_rows ends.0 refl ends.1

run_group_retry_rounds-whole_budget_example :
    runs_of 40 5 whole_ends.0 ≤ runs_of 40 5 group_rows + 1
run_group_retry_rounds-whole_budget_example =
    run_group_retry_rounds-whole_budget next_id clock 40 whole_group_once continue 5 run_members
      never (run_members-runs_of 40 5) 2 group_rows whole_ends.0 refl whole_ends.1
