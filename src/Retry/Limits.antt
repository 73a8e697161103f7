-- ===== src/Retry/Limits.antt =====
-- How often a case of a session runs through all its retry rounds.
use skytest_agent.Prelude.{
  ℕ, ◌+◌, max, ◌≤◌, ◌≡◌, Bool, true, false, ◌==◌, some, List, if◌then◌else◌, count_where, arith,
}
use skytest_agent.Store.{TestRun}
use skytest_agent.Retry.Plan.{RetryPolicy, FailureMode, is_whole_group, retries_per_case_for}
use skytest_agent.Retry.Runner.{SessionMember, run_group_retry_rounds}
use skytest_agent.Retry.Rounds.{runs_of}
use skytest_agent.Retry.Budget.{
  planned, planned-failed, planned-whole, run_group_retry_rounds-bound,
}

module _ (cuid clock : List TestRun → ℕ) (session_id : ℕ) (policy : RetryPolicy)
    (mode : FailureMode) (c : ℕ) (run_round : ℕ → List SessionMember → List TestRun → List TestRun)
    (aborted : ℕ → Bool)
    (runs_members : (i : ℕ) (ms : List SessionMember) (runs : List TestRun)
      → runs_of session_id c (run_round i ms runs)
        ≤ runs_of session_id c runs + count_where (λ m. m.test_case_id == c) ms)
    (fuel : ℕ) (runs runs' : List TestRun) where
  -- Under a policy that retries failed cases, a case that has run at most as often as the policy
  -- allows never runs more often, and one that has run more often does not run again: if a round
  -- runs a case at most once for each of its members.
  pub run_group_retry_rounds-failed_budget :
      is_whole_group policy ≡ false
      → run_group_retry_rounds cuid clock session_id policy mode aborted run_round fuel runs
        ≡ some runs'
      → runs_of session_id c runs'
        ≤ max (runs_of session_id c runs) (retries_per_case_for policy + 1)
  run_group_retry_rounds-failed_budget w e =
      let bound : ℕ → ℕ → ℕ = λ i a. max a (retries_per_case_for policy + 1) in
      let mono : (i a b : ℕ) → a ≤ b → bound i a ≤ bound i b = λ i a b h. omega arith in
      run_group_retry_rounds-bound cuid clock session_id policy mode c run_round aborted
        runs_members bound (λ i a. omega arith) mono
        (λ i rs. fits i rs (planned-failed cuid clock session_id policy mode c i rs w)) fuel runs
        runs' e
    where
      fits :
          (i : ℕ) (rs : List TestRun)
          → runs_of session_id c rs + planned cuid clock session_id policy mode c i rs
            ≤ max (runs_of session_id c rs) (retries_per_case_for policy + 1)
          → max
              (runs_of session_id c rs + planned cuid clock session_id policy mode c i rs)
              (retries_per_case_for policy + 1)
            ≤ max (runs_of session_id c rs) (retries_per_case_for policy + 1)
      fits i rs h = omega arith

  -- With one retry of the whole group, no case runs more than once again, if a round runs a case at
  -- most once for each of its members.
  pub run_group_retry_rounds-whole_budget :
      is_whole_group policy ≡ true
      → run_group_retry_rounds cuid clock session_id policy mode aborted run_round fuel runs
        ≡ some runs'
      → runs_of session_id c runs' ≤ runs_of session_id c runs + 1
  run_group_retry_rounds-whole_budget w e =
      let bound : ℕ → ℕ → ℕ = λ i a. a + (if i == 0 then 1 else 0) in
      let mono : (i a b : ℕ) → a ≤ b → bound i a ≤ bound i b = λ i a b h. omega arith in
      run_group_retry_rounds-bound cuid clock session_id policy mode c run_round aborted
        runs_members bound (λ i a. omega arith) mono
        (λ i rs. fits i rs (planned-whole cuid clock session_id policy mode c i rs w)) fuel runs
        runs' e
    where
      fits :
          (i : ℕ) (rs : List TestRun)
          → planned cuid clock session_id policy mode c i rs ≤ (if i == 0 then 1 else 0)
          → runs_of session_id c rs
              + planned cuid clock session_id policy mode c i rs
              + (if i + 1 == 0 then 1 else 0)
            ≤ runs_of session_id c rs + (if i == 0 then 1 else 0)
      fits i rs h = ground arith
