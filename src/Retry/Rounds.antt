-- ===== src/Retry/Rounds.antt =====
-- The loop over the retry rounds ends within its ceiling, and runs no case more often than its policy
-- allows.
use skytest_agent.Prelude.{
  ℕ, zero, suc, ◌+◌, ◌≤◌, ◌<◌, ◌≡◌, refl, ◌∙◌, Bool, false, not, Option, some, List, ◌==◌, leb,
  length, arith, if_intro,
}
use skytest_agent.Store.{TestRun}
use skytest_agent.Retry.Plan.{
  CaseRetryState, RetryPolicy, FailureMode, max_retry_rounds_for, build_case_retry_states,
  plan_retry_round, retry_policy_runs_retries,
}
use skytest_agent.Retry.Entries.{executed_of}
use skytest_agent.Retry.Runner.{
  SessionMember, load_session_attempts, total_executed, create_retry_attempts, retry_rounds,
  run_group_retry_rounds,
}
use skytest_agent.Retry.CaseCount.{create_retry_attempts-case_count}

-- The number of cases of a session.
abbrev pub case_count : ℕ → List TestRun → ℕ
case_count session_id runs =
    length (build_case_retry_states (load_session_attempts session_id runs))

-- How often a case of a session has run.
abbrev pub runs_of : ℕ → ℕ → List TestRun → ℕ
runs_of session_id c runs = executed_of c (load_session_attempts session_id runs)

pub leb-false : (a b : ℕ) → leb a b ≡ false → b + 1 ≤ a
leb-false a b h = ground arith

module _ (cuid clock : List TestRun → ℕ) (session_id : ℕ) (policy : RetryPolicy)
    (mode : FailureMode) (aborted : ℕ → Bool)
    (run_round : ℕ → List SessionMember → List TestRun → List TestRun) where
  abbrev pub cases_in : List TestRun → List CaseRetryState
  cases_in runs = build_case_retry_states (load_session_attempts session_id runs)

  abbrev pub plan_in : ℕ → List TestRun → List CaseRetryState
  plan_in round_index runs = plan_retry_round (cases_in runs) policy mode round_index

  -- What a round makes of the table: the created rows, and what running them leaves.
  abbrev pub created_in : ℕ → List TestRun → List TestRun × List SessionMember
  created_in round_index runs =
      create_retry_attempts cuid clock session_id (plan_in round_index runs) runs

  abbrev pub after_round : ℕ → List TestRun → List TestRun
  after_round round_index runs =
      run_round round_index (created_in round_index runs).1 (created_in round_index runs).0

  abbrev pub stalled_in : ℕ → List TestRun → Bool
  stalled_in round_index runs =
      total_executed (cases_in (after_round round_index runs)) == total_executed (cases_in runs)

  abbrev pub rounds : (fuel round_index : ℕ) → List TestRun → Option (List TestRun)
  rounds = retry_rounds cuid clock session_id policy mode aborted run_round

  -- The branches of a round: what holds in each of them holds of the loop.
  pub retry_rounds-branches {ℓ} :
      (P : Option (List TestRun) → Type ℓ) (fuel round_index : ℕ) (runs : List TestRun)
      → P (some runs)
      → P (some (created_in round_index runs).0)
      → P (some (after_round round_index runs))
      → (leb (max_retry_rounds_for policy (case_count session_id runs)) round_index ≡ false
          → P (rounds fuel (round_index + 1) (after_round round_index runs)))
      → P (rounds (suc fuel) round_index runs)
  unfolding retry_rounds
  retry_rounds-branches P fuel round_index runs here created run again =
      if_intro P (aborted round_index) (λ _. here)
        λ _.
          if_intro P (length (plan_in round_index runs) == 0) (λ _. here)
            λ _.
              if_intro P
                (leb (max_retry_rounds_for policy (case_count session_id runs)) round_index)
                (λ _. here)
                λ below.
                  if_intro P (length (created_in round_index runs).1 == 0) (λ _. created)
                    λ _. if_intro P (stalled_in round_index runs) (λ _. run) (λ _. again below)

  module _
      (keeps_cases : (i : ℕ) (ms : List SessionMember) (runs : List TestRun)
        → case_count session_id (run_round i ms runs) ≡ case_count session_id runs)
      (n : ℕ) where
    retry_rounds_total :
        (fuel round_index : ℕ) (runs : List TestRun)
        → case_count session_id runs ≡ n
        → round_index ≤ max_retry_rounds_for policy n
        → max_retry_rounds_for policy n < fuel + round_index
        → (runs' : List TestRun) × (rounds fuel round_index runs ≡ some runs')
    retry_rounds_total zero round_index runs c b h = absurd (omega arith)
    retry_rounds_total (suc fuel) round_index runs c b h =
        retry_rounds-branches (λ r. (runs' : List TestRun) × (r ≡ some runs')) fuel round_index runs
          (runs, refl) ((created_in round_index runs).0, refl) (after_round round_index runs, refl)
          λ below.
            retry_rounds_total fuel (round_index + 1) (after_round round_index runs)
              (keeps_cases _ _ _
                ∙ create_retry_attempts-case_count cuid clock session_id _ runs
                ∙ c)
              (leb-false _ _ (rw c at below)) (omega arith)

  -- With fuel for one round more than the ceiling `maxRetryRoundsFor`, the loop returns, if running
  -- a round's members leaves the number of the session's cases as it was.
  pub run_group_retry_rounds_total :
      (runs : List TestRun)
      → ((i : ℕ) (ms : List SessionMember) (runs : List TestRun)
          → case_count session_id (run_round i ms runs) ≡ case_count session_id runs)
      → (runs' : List TestRun) × (run_group_retry_rounds cuid clock session_id policy mode aborted
            run_round
            (max_retry_rounds_for policy (case_count session_id runs) + 1)
            runs
          ≡ some runs')
  unfolding run_group_retry_rounds
  run_group_retry_rounds_total runs keeps =
      if_intro (λ r. (runs' : List TestRun) × (r ≡ some runs'))
        (not (retry_policy_runs_retries policy)) (λ _. (runs, refl))
        λ _.
          retry_rounds_total keeps (case_count session_id runs) _ 0 runs refl (omega arith)
            (omega arith)
