-- ===== src/Retry/Runner.antt =====
-- apps/web/src/lib/runtime/test-group-retry-runner.ts: the loop over the retry rounds of a session,
-- with the table of runs as its state. `runRound`, which the caller hands over together with
-- `onRoundStart`, is the argument `run_round`; `signal.aborted` is read once in each round, and
-- `aborted` says what it reads there; `cuid` and `clock` give
-- the identifier and the time of a created run.
use skytest_agent.Prelude.{
  ℕ, zero, suc, ◌+◌, Bool, false, not, ◌&&◌, Option, none, some, List, [], ◌∷◌, ◌++◌, if◌then◌else◌,
  ◌==◌, leb, holds, any, select, length, find_first,
}
use skytest_agent.Status.{queued}
use skytest_agent.Store.{TestRun}
use skytest_agent.Retry.Plan.{
  AttemptRecord, CaseRetryState, CaseKind, RetryPolicy, FailureMode, build_case_retry_states,
  plan_retry_round, max_retry_rounds_for, retry_policy_runs_retries,
}

pub record SessionMember : Type 0 where
  pub id : ℕ
  pub session_position : Option ℕ
  pub test_case_id : ℕ
  pub kind : CaseKind
  pub reused_session : Bool

abbrev pub attempt_of : TestRun → AttemptRecord
attempt_of r = record {
  test_case_id = r.test_case_id;
  kind = r.kind;
  session_position = r.session_position;
  attempt = r.attempt;
  status = r.status;
  error = r.error;
}

abbrev pub attempts_of : List TestRun → List AttemptRecord
attempts_of [] = []
attempts_of (r ∷ rs) = attempt_of r ∷ attempts_of rs

abbrev pub in_session : ℕ → TestRun → Bool
in_session session_id r = holds r.run_session_id session_id

unfoldable pub load_session_attempts : ℕ → List TestRun → List AttemptRecord
load_session_attempts session_id runs = attempts_of (select (in_session session_id) runs)

unfoldable pub total_executed : List CaseRetryState → ℕ
total_executed [] = 0
total_executed (s ∷ cases) = s.executed + total_executed cases

-- `orderBy: { attempt: 'desc' }`: each run before the first one with a smaller or equal number.
abbrev pub insert_desc : TestRun → List TestRun → List TestRun
insert_desc r [] = r ∷ []
insert_desc r (x ∷ xs) = if leb x.attempt r.attempt then r ∷ x ∷ xs else x ∷ insert_desc r xs

abbrev pub sort_desc : List TestRun → List TestRun
sort_desc [] = []
sort_desc (r ∷ rs) = insert_desc r (sort_desc rs)

-- `latestByCase`: the first row of each case stays in the map.
unfoldable pub latest_by_case : List TestRun → List TestRun → List TestRun
latest_by_case latest [] = latest
latest_by_case latest (r ∷ rs) =
    latest_by_case
      (if any (λ x. x.test_case_id == r.test_case_id) latest then latest else latest ++ r ∷ []) rs

unfoldable pub retry_run : (session_id id now : ℕ) → CaseRetryState → TestRun → TestRun
retry_run session_id id now s source = record {
  id = id;
  test_case_id = s.test_case_id;
  run_session_id = some session_id;
  session_position = some s.session_position;
  attempt = source.attempt + 1;
  kind = s.kind;
  reused_session = false;
  triggered_by_email = source.triggered_by_email;
  trigger_source = source.trigger_source;
  required_capability = source.required_capability;
  required_runner_kind = none;
  requested_device_id = none;
  requested_runner_id = none;
  assigned_runner_id = none;
  lease_expires_at = none;
  last_event_at = none;
  next_event_sequence = 1;
  status = queued;
  result = none;
  error = none;
  started_at = none;
  completed_at = none;
  deleted_at = none;
  created_at = now;
}

abbrev pub member_of : TestRun → SessionMember
member_of r = record {
  id = r.id;
  session_position = r.session_position;
  test_case_id = r.test_case_id;
  kind = r.kind;
  reused_session = r.reused_session;
}

module _ (cuid clock : List TestRun → ℕ) (session_id : ℕ) where
  -- The loop over the plan: the table with the created rows, and the members made of them.
  unfoldable pub create_from :
      List TestRun → List CaseRetryState → List TestRun → List TestRun × List SessionMember
  unfolding retry_run
  create_from latest [] runs = (runs, [])
  create_from latest (s ∷ plan) runs =
      elim (find_first (λ r. r.test_case_id == s.test_case_id) latest) [
        | none ↦ create_from latest plan runs
        | some source ↦
            let run = retry_run session_id (cuid runs) (clock runs) s source in
            let (runs', created) = create_from latest plan (runs ++ run ∷ []) in
            (runs', member_of run ∷ created)
      ]

  unfoldable pub create_retry_attempts :
      List CaseRetryState → List TestRun → List TestRun × List SessionMember
  unfolding create_from latest_by_case
  create_retry_attempts plan runs =
      let previous = sort_desc (
        select (λ r. in_session session_id r && any (λ s. s.test_case_id == r.test_case_id) plan)
          runs) in
      create_from (latest_by_case [] previous) plan runs

  module _ (policy : RetryPolicy) (mode : FailureMode) (aborted : ℕ → Bool)
      (run_round : ℕ → List SessionMember → List TestRun → List TestRun) where
    -- The loop from round `round_index` on. `none`: the fuel ran out.
    unfoldable pub retry_rounds : (fuel round_index : ℕ) → List TestRun → Option (List TestRun)
    unfolding create_retry_attempts load_session_attempts total_executed
    retry_rounds zero round_index runs = none
    retry_rounds (suc fuel) round_index runs =
        let cases = build_case_retry_states (load_session_attempts session_id runs) in
        let plan = plan_retry_round cases policy mode round_index in
        let created = create_retry_attempts plan runs in
        let runs' = run_round round_index created.1 created.0 in
        let cases' = build_case_retry_states (load_session_attempts session_id runs') in
        let rest = retry_rounds fuel (round_index + 1) runs' in
        if aborted round_index
        then some runs
        else if length plan == 0
        then some runs
        else if leb (max_retry_rounds_for policy (length cases)) round_index
        then some runs
        else if length created.1 == 0
        then some created.0
        else if total_executed cases' == total_executed cases
        then some runs'
        else rest

    unfoldable pub run_group_retry_rounds : ℕ → List TestRun → Option (List TestRun)
    unfolding retry_rounds
    run_group_retry_rounds fuel runs =
        if not (retry_policy_runs_retries policy) then some runs else retry_rounds fuel 0 runs
