-- ===== src/Retry/Plan.antt =====
-- apps/web/src/lib/runtime/test-group-retry-plan.ts: the retry state of each case of a session, and
-- the cases that a retry round runs again. The two maps of the code are association lists in the
-- order of insertion.
use skytest_agent.Prelude.{
  ℕ, ◌+◌, ◌*◌, max, Bool, true, false, not, ◌&&◌, ◌||◌, Option, none, some, List, [], ◌∷◌, String,
  if◌then◌else◌, ◌==◌, ltb, leb, any, select, length, sort_by, find_first,
}
use skytest_agent.Status.{TestStatus, pass, fail, cancelled, status_eq}
use skytest_agent.Cancellation.{is_user_initiated_cancellation}

pub data RetryPolicy : Type 0 where
  no_retry failed_once failed_twice whole_group_once : RetryPolicy

pub data FailureMode : Type 0 where
  stop continue : FailureMode

pub data CaseKind : Type 0 where
  test login_flow : CaseKind

abbrev pub retries_per_case_for : RetryPolicy → ℕ
retries_per_case_for failed_once = 1
retries_per_case_for failed_twice = 2
retries_per_case_for _ = 0

abbrev pub retry_policy_runs_retries : RetryPolicy → Bool
retry_policy_runs_retries no_retry = false
retry_policy_runs_retries _ = true

pub record AttemptRecord : Type 0 where
  pub test_case_id : ℕ
  pub kind : CaseKind
  pub session_position : Option ℕ
  pub attempt : ℕ
  pub status : TestStatus
  pub error : Option String

pub record CaseRetryState : Type 0 where
  pub test_case_id : ℕ
  pub kind : CaseKind
  pub session_position : ℕ
  pub latest_status : TestStatus
  pub latest_error : Option String
  pub executed : ℕ

-- `position ?? 0`
abbrev pub position_or_zero : Option ℕ → ℕ
position_or_zero none = 0
position_or_zero (some n) = n

-- `Map.set` for a case: the entry in its place, or a new one at the end.
unfoldable pub set_latest : AttemptRecord → List AttemptRecord → List AttemptRecord
set_latest a [] = a ∷ []
set_latest a (x ∷ xs) = if x.test_case_id == a.test_case_id then a ∷ xs else x ∷ set_latest a xs

-- One round of the loop of `resolveLatestAttempts`.
unfoldable pub latest_step : List AttemptRecord → AttemptRecord → List AttemptRecord
unfolding set_latest
latest_step latest a = elim (find_first (λ x. x.test_case_id == a.test_case_id) latest) [
  | none ↦ set_latest a latest
  | some current ↦ if ltb current.attempt a.attempt then set_latest a latest else latest
]

unfoldable pub latest_from : List AttemptRecord → List AttemptRecord → List AttemptRecord
latest_from latest [] = latest
latest_from latest (a ∷ attempts) = latest_from (latest_step latest a) attempts

unfoldable pub resolve_latest_attempts : List AttemptRecord → List AttemptRecord
unfolding latest_from latest_step
resolve_latest_attempts attempts =
    sort_by (λ a. position_or_zero a.session_position) (latest_from [] attempts)

-- `1` for an attempt that ran to its end.
abbrev pub executed_by : TestStatus → ℕ
executed_by pass = 1
executed_by fail = 1
executed_by _ = 0

-- The entry of a case in both maps of `buildCaseRetryStates`: its state, and
-- `latestAttemptByCase`.
pub record CaseEntry : Type 0 where
  pub state : CaseRetryState
  pub latest_attempt : ℕ

abbrev pub first_entry : AttemptRecord → CaseEntry
first_entry a = record {
  state = record {
    test_case_id = a.test_case_id;
    kind = a.kind;
    session_position = position_or_zero a.session_position;
    latest_status = a.status;
    latest_error = a.error;
    executed = executed_by a.status;
  };
  latest_attempt = a.attempt;
}

abbrev pub next_entry : AttemptRecord → CaseEntry → CaseEntry
next_entry a e =
    let s = record e.state { executed = e.state.executed + executed_by a.status } in
    if leb e.latest_attempt a.attempt
    then record {
      state = record s { latest_status = a.status; latest_error = a.error };
      latest_attempt = a.attempt;
    }
    else record e { state = s }

-- One round of the loop of `buildCaseRetryStates`.
unfoldable pub add_attempt : AttemptRecord → List CaseEntry → List CaseEntry
add_attempt a [] = first_entry a ∷ []
add_attempt a (e ∷ es) =
    if e.state.test_case_id == a.test_case_id then next_entry a e ∷ es else e ∷ add_attempt a es

unfoldable pub entries_from : List CaseEntry → List AttemptRecord → List CaseEntry
entries_from es [] = es
entries_from es (a ∷ attempts) = entries_from (add_attempt a es) attempts

abbrev pub states_of : List CaseEntry → List CaseRetryState
states_of [] = []
states_of (e ∷ es) = e.state ∷ states_of es

unfoldable pub build_case_retry_states : List AttemptRecord → List CaseRetryState
unfolding entries_from add_attempt
build_case_retry_states attempts =
    sort_by (λ s. s.session_position) (states_of (entries_from [] attempts))

unfoldable pub is_unresolved : CaseRetryState → Bool
is_unresolved s =
    status_eq s.latest_status fail
    || status_eq s.latest_status cancelled
      && not (is_user_initiated_cancellation s.latest_status s.latest_error)

abbrev pub is_whole_group : RetryPolicy → Bool
is_whole_group whole_group_once = true
is_whole_group _ = false

abbrev pub is_continue : FailureMode → Bool
is_continue continue = true
is_continue stop = false

unfoldable pub plan_retry_round :
    List CaseRetryState → RetryPolicy → FailureMode → (round_index : ℕ) → List CaseRetryState
plan_retry_round cases policy mode round_index =
    let unresolved = select is_unresolved cases in
    let retries = retries_per_case_for policy in
    let max_executions = retries + 1 in
    if length unresolved == 0
    then []
    else if is_whole_group policy
    then if round_index == 0 then sort_by (λ s. s.session_position) cases else []
    else if retries == 0
    then []
    else if not (is_continue mode) && any (λ s. leb max_executions s.executed) unresolved
    then []
    else sort_by (λ s. s.session_position) (select (λ s. ltb s.executed max_executions) unresolved)

abbrev pub max_retry_rounds_for : RetryPolicy → ℕ → ℕ
max_retry_rounds_for policy case_count =
    if is_whole_group policy then 1 else retries_per_case_for policy * max 1 case_count
