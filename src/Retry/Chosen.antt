-- ===== src/Retry/Chosen.antt =====
-- Which cases a retry round runs again, in the terms of a user: the numbers of retries, the failed
-- cases, and the messages of a run that a person stopped.
use mathlib.Core.Path.{fun_ext, subst}
use skytest_agent.Prelude.{
  ℕ, suc, ◌≡◌, Bool, List, not, ◌&&◌, if◌then◌else◌, ◌||◌, ltb, leb, any, count_where, arith,
}
use skytest_agent.Status.{fail, cancelled, status_eq}
use skytest_agent.Cancellation.People.{is_stop_message, is_user_initiated_cancellation_lem}
use skytest_agent.Retry.Plan.{
  CaseRetryState, no_retry, failed_once, failed_twice, whole_group_once, FailureMode, stop,
  continue, is_unresolved, plan_retry_round,
}
use skytest_agent.Retry.Eligible.{plan_retry_round_count}

-- The case failed, or was cancelled, but not by a person.
abbrev pub is_left_failed : CaseRetryState → Bool
is_left_failed s =
    status_eq s.latest_status fail
    || status_eq s.latest_status cancelled && not (is_stop_message s.latest_error)

is_unresolved_lem : is_unresolved ≡ is_left_failed
unfolding is_unresolved
is_unresolved_lem =
    fun_ext
      λ s. rw (is_user_initiated_cancellation_lem s.latest_status s.latest_error) (ground arith)

module _ (cases : List CaseRetryState) (p : CaseRetryState → Bool) (mode : FailureMode)
    (i : ℕ) where
  Counts : (CaseRetryState → Bool) → Type 0
  Counts u =
      (count_where p (plan_retry_round cases no_retry mode i) ≡ 0)
      × (count_where p (plan_retry_round cases failed_once continue i)
          ≡ count_where (λ s. u s && ltb s.executed 2 && p s) cases)
      × (count_where p (plan_retry_round cases failed_once stop i) ≡ (
          if any (λ s. u s && leb 2 s.executed) cases
          then 0
          else count_where (λ s. u s && ltb s.executed 2 && p s) cases))
      × (count_where p (plan_retry_round cases failed_twice continue i)
          ≡ count_where (λ s. u s && ltb s.executed 3 && p s) cases)
      × (count_where p (plan_retry_round cases failed_twice stop i) ≡ (
          if any (λ s. u s && leb 3 s.executed) cases
          then 0
          else count_where (λ s. u s && ltb s.executed 3 && p s) cases))
      × (count_where p (plan_retry_round cases whole_group_once mode 0)
          ≡ (if any u cases then count_where p cases else 0))
      × (count_where p (plan_retry_round cases whole_group_once mode (suc i)) ≡ 0)

  counts : Counts is_unresolved
  unfolding Counts
  counts = (
    plan_retry_round_count cases no_retry mode i p,
    plan_retry_round_count cases failed_once continue i p,
    plan_retry_round_count cases failed_once stop i p,
    plan_retry_round_count cases failed_twice continue i p,
    plan_retry_round_count cases failed_twice stop i p,
    ground (arith, plan_retry_round_count cases whole_group_once mode 0 p),
    ground (arith, plan_retry_round_count cases whole_group_once mode (suc i) p),
  )

  -- How many cases of any kind a round runs again. A case is left failed if its latest attempt failed,
  -- or was cancelled with no message of those that say that a person stopped it. No retry runs none.
  -- One retry of failed cases runs those that are left failed and ran at most once, two retries those
  -- that ran at most twice; where the group stops at a failure, none if a case that is left failed
  -- ran more often. The retry of the whole group runs every case in the first round if one is left
  -- failed, and none in a later round.
  pub count_where-plan_retry_round :
      (count_where p (plan_retry_round cases no_retry mode i) ≡ 0)
      × (count_where p (plan_retry_round cases failed_once continue i)
          ≡ count_where (λ s. is_left_failed s && ltb s.executed 2 && p s) cases)
      × (count_where p (plan_retry_round cases failed_once stop i) ≡ (
          if any (λ s. is_left_failed s && leb 2 s.executed) cases
          then 0
          else count_where (λ s. is_left_failed s && ltb s.executed 2 && p s) cases))
      × (count_where p (plan_retry_round cases failed_twice continue i)
          ≡ count_where (λ s. is_left_failed s && ltb s.executed 3 && p s) cases)
      × (count_where p (plan_retry_round cases failed_twice stop i) ≡ (
          if any (λ s. is_left_failed s && leb 3 s.executed) cases
          then 0
          else count_where (λ s. is_left_failed s && ltb s.executed 3 && p s) cases))
      × (count_where p (plan_retry_round cases whole_group_once mode 0)
          ≡ (if any is_left_failed cases then count_where p cases else 0))
      × (count_where p (plan_retry_round cases whole_group_once mode (suc i)) ≡ 0)
  unfolding Counts
  count_where-plan_retry_round = subst Counts is_unresolved_lem counts
