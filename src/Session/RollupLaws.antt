-- ===== src/Session/RollupLaws.antt =====
-- What the aggregate status of a session says of its members.
use skytest_agent.Prelude.{
  Bool, not, ◌&&◌, ◌||◌, List, [], ◌∷◌, any, every, ◌≡◌, ◌≢◌, refl, arith, length, ◌==◌, All,
}
use skytest_agent.Status.{
  TestStatus, queued, preparing, running, pass, fail, cancelled, draft, status_eq,
  is_run_terminal_status, is_run_active_status,
}
use skytest_agent.Session.Rollup.{rollup_run_session_status}

abbrev pub has : TestStatus → List TestStatus → Bool
has s statuses = any (λ x. status_eq x s) statuses

abbrev pub all_settled : List TestStatus → Bool
all_settled statuses = every is_run_terminal_status statuses

-- A run is never a draft.
abbrev pub IsRunStatus : TestStatus → Type 0
IsRunStatus s = s ≢ draft

settled-active :
    (xs : List TestStatus) → All IsRunStatus xs → all_settled xs ≡ not (any is_run_active_status xs)
settled-active [] h = refl
settled-active (x ∷ xs) h = ground (arith, settled-active xs h.1)

active-split :
    (xs : List TestStatus)
    → any is_run_active_status xs
      ≡ (any (λ s. status_eq s preparing || status_eq s running) xs || has queued xs)
active-split [] = refl
active-split (x ∷ xs) = ground (arith, active-split xs)

-- A session is settled exactly when it has members, all of them are settled, and no retry is
-- pending for an outcome that is not a pass.
pub rollup-terminal_iff :
    (statuses : List TestStatus) (retry_pending : Bool)
    → All IsRunStatus statuses
    → is_run_terminal_status (rollup_run_session_status statuses retry_pending) ≡ (
        not (length statuses == 0)
        && all_settled statuses
        && not (retry_pending && (has fail statuses || has cancelled statuses)))
unfolding rollup_run_session_status
rollup-terminal_iff statuses retry_pending h =
    ground (arith, settled-active statuses h, active-split statuses)

every-pass :
    (xs : List TestStatus)
    → All IsRunStatus xs
    → every (λ s. status_eq s pass) xs
      ≡ (all_settled xs && not (has fail xs) && not (has cancelled xs))
every-pass [] h = refl
every-pass (x ∷ xs) h = ground (arith, every-pass xs h.1)

-- A session passes exactly when it has members and every member passed, whether or not a retry is
-- pending.
pub rollup-pass_iff :
    (statuses : List TestStatus) (retry_pending : Bool)
    → All IsRunStatus statuses
    → status_eq (rollup_run_session_status statuses retry_pending) pass
      ≡ (not (length statuses == 0) && every (λ s. status_eq s pass) statuses)
unfolding rollup_run_session_status
rollup-pass_iff statuses retry_pending h =
    ground (arith, settled-active statuses h, active-split statuses, every-pass statuses h)

-- A session fails exactly when all its members are settled, one of them failed, and no retry is
-- pending.
pub rollup-fail_iff :
    (statuses : List TestStatus) (retry_pending : Bool)
    → All IsRunStatus statuses
    → status_eq (rollup_run_session_status statuses retry_pending) fail
      ≡ (all_settled statuses && has fail statuses && not retry_pending)
unfolding rollup_run_session_status
rollup-fail_iff [] retry_pending h = refl
rollup-fail_iff (s ∷ statuses) retry_pending h =
    ground (arith, settled-active (s ∷ statuses) h, active-split (s ∷ statuses))
