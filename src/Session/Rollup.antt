-- ===== src/Session/Rollup.antt =====
-- apps/web/src/lib/runtime/run-session-status.ts and test-group-session-plan.ts.
use skytest_agent.Prelude.{
  ℕ, Bool, not, ◌||◌, Option, none, some, List, [], ◌∷◌, if◌then◌else◌, any, every, is_null, length,
  ◌==◌,
}
use skytest_agent.Status.{TestStatus, queued, preparing, running, pass, fail, cancelled, status_eq}
use skytest_agent.Retry.Plan.{FailureMode, is_continue}

unfoldable pub rollup_run_session_status : List TestStatus → (retry_pending : Bool) → TestStatus
rollup_run_session_status statuses retry_pending =
    if length statuses == 0
    then queued
    else if any (λ s. status_eq s preparing || status_eq s running) statuses
    then running
    else if any (λ s. status_eq s queued) statuses
    then if every (λ s. status_eq s queued) statuses then queued else running
    else if any (λ s. status_eq s fail) statuses
    then if retry_pending then running else fail
    else if any (λ s. status_eq s cancelled) statuses
    then if retry_pending then running else cancelled
    else pass

-- One of the targets of a test case, with the login flow that it links to.
pub record Target : Type 0 where
  pub key : ℕ
  pub login_flow_id : Option ℕ
  pub reuse_enabled : Bool

abbrev has_id : ℕ → List ℕ → Bool
has_id id ids = any (λ x. x == id) ids

unfoldable pub resolve_target_session_login_flow_id : Target → List ℕ → Option ℕ
resolve_target_session_login_flow_id target available =
    if is_null target.login_flow_id || not target.reuse_enabled
    then none
    else (elim target.login_flow_id [
      | none ↦ none
      | some id ↦ if has_id id available then some id else none
    ])

-- The pairs of a target's key and the login flow that it continues.
unfoldable pub plan_target_storage_state_bindings : List Target → List ℕ → List (ℕ × ℕ)
unfolding resolve_target_session_login_flow_id
plan_target_storage_state_bindings [] available = []
plan_target_storage_state_bindings (target ∷ targets) available =
    let rest = plan_target_storage_state_bindings targets available in
    elim (resolve_target_session_login_flow_id target available) [
      | none ↦ rest
      | some id ↦ (target.key, id) ∷ rest
    ]

abbrev pub should_stop_after_failure : FailureMode → Bool
should_stop_after_failure mode = not (is_continue mode)
