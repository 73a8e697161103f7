-- ===== src/Runners/Reaper.antt =====
-- apps/web/src/lib/runners/lease-reaper.ts: the sweeps over runs and sessions that lost what drives
-- them. A sweep first reads the rows (`expired`, `stale`) and then writes; the writes stand as
-- functions of the rows that were read, since others may write in between.
use skytest_agent.Prelude.{
  ℕ, suc, ◌+◌, ◌-◌, ltb, leb, Bool, false, not, ◌&&◌, ◌||◌, Option, none, some, List, [], ◌∷◌, ◌++◌,
  String, if◌then◌else◌, ◌==◌, before, is_null, any, select, length, update_where, delete_where,
}
use skytest_agent.Status.{
  TestStatus, queued, preparing, running, fail, status_eq, is_run_in_progress_status,
  is_run_active_status, is_run_terminal_status,
}
use skytest_agent.Store.{Db, TestRun, TestCase, AndroidResourceLock, RunSession}
use skytest_agent.Store.Keys.{is_member, is_browser}
use skytest_agent.Runners.Events.{RunTerminalEvent}
use skytest_agent.Retry.Runner.{in_session}
use skytest_agent.Session.Service.{SessionTerminalEvent, fail_active_session_members}

pub record Counts : Type 0 where
  pub recovered_runs : ℕ
  pub requeued_runs : ℕ
  pub failed_runs : ℕ

abbrev pub run_ids : List TestRun → List ℕ
run_ids [] = []
run_ids (r ∷ rs) = r.id ∷ run_ids rs

abbrev case_ids : List TestRun → List ℕ
case_ids [] = []
case_ids (r ∷ rs) = r.test_case_id ∷ case_ids rs

-- `testCase.updateMany({ where: { id: { in: ids } } })`
abbrev set_cases : List ℕ → TestStatus → List TestCase → List TestCase
set_cases ids status cases =
    update_where (λ c. is_member c.id ids) (λ c. record c { status = status }) cases

abbrev pub of_status : TestStatus → List TestRun → List TestRun
of_status s runs = select (λ r. status_eq r.status s) runs

abbrev pub fail_events : List TestRun → List RunTerminalEvent
fail_events [] = []
fail_events (r ∷ rs) =
    record { run_id = r.id; status = fail; test_case_id = r.test_case_id } ∷ fail_events rs

-- A lock is dead when its lease is over, or its run deleted, or neither preparing nor running.
unfoldable pub is_dead_lock : (now : ℕ) → List TestRun → AndroidResourceLock → Bool
is_dead_lock now runs lock =
    leb lock.lease_expires_at now
    || any
        (λ r.
          r.id == lock.run_id
          && (not (is_null r.deleted_at) || not (is_run_in_progress_status r.status)))
        runs

unfoldable pub reap_locks : (now : ℕ) → Db → Db
unfolding is_dead_lock
reap_locks now db = record db { locks = delete_where (is_dead_lock now db.runs) db.locks }

unfoldable pub is_expired_run : (now : ℕ) → TestRun → Bool
is_expired_run now r =
    is_run_in_progress_status r.status
    && (is_null r.deleted_at
        && (before r.lease_expires_at now && not (is_null r.assigned_runner_id)))

abbrev pub is_listed : TestStatus → List TestRun → TestRun → Bool
is_listed status read r = is_member r.id (run_ids read) && status_eq r.status status

abbrev pub requeue_run : String → TestRun → TestRun
requeue_run error r = record r {
  status = queued;
  error = some error;
  assigned_runner_id = none;
  lease_expires_at = none;
  started_at = none;
}

abbrev pub expire_run : (now : ℕ) → String → TestRun → TestRun
expire_run now error r = record r {
  status = fail;
  error = some error;
  assigned_runner_id = none;
  lease_expires_at = none;
  completed_at = some now;
}

-- The writes of `reapExpiredRunnerLeases` behind the read of the expired runs.
unfoldable pub recover_expired : (now : ℕ) → List TestRun → Db → Db × List RunTerminalEvent × Counts
recover_expired now expired db =
    let preparing_runs = of_status preparing expired in
    let running_runs = of_status running expired in
    let requeued =
      update_where (is_listed preparing preparing_runs)
        (requeue_run "Runner lease expired during preparation; run re-queued") db.runs in
    (
      record db {
        runs =
            update_where (is_listed running running_runs)
              (expire_run now "Runner lease expired before completion") requeued;
        cases =
            set_cases (case_ids running_runs) fail
              (set_cases (case_ids preparing_runs) queued db.cases);
      },
      fail_events running_runs,
      record {
        recovered_runs = length expired;
        requeued_runs = length preparing_runs;
        failed_runs = length running_runs;
      },
    )

unfoldable pub reap_expired_runner_leases : (now : ℕ) → Db → Db × List RunTerminalEvent × Counts
unfolding reap_locks is_expired_run recover_expired
reap_expired_runner_leases now db =
    let swept = reap_locks now db in
    recover_expired now (select (is_expired_run now) swept.runs) swept

unfoldable pub is_stale_run : (stale_before : ℕ) → TestRun → Bool
is_stale_run stale_before r =
    is_run_in_progress_status r.status
    && (is_null r.deleted_at
        && (is_null r.assigned_runner_id
            && (is_browser r.required_capability
                && (before r.last_event_at stale_before
                    || is_null r.last_event_at && before r.started_at stale_before))))

-- The guards of the writes, which repeat those of the read.
abbrev pub is_local_browser : TestRun → Bool
is_local_browser r = is_null r.assigned_runner_id && is_browser r.required_capability

abbrev pub requeue_local : TestRun → TestRun
requeue_local r = record r {
  status = queued;
  error = some "Local browser run became stale during preparation; run re-queued";
  started_at = none;
}

abbrev pub fail_local : (now : ℕ) → TestRun → TestRun
fail_local now r = record r {
  status = fail;
  error = some "Local browser run became stale before completion";
  completed_at = some now;
}

-- The writes of `reapStaleLocalBrowserRuns` behind the read of the stale runs.
unfoldable pub recover_stale : (now : ℕ) → List TestRun → Db → Db × List RunTerminalEvent × Counts
recover_stale now stale db =
    let preparing_runs = of_status preparing stale in
    let running_runs = of_status running stale in
    let requeued =
      update_where (λ r. is_listed preparing preparing_runs r && is_local_browser r) requeue_local
        db.runs in
    (
      record db {
        runs =
            update_where (λ r. is_listed running running_runs r && is_local_browser r)
              (fail_local now) requeued;
        cases =
            set_cases (case_ids running_runs) fail
              (set_cases (case_ids preparing_runs) queued db.cases);
      },
      fail_events running_runs,
      record {
        recovered_runs = length stale;
        requeued_runs = length preparing_runs;
        failed_runs = length running_runs;
      },
    )

unfoldable pub reap_stale_local_browser_runs :
    (now stale_timeout : ℕ) → Db → Db × List RunTerminalEvent × Counts
unfolding is_stale_run recover_stale
reap_stale_local_browser_runs now stale_timeout db =
    recover_stale now (select (is_stale_run (now - stale_timeout)) db.runs) db

-- `member.lastEventAt ?? member.startedAt`
abbrev activity_of : TestRun → Option ℕ
activity_of r = elim r.last_event_at [ none ↦ r.started_at | some t ↦ some t ]

abbrev is_recent : (stale_before : ℕ) → Option ℕ → Bool
is_recent stale_before none = false
is_recent stale_before (some t) = leb stale_before t

abbrev pub is_live_session : Db → RunSession → Bool
is_live_session db s =
    not (is_run_terminal_status s.status)
    && (not (is_null s.started_at)
        && (any (λ r. in_session s.id r && is_run_active_status r.status) db.runs
            || s.retry_pending))

unfoldable pub has_recent_activity : (stale_before : ℕ) → Db → RunSession → Bool
has_recent_activity stale_before db s =
    any (λ r. in_session s.id r && is_recent stale_before (activity_of r)) db.runs

module _ (now stale_timeout : ℕ) (reason result : String) where
  -- The loop over the candidates that were read from `read`.
  unfoldable pub recover_sessions :
      Db → List RunSession → Db → Db × List SessionTerminalEvent × ℕ × ℕ
  unfolding has_recent_activity fail_active_session_members
  recover_sessions read [] db = (db, [], 0, 0)
  recover_sessions read (s ∷ sessions) db =
      let outcome = fail_active_session_members now reason result s.id db in
      let skipped = recover_sessions read sessions db in
      let rest = recover_sessions read sessions outcome.db in
      if has_recent_activity (now - stale_timeout) read s
      then skipped
      else if ltb 0 outcome.settled || outcome.released
      then (rest.0, outcome.events ++ rest.1, suc rest.2, outcome.settled + rest.3)
      else rest

  unfoldable pub reap_stranded_run_sessions : Db → Db × List SessionTerminalEvent × ℕ × ℕ
  unfolding recover_sessions
  reap_stranded_run_sessions db = recover_sessions db (select (is_live_session db) db.sessions) db
