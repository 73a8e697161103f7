-- ===== src/Runners/Cancel.antt =====
-- apps/web/src/lib/runners/queue-sanitizer.ts, and cancelActiveTestRun of
-- apps/web/src/lib/runtime/cancel-run.ts: queued runs that no runner could execute are failed, and a
-- run is cancelled. The writes of the sweep are a function of the rows that it read.
use skytest_agent.Prelude.{
  ℕ, ltb, Bool, ◌&&◌, none, some, List, [], String, if◌then◌else◌, ◌==◌, is_null, select,
  count_where, update_where, delete_where,
}
use skytest_agent.Status.{queued, fail, cancelled, status_eq, is_run_active_status}
use skytest_agent.Store.{Db, TestRun}
use skytest_agent.Store.Keys.{find_run, is_android}
use skytest_agent.Runners.Events.{RunTerminalEvent, set_case}
use skytest_agent.Runners.Reaper.{is_listed, fail_events}

abbrev pub is_invalid_android : TestRun → Bool
is_invalid_android r =
    status_eq r.status queued
    && (is_null r.deleted_at
        && (is_null r.assigned_runner_id
            && (is_android r.required_capability && is_null r.requested_device_id)))

abbrev pub reject_run : (now : ℕ) → TestRun → TestRun
reject_run now r = record r {
  status = fail;
  error = some "Android run is missing requestedDeviceId; please dispatch the run again.";
  completed_at = some now;
}

-- The writes of `failInvalidQueuedAndroidRuns`: the database, the events, and the number of rows
-- updated.
unfoldable pub reject_invalid : (now : ℕ) → List TestRun → Db → Db × List RunTerminalEvent × ℕ
reject_invalid now invalid db =
    let updated = count_where (is_listed queued invalid) db.runs in
    (
      record db { runs = update_where (is_listed queued invalid) (reject_run now) db.runs },
      if ltb 0 updated then fail_events invalid else [],
      updated,
    )

unfoldable pub fail_invalid_queued_android_runs : (now : ℕ) → Db → Db × List RunTerminalEvent × ℕ
unfolding reject_invalid
fail_invalid_queued_android_runs now db = reject_invalid now (select is_invalid_android db.runs) db

abbrev pub cancel_run : (now : ℕ) → String → TestRun → TestRun
cancel_run now reason r = record r {
  status = cancelled;
  error = some reason;
  completed_at = some now;
  assigned_runner_id = none;
  lease_expires_at = none;
}

abbrev pub is_active_row : ℕ → TestRun → Bool
is_active_row run_id r = r.id == run_id && is_run_active_status r.status

-- The transaction of `cancelActiveTestRun`, for the run that was read before it.
unfoldable pub cancel_read_run : (now : ℕ) → String → TestRun → Db → Db
cancel_read_run now reason read db =
    if count_where (is_active_row read.id) db.runs == 1
    then record db {
      runs = update_where (is_active_row read.id) (cancel_run now reason) db.runs;
      cases = set_case read.test_case_id cancelled db.cases;
      locks = delete_where (λ lock. lock.run_id == read.id) db.locks;
    }
    else db

unfoldable pub cancel_active_test_run : (now : ℕ) → (run_id : ℕ) → String → Db → Db
unfolding cancel_read_run
cancel_active_test_run now run_id reason db = elim (find_run run_id db.runs) [
  | none ↦ db
  | some read ↦
      if is_null read.deleted_at && is_run_active_status read.status
      then cancel_read_run now reason read db
      else db
]
