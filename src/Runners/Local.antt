-- ===== src/Runners/Local.antt =====
-- apps/web/src/lib/runtime/local-browser-runner-lifecycle.ts: what the process that drives a browser
-- writes about its run. `runner` is `options?.runnerId`; every time that one call reads is `now`.
-- Usage records are not modelled, and the dispatch that a settled run triggers is a step of its own.
use skytest_agent.Prelude.{
  ℕ, ltb, ◌&&◌, Bool, false, Option, none, some, List, [], ◌∷◌, String, if◌then◌else◌, ◌==◌, holds,
  is_null, count_where, update_where,
}
use skytest_agent.Status.{TestStatus, pass, fail, cancelled, is_run_in_progress_status}
use skytest_agent.Store.{Db, TestRun}
use skytest_agent.Store.Keys.{find_run}
use skytest_agent.Cancellation.{cancellation_reason, user_single}
use skytest_agent.Session.Service.{
  SessionTerminalEvent, find_session, recompute_run_session_for_member,
}
use skytest_agent.Runners.Claim.{Config, create_lease_expiry}
use skytest_agent.Runners.Events.{RunTerminalEvent, completed, failed, finish_run, set_case}
use skytest_agent.Runners.SessionCancel.{reason_for_kind}

-- `leaseExpiresAt: { gt: now }`
abbrev pub is_after : Option ℕ → ℕ → Bool
is_after none now = false
is_after (some t) now = ltb now t

abbrev pub is_owner : (now : ℕ) → Option ℕ → TestRun → Bool
is_owner now none r = is_null r.assigned_runner_id
is_owner now (some runner_id) r =
    holds r.assigned_runner_id runner_id && is_after r.lease_expires_at now

-- `buildRunOwnershipWhere`
abbrev pub build_run_ownership_where : (now run_id : ℕ) → Option ℕ → TestRun → Bool
build_run_ownership_where now run_id runner r =
    r.id == run_id && (is_run_in_progress_status r.status && is_owner now runner r)

unfoldable pub run_still_active : (now run_id : ℕ) → Option ℕ → Db → Bool
run_still_active now run_id runner db =
    ltb 0 (count_where (build_run_ownership_where now run_id runner) db.runs)

abbrev pub report_status : Config → (now : ℕ) → Option ℕ → TestStatus → TestRun → TestRun
report_status config now none status r = record r { status = status }
report_status config now (some _) status r = record r {
  status = status;
  lease_expires_at = some (create_lease_expiry config now);
}

-- The write of `updateRunStatusWithOwnership`.
unfoldable pub write_status : Config → (now run_id : ℕ) → TestStatus → Option ℕ → Db → Db
write_status config now run_id status runner db = record db {
  runs =
      update_where (build_run_ownership_where now run_id runner)
        (report_status config now runner status) db.runs;
}

unfoldable pub update_run_status_with_ownership :
    Config → (now run_id : ℕ) → TestStatus → Option ℕ → Db → Db × List SessionTerminalEvent
unfolding write_status recompute_run_session_for_member
update_run_status_with_ownership config now run_id status runner db =
    let written = write_status config now run_id status runner db in
    if ltb 0 (count_where (build_run_ownership_where now run_id runner) db.runs)
    then recompute_run_session_for_member now run_id written
    else (written, [])

-- The writes that settle a run, shared by `completeRun`, `failRun` and `cancelRun`.
unfoldable pub settle_local_run :
    (now run_id test_case_id : ℕ)
    → TestStatus
    → (TestRun → TestRun)
    → Option ℕ
    → Db
    → Db × List RunTerminalEvent
settle_local_run now run_id test_case_id status finish runner db =
    let owned = build_run_ownership_where now run_id runner in
    if ltb 0 (count_where owned db.runs)
    then (
      record db {
        runs = update_where owned finish db.runs;
        cases = set_case test_case_id status db.cases;
      },
      record { run_id = run_id; status = status; test_case_id = test_case_id } ∷ [],
    )
    else (record db { runs = update_where owned finish db.runs }, [])

unfoldable pub complete_run :
    (now run_id test_case_id : ℕ)
    → (result : Option String) → Option ℕ
    → Db
    → Db × List RunTerminalEvent
unfolding settle_local_run finish_run
complete_run now run_id test_case_id result runner db =
    settle_local_run now run_id test_case_id pass (finish_run now (completed result)) runner db

unfoldable pub fail_run :
    (now run_id test_case_id : ℕ)
    → (error : String) → (result : Option String) → Option ℕ
    → Db
    → Db × List RunTerminalEvent
unfolding settle_local_run finish_run
fail_run now run_id test_case_id error result runner db =
    settle_local_run now run_id test_case_id fail (finish_run now (failed error result)) runner db

-- The terminal event of this one names no test case.
unfoldable pub fail_run_without_test_case :
    (now run_id : ℕ) → (error : String) → Option ℕ → Db → Db × List ℕ
unfolding finish_run
fail_run_without_test_case now run_id error runner db =
    let owned = build_run_ownership_where now run_id runner in
    (
      record db { runs = update_where owned (finish_run now (failed error none)) db.runs },
      if ltb 0 (count_where owned db.runs) then run_id ∷ [] else [],
    )

abbrev pub stop_run : (now : ℕ) → (reason : String) → TestRun → TestRun
stop_run now reason r = record r {
  status = cancelled;
  error = some reason;
  completed_at = some now;
  assigned_runner_id = none;
  lease_expires_at = none;
}

-- `owningRun?.runSession?.kind`
abbrev pub owning_reason : (run_id : ℕ) → Db → String
owning_reason run_id db = elim (find_run run_id db.runs) [
  | none ↦ cancellation_reason user_single
  | some r ↦ (elim r.run_session_id [
    | none ↦ cancellation_reason user_single
    | some session_id ↦ reason_for_kind (find_session session_id db.sessions)
  ])
]

unfoldable pub cancel_local_run :
    (now run_id test_case_id : ℕ) → Option ℕ → Db → Db × List RunTerminalEvent
unfolding settle_local_run
cancel_local_run now run_id test_case_id runner db =
    settle_local_run now run_id test_case_id cancelled (stop_run now (owning_reason run_id db))
      runner db
