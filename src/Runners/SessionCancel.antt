-- ===== src/Runners/SessionCancel.antt =====
-- apps/web/src/lib/runtime/cancel-run.ts, cancelActiveRunSession: every active member of a session is
-- cancelled. Aborting the local browsers is an effect outside the tables.
use skytest_agent.Prelude.{
  ℕ, ◌+◌, Bool, false, Option, none, some, List, [], ◌∷◌, String, if◌then◌else◌, ◌==◌, is_null, not,
  select, count_where,
}
use skytest_agent.Status.{TestStatus, cancelled, status_eq, is_run_active_status}
use skytest_agent.Store.{Db, TestRun, RunSession, single, group}
use skytest_agent.Store.Keys.{find_run}
use skytest_agent.Cancellation.{cancellation_reason, user_single, user_group}
use skytest_agent.Retry.Runner.{in_session}
use skytest_agent.Session.Service.{
  SessionTerminalEvent, find_session, release_session_retry_hold, recompute_run_session_status,
}
use skytest_agent.Runners.Cancel.{is_active_row, cancel_active_test_run}

abbrev pub status_of : TestStatus → Option TestRun → TestStatus
status_of otherwise none = otherwise
status_of otherwise (some r) = r.status

-- `finalStatus` of the result of `cancelActiveTestRun`, if it has one.
unfoldable pub final_status_of_cancel : (run_id : ℕ) → Db → Option TestStatus
final_status_of_cancel run_id db = elim (find_run run_id db.runs) [
  | none ↦ none
  | some read ↦
      if not (is_null read.deleted_at)
      then none
      else if not (is_run_active_status read.status)
      then some read.status
      else if count_where (is_active_row read.id) db.runs == 1
      then some cancelled
      else some (status_of read.status (find_run run_id db.runs))
]

-- `result?.cancelled`
abbrev pub was_cancelled : Option TestStatus → Bool
was_cancelled none = false
was_cancelled (some s) = status_eq s cancelled

abbrev pub reason_for_kind : Option RunSession → String
reason_for_kind none = cancellation_reason user_single
reason_for_kind (some s) = elim s.kind [
  | single ↦ cancellation_reason user_single
  | group ↦ cancellation_reason user_group
]

abbrev pub given_or : Option String → String → String
given_or none otherwise = otherwise
given_or (some reason) otherwise = reason

-- The loop over the members that were read: the database, and how many were cancelled.
unfoldable pub cancel_members : (now : ℕ) → String → List TestRun → Db → Db × ℕ
unfolding cancel_active_test_run final_status_of_cancel
cancel_members now reason [] db = (db, 0)
cancel_members now reason (member ∷ members) db =
    let skipped = cancel_members now reason members db in
    let rest = cancel_members now reason members (cancel_active_test_run now member.id reason db) in
    if not (is_run_active_status member.status)
    then skipped
    else (rest.0, (if was_cancelled (final_status_of_cancel member.id db) then 1 else 0) + rest.1)

-- `session?.memberRuns ?? []`
abbrev pub member_runs : ℕ → Option RunSession → Db → List TestRun
member_runs session_id none db = []
member_runs session_id (some _) db = select (in_session session_id) db.runs

unfoldable pub cancel_active_run_session :
    (now : ℕ)
    → (session_id : ℕ) → (reason_override : Option String) → Db
    → Db × List SessionTerminalEvent × ℕ
unfolding cancel_members release_session_retry_hold recompute_run_session_status
cancel_active_run_session now session_id reason_override db =
    let session = find_session session_id db.sessions in
    let reason = given_or reason_override (reason_for_kind session) in
    let stopped = cancel_members now reason (member_runs session_id session db) db in
    let released = (release_session_retry_hold session_id stopped.0).0 in
    let (db', events) = recompute_run_session_status now session_id released in
    (db', events, stopped.1)
