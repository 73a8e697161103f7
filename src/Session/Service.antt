-- ===== src/Session/Service.antt =====
-- apps/web/src/lib/runtime/run-session-service.ts: the row of a session is kept in step with its
-- members. An operation takes the time that `new Date()` reads, and returns the database and the
-- session-terminal events that it emits. `resolveLoginFlowIds` and the coalescing of concurrent
-- recomputations are not modelled: a recomputation is one step here.
use skytest_agent.Prelude.{
  ℕ, ◌+◌, ltb, Bool, true, false, not, ◌&&◌, ◌||◌, Option, none, some, List, [], ◌∷◌, ◌++◌, String,
  if◌then◌else◌, ◌==◌, is_null, select, count_where, find_first, update_where,
}
use skytest_agent.Status.{
  TestStatus, queued, fail, draft, status_eq, is_run_terminal_status, is_run_active_status,
}
use skytest_agent.Retry.Plan.{
  AttemptRecord, RetryPolicy, no_retry, retry_policy_runs_retries, resolve_latest_attempts,
}
use skytest_agent.Retry.Runner.{load_session_attempts, in_session}
use skytest_agent.Store.{Db, TestRun, RunSession, SessionKind, TestCase}
use skytest_agent.Store.Keys.{find_run}
use skytest_agent.Session.Rollup.{rollup_run_session_status}

pub record SessionTerminalEvent : Type 0 where
  pub session_id : ℕ
  pub status : TestStatus
  pub kind : SessionKind

abbrev pub find_session : ℕ → List RunSession → Option RunSession
find_session id sessions = find_first (λ s. s.id == id) sessions

unfoldable pub create_run_session : (id : ℕ) → SessionKind → Option RetryPolicy → Db → Db
create_run_session id kind policy db =
    let retry_policy : RetryPolicy = elim policy [ none ↦ no_retry | some p ↦ p ] in
    record db {
      sessions =
          db.sessions
          ++ record {
            id = id;
            kind = kind;
            status = queued;
            retry_policy = retry_policy;
            retry_pending = retry_policy_runs_retries retry_policy;
            started_at = none;
            completed_at = none;
          }
            ∷ [];
    }

-- `STARTED_STATUSES.has`
abbrev is_started_status : TestStatus → Bool
is_started_status draft = false
is_started_status queued = false
is_started_status _ = true

abbrev pub statuses_of : List AttemptRecord → List TestStatus
statuses_of [] = []
statuses_of (a ∷ xs) = a.status ∷ statuses_of xs

-- The status that a session's members give it.
unfoldable pub next_status : RunSession → Db → TestStatus
unfolding load_session_attempts resolve_latest_attempts rollup_run_session_status
next_status session db =
    rollup_run_session_status
      (statuses_of (resolve_latest_attempts (load_session_attempts session.id db.runs)))
      session.retry_pending

-- `where: { id, status: { notIn: RUN_TERMINAL_STATUSES } }`
abbrev pub is_open_session : ℕ → RunSession → Bool
is_open_session id s = s.id == id && not (is_run_terminal_status s.status)

abbrev started_by : (next : TestStatus) → (now : ℕ) → (read : RunSession) → RunSession → Option ℕ
started_by next now read s =
    if not (is_null read.started_at) || not (is_started_status next) then s.started_at else some now

abbrev pub settle : TestStatus → ℕ → RunSession → RunSession → RunSession
settle next now read s = record s {
  status = next;
  started_at = started_by next now read s;
  completed_at = some now;
}

abbrev pub advance : TestStatus → ℕ → RunSession → RunSession → RunSession
advance next now read s = record s {
  status = next;
  started_at = started_by next now read s;
  completed_at = none;
}

abbrev pub terminal_event : RunSession → TestStatus → SessionTerminalEvent
terminal_event session next = record { session_id = session.id; status = next; kind = session.kind }

-- The part of `performRunSessionRecompute` behind the read of the session.
unfoldable pub recompute_session : ℕ → RunSession → Db → Db × List SessionTerminalEvent
recompute_session now session db =
    let next = next_status session db in
    if status_eq next session.status
    then (db, [])
    else if is_run_terminal_status next
    then (
      record db {
        sessions = update_where (is_open_session session.id) (settle next now session) db.sessions;
      },
      if count_where (is_open_session session.id) db.sessions == 1
          then terminal_event session next ∷ []
          else [],
    )
    else (
      record db {
        sessions = update_where (is_open_session session.id) (advance next now session) db.sessions;
      },
      [],
    )

unfoldable pub recompute_run_session_status : ℕ → ℕ → Db → Db × List SessionTerminalEvent
unfolding recompute_session
recompute_run_session_status now session_id db = elim (find_session session_id db.sessions) [
  | none ↦ (db, [])
  | some session ↦ recompute_session now session db
]

unfoldable pub recompute_run_session_for_member : ℕ → ℕ → Db → Db × List SessionTerminalEvent
unfolding recompute_run_session_status
recompute_run_session_for_member now run_id db = elim (find_run run_id db.runs) [
  | none ↦ (db, [])
  | some run ↦ (elim run.run_session_id [
    | none ↦ (db, [])
    | some session_id ↦ recompute_run_session_status now session_id db
  ])
]

abbrev pub is_held : ℕ → RunSession → Bool
is_held session_id s = s.id == session_id && s.retry_pending

unfoldable pub release_session_retry_hold : ℕ → Db → Db × Bool
release_session_retry_hold session_id db = (
  record db {
    sessions =
        update_where (is_held session_id) (λ s. record s { retry_pending = false }) db.sessions;
  },
  ltb 0 (count_where (is_held session_id) db.sessions),
)

abbrev pub is_active_run : ℕ → TestRun → Bool
is_active_run id r = r.id == id && is_run_active_status r.status

-- The outcome that a stranded member is given.
unfoldable pub abort_run : (now : ℕ) → (reason result : String) → TestRun → TestRun
abort_run now reason result r = record r {
  status = fail;
  error = some reason;
  result = some result;
  completed_at = some now;
  assigned_runner_id = none;
  lease_expires_at = none;
}

abbrev set_case_status : ℕ → TestStatus → List TestCase → List TestCase
set_case_status id status cases =
    update_where (λ c. c.id == id) (λ c. record c { status = status }) cases

module _ (now : ℕ) (reason result : String) where
  -- The loop over the active members: the database, and how many were settled.
  unfoldable pub fail_members : List TestRun → Db → Db × ℕ
  unfolding abort_run
  fail_members [] db = (db, 0)
  fail_members (member ∷ members) db =
      let settled = ltb 0 (count_where (is_active_run member.id) db.runs) in
      let aborted = record db {
        runs = update_where (is_active_run member.id) (abort_run now reason result) db.runs;
        cases = if settled then set_case_status member.test_case_id fail db.cases else db.cases;
      } in
      let rest = fail_members members aborted in (rest.0, (if settled then 1 else 0) + rest.1)

  unfoldable pub fail_active_session_members :
      ℕ → Db → record { db : Db; events : List SessionTerminalEvent; settled : ℕ; released : Bool }
  unfolding fail_members release_session_retry_hold recompute_run_session_status
  fail_active_session_members session_id db =
      let active = select (λ r. in_session session_id r && is_run_active_status r.status) db.runs in
      let held = release_session_retry_hold session_id db in
      let failed = fail_members active held.0 in
      let recomputed = recompute_run_session_status now session_id failed.0 in
      if ltb 0 failed.1 || held.1
      then record {
        db = recomputed.0;
        events = recomputed.1;
        settled = failed.1;
        released = held.1;
      }
      else record { db = failed.0; events = []; settled = failed.1; released = held.1 }
