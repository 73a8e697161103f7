-- ===== src/Tests/Sessions.antt =====
-- Sessions: aggregate statuses, and a recomputation before and after a session is settled.
use skytest_agent.Prelude.{
  none, any, ◌≢◌, true, false, not, ◌&&◌, ◌||◌, ◌≡◌, refl, some, List, [], ◌∷◌, every, length, ◌==◌,
  if◌then◌else◌, All, arith,
}
use skytest_agent.Status.{
  draft, TestStatus, pass, fail, cancelled, status_eq, is_run_terminal_status,
}
use skytest_agent.Store.{Db, RunSession}
use skytest_agent.Session.Rollup.{rollup_run_session_status}
use skytest_agent.Session.RollupLaws.{
  has, all_settled, IsRunStatus, rollup-terminal_iff, rollup-pass_iff, rollup-fail_iff,
}
use skytest_agent.Session.Service.{
  fail_active_session_members, find_session, recompute_run_session_status,
}
use skytest_agent.Session.Settled.{recompute-settled, recompute-open}
use skytest_agent.Session.Aborted.{is_active_member, fail_active_session_members-none_active}
use skytest_agent.Session.Stranded.{fail_active_session_members-settles}
use skytest_agent.Runners.ClaimLaws.{HasUniqueIds}
use skytest_agent.Runners.SessionCancel.{cancel_active_run_session}
use skytest_agent.Runners.Stopped.{is_live_member, cancel_active_run_session-none_live}
use skytest_agent.Store.{group}
use skytest_agent.Session.Service.{statuses_of}
use skytest_agent.Retry.Plan.{resolve_latest_attempts}
use skytest_agent.Retry.Runner.{load_session_attempts}
use skytest_agent.Tests.Data.{rows, session_40}

abbrev mixed : List TestStatus
mixed = pass ∷ fail ∷ cancelled ∷ []

mixed-IsRunStatus : All IsRunStatus mixed
mixed-IsRunStatus = ground arith

rollup-terminal_iff_example : is_run_terminal_status (rollup_run_session_status mixed false) ≡ (
    not (length mixed == 0)
    && all_settled mixed
    && not (false && (has fail mixed || has cancelled mixed)))
rollup-terminal_iff_example = rollup-terminal_iff mixed false mixed-IsRunStatus

rollup-pass_iff_example :
    status_eq (rollup_run_session_status mixed true) pass
    ≡ (not (length mixed == 0) && every (λ s. status_eq s pass) mixed)
rollup-pass_iff_example = rollup-pass_iff mixed true mixed-IsRunStatus

rollup-fail_iff_example :
    status_eq (rollup_run_session_status mixed false) fail
    ≡ (all_settled mixed && has fail mixed && not false)
rollup-fail_iff_example = rollup-fail_iff mixed false mixed-IsRunStatus

abbrev settled_session : RunSession
settled_session = record session_40 { status = cancelled }

abbrev settled_rows : Db
settled_rows = record rows { sessions = settled_session ∷ [] }

recompute-settled_example : recompute_run_session_status 5 40 settled_rows ≡ (settled_rows, [])
recompute-settled_example =
    recompute-settled 5 settled_rows settled_session (record { found = refl; once = refl }) refl

recompute-open_example :
    (s' : RunSession) × (find_session 40 (recompute_run_session_status 5 40 rows).0.sessions
      ≡ some s')
    × (s'.status
        ≡ rollup_run_session_status
            (statuses_of (resolve_latest_attempts (load_session_attempts 40 rows.runs)))
            false)
    × ((recompute_run_session_status 5 40 rows).1 ≡ (
        if is_run_terminal_status s'.status
        then record { session_id = 40; status = s'.status; kind = group } ∷ []
        else []))
recompute-open_example =
    recompute-open 5 rows session_40 (record { found = refl; once = refl }) refl

fail_active_session_members-none_active_example :
    any (is_active_member 40) (fail_active_session_members 5 "gone" "{}" 40 rows).db.runs ≡ false
fail_active_session_members-none_active_example =
    fail_active_session_members-none_active 5 "gone" "{}" 40 rows

abbrev held_session : RunSession
held_session = record session_40 { retry_pending = true }

abbrev held_rows : Db
held_rows = record rows { sessions = held_session ∷ [] }

rows-statuses : All (λ r. r.status ≢ draft) held_rows.runs
rows-statuses = ground arith

fail_active_session_members-settles_example :
    (s' : RunSession) × (find_session 40
        (fail_active_session_members 5 "gone" "{}" 40 held_rows).db.sessions
      ≡ some s')
    × (is_run_terminal_status s'.status ≡ true)
fail_active_session_members-settles_example =
    fail_active_session_members-settles 5 "gone" "{}" held_rows held_session
      (record { found = refl; once = refl }) refl refl refl rows-statuses

rows_unique : HasUniqueIds rows.runs
rows_unique id = ground arith

cancel_active_run_session-none_live_example :
    any (is_live_member 40) (cancel_active_run_session 5 40 none rows).0.runs ≡ false
cancel_active_run_session-none_live_example =
    cancel_active_run_session-none_live 5 40 none rows session_40 rows_unique refl
