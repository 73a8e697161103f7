-- ===== src/Runners/Dispatch.antt =====
-- apps/web/src/lib/runtime/browser-run-dispatcher.ts: queued browser runs are taken for the browsers of
-- this process. The dispatch lock makes a call one step; `now` is the time of the database, `skipped`
-- says which rows another transaction has locked. A call returns the runs that it launches.
use skytest_agent.Prelude.{
  ℕ, zero, suc, ◌-◌, min, max, ltb, Bool, true, false, not, ◌&&◌, ◌||◌, Option, none, some, List,
  [], ◌∷◌, if◌then◌else◌, ◌==◌, holds, is_null, any, select, count_where, find_first, update_where,
  sort_by,
}
use skytest_agent.Status.{queued, preparing, status_eq, is_run_terminal_status}
use skytest_agent.Store.{Db, TestRun, Project}
use skytest_agent.Store.Keys.{is_browser}
use skytest_agent.Runners.Claim.{Config, is_active, project_of, project_is}

-- The part of the configuration that the dispatcher reads for itself.
pub record Worker : Type 0 where
  pub enabled : Bool
  pub max_local_browser_runs : ℕ

-- `settledMember."runSessionId" = tr."runSessionId"`
abbrev pub same_session : TestRun → TestRun → Bool
same_session r x = elim r.run_session_id [
  | none ↦ false
  | some session_id ↦ holds x.run_session_id session_id
]

-- The first member of its session.
abbrev pub is_leader : TestRun → Bool
is_leader r = is_null r.session_position || holds r.session_position 0

unfoldable pub is_dispatchable : Db → TestRun → Bool
is_dispatchable db r =
    status_eq r.status queued
    && (is_null r.deleted_at
        && (is_null r.assigned_runner_id
            && (is_browser r.required_capability
                && (is_null r.required_runner_kind
                    && (is_leader r
                        && not (
                            any (λ x. same_session r x && is_run_terminal_status x.status)
                              db.runs))))))

-- The limits of the installation and of the project.
unfoldable pub has_room : Config → Project → Db → Bool
has_room config project db =
    ltb (count_where is_active db.runs) config.max_concurrent_runs
    && ltb (count_where (λ x. is_active x && project_is db project.id x) db.runs)
        (min project.max_concurrent_runs config.max_project_concurrent_runs)

-- `filterSql`: `TRUE`, or one run.
abbrev pub passes : Option ℕ → TestRun → Bool
passes none r = true
passes (some run_id) r = r.id == run_id

unfoldable pub is_browser_candidate : Config → Option ℕ → Db → TestRun → Bool
unfolding is_dispatchable has_room
is_browser_candidate config filter db r = elim (project_of db r) [
  | none ↦ false
  | some project ↦ is_dispatchable db r && (has_room config project db && passes filter r)
]

unfoldable pub next_browser_run : Config → Option ℕ → (TestRun → Bool) → Db → Option TestRun
unfolding is_browser_candidate
next_browser_run config filter skipped db =
    find_first (λ _. true)
      (sort_by (λ r. r.created_at)
        (select (λ r. is_browser_candidate config filter db r && not (skipped r)) db.runs))

-- `COALESCE(tr."startedAt", NOW())`
abbrev pub first_or : Option ℕ → ℕ → Option ℕ
first_or none now = some now
first_or (some t) now = some t

abbrev pub launch_run : (now : ℕ) → TestRun → TestRun
launch_run now r = record r { status = preparing; started_at = first_or r.started_at now }

unfoldable pub claim_browser_run_with_filter :
    Config → (now : ℕ) → (TestRun → Bool) → Option ℕ → Db → Db × Option ℕ
unfolding next_browser_run
claim_browser_run_with_filter config now skipped filter db =
    elim (next_browser_run config filter skipped db) [
      | none ↦ (db, none)
      | some candidate ↦ (
        record db { runs = update_where (λ r. r.id == candidate.id) (launch_run now) db.runs },
        some candidate.id,
      )
    ]

-- One call of `dispatchBrowserRun` (`some run_id`) or of `dispatchNextQueuedBrowserRun` (`none`), with
-- `active_count` browsers at work in this process.
unfoldable pub dispatch_one :
    Worker → Config → (now active_count : ℕ) → (TestRun → Bool) → Option ℕ → Db → Db × Option ℕ
unfolding claim_browser_run_with_filter
dispatch_one worker config now active_count skipped filter db =
    if not worker.enabled
    then (db, none)
    else if not (ltb active_count worker.max_local_browser_runs)
    then (db, none)
    else claim_browser_run_with_filter config now skipped filter db

-- The loop of `dispatchQueuedBrowserRuns`; each turn has its own locked rows.
unfoldable pub dispatch_up_to :
    Config → (now : ℕ) → (skipped : ℕ → TestRun → Bool) → (dispatch_limit : ℕ) → Db → Db × List ℕ
unfolding claim_browser_run_with_filter
dispatch_up_to config now skipped zero db = (db, [])
dispatch_up_to config now skipped (suc dispatch_limit) db =
    let claimed = claim_browser_run_with_filter config now (skipped dispatch_limit) none db in
    let rest = dispatch_up_to config now skipped dispatch_limit claimed.0 in
    elim claimed.1 [ none ↦ (claimed.0, []) | some run_id ↦ (rest.0, run_id ∷ rest.1) ]

unfoldable pub dispatch_queued_browser_runs :
    Worker
    → Config
    → (now active_count max_dispatches : ℕ) → (skipped : ℕ → TestRun → Bool) → Db
    → Db × List ℕ
unfolding dispatch_up_to
dispatch_queued_browser_runs worker config now active_count max_dispatches skipped db =
    if not worker.enabled
    then (db, [])
    else dispatch_up_to config now skipped
        (min (max 1 max_dispatches) (worker.max_local_browser_runs - active_count)) db
