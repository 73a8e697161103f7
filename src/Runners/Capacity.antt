-- ===== src/Runners/Capacity.antt =====
-- How many runs a dispatch launches, and how many run afterwards.
use skytest_agent.Prelude.{
  ℕ, zero, suc, ◌-◌, ◌≤◌, min, max, ◌≡◌, refl, Bool, true, not, Option, none, List, [], ◌∷◌, ◌==◌,
  length, update_where, count_where, count_where-update_le, count_where-update_where, arith,
  option_intro, if_intro, and→both, ltb→lt,
}
use skytest_agent.Store.{Db, TestRun, Project}
use skytest_agent.Runners.Claim.{Config, is_active}
use skytest_agent.Runners.ClaimLaws.{HasUniqueIds}
use skytest_agent.Runners.Dispatch.{
  Worker, has_room, next_browser_run, claim_browser_run_with_filter, launch_run, dispatch_up_to,
  dispatch_queued_browser_runs,
}
use skytest_agent.Runners.Changes.Dispatch.{chosen-room}

module _ (config : Config) (now : ℕ) where
  abbrev Within : Db → Db → Type 0
  Within db db' =
      HasUniqueIds db'.runs
      × (count_where is_active db'.runs
          ≤ max (count_where is_active db.runs) config.max_concurrent_runs)

  launched-Within :
      (db : Db) (c : TestRun) (project : Project)
      → HasUniqueIds db.runs
      → has_room config project db ≡ true
      → Within db (record db { runs = update_where (λ r. r.id == c.id) (launch_run now) db.runs })
  unfolding has_room
  launched-Within db c project unique room = (
    (λ id. omega (
      arith,
      count_where-update_where (λ (r : TestRun). r.id == id) (λ r. r.id == c.id) (launch_run now)
          (λ x. refl) db.runs,
      unique id,
    )),
    omega (
      arith,
      count_where-update_le is_active (λ r. r.id == c.id) (launch_run now) db.runs,
      unique c.id,
      ltb→lt (count_where is_active db.runs) config.max_concurrent_runs (and→both _ _ room).0,
    ),
  )

  claim-Within :
      (skipped : TestRun → Bool) (filter : Option ℕ) (db : Db)
      → HasUniqueIds db.runs
      → Within db (claim_browser_run_with_filter config now skipped filter db).0
  unfolding claim_browser_run_with_filter
  claim-Within skipped filter db unique =
      option_intro (λ (x : Db × Option ℕ). Within db x.0)
        (next_browser_run config filter skipped db) (λ _. (unique, omega arith))
        λ c chosen.
          let (project, _, _, room, _) = chosen-room config filter skipped db c chosen in
          launched-Within db c project unique room

  dispatch_up_to-Within :
      (skipped : ℕ → TestRun → Bool) (n : ℕ) (db : Db)
      → HasUniqueIds db.runs
      → Within db (dispatch_up_to config now skipped n db).0
        × (length (dispatch_up_to config now skipped n db).1 ≤ n)
  unfolding dispatch_up_to
  dispatch_up_to-Within skipped zero db unique = ((unique, omega arith), omega arith)
  dispatch_up_to-Within skipped (suc n) db unique =
      let claimed = claim_browser_run_with_filter config now (skipped n) none db in
      let (unique', below) = claim-Within (skipped n) none db unique in
      let ((unique'', below'), few) = dispatch_up_to-Within skipped n claimed.0 unique' in
      let rest = dispatch_up_to config now skipped n claimed.0 in
      option_intro (λ (x : Db × List ℕ). Within db x.0 × (length x.1 ≤ suc n)) claimed.1
        {x = (claimed.0, [])} {f = λ id. (rest.0, id ∷ rest.1)}
        (λ _. ((unique', below), omega arith))
        (λ id _. ((unique'', omega (arith, below, below')), omega (arith, few)))

-- A dispatch launches at most one run, or as many as are asked for, and no more than the process has
-- free slots; afterwards the runs that are preparing or running are within the limit of the installation,
-- or no more than before, if no two runs have the same identifier.
pub dispatch_queued_browser_runs-within :
    (worker : Worker) (config : Config) (now active_count max_dispatches : ℕ)
    (skipped : ℕ → TestRun → Bool) (db : Db)
    → HasUniqueIds db.runs
    → (length
          (dispatch_queued_browser_runs worker config now active_count max_dispatches skipped db).1
        ≤ min (max 1 max_dispatches) (worker.max_local_browser_runs - active_count))
      × (count_where is_active
            (dispatch_queued_browser_runs worker config now active_count max_dispatches skipped
              db).0.runs
          ≤ max (count_where is_active db.runs) config.max_concurrent_runs)
unfolding dispatch_queued_browser_runs
dispatch_queued_browser_runs-within worker config now active_count max_dispatches skipped db
      unique =
    let limit = min (max 1 max_dispatches) (worker.max_local_browser_runs - active_count) in
    if_intro
      (λ (x : Db × List ℕ).
        (length x.1 ≤ limit)
        × (count_where is_active x.0.runs
            ≤ max (count_where is_active db.runs) config.max_concurrent_runs))
      (not worker.enabled) (λ _. (omega arith, omega arith))
      λ _.
        let (within, few) = dispatch_up_to-Within config now skipped limit db unique in
        (few, within.1)
