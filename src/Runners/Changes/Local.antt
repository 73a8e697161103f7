-- ===== src/Runners/Changes/Local.antt =====
-- What the driver of a local browser does to its run.
use skytest_agent.Prelude.{
  ℕ, ◌≡◌, refl, true, ltb, Option, none, some, List, String, count_where, arith, if_intro,
}
use skytest_agent.Status.{TestStatus, pass, fail, cancelled, is_run_in_progress_status}
use skytest_agent.Store.{Db, TestRun}
use skytest_agent.Runners.Claim.{Config}
use skytest_agent.Runners.Events.{RunTerminalEvent, completed, failed, finish_run}
use skytest_agent.Runners.Local.{
  build_run_ownership_where, write_status, settle_local_run, complete_run, fail_run,
  fail_run_without_test_case, stop_run, cancel_local_run, owning_reason,
}
use skytest_agent.Runners.Evolve.{report, complete, give_up, stop, Evolved, update_where-Evolves}
use skytest_agent.Runners.Changes.{Keeps, rewritten, in_progress-not_terminal, in_progress-active}

owned-in_progress :
    (now run_id : ℕ) (runner : Option ℕ) (r : TestRun)
    → build_run_ownership_where now run_id runner r ≡ true
    → is_run_in_progress_status r.status ≡ true
owned-in_progress now run_id runner r h = ground arith

-- An in-progress run may report another status in progress.
pub write_status-Keeps :
    (config : Config) (now run_id : ℕ) (status : TestStatus) (runner : Option ℕ) (db : Db)
    → is_run_in_progress_status status ≡ true
    → Keeps db (write_status config now run_id status runner db)
unfolding write_status
write_status-Keeps config now run_id status none db p =
    update_where-Evolves _ _ db.runs (λ r. refl)
      λ id r _ h.
        let q = owned-in_progress now run_id none r h in
        rewritten r _ refl refl (in_progress-not_terminal _ q) (report q p)
write_status-Keeps config now run_id status (some runner_id) db p =
    update_where-Evolves _ _ db.runs (λ r. refl)
      λ id r _ h.
        let q = owned-in_progress now run_id (some runner_id) r h in
        rewritten r _ refl refl (in_progress-not_terminal _ q) (report q p)

module _ (now run_id : ℕ) (runner : Option ℕ) (db : Db) where
  settle_local_run-Keeps :
      (test_case_id : ℕ) (status : TestStatus) (finish : TestRun → TestRun)
      → ((r : TestRun) → (finish r).id ≡ r.id)
      → ((r : TestRun) → is_run_in_progress_status r.status ≡ true → Evolved r (finish r))
      → Keeps db (settle_local_run now run_id test_case_id status finish runner db).0
  unfolding settle_local_run
  settle_local_run-Keeps test_case_id status finish keep step =
      let evolves =
        update_where-Evolves (build_run_ownership_where now run_id runner) finish db.runs keep
          (λ id r _ h. step r (owned-in_progress now run_id runner r h)) in
      if_intro (λ (x : Db × List RunTerminalEvent). Keeps db x.0)
        (ltb 0 (count_where (build_run_ownership_where now run_id runner) db.runs)) (λ _. evolves)
        (λ _. evolves)

  finished :
      (error : String) (result : Option String) (r : TestRun)
      → is_run_in_progress_status r.status ≡ true
      → Evolved r (finish_run now (failed error result) r)
  unfolding finish_run
  finished error result r p =
      rewritten r _ refl refl (in_progress-not_terminal _ p) (give_up (in_progress-active _ p))

  pub complete_run-Keeps :
      (test_case_id : ℕ) (result : Option String)
      → Keeps db (complete_run now run_id test_case_id result runner db).0
  unfolding complete_run finish_run
  complete_run-Keeps test_case_id result =
      settle_local_run-Keeps test_case_id pass (finish_run now (completed result)) (λ r. refl)
        (λ r p. rewritten r _ refl refl (in_progress-not_terminal _ p) (complete p))

  pub fail_run-Keeps :
      (test_case_id : ℕ) (error : String) (result : Option String)
      → Keeps db (fail_run now run_id test_case_id error result runner db).0
  unfolding fail_run finish_run
  fail_run-Keeps test_case_id error result =
      settle_local_run-Keeps test_case_id fail (finish_run now (failed error result)) (λ r. refl)
        (finished error result)

  pub fail_run_without_test_case-Keeps :
      (error : String) → Keeps db (fail_run_without_test_case now run_id error runner db).0
  unfolding fail_run_without_test_case finish_run
  fail_run_without_test_case-Keeps error =
      update_where-Evolves (build_run_ownership_where now run_id runner) _ db.runs (λ r. refl)
        (λ id r _ h. finished error none r (owned-in_progress now run_id runner r h))

  pub cancel_local_run-Keeps :
      (test_case_id : ℕ) → Keeps db (cancel_local_run now run_id test_case_id runner db).0
  unfolding cancel_local_run
  cancel_local_run-Keeps test_case_id =
      settle_local_run-Keeps test_case_id cancelled (stop_run now (owning_reason run_id db))
        (λ r. refl)
        (λ r p.
          rewritten r _ refl refl (in_progress-not_terminal _ p) (stop (in_progress-active _ p)))
