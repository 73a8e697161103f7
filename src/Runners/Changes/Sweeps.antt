-- ===== src/Runners/Changes/Sweeps.antt =====
-- What the sweeps and a cancellation do to runs.
use skytest_agent.Prelude.{
  ℕ, ◌≡◌, refl, Bool, true, List, [], ◌∷◌, String, ◌==◌, count_where, update_where, arith, if_intro,
  option_intro,
}
use skytest_agent.Status.{
  TestStatus, queued, preparing, running, fail, is_run_terminal_status, is_run_active_status,
  status_eq,
}
use skytest_agent.Store.{Db, TestRun}
use skytest_agent.Session.Service.{
  abort_run, fail_members, is_active_run, recompute_run_session_status, SessionTerminalEvent,
  find_session, next_status,
}
use skytest_agent.Runners.Reaper.{
  recover_expired, recover_stale, is_listed, of_status, requeue_run, expire_run, requeue_local,
  fail_local,
}
use skytest_agent.Runners.Cancel.{
  reject_invalid, reject_run, cancel_read_run, cancel_run, is_active_row,
}
use skytest_agent.Runners.Evolve.{
  ◌⟶◌, requeue, give_up, stop, Evolves, Evolves-refl, Evolves-Fails, Fails, Fails-refl, Fails-trans,
  update_where-Evolves, update_where-Fails, active-not_terminal,
}
use skytest_agent.Runners.Changes.{Keeps, rewritten}

requeued : (s : TestStatus) → s ≡ preparing → s ⟶ queued
requeued s e = rw e requeue

-- The runs that a filter on the status lets through are updated along one edge.
module _ (runs : List TestRun) (p : TestRun → Bool) where
  requeue-Evolves :
      (f : TestRun → TestRun)
      → ((r : TestRun) → (f r).id ≡ r.id)
      → ((r : TestRun) → r.next_event_sequence ≡ (f r).next_event_sequence)
      → ((r : TestRun) → (f r).status ≡ queued)
      → ((r : TestRun) → p r ≡ true → r.status ≡ preparing)
      → Evolves runs (update_where p f runs)
  requeue-Evolves f i n s h = update_where-Evolves p f runs i λ id r _ t.
      rewritten r (f r) (i r) (n r) (ground (arith, h r)) (rw (s r) (requeued r.status (h r t)))

  settle-Evolves :
      (f : TestRun → TestRun)
      → ((r : TestRun) → (f r).id ≡ r.id)
      → ((r : TestRun) → r.next_event_sequence ≡ (f r).next_event_sequence)
      → ((r : TestRun) → p r ≡ true → r.status ⟶ (f r).status)
      → ((r : TestRun) → p r ≡ true → is_run_active_status r.status ≡ true)
      → Evolves runs (update_where p f runs)
  settle-Evolves f i n s h =
      update_where-Evolves p f runs i
        λ id r _ t. rewritten r (f r) (i r) (n r) (active-not_terminal r.status (h r t)) (s r t)

  fail-Fails :
      (f : TestRun → TestRun)
      → ((r : TestRun) → (f r).id ≡ r.id)
      → ((r : TestRun) → r.next_event_sequence ≡ (f r).next_event_sequence)
      → ((r : TestRun) → (f r).status ≡ fail)
      → ((r : TestRun) → p r ≡ true → is_run_active_status r.status ≡ true)
      → Fails runs (update_where p f runs)
  fail-Fails f i n s h =
      update_where-Fails p f runs i
        λ r t. record { kept_id = i r; kept_sequence = n r; was_active = h r t; is_failed = s r }

is_listed-status :
    (s : TestStatus) (read : List TestRun) (r : TestRun) → is_listed s read r ≡ true → r.status ≡ s
is_listed-status s read r h = ground arith

-- Sweeping the runs whose lease is over, whatever runs were read.
pub recover_expired-Keeps :
    (now : ℕ) (expired : List TestRun) (db : Db) → Keeps db (recover_expired now expired db).0
unfolding recover_expired
recover_expired-Keeps now expired db =
    Evolves-Fails db.runs _ _
      (requeue-Evolves db.runs _ (requeue_run _) (λ _. refl) (λ _. refl) (λ _. refl)
        (is_listed-status preparing (of_status preparing expired)))
      (fail-Fails _ _ (expire_run now _) (λ _. refl) (λ _. refl) (λ _. refl)
        (λ r t. ground (arith, is_listed-status running (of_status running expired) r)))

-- Sweeping the stale local browser runs, whatever runs were read.
pub recover_stale-Keeps :
    (now : ℕ) (stale : List TestRun) (db : Db) → Keeps db (recover_stale now stale db).0
unfolding recover_stale
recover_stale-Keeps now stale db =
    Evolves-Fails db.runs _ _
      (requeue-Evolves db.runs _ requeue_local (λ _. refl) (λ _. refl) (λ _. refl)
        (λ r t. is_listed-status preparing (of_status preparing stale) r (ground arith)))
      (fail-Fails _ _ (fail_local now) (λ _. refl) (λ _. refl) (λ _. refl) (λ r t. ground arith))

-- Failing the queued runs that no runner could execute, whatever runs were read.
pub reject_invalid-Keeps :
    (now : ℕ) (invalid : List TestRun) (db : Db) → Keeps db (reject_invalid now invalid db).0
unfolding reject_invalid
reject_invalid-Keeps now invalid db =
    settle-Evolves db.runs _ (reject_run now) (λ _. refl) (λ _. refl)
      (λ r t. give_up (ground arith)) (λ r t. ground arith)

-- Cancelling a run, whatever row was read.
pub cancel_read_run-Keeps :
    (now : ℕ) (reason : String) (read : TestRun) (db : Db)
    → Keeps db (cancel_read_run now reason read db)
unfolding cancel_read_run
cancel_read_run-Keeps now reason read db =
    if_intro (Keeps db) (count_where (is_active_row read.id) db.runs == 1)
      (λ _.
        settle-Evolves db.runs _ (cancel_run now reason) (λ _. refl) (λ _. refl)
          (λ r t. stop (ground arith)) (λ r t. ground arith))
      (λ _. Evolves-refl db.runs)

module _ (now : ℕ) (reason result : String) where
  abort_run-Fails :
      (id : ℕ) (runs : List TestRun)
      → Fails runs (update_where (is_active_run id) (abort_run now reason result) runs)
  unfolding abort_run
  abort_run-Fails id runs =
      fail-Fails runs _ (abort_run now reason result) (λ _. refl) (λ _. refl) (λ _. refl)
        (λ r t. ground arith)

  fail_members-Fails :
      (members : List TestRun) (db : Db)
      → Fails db.runs (fail_members now reason result members db).0.runs
  unfolding fail_members
  fail_members-Fails [] db = Fails-refl db.runs
  fail_members-Fails (member ∷ members) db =
      Fails-trans db.runs _ _ (abort_run-Fails member.id db.runs) (fail_members-Fails members _)

  -- Failing the members of a session, whatever rows were read.
  pub fail_members-Keeps :
      (members : List TestRun) (db : Db) → Keeps db (fail_members now reason result members db).0
  fail_members-Keeps members db =
      Evolves-Fails db.runs _ _ (Evolves-refl db.runs) (fail_members-Fails members db)

-- Recomputing a session's status touches no run.
pub recompute-Keeps :
    (now session_id : ℕ) (db : Db) → Keeps db (recompute_run_session_status now session_id db).0
unfolding recompute_run_session_status
recompute-Keeps now session_id db =
    option_intro (λ (x : Db × List SessionTerminalEvent). Keeps db x.0)
      (find_session session_id db.sessions) (λ _. Evolves-refl db.runs)
      λ s _.
        if_intro (λ (x : Db × List SessionTerminalEvent). Keeps db x.0)
          (status_eq (next_status s db) s.status) (λ _. Evolves-refl db.runs)
          λ _.
            if_intro (λ (x : Db × List SessionTerminalEvent). Keeps db x.0)
              (is_run_terminal_status (next_status s db)) (λ _. Evolves-refl db.runs)
              (λ _. Evolves-refl db.runs)
