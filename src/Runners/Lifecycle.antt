-- ===== src/Runners/Lifecycle.antt =====
-- The services' steps in any order, with any rows read before a sweep writes. The transaction of an
-- outcome is two steps, its read and its writes, and any others may come between them. A dispatch
-- updates a run by its identifier, and asks that the primary key holds.
use skytest_agent.Prelude.{
  Option, ℕ, ◌≤◌, ◌≡◌, ap, ◌∙◌, Bool, true, false, some, List, String, ◌⊎◌, inl, inr, Bool-cases,
  ◌++◌, ◌∷◌, ◌==◌, arith,
}
use skytest_agent.Status.{TestStatus, pass, fail, is_run_terminal_status, is_run_in_progress_status}
use skytest_agent.Store.{Db, TestRun}
use skytest_agent.Store.Keys.{find_run}
use skytest_agent.Session.Service.{
  fail_members, release_session_retry_hold, recompute_run_session_status,
}
use skytest_agent.Runners.Claim.{Config, ClaimInput, claim_next_run_for_runner}
use skytest_agent.Runners.Events.{
  EventInput, Outcome, finish_run, append_run_events, find_owned_run, write_outcome,
}
use skytest_agent.Runners.Reaper.{reap_locks, recover_expired, recover_stale}
use skytest_agent.Runners.Cancel.{reject_invalid, cancel_read_run}
use skytest_agent.Runners.Evolve.{◌⟶◌, stay, Evolves-refl, find_run-id}
use skytest_agent.Runners.ClaimLaws.{HasUniqueIds}
use skytest_agent.Runners.InFlight.{
  System, is_in_flight, unread_owned, without_one, other_run, was_in_flight, finish_run-status,
  finish_run-sequence,
}
use skytest_agent.Runners.Local.{
  write_status, complete_run, fail_run, fail_run_without_test_case, cancel_local_run,
}
use skytest_agent.Runners.Dispatch.{claim_browser_run_with_filter}
use skytest_agent.Runners.Changes.{Keeps}
use skytest_agent.Runners.Changes.Local.{
  write_status-Keeps, complete_run-Keeps, fail_run-Keeps, fail_run_without_test_case-Keeps,
  cancel_local_run-Keeps,
}
use skytest_agent.Runners.Changes.Dispatch.{claim_browser_run_with_filter-Keeps}
use skytest_agent.Runners.Changes.Claiming.{claim_next_run_for_runner-Keeps}
use skytest_agent.Runners.Changes.Owned.{
  append_run_events-Keeps, owned_run, write_outcome-same, write_outcome-other,
}
use skytest_agent.Runners.Changes.Sweeps.{
  recover_expired-Keeps, recover_stale-Keeps, reject_invalid-Keeps, cancel_read_run-Keeps,
  fail_members-Keeps, recompute-Keeps,
}

module _ (is_status_kind says_running : String → Bool) (config : Config) where
  -- The operations that are one step: their updates ask again for what they have read, or are of a row
  -- that the transaction has locked (`dispatch`).
  pub data Guarded : Db → Db → Type 0 where
    claim :
        (now date_now : ℕ) (skipped : TestRun → Bool) (input : ClaimInput) (db : Db)
        → Guarded db (claim_next_run_for_runner config now date_now skipped input db).0
    append :
        (now run_id runner_id : ℕ) (events : List EventInput) (db : Db)
        → Guarded db
            (append_run_events is_status_kind says_running config now run_id runner_id events db).0
    sweep_locks : (now : ℕ) (db : Db) → Guarded db (reap_locks now db)
    sweep_expired :
        (now : ℕ) (expired : List TestRun) (db : Db) → Guarded db (recover_expired now expired db).0
    sweep_stale :
        (now : ℕ) (stale : List TestRun) (db : Db) → Guarded db (recover_stale now stale db).0
    sweep_invalid :
        (now : ℕ) (invalid : List TestRun) (db : Db) → Guarded db (reject_invalid now invalid db).0
    cancel :
        (now : ℕ) (reason : String) (read : TestRun) (db : Db)
        → Guarded db (cancel_read_run now reason read db)
    release : (session_id : ℕ) (db : Db) → Guarded db (release_session_retry_hold session_id db).0
    abort :
        (now : ℕ) (reason result : String) (members : List TestRun) (db : Db)
        → Guarded db (fail_members now reason result members db).0
    recompute :
        (now session_id : ℕ) (db : Db)
        → Guarded db (recompute_run_session_status now session_id db).0
    report_status :
        (now run_id : ℕ) (status : TestStatus) (runner : Option ℕ) (db : Db)
        → is_run_in_progress_status status ≡ true
        → Guarded db (write_status config now run_id status runner db)
    complete_local :
        (now run_id test_case_id : ℕ) (result : Option String) (runner : Option ℕ) (db : Db)
        → Guarded db (complete_run now run_id test_case_id result runner db).0
    fail_local :
        (now run_id test_case_id : ℕ) (error : String) (result : Option String) (runner : Option ℕ)
        (db : Db)
        → Guarded db (fail_run now run_id test_case_id error result runner db).0
    fail_local_alone :
        (now run_id : ℕ) (error : String) (runner : Option ℕ) (db : Db)
        → Guarded db (fail_run_without_test_case now run_id error runner db).0
    cancel_local :
        (now run_id test_case_id : ℕ) (runner : Option ℕ) (db : Db)
        → Guarded db (cancel_local_run now run_id test_case_id runner db).0
    dispatch :
        (now : ℕ) (skipped : TestRun → Bool) (filter : Option ℕ) (db : Db)
        → HasUniqueIds db.runs
        → Guarded db (claim_browser_run_with_filter config now skipped filter db).0

  Guarded-Keeps : {db db' : Db} → Guarded db db' → Keeps db db'
  unfolding reap_locks release_session_retry_hold
  Guarded-Keeps (claim now date_now skipped input db) =
      claim_next_run_for_runner-Keeps config now date_now skipped input db
  Guarded-Keeps (append now run_id runner_id events db) =
      append_run_events-Keeps is_status_kind says_running config now run_id runner_id events db
  Guarded-Keeps (sweep_locks now db) = Evolves-refl db.runs
  Guarded-Keeps (sweep_expired now expired db) = recover_expired-Keeps now expired db
  Guarded-Keeps (sweep_stale now stale db) = recover_stale-Keeps now stale db
  Guarded-Keeps (sweep_invalid now invalid db) = reject_invalid-Keeps now invalid db
  Guarded-Keeps (cancel now reason read db) = cancel_read_run-Keeps now reason read db
  Guarded-Keeps (release session_id db) = Evolves-refl db.runs
  Guarded-Keeps (abort now reason result members db) =
      fail_members-Keeps now reason result members db
  Guarded-Keeps (recompute now session_id db) = recompute-Keeps now session_id db
  Guarded-Keeps (report_status now run_id status runner db p) =
      write_status-Keeps config now run_id status runner db p
  Guarded-Keeps (complete_local now run_id test_case_id result runner db) =
      complete_run-Keeps now run_id runner db test_case_id result
  Guarded-Keeps (fail_local now run_id test_case_id error result runner db) =
      fail_run-Keeps now run_id runner db test_case_id error result
  Guarded-Keeps (fail_local_alone now run_id error runner db) =
      fail_run_without_test_case-Keeps now run_id runner db error
  Guarded-Keeps (cancel_local now run_id test_case_id runner db) =
      cancel_local_run-Keeps now run_id runner db test_case_id
  Guarded-Keeps (dispatch now skipped filter db unique) =
      claim_browser_run_with_filter-Keeps config now skipped filter db unique

  -- One step: `read_owned` and `write_owned` are the two halves of `settle_owned_run`.
  pub data Step (s : System) : System → Type 0 where
    guarded : {db : Db} → Guarded s.db db → Step s (record { db = db; in_flight = s.in_flight })
    read_owned :
        (now run_id runner_id : ℕ) {owned : TestRun}
        → find_owned_run now run_id runner_id s.db ≡ some owned
        → Step s (record { db = s.db; in_flight = owned ∷ s.in_flight })
    write_owned :
        (now : ℕ) (outcome : Outcome) (before : List TestRun) (owned : TestRun)
        (after : List TestRun)
        → s.in_flight ≡ before ++ owned ∷ after
        → Step s (record {
          db = (write_outcome now owned.id owned outcome s.db).0;
          in_flight = before ++ after;
        })

  pub data Steps (start : System) : System → Type 0 where
    none_yet : Steps start start
    then_one : {s t : System} → Steps start s → Step s t → Steps start t

  IsFrozen : (id : ℕ) → TestRun → System → Type 0
  IsFrozen id r s = (find_run id s.db.runs ≡ some r) × (is_in_flight id s.in_flight ≡ false)

  Step-IsFrozen :
      {s t : System}
      → Step s t
      → (id : ℕ) (r : TestRun) → is_run_terminal_status r.status ≡ true
      → IsFrozen id r s
      → IsFrozen id r t
  unfolding is_in_flight IsFrozen
  Step-IsFrozen (guarded g) id r t (h, n) =
      let (r', found, e) = Guarded-Keeps g id r h in (found ∙ ap some (e.frozen t), n)
  Step-IsFrozen {s} (read_owned now run_id runner_id {owned} o) id r t (h, n) =
      let (row, p, _, _) = owned_run now run_id runner_id s.db o in
      (h, unread_owned s.db.runs id run_id r owned s.in_flight h row t p n)
  Step-IsFrozen {s} (write_owned now outcome before owned after e) id r t (h, n) =
      let (other, kept) = without_one id before owned after (rw (← e) n) in
      (
        write_outcome-other now owned.id id owned outcome s.db r h
            (other_run s.db.runs id r owned h other),
        kept,
      )

  -- A run that is settled, and of which no transaction has an outcome still to write, keeps its whole
  -- row through any sequence of steps: of guarded transactions, of reads and of writes of outcomes.
  -- Where runs are dispatched their identifiers are unique.
  pub Steps-settled :
      {start end : System}
      → Steps start end
      → (id : ℕ) (r : TestRun) → find_run id start.db.runs ≡ some r
      → is_run_terminal_status r.status ≡ true
      → is_in_flight id start.in_flight ≡ false
      → find_run id end.db.runs ≡ some r
  unfolding IsFrozen
  Steps-settled {start} steps id r h t n = (go steps).0
    where
      go : {end : System} → Steps start end → IsFrozen id r end
      go none_yet = (h, n)
      go (then_one steps step) = Step-IsFrozen step id r t (go steps)

  -- In one step a run stays in the table, and the number of its next event does not fall. Its status
  -- moves along at most one edge of the diagram of a run's life, unless a transaction that has read the
  -- run as in progress writes its outcome: then the run is passed or failed, whatever it was. Where
  -- a run is dispatched, identifiers are unique.
  pub Step-follows :
      {s t : System}
      → Step s t
      → (id : ℕ) (r : TestRun) → find_run id s.db.runs ≡ some r
      → (r' : TestRun) × (find_run id t.db.runs ≡ some r')
        × ((r.status ⟶ r'.status)
            ⊎ ((is_in_flight id s.in_flight ≡ true) × ((r'.status ≡ pass) ⊎ (r'.status ≡ fail))))
        × (r.next_event_sequence ≤ r'.next_event_sequence)
  Step-follows (guarded g) id r h =
      let (r', found, e) = Guarded-Keeps g id r h in (r', found, inl e.status, e.sequence)
  Step-follows (read_owned now run_id runner_id o) id r h = (r, h, inl stay, omega arith)
  Step-follows {s} (write_owned now outcome before owned after e) id r h =
      elim (Bool-cases (r.id == owned.id)) [
        | inl same ↦ (
          finish_run now outcome r,
          write_outcome-same now owned.id id owned outcome s.db r h same,
          inr (
            was_in_flight id before owned after s.in_flight e
                (ground (arith, same, find_run-id id s.db.runs h)),
            finish_run-status now outcome r,
          ),
          finish_run-sequence now outcome r,
        )
        | inr differ ↦ (
          r,
          write_outcome-other now owned.id id owned outcome s.db r h differ,
          inl stay,
          omega arith,
        )
      ]
