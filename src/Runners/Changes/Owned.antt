-- ===== src/Runners/Changes/Owned.antt =====
-- What a runner does to the run that it owns.
use skytest_agent.Prelude.{
  ℕ, ◌≡◌, refl, ap, ◌∙◌, Bool, true, false, not, ◌&&◌, Option, none, some, List, String, ◌==◌, ltb,
  count_where, any, arith, if_intro, option_intro, holds, is_null, find_first-update_where,
}
use skytest_agent.Status.{TestStatus, preparing, running, is_run_in_progress_status, status_eq}
use skytest_agent.Store.{Db, TestRun}
use skytest_agent.Store.Keys.{find_run}
use skytest_agent.Runners.Claim.{Config}
use skytest_agent.Runners.Events.{
  EventInput, Appended, Outcome, completed, failed, ensure_run_ownership, find_owned_run,
  extend_run, write_events, append_run_events, finish_run, write_outcome, is_reserved,
  should_promote_run_to_running, is_lock_held_by,
}
use skytest_agent.Runners.Evolve.{
  ◌⟶◌, promote, stay, Evolved, Evolves-refl, update_where-Evolves, same_row, find_run-id,
}
use skytest_agent.Runners.Changes.{Keeps, in_progress-not_terminal}

module _ (now : ℕ) (run_id runner_id : ℕ) (db : Db) where
  -- The run that a runner owns is in progress, and is the row of that identifier.
  pub owned_run :
      {owned : TestRun}
      → find_owned_run now run_id runner_id db ≡ some owned
      → (find_run run_id db.runs ≡ some owned)
        × (is_run_in_progress_status owned.status ≡ true)
        × (is_null owned.deleted_at ≡ true)
        × (holds owned.assigned_runner_id runner_id ≡ true)
  unfolding find_owned_run
  owned_run {owned} h = go (find_run run_id db.runs) refl h
    where
      go :
          (o : Option TestRun)
          → find_run run_id db.runs ≡ o
          → ensure_run_ownership now o runner_id ≡ some owned
          → (find_run run_id db.runs ≡ some owned)
            × (is_run_in_progress_status owned.status ≡ true)
            × (is_null owned.deleted_at ≡ true)
            × (holds owned.assigned_runner_id runner_id ≡ true)
      go none e k = cc
      go (some r) e k = ground (arith, e)

finish_run-id : (now : ℕ) (o : Outcome) (r : TestRun) → (finish_run now o r).id ≡ r.id
unfolding finish_run
finish_run-id now (completed x) r = refl
finish_run-id now (failed x y) r = refl

-- The writes of an outcome leave the row of another run as it is.
pub write_outcome-other :
    (now run_id id : ℕ) (owned : TestRun) (outcome : Outcome) (db : Db) (r : TestRun)
    → find_run id db.runs ≡ some r
    → (r.id == run_id) ≡ false
    → find_run id (write_outcome now run_id owned outcome db).0.runs ≡ some r
unfolding write_outcome
write_outcome-other now run_id id owned outcome db r h n =
    find_first-update_where (λ r. r.id == id) (λ r. r.id == run_id) (finish_run now outcome)
      (λ x. ap (λ n. n == id) (finish_run-id now outcome x)) db.runs
    ∙ rw (h, n)

-- The writes of an outcome leave the run passed or failed, whatever its row is.
pub write_outcome-same :
    (now run_id id : ℕ) (owned : TestRun) (outcome : Outcome) (db : Db) (r : TestRun)
    → find_run id db.runs ≡ some r
    → (r.id == run_id) ≡ true
    → find_run id (write_outcome now run_id owned outcome db).0.runs
      ≡ some (finish_run now outcome r)
unfolding write_outcome
write_outcome-same now run_id id owned outcome db r h t =
    find_first-update_where (λ r. r.id == id) (λ r. r.id == run_id) (finish_run now outcome)
      (λ x. ap (λ n. n == id) (finish_run-id now outcome x)) db.runs
    ∙ rw (h, t)

module _ (is_status_kind says_running : String → Bool) where
  promoted : (s : TestStatus) → s ≡ preparing → s ⟶ running
  promoted s e = rw e promote

  extended-id :
      (now lease : ℕ) (owned : TestRun) (events : List EventInput) (r : TestRun)
      → (extend_run is_status_kind says_running now lease owned events r).id ≡ r.id
  unfolding extend_run
  extended-id now lease owned events r = refl

  extend_run-Evolved :
      (now lease runner_id : ℕ) (owned : TestRun) (events : List EventInput)
      → is_run_in_progress_status owned.status ≡ true
      → Evolved owned (extend_run is_status_kind says_running now lease owned events owned)
  unfolding extend_run
  extend_run-Evolved now lease runner_id owned events p = record {
    same_id = refl;
    status =
        if_intro (λ s. owned.status ⟶ s)
          (status_eq owned.status preparing
            && should_promote_run_to_running is_status_kind says_running events)
          (λ t. promoted owned.status (ground arith)) (λ _. stay);
    sequence = omega arith;
    frozen = λ h. cc (in_progress-not_terminal _ p);
  }

  pub write_events-Keeps :
      (now lease runner_id : ℕ) (owned : TestRun) (events : List EventInput) (db : Db)
      → find_run owned.id db.runs ≡ some owned
      → is_run_in_progress_status owned.status ≡ true
      → Keeps db (write_events is_status_kind says_running now lease runner_id owned events db).0
  unfolding write_events
  write_events-Keeps now lease runner_id owned events db row p =
      if_intro (λ (x : Db × Appended). Keeps db x.0)
        (count_where
            (is_reserved is_status_kind says_running owned.id runner_id owned.next_event_sequence)
            db.runs
          == 1)
        (λ _. update_where-Evolves _ _ db.runs (extended-id now lease owned events) λ id r h t.
          rw (same_row id owned.id db.runs r owned h row (ground arith))
            (extend_run-Evolved now lease runner_id owned events p))
        (λ _. Evolves-refl db.runs)

  -- Appending events changes the run that is owned, and no other.
  pub append_run_events-Keeps :
      (config : Config) (now run_id runner_id : ℕ) (events : List EventInput) (db : Db)
      → Keeps db
          (append_run_events is_status_kind says_running config now run_id runner_id events db).0
  unfolding append_run_events
  append_run_events-Keeps config now run_id runner_id events db =
      option_intro (λ (x : Db × Appended). Keeps db x.0) (find_owned_run now run_id runner_id db)
        (λ _. Evolves-refl db.runs)
        λ owned found.
          let (row, p, _, _) = owned_run now run_id runner_id db found in
          if_intro (λ (x : Db × Appended). Keeps db x.0)
            (not (is_null owned.requested_device_id)
              && not (
                  any
                    (λ lock. is_lock_held_by run_id runner_id lock && ltb now lock.lease_expires_at)
                    db.locks))
            (λ _. Evolves-refl db.runs)
            (λ _.
              write_events-Keeps now _ runner_id owned events db
                (ap (λ n. find_run n db.runs) (find_run-id run_id db.runs row) ∙ row) p)
