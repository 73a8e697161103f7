-- ===== src/Runners/Numbers.antt =====
-- The numbers of stored events: each stands below the number of its run's next event.
use skytest_agent.Prelude.{
  ℕ, ◌+◌, ◌≤◌, ◌<◌, ◌≡◌, refl, ap, ◌∙◌, Bool, true, not, ◌&&◌, none, some, List, [], ◌∷◌, ◌++◌,
  String, ◌==◌, ltb, any, length, holds, is_null, if◌then◌else◌, All, All-map, count_where,
  count_where-key, find_first-count, find_first-update_where, update_where, arith, if_intro,
  option_intro,
}
use skytest_agent.Status.{is_run_in_progress_status}
use skytest_agent.Store.{Db, TestRun, RunEvent}
use skytest_agent.Store.Keys.{find_run}
use skytest_agent.Runners.Claim.{Config}
use skytest_agent.Runners.ClaimLaws.{HasUniqueIds}
use skytest_agent.Runners.Evolve.{find_run-id}
use skytest_agent.Runners.Events.{
  EventInput, Appended, find_owned_run, extend_run, event_rows, write_events, append_run_events,
  is_reserved, is_lock_held_by,
}
use skytest_agent.Runners.Changes.{Keeps}
use skytest_agent.Runners.Changes.Owned.{owned_run, write_events-Keeps}

-- The run of an event is in the table, and its next number is larger.
abbrev pub IsNumberedIn : List TestRun → RunEvent → Type 0
IsNumberedIn runs e =
    (r : TestRun) × (find_run e.run_id runs ≡ some r) × (e.sequence < r.next_event_sequence)

abbrev pub IsNumbered : Db → Type 0
IsNumbered db = All (IsNumberedIn db.runs) db.events

All-append :
    (P : RunEvent → Type 0) (xs ys : List RunEvent) → All P xs → All P ys → All P (xs ++ ys)
All-append P [] ys h k = k
All-append P (x ∷ xs) ys h k = (h.0, All-append P xs ys h.1 k)

module _ (is_status_kind says_running : String → Bool) where
  event_rows-IsNumberedIn :
      (run_id now sequence : ℕ) (events : List EventInput) (runs : List TestRun) (r : TestRun)
      → find_run run_id runs ≡ some r
      → sequence + length events ≤ r.next_event_sequence
      → All (IsNumberedIn runs) (event_rows is_status_kind says_running run_id now sequence events)
  unfolding event_rows
  event_rows-IsNumberedIn run_id now sequence [] runs r f n = tt
  event_rows-IsNumberedIn run_id now sequence (e ∷ events) runs r f n = (
    (r, f, omega (arith, n)),
    event_rows-IsNumberedIn run_id now (sequence + 1) events runs r f (omega (arith, n)),
  )

  module _ (now lease runner_id : ℕ) (owned : TestRun) (events : List EventInput) (db : Db)
      (unique : HasUniqueIds db.runs) (found : find_run owned.id db.runs ≡ some owned) where
    abbrev reserved : TestRun → Bool
    reserved = is_reserved is_status_kind says_running owned.id runner_id owned.next_event_sequence

    abbrev extended : TestRun
    extended = extend_run is_status_kind says_running now lease owned events owned

    is_reserved-owned : (count_where reserved db.runs == 1) ≡ true → reserved owned ≡ true
    is_reserved-owned once =
        let n = find_first-count (λ (x : TestRun). x.id == owned.id) db.runs owned found in
        let m =
          count_where-key (λ (x : TestRun). x.id == owned.id)
            (λ x.
              holds x.assigned_runner_id runner_id
              && x.next_event_sequence == owned.next_event_sequence)
            db.runs owned found (omega (arith, n, unique owned.id)) in
        ground (arith, m, once)

    extend_run-id :
        (x : TestRun) → (extend_run is_status_kind says_running now lease owned events x).id ≡ x.id
    unfolding extend_run
    extend_run-id x = refl

    extended_row :
        (count_where reserved db.runs == 1) ≡ true
        → find_run owned.id (
            update_where reserved
              (extend_run is_status_kind says_running now lease owned events)
              db.runs)
          ≡ some extended
    extended_row once =
        find_first-update_where (λ (x : TestRun). x.id == owned.id) reserved
          (extend_run is_status_kind says_running now lease owned events)
          (λ x. ap (λ i. i == owned.id) (extend_run-id x)) db.runs
        ∙ ap
            (λ o. (elim o [
              | none ↦ none
              | some x ↦ some (
                  if reserved x
                  then extend_run is_status_kind says_running now lease owned events x
                  else x)
            ]))
            found
        ∙ ap (λ b. some (if b then extended else owned)) (is_reserved-owned once)

    extended-next : extended.next_event_sequence ≡ owned.next_event_sequence + length events
    unfolding extend_run
    extended-next = refl

    write_events-IsNumbered :
        is_run_in_progress_status owned.status ≡ true
        → IsNumbered db
        → IsNumbered
            (write_events is_status_kind says_running now lease runner_id owned events db).0
    unfolding write_events
    write_events-IsNumbered p h =
        if_intro (λ (x : Db × Appended). Keeps db x.0 → IsNumbered x.0)
          (count_where reserved db.runs == 1)
          (λ once keeps.
            All-append _ db.events _
              (All-map _
                (λ e (r, f, below).
                  let (r', f', evolved) = keeps e.run_id r f in
                  (r', f', omega (arith, below, evolved.sequence)))
                db.events h)
              (event_rows-IsNumberedIn owned.id now owned.next_event_sequence events _ extended
                (extended_row once) (omega (arith, extended-next))))
          (λ _ _. h)
          (write_events-Keeps is_status_kind says_running now lease runner_id owned events db found
            p)

  -- Appending events keeps the number of every stored event below the next number of its run, if no
  -- two runs have the same identifier.
  pub append_run_events-IsNumbered :
      (config : Config) (now run_id runner_id : ℕ) (events : List EventInput) (db : Db)
      → HasUniqueIds db.runs
      → IsNumbered db
      → IsNumbered
          (append_run_events is_status_kind says_running config now run_id runner_id events db).0
  unfolding append_run_events
  append_run_events-IsNumbered config now run_id runner_id events db unique h =
      option_intro (λ (x : Db × Appended). IsNumbered x.0) (find_owned_run now run_id runner_id db)
        (λ _. h)
        λ owned found.
          let (row, p, _, _) = owned_run now run_id runner_id db found in
          if_intro (λ (x : Db × Appended). IsNumbered x.0)
            (not (is_null owned.requested_device_id)
              && not (
                  any
                    (λ lock. is_lock_held_by run_id runner_id lock && ltb now lock.lease_expires_at)
                    db.locks))
            (λ _. h)
            (λ _.
              write_events-IsNumbered now _ runner_id owned events db unique
                (ap (λ n. find_run n db.runs) (find_run-id run_id db.runs row) ∙ row) p h)
