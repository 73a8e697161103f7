-- ===== src/Runners/Events.antt =====
-- apps/web/src/lib/runners/event-service.ts: what a runner may do to the run that it owns. A
-- transaction is one step on the database; `run_usage` and the publishing of updates are left out,
-- and `emitRunTerminal` is the list of events that an operation returns. `is_status_kind` and
-- `says_running` are the trimmed, case-insensitive tests on an event's texts.
use skytest_agent.Prelude.{
  ℕ, ◌+◌, ltb, leb, Bool, true, false, not, ◌&&◌, Option, none, some, List, [], ◌∷◌, ◌++◌, String,
  if◌then◌else◌, ◌==◌, holds, is_null, any, length, count_where, update_where, delete_where,
}
use skytest_agent.Status.{
  TestStatus, preparing, running, pass, fail, status_eq, is_run_in_progress_status,
}
use skytest_agent.Store.{Db, TestRun, TestCase, AndroidResourceLock, RunEvent}
use skytest_agent.Store.Keys.{find_run}
use skytest_agent.Runners.Claim.{Config, create_lease_expiry}

pub record RunTerminalEvent : Type 0 where
  pub run_id : ℕ
  pub status : TestStatus
  pub test_case_id : ℕ

pub record EventInput : Type 0 where
  pub kind : String
  pub message : Option String

-- `!value || value <= now`
abbrev has_expired : ℕ → Option ℕ → Bool
has_expired now none = true
has_expired now (some t) = leb t now

unfoldable pub ensure_run_ownership : (now : ℕ) → Option TestRun → (runner_id : ℕ) → Option TestRun
ensure_run_ownership now none runner_id = none
ensure_run_ownership now (some run) runner_id =
    if not (is_null run.deleted_at)
    then none
    else if not (holds run.assigned_runner_id runner_id)
    then none
    else if has_expired now run.lease_expires_at
    then none
    else if not (is_run_in_progress_status run.status)
    then none
    else some run

-- The row of a run, if the runner owns it.
unfoldable pub find_owned_run : (now : ℕ) → (run_id runner_id : ℕ) → Db → Option TestRun
unfolding ensure_run_ownership
find_owned_run now run_id runner_id db =
    ensure_run_ownership now (find_run run_id db.runs) runner_id

abbrev pub is_lock_held_by : (run_id runner_id : ℕ) → AndroidResourceLock → Bool
is_lock_held_by run_id runner_id lock = lock.run_id == run_id && lock.runner_id == runner_id

abbrev pub set_case : ℕ → TestStatus → List TestCase → List TestCase
set_case id status cases = update_where (λ c. c.id == id) (λ c. record c { status = status }) cases

-- A transaction's end: nothing done, done, or thrown.
pub data Appended : Type 0 where
  ignored : Appended
  accepted : (count next_sequence : ℕ) → Appended
  not_reserved : Appended

module _ (is_status_kind : String → Bool) (says_running : String → Bool) where
  abbrev says_running_message : Option String → Bool
  says_running_message none = false
  says_running_message (some m) = says_running m

  unfoldable pub should_promote_run_to_running : List EventInput → Bool
  should_promote_run_to_running events =
      any (λ e. is_status_kind e.kind && says_running_message e.message) events

  -- The rows of the events, numbered from `sequence` on.
  unfoldable pub event_rows : (run_id now sequence : ℕ) → List EventInput → List RunEvent
  event_rows run_id now sequence [] = []
  event_rows run_id now sequence (e ∷ events) =
      record {
        run_id = run_id;
        sequence = sequence;
        kind = e.kind;
        message = e.message;
        created_at = now;
      }
      ∷ event_rows run_id now (sequence + 1) events

  abbrev pub is_reserved : (run_id runner_id sequence : ℕ) → TestRun → Bool
  is_reserved run_id runner_id sequence r =
      r.id == run_id && (holds r.assigned_runner_id runner_id && r.next_event_sequence == sequence)

  -- `runUpdateData`, from the run that was read.
  unfoldable pub extend_run : (now lease : ℕ) → TestRun → List EventInput → TestRun → TestRun
  unfolding should_promote_run_to_running
  extend_run now lease owned events r = record r {
    next_event_sequence = owned.next_event_sequence + length events;
    last_event_at = some now;
    lease_expires_at = some lease;
    status =
        if status_eq owned.status preparing && should_promote_run_to_running events
        then running
        else r.status;
  }

  -- The writes of `appendRunEvents` for an owned run.
  unfoldable pub write_events :
      (now lease : ℕ) → (runner_id : ℕ) → TestRun → List EventInput → Db → Db × Appended
  unfolding extend_run event_rows
  write_events now lease runner_id owned events db =
      let start = owned.next_event_sequence in
      if count_where (is_reserved owned.id runner_id start) db.runs == 1
      then (
        record db {
          runs =
              update_where (is_reserved owned.id runner_id start)
                (extend_run now lease owned events) db.runs;
          locks =
              update_where (is_lock_held_by owned.id runner_id)
                (λ lock. record lock { lease_expires_at = lease }) db.locks;
          events = db.events ++ event_rows owned.id now start events;
        },
        accepted (length events) (start + length events),
      )
      else (db, not_reserved)

  unfoldable pub append_run_events :
      Config → (now : ℕ) → (run_id runner_id : ℕ) → List EventInput → Db → Db × Appended
  unfolding find_owned_run write_events
  append_run_events config now run_id runner_id events db =
      elim (find_owned_run now run_id runner_id db) [
        | none ↦ (db, ignored)
        | some owned ↦
            if not (is_null owned.requested_device_id)
              && not (
                  any
                    (λ lock. is_lock_held_by run_id runner_id lock && ltb now lock.lease_expires_at)
                    db.locks)
            then (db, ignored)
            else write_events now (create_lease_expiry config now) runner_id owned events db
      ]

-- The outcome that a runner reports.
pub data Outcome : Type 0 where
  completed : (result : Option String) → Outcome
  failed : (error : String) → (result : Option String) → Outcome

abbrev pub outcome_status : Outcome → TestStatus
outcome_status (completed _) = pass
outcome_status (failed _ _) = fail

-- `result: input.result` and `error: input.error`: an absent value leaves the column as it is.
abbrev or_old : Option String → Option String → Option String
or_old none old = old
or_old (some new) old = some new

unfoldable pub finish_run : (now : ℕ) → Outcome → TestRun → TestRun
finish_run now (completed result) r = record r {
  status = pass;
  result = or_old result r.result;
  completed_at = some now;
  assigned_runner_id = none;
  lease_expires_at = none;
}
finish_run now (failed error result) r = record r {
  status = fail;
  error = some error;
  result = or_old result r.result;
  completed_at = some now;
  assigned_runner_id = none;
  lease_expires_at = none;
}

-- The writes of `completeOwnedRun` and `failOwnedRun` for the run that the transaction has read: the
-- update is by the identifier alone, whatever the row is by then.
unfoldable pub write_outcome :
    (now run_id : ℕ) → (owned : TestRun) → Outcome → Db → Db × List RunTerminalEvent
unfolding finish_run
write_outcome now run_id owned outcome db = (
  record db {
    runs = update_where (λ r. r.id == run_id) (finish_run now outcome) db.runs;
    locks = delete_where (λ lock. lock.run_id == run_id) db.locks;
    cases = set_case owned.test_case_id (outcome_status outcome) db.cases;
  },
  record { run_id = run_id; status = outcome_status outcome; test_case_id = owned.test_case_id }
      ∷ [],
)

-- The transaction that `completeOwnedRun` and `failOwnedRun` share, but for the outcome, where
-- nothing comes between its read and its writes.
unfoldable pub settle_owned_run :
    (now : ℕ) → (run_id runner_id : ℕ) → Outcome → Db → Db × List RunTerminalEvent
unfolding find_owned_run write_outcome
settle_owned_run now run_id runner_id outcome db = elim (find_owned_run now run_id runner_id db) [
  | none ↦ (db, [])
  | some owned ↦ write_outcome now run_id owned outcome db
]

unfoldable pub complete_owned_run :
    (now : ℕ) → (run_id runner_id : ℕ) → (result : Option String) → Db → Db × List RunTerminalEvent
unfolding settle_owned_run
complete_owned_run now run_id runner_id result db =
    settle_owned_run now run_id runner_id (completed result) db

unfoldable pub fail_owned_run :
    (now : ℕ)
    → (run_id runner_id : ℕ) → (error : String) → (result : Option String) → Db
    → Db × List RunTerminalEvent
unfolding settle_owned_run
fail_owned_run now run_id runner_id error result db =
    settle_owned_run now run_id runner_id (failed error result) db
