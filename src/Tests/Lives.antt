-- ===== src/Tests/Lives.antt =====
-- A claim whose outcome is overtaken by a sweep and a cancellation, beside a run that is settled.
use skytest_agent.Prelude.{
  ℕ, Bool, ◌&&◌, ◌==◌, any, ◌⊎◌, true, length, count_where, none, arith, List, ◌≡◌, ◌≤◌, refl, some,
  [], ◌∷◌,
}
use skytest_agent.Status.{TestStatus, preparing, queued, pass, fail, cancelled, status_eq}
use skytest_agent.Store.{browser, Db, TestRun}
use skytest_agent.Store.Keys.{find_run}
use skytest_agent.Runners.Dispatch.{Worker, dispatch_queued_browser_runs}
use skytest_agent.Runners.Capacity.{dispatch_queued_browser_runs-within}
use skytest_agent.Runners.Claim.{
  is_active, claim_next_run_for_runner, take_run, runner_context, is_candidate,
}
use skytest_agent.Runners.Reaper.{recover_expired}
use skytest_agent.Runners.Evolve.{◌⟶◌}
use skytest_agent.Runners.InFlight.{System, is_in_flight}
use skytest_agent.Runners.Lifecycle.{
  claim, sweep_expired, cancel, Step, guarded, read_owned, write_owned, Steps, none_yet, then_one,
  Steps-settled, Step-follows,
}
use skytest_agent.Runners.ClaimLaws.{HasUniqueIds}
use skytest_agent.Runners.Events.{
  EventInput, append_run_events, completed, find_owned_run, ensure_run_ownership, write_outcome,
}
use skytest_agent.Runners.Cancel.{cancel_read_run}
use skytest_agent.Runners.Resource.{is_emulator_profile_device_id, emulator_profile_device_prefix}
use skytest_agent.Runners.Numbers.{IsNumbered, append_run_events-IsNumbered}
use skytest_agent.Tests.Data.{
  run_in, rows, limits, asks, none_skipped, any_kind, passed, waiting, older,
}

abbrev has_status : ℕ → TestStatus → List TestRun → Bool
has_status id status runs = any (λ r. r.id == id && status_eq r.status status) runs

abbrev claimed_rows : Db
claimed_rows = (claim_next_run_for_runner limits 1000 1000 none_skipped asks rows).0

-- The run that the claim takes.
abbrev taken_run : TestRun
taken_run = take_run 1000 61000 asks older

claimed_runs : claimed_rows.runs ≡ passed ∷ waiting ∷ taken_run ∷ []
unfolding claim_next_run_for_runner runner_context is_candidate is_emulator_profile_device_id
    emulator_profile_device_prefix
claimed_runs = refl

taken_run-owned : find_owned_run 2000 3 9 claimed_rows ≡ some taken_run
unfolding find_owned_run ensure_run_ownership
taken_run-owned = rw claimed_runs refl

-- The sweep queues the run again, as its lease is over.
abbrev swept_rows : Db
swept_rows = (recover_expired 90000 (taken_run ∷ []) claimed_rows).0

abbrev stopped_rows : Db
stopped_rows = cancel_read_run 90001 "stopped" taken_run swept_rows

-- The outcome that was read before the sweep.
abbrev overtaken_rows : Db
overtaken_rows = (write_outcome 90002 3 taken_run (completed none) stopped_rows).0

abbrev reading : System
reading = record { db = stopped_rows; in_flight = taken_run ∷ [] }

abbrev written : System
written = record { db = overtaken_rows; in_flight = [] }

overtakes : Step any_kind any_kind limits reading written
overtakes = write_owned 90002 (completed none) [] taken_run [] refl

overtaking : Steps any_kind any_kind limits (record { db = rows; in_flight = [] }) written
overtaking =
    then_one
      (then_one
        (then_one
          (then_one (then_one none_yet (guarded (claim 1000 1000 none_skipped asks rows)))
            (read_owned 2000 3 9 taken_run-owned))
          (guarded (sweep_expired 90000 (taken_run ∷ []) claimed_rows)))
        (guarded (cancel 90001 "stopped" taken_run swept_rows)))
      overtakes

Steps-settled_example : find_run 1 overtaken_rows.runs ≡ some passed
unfolding is_in_flight
Steps-settled_example = Steps-settled any_kind any_kind limits overtaking 1 passed refl refl refl

abbrev stopped_run : TestRun
stopped_run = record older { status = cancelled; error = some "stopped"; completed_at = some 90001 }

stopped_run-found : find_run 3 stopped_rows.runs ≡ some stopped_run
unfolding cancel_read_run recover_expired
stopped_run-found = rw claimed_runs refl

-- The run is queued by the sweep, and cancelled; then the outcome overwrites that.
overtaken_statuses :
    (has_status 3 queued swept_rows.runs ≡ true)
    × (has_status 3 cancelled stopped_rows.runs ≡ true)
    × (has_status 3 pass overtaken_rows.runs ≡ true)
unfolding recover_expired cancel_read_run write_outcome
overtaken_statuses = rw claimed_runs (refl, refl, refl)

Step-follows_example :
    (r' : TestRun) × (find_run 3 overtaken_rows.runs ≡ some r')
    × ((cancelled ⟶ r'.status)
        ⊎ ((is_in_flight 3 reading.in_flight ≡ true) × ((r'.status ≡ pass) ⊎ (r'.status ≡ fail))))
    × (1 ≤ r'.next_event_sequence)
Step-follows_example =
    Step-follows any_kind any_kind limits overtakes 3 stopped_run stopped_run-found

-- A run that its runner has begun to report on.
abbrev reporting : TestRun
reporting = record (run_in 3 20 preparing) {
  assigned_runner_id = some 9;
  lease_expires_at = some 9000;
  requested_device_id = none;
  next_event_sequence = 2;
}

abbrev reported_rows : Db
reported_rows = record rows {
  runs = reporting ∷ [];
  events = record { run_id = 3; sequence = 1; kind = "LOG"; message = none; created_at = 5 } ∷ [];
}

abbrev reports : List EventInput
reports = record { kind = "STATUS"; message = some "Running test steps" } ∷ []

reported_rows-HasUniqueIds : HasUniqueIds reported_rows.runs
reported_rows-HasUniqueIds id = ground arith

reported_rows-IsNumbered : IsNumbered reported_rows
reported_rows-IsNumbered = ((reporting, refl, omega arith), tt)

append_run_events-IsNumbered_example :
    IsNumbered (append_run_events any_kind any_kind limits 50 3 9 reports reported_rows).0
append_run_events-IsNumbered_example =
    append_run_events-IsNumbered any_kind any_kind limits 50 3 9 reports reported_rows
      reported_rows-HasUniqueIds reported_rows-IsNumbered

-- A browser run that waits.
abbrev browsing : TestRun
browsing = record (run_in 4 20 queued) {
  required_capability = some browser;
  requested_device_id = none;
}

abbrev browser_rows : Db
browser_rows = record rows { runs = browsing ∷ [] }

abbrev worker : Worker
worker = record { enabled = true; max_local_browser_runs = 2 }

browser_rows-HasUniqueIds : HasUniqueIds browser_rows.runs
browser_rows-HasUniqueIds id = ground arith

dispatch_queued_browser_runs-within_example :
    (length (dispatch_queued_browser_runs worker limits 50 1 5 (λ _. none_skipped) browser_rows).1
      ≤ 1)
    × (count_where is_active
          (dispatch_queued_browser_runs worker limits 50 1 5
            (λ _. none_skipped)
            browser_rows).0.runs
        ≤ 4)
dispatch_queued_browser_runs-within_example =
    dispatch_queued_browser_runs-within worker limits 50 1 5 (λ _. none_skipped) browser_rows
      browser_rows-HasUniqueIds

launches_browsing :
    (dispatch_queued_browser_runs worker limits 50 1 5 (λ _. none_skipped) browser_rows).1 ≡ 4 ∷ []
unfolding dispatch_queued_browser_runs
launches_browsing = refl
