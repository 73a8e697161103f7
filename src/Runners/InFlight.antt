-- ===== src/Runners/InFlight.antt =====
-- Outcomes in flight: apps/web/src/lib/runners/event-service.ts, completeOwnedRun and failOwnedRun,
-- between the read of a run and the update by its identifier.
use skytest_agent.Prelude.{
  ℕ, ◌≤◌, ◌≡◌, refl, Bool, true, false, some, List, ◌⊎◌, inl, inr, any, any-append, Bool-cases,
  ◌++◌, ◌∷◌, ◌==◌, arith,
}
use skytest_agent.Status.{pass, fail, is_run_terminal_status, is_run_in_progress_status}
use skytest_agent.Store.{Db, TestRun}
use skytest_agent.Store.Keys.{find_run}
use skytest_agent.Runners.Events.{Outcome, completed, failed, finish_run}
use skytest_agent.Runners.Evolve.{same_row, find_run-id}

-- The tables, and what the transactions of outcomes have read that have not written yet.
pub record System : Type 0 where
  pub db : Db
  pub in_flight : List TestRun

-- Whether a transaction has read the run as in progress and has its outcome still to write.
unfoldable pub is_in_flight : ℕ → List TestRun → Bool
is_in_flight id reads = any (λ r. r.id == id) reads

-- A settled run is not read as in progress.
pub unread_owned :
    (runs : List TestRun) (id run_id : ℕ) (r owned : TestRun) (reads : List TestRun)
    → find_run id runs ≡ some r
    → find_run run_id runs ≡ some owned
    → is_run_terminal_status r.status ≡ true
    → is_run_in_progress_status owned.status ≡ true
    → is_in_flight id reads ≡ false
    → is_in_flight id (owned ∷ reads) ≡ false
unfolding is_in_flight
unread_owned runs id run_id r owned reads h row t p n = elim (Bool-cases (owned.id == id)) [
  | inl same ↦
      let ids : (r.id == run_id) ≡ true =
        ground (arith, same, find_run-id id runs h, find_run-id run_id runs row) in
      let rows = same_row id run_id runs r owned h row ids in ground (arith, rows, t, p)
  | inr differ ↦ ground (arith, differ, n)
]

pub without_one :
    (id : ℕ) (before : List TestRun) (owned : TestRun) (after : List TestRun)
    → is_in_flight id (before ++ owned ∷ after) ≡ false
    → ((owned.id == id) ≡ false) × (is_in_flight id (before ++ after) ≡ false)
unfolding is_in_flight
without_one id before owned after h = ground (
  arith,
  any-append (λ r. r.id == id) before (owned ∷ after),
  any-append (λ r. r.id == id) before after,
)

pub other_run :
    (runs : List TestRun) (id : ℕ) (r owned : TestRun)
    → find_run id runs ≡ some r
    → (owned.id == id) ≡ false
    → (r.id == owned.id) ≡ false
other_run runs id r owned h n = ground (arith, find_run-id id runs h, n)

pub was_in_flight :
    (id : ℕ) (before : List TestRun) (owned : TestRun) (after reads : List TestRun)
    → reads ≡ before ++ owned ∷ after
    → (owned.id == id) ≡ true
    → is_in_flight id reads ≡ true
unfolding is_in_flight
was_in_flight id before owned after reads e h =
    rw e (ground (arith, any-append (λ r. r.id == id) before (owned ∷ after)))

pub finish_run-status :
    (now : ℕ) (o : Outcome) (r : TestRun)
    → ((finish_run now o r).status ≡ pass) ⊎ ((finish_run now o r).status ≡ fail)
unfolding finish_run
finish_run-status now (completed x) r = inl refl
finish_run-status now (failed e x) r = inr refl

pub finish_run-sequence :
    (now : ℕ) (o : Outcome) (r : TestRun)
    → r.next_event_sequence ≤ (finish_run now o r).next_event_sequence
unfolding finish_run
finish_run-sequence now (completed x) r = omega arith
finish_run-sequence now (failed e x) r = omega arith
