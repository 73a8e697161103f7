-- ===== src/Runners/Changes.antt =====
-- Every operation of the runner services lets each run evolve along the diagram of a run's life: what
-- the operations share, and the children for claiming, for owned runs, for the
-- sweeps, for local browsers and for their dispatch.
pub mod Claiming
pub mod Owned
pub mod Sweeps
pub mod Local
pub mod Dispatch
use skytest_agent.Prelude.{ℕ, ◌≡◌, Bool, true, false, List, arith}
use skytest_agent.Status.{
  TestStatus, is_run_terminal_status, is_run_active_status, is_run_in_progress_status, status_eq,
}
use skytest_agent.Store.{Db, TestRun}
use skytest_agent.Runners.Evolve.{◌⟶◌, Evolved, Evolves}

abbrev pub Keeps : Db → Db → Type 0
Keeps db db' = Evolves db.runs db'.runs

-- A row that is not settled may be rewritten along the diagram, its identifier and event numbers
-- left alone.
pub rewritten :
    (r r' : TestRun)
    → r'.id ≡ r.id
    → r.next_event_sequence ≡ r'.next_event_sequence
    → is_run_terminal_status r.status ≡ false
    → r.status ⟶ r'.status
    → Evolved r r'
rewritten r r' i n t s = record {
  same_id = i;
  status = s;
  sequence = omega arith;
  frozen = λ h. cc;
}

pub in_progress-not_terminal :
    (s : TestStatus) → is_run_in_progress_status s ≡ true → is_run_terminal_status s ≡ false
in_progress-not_terminal s h = ground arith

pub in_progress-active :
    (s : TestStatus) → is_run_in_progress_status s ≡ true → is_run_active_status s ≡ true
in_progress-active s h = ground arith

-- The status of a row that a filter fixes.
pub fixed : (s t : TestStatus) → status_eq s t ≡ true → s ≡ t
fixed s t h = ground arith
