-- ===== src/Status.antt =====
-- apps/web/src/types/status.ts: the statuses of runs, sessions and test cases. The columns hold
-- strings; the code only writes the seven of `TEST_STATUS`, which are the constructors here.
use skytest_agent.Prelude.{ℕ, Bool, true, false, ◌==◌, ◌≡◌, arith}

pub data TestStatus : Type 0 where
  draft queued preparing running pass fail cancelled : TestStatus

abbrev status_code : TestStatus → ℕ
status_code draft = 0
status_code queued = 1
status_code preparing = 2
status_code running = 3
status_code pass = 4
status_code fail = 5
status_code cancelled = 6

abbrev pub status_eq : TestStatus → TestStatus → Bool
status_eq a b = status_code a == status_code b

-- `RUN_TERMINAL_STATUSES`, `isRunTerminalStatus`
abbrev pub is_run_terminal_status : TestStatus → Bool
is_run_terminal_status pass = true
is_run_terminal_status fail = true
is_run_terminal_status cancelled = true
is_run_terminal_status _ = false

-- `RUN_IN_PROGRESS_STATUSES`, `isRunInProgressStatus`
abbrev pub is_run_in_progress_status : TestStatus → Bool
is_run_in_progress_status preparing = true
is_run_in_progress_status running = true
is_run_in_progress_status _ = false

-- `RUN_ACTIVE_STATUSES`, `isRunActiveStatus`
abbrev pub is_run_active_status : TestStatus → Bool
is_run_active_status queued = true
is_run_active_status preparing = true
is_run_active_status running = true
is_run_active_status _ = false

pub status_eq→≡ : (a b : TestStatus) → status_eq a b ≡ true → a ≡ b
status_eq→≡ a b h = ground arith
