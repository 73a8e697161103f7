-- ===== src/Tests/Data.antt =====
-- Rows for the tests: a team's project, its test case, an Android runner with one device, and runs.
use skytest_agent.Prelude.{ℕ, Bool, true, false, none, some, [], ◌∷◌, String, Text}
use skytest_agent.Status.{TestStatus, queued, pass}
use skytest_agent.Retry.Plan.{test, failed_once}
use skytest_agent.Store.{Db, TestRun, Project, Runner, RunSession, android, user, online, group}
use skytest_agent.Runners.Claim.{Config, ClaimInput}

abbrev pub phone : Text
phone = 7 ∷ []

abbrev pub run_in : (id created : ℕ) → TestStatus → TestRun
run_in id created status = record {
  id = id;
  test_case_id = 5;
  run_session_id = some 40;
  session_position = some 0;
  attempt = 1;
  kind = test;
  reused_session = false;
  triggered_by_email = none;
  trigger_source = user;
  required_capability = some android;
  required_runner_kind = none;
  requested_device_id = some phone;
  requested_runner_id = none;
  assigned_runner_id = none;
  lease_expires_at = none;
  last_event_at = none;
  next_event_sequence = 1;
  status = status;
  result = none;
  error = none;
  started_at = none;
  completed_at = none;
  deleted_at = none;
  created_at = created;
}

abbrev pub passed : TestRun
passed = run_in 1 10 pass

abbrev pub waiting : TestRun
waiting = run_in 2 30 queued

abbrev pub older : TestRun
older = run_in 3 20 queued

abbrev pub session_40 : RunSession
session_40 = record {
  id = 40;
  kind = group;
  status = queued;
  retry_policy = failed_once;
  retry_pending = false;
  started_at = none;
  completed_at = none;
}

abbrev pub project_1 : Project
project_1 = record { id = 1; team_id = 1; max_concurrent_runs = 2 }

abbrev pub runner_9 : Runner
runner_9 = record { id = 9; host_fingerprint = 77; is_online = true }

abbrev pub rows : Db
rows = record {
  runs = passed ∷ waiting ∷ older ∷ [];
  locks = [];
  devices = record { runner_id = 9; device_id = phone; state = online } ∷ [];
  runners = runner_9 ∷ [];
  projects = project_1 ∷ [];
  cases = record { id = 5; project_id = 1; status = queued } ∷ [];
  events = [];
  sessions = session_40 ∷ [];
}

abbrev pub limits : Config
limits = record {
  lease_duration_seconds = 60;
  max_concurrent_runs = 4;
  max_project_concurrent_runs = 3;
  max_concurrent_runs_per_android_runner = 1;
}

abbrev pub asks : ClaimInput
asks = record { runner_id = 9; team_id = 1; runner_kind = 0; capabilities = android ∷ [] }

abbrev pub none_skipped : TestRun → Bool
none_skipped _ = false

abbrev pub any_kind : String → Bool
any_kind _ = true
