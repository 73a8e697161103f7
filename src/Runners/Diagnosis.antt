-- ===== src/Runners/Diagnosis.antt =====
-- apps/web/src/lib/runners/claim-service.ts, diagnoseNoClaimForRunner: why a runner finds no run.
-- `order_keys` is the database's `SELECT DISTINCT … ORDER BY … LIMIT 20` on texts.
use skytest_agent.Prelude.{
  ℕ, ltb, Bool, false, not, ◌&&◌, none, some, List, [], ◌∷◌, Text, text_holds, if◌then◌else◌, ◌==◌,
  is_null, any, select, length, count_where,
}
use skytest_agent.Status.{queued, status_eq}
use skytest_agent.Store.{Db, TestRun, RunnerDevice}
use skytest_agent.Store.Keys.{find_runner, is_android}
use skytest_agent.Runners.Resource.{build_host_resource_key}
use skytest_agent.Runners.Claim.{
  ClaimInput, has_android_capability, is_claimable_device, has_device, is_requested, is_blocked,
  project_of,
}

pub data ReasonCode : Type 0 where
  runner_capability_missing no_queued_runs runner_kind_mismatch requested_device_unavailable :
      ReasonCode
  run_blocked_by_host_resource_lock run_available_but_locked : ReasonCode

pub record Diagnosis : Type 0 where
  pub reason_code : ReasonCode
  pub queued_android_runs : ℕ
  pub queued_compatible_kind_runs : ℕ
  pub explicit_requested_runs : ℕ
  pub explicit_requested_runs_matching_runner_devices : ℕ
  pub explicit_requested_runs_blocked_by_host_locks : ℕ
  pub blocked_host_resource_keys : List Text
  pub generic_queued_runs : ℕ
  pub claimable_device_ids : List Text

abbrev device_ids : List RunnerDevice → List Text
device_ids [] = []
device_ids (d ∷ ds) = d.device_id ∷ device_ids ds

unfoldable pub get_claimable_device_ids_for_runner : ℕ → List RunnerDevice → List Text
unfolding is_claimable_device
get_claimable_device_ids_for_runner runner_id devices =
    device_ids (select is_claimable_device (select (λ d. d.runner_id == runner_id) devices))

-- `testCase: { project: { teamId } }`
abbrev pub is_of_team : Db → ℕ → TestRun → Bool
is_of_team db team_id r = elim (project_of db r) [ none ↦ false | some p ↦ p.team_id == team_id ]

abbrev pub is_queued_android : Db → ClaimInput → TestRun → Bool
is_queued_android db input r =
    status_eq r.status queued
    && (is_null r.deleted_at
        && (is_null r.assigned_runner_id
            && (is_android r.required_capability && is_of_team db input.team_id r)))

abbrev pub is_compatible : Db → ClaimInput → TestRun → Bool
is_compatible db input r = is_requested input r && is_of_team db input.team_id r

abbrev pub device_in : List Text → TestRun → Bool
device_in ids r = any (λ d. text_holds r.requested_device_id d) ids

-- One of `blocked_runs`.
abbrev is_blocked_run : (now host : ℕ) → Db → ClaimInput → TestRun → Bool
is_blocked_run now host db input r = elim r.requested_device_id [
  | none ↦ false
  | some device_id ↦
      is_compatible db input r
      && (has_device input.runner_id device_id db.devices && is_blocked now host device_id r db)
]

abbrev keys_of : List TestRun → List Text
keys_of [] = []
keys_of (r ∷ rs) = elim r.requested_device_id [
  | none ↦ keys_of rs
  | some device_id ↦ build_host_resource_key device_id ∷ keys_of rs
]

abbrev pub reason_for : (queued_runs compatible explicit matching blocked : ℕ) → ReasonCode
reason_for queued_runs compatible explicit matching blocked =
    if queued_runs == 0
    then no_queued_runs
    else if compatible == 0
    then runner_kind_mismatch
    else if ltb 0 explicit && matching == 0
    then requested_device_unavailable
    else if ltb 0 blocked
    then run_blocked_by_host_resource_lock
    else run_available_but_locked

missing_capability : Diagnosis
missing_capability = record {
  reason_code = runner_capability_missing;
  queued_android_runs = 0;
  queued_compatible_kind_runs = 0;
  explicit_requested_runs = 0;
  explicit_requested_runs_matching_runner_devices = 0;
  explicit_requested_runs_blocked_by_host_locks = 0;
  blocked_host_resource_keys = [];
  generic_queued_runs = 0;
  claimable_device_ids = [];
}

unfoldable pub explicit_runs : Db → ClaimInput → ℕ
explicit_runs db input =
    count_where (λ r. is_compatible db input r && not (is_null r.requested_device_id)) db.runs

unfoldable pub matching_runs : Db → ClaimInput → ℕ
unfolding get_claimable_device_ids_for_runner
matching_runs db input =
    let ids = get_claimable_device_ids_for_runner input.runner_id db.devices in
    if ltb 0 (length ids)
    then count_where (λ r. is_compatible db input r && device_in ids r) db.runs
    else 0

unfoldable pub diagnose_no_claim_for_runner :
    (now : ℕ) → (order_keys : List Text → List Text) → ClaimInput → Db → Diagnosis
unfolding has_android_capability missing_capability explicit_runs matching_runs
diagnose_no_claim_for_runner now order_keys input db =
    let queued_runs = count_where (is_queued_android db input) db.runs in
    let compatible = count_where (is_compatible db input) db.runs in
    let explicit = explicit_runs db input in
    let matching = matching_runs db input in
    let generic =
      count_where (λ r. is_compatible db input r && is_null r.requested_device_id) db.runs in
    let blocked : List TestRun = elim (find_runner input.runner_id db.runners) [
      | none ↦ []
      | some runner ↦ select (is_blocked_run now runner.host_fingerprint db input) db.runs
    ] in
    if not (has_android_capability input.capabilities) then missing_capability else record {
      reason_code = reason_for queued_runs compatible explicit matching (length blocked);
      queued_android_runs = queued_runs;
      queued_compatible_kind_runs = compatible;
      explicit_requested_runs = explicit;
      explicit_requested_runs_matching_runner_devices = matching;
      explicit_requested_runs_blocked_by_host_locks = length blocked;
      blocked_host_resource_keys = order_keys (keys_of blocked);
      generic_queued_runs = generic;
      claimable_device_ids = get_claimable_device_ids_for_runner input.runner_id db.devices;
    }
