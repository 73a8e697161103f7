-- ===== src/Runners/Claim.antt =====
-- apps/web/src/lib/runners/claim-service.ts, claimNextRunForRunner: a runner takes the oldest queued
-- run that it may execute, together with the lock of the host resource. The queries stand as
-- predicates on the rows. A `Config` holds the limits of apps/web/src/config/app.ts, `now` is the
-- time of the database, `date_now` that of the process; `skipped` says which rows another transaction
-- has locked (`SKIP LOCKED`). A transaction is one step: it ends with its result, or by the
-- violation of the unique `runId` of the locks, which throws and leaves the database as it was.
use skytest_agent.Prelude.{
  ℕ, ◌+◌, ◌*◌, min, ltb, leb, Bool, true, false, not, ◌&&◌, ◌||◌, Option, none, some, List, ◌∷◌,
  Text, text_eq, text_holds, if◌then◌else◌, ◌==◌, holds, is_null, any, select, count_where,
  find_first, update_where, delete_where, sort_by,
}
use skytest_agent.Status.{queued, preparing, status_eq, is_run_in_progress_status}
use skytest_agent.Store.{
  Db, TestRun, Project, Runner, RunnerDevice, AndroidResourceLock, Capability, android, DeviceState,
  online, offline,
}
use skytest_agent.Store.Keys.{find_case, find_project, is_android}
use skytest_agent.Runners.Resource.{
  is_emulator_profile_device_id, build_host_resource_key, resolve_android_resource_type,
}

pub record Config : Type 0 where
  pub lease_duration_seconds : ℕ
  pub max_concurrent_runs : ℕ
  pub max_project_concurrent_runs : ℕ
  pub max_concurrent_runs_per_android_runner : ℕ

pub record ClaimInput : Type 0 where
  pub runner_id : ℕ
  pub team_id : ℕ
  pub runner_kind : ℕ
  pub capabilities : List Capability

abbrev pub is_android_capability : Capability → Bool
is_android_capability android = true
is_android_capability _ = false

unfoldable pub has_android_capability : List Capability → Bool
has_android_capability capabilities = any is_android_capability capabilities

abbrev pub create_lease_expiry : Config → ℕ → ℕ
create_lease_expiry config date_now = date_now + config.lease_duration_seconds * 1000

-- Not deleted, and preparing or running.
abbrev pub is_active : TestRun → Bool
is_active r = is_null r.deleted_at && is_run_in_progress_status r.status

abbrev is_online_state : DeviceState → Bool
is_online_state online = true
is_online_state _ = false

abbrev is_online_or_offline : DeviceState → Bool
is_online_or_offline online = true
is_online_or_offline offline = true
is_online_or_offline _ = false

-- An emulator profile can be started, so that it is claimable offline too.
unfoldable pub is_claimable_device : RunnerDevice → Bool
is_claimable_device d =
    if is_emulator_profile_device_id d.device_id
    then is_online_or_offline d.state
    else is_online_state d.state

unfoldable pub has_device : ℕ → Text → List RunnerDevice → Bool
unfolding is_claimable_device
has_device runner_id device_id devices =
    any (λ d. d.runner_id == runner_id && (text_eq d.device_id device_id && is_claimable_device d))
      devices

-- `EXISTS (SELECT 1 FROM "TestRun" lockRun …)`
unfoldable pub is_lock_run_active : List TestRun → AndroidResourceLock → Bool
is_lock_run_active runs lock = any (λ r. r.id == lock.run_id && is_active r) runs

abbrev pub is_lock_of : ℕ → Text → AndroidResourceLock → Bool
is_lock_of host key lock = lock.host_fingerprint == host && text_eq lock.resource_key key

-- Another active run holds the resource.
unfoldable pub is_blocked : (now host : ℕ) → (device_id : Text) → TestRun → Db → Bool
unfolding is_lock_run_active
is_blocked now host device_id r db =
    any
      (λ lock.
        is_lock_of host (build_host_resource_key device_id) lock
        && (not (lock.run_id == r.id)
            && (ltb now lock.lease_expires_at && is_lock_run_active db.runs lock)))
      db.locks

-- The project of a run, through its test case.
abbrev pub project_of : Db → TestRun → Option Project
project_of db r = elim (find_case r.test_case_id db.cases) [
  | none ↦ none
  | some c ↦ find_project c.project_id db.projects
]

abbrev pub project_is : Db → ℕ → TestRun → Bool
project_is db id r = elim (project_of db r) [ none ↦ false | some p ↦ p.id == id ]

-- The filters that the run and the runner decide.
unfoldable pub is_requested : ClaimInput → TestRun → Bool
is_requested input r =
    status_eq r.status queued
    && (is_null r.deleted_at
        && (is_null r.assigned_runner_id
            && (is_android r.required_capability
                && ((is_null r.required_runner_kind
                      || holds r.required_runner_kind input.runner_kind)
                    && (is_null r.requested_runner_id
                        || holds r.requested_runner_id input.runner_id)))))

-- The three limits on runs at the same time.
unfoldable pub is_within_limits : Config → ClaimInput → Project → Db → Bool
is_within_limits config input project db =
    ltb (count_where is_active db.runs) config.max_concurrent_runs
    && (ltb (count_where (λ x. is_active x && project_is db project.id x) db.runs)
          (min project.max_concurrent_runs config.max_project_concurrent_runs)
        && ltb
            (count_where (λ x. is_active x && holds x.assigned_runner_id input.runner_id) db.runs)
            config.max_concurrent_runs_per_android_runner)

unfoldable pub is_candidate_on :
    Config → (now : ℕ) → ClaimInput → Runner → Db → TestRun → Project → Text → Bool
unfolding is_requested is_within_limits has_device is_blocked
is_candidate_on config now input runner db r project device_id =
    is_requested input r
    && (project.team_id == input.team_id
        && (is_within_limits config input project db
            && (has_device input.runner_id device_id db.devices
                && not (is_blocked now runner.host_fingerprint device_id r db))))

unfoldable pub is_candidate : Config → (now : ℕ) → ClaimInput → Runner → Db → TestRun → Bool
unfolding is_candidate_on
is_candidate config now input runner db r = elim r.requested_device_id [
  | none ↦ false
  | some device_id ↦ (elim (project_of db r) [
    | none ↦ false
    | some project ↦ is_candidate_on config now input runner db r project device_id
  ])
]

-- `WITH runner_context`: the runner's row, if it is online.
unfoldable pub runner_context : ℕ → Db → Option Runner
runner_context runner_id db = find_first (λ r. r.id == runner_id && r.is_online) db.runners

-- `ORDER BY "createdAt" ASC … LIMIT 1`
unfoldable pub oldest_candidate :
    Config → (now : ℕ) → (TestRun → Bool) → ClaimInput → Runner → Db → Option TestRun
unfolding is_candidate
oldest_candidate config now skipped input runner db =
    find_first (λ _. true)
      (sort_by (λ r. r.created_at)
        (select (λ r. is_candidate config now input runner db r && not (skipped r)) db.runs))

-- The lock of the resource that is expired, or whose run is not active.
unfoldable pub remove_stale_lock : (now host : ℕ) → Text → Db → Db
unfolding is_lock_run_active
remove_stale_lock now host key db = record db {
  locks =
      delete_where
        (λ lock.
          is_lock_of host key lock
          && (leb lock.lease_expires_at now || not (is_lock_run_active db.runs lock)))
        db.locks;
}

pub data Claimed : Type 0 where
  nothing : Claimed
  claimed : (run_id : ℕ) → (lease_expires_at : ℕ) → Claimed
  unique_violation : Claimed

abbrev pub new_lock : (host lease : ℕ) → ClaimInput → Text → TestRun → AndroidResourceLock
new_lock host lease input device_id r = record {
  host_fingerprint = host;
  resource_key = build_host_resource_key device_id;
  resource_type = resolve_android_resource_type device_id;
  run_id = r.id;
  runner_id = input.runner_id;
  lease_expires_at = lease;
}

abbrev pub take_run : (date_now lease : ℕ) → ClaimInput → TestRun → TestRun
take_run date_now lease input r = record r {
  assigned_runner_id = some input.runner_id;
  lease_expires_at = some lease;
  status = preparing;
  started_at = some date_now;
}

-- `where` of the update: the row is still the one that was read.
abbrev pub is_untaken : TestRun → Text → TestRun → Bool
is_untaken candidate device_id r =
    r.id == candidate.id
    && (status_eq r.status queued
        && (is_null r.deleted_at
            && (is_null r.assigned_runner_id && text_holds r.requested_device_id device_id)))

-- The update of the run, and the lock taken back if it did not update one row.
unfoldable pub assign_run : (date_now lease : ℕ) → ClaimInput → Text → TestRun → Db → Db × Claimed
assign_run date_now lease input device_id r db =
    if count_where (is_untaken r device_id) db.runs == 1
    then (
      record db {
        runs = update_where (is_untaken r device_id) (take_run date_now lease input) db.runs;
      },
      claimed r.id lease,
    )
    else (record db { locks = delete_where (λ lock. lock.run_id == r.id) db.locks }, nothing)

-- The writes for a candidate. `ON CONFLICT DO NOTHING` is about the key of a lock only.
unfoldable pub claim_candidate :
    (now date_now lease : ℕ) → ClaimInput → Runner → Text → TestRun → Db → Db × Claimed
unfolding remove_stale_lock assign_run
claim_candidate now date_now lease input runner device_id r db =
    let host = runner.host_fingerprint in
    let swept = remove_stale_lock now host (build_host_resource_key device_id) db in
    let lock = new_lock host lease input device_id r in
    if any (is_lock_of host (build_host_resource_key device_id)) swept.locks
    then (swept, nothing)
    else if any (λ l. l.run_id == r.id) swept.locks
    then (db, unique_violation)
    else assign_run date_now lease input device_id r (record swept { locks = lock ∷ swept.locks })

unfoldable pub claim_explicit_device_run :
    Config → (now date_now lease : ℕ) → (TestRun → Bool) → ClaimInput → Db → Db × Claimed
unfolding runner_context oldest_candidate claim_candidate
claim_explicit_device_run config now date_now lease skipped input db =
    elim (runner_context input.runner_id db) [
      | none ↦ (db, nothing)
      | some runner ↦ (elim (oldest_candidate config now skipped input runner db) [
        | none ↦ (db, nothing)
        | some r ↦ (elim r.requested_device_id [
          | none ↦ (db, nothing)
          | some device_id ↦ claim_candidate now date_now lease input runner device_id r db
        ])
      ])
    ]

unfoldable pub claim_next_run_for_runner :
    Config → (now date_now : ℕ) → (TestRun → Bool) → ClaimInput → Db → Db × Claimed
unfolding claim_explicit_device_run has_android_capability
claim_next_run_for_runner config now date_now skipped input db =
    if not (has_android_capability input.capabilities)
    then (db, nothing)
    else claim_explicit_device_run config now date_now (create_lease_expiry config date_now) skipped
        input db
