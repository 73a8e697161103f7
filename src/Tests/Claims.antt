-- ===== src/Tests/Claims.antt =====
-- A runner claims the older one of two queued runs.
use skytest_agent.Prelude.{
  Text, List, [], ◌∷◌, any, false, ℕ, ◌==◌, ◌≤◌, ◌≡◌, refl, true, not, ◌&&◌, some, min, holds,
  count_where, All, arith,
}
use skytest_agent.Store.{offline, Db, TestRun, Runner}
use skytest_agent.Store.Keys.{find_run}
use skytest_agent.Runners.Resource.{is_emulator_profile_device_id, emulator_profile_device_prefix}
use skytest_agent.Runners.Claim.{
  is_requested, nothing, has_android_capability, Claimed, claimed, claim_next_run_for_runner,
  is_active, is_candidate, project_is, runner_context,
}
use skytest_agent.Runners.Candidate.{IsOffered}
use skytest_agent.Store.{Project}
use skytest_agent.Status.{preparing}
use skytest_agent.Runners.ClaimLaws.{HasUniqueIds, claim-limits, claim-candidate, claim-oldest}
use skytest_agent.Runners.Claiming.{claim-succeeds}
use skytest_agent.Runners.Diagnosis.{diagnose_no_claim_for_runner}
use skytest_agent.Runners.NoClaim.{is_definite, diagnose-nothing}
use skytest_agent.Tests.Data.{phone, rows, limits, asks, none_skipped, older, runner_9, project_1}

abbrev claim_rows : Db × Claimed
claim_rows = claim_next_run_for_runner limits 1000 1000 none_skipped asks rows

rows-HasUniqueIds : HasUniqueIds rows.runs
rows-HasUniqueIds id = ground arith

claims_older : claim_rows.1 ≡ claimed 3 61000
unfolding claim_next_run_for_runner runner_context is_candidate is_emulator_profile_device_id
    emulator_profile_device_prefix
claims_older = refl

rows-context : runner_context 9 rows ≡ some runner_9
unfolding runner_context
rows-context = refl

rows-work :
    any (λ x. is_candidate limits 1000 asks runner_9 rows x && not (none_skipped x)) rows.runs
    ≡ true
unfolding is_candidate is_emulator_profile_device_id emulator_profile_device_prefix
rows-work = refl

rows-unlocked :
    All
      (λ x.
        (is_candidate limits 1000 asks runner_9 rows x && not (none_skipped x)) ≡ true
        → any (λ l. l.run_id == x.id) rows.locks ≡ false)
      rows.runs
rows-unlocked = ((λ _. refl), ((λ _. refl), ((λ _. refl), tt)))

rows-capable : has_android_capability asks.capabilities ≡ true
unfolding has_android_capability
rows-capable = refl

claim-candidate_example :
    (runner : Runner) × (r : TestRun) × (device_id : Text) × (project : Project) × (runner_context 9
        rows
      ≡ some runner)
    × (runner.id ≡ 9)
    × (runner.is_online ≡ true)
    × (find_run 3 rows.runs ≡ some r)
    × (is_candidate limits 1000 asks runner rows r ≡ true)
    × IsOffered asks rows r device_id project
    × (find_run 3 claim_rows.0.runs
        ≡ some (record r {
          status = preparing;
          assigned_runner_id = some 9;
          lease_expires_at = some 61000;
          started_at = some 1000;
        }))
claim-candidate_example =
    claim-candidate limits 1000 1000 none_skipped asks rows rows-HasUniqueIds 3 61000 claims_older

claim-limits_example :
    (count_where is_active claim_rows.0.runs ≤ 4)
    × (count_where (λ x. is_active x && project_is rows 1 x) claim_rows.0.runs ≤ min 2 3)
    × (count_where (λ x. is_active x && holds x.assigned_runner_id 9) claim_rows.0.runs ≤ 1)
claim-limits_example =
    claim-limits limits 1000 1000 none_skipped asks rows rows-HasUniqueIds 3 61000 claims_older
      older project_1 refl refl

claim-oldest_example :
    All
      (λ x.
        (is_candidate limits 1000 asks runner_9 rows x && not (none_skipped x)) ≡ true
        → 20 ≤ x.created_at)
      rows.runs
claim-oldest_example =
    claim-oldest limits 1000 1000 none_skipped asks rows rows-HasUniqueIds 3 61000 claims_older
      runner_9 older rows-context refl

claim-succeeds_example :
    (id : ℕ) × ((claim_next_run_for_runner limits 1000 1000 none_skipped asks rows).1
      ≡ claimed id 61000)
claim-succeeds_example =
    claim-succeeds limits 1000 1000 none_skipped asks runner_9 rows rows-HasUniqueIds rows-context
      rows-work rows-unlocked rows-capable

-- The runner's only device is offline.
abbrev offline_rows : Db
offline_rows = record rows {
  devices = record { runner_id = 9; device_id = phone; state = offline } ∷ [];
}

abbrev in_order : List Text → List Text
in_order keys = keys

offline-definite :
    is_definite (diagnose_no_claim_for_runner 1000 in_order asks offline_rows).reason_code ≡ true
unfolding diagnose_no_claim_for_runner is_requested is_emulator_profile_device_id
    emulator_profile_device_prefix
offline-definite = refl

diagnose-nothing_example :
    claim_next_run_for_runner limits 1000 1000 none_skipped asks offline_rows
    ≡ (offline_rows, nothing)
diagnose-nothing_example =
    diagnose-nothing limits 1000 1000 none_skipped in_order asks offline_rows offline-definite
