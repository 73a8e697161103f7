-- ===== src/Runners/Changes/Claiming.antt =====
-- Claiming changes the row of the run that is claimed, and no other.
use skytest_agent.Prelude.{
  ℕ, ◌≡◌, refl, Bool, true, not, Text, ◌==◌, count_where, any, arith, if_intro, option_intro,
}
use skytest_agent.Status.{queued}
use skytest_agent.Store.{Db, TestRun, Runner}
use skytest_agent.Runners.Resource.{build_host_resource_key}
use skytest_agent.Runners.Claim.{
  Config, ClaimInput, is_untaken, take_run, assign_run, claim_candidate, claim_explicit_device_run,
  claim_next_run_for_runner, remove_stale_lock, oldest_candidate, runner_context, Claimed,
  is_lock_of, has_android_capability,
}
use skytest_agent.Runners.Evolve.{take, Evolved, Evolves-refl, update_where-Evolves}
use skytest_agent.Runners.Changes.{Keeps, rewritten}

module _ (date_now lease : ℕ) (input : ClaimInput) where
  take_run-Evolved :
      (candidate : TestRun) (device_id : Text) (r : TestRun)
      → is_untaken candidate device_id r ≡ true
      → Evolved r (take_run date_now lease input r)
  take_run-Evolved candidate device_id r h =
      let q : r.status ≡ queued = ground arith in rewritten r _ refl refl (ground arith) (rw q take)

  assign_run-Keeps :
      (device_id : Text) (r : TestRun) (db : Db)
      → Keeps db (assign_run date_now lease input device_id r db).0
  unfolding assign_run
  assign_run-Keeps device_id r db =
      if_intro (λ (x : Db × _). Keeps db x.0) (count_where (is_untaken r device_id) db.runs == 1)
        (λ _.
          update_where-Evolves _ _ db.runs (λ _. refl)
            (λ id x _ h. take_run-Evolved r device_id x h))
        (λ _. Evolves-refl db.runs)

  claim_candidate-Keeps :
      (now : ℕ) (runner : Runner) (device_id : Text) (r : TestRun) (db : Db)
      → Keeps db (claim_candidate now date_now lease input runner device_id r db).0
  unfolding claim_candidate
  claim_candidate-Keeps now runner device_id r db =
      if_intro (λ (x : Db × Claimed). Keeps db x.0)
        (any (is_lock_of runner.host_fingerprint (build_host_resource_key device_id))
          (remove_stale_lock now runner.host_fingerprint (build_host_resource_key device_id)
            db).locks)
        (λ _. Evolves-refl db.runs)
        λ _.
          if_intro (λ (x : Db × Claimed). Keeps db x.0)
            (any (λ l. l.run_id == r.id)
              (remove_stale_lock now runner.host_fingerprint (build_host_resource_key device_id)
                db).locks)
            (λ _. Evolves-refl db.runs) (λ _. assign_run-Keeps device_id r _)

  claim_explicit_device_run-Keeps :
      (config : Config) (now : ℕ) (skipped : TestRun → Bool) (db : Db)
      → Keeps db (claim_explicit_device_run config now date_now lease skipped input db).0
  unfolding claim_explicit_device_run
  claim_explicit_device_run-Keeps config now skipped db =
      option_intro (λ (x : Db × Claimed). Keeps db x.0) (runner_context input.runner_id db)
        (λ _. Evolves-refl db.runs)
        λ runner _.
          option_intro (λ (x : Db × Claimed). Keeps db x.0)
            (oldest_candidate config now skipped input runner db) (λ _. Evolves-refl db.runs)
            λ r _.
              option_intro (λ (x : Db × Claimed). Keeps db x.0) r.requested_device_id
                (λ _. Evolves-refl db.runs)
                λ device_id _. claim_candidate-Keeps now runner device_id r db

-- Claiming takes a queued run, and leaves every other run as it is.
pub claim_next_run_for_runner-Keeps :
    (config : Config) (now date_now : ℕ) (skipped : TestRun → Bool) (input : ClaimInput) (db : Db)
    → Keeps db (claim_next_run_for_runner config now date_now skipped input db).0
unfolding claim_next_run_for_runner
claim_next_run_for_runner-Keeps config now date_now skipped input db =
    if_intro (λ (x : Db × Claimed). Keeps db x.0) (not (has_android_capability input.capabilities))
      (λ _. Evolves-refl db.runs)
      (λ _. claim_explicit_device_run-Keeps date_now _ input config now skipped db)
