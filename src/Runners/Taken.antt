-- ===== src/Runners/Taken.antt =====
-- What a successful claim has done: the candidate that it took, the lock that it made, and the limits
-- that it keeps.
use skytest_agent.Prelude.{
  ℕ, ◌+◌, ◌≡◌, refl, Bool, true, false, not, some, List, [], ◌∷◌, Text, ◌==◌, any, count_where,
  update_where, arith, if_intro, option_intro,
}
use skytest_agent.Store.{Db, TestRun, Runner}
use skytest_agent.Runners.Resource.{build_host_resource_key}
use skytest_agent.Runners.Claim.{
  Config, ClaimInput, Claimed, nothing, claimed, is_untaken, take_run, new_lock, claim_candidate,
  claim_explicit_device_run, claim_next_run_for_runner, remove_stale_lock, oldest_candidate,
  runner_context, is_lock_of, has_android_capability, create_lease_expiry,
}

-- The update of a filter that only lets inactive rows through, and makes them active.
count_where-taken :
    (p q : TestRun → Bool) (f : TestRun → TestRun) (xs : List TestRun)
    → ((x : TestRun) → p x ≡ true → q x ≡ false)
    → ((x : TestRun) → p x ≡ true → q (f x) ≡ true)
    → count_where q (update_where p f xs) ≡ count_where q xs + count_where p xs
count_where-taken p q f [] h k = omega arith
count_where-taken p q f (x ∷ xs) h k = ground (arith, h x, k x, count_where-taken p q f xs h k)

module _ (config : Config) (now date_now : ℕ) (skipped : TestRun → Bool) (input : ClaimInput)
    (db : Db) where
  abbrev lease : ℕ
  lease = create_lease_expiry config date_now

  -- The claim of a run.
  pub record Taken (x : Db × Claimed) (id l : ℕ) : Type 0 where
    pub runner : Runner
    pub run : TestRun
    pub device_id : Text
    pub context : runner_context input.runner_id db ≡ some runner
    pub oldest : oldest_candidate config now skipped input runner db ≡ some run
    pub requested : run.requested_device_id ≡ some device_id
    pub same_id : run.id ≡ id
    pub same_lease : lease ≡ l
    pub locks :
        x.0.locks
        ≡ new_lock runner.host_fingerprint lease input device_id run
          ∷ (remove_stale_lock now runner.host_fingerprint
              (build_host_resource_key device_id)
              db).locks
    pub free :
        any
          (is_lock_of runner.host_fingerprint (build_host_resource_key device_id))
          (remove_stale_lock now runner.host_fingerprint
            (build_host_resource_key device_id)
            db).locks
        ≡ false
    pub unlocked :
        any
          (λ lock. lock.run_id == run.id)
          (remove_stale_lock now runner.host_fingerprint
            (build_host_resource_key device_id)
            db).locks
        ≡ false
    pub runs :
        x.0.runs ≡ update_where (is_untaken run device_id) (take_run date_now lease input) db.runs
    pub once : count_where (is_untaken run device_id) db.runs ≡ 1

  abbrev Result : Db × Claimed → Type 0
  Result x = (id l : ℕ) → x.1 ≡ claimed id l → Taken x id l

  no_claim : (db' : Db) → Result (db', nothing)
  no_claim db' id l e = cc

  claim_candidate-Taken :
      (runner : Runner) (r : TestRun) (device_id : Text)
      → runner_context input.runner_id db ≡ some runner
      → oldest_candidate config now skipped input runner db ≡ some r
      → r.requested_device_id ≡ some device_id
      → Result (claim_candidate now date_now lease input runner device_id r db)
  unfolding claim_candidate
  claim_candidate-Taken runner r device_id c o d =
      let swept =
        remove_stale_lock now runner.host_fingerprint (build_host_resource_key device_id) db in
      if_intro Result
        (any (is_lock_of runner.host_fingerprint (build_host_resource_key device_id)) swept.locks)
        (λ _. no_claim swept)
        λ free.
          if_intro Result (any (λ l. l.run_id == r.id) swept.locks) (λ _ id l e. cc)
            λ unlocked.
              if_intro Result (count_where (is_untaken r device_id) db.runs == 1)
                (λ once id l e. record {
                  runner = runner;
                  run = r;
                  device_id = device_id;
                  context = c;
                  oldest = o;
                  requested = d;
                  same_id = ground arith;
                  same_lease = ground arith;
                  locks = refl;
                  free = free;
                  unlocked = unlocked;
                  runs = refl;
                  once = ground arith;
                })
                (λ _. no_claim _)

  claim_explicit-Taken :
      Result (claim_explicit_device_run config now date_now lease skipped input db)
  unfolding claim_explicit_device_run
  claim_explicit-Taken =
      option_intro Result (runner_context input.runner_id db) (λ _. no_claim db)
        λ runner c.
          option_intro Result (oldest_candidate config now skipped input runner db)
            (λ _. no_claim db)
            λ r o.
              option_intro Result r.requested_device_id (λ _. no_claim db)
                λ device_id d. claim_candidate-Taken runner r device_id c o d

  pub claim_next-Taken : Result (claim_next_run_for_runner config now date_now skipped input db)
  unfolding claim_next_run_for_runner
  claim_next-Taken =
      if_intro Result (not (has_android_capability input.capabilities)) (λ _. no_claim db)
        (λ _. claim_explicit-Taken)
