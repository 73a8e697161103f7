-- ===== src/Runners/Claiming.antt =====
-- A runner with work to do gets it: the claim succeeds when there is a candidate.
use skytest_agent.Prelude.{
  ℕ, ◌≤◌, ◌≡◌, refl, ◌∙◌, Bool, true, false, not, ◌&&◌, ◌||◌, some, List, [], ◌∷◌, Text, ◌==◌, ltb,
  leb, any, All, length, select, count_where, find_first, delete_where, sort_by, sort_by-All,
  length-sort_by, arith, and→both, first-All, find_first-count, count_where-key, is_null,
  text_holds, text_eq_refl,
}
use skytest_agent.Status.{queued, status_eq}
use skytest_agent.Store.{Db, TestRun, Runner, Project, AndroidResourceLock}
use skytest_agent.Store.Keys.{find_run}
use skytest_agent.Runners.Resource.{build_host_resource_key}
use skytest_agent.Runners.Claim.{
  Config, ClaimInput, claimed, is_candidate, is_candidate_on, is_requested, is_blocked,
  is_lock_run_active, is_untaken, is_lock_of, remove_stale_lock, claim_candidate, assign_run,
  claim_explicit_device_run, claim_next_run_for_runner, oldest_candidate, runner_context,
  has_android_capability, create_lease_expiry,
}
use skytest_agent.Runners.Candidate.{is_candidate-Claimable}
use skytest_agent.Runners.ClaimLaws.{HasUniqueIds, oldest-candidate, oldest-found}

module _ {ℓ} {A : Type ℓ} where
  first_of : (xs : List A) → 1 ≤ length xs → (x : A) × (find_first (λ _. true) xs ≡ some x)
  first_of [] h = absurd (omega arith)
  first_of (x ∷ xs) h = (x, refl)

  length-select-any : (p : A → Bool) (xs : List A) → any p xs ≡ true → 1 ≤ length (select p xs)
  length-select-any p [] h = ground arith
  length-select-any p (x ∷ xs) h = ground (arith, length-select-any p xs)

  any-delete_where :
      (q p : A → Bool) (xs : List A) → any q xs ≡ false → any q (delete_where p xs) ≡ false
  any-delete_where q p [] h = refl
  any-delete_where q p (x ∷ xs) h = ground (arith, any-delete_where q p xs)

  All-select_where :
      (P : A → Type 0) (p : A → Bool) (xs : List A)
      → All (λ x. p x ≡ true → P x) xs
      → All P (select p xs)
  All-select_where P p [] h = tt
  All-select_where P p (x ∷ xs) h = ground (arith, h.0, All-select_where P p xs h.1)

-- Once the dead locks of a resource are gone, a resource that blocks no run is free.
swept-free :
    (now host : ℕ) (key : Text) (r : TestRun) (runs : List TestRun)
    (locks : List AndroidResourceLock)
    → any (λ lock. lock.run_id == r.id) locks ≡ false
    → any
        (λ lock.
          is_lock_of host key lock
          && (not (lock.run_id == r.id)
              && (ltb now lock.lease_expires_at && is_lock_run_active runs lock)))
        locks
      ≡ false
    → any (is_lock_of host key) (
        delete_where
          (λ lock.
            is_lock_of host key lock
            && (leb lock.lease_expires_at now || not (is_lock_run_active runs lock)))
          locks)
      ≡ false
swept-free now host key r runs [] u b = refl
swept-free now host key r runs (l ∷ locks) u b =
    ground (arith, swept-free now host key r runs locks)

module _ (config : Config) (now date_now lease : ℕ) (input : ClaimInput) (runner : Runner) (db : Db)
    (r : TestRun) (project : Project) (device_id : Text)
    (requested : r.requested_device_id ≡ some device_id)
    (candidate : is_candidate_on config now input runner db r project device_id ≡ true)
    (found : find_run r.id db.runs ≡ some r) (unique : HasUniqueIds db.runs)
    (unlocked : any (λ l. l.run_id == r.id) db.locks ≡ false) where
  candidate-requested : is_requested input r ≡ true
  unfolding is_candidate_on
  candidate-requested = (and→both _ _ candidate).0

  candidate-free : is_blocked now runner.host_fingerprint device_id r db ≡ false
  unfolding is_candidate_on
  candidate-free = ground arith

  untaken_once : count_where (is_untaken r device_id) db.runs ≡ 1
  unfolding is_requested
  untaken_once =
      let n = find_first-count (λ (x : TestRun). x.id == r.id) db.runs r found in
      count_where-key (λ (x : TestRun). x.id == r.id)
        (λ x.
          status_eq x.status queued
          && (is_null x.deleted_at
              && (is_null x.assigned_runner_id && text_holds x.requested_device_id device_id)))
        db.runs r found (omega (arith, n, unique r.id))
      ∙ rw (requested, text_eq_refl device_id) (ground (arith, candidate-requested))

  claim_candidate-succeeds :
      (claim_candidate now date_now lease input runner device_id r db).1 ≡ claimed r.id lease
  unfolding claim_candidate is_blocked remove_stale_lock assign_run
  claim_candidate-succeeds =
      rw
        (
          swept-free now runner.host_fingerprint (build_host_resource_key device_id) r db.runs
              db.locks unlocked candidate-free,
          any-delete_where (λ l. l.run_id == r.id) _ db.locks unlocked,
          untaken_once,
        )
        refl

module _ (config : Config) (now date_now : ℕ) (skipped : TestRun → Bool) (input : ClaimInput)
    (runner : Runner) (db : Db) (unique : HasUniqueIds db.runs)
    (online : runner_context input.runner_id db ≡ some runner)
    (work : any (λ x. is_candidate config now input runner db x && not (skipped x)) db.runs ≡ true)
    (unlocked : All
      (λ x.
        (is_candidate config now input runner db x && not (skipped x)) ≡ true
        → any (λ l. l.run_id == x.id) db.locks ≡ false)
      db.runs) where
  abbrev is_free : TestRun → Bool
  is_free x = is_candidate config now input runner db x && not (skipped x)

  finds : (r : TestRun) × (oldest_candidate config now skipped input runner db ≡ some r)
  unfolding oldest_candidate
  finds = first_of (sort_by (λ x. x.created_at) (select is_free db.runs)) (
      omega (
        arith,
        length-sort_by (λ (x : TestRun). x.created_at) (select is_free db.runs),
        length-select-any is_free db.runs work,
      ))

  lock_free :
      (r : TestRun)
      → oldest_candidate config now skipped input runner db ≡ some r
      → any (λ l. l.run_id == r.id) db.locks ≡ false
  unfolding oldest_candidate
  lock_free r e =
      first-All (λ x. any (λ l. l.run_id == x.id) db.locks ≡ false) _ r e
        (sort_by-All _ _ _ (All-select_where _ is_free db.runs unlocked))

  claim_explicit-succeeds :
      (lease : ℕ) (r : TestRun)
      → oldest_candidate config now skipped input runner db ≡ some r
      → (claim_explicit_device_run config now date_now lease skipped input db).1
        ≡ claimed r.id lease
  unfolding claim_explicit_device_run
  claim_explicit-succeeds lease r e =
      let c =
        is_candidate-Claimable config now input runner db r
          (oldest-candidate config now skipped input runner db r e) in
      rw (online, claim_explicit_device_run, e, c.requested)
        (claim_candidate-succeeds config now date_now lease input runner db r c.project c.device_id
          c.requested c.holds_on (oldest-found config now skipped input runner db r e unique) unique
          (lock_free r e))

  -- A runner that has the Android capability and is online claims some run, with the full lease, if
  -- it could claim one that no other transaction has locked: when no two runs have the same
  -- identifier, and no resource is locked for a run that it could claim.
  pub claim-succeeds :
      has_android_capability input.capabilities ≡ true
      → (id : ℕ) × ((claim_next_run_for_runner config now date_now skipped input db).1
          ≡ claimed id (create_lease_expiry config date_now))
  unfolding claim_next_run_for_runner
  claim-succeeds capable =
      let (r, e) = finds in
      (r.id, rw capable (claim_explicit-succeeds (create_lease_expiry config date_now) r e))
