-- ===== src/Runners/ClaimLaws.antt =====
-- What the claim of a run promises: the run was claimable, it was the oldest such run, and the limits
-- on runs at the same time are kept.
use skytest_agent.Prelude.{
  find_first-All, ℕ, ◌≤◌, ◌<◌, ◌≡◌, refl, sym, ap, ◌∙◌, Bool, true, not, ◌&&◌, none, some, List,
  min, Text, if◌then◌else◌, ◌==◌, All, select, count_where, update_where, sort_by-All, arith,
  and→both, holds, ltb→lt, select-holds, first-All, first-least, All-of_select,
  count_where-update_le, find_first-count, find_first-update_where, select-All, count_where-key,
  text_holds, is_null,
}
use skytest_agent.Store.{Db, TestRun, Runner, Project}
use mathlib.Core.Option.{some-injective}
use mathlib.Core.Path.{subst}
use skytest_agent.Status.{queued, preparing, status_eq}
use skytest_agent.Store.Keys.{find_run}
use skytest_agent.Runners.Claim.{
  Config, ClaimInput, claimed, is_active, is_candidate, is_candidate_on, is_within_limits,
  is_untaken, take_run, claim_next_run_for_runner, oldest_candidate, runner_context,
  create_lease_expiry, project_of, project_is,
}
use skytest_agent.Runners.Candidate.{
  is_candidate-Claimable, IsOffered, Claimable-IsOffered, runner_context-online,
}
use skytest_agent.Runners.Taken.{Taken, claim_next-Taken}

-- No two rows have the same identifier.
abbrev pub HasUniqueIds : List TestRun → Type 0
HasUniqueIds runs = (id : ℕ) → count_where (λ r. r.id == id) runs ≤ 1

-- Then every row is found by its identifier.
pub find_run-All :
    (runs : List TestRun) → HasUniqueIds runs → All (λ r. find_run r.id runs ≡ some r) runs
find_run-All runs u = find_first-All (λ (r : TestRun). r.id) runs u

module _ (config : Config) (now : ℕ) (skipped : TestRun → Bool) (input : ClaimInput)
    (runner : Runner) (db : Db) (r : TestRun)
    (oldest : oldest_candidate config now skipped input runner db ≡ some r) where
  abbrev is_free_candidate : TestRun → Bool
  is_free_candidate x = is_candidate config now input runner db x && not (skipped x)

  pub oldest-candidate : is_candidate config now input runner db r ≡ true
  unfolding oldest_candidate
  oldest-candidate =
      (and→both _ _ (
        first-All (λ x. is_free_candidate x ≡ true) _ r oldest
          (sort_by-All _ _ _ (select-holds is_free_candidate db.runs)))).0

  pub oldest-found : HasUniqueIds db.runs → find_run r.id db.runs ≡ some r
  unfolding oldest_candidate
  oldest-found u =
      first-All (λ x. find_run x.id db.runs ≡ some x) _ r oldest
        (sort_by-All _ _ _ (select-All _ is_free_candidate db.runs (find_run-All db.runs u)))

  -- Every other claimable run that no other transaction has locked is at least as young.
  oldest-first : All (λ x. is_free_candidate x ≡ true → r.created_at ≤ x.created_at) db.runs
  unfolding oldest_candidate
  oldest-first =
      All-of_select (λ x. r.created_at ≤ x.created_at) is_free_candidate db.runs
        (first-least (λ (x : TestRun). x.created_at) (select is_free_candidate db.runs) r oldest)

-- The row that the update of a claim has touched.
taken-row :
    (run : TestRun) (device_id : Text) (f : TestRun → TestRun) (runs : List TestRun)
    → ((x : TestRun) → (f x).id ≡ x.id)
    → find_run run.id runs ≡ some run
    → count_where (λ x. x.id == run.id) runs ≤ 1
    → count_where (is_untaken run device_id) runs ≡ 1
    → find_run run.id (update_where (is_untaken run device_id) f runs) ≡ some (f run)
taken-row run device_id f runs keep found unique once =
    let n = find_first-count (λ (x : TestRun). x.id == run.id) runs run found in
    let m =
      count_where-key (λ (x : TestRun). x.id == run.id)
        (λ x.
          status_eq x.status queued
          && (is_null x.deleted_at
              && (is_null x.assigned_runner_id && text_holds x.requested_device_id device_id)))
        runs run found (omega arith) in
    let u =
      find_first-update_where (λ (x : TestRun). x.id == run.id) (is_untaken run device_id) f
        (λ x. ap (λ i. i == run.id) (keep x)) runs in
    u
    ∙ ap
        (λ o. (elim o [
          | none ↦ none
          | some x ↦ some (if is_untaken run device_id x then f x else x)
        ]))
        found
    ∙ ground arith

same-project :
    (db : Db) (id id' : ℕ) (r r' : TestRun) (p p' : Project)
    → id' ≡ id
    → find_run id' db.runs ≡ some r'
    → find_run id db.runs ≡ some r
    → project_of db r' ≡ some p'
    → project_of db r ≡ some p
    → p' ≡ p
same-project db id id' r r' p p' e f' f g' g =
    let h : r' ≡ r = some-injective _ _ (sym f' ∙ ap (λ i. find_run i db.runs) e ∙ f) in
    some-injective _ _ (sym g' ∙ ap (project_of db) h ∙ g)

is_candidate_on-limits :
    (config : Config) (now : ℕ) (input : ClaimInput) (runner : Runner) (db : Db) (r : TestRun)
    (project : Project) (device_id : Text)
    → is_candidate_on config now input runner db r project device_id ≡ true
    → (count_where is_active db.runs < config.max_concurrent_runs)
      × (count_where (λ x. is_active x && project_is db project.id x) db.runs
          < min project.max_concurrent_runs config.max_project_concurrent_runs)
      × (count_where (λ x. is_active x && holds x.assigned_runner_id input.runner_id) db.runs
          < config.max_concurrent_runs_per_android_runner)
unfolding is_candidate_on is_within_limits
is_candidate_on-limits config now input runner db r project device_id h =
    let a = (and→both _ _ (and→both _ _ (and→both _ _ h).1).1).0 in
    let b = (and→both _ _ a).1 in
    (ltb→lt _ _ (and→both _ _ a).0, ltb→lt _ _ (and→both _ _ b).0, ltb→lt _ _ (and→both _ _ b).1)

module _ (config : Config) (now date_now : ℕ) (skipped : TestRun → Bool) (input : ClaimInput)
    (db : Db) (unique : HasUniqueIds db.runs) (id lease : ℕ)
    (claims : (claim_next_run_for_runner config now date_now skipped input db).1
      ≡ claimed id lease) where
  abbrev after : Db
  after = (claim_next_run_for_runner config now date_now skipped input db).0

  taken :
      Taken config now date_now skipped input db
        (claim_next_run_for_runner config now date_now skipped input db)
        id
        lease
  taken = claim_next-Taken config now date_now skipped input db id lease claims

  -- A claim that succeeds, if no two runs have the same identifier, is by a runner of the input's
  -- identifier that is online. The run of the returned identifier was a candidate of that runner: it
  -- was queued, not deleted and assigned to no runner, it needed Android, asked for no other kind of
  -- runner and no other runner, and for a device that the input's runner lists, and its project belongs
  -- to the input's team. Afterwards its row is the same but for four columns: it is preparing, assigned
  -- to the input's runner under the returned lease, and started at the time of the process.
  pub claim-candidate :
      (runner : Runner) × (r : TestRun) × (device_id : Text) × (project : Project) × (runner_context
          input.runner_id db
        ≡ some runner)
      × (runner.id ≡ input.runner_id)
      × (runner.is_online ≡ true)
      × (find_run id db.runs ≡ some r)
      × (is_candidate config now input runner db r ≡ true)
      × IsOffered input db r device_id project
      × (find_run id after.runs
          ≡ some (record r {
            status = preparing;
            assigned_runner_id = some input.runner_id;
            lease_expires_at = some lease;
            started_at = some date_now;
          }))
  claim-candidate =
      let t = taken in
      let found = oldest-found config now skipped input t.runner db t.run t.oldest unique in
      let candidate = oldest-candidate config now skipped input t.runner db t.run t.oldest in
      let c = is_candidate-Claimable config now input t.runner db t.run candidate in
      let (same_runner, is_on) = runner_context-online input.runner_id db t.context in
      (
        t.runner,
        t.run,
        c.device_id,
        c.project,
        t.context,
        same_runner,
        is_on,
        ground arith,
        candidate,
        Claimable-IsOffered config now input t.runner db t.run c,
        rw (t.runs, sym t.same_id, sym t.same_lease)
            (taken-row t.run t.device_id
              (take_run date_now (create_lease_expiry config date_now) input) db.runs (λ x. refl)
              found (unique t.run.id) t.once),
      )

  -- After a claim that succeeds, if no two runs have the same identifier, the runs that are preparing
  -- or running are within the limit of the installation, those of the claimed run's project within
  -- the limit of the project, and those of the runner within the limit of a runner.
  pub claim-limits :
      (r : TestRun) (project : Project)
      → find_run id db.runs ≡ some r
      → project_of db r ≡ some project
      → (count_where is_active after.runs ≤ config.max_concurrent_runs)
        × (count_where (λ x. is_active x && project_is db project.id x) after.runs
            ≤ min project.max_concurrent_runs config.max_project_concurrent_runs)
        × (count_where (λ x. is_active x && holds x.assigned_runner_id input.runner_id) after.runs
            ≤ config.max_concurrent_runs_per_android_runner)
  claim-limits r project f g =
      let t = taken in
      let found = oldest-found config now skipped input t.runner db t.run t.oldest unique in
      let c =
        is_candidate-Claimable config now input t.runner db t.run
          (oldest-candidate config now skipped input t.runner db t.run t.oldest) in
      let limits =
        is_candidate_on-limits config now input t.runner db t.run c.project c.device_id
          c.holds_on in
      let same =
        same-project db id t.run.id r t.run project c.project t.same_id found f c.in_project g in
      let add = λ (q : TestRun → Bool).
        count_where-update_le q (is_untaken t.run t.device_id)
          (take_run date_now (create_lease_expiry config date_now) input) db.runs in
      (
        rw t.runs (omega (arith, add is_active, t.once, limits.0)),
        rw (t.runs, sym same)
            (omega
              (arith, add (λ x. is_active x && project_is db c.project.id x), t.once, limits.1)),
        rw t.runs (
            omega (
              arith,
              add (λ x. is_active x && holds x.assigned_runner_id input.runner_id),
              t.once,
              limits.2,
            )),
      )

  -- A claim that succeeds, if no two runs have the same identifier, takes the oldest candidate: every
  -- row that the runner could claim, and that no other transaction had locked, is at least as young.
  pub claim-oldest :
      (runner : Runner) (r : TestRun)
      → runner_context input.runner_id db ≡ some runner
      → find_run id db.runs ≡ some r
      → All
          (λ x.
            (is_candidate config now input runner db x && not (skipped x)) ≡ true
            → r.created_at ≤ x.created_at)
          db.runs
  claim-oldest runner r e f =
      let t = taken in
      let found = oldest-found config now skipped input t.runner db t.run t.oldest unique in
      let same_runner : t.runner ≡ runner = some-injective _ _ (sym t.context ∙ e) in
      let same_run : t.run ≡ r =
        some-injective _ _ (sym found ∙ ap (λ i. find_run i db.runs) t.same_id ∙ f) in
      subst
        (λ (p : Runner × TestRun).
          All
            (λ x.
              (is_candidate config now input p.0 db x && not (skipped x)) ≡ true
              → p.1.created_at ≤ x.created_at)
            db.runs)
        (ap (λ u. (u, t.run)) same_runner ∙ ap (λ u. (runner, u)) same_run)
        (oldest-first config now skipped input t.runner db t.run t.oldest)
