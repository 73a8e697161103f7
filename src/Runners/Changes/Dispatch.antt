-- ===== src/Runners/Changes/Dispatch.antt =====
-- A dispatch changes the row of the run that it launches, and no other.
use skytest_agent.Prelude.{
  ℕ, ◌≡◌, refl, Bool, true, not, ◌&&◌, Option, some, select-All, sort_by-All, select-holds,
  first-All, arith, option_intro, Option-cases, inl, inr, and→both,
}
use skytest_agent.Status.{queued}
use skytest_agent.Store.{Db, TestRun, Project}
use skytest_agent.Store.Keys.{find_run}
use skytest_agent.Runners.Claim.{Config, project_of}
use skytest_agent.Runners.ClaimLaws.{HasUniqueIds, find_run-All}
use skytest_agent.Runners.Dispatch.{
  has_room, passes, is_browser_candidate, is_dispatchable, next_browser_run,
  claim_browser_run_with_filter, launch_run,
}
use skytest_agent.Runners.Evolve.{take, Evolves-refl, update_where-Evolves, same_row}
use skytest_agent.Runners.Changes.{Keeps, rewritten}

module _ (config : Config) (filter : Option ℕ) (skipped : TestRun → Bool) (db : Db) (r : TestRun)
    (chosen : next_browser_run config filter skipped db ≡ some r) where
  abbrev is_free : TestRun → Bool
  is_free x = is_browser_candidate config filter db x && not (skipped x)

  pub chosen-candidate : is_browser_candidate config filter db r ≡ true
  unfolding next_browser_run
  chosen-candidate =
      (and→both _ _ (
        first-All (λ x. is_free x ≡ true) _ r chosen
          (sort_by-All _ _ _ (select-holds is_free db.runs)))).0

  pub chosen-found : HasUniqueIds db.runs → find_run r.id db.runs ≡ some r
  unfolding next_browser_run
  chosen-found u =
      first-All (λ x. find_run x.id db.runs ≡ some x) _ r chosen
        (sort_by-All _ _ _ (select-All _ is_free db.runs (find_run-All db.runs u)))

  -- The project that the chosen run counts for.
  pub chosen-room :
      (project : Project) × (project_of db r ≡ some project)
      × (is_dispatchable db r ≡ true)
      × (has_room config project db ≡ true)
      × (passes filter r ≡ true)
  unfolding is_browser_candidate
  chosen-room = elim (Option-cases (project_of db r)) [
    | inl e ↦ ground (arith, e, chosen-candidate)
    | inr (project, e) ↦
        let c : (is_dispatchable db r && (has_room config project db && passes filter r)) ≡ true =
          ground (arith, e, chosen-candidate) in
        let rest = and→both _ _ (and→both _ _ c).1 in
        (project, e, (and→both _ _ c).0, rest.0, rest.1)
  ]

  chosen-queued : r.status ≡ queued
  unfolding is_dispatchable
  chosen-queued = let (_, _, d, _, _) = chosen-room in ground (arith, d)

pub claim_browser_run_with_filter-Keeps :
    (config : Config) (now : ℕ) (skipped : TestRun → Bool) (filter : Option ℕ) (db : Db)
    → HasUniqueIds db.runs
    → Keeps db (claim_browser_run_with_filter config now skipped filter db).0
unfolding claim_browser_run_with_filter
claim_browser_run_with_filter-Keeps config now skipped filter db unique =
    option_intro (λ (x : Db × Option ℕ). Keeps db x.0) (next_browser_run config filter skipped db)
      (λ _. Evolves-refl db.runs)
      λ c chosen.
        let row = chosen-found config filter skipped db c chosen unique in
        let status = chosen-queued config filter skipped db c chosen in
        update_where-Evolves _ (launch_run now) db.runs (λ r. refl)
          λ id r h t.
            rw (same_row id c.id db.runs r c h row t)
              (rewritten c _ refl refl (ground (arith, status)) (rw status take))
