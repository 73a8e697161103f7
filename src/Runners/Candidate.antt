-- ===== src/Runners/Candidate.antt =====
-- What makes a queued run one that a runner may claim: the conditions of the claim's query, apart.
use skytest_agent.Prelude.{
  ◌⊎◌, ◌||◌, is_null, holds, ap, ℕ, Option, refl, ◌≡◌, Bool, true, not, ◌&&◌, none, some, List,
  Text, text_eq, ◌==◌, ==_iff, any, any_mono, arith, Option-cases, inl, inr, and→both,
  find_first_sound,
}
use skytest_agent.Status.{queued}
use skytest_agent.Store.{Capability, android, browser, Db, TestRun, Runner, RunnerDevice, Project}
use skytest_agent.Store.Keys.{is_android}
use skytest_agent.Runners.Claim.{
  Config, ClaimInput, is_candidate, is_candidate_on, is_requested, has_device, is_within_limits,
  is_blocked, runner_context, project_of,
}

-- A candidate, with the device and the project that make it one.
pub record Claimable (config : Config) (now : ℕ) (input : ClaimInput) (runner : Runner) (db : Db)
    (r : TestRun) : Type 0 where
  pub device_id : Text
  pub project : Project
  pub requested : r.requested_device_id ≡ some device_id
  pub in_project : project_of db r ≡ some project
  pub holds_on : is_candidate_on config now input runner db r project device_id ≡ true

pub is_candidate-Claimable :
    (config : Config) (now : ℕ) (input : ClaimInput) (runner : Runner) (db : Db) (r : TestRun)
    → is_candidate config now input runner db r ≡ true
    → Claimable config now input runner db r
unfolding is_candidate
is_candidate-Claimable config now input runner db r h = elim (Option-cases r.requested_device_id) [
  | inl e ↦ ground arith
  | inr (device_id, e) ↦ (elim (Option-cases (project_of db r)) [
    | inl f ↦ ground arith
    | inr (project, f) ↦ record {
      device_id = device_id;
      project = project;
      requested = e;
      in_project = f;
      holds_on = ground arith;
    }
  ])
]

-- The run is free, and the input's runner and team are those that it is for.
pub record IsOffered (input : ClaimInput) (db : Db) (r : TestRun) (device_id : Text)
    (project : Project) : Type 0 where
  pub is_queued : r.status ≡ queued
  pub not_deleted : r.deleted_at ≡ none
  pub unassigned : r.assigned_runner_id ≡ none
  pub needs_android : r.required_capability ≡ some android
  pub of_kind : (r.required_runner_kind ≡ none) ⊎ (r.required_runner_kind ≡ some input.runner_kind)
  pub for_runner : (r.requested_runner_id ≡ none) ⊎ (r.requested_runner_id ≡ some input.runner_id)
  pub asks_for : r.requested_device_id ≡ some device_id
  pub lists_device :
      any (λ d. d.runner_id == input.runner_id && text_eq d.device_id device_id) db.devices ≡ true
  pub of_project : project_of db r ≡ some project
  pub of_team : project.team_id ≡ input.team_id

listed-device :
    (runner_id : ℕ) (device_id : Text) (devices : List RunnerDevice)
    → has_device runner_id device_id devices ≡ true
    → any (λ d. d.runner_id == runner_id && text_eq d.device_id device_id) devices ≡ true
unfolding has_device
listed-device runner_id device_id devices h = any_mono _ _ devices (λ d k. ground arith) h

is_android_lem : (c : Option Capability) → is_android c ≡ true → c ≡ some android
is_android_lem none h = ground arith
is_android_lem (some android) h = refl
is_android_lem (some browser) h = ground arith

null_or : (o : Option ℕ) (n : ℕ) → (is_null o || holds o n) ≡ true → (o ≡ none) ⊎ (o ≡ some n)
null_or none n h = inl refl
null_or (some m) n h = inr (ap some ((==_iff _ _).0 h))

three_of :
    (a b c d e : Bool) → (a && (b && (c && (d && e)))) ≡ true → (a ≡ true) × (b ≡ true) × (d ≡ true)
three_of a b c d e h = ground arith

pub Claimable-IsOffered :
    (config : Config) (now : ℕ) (input : ClaimInput) (runner : Runner) (db : Db) (r : TestRun)
    (c : Claimable config now input runner db r)
    → IsOffered input db r c.device_id c.project
unfolding is_candidate_on is_requested
Claimable-IsOffered config now input runner db r c =
    let (requested, team, device) =
      three_of (is_requested input r) (c.project.team_id == input.team_id)
        (is_within_limits config input c.project db)
        (has_device input.runner_id c.device_id db.devices)
        (not (is_blocked now runner.host_fingerprint c.device_id r db)) c.holds_on in
    record {
      is_queued = ground (arith, requested);
      not_deleted = ground (arith, requested);
      unassigned = ground (arith, requested);
      needs_android = is_android_lem r.required_capability (ground (arith, requested));
      of_kind = null_or r.required_runner_kind input.runner_kind (ground (arith, requested));
      for_runner = null_or r.requested_runner_id input.runner_id (ground (arith, requested));
      asks_for = c.requested;
      lists_device = listed-device input.runner_id c.device_id db.devices device;
      of_project = c.in_project;
      of_team = ground (arith, team);
    }

-- The runner of a claim is the input's, and online.
pub runner_context-online :
    (runner_id : ℕ) (db : Db) {runner : Runner}
    → runner_context runner_id db ≡ some runner
    → (runner.id ≡ runner_id) × (runner.is_online ≡ true)
unfolding runner_context
runner_context-online runner_id db h =
    let both =
      and→both _ _ (find_first_sound (λ r. r.id == runner_id && r.is_online) db.runners h) in
    ((==_iff _ _).0 both.0, both.1)
